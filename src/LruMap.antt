-- ===== src/LruMap.antt =====
-- public/lru_map_container.h: a map from keys to values whose nodes stand in a doubly linked ring,
-- the one touched last in front. A pointer is a number: NULL is 0, &m_head is 1, and the node of
-- `key` is key + 2. `next` and `prev` are m_next and m_prev of a node; a key stands for the 32 bits
-- of an int.
pub mod Ring
pub mod Order
pub mod Uses
use frame_work.Prelude.{
  ℕ, zero, suc, ◌+◌, Bool, true, false, ◌&&◌, Option, none, some, ◌==◌, if◌then◌else◌,
}

pub record LruMap {ℓ} (A : Type ℓ) : Type ℓ where
  pub values : ℕ → Option A
  pub next : ℕ → ℕ
  pub prev : ℕ → ℕ

abbrev pub null_node : ℕ
null_node = 0

abbrev pub head : ℕ
head = 1

abbrev pub node : ℕ → ℕ
node key = suc (suc key)

abbrev pub assign {ℓ} : {A : Type ℓ} → (ℕ → A) → ℕ → A → ℕ → A
assign f i v j = if j == i then v else f j

module _ {ℓ} {A : Type ℓ} where
  abbrev pub is_some : Option A → Bool
  is_some none = false
  is_some (some a) = true

  abbrev pub set_next : LruMap A → ℕ → ℕ → LruMap A
  set_next m p q = record m { next = assign m.next p q }

  abbrev pub set_prev : LruMap A → ℕ → ℕ → LruMap A
  set_prev m p q = record m { prev = assign m.prev p q }

  unfoldable pub list_node_insert : LruMap A → ℕ → ℕ → ℕ → LruMap A
  list_node_insert m before curr after =
      let m1 = set_next m before curr in
      let m2 = set_prev m1 curr before in let m3 = set_next m2 curr after in set_prev m3 after curr

  unfoldable pub list_node_remove : LruMap A → ℕ → LruMap A
  list_node_remove m p =
      let m1 = set_next m (m.prev p) (m.next p) in
      let m2 = set_prev m1 (m1.next p) (m1.prev p) in
      let m3 = set_prev m2 p null_node in set_next m3 p null_node

  -- LRUMapContainer(); the map is empty and no node but the head exists.
  unfoldable pub fresh : LruMap A
  fresh = record { values = λ key. none; next = λ p. head; prev = λ p. head }

  -- get_node and get: the value that the iterator points to.
  unfoldable pub get : LruMap A → ℕ → Bool → Option A × LruMap A
  unfolding list_node_insert list_node_remove
  get m key lru_touch =
      if is_some (m.values key) && lru_touch
      then (let m' = list_node_remove m (node key) in
          (m.values key, list_node_insert m' head (node key) (m'.next head)))
      else (m.values key, m)

  -- add(key, value); the status says whether the pointer it returns is not NULL. For add(key) the
  -- value is what T's default constructor makes.
  unfoldable pub add : LruMap A → ℕ → A → Bool × LruMap A
  unfolding list_node_insert
  add m key value = if is_some (m.values key) then (false, m) else (
    true,
    list_node_insert (record m { values = assign m.values key (some value) }) head (node key)
        (m.next head),
  )

  -- remove(key), with remove(iterator).
  unfoldable pub remove : LruMap A → ℕ → LruMap A
  unfolding list_node_remove
  remove m key =
      if is_some (m.values key)
      then (let m' = list_node_remove m (node key) in
          record m' { values = assign m'.values key none })
      else m

  unfoldable pub clear : LruMap A → LruMap A
  clear m = record m {
    values = λ key. none;
    next = assign m.next head head;
    prev = assign m.prev head head;
  }

  -- The value of the node at `p`, when it is one.
  abbrev pub value_at : LruMap A → ℕ → Option A
  value_at m (suc (suc key)) = m.values key
  value_at m (_) = none

  unfoldable pub lru_tail : LruMap A → Option A
  lru_tail m = if head == m.prev head then none else value_at m (m.prev head)

  unfoldable pub lru_head : LruMap A → Option A
  lru_head m = if head == m.next head then none else value_at m (m.next head)
