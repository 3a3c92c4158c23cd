-- ===== src/LruMap/Order.antt =====
-- public/lru_map_container.h: the map against a list of its keys, the one touched last in front.
use frame_work.Prelude.{
  ℕ, ◌≡◌, ◌≢◌, inl, inr, refl, sym, ap, subst, ◌∙◌, Bool, true, false, not, ◌&&◌, Option, none,
  some, List, [], ◌∷◌, ◌==◌, if◌then◌else◌, All, All-map, Bool-cases, arith,
}
use frame_work.LruMap.{
  LruMap, head, node, assign, is_some, list_node_insert, list_node_remove, fresh, get, add, remove,
  clear, lru_tail, lru_head,
}
use frame_work.LruMap.Ring.{
  Chain, Lacks, Distinct, erase, Holds, list_node_insert-Chain, list_node_remove-Chain,
}

abbrev pub member : ℕ → List ℕ → Bool
member key [] = false
member key (x ∷ xs) = if x == key then true else member key xs

member-Holds : (key : ℕ) (xs : List ℕ) → member key xs ≡ true → Holds key xs
member-Holds key [] e = absurd (ground arith)
member-Holds key (x ∷ xs) e = elim (Bool-cases (x == key)) [
  | inl t ↦ inl (ground arith)
  | inr t ↦ inr (member-Holds key xs (rw t at e))
]

member-Lacks : (key : ℕ) (xs : List ℕ) → member key xs ≡ false → Lacks key xs
member-Lacks key [] e = tt
member-Lacks key (x ∷ xs) e = elim (Bool-cases (x == key)) [
  | inl t ↦ absurd (ground arith)
  | inr t ↦ ((λ w. absurd (ground arith)), member-Lacks key xs (rw t at e))
]

Lacks-erase : (key other : ℕ) (xs : List ℕ) → Lacks other xs → Lacks other (erase key xs)
Lacks-erase key other [] l = tt
Lacks-erase key other (x ∷ xs) (l, ls) = elim (Bool-cases (x == key)) [
  | inl t ↦ rw t ls
  | inr t ↦ rw t (l, Lacks-erase key other xs ls)
]

Distinct-erase :
    (key : ℕ) (xs : List ℕ) → Distinct xs → Distinct (erase key xs) × Lacks key (erase key xs)
Distinct-erase key [] d = (tt, tt)
Distinct-erase key (x ∷ xs) (d, ds) = elim (Bool-cases (x == key)) [
  | inl t ↦ let w : x ≡ key = ground arith in rw t (ds, subst (λ k. Lacks k xs) w d)
  | inr t ↦
      let r = Distinct-erase key xs ds in
      rw t ((Lacks-erase key x xs d, r.0), ((λ w. absurd (ground arith)), r.1))
]

Lacks-member : (key : ℕ) (xs : List ℕ) → Lacks key xs → member key xs ≡ false
Lacks-member key [] l = refl
Lacks-member key (x ∷ xs) (l, ls) = elim (Bool-cases (x == key)) [
  | inl t ↦ absurd (l (ground arith))
  | inr t ↦ rw t (Lacks-member key xs ls)
]

member-erase :
    (key other : ℕ) (xs : List ℕ) → other ≢ key → member other (erase key xs) ≡ member other xs
member-erase key other [] n = refl
member-erase key other (x ∷ xs) n = elim (Bool-cases (x == key)) [
  | inl t ↦ let w : (x == other) ≡ false = ground arith in rw (t, w)
  | inr t ↦ rw (t, member-erase key other xs n)
]

-- The order of the keys after each call.
abbrev pub order_get : ℕ → Bool → List ℕ → List ℕ
order_get key lru_touch xs = if member key xs && lru_touch then key ∷ erase key xs else xs

abbrev pub order_add : ℕ → List ℕ → List ℕ
order_add key xs = if member key xs then xs else key ∷ xs

abbrev pub order_remove : ℕ → List ℕ → List ℕ
order_remove key xs = if member key xs then erase key xs else xs

removed_member :
    (key other : ℕ) (xs : List ℕ)
    → Distinct xs
    → member other (erase key xs) ≡ (if other == key then false else member other xs)
removed_member key other xs d = elim (Bool-cases (other == key)) [
  | inl e ↦
      let w : other ≡ key = ground arith in
      rw e (
        Lacks-member other (erase key xs)
          (subst (λ k. Lacks k (erase key xs)) (sym w) (Distinct-erase key xs d).1))
  | inr e ↦ rw e (member-erase key other xs (ground arith))
]

abbrev pub first : List ℕ → Option ℕ
first [] = none
first (x ∷ xs) = some x

abbrev pub last : List ℕ → Option ℕ
last [] = none
last (x ∷ []) = some x
last (x ∷ y ∷ ys) = last (y ∷ ys)

module _ {ℓ} {A : Type ℓ} where
  -- The nodes are linked in the order of the list, and the keys of the list are those of the map.
  pub record IsLru (m : LruMap A) (xs : List ℕ) : Type ℓ where
    pub chain : Chain m head xs
    pub distinct : Distinct xs
    pub stored : (key : ℕ) → is_some (m.values key) ≡ member key xs

  pub fresh-IsLru : IsLru fresh []
  unfolding fresh
  fresh-IsLru = record { chain = (refl, refl); distinct = tt; stored = λ key. refl }

  module _ {m : LruMap A} {xs : List ℕ} (key : ℕ) (w : IsLru m xs)
      (there : member key xs ≡ true) where
    taken_out : Chain (list_node_remove m (node key)) head (erase key xs)
    taken_out =
        list_node_remove-Chain m head key xs (λ e. absurd (omega arith)) (λ e. absurd (omega arith))
          (All-map _ _ xs (λ y u e. absurd (omega arith)) (everything xs)) w.distinct
          (member-Holds key xs there) w.chain
      where
        everything : (ys : List ℕ) → All (λ y. Unit {0}) ys
        everything [] = tt
        everything (y ∷ ys) = (tt, everything ys)

    touched_member : (other : ℕ) → member other (key ∷ erase key xs) ≡ member other xs
    touched_member other = elim (Bool-cases (key == other)) [
      | inl e ↦
          let k : key ≡ other = ground arith in rw e (sym (ap (λ o. member o xs) (sym k) ∙ there))
      | inr e ↦ rw e (member-erase key other xs (λ k. absurd (ground arith)))
    ]

  -- get on a map linked in the order of a list of its keys points to the value of the key, or is
  -- NULL, changes no value, and leaves the nodes linked in that order, with the key moved to the
  -- front when it is there and lru_touch is set.
  pub get-IsLru :
      {m : LruMap A} {xs : List ℕ} (key : ℕ) (lru_touch : Bool)
      → IsLru m xs
      → let (out, m') = get m key lru_touch in
        (out ≡ m.values key) × (m'.values ≡ m.values) × IsLru m' (order_get key lru_touch xs)
  unfolding get list_node_insert list_node_remove
  get-IsLru {m} {xs} key lru_touch w = elim (Bool-cases (member key xs && lru_touch)) [
    | inr e ↦ rw (w.stored key, e) (refl, refl, w)
    | inl e ↦
        let there : member key xs ≡ true = ground arith in
        let d = Distinct-erase key xs w.distinct in
        rw (w.stored key, e)
          (
            refl,
            refl,
            record {
              chain =
                  list_node_insert-Chain (list_node_remove m (node key)) key (erase key xs) d.1 d.0
                    (taken_out key w there);
              distinct = (d.1, d.0);
              stored = λ other. w.stored other ∙ sym (touched_member key w there other);
            },
          )
  ]

  -- add on a map linked in the order of a list of its keys returns a pointer exactly for a key
  -- that is not there, stores its value and links its node in front; for a key that is there it
  -- changes neither the values nor the order.
  pub add-IsLru :
      {m : LruMap A} {xs : List ℕ} (key : ℕ) (value : A)
      → IsLru m xs
      → let (fresh_key, m') = add m key value in
        (fresh_key ≡ not (member key xs))
        × (m'.values ≡ (if member key xs then m.values else assign m.values key (some value)))
        × IsLru m' (order_add key xs)
  unfolding add list_node_insert
  add-IsLru {m} {xs} key value w = elim (Bool-cases (member key xs)) [
    | inl e ↦ rw (w.stored key, e) (refl, refl, w)
    | inr e ↦
        let l = member-Lacks key xs e in
        rw (w.stored key, e)
          (
            refl,
            refl,
            record {
              chain =
                  list_node_insert-Chain (record m { values = assign m.values key (some value) })
                    key xs l w.distinct w.chain;
              distinct = (l, w.distinct);
              stored = λ other. elim (Bool-cases (other == key)) [
                | inl k ↦ let k' : (key == other) ≡ true = ground arith in rw (k, k')
                | inr k ↦
                    let k' : (key == other) ≡ false = ground arith in rw (k, k') (w.stored other)
              ];
            },
          )
  ]

  -- remove on a map linked in the order of a list of its keys takes out the value and the node of
  -- a key that is there, and changes neither the values nor the order for another.
  pub remove-IsLru :
      {m : LruMap A} {xs : List ℕ} (key : ℕ)
      → IsLru m xs
      → let m' = remove m key in
        (m'.values ≡ (if member key xs then assign m.values key none else m.values))
        × IsLru m' (order_remove key xs)
  unfolding remove list_node_remove
  remove-IsLru {m} {xs} key w = elim (Bool-cases (member key xs)) [
    | inr e ↦ rw (w.stored key, e) (refl, w)
    | inl e ↦
        rw (w.stored key, e)
          (
            refl,
            record {
              chain = taken_out key w e;
              distinct = (Distinct-erase key xs w.distinct).0;
              stored = λ other. sym (
                  removed_member key other xs w.distinct
                  ∙ sym (elim (Bool-cases (other == key)) [
                    | inl k ↦ rw k
                    | inr k ↦ rw k (w.stored other)
                  ]));
            },
          )
  ]

  pub clear-IsLru : (m : LruMap A) → IsLru (clear m) []
  unfolding clear
  clear-IsLru m = record {
    chain = (ground arith, ground arith);
    distinct = tt;
    stored = λ key. refl;
  }

  -- The value of a key, if there is one.
  abbrev pub value_of : (ℕ → Option A) → Option ℕ → Option A
  value_of values none = none
  value_of values (some key) = values key

  Chain-last :
      (m : LruMap A) (p x : ℕ) (xs : List ℕ)
      → Chain m p (x ∷ xs)
      → (y : ℕ) × (last (x ∷ xs) ≡ some y) × (m.prev head ≡ node y)
  Chain-last m p x [] (q, r, (s, t)) = (x, refl, t)
  Chain-last m p x (y ∷ ys) (q, r, s) = Chain-last m (node x) y ys s

  -- On a map linked in the order of a list of its keys, lru_head points to the value of the first
  -- key and lru_tail to that of the last, and both are NULL when there is none.
  pub ends-IsLru :
      {m : LruMap A} (xs : List ℕ)
      → IsLru m xs
      → (lru_head m ≡ value_of m.values (first xs)) × (lru_tail m ≡ value_of m.values (last xs))
  unfolding lru_head lru_tail
  ends-IsLru {m} [] w =
      let a : (head == m.next head) ≡ true = ground (arith, w.chain) in
      let b : (head == m.prev head) ≡ true = ground (arith, w.chain) in rw (a, b) (refl, refl)
  ends-IsLru {m} (x ∷ xs) w =
      let (y, e, t) = Chain-last m head x xs w.chain in
      let a : (head == node x) ≡ false = ground arith in
      let b : (head == node y) ≡ false = ground arith in rw (e, t, w.chain.0, a, b) (refl, refl)
