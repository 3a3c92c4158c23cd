-- ===== src/CircularQueue.antt =====
-- framework/circular_queue.h: a ring of elements, pushed at m_front and popped at m_back.
-- `live` says that m_itemlist is not NULL. A call returns its status beside the new queue.
pub mod Inv
pub mod Refine
use frame_work.Prelude.{
  ℕ, ◌+◌, ◌%◌, Bool, true, false, not, ◌||◌, List, [], Option, none, some, ℤ, pos, negsuc, ok,
  minus_one, ltb, ◌==◌, if◌then◌else◌, get_elem?, set, replicate,
}

pub record CircularQueue {ℓ} (A : Type ℓ) : Type ℓ where
  pub live : Bool
  pub maxsize : ℕ
  pub items : List A
  pub front : ℕ
  pub back : ℕ

module _ {ℓ} {A : Type ℓ} where
  -- circular_queue::circular_queue()
  unfoldable pub fresh : CircularQueue A
  fresh = record { live = false; maxsize = 1; items = []; front = 0; back = 0 }

  -- `d` is what T's default constructor makes; `new` does not return NULL.
  unfoldable pub init : A → CircularQueue A → ℤ → ℤ × CircularQueue A
  init d q (negsuc n) = (minus_one, q)
  init d q (pos n) =
      if q.live || ltb n 4
      then (minus_one, q)
      else (ok, record q { live = true; maxsize = n; items = replicate n d })

  -- m_maxsize keeps its value.
  unfoldable pub fini : CircularQueue A → CircularQueue A
  fini q = if q.live then record q { live = false; items = []; front = 0; back = 0 } else q

  abbrev pub is_empty : CircularQueue A → Bool
  is_empty q = q.front == q.back

  abbrev pub is_full : CircularQueue A → Bool
  is_full q = (q.front + 1) % q.maxsize == q.back

  unfoldable pub push : CircularQueue A → A → ℤ × CircularQueue A
  push q x =
      if is_full q
      then (minus_one, q)
      else (ok, record q { items = set q.items q.front x; front = (q.front + 1) % q.maxsize })

  -- The option is what goes through `element` (`none` for a read out of range).
  unfoldable pub pop : CircularQueue A → ℤ × Option A × CircularQueue A
  pop q =
      if is_empty q
      then (minus_one, none, q)
      else (ok, get_elem? q.items q.back, record q { back = (q.back + 1) % q.maxsize })

  -- The element that back() points to; `none` is NULL.
  unfoldable pub back_of : CircularQueue A → Option A
  back_of q = if not q.live || is_empty q then none else get_elem? q.items q.back
