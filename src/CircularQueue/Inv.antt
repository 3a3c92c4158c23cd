-- ===== src/CircularQueue/Inv.antt =====
-- framework/circular_queue.h: the well-formed queue.
use frame_work.Prelude.{
  ℕ, ◌≤◌, ◌<◌, ◌≡◌, true, pos, ok, arith, length, length-set, length-replicate,
}
use frame_work.CircularQueue.{CircularQueue, fresh, init, push, pop, is_empty}

module _ {ℓ} {A : Type ℓ} where
  -- An initialised queue.
  pub record IsValid (q : CircularQueue A) : Type 0 where
    pub alive : q.live ≡ true
    pub size : 4 ≤ q.maxsize
    pub array : length q.items ≡ q.maxsize
    pub front_in : q.front < q.maxsize
    pub back_in : q.back < q.maxsize

  -- init of a fresh queue with a size of at least 4 returns 0 and leaves a valid, empty queue.
  pub init-IsValid :
      (d : A) (n : ℕ)
      → 4 ≤ n
      → let (s, q) = init d fresh (pos n) in (s ≡ ok) × IsValid q × (is_empty q ≡ true)
  unfolding init fresh
  init-IsValid d n h = ground (arith, length-replicate n d)

  pub push-IsValid : {q : CircularQueue A} (x : A) → IsValid q → IsValid (push q x).1
  unfolding push
  push-IsValid {q} x v = ground (arith, length-set q.items q.front x)

  pub pop-IsValid : {q : CircularQueue A} → IsValid q → IsValid (pop q).2
  unfolding pop
  pop-IsValid v = ground arith

  pub maxsize-push : (q : CircularQueue A) (x : A) → (push q x).1.maxsize ≡ q.maxsize
  unfolding push
  maxsize-push q x = ground arith

  pub maxsize-pop : (q : CircularQueue A) → (pop q).2.maxsize ≡ q.maxsize
  unfolding pop
  maxsize-pop q = ground arith
