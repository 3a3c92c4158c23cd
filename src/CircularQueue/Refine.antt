-- ===== src/CircularQueue/Refine.antt =====
-- framework/circular_queue.h: the queue against a bounded first-in first-out list.
use frame_work.Prelude.{
  ℕ, ◌+◌, ◌-◌, ◌%◌, ◌<◌, ◌≡◌, ◌≢◌, ◌⊎◌, inl, inr, ℤ, ok, minus_one, Option, some, none, arith,
  length, get_elem?, set, List, [], ◌∷◌, ◌++◌, refl, ◌==◌, if◌then◌else◌, get_elem?-set_self,
  get_elem?-set_ne, Bool-cases, ◌∙◌, ap, ap₂,
}
use frame_work.CircularQueue.{CircularQueue, push, pop, is_full, is_empty}
use frame_work.CircularQueue.Inv.{IsValid, push-IsValid, pop-IsValid, maxsize-push, maxsize-pop}

-- One step round the ring, as a case split.
step_cases :
    (i n : ℕ) → i < n → ((i + 1 < n) × ((i + 1) % n ≡ i + 1)) ⊎ ((i + 1 ≡ n) × ((i + 1) % n ≡ 0))
step_cases i n h = grind arith

-- What a client can ask of a queue.
pub data Call {ℓ} (A : Type ℓ) : Type ℓ where
  puts : A → Call A
  takes : Call A

-- The bounded queue that a client sees, oldest element first.
module _ {ℓ} {A : Type ℓ} (cap : ℕ) where
  unfoldable pub queue_push : List A → A → ℤ × List A
  queue_push xs x = if length xs == cap then (minus_one, xs) else (ok, xs ++ (x ∷ []))

module _ {ℓ} {A : Type ℓ} where
  -- From index `b` up to index `f`, going round at `n`, the array holds these elements.
  abbrev pub Between : List A → ℕ → ℕ → ℕ → List A → Type ℓ
  Between items n b f [] = (b ≡ f) × Unit {ℓ}
  Between items n b f (x ∷ xs) =
      (b ≢ f) × (get_elem? items b ≡ some x) × Between items n ((b + 1) % n) f xs

  abbrev pub Holds : CircularQueue A → List A → Type ℓ
  Holds q xs = Between q.items q.maxsize q.back q.front xs

  -- The number of elements is the distance from `b` to `f`.
  Between-length :
      (items : List A) (n b f : ℕ) (xs : List A)
      → b < n
      → f < n
      → Between items n b f xs
      → (length xs < n) × ((b + length xs ≡ f) ⊎ (b + length xs ≡ f + n))
  Between-length items n b f [] hb hf w = ground arith
  Between-length items n b f (x ∷ xs) hb hf (ne, e, w) = elim (step_cases b n hb) [
    | inl (lt, m) ↦ ground (arith, Between-length items n ((b + 1) % n) f xs)
    | inr (eq, m) ↦ ground (arith, Between-length items n ((b + 1) % n) f xs)
  ]

  -- A write at the front index extends what is held.
  Between-set :
      (items : List A) (n b f : ℕ) (xs : List A) (x : A)
      → n ≡ length items
      → b < n
      → f < n
      → (f + 1) % n ≢ b
      → Between items n b f xs
      → Between (set items f x) n b ((f + 1) % n) (xs ++ (x ∷ []))
  Between-set items n b f [] x l hb hf ne (e, u) =
      (λ h. ne (omega arith), rw e (get_elem?-set_self items f x (omega arith)), rw e (refl, u))
  Between-set items n b f (y ∷ xs) x l hb hf ne (ne', e, w) = (
    (λ h. ne (omega arith)),
    get_elem?-set_ne items x (λ h. ne' (omega arith)) ∙ e,
    Between-set items n ((b + 1) % n) f xs x l (omega arith) hf
        (λ h. ne' (grind (arith, step_cases b n hb, step_cases f n hf))) w,
  )

module _ {ℓ} {A : Type ℓ} where
  unfoldable pub queue_pop : List A → ℤ × Option A × List A
  queue_pop [] = (minus_one, none, [])
  queue_pop (x ∷ xs) = (ok, some x, xs)

  -- A client's calls in order, with what each returns: on the list, and on the ring.
  unfoldable pub queue_run : ℕ → List A → List (Call A) → List (ℤ × Option A)
  queue_run cap xs [] = []
  queue_run cap xs (puts x ∷ cs) =
      let (s, xs') = queue_push cap xs x in (s, none) ∷ queue_run cap xs' cs
  queue_run cap xs (takes ∷ cs) =
      let (s, out, xs') = queue_pop xs in (s, out) ∷ queue_run cap xs' cs

  unfoldable pub run : CircularQueue A → List (Call A) → List (ℤ × Option A)
  run q [] = []
  run q (puts x ∷ cs) = let (s, q') = push q x in (s, none) ∷ run q' cs
  run q (takes ∷ cs) = let (s, out, q') = pop q in (s, out) ∷ run q' cs

  full_length :
      {q : CircularQueue A} (xs : List A)
      → IsValid q
      → Holds q xs
      → is_full q ≡ (length xs == q.maxsize - 1)
  full_length {q} xs v w = ground (
    arith,
    Between-length q.items q.maxsize q.back q.front xs v.back_in v.front_in w,
    step_cases q.front q.maxsize v.front_in,
  )

  -- On a valid queue that holds a list, push returns -1 exactly when the list has maxsize - 1
  -- elements and then changes nothing it holds, and otherwise returns 0 and the queue holds the
  -- list with the element at its end.
  pub push-refines :
      {q : CircularQueue A} (xs : List A) (x : A)
      → IsValid q
      → Holds q xs
      → let (s, q') = push q x in
        let (s', xs') = queue_push (q.maxsize - 1) xs x in (s ≡ s') × Holds q' xs'
  unfolding push queue_push
  push-refines {q} xs x v w = rw (← full_length xs v w) (elim (Bool-cases (is_full q)) [
    | inl e ↦ rw e (refl, w)
    | inr e ↦ rw e (
      refl,
      Between-set q.items q.maxsize q.back q.front xs x (omega arith) v.back_in v.front_in
          (ground arith) w,
    )
  ])

  -- On a valid queue that holds a list, pop returns -1 exactly on the empty list and then changes
  -- nothing it holds, and otherwise returns 0, hands out the first element, and the queue holds
  -- the rest.
  pub pop-refines :
      {q : CircularQueue A} (xs : List A)
      → IsValid q
      → Holds q xs
      → let (s, out, q') = pop q in
        let (s', out', xs') = queue_pop xs in (s ≡ s') × (out ≡ out') × Holds q' xs'
  unfolding pop queue_pop
  pop-refines {q} [] v (e, u) = elim (Bool-cases (is_empty q)) [
    | inl t ↦ rw t (refl, refl, (e, u))
    | inr t ↦ absurd (ground arith)
  ]
  pop-refines {q} (x ∷ xs) v (ne, e, w) = elim (Bool-cases (is_empty q)) [
    | inl t ↦ absurd (ground arith)
    | inr t ↦ rw t (refl, e, w)
  ]

  -- On a valid queue that holds a list, any sequence of pushes and pops returns what it returns on
  -- a first-in first-out list of at most maxsize - 1 elements that starts as that list.
  pub run-refines :
      (cs : List (Call A)) {q : CircularQueue A} (xs : List A)
      → IsValid q
      → Holds q xs
      → run q cs ≡ queue_run (q.maxsize - 1) xs cs
  unfolding run queue_run
  run-refines [] xs v w = refl
  run-refines (puts x ∷ cs) {q} xs v w =
      let (s, h) = push-refines xs x v w in
      ap₂ ◌∷◌ (ap (λ t. (t, none)) s) (
        run-refines cs _ (push-IsValid x v) h
        ∙ ap (λ m. queue_run (m - 1) (queue_push (q.maxsize - 1) xs x).1 cs) (maxsize-push q x))
  run-refines (takes ∷ cs) {q} xs v w =
      let (s, o, h) = pop-refines xs v w in
      ap₂ ◌∷◌ (ap₂ (λ t u. (t, u)) s o) (
        run-refines cs _ (pop-IsValid v) h
        ∙ ap (λ m. queue_run (m - 1) (queue_pop xs).2 cs) (maxsize-pop q))
