-- ===== src/LruMap/Ring.antt =====
-- public/lru_map_container.h: the ring of nodes against a list of keys.
use frame_work.Prelude.{
  ℕ, ◌≡◌, ◌≢◌, ◌⊎◌, inl, inr, refl, sym, ap, subst, ◌∙◌, List, [], ◌∷◌, ◌==◌, if◌then◌else◌, All,
  All-map, Bool-cases, arith,
}
use frame_work.LruMap.{LruMap, null_node, head, node, list_node_insert, list_node_remove}

-- No key is `key`.
abbrev pub Lacks : ℕ → List ℕ → Type 0
Lacks key xs = All (λ x. x ≢ key) xs

abbrev pub Distinct : List ℕ → Type 0
Distinct [] = Unit {0}
Distinct (x ∷ xs) = Lacks x xs × Distinct xs

abbrev pub erase : ℕ → List ℕ → List ℕ
erase key [] = []
erase key (x ∷ xs) = if x == key then xs else x ∷ erase key xs

-- Some key is `key`.
abbrev pub Holds : ℕ → List ℕ → Type 0
Holds key [] = key ≢ key
Holds key (x ∷ xs) = (x ≡ key) ⊎ Holds key xs

later : {x key : ℕ} (xs : List ℕ) → (x ≡ key) ⊎ Holds key xs → x ≢ key → Holds key xs
later xs (inl e) n = absurd (n e)
later xs (inr h) n = h

pub apart : (x key : ℕ) (xs : List ℕ) → Lacks x xs → Holds key xs → x ≢ key
apart x key [] l h = absurd (h refl)
apart x key (y ∷ ys) (l, ls) (inl e) = λ t. l (e ∙ sym t)
apart x key (y ∷ ys) (l, ls) (inr h) = apart x key ys ls h

module _ {ℓ} {A : Type ℓ} where
  -- From the node at `p` on, the ring goes through the nodes of these keys, and back to the head.
  abbrev pub Chain : LruMap A → ℕ → List ℕ → Type 0
  Chain m p [] = (m.next p ≡ head) × (m.prev head ≡ p)
  Chain m p (x ∷ xs) = (m.next p ≡ node x) × (m.prev (node x) ≡ p) × Chain m (node x) xs

  -- Changes at pointers that the chain does not pass leave it alone.
  pub Chain-frame :
      (m m' : LruMap A) (p : ℕ) (xs : List ℕ)
      → m'.next p ≡ m.next p
      → m'.prev head ≡ m.prev head
      → All (λ x. (m'.next (node x) ≡ m.next (node x)) × (m'.prev (node x) ≡ m.prev (node x))) xs
      → Chain m p xs
      → Chain m' p xs
  Chain-frame m m' p [] n h a (c, d) = (n ∙ c, h ∙ d)
  Chain-frame m m' p (x ∷ xs) n h (a, as') (c, d, e) =
      (n ∙ c, a.1 ∙ d, Chain-frame m m' (node x) xs a.0 h as' e)

  prev_avoids :
      (m : LruMap A) (p c key : ℕ) (xs : List ℕ)
      → c ≢ p
      → All (λ x. node x ≢ c) xs
      → Holds key xs
      → Chain m p xs
      → m.prev (node key) ≢ c
  prev_avoids m p c key [] n a h q = absurd (h refl)
  prev_avoids m p c key (x ∷ xs) n (a, as') (inl e) (q, r, s) =
      λ t. n (sym t ∙ ap (λ k. m.prev (node k)) (sym e) ∙ r)
  prev_avoids m p c key (x ∷ xs) n (a, as') (inr h) (q, r, s) =
      prev_avoids m (node x) c key xs (λ t. a (sym t)) as' h s

  next_avoids_first :
      (m : LruMap A) (c x : ℕ) (xs : List ℕ)
      → c ≢ head
      → All (λ x. node x ≢ c) xs
      → Chain m (node x) xs
      → m.next (node x) ≢ c
  next_avoids_first m c x [] n a (s, t) = λ u. n (sym u ∙ s)
  next_avoids_first m c x (y ∷ ys) n (b, bs) (s, t, t') = λ u. b (sym s ∙ u)

  next_avoids :
      (m : LruMap A) (p c key : ℕ) (xs : List ℕ)
      → c ≢ head
      → All (λ x. node x ≢ c) xs
      → Holds key xs
      → Chain m p xs
      → m.next (node key) ≢ c
  next_avoids m p c key [] n a h q = absurd (h refl)
  next_avoids m p c key (x ∷ xs) n (a, as') (inl e) (q, r, s) =
      λ u. next_avoids_first m c x xs n as' s (ap (λ k. m.next (node k)) e ∙ u)
  next_avoids m p c key (x ∷ xs) n (a, as') (inr h) (q, r, s) =
      next_avoids m (node x) c key xs n as' h s

  not_own :
      (m : LruMap A) (p key : ℕ) (xs : List ℕ)
      → p ≢ node key
      → Distinct xs
      → Holds key xs
      → Chain m p xs
      → m.prev (node key) ≢ node key
  not_own m p key [] n d h c = absurd (h refl)
  not_own m p key (x ∷ xs) n (d, ds) (inl e) (q, r, s) =
      λ u. n (sym r ∙ ap (λ k. m.prev (node k)) e ∙ u)
  not_own m p key (x ∷ xs) n (d, ds) (inr h) (q, r, s) =
      let w = apart x key xs d h in not_own m (node x) key xs (λ t. w (omega arith)) ds h s

  -- The links after list_node_remove of a node that is not its own neighbour.
  module _ (m : LruMap A) (k c : ℕ) (own : m.prev k ≢ k) (ne : c ≢ k) where
    next_stays : c ≢ m.prev k → (list_node_remove m k).next c ≡ m.next c
    unfolding list_node_remove
    next_stays h = ground arith

    prev_stays : c ≢ m.next k → (list_node_remove m k).prev c ≡ m.prev c
    unfolding list_node_remove
    prev_stays h = ground arith

    next_moves : m.prev k ≡ c → (list_node_remove m k).next c ≡ m.next k
    unfolding list_node_remove
    next_moves h = ground arith

    prev_moves : m.next k ≡ c → (list_node_remove m k).prev c ≡ m.prev k
    unfolding list_node_remove
    prev_moves h = ground arith

  -- The nodes of a chain behind the one that is taken out keep their links.
  pub rest-Chain :
      (m : LruMap A) (p key : ℕ) (xs : List ℕ)
      → m.prev (node key) ≢ node key
      → p ≢ node key
      → p ≢ m.prev (node key)
      → head ≢ m.next (node key)
      → Lacks key xs
      → All (λ x. node x ≢ m.prev (node key)) xs
      → All (λ x. node x ≢ m.next (node key)) xs
      → Chain m p xs
      → Chain (list_node_remove m (node key)) p xs
  rest-Chain m p key [] o n f g l a b (c, d) =
      (next_stays m (node key) p o n f ∙ c, prev_stays m (node key) head o (omega arith) g ∙ d)
  rest-Chain m p key (x ∷ xs) o n f g (l, ls) (a, as') (b, bs) (c, d, e) = (
    next_stays m (node key) p o n f ∙ c,
    prev_stays m (node key) (node x) o (λ t. l (omega arith)) b ∙ d,
    rest-Chain m (node x) key xs o (λ t. l (omega arith)) a g ls as' bs e,
  )

  first-Chain :
      (m : LruMap A) (p key : ℕ) (xs : List ℕ)
      → p ≢ node key
      → All (λ x. node x ≢ p) xs
      → Lacks key xs
      → Distinct xs
      → Chain m p (key ∷ xs)
      → Chain (list_node_remove m (node key)) p xs
  first-Chain m p key [] n a l d (q, r, (s, t)) =
      let o : m.prev (node key) ≢ node key = λ e. n (sym r ∙ e) in
      (next_moves m (node key) p o n r ∙ s, prev_moves m (node key) head o (omega arith) s ∙ r)
  first-Chain m p key (x ∷ xs) n (a, as') (l, ls) (d, ds) (q, r, (s, t, u)) =
      let o : m.prev (node key) ≢ node key = λ e. n (sym r ∙ e) in
      let f : node x ≢ node key = λ e. l (omega arith) in
      (
        next_moves m (node key) p o n r ∙ s,
        prev_moves m (node key) (node x) o f s ∙ r,
        rest-Chain m (node x) key xs o f (λ e. a (e ∙ r)) (λ e. absurd (omega (arith, e ∙ s))) ls
            (All-map _ _ xs (λ y h e. h (e ∙ r)) as')
            (All-map _ _ xs (λ y h e. h (omega (arith, e ∙ s))) d) u,
      )

  -- list_node_remove takes the node of the key out of the chain.
  pub list_node_remove-Chain :
      (m : LruMap A) (p key : ℕ) (xs : List ℕ)
      → p ≢ node key
      → p ≢ null_node
      → All (λ x. node x ≢ p) xs
      → Distinct xs
      → Holds key xs
      → Chain m p xs
      → Chain (list_node_remove m (node key)) p (erase key xs)
  list_node_remove-Chain m p key [] n z a d h c = absurd (h refl)
  list_node_remove-Chain m p key (x ∷ xs) n z (a, as') (d, ds) h (q, r, s) =
      elim (Bool-cases (x == key)) [
        | inl e ↦
            let w : x ≡ key = ground arith in
            rw e (
              first-Chain m p key xs n as' (subst (λ k. Lacks k xs) w d) ds (
                q ∙ ap node w,
                ap (λ k. m.prev (node k)) (sym w) ∙ r,
                subst (λ k. Chain m (node k) xs) w s,
              ))
        | inr e ↦
            let w : x ≢ key = ground arith in
            let in_rest = later xs h w in
            let o : m.prev (node key) ≢ node key =
              not_own m (node x) key xs (λ t. w (omega arith)) ds in_rest s in
            rw e (
              next_stays m (node key) p o n
                    (λ t. prev_avoids m (node x) p key xs (λ u. a (sym u)) as' in_rest s (sym t))
                  ∙ q,
              prev_stays m (node key) (node x) o (λ t. w (omega arith))
                    (λ t.
                      next_avoids m (node x) (node x) key xs (omega arith)
                        (All-map _ _ xs (λ y g u. g (omega arith)) d) in_rest s (sym t))
                  ∙ r,
              list_node_remove-Chain m (node x) key xs (λ t. w (omega arith)) (omega arith)
                  (All-map _ _ xs (λ y g u. g (omega arith)) d) ds in_rest s,
            )
      ]

  -- The links after list_node_insert of `k` between the head and `q`.
  module _ (m : LruMap A) (k q c : ℕ) (up : k ≢ head) where
    next_kept : c ≢ head → c ≢ k → (list_node_insert m head k q).next c ≡ m.next c
    unfolding list_node_insert
    next_kept h n = ground arith

    prev_kept : c ≢ k → c ≢ q → (list_node_insert m head k q).prev c ≡ m.prev c
    unfolding list_node_insert
    prev_kept h n = ground arith

    next_of_head : (list_node_insert m head k q).next head ≡ k
    unfolding list_node_insert
    next_of_head = ground arith

    next_of_new : (list_node_insert m head k q).next k ≡ q
    unfolding list_node_insert
    next_of_new = ground arith

    prev_of_new : k ≢ q → (list_node_insert m head k q).prev k ≡ head
    unfolding list_node_insert
    prev_of_new n = ground arith

    prev_of_after : (list_node_insert m head k q).prev q ≡ k
    unfolding list_node_insert
    prev_of_after = ground arith

  -- list_node_insert behind the head puts the node in front.
  pub list_node_insert-Chain :
      (m : LruMap A) (key : ℕ) (xs : List ℕ)
      → Lacks key xs
      → Distinct xs
      → Chain m head xs
      → Chain (list_node_insert m head (node key) (m.next head)) head (key ∷ xs)
  list_node_insert-Chain m key [] l d (q, r) =
      let up : node key ≢ head = λ e. absurd (omega arith) in
      let at : (i : ℕ) → head ≡ i → node key ≢ i = λ i e t. absurd (omega arith) in
      (
        next_of_head m (node key) (m.next head) 0 up,
        prev_of_new m (node key) (m.next head) 0 up (at (m.next head) (sym q)),
        (
          next_of_new m (node key) (m.next head) 0 up ∙ q,
          subst (λ i. (list_node_insert m head (node key) (m.next head)).prev i ≡ node key) q
              (prev_of_after m (node key) (m.next head) 0 up),
        ),
      )
  list_node_insert-Chain m key (x ∷ xs) (l, ls) (d, ds) (q, r, s) =
      let up : node key ≢ head = λ e. absurd (omega arith) in
      let at : node key ≢ m.next head = λ e. l (omega (arith, q)) in
      let m' = list_node_insert m head (node key) (m.next head) in
      (
        next_of_head m (node key) (m.next head) 0 up,
        prev_of_new m (node key) (m.next head) 0 up at,
        (
          next_of_new m (node key) (m.next head) 0 up ∙ q,
          subst (λ i. m'.prev i ≡ node key) q (prev_of_after m (node key) (m.next head) 0 up),
          Chain-frame m m' (node x) xs
              (next_kept m (node key) (m.next head) (node x) up (λ e. absurd (omega arith))
                (λ e. l (omega arith)))
              (prev_kept m (node key) (m.next head) head up (λ e. absurd (omega arith))
                (λ e. absurd (omega (arith, q))))
              (links xs ls d) s,
        ),
      )
    where
      links :
          (ys : List ℕ)
          → Lacks key ys
          → Lacks x ys
          → All
              (λ y.
                ((list_node_insert m head (node key) (m.next head)).next (node y) ≡ m.next (node y))
                × ((list_node_insert m head (node key) (m.next head)).prev (node y)
                    ≡ m.prev (node y)))
              ys
      links [] a b = tt
      links (y ∷ ys) (a, as') (b, bs) = (
        (
          next_kept m (node key) (m.next head) (node y) (λ e. absurd (omega arith))
              (λ e. absurd (omega arith)) (λ e. a (omega arith)),
          prev_kept m (node key) (m.next head) (node y) (λ e. absurd (omega arith))
              (λ e. a (omega arith)) (λ e. b (omega (arith, q))),
        ),
        links ys as' bs,
      )
