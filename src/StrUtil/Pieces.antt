-- ===== src/StrUtil/Pieces.antt =====
-- The pieces that str_split_by and str_split cut a text into.
use frame_work.Prelude.{
  ℕ, zero, suc, ◌+◌, ◌-◌, ◌≤◌, ◌<◌, ◌≡◌, ◌≢◌, inl, inr, refl, sym, ap, ap₂, ◌∙◌, true, List, [],
  ◌∷◌, ◌++◌, Option, none, some, ◌==◌, if◌then◌else◌, length, take, drop, length-append,
  length-take, length-drop, drop-drop, Bool-cases, Option-cases, arith,
}
use frame_work.StrUtil.{raise, index_where}
use frame_work.StrUtil.Split.{
  split_by_loop, str_split_by, join, starts_with, index_of, find, or_subst, split_loop, str_split,
}

-- The texts with the delimiter between them.
abbrev pub glue : List ℕ → List (List ℕ) → List ℕ
glue d [] = []
glue d (s ∷ []) = s
glue d (s ∷ s' ∷ ss) = s ++ (d ++ glue d (s' ∷ ss))

join-glue : (ss : List (List ℕ)) (c : ℕ) → join ss c ≡ glue (c ∷ []) ss
join-glue [] c = refl
join-glue (s ∷ []) c = refl
join-glue (s ∷ s' ∷ ss) c = ap (λ t. s ++ (c ∷ t)) (join-glue (s' ∷ ss) c)

glue_cons :
    (d s : List ℕ) (l : List (List ℕ)) (x : List ℕ) (xs : List (List ℕ))
    → l ≡ x ∷ xs
    → glue d (s ∷ l) ≡ s ++ (d ++ glue d l)
glue_cons d s l x xs e = rw e refl

-- Where a search finds the delimiter, it stands there.
abbrev Finds : List ℕ → (List ℕ → Option ℕ) → Type 0
Finds d search =
    (r : List ℕ) (i : ℕ) → search r ≡ some i → r ≡ take i r ++ (d ++ drop (i + length d) r)

place :
    (d r : List ℕ) (i : ℕ)
    → 0 < length d
    → r ≡ take i r ++ (d ++ drop (i + length d) r)
    → i + length d ≤ length r
place d r i h e = omega (
  arith,
  ap length e,
  length-append (take i r) (d ++ drop (i + length d) r),
  length-append d (drop (i + length d) r),
  length-take i r,
  length-drop (i + length d) r,
)

-- A loop over the pieces of src, as the two functions have it.
module _ (d src : List ℕ) (search : List ℕ → Option ℕ) (sound : Finds d search)
    (size : 0 < length d) (loop : ℕ → ℕ → Option ℕ → List (List ℕ))
    (done : (f pos : ℕ) → loop (suc f) pos none ≡ drop pos src ∷ [])
    (more : (f pos k : ℕ)
      → loop (suc f) pos (some k)
        ≡ take (k - pos) (drop pos src)
          ∷ loop f (k + length d) (raise (k + length d) (search (drop (k + length d) src)))) where
  some_piece :
      (f pos : ℕ) (o : Option ℕ)
      → 0 < f
      → (x : List ℕ) × (xs : List (List ℕ)) × (loop f pos o ≡ x ∷ xs)
  some_piece zero pos o h = absurd (omega arith)
  some_piece (suc f) pos none h = (_, _, done f pos)
  some_piece (suc f) pos (some k) h = (_, _, more f pos k)

  glue_loop :
      (f pos : ℕ)
      → pos ≤ length src
      → length src - pos < f
      → glue d (loop f pos (raise pos (search (drop pos src)))) ≡ drop pos src
  glue_loop zero pos b h = absurd (omega arith)
  glue_loop (suc f) pos b h = elim (Option-cases (search (drop pos src))) [
    | inl e ↦ rw e (ap (glue d) (done f pos))
    | inr (i, e) ↦
        let r = drop pos src in
        let at = sound r i e in
        let next = pos + i + length d in
        let p : i + length d ≤ length src - pos =
          omega (arith, place d r i size at, length-drop pos src) in
        let rest = loop f next (raise next (search (drop next src))) in
        let (x, xs, c) = some_piece f next (raise next (search (drop next src))) (omega arith) in
        let back : glue d rest ≡ drop next src = glue_loop f next (omega arith) (omega arith) in
        let same : drop next src ≡ drop (i + length d) r =
          sym (drop-drop pos (i + length d) src ∙ ap (λ n. drop n src) (omega arith)) in
        rw e (
          ap (glue d) (more f pos (pos + i))
          ∙ glue_cons d _ rest x xs c
          ∙ ap₂ (λ n t. take n r ++ (d ++ t)) (omega arith) (back ∙ same)
          ∙ sym at)
  ]

-- A search looks at the front of the text first, and then one place further.
at_front :
    (d r : List ℕ) (i : ℕ)
    → r ≡ d ++ drop (length d) r
    → some 0 ≡ some i
    → r ≡ take i r ++ (d ++ drop (i + length d) r)
at_front d r zero h e = h ∙ ap (λ n. d ++ drop n r) (omega arith)
at_front d r (suc i) h e = absurd (cc)

one_further :
    (d : List ℕ) (x : ℕ) (xs : List ℕ) (o : Option ℕ) (i : ℕ)
    → ((j : ℕ) → o ≡ some j → xs ≡ take j xs ++ (d ++ drop (j + length d) xs))
    → raise 1 o ≡ some i
    → x ∷ xs ≡ take i (x ∷ xs) ++ (d ++ drop (i + length d) (x ∷ xs))
one_further d x xs none i ih e = absurd (cc)
one_further d x xs (some j) zero ih e = absurd (let k : 1 + j ≡ 0 = cc in omega arith)
one_further d x xs (some j) (suc i) ih e =
    let k : 1 + j ≡ suc i = cc in
    let n : suc (i + length d) ≡ suc i + length d = omega arith in
    ap (◌∷◌ x) (ih i (ap some (omega arith)))
    ∙ ap (λ n. x ∷ (take i xs ++ (d ++ drop n (x ∷ xs)))) n

index_where-Finds : (c : ℕ) → Finds (c ∷ []) (index_where (λ x. x == c))
index_where-Finds c [] i = λ e. absurd (cc)
index_where-Finds c (x ∷ xs) i = elim (Bool-cases (x == c)) [
  | inl q ↦
      let same : x ≡ c = ground arith in rw q (at_front (c ∷ []) (x ∷ xs) i (ap (λ y. y ∷ xs) same))
  | inr q ↦
      rw q (one_further (c ∷ []) x xs (index_where (λ x. x == c) xs) i (index_where-Finds c xs))
]

starts_with_lem : (r d : List ℕ) → starts_with r d ≡ true → r ≡ d ++ drop (length d) r
starts_with_lem r [] = λ h. refl
starts_with_lem [] (d ∷ ds) = λ h. absurd (cc)
starts_with_lem (x ∷ xs) (d ∷ ds) = elim (Bool-cases (x == d)) [
  | inl q ↦ let same : x ≡ d = ground arith in rw q (λ h. ap₂ ◌∷◌ same (starts_with_lem xs ds h))
  | inr q ↦ rw q (λ h. absurd (cc))
]

index_of-Finds : (d : List ℕ) → 0 < length d → Finds d (index_of d)
index_of-Finds [] h xs i = absurd (omega arith)
index_of-Finds (c ∷ d) h [] i = λ e. absurd (cc)
index_of-Finds (c ∷ d) h (x ∷ xs) i = elim (Bool-cases (starts_with (x ∷ xs) (c ∷ d))) [
  | inl q ↦ rw q (at_front (c ∷ d) (x ∷ xs) i (starts_with_lem (x ∷ xs) (c ∷ d) q))
  | inr q ↦ rw q (one_further (c ∷ d) x xs (index_of (c ∷ d) xs) i (index_of-Finds (c ∷ d) h xs))
]

-- join with a delimiter, of what str_split_by makes of a text with that delimiter, is the text.
pub join-str_split_by : (src : List ℕ) (c : ℕ) → join (str_split_by src c) c ≡ src
unfolding str_split_by
join-str_split_by [] c = refl
join-str_split_by (x ∷ xs) c =
    join-glue (str_split_by (x ∷ xs) c) c
    ∙ glue_loop (c ∷ []) (x ∷ xs) (index_where (λ x. x == c)) (index_where-Finds c) (omega arith)
        (λ f pos flag. split_by_loop f (x ∷ xs) c pos flag) (λ f pos. refl) (λ f pos k. refl)
        (suc (length (x ∷ xs))) 0 (omega arith) (omega arith)

-- The pieces that str_split makes of a text, with a delimiter that is not empty and an empty
-- null_subst, give the text when they are put together with the delimiter between them.
pub glue-str_split :
    (src delimit : List ℕ) → delimit ≢ [] → glue delimit (str_split src delimit []) ≡ src
unfolding str_split
glue-str_split [] [] h = refl
glue-str_split [] (d ∷ ds) h = refl
glue-str_split (x ∷ xs) [] h = absurd (h refl)
glue-str_split (x ∷ xs) (d ∷ ds) h =
    glue_loop (d ∷ ds) (x ∷ xs) (index_of (d ∷ ds)) (index_of-Finds (d ∷ ds) (omega arith))
      (omega arith) (λ f pos k. split_loop f (x ∷ xs) (d ∷ ds) [] pos k)
      (λ f pos. ap (λ p. p ∷ []) (kept (drop pos (x ∷ xs))))
      (λ f pos k.
        ap
          (λ p.
            p
            ∷ split_loop f (x ∷ xs) (d ∷ ds) [] (k + length (d ∷ ds))
                (find (x ∷ xs) (d ∷ ds) (k + length (d ∷ ds))))
          (piece k pos))
      (suc (length (x ∷ xs))) 0 (omega arith) (omega arith)
  where
    kept : (p : List ℕ) → or_subst [] p ≡ p
    kept [] = refl
    kept (y ∷ ys) = refl

    piece :
        (k pos : ℕ)
        → (if k == pos then [] else take (k - pos) (drop pos (x ∷ xs)))
          ≡ take (k - pos) (drop pos (x ∷ xs))
    piece k pos = elim (Bool-cases (k == pos)) [
      | inr q ↦ rw q refl
      | inl q ↦ let z : 0 ≡ k - pos = ground arith in rw q (ap (λ n. take n (drop pos (x ∷ xs))) z)
    ]
