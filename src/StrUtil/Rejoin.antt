-- ===== src/StrUtil/Rejoin.antt =====
-- What str_split_by makes of a text that join has put together.
use frame_work.Prelude.{
  ℕ, zero, suc, ◌+◌, ◌-◌, ◌≤◌, ◌<◌, ◌≡◌, ◌≢◌, refl, sym, ap, ap₂, ◌∙◌, true, false, List, [], ◌∷◌,
  ◌++◌, none, some, ◌==◌, length, take, drop, All, length-append, take-append_le, take-length,
  drop-drop, arith,
}
use frame_work.StrUtil.{raise, index_where, find_first_of}
use frame_work.StrUtil.Split.{split_by_loop, str_split_by, join}

-- A text without the delimiter.
abbrev pub Lacks : ℕ → List ℕ → Type 0
Lacks c s = All (λ x. x ≢ c) s

index_none : (c : ℕ) (s : List ℕ) → Lacks c s → index_where (λ x. x == c) s ≡ none
index_none c [] v = refl
index_none c (x ∷ xs) (h, v) =
    let q : (x == c) ≡ false = ground arith in rw q (ap (raise 1) (index_none c xs v))

index_at :
    (c : ℕ) (s rest : List ℕ)
    → Lacks c s
    → index_where (λ x. x == c) (s ++ (c ∷ rest)) ≡ some (length s)
index_at c [] rest v = let q : (c == c) ≡ true = ground arith in rw q refl
index_at c (x ∷ xs) rest (h, v) =
    let q : (x == c) ≡ false = ground arith in
    rw q (ap (raise 1) (index_at c xs rest v) ∙ ap some (omega arith))

loop-join :
    (src : List ℕ) (c f pos : ℕ) (s : List ℕ) (ss : List (List ℕ))
    → All (Lacks c) (s ∷ ss)
    → drop pos src ≡ join (s ∷ ss) c
    → length ss < f
    → split_by_loop f src c pos (find_first_of src c pos) ≡ s ∷ ss
loop-join src c zero pos s ss v e h = absurd (omega arith)
loop-join src c (suc f) pos s [] (v, _) e h =
    let q : index_where (λ x. x == c) (drop pos src) ≡ none =
      ap (index_where (λ x. x == c)) e ∙ index_none c s v in
    rw q (ap (λ p. p ∷ []) e)
loop-join src c (suc f) pos s (s' ∷ ss) (v, vs) e h =
    let rest = join (s' ∷ ss) c in
    let q : index_where (λ x. x == c) (drop pos src) ≡ some (length s) =
      ap (index_where (λ x. x == c)) e ∙ index_at c s rest v in
    let next : drop (pos + length s + 1) src ≡ rest =
      ap (λ n. drop n src) (omega arith)
      ∙ sym (drop-drop pos (length s + 1) src)
      ∙ ap (drop (length s + 1)) e
      ∙ behind s rest in
    let here : take (pos + length s - pos) (drop pos src) ≡ s =
      ap₂ take (omega arith) e
      ∙ take-append_le s (c ∷ rest) (length s) (omega arith)
      ∙ take-length s (length s) (omega arith) in
    rw q (ap₂ ◌∷◌ here (loop-join src c f (pos + length s + 1) s' ss vs next (omega arith)))
  where
    behind : (s rest : List ℕ) → drop (length s + 1) (s ++ (c ∷ rest)) ≡ rest
    behind [] rest = refl
    behind (x ∷ xs) rest =
        let n : length (x ∷ xs) + 1 ≡ suc (length xs + 1) = omega arith in
        ap (λ n. drop n (x ∷ (xs ++ (c ∷ rest)))) n ∙ behind xs rest

pieces_fit : (ss : List (List ℕ)) (c : ℕ) → length ss ≤ suc (length (join ss c))
pieces_fit [] c = omega arith
pieces_fit (s ∷ []) c = omega arith
pieces_fit (s ∷ s' ∷ ss) c =
    omega (arith, pieces_fit (s' ∷ ss) c, length-append s (c ∷ join (s' ∷ ss) c))

-- str_split_by of what join makes of some texts, none of which has the delimiter, gives the texts
-- back, where the joined text is not empty.
pub str_split_by-join :
    (s : List ℕ) (ss : List (List ℕ)) (c : ℕ)
    → All (Lacks c) (s ∷ ss)
    → join (s ∷ ss) c ≢ []
    → str_split_by (join (s ∷ ss) c) c ≡ s ∷ ss
unfolding str_split_by
str_split_by-join s ss c v h = whole (join (s ∷ ss) c) refl
  where
    whole : (src : List ℕ) → join (s ∷ ss) c ≡ src → str_split_by src c ≡ s ∷ ss
    whole [] e = absurd (h e)
    whole (x ∷ xs) e =
        loop-join (x ∷ xs) c (suc (length (x ∷ xs))) 0 s ss v (sym e)
          (omega (arith, pieces_fit (s ∷ ss) c, ap length e))
