-- ===== src/StrUtil/Split.antt =====
-- str_split_by, join and str_split of public/str_util.cpp.
use frame_work.Prelude.{
  ℕ, zero, suc, ◌+◌, ◌-◌, Bool, true, false, ◌&&◌, List, [], ◌∷◌, ◌++◌, Option, none, some, ◌==◌,
  if◌then◌else◌, length, take, drop,
}
use frame_work.StrUtil.{raise, find_first_of}

-- The loop of str_split_by from `pos` on: what it puts behind sub_strings. Each round moves pos
-- forward, so that one more than the length of src is enough fuel.
abbrev pub split_by_loop : ℕ → List ℕ → ℕ → ℕ → Option ℕ → List (List ℕ)
split_by_loop zero src c pos flag = []
split_by_loop (suc f) src c pos none = drop pos src ∷ []
split_by_loop (suc f) src c pos (some flag) =
    take (flag - pos) (drop pos src)
    ∷ split_by_loop f src c (flag + 1) (find_first_of src c (flag + 1))

unfoldable pub str_split_by : List ℕ → ℕ → List (List ℕ)
str_split_by [] c = []
str_split_by (x ∷ xs) c =
    split_by_loop (suc (length (x ∷ xs))) (x ∷ xs) c 0 (find_first_of (x ∷ xs) c 0)

abbrev pub join : List (List ℕ) → ℕ → List ℕ
join [] c = []
join (s ∷ []) c = s
join (s ∷ s' ∷ ss) c = s ++ (c ∷ join (s' ∷ ss) c)

-- src.find(delimit, pos)
abbrev pub starts_with : List ℕ → List ℕ → Bool
starts_with xs [] = true
starts_with [] (d ∷ ds) = false
starts_with (x ∷ xs) (d ∷ ds) = (x == d) && starts_with xs ds

abbrev pub index_of : List ℕ → List ℕ → Option ℕ
index_of ds [] = if starts_with [] ds then some 0 else none
index_of ds (x ∷ xs) = if starts_with (x ∷ xs) ds then some 0 else raise 1 (index_of ds xs)

abbrev pub find : List ℕ → List ℕ → ℕ → Option ℕ
find src delimit pos = raise pos (index_of delimit (drop pos src))

abbrev pub or_subst : List ℕ → List ℕ → List ℕ
or_subst null_subst [] = null_subst
or_subst null_subst (x ∷ xs) = x ∷ xs

abbrev pub split_loop : ℕ → List ℕ → List ℕ → List ℕ → ℕ → Option ℕ → List (List ℕ)
split_loop zero src delimit subst pos index = []
split_loop (suc f) src delimit subst pos none = or_subst subst (drop pos src) ∷ []
split_loop (suc f) src delimit subst pos (some index) =
    (if index == pos then subst else take (index - pos) (drop pos src))
    ∷ split_loop f src delimit subst (index + length delimit)
        (find src delimit (index + length delimit))

unfoldable pub str_split : List ℕ → List ℕ → List ℕ → List (List ℕ)
str_split [] delimit subst = []
str_split (x ∷ xs) [] subst = []
str_split (x ∷ xs) (d ∷ ds) subst =
    split_loop (suc (length (x ∷ xs))) (x ∷ xs) (d ∷ ds) subst 0 (find (x ∷ xs) (d ∷ ds) 0)
