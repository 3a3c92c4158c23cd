-- ===== src/StrUtil/Trim.antt =====
-- str_trim, str_ltrim and str_rtrim of public/str_util.cpp.
use frame_work.Prelude.{
  ℕ, suc, ◌+◌, ◌-◌, Bool, true, false, not, ◌||◌, List, [], ◌∷◌, Option, none, some, ◌==◌, take,
  drop,
}
use frame_work.StrUtil.{index_where}

-- The literal of ALL_WHITE_SPACE is read up to its first NUL, which leaves the space.
abbrev pub all_white_space : List ℕ
all_white_space = 32 ∷ []

abbrev pub is_in : List ℕ → ℕ → Bool
is_in [] c = false
is_in (x ∷ xs) c = (c == x) || is_in xs c

-- s.find_first_not_of(whitespaces) and s.find_last_not_of(whitespaces)
abbrev pub find_first_not_of : List ℕ → Option ℕ
find_first_not_of s = index_where (λ c. not (is_in all_white_space c)) s

abbrev pub last_or : Option ℕ → Bool → Option ℕ
last_or (some i) b = some (suc i)
last_or none true = none
last_or none false = some 0

abbrev pub find_last_not_of : List ℕ → Option ℕ
find_last_not_of [] = none
find_last_not_of (x ∷ xs) = last_or (find_last_not_of xs) (is_in all_white_space x)

abbrev pub between : List ℕ → Option ℕ → Option ℕ → List ℕ
between s none last = []
between s (some first) none = []
between s (some first) (some last) = take (last - first + 1) (drop first s)

unfoldable pub str_trim : List ℕ → List ℕ
str_trim s = between s (find_first_not_of s) (find_last_not_of s)

abbrev pub from : List ℕ → Option ℕ → List ℕ
from s none = []
from s (some first) = drop first s

unfoldable pub str_ltrim : List ℕ → List ℕ
str_ltrim s = from s (find_first_not_of s)

abbrev pub up_to : List ℕ → Option ℕ → List ℕ
up_to s none = []
up_to s (some last) = take (last + 1) s

unfoldable pub str_rtrim : List ℕ → List ℕ
str_rtrim s = up_to s (find_last_not_of s)
