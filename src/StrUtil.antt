-- ===== src/StrUtil.antt =====
-- public/str_util.h and public/str_util.cpp: text as lists of bytes, and what the sources use of
-- std::string on them.
pub mod Base64
pub mod Split
pub mod Trim
pub mod Table
pub mod Codec
pub mod Rejoin
pub mod Pieces
use frame_work.Prelude.{
  ℕ, zero, suc, ◌+◌, Bool, true, false, not, List, [], ◌∷◌, Option, none, some, ◌==◌, if◌then◌else◌,
  drop,
}

abbrev pub raise : ℕ → Option ℕ → Option ℕ
raise n none = none
raise n (some i) = some (n + i)

-- The place of the first byte that passes a test; `none` is npos.
abbrev pub index_where : (ℕ → Bool) → List ℕ → Option ℕ
index_where t [] = none
index_where t (x ∷ xs) = if t x then some 0 else raise 1 (index_where t xs)

-- s.find_first_of(c, pos)
abbrev pub find_first_of : List ℕ → ℕ → ℕ → Option ℕ
find_first_of s c pos = raise pos (index_where (λ x. x == c) (drop pos s))
