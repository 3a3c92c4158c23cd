-- ===== src/Prelude/Int.antt =====
-- The C `int`s of the sources, where a value may be negative.
use Prim.Native.Nat.{ℕ}

-- `negsuc n` is -(n + 1).
pub data ℤ : Type 0 where
  pos : ℕ → ℤ
  negsuc : ℕ → ℤ

-- The status codes that the functions of the sources return.
abbrev pub ok : ℤ
ok = pos 0

abbrev pub minus_one : ℤ
minus_one = negsuc 0

abbrev pub minus_two : ℤ
minus_two = negsuc 1

abbrev pub minus_three : ℤ
minus_three = negsuc 2
