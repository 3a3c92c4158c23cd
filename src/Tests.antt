-- ===== src/Tests.antt =====
-- Concrete inputs, and what the theorems say of them: data here, the runs in the children.
pub mod Acceptors
pub mod Caches
pub mod Queues
pub mod Clocks
pub mod Configs
pub mod Connections
pub mod Datagrams
pub mod Fsms
pub mod Gates
pub mod Limits
pub mod Links
pub mod Logs
pub mod Packets
pub mod Reactors
pub mod Rings
pub mod Savers
pub mod Texts
pub mod Timers
use frame_work.Prelude.{
  ℕ, false, zero, suc, ◌≤◌, ◌≡◌, List, [], ◌∷◌, ◌++◌, Option, some, length, take, replicate,
  length-replicate, arith, true, refl, pos, ok, ℤ, ap, length-take,
}
use frame_work.Buffer.{Buffer}
use frame_work.Buffer.Alloc.{Allocator, IsLawful}
use frame_work.Buffer.Inv.{IsValid}

-- An allocator that never fails and clears new bytes.
abbrev pub pad : ℕ → List ℕ → List ℕ
pad zero xs = []
pad (suc n) [] = 0 ∷ pad n []
pad (suc n) (x ∷ xs) = x ∷ pad n xs

abbrev pub heap : Allocator
heap = record { malloc = λ n. some (replicate n 0); realloc = λ old n. some (pad n old) }

length-pad : (n : ℕ) (xs : List ℕ) → length (pad n xs) ≡ n
length-pad zero xs = refl
length-pad (suc n) [] = ap suc (length-pad n [])
length-pad (suc n) (x ∷ xs) = ap suc (length-pad n xs)

take-pad : (n k : ℕ) (xs : List ℕ) → k ≤ length xs → k ≤ n → take k (pad n xs) ≡ take k xs
take-pad n zero xs h l = refl
take-pad zero (suc k) xs h l = absurd (omega arith)
take-pad (suc n) (suc k) [] h l = absurd (omega arith)
take-pad (suc n) (suc k) (x ∷ xs) h l = ap (◌∷◌ x) (take-pad n k xs (omega arith) (omega arith))

abbrev block_of : Option (List ℕ) → List ℕ
block_of (some m) = m
block_of (_) = []

pub heap-IsLawful : IsLawful heap
heap-IsLawful = record {
  malloc_size = λ n m e. sym_length (length-replicate n 0) (ap block_of e);
  realloc_size = λ old n m e. sym_length (length-pad n old) (ap block_of e);
  realloc_keeps = λ old n m k e h l. kept k (ap block_of e) (take-pad n k old h l);
}
  where
    sym_length : {n : ℕ} {xs ys : List ℕ} → length xs ≡ n → xs ≡ ys → length ys ≡ n
    sym_length p e = rw (← e) p

    kept : (k : ℕ) {xs ys zs : List ℕ} → xs ≡ ys → take k xs ≡ zs → take k ys ≡ zs
    kept k e p = rw (← e) p

-- Eight bytes, none of them used; and the same with three bytes past the middle.
abbrev pub empty_eight : Buffer
empty_eight = record { live = true; dangling = false; mem = replicate 8 0; end = 8; rd = 0; wr = 0 }

abbrev pub late_three : Buffer
late_three = record {
  live = true;
  dangling = false;
  mem = 0 ∷ 0 ∷ 0 ∷ 0 ∷ 0 ∷ 7 ∷ 8 ∷ 9 ∷ [];
  end = 8;
  rd = 5;
  wr = 8;
}

pub empty_eight-IsValid : IsValid empty_eight
empty_eight-IsValid = record {
  owned = refl;
  order = omega arith;
  room = omega arith;
  block = refl;
  dead = λ e. cc;
}

pub late_three-IsValid : IsValid late_three
late_three-IsValid = record {
  owned = refl;
  order = omega arith;
  room = omega arith;
  block = refl;
  dead = λ e. cc;
}
