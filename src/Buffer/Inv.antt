-- ===== src/Buffer/Inv.antt =====
-- framework/buffer.h and framework/buffer.cpp: the order of the pointers.
use frame_work.Prelude.{
  ℕ, ◌⊎◌, ok, ltb, ◌==◌, ◌&&◌, zero, suc, ◌<◌, ◌≢◌, refl, ◌≤◌, ◌≡◌, List, false, ℤ, pos, negsuc,
  arith, length, take, length-splice, length-take, length-drop, Option-cases, inl, inr,
}
use frame_work.Buffer.{
  Buffer, null_buffer, data_size, space_size, contents, store, push_data, pop_data, clear, fini,
  adjust, init, resize,
}
use frame_work.Buffer.Alloc.{Allocator, Refused, IsLawful}

pub record IsValid (b : Buffer) : Type 0 where
  pub order : b.rd ≤ b.wr
  pub room : b.wr ≤ b.end
  pub block : length b.mem ≡ b.end
  pub dead : b.live ≡ false → b.end ≡ 0
  pub owned : b.dangling ≡ false

pub null_buffer-IsValid : IsValid null_buffer
unfolding null_buffer
null_buffer-IsValid = ground arith

pub length-contents : {b : Buffer} → IsValid b → length (contents b) ≡ data_size b
length-contents {b} v = omega (arith, length-drop b.rd (take b.wr b.mem), length-take b.wr b.mem)

pub store-IsValid :
    {b : Buffer} (bytes : List ℕ)
    → IsValid b
    → length bytes ≤ space_size b
    → IsValid (store b bytes)
store-IsValid {b} bytes v h = ground (arith, length-splice b.mem bytes b.wr)

pub push_data-IsValid : {b : Buffer} (n : ℤ) → IsValid b → IsValid (push_data b n).1
unfolding push_data
push_data-IsValid (negsuc n) v = v
push_data-IsValid (pos n) v = ground arith

pub pop_data-IsValid : {b : Buffer} (n : ℤ) → IsValid b → IsValid (pop_data b n).1
unfolding pop_data
pop_data-IsValid (negsuc n) v = v
pop_data-IsValid (pos n) v = ground arith

pub clear-IsValid : {b : Buffer} → IsValid b → IsValid (clear b)
unfolding clear
clear-IsValid v = ground arith

pub fini-IsValid : {b : Buffer} → IsValid b → IsValid (fini b)
unfolding fini
fini-IsValid v = ground arith

pub adjust-IsValid : {b : Buffer} → IsValid b → IsValid (adjust b)
unfolding adjust
adjust-IsValid {b} v = ground (arith, length-splice b.mem (contents b) 0, length-contents v)

pub init-IsValid :
    {a : Allocator} {b : Buffer} (n : ℤ) → IsLawful a → IsValid b → IsValid (init a b n).1
unfolding init
init-IsValid (negsuc n) l v = v
init-IsValid {a} {b} (pos n) l v = elim (Option-cases (a.malloc n)) [
  | inl e ↦ ground arith
  | inr (m, e) ↦ ground (arith, l.malloc_size n m)
]

pub positive-ne : {n : ℕ} → 0 < n → pos n ≢ pos 0
positive-ne {n} h e = let q : n ≡ 0 = cc in omega arith

-- resize to any size but 0, with a lawful allocator, keeps a buffer valid.
pub resize-IsValid :
    {a : Allocator} {b : Buffer} (n : ℤ)
    → n ≢ pos 0
    → IsLawful a
    → IsValid b
    → IsValid (resize a b n).1
unfolding resize
resize-IsValid (negsuc n) z l v = v
resize-IsValid {a} {b} (pos zero) z l v = absurd (z refl)
resize-IsValid {a} {b} (pos (suc k)) z l v =
    let n = suc k in
    elim (Option-cases (a.realloc b.mem n)) [
      | inl e ↦ ground arith
      | inr (m, e) ↦ ground (arith, l.realloc_size b.mem n m)
    ]

-- A resize leaves the read and write pointers at their offsets.
pub resize-pointers :
    (a : Allocator) (b : Buffer) (n : ℕ)
    → 0 < n
    → ((resize a b (pos n)).1.rd ≡ b.rd) × ((resize a b (pos n)).1.wr ≡ b.wr)
unfolding resize
resize-pointers a b n h = elim (Option-cases (a.realloc b.mem n)) [
  | inl e ↦ ground arith
  | inr (m, e) ↦ ground arith
]

-- A resize that is big enough answers 0, unless the allocator refuses.
pub resize-asks :
    (a : Allocator) (b : Buffer) (n : ℕ)
    → 0 < n
    → b.wr ≤ n
    → ((resize a b (pos n)).0 ≡ ok) ⊎ Refused a
unfolding resize
resize-asks a b n h k =
    let big : ltb n b.wr ≡ false = ground arith in
    let some_size : (n == 0) && b.live ≡ false = ground arith in
    elim (Option-cases (a.realloc b.mem n)) [
      | inl e ↦ inr (b.mem, n, h, e)
      | inr (m, e) ↦ inl (rw (big, some_size, e) refl)
    ]
