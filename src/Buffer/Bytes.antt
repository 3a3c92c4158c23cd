-- ===== src/Buffer/Bytes.antt =====
-- framework/buffer.h and framework/buffer.cpp: the buffer as a queue of bytes.
use frame_work.Prelude.{
  ℕ, ◌+◌, ◌≤◌, ◌<◌, ◌≡◌, sym, ap, ◌∙◌, List, [], ◌++◌, ◌∷◌, ◌≢◌, ◌⊎◌, pos, ok, arith, length, take,
  drop, drop-drop, take-splice, drop-append_le, length-take, drop-length, Option-cases, Bool-cases,
  inl, inr, ◌==◌,
}
use frame_work.Buffer.{
  Buffer, capacity, data_size, space_size, contents, store, push_data, pop_data, clear, adjust,
  resize,
}
use frame_work.Buffer.Alloc.{Allocator, IsLawful}
use frame_work.Buffer.Inv.{IsValid, length-contents}

contents-store :
    {b : Buffer} (bytes : List ℕ)
    → IsValid b
    → drop b.rd (take (b.wr + length bytes) (store b bytes).mem) ≡ contents b ++ bytes
contents-store {b} bytes v =
    ap (drop b.rd) (take-splice b.mem bytes b.wr (omega arith))
    ∙ drop-append_le (take b.wr b.mem) bytes b.rd (omega (arith, length-take b.wr b.mem))

-- Bytes, at least one, that are stored in the free space of a valid buffer and fit there are put
-- at the end of its contents by push_data, which returns 0 and keeps the capacity.
pub push_data-contents :
    {b : Buffer} (bytes : List ℕ)
    → IsValid b
    → 0 < length bytes
    → length bytes ≤ space_size b
    → let (s, b') = push_data (store b bytes) (pos (length bytes)) in
      (s ≡ ok) × (contents b' ≡ contents b ++ bytes) × (capacity b' ≡ capacity b)
unfolding push_data
push_data-contents {b} bytes v p h = ground (arith, contents-store bytes v)

drop-contents : (b : Buffer) (n : ℕ) → drop (b.rd + n) (take b.wr b.mem) ≡ drop n (contents b)
drop-contents b n = sym (drop-drop b.rd n (take b.wr b.mem))

contents_all : (b : Buffer) (n : ℕ) → IsValid b → b.wr ≤ b.rd + n → [] ≡ drop n (contents b)
contents_all b n v h = sym (drop-length (contents b) n (omega (arith, length-contents v)))

-- pop_data of a positive count that a valid buffer has returns 0, drops that many bytes from the
-- front of its contents, and keeps the capacity.
pub pop_data-contents :
    {b : Buffer} (n : ℕ)
    → IsValid b
    → 0 < n
    → n ≤ data_size b
    → let (s, b') = pop_data b (pos n) in
      (s ≡ ok) × (contents b' ≡ drop n (contents b)) × (capacity b' ≡ capacity b)
unfolding pop_data clear
pop_data-contents {b} n v p h = elim (Bool-cases (b.rd + n == b.wr)) [
  | inl e ↦ ground (arith, contents_all b n v)
  | inr e ↦ ground (arith, drop-contents b n)
]

-- adjust of a valid buffer keeps its contents and its capacity, and leaves no less space.
pub adjust-contents :
    {b : Buffer}
    → IsValid b
    → (contents (adjust b) ≡ contents b)
      × (capacity (adjust b) ≡ capacity b)
      × (space_size b ≤ space_size (adjust b))
unfolding adjust
adjust-contents {b} v = ground (arith, take-splice b.mem (contents b) 0, length-contents v)

-- resize to a size that is positive, with a lawful allocator and a valid buffer, keeps the
-- contents; it either returns 0 and gives the capacity asked for, which is not below the write
-- pointer, or returns another value and changes nothing.
pub resize-contents :
    {a : Allocator} {b : Buffer} (n : ℕ)
    → 0 < n
    → IsLawful a
    → IsValid b
    → let (s, b') = resize a b (pos n) in
      (contents b' ≡ contents b)
      × (((s ≡ ok) × (capacity b' ≡ n) × (b.wr ≤ n)) ⊎ ((s ≢ ok) × (b' ≡ b)))
unfolding resize
resize-contents {a} {b} n h l v = elim (Option-cases (a.realloc b.mem n)) [
  | inl e ↦ ground arith
  | inr (m, e) ↦ ground (arith, l.realloc_keeps b.mem n m b.wr)
]

-- The same for any bytes that fit, none included.
pub append-contents :
    {b : Buffer} (bytes : List ℕ)
    → IsValid b
    → length bytes ≤ space_size b
    → contents (push_data (store b bytes) (pos (length bytes))).1 ≡ contents b ++ bytes
unfolding push_data
append-contents {b} [] v h =
    let e : b.wr ≡ b.wr + 0 = omega arith in
    ap (λ n. drop b.rd (take n (store b []).mem)) e ∙ contents-store [] v
append-contents {b} (x ∷ xs) v h = (push_data-contents (x ∷ xs) v (omega arith) h).1
