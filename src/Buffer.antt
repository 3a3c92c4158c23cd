-- ===== src/Buffer.antt =====
-- framework/buffer.h and framework/buffer.cpp: a byte buffer with a read and a write pointer.
-- A pointer is its offset from `m_begin`, and NULL pointers have offset 0; `live` says that
-- `m_begin` is not NULL, and `dangling` that the block behind the pointers has been freed. A call that changes the buffer returns its status beside the new buffer.
pub mod Alloc
pub mod Inv
pub mod Bytes
use frame_work.Prelude.{
  ℕ, ◌+◌, ◌-◌, ◌/◌, Bool, true, false, ◌&&◌, ◌||◌, List, [], ◌++◌, Option, none, some, ℤ, pos,
  negsuc, ok, minus_one, minus_two, ltb, ◌==◌, if◌then◌else◌, length, take, drop, splice,
}
use Alloc.{Allocator}

-- `mem` holds the bytes from `m_begin` on; `end`, `rd` and `wr` are `m_end`, `m_data`, `m_space`.
pub record Buffer : Type 0 where
  pub live : Bool
  pub dangling : Bool
  pub mem : List ℕ
  pub end : ℕ
  pub rd : ℕ
  pub wr : ℕ

unfoldable pub null_buffer : Buffer
null_buffer = record { live = false; dangling = false; mem = []; end = 0; rd = 0; wr = 0 }

abbrev pub capacity : Buffer → ℕ
capacity b = b.end

abbrev pub data_size : Buffer → ℕ
data_size b = b.wr - b.rd

abbrev pub space_size : Buffer → ℕ
space_size b = b.end - b.wr

-- The bytes from data() up to space().
abbrev pub contents : Buffer → List ℕ
contents b = drop b.rd (take b.wr b.mem)

-- The write through space() that comes before push_data, by recv or memcpy.
abbrev pub store : Buffer → List ℕ → Buffer
store b bytes = record b { mem = splice b.mem b.wr bytes }

unfoldable pub push_data : Buffer → ℤ → ℤ × Buffer
push_data b (negsuc n) = (minus_one, b)
push_data b (pos n) =
    if ltb n 1 || ltb (space_size b) n then (minus_one, b) else (ok, record b { wr = b.wr + n })

unfoldable pub clear : Buffer → Buffer
clear b = record b { rd = 0; wr = 0 }

unfoldable pub pop_data : Buffer → ℤ → ℤ × Buffer
unfolding clear
pop_data b (negsuc n) = (minus_one, b)
pop_data b (pos n) =
    if ltb n 1 || ltb (data_size b) n
    then (minus_one, b)
    else (ok, if b.rd + n == b.wr then clear b else record b { rd = b.rd + n })

unfoldable pub fini : Buffer → Buffer
unfolding null_buffer
fini b = if b.live then null_buffer else b

-- memmove(m_begin, m_data, count), when the read pointer is past the middle.
unfoldable pub adjust : Buffer → Buffer
adjust b =
    if b.live
    then (if ltb (b.end / 2) b.rd
        then record b { mem = splice b.mem 0 (contents b); rd = 0; wr = b.wr - b.rd }
        else b)
    else b

module _ (a : Allocator) where
  unfoldable pub init : Buffer → ℤ → ℤ × Buffer
  init b (negsuc n) = (minus_one, b)
  init b (pos n) = if ltb n 8 || b.live then (minus_one, b) else (elim (a.malloc n) [
    | none ↦ (minus_two, b)
    | some m ↦ (ok, record b { live = true; mem = m; end = n; rd = 0; wr = 0 })
  ])

  -- Where the block has moved, m_data and m_space are put at their old offsets in the new one, as
  -- they are where it has not. realloc to the size 0 frees a block and answers NULL, and the code
  -- leaves the pointers as they are;
  unfoldable pub resize : Buffer → ℤ → ℤ × Buffer
  resize b (negsuc n) = (minus_one, b)
  resize b (pos n) =
      if ltb n b.wr
      then (minus_one, b)
      else (if n == 0 && b.live
          then (minus_two, record b { dangling = true; mem = [] })
          else (elim (a.realloc b.mem n) [
            | none ↦ (minus_two, b)
            | some m ↦ (ok, record b { live = true; mem = m; end = n })
          ]))
