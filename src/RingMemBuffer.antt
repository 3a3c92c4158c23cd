-- ===== src/RingMemBuffer.antt =====
-- public/ring_mem_buffer.h and public/ring_mem_buffer.cpp: a ring of bytes that one thread fills and
-- another one empties. Positions are unsigned ints, whose sums and differences keep 32 bits. A call
-- is one step: the two threads are not modelled.
pub mod Pending
use frame_work.Prelude.{
  ℕ, zero, suc, ◌+◌, ◌-◌, ◌%◌, ◌^◌, Bool, true, false, ◌&&◌, not, List, [], Option, none, some, ℤ,
  pos, negsuc, ok, minus_one, ltb, leb, ◌==◌, if◌then◌else◌, length, take, drop, splice, replicate,
}

pub record RingMemBuffer : Type 0 where
  pub size : ℕ
  pub r_pos : ℕ
  pub w_pos : ℕ
  pub buff : List ℕ

abbrev pub add32 : ℕ → ℕ → ℕ
add32 a b = (a + b) % 2 ^ 32

abbrev pub sub32 : ℕ → ℕ → ℕ
sub32 a b = (a + 2 ^ 32 - b) % 2 ^ 32

-- init_memory; buff_ stays NULL, which is the empty list, for the size 0.
unfoldable pub init_memory : ℕ → RingMemBuffer
init_memory buffer_size = record {
  size = buffer_size;
  r_pos = 0;
  w_pos = 0;
  buff = replicate buffer_size 0;
}

-- The branch that goes round the end.
abbrev pub push_round : RingMemBuffer → List ℕ → ℤ × RingMemBuffer
push_round b bytes =
    let tail_size = sub32 b.size b.w_pos in
    let over_size = sub32 (length bytes) tail_size in
    if leb b.r_pos over_size then (minus_one, b) else (
      ok,
      record b {
        buff =
            splice (splice b.buff b.w_pos (take tail_size bytes)) 0
              (take over_size (drop tail_size bytes));
        w_pos = over_size;
      },
    )

-- push_data(buf, size)
unfoldable pub push_data : RingMemBuffer → List ℕ → ℤ × RingMemBuffer
push_data b bytes =
    if leb (add32 b.w_pos (length bytes)) b.size
    then (ok, record b { buff = splice b.buff b.w_pos bytes; w_pos = add32 b.w_pos (length bytes) })
    else push_round b bytes

-- func_, with a state of its own; `none` is an exception.
abbrev pub Consumer {ℓ} : Type ℓ → Type ℓ
Consumer S = S → List ℕ → Option ℤ × S

module _ {ℓ} {S : Type ℓ} (func : Consumer S) where
  -- An exception leaves r_pos_ and `ret`, which is 0 wherever func_ is called.
  abbrev pub consumed : RingMemBuffer → Option ℤ × S → ℤ × RingMemBuffer × S
  consumed b (none, s) = (ok, b, s)
  consumed b (some ret, s) = (ret, record b { r_pos = b.w_pos }, s)

  -- if(ret == 0 && w_pos != 0), after the bytes up to the end.
  abbrev pub and_front : RingMemBuffer → Option ℤ × S → ℤ × RingMemBuffer × S
  and_front b (none, s) = (ok, b, s)
  and_front b (some (pos zero), s) =
      if not (b.w_pos == 0)
      then consumed b (func s (take b.w_pos b.buff))
      else consumed b (some ok, s)
  and_front b (some ret, s) = consumed b (some ret, s)

  unfoldable pub consume_all_data : RingMemBuffer → S → ℤ × RingMemBuffer × S
  consume_all_data b s =
      if ltb b.r_pos b.w_pos
      then consumed b (func s (take (b.w_pos - b.r_pos) (drop b.r_pos b.buff)))
      else (if ltb b.w_pos b.r_pos
          then and_front b (func s (take (b.size - b.r_pos) (drop b.r_pos b.buff)))
          else consumed b (some ok, s))
