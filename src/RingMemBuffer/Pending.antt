-- ===== src/RingMemBuffer/Pending.antt =====
-- public/ring_mem_buffer.cpp: the bytes that were pushed and not yet consumed.
use frame_work.Prelude.{
  ℕ, ◌+◌, ◌-◌, ◌^◌, ◌≤◌, ◌<◌, ◌≡◌, ◌⊎◌, inl, inr, refl, sym, ap, ap₂, ◌∙◌, true, false, List, [],
  ◌++◌, some, ℤ, ok, minus_one, ltb, leb, ◌==◌, if◌then◌else◌, length, take, drop, splice,
  Bool-cases, arith, append_assoc, append-nil, length-append, take-splice, drop-splice,
  length-splice, drop-append_le, length-take, length-drop, take-length, take-append-drop, take-drop,
  drop-length, length-replicate,
}
use frame_work.RingMemBuffer.{
  RingMemBuffer, add32, sub32, init_memory, push_data, Consumer, consume_all_data,
}

pub record IsValid (b : RingMemBuffer) : Type 0 where
  pub block : length b.buff ≡ b.size
  pub small : b.size < 2 ^ 31
  pub r_in : b.r_pos ≤ b.size
  pub w_in : b.w_pos ≤ b.size

abbrev pub pending : RingMemBuffer → List ℕ
pending b =
    if leb b.r_pos b.w_pos
    then drop b.r_pos (take b.w_pos b.buff)
    else drop b.r_pos b.buff ++ take b.w_pos b.buff

-- init_memory of a size below 2 ^ 31 leaves a valid ring with nothing pending.
pub init_memory-IsValid :
    (n : ℕ) → n < 2 ^ 31 → IsValid (init_memory n) × (pending (init_memory n) ≡ [])
unfolding init_memory
init_memory-IsValid n h = (
  record { block = length-replicate n 0; small = h; r_in = omega arith; w_in = omega arith },
  refl,
)

-- The bytes stand behind those that are pending, or the call was refused and changed nothing.
abbrev pub Pushes : RingMemBuffer → List ℕ → ℤ × RingMemBuffer → Type 0
Pushes b bytes r =
    ((r.0 ≡ ok) × IsValid r.1 × (pending r.1 ≡ pending b ++ bytes)) ⊎ (r ≡ (minus_one, b))

module _ {b : RingMemBuffer} (bytes : List ℕ) (v : IsValid b) where
  straight :
      b.w_pos + length bytes ≤ b.size
      → (b.r_pos ≤ b.w_pos) ⊎ (b.w_pos + length bytes < b.r_pos)
      → let b' = record b { buff = splice b.buff b.w_pos bytes; w_pos = b.w_pos + length bytes } in
        IsValid b' × (pending b' ≡ pending b ++ bytes)
  straight k room = (
    record {
      block = length-splice b.buff bytes b.w_pos (omega (arith, v.block)) ∙ v.block;
      small = v.small;
      r_in = v.r_in;
      w_in = k;
    },
    elim room [
      | inl le ↦
          let t : leb b.r_pos b.w_pos ≡ true = ground arith in
          let t' : leb b.r_pos (b.w_pos + length bytes) ≡ true = ground arith in
          rw (t, t')
            (ap (drop b.r_pos) (take-splice b.buff bytes b.w_pos (omega (arith, v.block)))
              ∙ drop-append_le (take b.w_pos b.buff) bytes b.r_pos
                  (omega (arith, v.block, length-take b.w_pos b.buff)))
      | inr lt ↦
          let t : leb b.r_pos b.w_pos ≡ false = ground arith in
          let t' : leb b.r_pos (b.w_pos + length bytes) ≡ false = ground arith in
          rw (t, t')
            (ap₂ ◌++◌
                (drop-splice b.buff bytes b.w_pos b.r_pos (omega (arith, v.block)) (omega arith))
                (take-splice b.buff bytes b.w_pos (omega (arith, v.block)))
              ∙ sym (append_assoc (drop b.r_pos b.buff) (take b.w_pos b.buff) bytes))
    ],
  )

  round :
      (tail over : ℕ)
      → b.w_pos + tail ≡ b.size
      → tail + over ≡ length bytes
      → over < b.r_pos
      → b.r_pos ≤ b.w_pos
      → let b' = record b {
        buff = splice (splice b.buff b.w_pos (take tail bytes)) 0 (take over (drop tail bytes));
        w_pos = over;
      } in
        IsValid b' × (pending b' ≡ pending b ++ bytes)
  round tail over e n lt le = (
    record {
      block = length-splice x rest 0 (omega (arith, block', length_rest, v.r_in)) ∙ block';
      small = v.small;
      r_in = v.r_in;
      w_in = omega (arith, v.r_in);
    },
    rw (t, t')
        (ap₂ ◌++◌ back front
          ∙ append_assoc (drop b.r_pos (take b.w_pos b.buff)) first rest
          ∙ ap (◌++◌ (drop b.r_pos (take b.w_pos b.buff))) whole),
  )
    where
      first : List ℕ
      first = take tail bytes

      rest : List ℕ
      rest = take over (drop tail bytes)

      x : List ℕ
      x = splice b.buff b.w_pos first

      length_first : length first ≡ tail
      length_first = omega (arith, length-take tail bytes)

      length_rest : length rest ≡ over
      length_rest = omega (arith, length-take over (drop tail bytes), length-drop tail bytes)

      block' : length x ≡ b.size
      block' = length-splice b.buff first b.w_pos (omega (arith, v.block, length_first)) ∙ v.block

      t : leb b.r_pos b.w_pos ≡ true
      t = ground arith

      t' : leb b.r_pos over ≡ false
      t' = ground arith

      back : drop b.r_pos (splice x 0 rest) ≡ drop b.r_pos (take b.w_pos b.buff) ++ first
      back =
          drop-splice x rest 0 b.r_pos (omega arith) (omega (arith, length_rest))
          ∙ ap (drop b.r_pos) (
              sym (take-length x (b.w_pos + length first) (omega (arith, block', length_first)))
              ∙ take-splice b.buff first b.w_pos (omega (arith, v.block)))
          ∙ drop-append_le (take b.w_pos b.buff) first b.r_pos
              (omega (arith, v.block, v.w_in, length-take b.w_pos b.buff))

      front : take over (splice x 0 rest) ≡ rest
      front =
          let k : over ≡ 0 + length rest = omega (arith, length_rest) in
          ap (λ i. take i (splice x 0 rest)) k ∙ take-splice x rest 0 (omega arith)

      whole : first ++ rest ≡ bytes
      whole =
          ap (◌++◌ first)
            (take-length (drop tail bytes) over (omega (arith, length-drop tail bytes)))
          ∙ take-append-drop tail bytes

  -- push_data of fewer than 2 ^ 31 bytes on a valid ring, where the bytes that are pending do not
  -- go round the end, or the new ones end before r_pos_: it either returns 0, leaves a valid ring
  -- and puts the bytes behind those that are pending, or returns -1 and changes nothing.
  pub push_data-Pushes :
      length bytes < 2 ^ 31
      → (b.r_pos ≤ b.w_pos) ⊎ (b.w_pos + length bytes < b.r_pos)
      → Pushes b bytes (push_data b bytes)
  unfolding push_data
  push_data-Pushes h room =
      let sum : add32 b.w_pos (length bytes) ≡ b.w_pos + length bytes =
        omega (arith, v.small, v.w_in) in
      elim (Bool-cases (leb (b.w_pos + length bytes) b.size)) [
        | inl e ↦ let s = straight (ground arith) room in rw (sum, e) (inl (refl, s.0, s.1))
        | inr e ↦
            let tail : sub32 b.size b.w_pos ≡ b.size - b.w_pos = omega (arith, v.small, v.w_in) in
            let far : b.size < b.w_pos + length bytes = ground arith in
            let over : sub32 (length bytes) (b.size - b.w_pos) ≡ length bytes - (b.size - b.w_pos) =
              omega (arith, v.small, v.w_in) in
            rw (sum, e, tail, over)
              (elim (Bool-cases (leb b.r_pos (length bytes - (b.size - b.w_pos)))) [
                | inl r ↦ rw r (inr refl)
                | inr r ↦
                    let s =
                      round (b.size - b.w_pos) (length bytes - (b.size - b.w_pos))
                        (omega (arith, v.w_in)) (omega arith) (ground arith)
                        (ground (arith, v.r_in)) in
                    rw r (inl (refl, s.0, s.1))
              ])
      ]

-- A consumer that keeps what it is handed.
abbrev pub keeps : Consumer (List ℕ)
keeps s bytes = (some ok, s ++ bytes)

-- consume_all_data on a valid ring, with a func_ that keeps what it is handed and returns 0: it
-- returns 0, leaves a valid ring with nothing pending, and func_ was handed the bytes that were
-- pending, in order.
pub consume_all_data-pending :
    {b : RingMemBuffer} (s : List ℕ)
    → IsValid b
    → let (ret, b', s') = consume_all_data keeps b s in
      (ret ≡ ok) × IsValid b' × (pending b' ≡ []) × (s' ≡ s ++ pending b)
unfolding consume_all_data
consume_all_data-pending {b} s v = elim (Bool-cases (ltb b.r_pos b.w_pos)) [
  | inl e ↦
      let t : leb b.r_pos b.w_pos ≡ true = ground arith in
      rw (e, t, end)
        (refl, done, empty, ap (◌++◌ s) (take-drop b.buff b.r_pos b.w_pos (ground arith)))
  | inr e ↦ elim (Bool-cases (ltb b.w_pos b.r_pos)) [
    | inl f ↦
        let t : leb b.r_pos b.w_pos ≡ false = ground arith in
        let all =
          take-length (drop b.r_pos b.buff) (b.size - b.r_pos)
            (omega (arith, v.block, length-drop b.r_pos b.buff)) in
        elim (Bool-cases (b.w_pos == 0)) [
          | inl z ↦
              let z' : b.w_pos ≡ 0 = ground arith in
              rw (e, f, t, all, z, end)
                (
                  refl,
                  done,
                  empty,
                  ap (◌++◌ s) (
                      sym (
                        ap (λ i. drop b.r_pos b.buff ++ take i b.buff) z'
                        ∙ append-nil (drop b.r_pos b.buff))),
                )
          | inr z ↦
              rw (e, f, t, all, z, end)
                (refl, done, empty, append_assoc s (drop b.r_pos b.buff) (take b.w_pos b.buff))
        ]
    | inr f ↦
        let t : leb b.r_pos b.w_pos ≡ true = ground arith in
        let none_left =
          drop-length (take b.w_pos b.buff) b.r_pos (ground (arith, length-take b.w_pos b.buff)) in
        rw (e, f, t, end) (refl, done, empty, sym (ap (◌++◌ s) none_left ∙ append-nil s))
  ]
]
  where
    end : leb b.w_pos b.w_pos ≡ true
    end = ground arith

    empty : drop b.w_pos (take b.w_pos b.buff) ≡ []
    empty = drop-length (take b.w_pos b.buff) b.w_pos (omega (arith, length-take b.w_pos b.buff))

    done : IsValid (record b { r_pos = b.w_pos })
    done = record { block = v.block; small = v.small; r_in = v.w_in; w_in = v.w_in }

-- Where the bytes that are pending go round the end of a valid ring, and new ones fit before the
-- end but reach r_pos_, push_data returns 0 although afterwards fewer bytes are pending than were
-- before and were pushed together.
pub push_data-overruns :
    {b : RingMemBuffer} (bytes : List ℕ)
    → IsValid b
    → b.w_pos < b.r_pos
    → b.r_pos ≤ b.w_pos + length bytes
    → b.w_pos + length bytes ≤ b.size
    → let (s, b') = push_data b bytes in
      (s ≡ ok) × (length (pending b') < length (pending b) + length bytes)
unfolding push_data
push_data-overruns {b} bytes v lt over fit =
    let sum : add32 b.w_pos (length bytes) ≡ b.w_pos + length bytes = omega (arith, v.small) in
    let e : leb (b.w_pos + length bytes) b.size ≡ true = ground arith in
    let t : leb b.r_pos b.w_pos ≡ false = ground arith in
    let t' : leb b.r_pos (b.w_pos + length bytes) ≡ true = ground arith in
    let mem = splice b.buff b.w_pos bytes in
    rw (sum, e, t, t')
      (
        refl,
        omega (
          arith,
          length-drop b.r_pos (take (b.w_pos + length bytes) mem),
          length-take (b.w_pos + length bytes) mem,
          length-append (drop b.r_pos b.buff) (take b.w_pos b.buff),
          length-drop b.r_pos b.buff,
          length-take b.w_pos b.buff,
          v.block,
        ),
      )
