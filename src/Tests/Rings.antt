-- ===== src/Tests/Rings.antt =====
-- Runs of the ring of bytes.
use frame_work.Prelude.{◌+◌, ◌<◌, ◌≡◌, inl, refl, [], ◌∷◌, ok, length, arith}
use frame_work.RingMemBuffer.{RingMemBuffer, push_data}
use frame_work.RingMemBuffer.Pending.{
  IsValid, pending, Pushes, push_data-Pushes, push_data-overruns,
}

-- Three bytes in the middle; and four that go round the end.
abbrev middle : RingMemBuffer
middle = record { size = 8; r_pos = 3; w_pos = 6; buff = 0 ∷ 0 ∷ 0 ∷ 1 ∷ 2 ∷ 3 ∷ 0 ∷ 0 ∷ [] }

abbrev around : RingMemBuffer
around = record { size = 8; r_pos = 6; w_pos = 2; buff = 3 ∷ 4 ∷ 0 ∷ 0 ∷ 0 ∷ 0 ∷ 1 ∷ 2 ∷ [] }

middle-IsValid : IsValid middle
middle-IsValid = record {
  block = refl;
  small = omega arith;
  r_in = omega arith;
  w_in = omega arith;
}

around-IsValid : IsValid around
around-IsValid = record {
  block = refl;
  small = omega arith;
  r_in = omega arith;
  w_in = omega arith;
}

push_data-Pushes_example :
    Pushes middle (4 ∷ 5 ∷ 6 ∷ 7 ∷ []) (push_data middle (4 ∷ 5 ∷ 6 ∷ 7 ∷ []))
push_data-Pushes_example =
    push_data-Pushes {b = middle} (4 ∷ 5 ∷ 6 ∷ 7 ∷ []) middle-IsValid (omega arith)
      (inl (omega arith))

push_data-overruns_example :
    let (s, b') = push_data around (5 ∷ 6 ∷ 7 ∷ 8 ∷ 9 ∷ []) in
    (s ≡ ok) × (length (pending b') < length (pending around) + 5)
push_data-overruns_example =
    push_data-overruns {b = around} (5 ∷ 6 ∷ 7 ∷ 8 ∷ 9 ∷ []) around-IsValid (omega arith)
      (omega arith) (omega arith)
