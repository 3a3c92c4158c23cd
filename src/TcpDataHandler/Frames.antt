-- ===== src/TcpDataHandler/Frames.antt =====
-- What the packet loop of on_read does to the bytes, with the buffer left out.
use frame_work.Prelude.{
  ℕ, zero, suc, ◌+◌, ◌≤◌, ◌<◌, ◌≡◌, ◌≢◌, ◌⊎◌, inl, inr, refl, sym, ap, ◌∙◌, ◌||◌, List, [], ◌∷◌, ℤ,
  pos, negsuc, ltb, leb, ◌==◌, if◌then◌else◌, length, take, drop, arith, Bool-cases, length-drop,
}
use frame_work.Buffer.{Buffer, capacity, data_size, space_size, contents, pop_data, adjust}
use frame_work.Buffer.Alloc.{Allocator, IsLawful, Refused}
use frame_work.Buffer.Inv.{
  IsValid, length-contents, pop_data-IsValid, resize-IsValid, resize-pointers, positive-ne,
  resize-asks, adjust-IsValid,
}
use frame_work.Buffer.Bytes.{pop_data-contents, resize-contents}
use frame_work.TcpDataHandler.{error_type_request, error_type_memory}
use frame_work.TcpDataHandler.Recv.{
  Callbacks, Stop, waits, fails, max_packet_size, make_room, consume, with_size, with_info, parse,
}

module _ {ℓ} {S : Type ℓ} (c : Callbacks S) where
  -- How it ended, the bytes that are left, and the state of the derived class.
  abbrev pub Framed : Type ℓ
  Framed = Stop × List ℕ × S

  unfoldable pub frame_consume : (List ℕ → S → Framed) → List ℕ → ℕ → ℤ × S → Framed
  frame_consume next bytes size (pos zero, s) = next (drop size bytes) s
  frame_consume next bytes size (ret, s) = (fails ret, bytes, s)

  unfoldable pub frame_size : (List ℕ → S → Framed) → List ℕ → ℤ → S → Framed
  unfolding frame_consume
  frame_size next bytes (negsuc n) s = (fails error_type_request, bytes, s)
  frame_size next bytes (pos size) s =
      if ltb size 1 || ltb max_packet_size size
      then (fails error_type_request, bytes, s)
      else (if leb size (length bytes)
          then frame_consume next bytes size (c.process_packet s (take size bytes))
          else (waits, bytes, s))

  unfoldable pub frame_info : (List ℕ → S → Framed) → List ℕ → ℤ × ℤ × S → Framed
  unfolding frame_size
  frame_info next bytes (pos zero, size, s) = frame_size next bytes size s
  frame_info next bytes (ret, _, s) = (fails ret, bytes, s)

  -- Cut packets off the front until one is refused or is not there in full.
  unfoldable pub frames : ℕ → List ℕ → S → Framed
  unfolding frame_info
  frames zero bytes s = (waits, bytes, s)
  frames (suc f) [] s = (waits, [], s)
  frames (suc f) (x ∷ xs) s = frame_info (frames f) (x ∷ xs) (c.get_packet_info s (x ∷ xs))

-- The buffer between two rounds: its pointers are at the front when it is empty.
pub record IsReady (b : Buffer) : Type 0 where
  pub valid : IsValid b
  pub some_room : 0 < b.end
  pub tidy : b.wr ≡ b.rd → b.wr ≡ 0

pub pop_data-IsReady : {b : Buffer} (n : ℕ) → IsReady b → IsReady (pop_data b (pos n)).1
unfolding pop_data
pop_data-IsReady {b} n r = ground (arith, pop_data-IsValid (pos n) r.valid)

pub adjust-IsReady : {b : Buffer} → IsReady b → IsReady (adjust b)
unfolding adjust
adjust-IsReady {b} r = ground (arith, adjust-IsValid r.valid, length-contents r.valid)

-- Either there is room for the rest of the packet, and so for at least one byte, or the allocator
-- has failed; the bytes stay.
record Roomy (a : Allocator) (b : Buffer) (size : ℕ) (r : Stop × Buffer) : Type 0 where
  ready : IsReady r.1
  kept : contents r.1 ≡ contents b
  outcome :
      ((r.0 ≡ waits) × (size ≤ data_size r.1 + space_size r.1))
      ⊎ ((r.0 ≡ fails error_type_memory) × Refused a)

make_room-Roomy :
    {a : Allocator} {b : Buffer} (size : ℕ)
    → IsLawful a
    → IsReady b
    → data_size b < size
    → Roomy a b size (make_room a b size)
unfolding make_room
make_room-Roomy {a} {b} size l r h = ground (
  arith,
  resize-IsValid (pos (capacity b + size)) (positive-ne (omega arith)) l r.valid,
  resize-contents (capacity b + size) (omega arith) l r.valid,
  resize-pointers a b (capacity b + size) (omega arith),
  resize-asks a b (capacity b + size) (omega arith) (omega (arith, r.valid.room)),
)

-- A pass over the buffer against the same pass over its bytes. The only difference is that the
-- allocator may fail; a pass that waits leaves room for the next recv.
pub record Refines {ℓ} {S : Type ℓ} (a : Allocator) (r : Stop × Buffer × S) (w : Stop × List ℕ × S)
    : Type ℓ where
  pub ready : IsReady r.1
  pub bytes : contents r.1 ≡ w.1
  pub state : r.2 ≡ w.2
  pub stop : (r.0 ≡ w.0) ⊎ ((r.0 ≡ fails error_type_memory) × Refused a)
  pub room : (r.0 ≢ waits) ⊎ (0 < space_size r.1)

module _ {ℓ} {S : Type ℓ} {a : Allocator} (c : Callbacks S) (l : IsLawful a) where
  waits-ne-fails : {type : ℤ} → waits ≢ fails type
  waits-ne-fails e = cc

  -- The same stop, bytes and state on both sides.
  fails-Refines :
      (b : Buffer) (s : S) (type : ℤ)
      → IsReady b
      → Refines a (fails type, b, s) (fails type, contents b, s)
  fails-Refines b s type r = record {
    ready = r;
    bytes = refl;
    state = refl;
    stop = inl refl;
    room = inl λ e. cc;
  }

  -- The rest of the loop does as `frames`, once a packet has been taken off.
  abbrev Continues :
      (Buffer → S → Stop × Buffer × S) → (List ℕ → S → Stop × List ℕ × S) → Buffer → Type ℓ
  Continues next next' b =
      (size : ℕ) (s : S)
      → 0 < size
      → size ≤ data_size b
      → Refines a (next (pop_data b (pos size)).1 s) (next' (drop size (contents b)) s)

  module _ (next : Buffer → S → Stop × Buffer × S) (next' : List ℕ → S → Stop × List ℕ × S)
      (b : Buffer) (r : IsReady b) (ih : Continues next next' b) where
    consume-Refines :
        (size : ℕ) (p : ℤ × S)
        → 0 < size
        → size ≤ data_size b
        → Refines a (consume a c next b size p) (frame_consume c next' (contents b) size p)
    unfolding consume frame_consume
    consume-Refines size (pos zero, s) h k = ih size s h k
    consume-Refines size (pos (suc n), s) h k = fails-Refines b s _ r
    consume-Refines size (negsuc n, s) h k = fails-Refines b s _ r

    with_room-Refines :
        (size : ℕ) (s : S)
        → 0 < size
        → data_size b < size
        → Refines a (let (stop, b') = make_room a b size in (stop, b', s)) (waits, contents b, s)
    with_room-Refines size s h k =
        let m = make_room-Roomy size l r k in
        record {
          ready = m.ready;
          bytes = m.kept;
          state = refl;
          stop = elim m.outcome [ inl (e, _) ↦ inl e | inr e ↦ inr e ];
          room = elim m.outcome [
            | inl (_, q) ↦ inr (
                omega
                  (arith, length-contents m.ready.valid, ap length m.kept, length-contents r.valid))
            | inr (f, _) ↦ inl (λ e. waits-ne-fails (sym e ∙ f))
          ];
        }

    with_size-Refines :
        (size : ℤ) (s : S)
        → Refines a (with_size a c next b size s) (frame_size c next' (contents b) size s)
    unfolding with_size frame_size
    with_size-Refines (negsuc n) s = fails-Refines b s _ r
    with_size-Refines (pos size) s = elim (Bool-cases (ltb size 1 || ltb max_packet_size size)) [
      | inl bad ↦ rw bad (fails-Refines b s _ r)
      | inr fine ↦
          rw (fine, length-contents r.valid)
            (elim (Bool-cases (leb size (data_size b))) [
              | inl there ↦ rw there (
                  consume-Refines size (c.process_packet s (take size (contents b))) (ground arith)
                    (ground arith))
              | inr missing ↦ rw missing (with_room-Refines size s (ground arith) (ground arith))
            ])
    ]

    with_info-Refines :
        (i : ℤ × ℤ × S) → Refines a (with_info a c next b i) (frame_info c next' (contents b) i)
    unfolding with_info frame_info
    with_info-Refines (pos zero, size, s) = with_size-Refines size s
    with_info-Refines (pos (suc n), size, s) = fails-Refines b s _ r
    with_info-Refines (negsuc n, size, s) = fails-Refines b s _ r

  waits-Refines :
      (b : Buffer) (s : S) → IsReady b → contents b ≡ [] → Refines a (waits, b, s) (waits, [], s)
  waits-Refines b s r e = record {
    ready = r;
    bytes = e;
    state = refl;
    stop = inl refl;
    room = inr (omega (arith, ap length e, length-contents r.valid, r.tidy));
  }

  parse_round :
      (f : ℕ) (b : Buffer) (s : S) (xs : List ℕ)
      → contents b ≡ xs
      → IsReady b
      → Continues (parse a c f) (frames c f) b
      → Refines a (parse a c (suc f) b s) (frames c (suc f) xs s)
  unfolding parse frames
  parse_round f b s [] e r ih = elim (Bool-cases (data_size b == 0)) [
    | inl z ↦ rw z (waits-Refines b s r e)
    | inr n ↦ absurd (ground (arith, ap length e, length-contents r.valid))
  ]
  parse_round f b s (x ∷ xs) e r ih = elim (Bool-cases (data_size b == 0)) [
    | inl z ↦ absurd (ground (arith, ap length e, length-contents r.valid))
    | inr n ↦
        rw (n, ← e)
          (with_info-Refines (parse a c f) (frames c f) b r ih (c.get_packet_info s (contents b)))
  ]

  -- With a lawful allocator, a ready buffer, and fuel above the number of bytes in it, the packet
  -- loop of on_read on the buffer leaves the bytes and the state of the same loop on the plain
  -- bytes, stops as it does unless the allocator fails, leaves a ready buffer, and, where it
  -- waits, leaves free space.
  pub parse-Refines :
      (f : ℕ) (b : Buffer) (s : S)
      → IsReady b
      → data_size b < f
      → Refines a (parse a c f b s) (frames c f (contents b) s)
  parse-Refines zero b s r h = absurd (omega arith)
  parse-Refines (suc f) b s r h = parse_round f b s (contents b) refl r λ size s' h' k.
      let p = pop_data-contents size r.valid h' k in
      let r' = pop_data-IsReady size r in
      rw (← p.1) (
        parse-Refines f (pop_data b (pos size)).1 s' r' (
          omega (
            arith,
            ap length p.1,
            length-drop size (contents b),
            length-contents r.valid,
            length-contents r'.valid,
          )))
