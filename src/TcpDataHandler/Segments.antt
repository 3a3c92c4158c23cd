-- ===== src/TcpDataHandler/Segments.antt =====
-- framework/tcp_data_handler.cpp: the packet loop on bytes that come in two parts.
use frame_work.Prelude.{
  ℕ, zero, suc, ◌≤◌, ◌<◌, ◌≡◌, inl, inr, refl, sym, ap, ◌∙◌, Bool, true, false, ◌||◌, ◌&&◌, List,
  [], ◌∷◌, ◌++◌, ℤ, pos, negsuc, ltb, leb, length, drop, arith, Bool-cases, length-drop,
  length-append, drop-append_le, take-append_le,
}
use frame_work.TcpDataHandler.Recv.{Callbacks, waits, fails, max_packet_size}
use frame_work.TcpDataHandler.Frames.{Framed, frame_consume, frame_size, frame_info, frames}

-- get_packet_info has accepted a size that is more than what is there.
pub asks_more {ℓ} : {S : Type ℓ} → ℤ × ℤ × S → ℕ → Bool
asks_more (pos zero, pos size, s) n = ltb n size && leb size max_packet_size
asks_more (_, _, s) n = false

-- What get_packet_info has to promise: an answer that is no request for more bytes stands when
-- more bytes come, and after such a request it answers as if it had not been asked before.
pub record IsStable {ℓ} {S : Type ℓ} (c : Callbacks S) : Type ℓ where
  pub same :
      (s : S) (x : ℕ) (xs ys : List ℕ)
      → asks_more (c.get_packet_info s (x ∷ xs)) (length (x ∷ xs)) ≡ false
      → c.get_packet_info s ((x ∷ xs) ++ ys) ≡ c.get_packet_info s (x ∷ xs)
  pub anew :
      (s : S) (x : ℕ) (xs ys : List ℕ)
      → asks_more (c.get_packet_info s (x ∷ xs)) (length (x ∷ xs)) ≡ true
      → c.get_packet_info (c.get_packet_info s (x ∷ xs)).2 ((x ∷ xs) ++ ys)
        ≡ c.get_packet_info s ((x ∷ xs) ++ ys)

module _ {ℓ} {S : Type ℓ} (c : Callbacks S) where
  frame_consume-eq :
      (next next' : List ℕ → S → Framed c) (bytes : List ℕ) (size : ℕ) (p : ℤ × S)
      → ((s : S) → next (drop size bytes) s ≡ next' (drop size bytes) s)
      → frame_consume c next bytes size p ≡ frame_consume c next' bytes size p
  unfolding frame_consume
  frame_consume-eq next next' bytes size (pos zero, s) h = h s
  frame_consume-eq next next' bytes size (pos (suc n), s) h = refl
  frame_consume-eq next next' bytes size (negsuc n, s) h = refl

  frame_info-eq :
      (next next' : List ℕ → S → Framed c) (bytes : List ℕ) (i : ℤ × ℤ × S)
      → ((size : ℕ) (s : S)
          → 0 < size
          → size ≤ length bytes
          → next (drop size bytes) s ≡ next' (drop size bytes) s)
      → frame_info c next bytes i ≡ frame_info c next' bytes i
  unfolding frame_info frame_size
  frame_info-eq next next' bytes (pos zero, pos size, s) h =
      elim (Bool-cases (ltb size 1 || ltb max_packet_size size)) [
        | inl bad ↦ rw bad
        | inr fine ↦ rw fine (elim (Bool-cases (leb size (length bytes))) [
          | inl there ↦ rw there (
              frame_consume-eq next next' bytes size _
                λ s'. h size s' (ground arith) (ground arith))
          | inr missing ↦ rw missing
        ])
      ]
  frame_info-eq next next' bytes (pos zero, negsuc n, s) h = refl
  frame_info-eq next next' bytes (pos (suc n), _, s) h = refl
  frame_info-eq next next' bytes (negsuc n, _, s) h = refl

  -- Any fuel above the number of bytes gives the same.
  pub frames_fuel :
      (f g : ℕ) (bytes : List ℕ) (s : S)
      → length bytes < f
      → length bytes < g
      → frames c f bytes s ≡ frames c g bytes s
  unfolding frames
  frames_fuel zero g bytes s hf hg = absurd (omega arith)
  frames_fuel (suc f) zero bytes s hf hg = absurd (omega arith)
  frames_fuel (suc f) (suc g) [] s hf hg = refl
  frames_fuel (suc f) (suc g) (x ∷ xs) s hf hg =
      frame_info-eq (frames c f) (frames c g) (x ∷ xs) (c.get_packet_info s (x ∷ xs)) λ size s' p q.
        frames_fuel f g (drop size (x ∷ xs)) s' (omega (arith, length-drop size (x ∷ xs)))
          (omega (arith, length-drop size (x ∷ xs)))

  -- More bytes after a pass: a pass that waits goes on with them, one that has failed does not.
  unfoldable pub resume : ℕ → List ℕ → Framed c → Framed c
  resume k ys (waits, rest, s) = frames c k (rest ++ ys) s
  resume k ys (fails type, rest, s) = (fails type, rest ++ ys, s)

  consume-resume :
      (next next' : List ℕ → S → Framed c) (k : ℕ) (bytes ys : List ℕ) (size : ℕ) (p : ℤ × S)
      → size ≤ length bytes
      → ((s : S) → next (drop size bytes ++ ys) s ≡ resume k ys (next' (drop size bytes) s))
      → frame_consume c next (bytes ++ ys) size p ≡ resume k ys (frame_consume c next' bytes size p)
  unfolding frame_consume resume
  consume-resume next next' k bytes ys size (pos zero, s) q h =
      rw (drop-append_le bytes ys size q) (h s)
  consume-resume next next' k bytes ys size (pos (suc n), s) q h = refl
  consume-resume next next' k bytes ys size (negsuc n, s) q h = refl

  info-resume :
      (next next' : List ℕ → S → Framed c) (k : ℕ) (bytes ys : List ℕ) (i : ℤ × ℤ × S)
      → asks_more i (length bytes) ≡ false
      → ((size : ℕ) (s : S)
          → 0 < size
          → size ≤ length bytes
          → next (drop size bytes ++ ys) s ≡ resume k ys (next' (drop size bytes) s))
      → frame_info c next (bytes ++ ys) i ≡ resume k ys (frame_info c next' bytes i)
  unfolding frame_info frame_size resume asks_more
  info-resume next next' k bytes ys (pos zero, pos size, s) n h =
      elim (Bool-cases (ltb size 1 || ltb max_packet_size size)) [
        | inl bad ↦ rw bad
        | inr fine ↦ rw fine (elim (Bool-cases (leb size (length bytes))) [
          | inl there ↦
              rw (there, whole there, take-append_le bytes ys size (ground arith))
                (consume-resume next next' k bytes ys size _ (ground arith)
                  λ s'. h size s' (ground arith) (ground arith))
          | inr missing ↦ absurd (ground arith)
        ])
      ]
    where
      whole : leb size (length bytes) ≡ true → leb size (length (bytes ++ ys)) ≡ true
      whole there = ground (arith, length-append bytes ys)
  info-resume next next' k bytes ys (pos zero, negsuc n, s) e h = refl
  info-resume next next' k bytes ys (pos (suc n), _, s) e h = refl
  info-resume next next' k bytes ys (negsuc n, _, s) e h = refl

  -- A request for more bytes leaves the bytes as they are.
  asks_waits :
      (next : List ℕ → S → Framed c) (bytes : List ℕ) (i : ℤ × ℤ × S)
      → asks_more i (length bytes) ≡ true
      → frame_info c next bytes i ≡ (waits, bytes, i.2)
  unfolding frame_info frame_size asks_more
  asks_waits next bytes (pos zero, pos size, s) e =
      let fine : ltb size 1 || ltb max_packet_size size ≡ false = ground arith in
      let missing : leb size (length bytes) ≡ false = ground arith in rw (fine, missing)
  asks_waits next bytes (pos zero, negsuc n, s) e = cc
  asks_waits next bytes (pos (suc n), _, s) e = cc
  asks_waits next bytes (negsuc n, _, s) e = cc

  module _ (st : IsStable c) where
    -- For a stable get_packet_info and enough fuel on each side, cutting packets off xs followed
    -- by ys gives what cutting them off xs gives, gone on with what is left followed by ys where
    -- the first pass waits.
    pub frames-append :
        (f g k : ℕ) (xs ys : List ℕ) (s : S)
        → length (xs ++ ys) < f
        → length xs < g
        → length (xs ++ ys) < k
        → frames c f (xs ++ ys) s ≡ resume k ys (frames c g xs s)
    unfolding frames resume
    frames-append f zero k xs ys s hf hg hk = absurd (omega arith)
    frames-append zero (suc g) k xs ys s hf hg hk = absurd (omega arith)
    frames-append (suc f) (suc g) k [] ys s hf hg hk = frames_fuel (suc f) k ys s hf hk
    frames-append (suc f) (suc g) k (x ∷ xs) ys s hf hg hk =
        elim (Bool-cases (asks_more (c.get_packet_info s (x ∷ xs)) (length (x ∷ xs)))) [
          | inl asks ↦ rw (asks_waits (frames c g) (x ∷ xs) _ asks) (
              ap (frame_info c (frames c f) ((x ∷ xs) ++ ys)) (sym (st.anew s x xs ys asks))
              ∙ frames_fuel (suc f) k ((x ∷ xs) ++ ys) _ hf hk)
          | inr stays ↦ rw (st.same s x xs ys stays) (
              info-resume (frames c f) (frames c g) k (x ∷ xs) ys _ stays λ size s' p q.
                frames-append f g k (drop size (x ∷ xs)) ys s'
                  (omega (
                    arith,
                    length-append (x ∷ xs) ys,
                    length-append (drop size (x ∷ xs)) ys,
                    length-drop size (x ∷ xs),
                  ))
                  (omega (arith, length-drop size (x ∷ xs)))
                  (omega (
                    arith,
                    length-append (x ∷ xs) ys,
                    length-append (drop size (x ∷ xs)) ys,
                    length-drop size (x ∷ xs),
                  )))
        ]
