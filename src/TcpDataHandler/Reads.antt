-- ===== src/TcpDataHandler/Reads.antt =====
-- A whole call of on_read against the bytes that its calls of recv hand over.
use frame_work.Prelude.{
  ℕ, suc, ◌≤◌, ◌<◌, ◌≡◌, ◌≢◌, ◌⊎◌, inl, inr, sym, ap, ap₂, subst, ◌∙◌, length-append, Bool, true,
  false, List, [], ◌∷◌, ◌++◌, pos, length, arith,
}
use frame_work.Buffer.{Buffer, data_size, space_size, contents, store, push_data}
use frame_work.Buffer.Alloc.{Allocator, IsLawful, Refused}
use frame_work.Buffer.Inv.{length-contents, store-IsValid, push_data-IsValid}
use frame_work.Buffer.Bytes.{adjust-contents, push_data-contents}
use frame_work.TcpDataHandler.{error_type_memory, error_type_system, error_type_peer_close}
use frame_work.TcpDataHandler.Recv.{
  Callbacks, waits, fails, Received, got, again, broken, After, parse, settle, take_in,
}
use frame_work.TcpDataHandler.Frames.{
  Framed, frames, IsReady, adjust-IsReady, Refines, parse-Refines,
}

-- recv writes no more than the size that it is given.
abbrev pub Fits : (ℕ → Received) → Type 0
Fits recv = (n : ℕ) (bytes : List ℕ) → recv n ≡ got bytes → length bytes ≤ n

abbrev pub AllFit : List (ℕ → Received) → Type 0
AllFit [] = Unit {0}
AllFit (recv ∷ recvs) = Fits recv × AllFit recvs

module _ {ℓ} {S : Type ℓ} (a : Allocator) (c : Callbacks S) where
  -- The bytes that the calls of recv hand over before on_read returns.
  gathered_by : List ℕ → Bool → After a c → (Buffer → S → List ℕ) → List ℕ
  gathered_by bytes true (waits, b, s) next = bytes ++ next b s
  gathered_by bytes true (fails type, b, s) next = bytes
  gathered_by bytes false r next = bytes

  gathered_of : Bool → (Buffer → S → List ℕ) → Buffer → S → Received → List ℕ
  unfolding gathered_by
  gathered_of readall next b s (got []) = []
  gathered_of readall next b s (got (x ∷ xs)) =
      gathered_by (x ∷ xs) readall (take_in a c b s (x ∷ xs)) next
  gathered_of readall next b s again = []
  gathered_of readall next b s broken = []

  pub gathered : Bool → Buffer → S → List (ℕ → Received) → List ℕ
  unfolding gathered_of
  gathered readall b s [] = []
  gathered readall b s (recv ∷ recvs) =
      gathered_of readall (λ b' s'. gathered readall b' s' recvs) b s (recv (space_size b))

  -- The packets of the bytes in the buffer and the new ones, in one pass; none if none are new.
  pub framed : Buffer → S → List ℕ → Framed c
  framed b s [] = (waits, contents b, s)
  framed b s (x ∷ xs) = frames c (suc (length (contents b ++ (x ∷ xs)))) (contents b ++ (x ∷ xs)) s

  -- The end of a call: it stops as the bytes demand, or for the allocator, or because the stream
  -- ended or broke after bytes that leave a packet incomplete.
  pub record Streams (r : After a c) (w : Framed c) : Type ℓ where
    pub ready : IsReady r.1
    pub bytes : contents r.1 ≡ w.1
    pub state : r.2 ≡ w.2
    pub stop :
        (r.0 ≡ w.0)
        ⊎ ((r.0 ≡ fails error_type_memory) × Refused a)
        ⊎ ((w.0 ≡ waits) × ((r.0 ≡ fails error_type_peer_close) ⊎ (r.0 ≡ fails error_type_system)))
    pub room : (r.0 ≢ waits) ⊎ (0 < space_size r.1)

  settle-Refines : (r : After a c) (w : Framed c) → Refines a r w → Refines a (settle a c r) w
  unfolding settle
  settle-Refines (waits, b, s) w r =
      let k = adjust-contents r.ready.valid in
      record {
        ready = adjust-IsReady r.ready;
        bytes = k.0 ∙ r.bytes;
        state = r.state;
        stop = r.stop;
        room = elim r.room [ inl n ↦ inl n | inr h ↦ inr (omega (arith, h, k.2)) ];
      }
  settle-Refines (fails type, b, s) w r = r

  module _ (l : IsLawful a) where
    -- One recv's bytes: packets are cut from what was there followed by them.
    pub take_in-Refines :
        (b : Buffer) (s : S) (x : ℕ) (xs : List ℕ)
        → IsReady b
        → length (x ∷ xs) ≤ space_size b
        → Refines a (take_in a c b s (x ∷ xs)) (framed b s (x ∷ xs))
    unfolding take_in framed
    take_in-Refines b s x xs r h =
        let p = push_data-contents (x ∷ xs) r.valid (omega arith) h in
        let b' = (push_data (store b (x ∷ xs)) (pos (length (x ∷ xs)))).1 in
        let v = push_data-IsValid (pos (length (x ∷ xs))) (store-IsValid (x ∷ xs) r.valid h) in
        let r' : IsReady b' = record {
          valid = v;
          some_room = omega (arith, p.2, r.some_room);
          tidy = λ e. absurd (
              omega (arith, length-contents v, ap length p.1, length-append (contents b) (x ∷ xs)));
        } in
        let n = sym (length-contents v) ∙ ap length p.1 in
        settle-Refines _ _ (
          subst (λ w. Refines a (parse a c (suc (data_size b')) b' s) w)
            (ap₂ (λ k bytes. frames c (suc k) bytes s) n p.1)
            (parse-Refines c l (suc (data_size b')) b' s r' (omega arith)))
