-- ===== src/TcpConnection/Recv.antt =====
-- tcp_connection::on_read. get_info and process of the packet_processor are the two operations of
-- `Callbacks`, which do not call fini of the connection.
use frame_work.Prelude.{
  ℕ, zero, suc, ◌≤◌, ◌≡◌, inl, inr, refl, false, List, [], ◌∷◌, ℤ, pos, negsuc, ok, ltb, leb, ◌==◌,
  if◌then◌else◌, length, take, Bool-cases, arith,
}
use frame_work.Buffer.{Buffer, data_size, space_size, contents, store, push_data, pop_data}
use frame_work.Buffer.Alloc.{Allocator, IsLawful}
use frame_work.TcpDataHandler.{error_type_system, error_type_request, error_type_peer_close}
use frame_work.TcpDataHandler.Recv.{
  Callbacks, waits, fails, Received, got, again, broken, After, max_packet_size, make_room, consume,
  with_size, with_info, parse, settle, take_in,
}
use frame_work.TcpDataHandler.Frames.{IsReady, Refines}
use frame_work.TcpDataHandler.Reads.{Fits, framed, take_in-Refines}

module _ {ℓ} {S : Type ℓ} (a : Allocator) (c : Callbacks S) where
  abbrev pub consumed_packet : (Buffer → S → After a c) → Buffer → ℕ → ℤ × S → After a c
  consumed_packet next b size (pos zero, s) = next (pop_data b (pos size)).1 s
  consumed_packet next b size (_, s) = (fails error_type_request, b, s)

  abbrev pub sized : (Buffer → S → After a c) → Buffer → ℤ → S → After a c
  sized next b (negsuc n) s = (fails error_type_request, b, s)
  sized next b (pos size) s =
      if ltb size 1
      then (fails error_type_request, b, s)
      else (if leb size (data_size b)
          then consumed_packet next b size (c.process_packet s (take size (contents b)))
          else (let (stop, b') = make_room a b size in (stop, b', s)))

  abbrev pub informed : (Buffer → S → After a c) → Buffer → ℤ × ℤ × S → After a c
  informed next b (pos zero, size, s) = sized next b size s
  informed next b (_, _, s) = (fails error_type_request, b, s)

  -- while(m_rbuf.data_size() > 0): each round takes at least one byte, or ends the loop.
  unfoldable pub take_packets : ℕ → Buffer → S → After a c
  take_packets zero b s = (waits, b, s)
  take_packets (suc f) b s =
      if data_size b == 0
      then (waits, b, s)
      else informed (take_packets f) b (c.get_packet_info s (contents b))

  -- What read answers; the test of errno holds whatever errno is.
  abbrev pub with_read : Buffer → S → Received → After a c
  with_read b s (got (x ∷ xs)) =
      let b' = (push_data (store b (x ∷ xs)) (pos (length (x ∷ xs)))).1 in
      settle a c (take_packets (suc (data_size b')) b' s)
  with_read b s (got []) = (fails error_type_peer_close, b, s)
  with_read b s again = (fails error_type_system, b, s)
  with_read b s broken = (fails error_type_system, b, s)

  -- The type of `fails` is that of the call of handle_error.
  unfoldable pub on_read : Buffer → S → (ℕ → Received) → After a c
  unfolding take_packets
  on_read b s read = with_read b s (read (space_size b))

-- A processor whose refusals are all errors of the request.
abbrev as_request : ℤ → ℤ
as_request (pos zero) = ok
as_request (_) = error_type_request

abbrev pub strict {ℓ} : {S : Type ℓ} → Callbacks S → Callbacks S
strict c = record {
  get_packet_info =
      λ s bytes. let (ret, size, s') = c.get_packet_info s bytes in (as_request ret, size, s');
  process_packet = λ s bytes. let (ret, s') = c.process_packet s bytes in (as_request ret, s');
}

-- get_info never answers a size above the limit that tcp_data_handler sets.
abbrev pub IsModest {ℓ} : {S : Type ℓ} → Callbacks S → Type ℓ
IsModest {S} c =
    (s s' : S) (bytes : List ℕ) (size : ℕ)
    → c.get_packet_info s bytes ≡ (pos zero, pos size, s')
    → size ≤ max_packet_size

module _ {ℓ} {S : Type ℓ} (a : Allocator) (c : Callbacks S) (m : IsModest c) where
  consumed_packet-consume :
      (next : Buffer → S → After a c) (next' : Buffer → S → After a (strict c)) (b : Buffer)
      (size : ℕ) (p : ℤ × S)
      → ((b : Buffer) (s : S) → next b s ≡ next' b s)
      → consumed_packet a c next b size p ≡ consume a (strict c) next' b size (as_request p.0, p.1)
  unfolding consume
  consumed_packet-consume next next' b size (pos zero, s) e = e (pop_data b (pos size)).1 s
  consumed_packet-consume next next' b size (pos (suc n), s) e = refl
  consumed_packet-consume next next' b size (negsuc n, s) e = refl

  informed-with_info :
      (next : Buffer → S → After a c) (next' : Buffer → S → After a (strict c)) (b : Buffer)
      (p : ℤ × ℤ × S)
      → ((b : Buffer) (s : S) → next b s ≡ next' b s)
      → ((size : ℕ) (s : S) → p ≡ (pos zero, pos size, s) → size ≤ max_packet_size)
      → informed a c next b p ≡ with_info a (strict c) next' b (as_request p.0, p.1, p.2)
  unfolding with_info with_size
  informed-with_info next next' b (pos (suc n), size, s) e k = refl
  informed-with_info next next' b (negsuc n, size, s) e k = refl
  informed-with_info next next' b (pos zero, negsuc n, s) e k = refl
  informed-with_info next next' b (pos zero, pos size, s) e k =
      let q : ltb max_packet_size size ≡ false = let h = k size s refl in ground arith in
      elim (Bool-cases (ltb size 1)) [
        | inl t ↦ rw t refl
        | inr t ↦
            rw (t, q)
              (elim (Bool-cases (leb size (data_size b))) [
                | inr l ↦ rw l refl
                | inl l ↦ rw l (
                    consumed_packet-consume next next' b size
                      (c.process_packet s (take size (contents b))) e)
              ])
      ]

  take_packets-parse :
      (f : ℕ) (b : Buffer) (s : S) → take_packets a c f b s ≡ parse a (strict c) f b s
  unfolding take_packets parse
  take_packets-parse zero b s = refl
  take_packets-parse (suc f) b s = elim (Bool-cases (data_size b == 0)) [
    | inl t ↦ rw t refl
    | inr t ↦ rw t (
        informed-with_info (take_packets a c f) (parse a (strict c) f) b
          (c.get_packet_info s (contents b)) (take_packets-parse f)
          (λ size s' e. m s s' (contents b) size e))
  ]

  -- on_read of a connection with a lawful allocator and a ready buffer, where read hands over at
  -- least one byte and never more than the space, and get_info never answers a size above 4194304:
  -- it leaves the bytes and the state that one pass over the bytes in the buffer followed by the
  -- new ones leaves, with every refusal an error of the request, stops as that pass does unless
  -- realloc has no memory for some block, leaves a ready buffer, and, where it waits, leaves free
  -- space.
  pub connection_read-Refines :
      (b : Buffer) (s : S) (x : ℕ) (xs : List ℕ) (read : ℕ → Received)
      → IsLawful a
      → IsReady b
      → Fits read
      → read (space_size b) ≡ got (x ∷ xs)
      → Refines a (on_read a c b s read) (framed a (strict c) b s (x ∷ xs))
  unfolding on_read take_in settle
  connection_read-Refines b s x xs read l r f e =
      let b' = (push_data (store b (x ∷ xs)) (pos (length (x ∷ xs)))).1 in
      rw e (
        rw (take_packets-parse (suc (data_size b')) b' s)
          (take_in-Refines a (strict c) l b s x xs r (f (space_size b) (x ∷ xs) e)))
