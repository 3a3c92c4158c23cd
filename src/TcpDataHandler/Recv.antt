-- ===== src/TcpDataHandler/Recv.antt =====
-- tcp_data_handler::on_read. The class that derives from tcp_data_handler is the parameter
-- `Callbacks`: its state is `S`, and it does not touch m_rbuf, which is private.
use frame_work.Prelude.{
  ℕ, zero, suc, ◌+◌, ◌-◌, Bool, true, false, ◌||◌, List, [], ◌∷◌, ℤ, pos, negsuc, ltb, leb, ◌==◌,
  if◌then◌else◌, length, take,
}
use frame_work.Buffer.{
  Buffer, capacity, data_size, space_size, contents, store, push_data, pop_data, adjust, resize,
}
use frame_work.Buffer.Alloc.{Allocator}
use frame_work.TcpDataHandler.{
  error_type_system, error_type_memory, error_type_request, error_type_peer_close,
}

-- get_packet_info is given the bytes in the buffer, and answers its status, pi->size and the state
-- it leaves. process_packet is given the bytes of one packet.
pub record Callbacks {ℓ} (S : Type ℓ) : Type ℓ where
  pub get_packet_info : S → List ℕ → ℤ × ℤ × S
  pub process_packet : S → List ℕ → ℤ × S

-- How a pass over the buffer ends: all that can be done is done, or on_event(type) is called.
pub data Stop : Type 0 where
  waits : Stop
  fails : ℤ → Stop

-- What recv returns for a given size: bytes (none at the end of the stream), EAGAIN or EINTR, or
-- another error.
pub data Received : Type 0 where
  got : List ℕ → Received
  again : Received
  broken : Received

abbrev pub max_packet_size : ℕ
max_packet_size = 4194304

abbrev resized : ℤ × Buffer → Stop × Buffer
resized (pos zero, b) = (waits, b)
resized (_, b) = (fails error_type_memory, b)

-- The `else` branch for a packet that is not there yet: make room for the rest of it.
unfoldable pub make_room : Allocator → Buffer → ℕ → Stop × Buffer
make_room a b size =
    if ltb (space_size b) (size - data_size b)
    then resized (resize a b (pos (capacity b + size)))
    else (waits, b)

module _ {ℓ} {S : Type ℓ} (a : Allocator) (c : Callbacks S) where
  -- What on_read leaves: how it ended, m_rbuf, and the state of the derived class.
  abbrev pub After : Type ℓ
  After = Stop × Buffer × S

  -- `next` is the rest of the loop.
  unfoldable pub consume : (Buffer → S → After) → Buffer → ℕ → ℤ × S → After
  consume next b size (pos zero, s) = next (pop_data b (pos size)).1 s
  consume next b size (ret, s) = (fails ret, b, s)

  unfoldable pub with_size : (Buffer → S → After) → Buffer → ℤ → S → After
  unfolding consume
  with_size next b (negsuc n) s = (fails error_type_request, b, s)
  with_size next b (pos size) s =
      if ltb size 1 || ltb max_packet_size size
      then (fails error_type_request, b, s)
      else (if leb size (data_size b)
          then consume next b size (c.process_packet s (take size (contents b)))
          else (let (stop, b') = make_room a b size in (stop, b', s)))

  unfoldable pub with_info : (Buffer → S → After) → Buffer → ℤ × ℤ × S → After
  unfolding with_size
  with_info next b (pos zero, size, s) = with_size next b size s
  with_info next b (ret, _, s) = (fails ret, b, s)

  -- while(m_rbuf.data_size() > 0): each round takes at least one byte, or ends the loop.
  unfoldable pub parse : ℕ → Buffer → S → After
  unfolding with_info
  parse zero b s = (waits, b, s)
  parse (suc f) b s =
      if data_size b == 0
      then (waits, b, s)
      else with_info (parse f) b (c.get_packet_info s (contents b))

  unfoldable pub settle : After → After
  settle (waits, b, s) = (waits, adjust b, s)
  settle (fails type, b, s) = (fails type, b, s)

  -- The bytes of one recv, cut into packets.
  unfoldable pub take_in : Buffer → S → List ℕ → After
  take_in b s bytes =
      let b' = (push_data (store b bytes) (pos (length bytes))).1 in
      settle (parse (suc (data_size b')) b' s)

  -- `while(m_readall_flag)`, after a pass that did not return.
  unfoldable pub once_more : Bool → (Buffer → S → After) → After → After
  once_more readall next (fails type, b, s) = (fails type, b, s)
  once_more true next (waits, b, s) = next b s
  once_more false next (waits, b, s) = (waits, b, s)

  unfoldable pub with_received : Bool → (Buffer → S → After) → Buffer → S → Received → After
  unfolding once_more
  with_received readall next b s (got []) = (fails error_type_peer_close, b, s)
  with_received readall next b s (got (x ∷ xs)) = once_more readall next (take_in b s (x ∷ xs))
  with_received readall next b s again = (waits, b, s)
  with_received readall next b s broken = (fails error_type_system, b, s)

  -- The answers of recv in turn; when the list is at its end, recv answers EAGAIN. `readall` is
  -- m_readall_flag.
  unfoldable pub on_read : Bool → Buffer → S → List (ℕ → Received) → After
  unfolding with_received
  on_read readall b s [] = (waits, b, s)
  on_read readall b s (recv ∷ recvs) =
      with_received readall (λ b' s'. on_read readall b' s' recvs) b s (recv (space_size b))
