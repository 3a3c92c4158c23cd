-- ===== src/TcpDataHandler/Send.antt =====
-- tcp_data_handler::send and tcp_data_handler::on_write. The model keeps, beside the fields of the
-- handler, the bytes that the kernel has taken (`wire`), and the events that the reactor watches for
-- (`interest`). What on_event of the deriving class does to the handler is an argument, which may
-- end the connection.
use frame_work.Prelude.{
  ℕ, zero, suc, ◌+◌, Bool, true, false, not, ◌&&◌, List, [], ◌∷◌, ◌++◌, ℤ, pos, negsuc, ok,
  minus_one, Option, none, some, ltb, ◌==◌, if◌then◌else◌, length, take, drop,
}
use frame_work.Buffer.{
  Buffer, capacity, data_size, space_size, contents, store, push_data, pop_data, adjust, resize,
}
use frame_work.Buffer.Alloc.{Allocator}
use frame_work.TcpDataHandler.{error_type_system}

-- What the descriptor is registered for.
pub data Interest : Type 0 where
  reads reads_writes : Interest

-- What ::send answers for a given size: how many bytes the kernel took, EAGAIN or EINTR, or
-- another error.
pub data Sent : Type 0 where
  took : ℕ → Sent
  again : Sent
  broken : Sent

pub record Handler : Type 0 where
  pub connected : Bool
  pub sbuf : Buffer
  pub max_write_size : ℕ
  pub interest : Interest
  pub wire : List ℕ

-- set_max_write_size, with MIN_WRITE_SIZE.
unfoldable pub set_max_write_size : Handler → ℤ → Handler
set_max_write_size h (negsuc n) = record h { max_write_size = 1024 }
set_max_write_size h (pos n) = record h { max_write_size = if ltb n 1024 then 1024 else n }

-- m_reactor->mod_handler, whose answer the code does not read: `can` says that epoll_ctl succeeds.
abbrev pub mod_handler : Bool → Interest → Handler → Handler
mod_handler can i h = if can then record h { interest = i } else h

-- The bytes that one ::send took leave the buffer.
abbrev pub sent_from_buffer : Handler → ℕ → Handler
sent_from_buffer h n =
    if ltb 0 n
    then record h {
      sbuf = adjust (pop_data h.sbuf (pos n)).1;
      wire = h.wire ++ take n (contents h.sbuf);
    }
    else h

abbrev pub write_size : Handler → ℕ
write_size h =
    if ltb h.max_write_size (data_size h.sbuf) then h.max_write_size else data_size h.sbuf

abbrev pub unwatch : Bool → Handler → Handler
unwatch can h = if data_size h.sbuf == 0 then mod_handler can reads h else h

module _ (on_event : ℤ → Handler → Handler) where
  -- on_event(error_type), after which the code does no more.
  unfoldable pub handle_error : ℤ → Handler → Handler
  handle_error type h = on_event type h

  abbrev pub wrote : Bool → Handler → Sent → Handler
  wrote can h (took n) = unwatch can (sent_from_buffer h n)
  wrote can h again = unwatch can h
  wrote can h broken = handle_error error_type_system h

  unfoldable pub on_write : Bool → Handler → (ℕ → Sent) → Handler
  unfolding handle_error
  on_write can h kernel =
      if ltb 0 (data_size h.sbuf) then wrote can h (kernel (write_size h)) else unwatch can h

-- The tail of send: the rest of the bytes goes to the buffer, and the reactor watches for writes.
unfoldable pub enqueue : Bool → Handler → List ℕ → ℤ × Handler
enqueue can h rest = (
  ok,
  mod_handler can reads_writes
      (record h { sbuf = (push_data (store h.sbuf rest) (pos (length rest))).1 }),
)

-- The direct ::send: all, a part, or nothing of the bytes is taken.
unfoldable pub direct : Bool → Handler → List ℕ → Sent → ℤ × Handler
unfolding enqueue
direct can h bytes (took n) =
    let h' = record h { wire = h.wire ++ take n bytes } in
    if n == length bytes then (ok, h') else enqueue can h' (drop n bytes)
direct can h bytes again = if 0 == length bytes then (ok, h) else enqueue can h bytes
direct can h bytes broken = (minus_one, h)

abbrev pub made_room : (Handler → ℤ × Handler) → Handler → ℤ × Buffer → ℤ × Handler
made_room next h (pos zero, b) = next (record h { sbuf = b })
made_room next h (_, b) = (minus_one, record h { sbuf = b })

-- `m_sbuf.space_size() < size && m_sbuf.resize(m_sbuf.capacity() + size) != 0`
unfoldable pub with_room : Allocator → Handler → ℕ → (Handler → ℤ × Handler) → ℤ × Handler
with_room a h size next =
    if ltb (space_size h.sbuf) size
    then made_room next h (resize a h.sbuf (pos (capacity h.sbuf + size)))
    else next h

unfoldable pub send_now : Bool → List ℕ → Bool → (ℕ → Sent) → Handler → ℤ × Handler
unfolding direct
send_now can bytes delay kernel h =
    if data_size h.sbuf == 0 && not delay
    then direct can h bytes (kernel (length bytes))
    else enqueue can h bytes

-- send(data, size, delay_flag)
unfoldable pub send : Allocator → Bool → Handler → List ℕ → Bool → (ℕ → Sent) → ℤ × Handler
send a can h bytes delay kernel =
    if h.connected
    then with_room a h (length bytes) (send_now can bytes delay kernel)
    else (minus_one, h)

-- send(packet, delay_flag). The packet answers encode_size(), and what encode() makes of a space of
-- a given size: the bytes, or a failure.
pub record Packet : Type 0 where
  pub encode_size : ℤ
  pub encode : ℕ → Option (List ℕ)

module _ (on_event : ℤ → Handler → Handler) where
  abbrev pub finished : Bool → Bool → (ℕ → Sent) → ℤ × Handler → ℤ × Handler
  finished can true kernel (s, h) = (s, h)
  finished can false kernel (s, h) = (s, on_write on_event can h kernel)

  abbrev pub encoded : Bool → Bool → (ℕ → Sent) → Handler → Option (List ℕ) → ℤ × Handler
  encoded can delay kernel h none = (minus_one, h)
  encoded can delay kernel h (some []) = (minus_one, h)
  encoded can delay kernel h (some (x ∷ xs)) = finished can delay kernel (enqueue can h (x ∷ xs))

  abbrev pub of_size : Allocator → Bool → Handler → Packet → Bool → (ℕ → Sent) → ℤ → ℤ × Handler
  of_size a can h p delay kernel (negsuc n) = (minus_one, h)
  of_size a can h p delay kernel (pos zero) = (minus_one, h)
  of_size a can h p delay kernel (pos (suc n)) =
      with_room a h (suc n) λ h'. encoded can delay kernel h' (p.encode (space_size h'.sbuf))

  unfoldable pub send_packet : Allocator → Bool → Handler → Packet → Bool → (ℕ → Sent) → ℤ × Handler
  send_packet a can h p delay kernel =
      if h.connected then of_size a can h p delay kernel p.encode_size else (minus_one, h)
