-- ===== src/TcpConnection.antt =====
-- framework/tcp_connection.h and framework/tcp_connection.cpp: a connection that hands its packets
-- and events to a packet_processor. It has the two buffers of tcp_data_handler, and the record
-- `Handler` for its writing half, of which it has no max_write_size and no `connected`.
pub mod Recv
pub mod Sending
pub mod Lifecycle
pub mod Lives
use frame_work.Prelude.{
  ℕ, zero, suc, ◌+◌, ◌-◌, Bool, true, false, not, ◌&&◌, List, [], ◌∷◌, ◌++◌, ℤ, pos, negsuc, ok,
  minus_one, Option, none, some, ltb, leb, ◌==◌, if◌then◌else◌, length, take, drop,
}
use frame_work.Buffer.{
  Buffer, capacity, data_size, space_size, contents, store, push_data, pop_data, adjust, resize,
}
use frame_work.Buffer.Alloc.{Allocator}
use frame_work.TcpDataHandler.{
  error_type_system, error_type_memory, error_type_request, error_type_peer_close,
}
use frame_work.TcpDataHandler.Send.{
  Sent, took, again, broken, Handler, handle_error, sent_from_buffer, unwatch, enqueue, with_room,
  Packet,
}

-- A size that is not positive needs no room.
abbrev pub room_for : ℤ → ℕ
room_for (pos n) = n
room_for (negsuc n) = 0

-- What on_error of the processor does to the connection is an argument.
module _ (on_event : ℤ → Handler → Handler) where
  -- on_write, once write has answered.
  abbrev pub wrote : Bool → Handler → Sent → Handler
  wrote can h (took n) = unwatch can (sent_from_buffer h n)
  wrote can h again = unwatch can h
  wrote can h broken = handle_error on_event error_type_system h

  unfoldable pub on_write : Bool → Handler → (ℕ → Sent) → Handler
  unfolding handle_error
  on_write can h kernel =
      if ltb 0 (data_size h.sbuf) then wrote can h (kernel (data_size h.sbuf)) else unwatch can h

  unfoldable pub on_error : Handler → Handler
  unfolding handle_error
  on_error h = handle_error on_event error_type_system h

  -- if(delay_flag == 0) on_write(m_id.fd)
  abbrev pub finished : Bool → Bool → (ℕ → Sent) → ℤ × Handler → ℤ × Handler
  finished can true kernel (s, h) = (s, h)
  finished can false kernel (s, h) = (s, on_write can h kernel)

  -- send(data) from `size -= send_len` on.
  unfoldable pub send_rest : Allocator → Bool → Bool → (ℕ → Sent) → Handler → List ℕ → ℤ × Handler
  unfolding enqueue
  send_rest a can delay kernel h rest =
      with_room a h (length rest) (λ h'. finished can delay kernel (enqueue can h' rest))

  -- The direct write of the bytes. `kernel` is what the write after it answers.
  abbrev pub direct : Allocator → Bool → (ℕ → Sent) → Handler → List ℕ → Sent → ℤ × Handler
  direct a can kernel h bytes (took n) =
      let h' = record h { wire = h.wire ++ take n bytes } in
      if n == length bytes then (ok, h') else send_rest a can false kernel h' (drop n bytes)
  direct a can kernel h bytes again =
      if 0 == length bytes then (ok, h) else send_rest a can false kernel h bytes
  direct a can kernel h bytes broken = (minus_one, h)

  -- send(data, size, delay_flag); `first` answers the direct write, `kernel` the one of on_write.
  unfoldable pub send :
      Allocator → Bool → Handler → List ℕ → Bool → (ℕ → Sent) → (ℕ → Sent) → ℤ × Handler
  unfolding send_rest
  send a can h bytes delay first kernel =
      if data_size h.sbuf == 0 && not delay
      then direct a can kernel h bytes (first (length bytes))
      else send_rest a can delay kernel h bytes

  abbrev pub encoded : Bool → Bool → (ℕ → Sent) → Handler → Option (List ℕ) → ℤ × Handler
  encoded can delay kernel h none = (minus_one, h)
  encoded can delay kernel h (some bytes) = finished can delay kernel (enqueue can h bytes)

  -- send(packet, delay_flag)
  unfoldable pub send_packet : Allocator → Bool → Handler → Packet → Bool → (ℕ → Sent) → ℤ × Handler
  send_packet a can h p delay kernel =
      with_room a h (room_for p.encode_size)
        λ h'. encoded can delay kernel h' (p.encode (space_size h'.sbuf))
