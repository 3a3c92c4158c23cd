-- ===== src/UdpDataHandler.antt =====
-- framework/udp_data_handler.h and framework/udp_data_handler.cpp: a connected datagram socket with
-- the same two buffers as tcp_data_handler, whose packet loop it repeats, so that the loop and the
-- steps on the buffers are those of the modules of TcpDataHandler. Of the record `Handler`, it has
-- no max_write_size and no `connected`, and reads neither.
pub mod Lifecycle
pub mod Recv
pub mod Sending
use frame_work.Prelude.{
  ℕ, zero, suc, ◌+◌, ◌-◌, Bool, true, false, not, ◌&&◌, List, [], ◌∷◌, ◌++◌, ℤ, pos, negsuc, ok,
  minus_one, Option, none, some, ltb, ◌==◌, if◌then◌else◌, length, take, drop,
}
use frame_work.Buffer.{Buffer, capacity, data_size, space_size, contents, resize}
use frame_work.Buffer.Alloc.{Allocator}
use frame_work.TcpDataHandler.Send.{
  Sent, took, again, broken, Handler, sent_from_buffer, unwatch, enqueue, with_room, Packet,
}

abbrev pub wrote : Bool → Handler → Sent → Handler
wrote can h (took n) = unwatch can (sent_from_buffer h n)
wrote can h (_) = h

unfoldable pub on_write : Bool → Handler → (ℕ → Sent) → Handler
on_write can h kernel =
    if ltb 0 (data_size h.sbuf) then wrote can h (kernel (data_size h.sbuf)) else unwatch can h

abbrev pub finished : Bool → Bool → (ℕ → Sent) → ℤ × Handler → ℤ × Handler
finished can true kernel (s, h) = (s, h)
finished can false kernel (s, h) = (s, on_write can h kernel)

-- From `size -= send_size` on.
unfoldable pub send_rest : Allocator → Bool → Bool → (ℕ → Sent) → Handler → List ℕ → ℤ × Handler
unfolding enqueue
send_rest a can delay kernel h rest =
    with_room a h (length rest) (λ h'. finished can delay kernel (enqueue can h' rest))

-- The write of the send buffer, which is empty there, in place of `data`.
abbrev pub direct : Allocator → Bool → (ℕ → Sent) → Handler → List ℕ → Sent → ℤ × Handler
direct a can kernel h bytes (took n) =
    let h' = record h { wire = h.wire ++ take n (contents h.sbuf) } in
    if n == length bytes then (ok, h') else send_rest a can false kernel h' (drop n bytes)
direct a can kernel h bytes again =
    if 0 == length bytes then (ok, h) else send_rest a can false kernel h bytes
direct a can kernel h bytes broken = (minus_one, h)

-- send(data, size, delay_flag)
unfoldable pub send : Allocator → Bool → Handler → List ℕ → Bool → (ℕ → Sent) → ℤ × Handler
unfolding send_rest
send a can h bytes delay kernel =
    if data_size h.sbuf == 0 && not delay
    then direct a can kernel h bytes (kernel (data_size h.sbuf))
    else send_rest a can delay kernel h bytes

abbrev pub encoded : Bool → Bool → (ℕ → Sent) → Handler → Option (List ℕ) → ℤ × Handler
encoded can delay kernel h none = (minus_one, h)
encoded can delay kernel h (some bytes) = finished can delay kernel (enqueue can h bytes)

-- A size that is not positive needs no room.
abbrev pub size_of : ℤ → ℕ
size_of (pos n) = n
size_of (negsuc n) = 0

-- send(packet, delay_flag)
unfoldable pub send_packet : Allocator → Bool → Handler → Packet → Bool → (ℕ → Sent) → ℤ × Handler
send_packet a can h p delay kernel =
    with_room a h (size_of p.encode_size)
      λ h'. encoded can delay kernel h' (p.encode (space_size h'.sbuf))
