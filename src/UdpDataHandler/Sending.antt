-- ===== src/UdpDataHandler/Sending.antt =====
-- The bytes that a datagram handler accepts, and its packets.
use frame_work.Prelude.{
  ℕ, zero, suc, ◌≤◌, ◌≡◌, ◌⊎◌, inl, inr, refl, sym, ap, ◌∙◌, Bool, true, false, not, ◌&&◌, List, [],
  ◌++◌, ℤ, ok, minus_one, Option, none, some, ltb, ◌==◌, length, nil_of_length, append-nil,
  Bool-cases, arith,
}
use frame_work.Buffer.{data_size, space_size, contents}
use frame_work.Buffer.Alloc.{Allocator, IsLawful}
use frame_work.TcpDataHandler.Send.{Sent, took, again, broken, Handler, sent_from_buffer, Packet}
use frame_work.TcpDataHandler.Sound.{
  Takes, accepted, IsSound, unwatch-accepted, unwatch-IsSound, sent_from_buffer-IsSound,
}
use frame_work.TcpDataHandler.Stream.{
  Sends, enqueue-Sends, refused-Sends, with_room_cases, Sends-from,
}
use frame_work.TcpDataHandler.Packets.{Encodes}
use frame_work.UdpDataHandler.{
  wrote, on_write, finished, send_rest, direct, send, encoded, size_of, send_packet,
}

udp_write-IsSound :
    {h : Handler} (kernel : ℕ → Sent)
    → Takes kernel
    → IsSound h
    → (accepted (on_write true h kernel) ≡ accepted h) × IsSound (on_write true h kernel)
unfolding on_write
udp_write-IsSound {h} kernel t v = elim (Bool-cases (ltb 0 (data_size h.sbuf))) [
  | inr e ↦ rw e (unwatch-accepted h, unwatch-IsSound v)
  | inl p ↦ rw p (wrote_lem (kernel (data_size h.sbuf)) (t (data_size h.sbuf)))
]
  where
    wrote_lem :
        (answer : Sent)
        → ((n : ℕ) → answer ≡ took n → n ≤ data_size h.sbuf)
        → (accepted (wrote true h answer) ≡ accepted h) × IsSound (wrote true h answer)
    wrote_lem (took n) k =
        let s = sent_from_buffer-IsSound n v (k n refl) in
        (unwatch-accepted (sent_from_buffer h n) ∙ s.0, unwatch-IsSound s.1)
    wrote_lem again k = (refl, v)
    wrote_lem broken k = (refl, v)

udp_finished-Sends :
    {h : Handler} (bytes : List ℕ) (delay : Bool) (kernel : ℕ → Sent) (r : ℤ × Handler)
    → Takes kernel
    → Sends h bytes r
    → Sends h bytes (finished true delay kernel r)
udp_finished-Sends bytes true kernel r t s = s
udp_finished-Sends bytes false kernel (status, h') t s =
    let w = udp_write-IsSound kernel t s.sound in
    record {
      sound = w.1;
      outcome = elim s.outcome [ inl (o, p) ↦ inl (o, w.0 ∙ p) | inr (o, p) ↦ inr (o, w.0 ∙ p) ];
    }

send_rest-Sends :
    {a : Allocator} {h : Handler} (rest : List ℕ) (delay : Bool) (kernel : ℕ → Sent)
    → IsLawful a
    → Takes kernel
    → IsSound h
    → Sends h rest (send_rest a true delay kernel h rest)
unfolding send_rest
send_rest-Sends {h = h} rest delay kernel l t v =
    with_room_cases (Sends h rest) (length rest) _ l v
      (λ h' v' e k.
        Sends-from {h' = h'} e
          (udp_finished-Sends rest delay kernel _ t (enqueue-Sends rest v'.valid k)))
      (λ h' v' e. refused-Sends h' rest v' e)

nothing_new : (h : Handler) (bytes : List ℕ) → length bytes ≡ 0 → accepted h ++ bytes ≡ accepted h
nothing_new h bytes e = ap (◌++◌ (accepted h)) (nil_of_length bytes e) ∙ append-nil (accepted h)

-- A direct write of no bytes.
direct-Sends :
    {a : Allocator} {h : Handler} (bytes : List ℕ) (kernel : ℕ → Sent) (answer : Sent)
    → IsLawful a
    → Takes kernel
    → IsSound h
    → data_size h.sbuf ≡ 0
    → ((n : ℕ) → answer ≡ took n → n ≤ 0)
    → Sends h bytes (direct a true kernel h bytes answer)
direct-Sends {a} {h} bytes kernel broken l t v z k = refused-Sends h bytes v refl
direct-Sends {a} {h} bytes kernel again l t v z k = elim (Bool-cases (0 == length bytes)) [
  | inr e ↦ rw e (send_rest-Sends bytes false kernel l t v)
  | inl e ↦
      rw e (record { sound = v; outcome = inl (refl, sym (nothing_new h bytes (ground arith))) })
]
direct-Sends {a} {h} bytes kernel (took (suc n)) l t v z k = absurd (omega (arith, k (suc n) refl))
direct-Sends {a} {h} bytes kernel (took zero) l t v z k = elim (Bool-cases (0 == length bytes)) [
  | inr e ↦ rw e (Sends-from {h' = h'} same (send_rest-Sends bytes false kernel l t sound))
  | inl e ↦ rw e (record {
    sound = sound;
    outcome = inl (refl, same ∙ sym (nothing_new h bytes (ground arith)));
  })
]
  where
    h' : Handler
    h' = record h { wire = h.wire ++ [] }

    same : accepted h' ≡ accepted h
    same = ap (λ w. w ++ contents h.sbuf) (append-nil h.wire)

    sound : IsSound h'
    sound = record { valid = v.valid; watched = v.watched }

-- send(data) of a datagram handler, with a lawful allocator, a kernel that takes no more than it
-- is given and a sound handler, leaves a sound handler, and either returns 0, with the bytes put
-- behind all that was accepted before, or returns -1 with nothing added.
pub udp_send-Sends :
    {a : Allocator} {h : Handler} (bytes : List ℕ) (delay : Bool) (kernel : ℕ → Sent)
    → IsLawful a
    → Takes kernel
    → IsSound h
    → Sends h bytes (send a true h bytes delay kernel)
unfolding send
udp_send-Sends {a} {h} bytes delay kernel l t v =
    elim (Bool-cases (data_size h.sbuf == 0 && not delay)) [
      | inr e ↦ rw e (send_rest-Sends bytes delay kernel l t v)
      | inl e ↦
          let z : data_size h.sbuf ≡ 0 = ground arith in
          rw e (
            direct-Sends bytes kernel (kernel (data_size h.sbuf)) l t v z
              (λ n q. omega (arith, t (data_size h.sbuf) n q, z)))
    ]

-- What a call of send with a packet leaves.
pub record SendsDatagram (h : Handler) (p : Packet) (r : ℤ × Handler) : Type 0 where
  pub sound : IsSound r.1
  pub outcome :
      ((r.0 ≡ ok)
        × ((space : ℕ) × (bytes : List ℕ) × (p.encode space ≡ some bytes)
            × (accepted r.1 ≡ accepted h ++ bytes)))
      ⊎ ((r.0 ≡ minus_one) × (accepted r.1 ≡ accepted h))

encoded-SendsDatagram :
    {h : Handler} (p : Packet) (delay : Bool) (kernel : ℕ → Sent) (h' : Handler)
    (o : Option (List ℕ))
    → Takes kernel
    → Encodes p
    → IsSound h'
    → accepted h' ≡ accepted h
    → p.encode (space_size h'.sbuf) ≡ o
    → SendsDatagram h p (encoded true delay kernel h' o)
encoded-SendsDatagram p delay kernel h' none t c v e q = record {
  sound = v;
  outcome = inr (refl, e);
}
encoded-SendsDatagram {h} p delay kernel h' (some bytes) t c v e q =
    let s = Sends-from {h = h} {h' = h'} e (
      udp_finished-Sends bytes delay kernel _ t
        (enqueue-Sends bytes v.valid (c (space_size h'.sbuf) bytes q))) in
    record {
      sound = s.sound;
      outcome = elim s.outcome [
        | inl (o, r) ↦ inl (o, (space_size h'.sbuf, bytes, q, r))
        | inr f ↦ inr f
      ];
    }

-- send(packet) of a datagram handler, with a lawful allocator, a kernel that takes no more than it
-- is given, an epoll_ctl that succeeds, an encode that stays within its space and a sound handler,
-- leaves a sound handler, and either returns 0, with some encoding of the packet put behind all
-- that was accepted before, or returns -1 with nothing added.
pub send_packet-SendsDatagram :
    {a : Allocator} {h : Handler} (p : Packet) (delay : Bool) (kernel : ℕ → Sent)
    → IsLawful a
    → Takes kernel
    → Encodes p
    → IsSound h
    → SendsDatagram h p (send_packet a true h p delay kernel)
unfolding send_packet
send_packet-SendsDatagram {a} {h} p delay kernel l t c v =
    with_room_cases (SendsDatagram h p) (size_of p.encode_size) _ l v
      (λ h' v' e' k. encoded-SendsDatagram p delay kernel h' _ t c v' e' refl)
      (λ h' v' e'. record { sound = v'; outcome = inr (refl, e') })
