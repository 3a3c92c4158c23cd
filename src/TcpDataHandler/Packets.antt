-- ===== src/TcpDataHandler/Packets.antt =====
-- framework/tcp_data_handler.cpp, send(packet): the bytes it puts behind those accepted before.
use frame_work.Prelude.{
  ℕ, zero, suc, ◌≤◌, ◌<◌, ◌≡◌, ◌⊎◌, inl, inr, refl, ◌∙◌, Bool, true, false, List, [], ◌∷◌, ◌++◌, ℤ,
  pos, negsuc, ok, minus_one, Option, none, some, length, arith, Bool-cases,
}
use frame_work.Buffer.{space_size}
use frame_work.Buffer.Alloc.{Allocator, IsLawful}
use frame_work.TcpDataHandler.Send.{Handler, Sent, Packet, send_packet, finished, encoded, of_size}
use frame_work.TcpDataHandler.Sound.{Takes, Unbroken, accepted, IsSound, on_write-IsSound}
use frame_work.TcpDataHandler.Stream.{Sends, enqueue-Sends, with_room_cases, Sends-from}

-- encode() writes no more than the space that it is given.
abbrev pub Encodes : Packet → Type 0
Encodes p = (space : ℕ) (bytes : List ℕ) → p.encode space ≡ some bytes → length bytes ≤ space

-- What a call of send with a packet leaves: it returns 0 only if some encoding of the packet that is
-- not empty was put behind all that was accepted before, and it returns -1 only if nothing was.
pub record SendsPacket (h : Handler) (p : Packet) (r : ℤ × Handler) : Type 0 where
  pub sound : IsSound r.1
  pub outcome :
      ((r.0 ≡ ok)
        × ((space : ℕ) × (bytes : List ℕ) × (p.encode space ≡ some bytes)
            × (0 < length bytes)
            × (accepted r.1 ≡ accepted h ++ bytes)))
      ⊎ ((r.0 ≡ minus_one) × (accepted r.1 ≡ accepted h))

finished-Sends :
    {h : Handler} (bytes : List ℕ) (on_event : ℤ → Handler → Handler) (delay : Bool)
    (kernel : ℕ → Sent) (r : ℤ × Handler)
    → Takes kernel
    → Unbroken kernel
    → Sends h bytes r
    → Sends h bytes (finished on_event true delay kernel r)
finished-Sends bytes on_event true kernel r t u s = s
finished-Sends bytes on_event false kernel (status, h') t u s =
    let w = on_write-IsSound on_event kernel t u s.sound in
    record {
      sound = w.1;
      outcome = elim s.outcome [ inl (o, p) ↦ inl (o, w.0 ∙ p) | inr (o, p) ↦ inr (o, w.0 ∙ p) ];
    }

no_packet :
    {h : Handler} (h' : Handler) (p : Packet)
    → IsSound h'
    → accepted h' ≡ accepted h
    → SendsPacket h p (minus_one, h')
no_packet h' p v e = record { sound = v; outcome = inr (refl, e) }

encoded-SendsPacket :
    {h : Handler} (on_event : ℤ → Handler → Handler) (p : Packet) (delay : Bool) (kernel : ℕ → Sent)
    (h' : Handler) (o : Option (List ℕ))
    → Takes kernel
    → Unbroken kernel
    → Encodes p
    → IsSound h'
    → accepted h' ≡ accepted h
    → p.encode (space_size h'.sbuf) ≡ o
    → SendsPacket h p (encoded on_event true delay kernel h' o)
encoded-SendsPacket on_event p delay kernel h' none t u c v e q = no_packet h' p v e
encoded-SendsPacket on_event p delay kernel h' (some []) t u c v e q = no_packet h' p v e
encoded-SendsPacket {h} on_event p delay kernel h' (some (x ∷ xs)) t u c v e q =
    let s = Sends-from {h = h} {h' = h'} e (
      finished-Sends (x ∷ xs) on_event delay kernel _ t u
        (enqueue-Sends (x ∷ xs) v.valid (c (space_size h'.sbuf) (x ∷ xs) q))) in
    record {
      sound = s.sound;
      outcome = elim s.outcome [
        | inl (o, r) ↦ inl (o, (space_size h'.sbuf, x ∷ xs, q, omega arith, r))
        | inr f ↦ inr f
      ];
    }

of_size-SendsPacket :
    {a : Allocator} {h : Handler} (on_event : ℤ → Handler → Handler) (p : Packet) (delay : Bool)
    (kernel : ℕ → Sent) (size : ℤ)
    → IsLawful a
    → Takes kernel
    → Unbroken kernel
    → Encodes p
    → IsSound h
    → SendsPacket h p (of_size on_event a true h p delay kernel size)
of_size-SendsPacket {h = h} on_event p delay kernel (negsuc n) l t u c v = no_packet h p v refl
of_size-SendsPacket {h = h} on_event p delay kernel (pos zero) l t u c v = no_packet h p v refl
of_size-SendsPacket {h = h} on_event p delay kernel (pos (suc n)) l t u c v =
    with_room_cases (SendsPacket h p) (suc n) _ l v
      (λ h' v' e' k. encoded-SendsPacket on_event p delay kernel h' _ t u c v' e' refl)
      (λ h' v' e'. no_packet h' p v' e')

-- send(packet), with a lawful allocator, a kernel that takes no more than it is given, no error in
-- the write of on_write, an epoll_ctl that succeeds, an encode that stays within its space and a
-- sound handler, leaves a sound handler, and either returns 0, with some encoding of the packet
-- that is not empty put behind all that was accepted before, or returns -1 with nothing added.
pub send_packet-SendsPacket :
    {a : Allocator} {h : Handler} (on_event : ℤ → Handler → Handler) (p : Packet) (delay : Bool)
    (kernel : ℕ → Sent)
    → IsLawful a
    → Takes kernel
    → Unbroken kernel
    → Encodes p
    → IsSound h
    → SendsPacket h p (send_packet on_event a true h p delay kernel)
unfolding send_packet
send_packet-SendsPacket {a} {h} on_event p delay kernel l t u c v = elim (Bool-cases h.connected) [
  | inr e ↦ simp e (no_packet h p v refl)
  | inl e ↦ simp e (of_size-SendsPacket on_event p delay kernel p.encode_size l t u c v)
]
