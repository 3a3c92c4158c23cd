-- ===== src/Tests/Packets.antt =====
-- Runs of the packet loop and of the sending side.
use frame_work.Prelude.{
  ℕ, ◌≤◌, ◌<◌, ◌≡◌, true, false, refl, List, [], ◌∷◌, ◌++◌, ℤ, pos, ok, Option, some, ap, sym, ◌∙◌,
  ◌⊎◌, inl, inr, length, take, length-take, ltb, if◌then◌else◌, arith,
}
use frame_work.Buffer.{null_buffer}
use frame_work.Tests.{
  heap, heap-IsLawful, empty_eight, empty_eight-IsValid, late_three, late_three-IsValid,
}
use frame_work.TcpDataHandler.Recv.{Callbacks, Received, got}
use frame_work.TcpDataHandler.Frames.{IsReady}
use frame_work.TcpDataHandler.Reads.{Fits}
use frame_work.TcpDataHandler.Send.{
  Sent, took, broken, Handler, reads, reads_writes, Packet, send_packet,
}
use frame_work.TcpDataHandler.Sound.{Takes, Unbroken, accepted, IsSound}
use frame_work.TcpDataHandler.Packets.{Encodes, SendsPacket, send_packet-SendsPacket}
use frame_work.TcpDataHandler.Actions.{Action, sends, writable, run, run-accepted}

-- The first byte of a packet is its size; the state is the bytes of the packets so far.
abbrev pub counted : Callbacks (List ℕ)
counted = record {
  get_packet_info = λ s bytes. (ok, size bytes, s);
  process_packet = λ s bytes. (ok, s ++ bytes);
}
  where
    size : List ℕ → ℤ
    size [] = pos 1
    size (x ∷ xs) = pos x

abbrev pub hands_over : List ℕ → ℕ → Received
hands_over xs n = got (take n xs)

abbrev bytes_of : Received → List ℕ
bytes_of (got xs) = xs
bytes_of (_) = []

pub hands_over-Fits : (xs : List ℕ) → Fits (hands_over xs)
hands_over-Fits xs n bytes e = omega (arith, length-take n xs, ap (λ r. length (bytes_of r)) e)

-- A packet of three bytes and the first half of one of four; then its second half.
abbrev recvs : List (ℕ → Received)
recvs = hands_over (3 ∷ 1 ∷ 2 ∷ 4 ∷ 1 ∷ []) ∷ hands_over (2 ∷ 3 ∷ []) ∷ []

pub empty_eight-IsReady : IsReady empty_eight
empty_eight-IsReady = record { valid = empty_eight-IsValid; some_room = omega arith; tidy = λ e. e }

late_three-IsReady : IsReady late_three
late_three-IsReady = record {
  valid = late_three-IsValid;
  some_room = omega arith;
  tidy = λ e. absurd (omega arith);
}

-- A connection with three bytes to send, and a kernel that takes at most two at a time.
abbrev pub busy : Handler
busy = record {
  connected = true;
  sbuf = late_three;
  max_write_size = 1024;
  interest = reads_writes;
  wire = 1 ∷ [];
}

abbrev pub idle : Handler
idle = record {
  connected = true;
  sbuf = empty_eight;
  max_write_size = 1024;
  interest = reads;
  wire = 1 ∷ [];
}

abbrev pub kernel : ℕ → Sent
kernel size = if ltb 2 size then took 2 else took size

abbrev count_of : Sent → ℕ
count_of (took n) = n
count_of (_) = 0

cases :
    (size : ℕ) → ((2 < size) × (kernel size ≡ took 2)) ⊎ ((size ≤ 2) × (kernel size ≡ took size))
cases size = ground arith

pub kernel-Takes : Takes kernel
kernel-Takes size n e = elim (cases size) [
  | inl (h, k) ↦ omega (arith, ap count_of (sym k ∙ e))
  | inr (h, k) ↦ omega (arith, ap count_of (sym k ∙ e))
]

pub kernel-Unbroken : Unbroken kernel
kernel-Unbroken size e = elim (cases size) [
  | inl (h, k) ↦ let p : took 2 ≡ broken = sym k ∙ e in cc
  | inr (h, k) ↦ let p : took size ≡ broken = sym k ∙ e in cc
]

-- A class that closes on an error.
abbrev pub quits : ℤ → Handler → Handler
quits type h = record h { connected = false; sbuf = null_buffer }

pub busy-IsSound : IsSound busy
busy-IsSound = record { valid = late_three-IsValid; watched = inr refl }

pub idle-IsSound : IsSound idle
idle-IsSound = record { valid = empty_eight-IsValid; watched = inl refl }

abbrev actions : List Action
actions = sends (5 ∷ 6 ∷ 7 ∷ []) false kernel ∷ sends (8 ∷ []) true kernel ∷ writable kernel ∷ []

run-accepted_example :
    let (h', sent) = run quits heap idle actions in
    (accepted h' ≡ accepted idle ++ sent) × IsSound h'
run-accepted_example =
    run-accepted {a = heap} quits actions idle heap-IsLawful
      (kernel-Takes, (kernel-Takes, ((kernel-Takes, kernel-Unbroken), tt))) idle-IsSound

-- A packet of two bytes, which it writes where there is room for them.
abbrev pub packet : Packet
packet = record { encode_size = pos 2; encode = λ space. some (take space (5 ∷ 6 ∷ [])) }

abbrev encoding_of : Option (List ℕ) → List ℕ
encoding_of (some bytes) = bytes
encoding_of (_) = []

pub packet-Encodes : Encodes packet
packet-Encodes space bytes e =
    omega (arith, length-take {A = ℕ} space (5 ∷ 6 ∷ []), ap (λ o. length (encoding_of o)) e)

send_packet-SendsPacket_example :
    SendsPacket busy packet (send_packet quits heap true busy packet false kernel)
send_packet-SendsPacket_example =
    send_packet-SendsPacket {a = heap} {h = busy} quits packet false kernel heap-IsLawful
      kernel-Takes kernel-Unbroken packet-Encodes busy-IsSound
