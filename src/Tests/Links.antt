-- ===== src/Tests/Links.antt =====
-- Runs of tcp_connection, on the data of the packet runs.
use frame_work.Prelude.{ℕ, ◌+◌, ◌≡◌, true, false, refl, List, [], ◌∷◌, some, arith, pos, ok}
use frame_work.Tests.{heap, heap-IsLawful, empty_eight}
use frame_work.Tests.Packets.{
  hands_over, hands_over-Fits, empty_eight-IsReady, kernel, kernel-Takes, kernel-Unbroken, quits,
  idle, idle-IsSound,
}
use frame_work.TcpDataHandler.Recv.{Callbacks}
use frame_work.TcpDataHandler.Frames.{Refines}
use frame_work.TcpDataHandler.Reads.{framed}
use frame_work.TcpDataHandler.Lifecycle.{World}
use frame_work.TcpConnection.{send}
use frame_work.TcpConnection.Recv.{on_read, strict, IsModest, connection_read-Refines}
use frame_work.TcpConnection.Sending.{SendsFront, connection_send-SendsFront}
use frame_work.TcpConnection.Lives.{Event, opens, adopts, ends, unused, run, IsLive, run-IsLive}

-- Packets of three bytes, and a refusal of each packet behind the first.
abbrev threes : Callbacks ℕ
threes = record {
  get_packet_info = λ s bytes. (ok, pos 3, s);
  process_packet = λ s bytes. (pos s, s + 1);
}

threes-IsModest : IsModest threes
threes-IsModest s s' bytes size e = omega (arith, three)
  where
    three : 3 ≡ size
    three = cc

abbrev seven : List ℕ
seven = 1 ∷ 2 ∷ 3 ∷ 4 ∷ 5 ∷ 6 ∷ 7 ∷ []

connection_read-Refines_example :
    Refines heap
      (on_read heap threes empty_eight 0 (hands_over seven))
      (framed heap (strict threes) empty_eight 0 seven)
connection_read-Refines_example =
    connection_read-Refines heap threes threes-IsModest empty_eight 0 1 (2 ∷ 3 ∷ 4 ∷ 5 ∷ 6 ∷ 7 ∷ [])
      (hands_over seven) heap-IsLawful empty_eight-IsReady (hands_over-Fits seven) refl

connection_send-SendsFront_example :
    SendsFront idle
      (5 ∷ 6 ∷ 7 ∷ [])
      (send quits heap true idle (5 ∷ 6 ∷ 7 ∷ []) false kernel kernel)
connection_send-SendsFront_example =
    connection_send-SendsFront {a = heap} {h = idle} quits (5 ∷ 6 ∷ 7 ∷ []) false kernel kernel
      heap-IsLawful kernel-Takes kernel-Takes kernel-Unbroken idle-IsSound

abbrev lucky : World
lucky = record { adds = true; time = 7 }

abbrev events : List Event
events = opens lucky (some 4) ∷ adopts lucky (some 5) ∷ ends ∷ adopts lucky (some 6) ∷ []

run-IsLive_example : IsLive (run heap unused events)
run-IsLive_example = run-IsLive heap events
