-- ===== src/Tests/Datagrams.antt =====
-- Runs of the datagram handler, on the data of the packet runs.
use frame_work.Prelude.{true, false, refl, [], none, some}
use frame_work.Tests.{heap, heap-IsLawful}
use frame_work.Tests.Packets.{busy, busy-IsSound, kernel, kernel-Takes, packet, packet-Encodes}
use frame_work.UdpDataHandler.{send_packet}
use frame_work.Buffer.{null_buffer}
use frame_work.UdpDataHandler.Lifecycle.{Socket, Ends, init_service, init_service-Ends}
use frame_work.UdpDataHandler.Sending.{SendsDatagram, send_packet-SendsDatagram}

send_packet-SendsDatagram_example :
    SendsDatagram busy packet (send_packet heap true busy packet false kernel)
send_packet-SendsDatagram_example =
    send_packet-SendsDatagram {a = heap} {h = busy} packet false kernel heap-IsLawful kernel-Takes
      packet-Encodes busy-IsSound

abbrev unopened : Socket
unopened = record {
  fd = none;
  has_reactor = false;
  rbuf = null_buffer;
  sbuf = null_buffer;
  registered = λ fd. false;
  closed = [];
}

init_service-Ends_example : Ends unopened (some 9) (init_service heap false unopened (some 9))
init_service-Ends_example = init_service-Ends heap false unopened (some 9) refl
