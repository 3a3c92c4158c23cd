-- ===== src/Tests/Connections.antt =====
-- Runs of init and fini of a connection.
use frame_work.Prelude.{arith, true, false, refl, [], some, none, pos}
use frame_work.Buffer.{null_buffer}
use frame_work.Buffer.Inv.{null_buffer-IsValid, positive-ne}
use frame_work.Tests.{heap, heap-IsLawful, late_three}
use frame_work.TcpDataHandler.Lifecycle.{Connection, World, mark, init_host, Opens, init_host-Opens}

abbrev unconnected : Connection
unconnected = record {
  fd = none;
  timestamp = 0;
  rbuf = null_buffer;
  sbuf = null_buffer;
  readall_flag = false;
  registered = λ fd. false;
  closed = [];
}

-- The reactor refuses the descriptor.
abbrev refusing : World
refusing = record { adds = false; time = 1000 }

init_host-Opens_example :
    Opens unconnected (some 7) (init_host heap refusing unconnected (some 7) (pos 64))
init_host-Opens_example =
    init_host-Opens {a = heap} refusing unconnected (some 7) (pos 64) (positive-ne (omega arith))
      heap-IsLawful refl null_buffer-IsValid null_buffer-IsValid

abbrev open_seven : Connection
open_seven = record {
  fd = some 7;
  timestamp = 1000;
  rbuf = late_three;
  sbuf = late_three;
  readall_flag = true;
  registered = mark (λ fd. false) 7 true;
  closed = [];
}
