-- ===== src/Tests/Gates.antt =====
-- Runs of the gate.
use frame_work.Prelude.{true, List, [], ◌∷◌, ok, minus_one}
use frame_work.GateServer.Client.{on_player_login}
use frame_work.GateServer.Gate.{Answers}
use frame_work.GateServer.Runs.{Event, arrives, works, ends, idles}

abbrev welcome : Answers
welcome = record { init = ok; now = 1000; run_ms = 5; added = true }

abbrev events : List Event
events =
    arrives welcome
    ∷ arrives (record welcome { init = minus_one })
    ∷ arrives welcome
    ∷ works 0 on_player_login
    ∷ ends 1
    ∷ idles (record welcome { now = 2000 }) 0
    ∷ []
