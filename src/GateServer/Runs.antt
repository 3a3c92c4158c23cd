-- ===== src/GateServer/Runs.antt =====
-- Sequences of what happens to the connections of the gate.
use frame_work.Prelude.{ℕ, List, [], ◌∷◌, Option, none, some, get_elem?}
use frame_work.GateServer.Client.{Client}
use frame_work.GateServer.Gate.{
  Gate, Answers, new_client, set_client, on_connection, on_event, on_idle_timeout,
}

-- A client arrives; or one in use, by its place in the list, does something that changes no more
-- than itself, has an event that ends it, or has its idle timer fire.
pub data Event : Type 0 where
  arrives : Answers → Event
  works : ℕ → (Client → Client) → Event
  ends : ℕ → Event
  idles : Answers → ℕ → Event

abbrev pub for_used : Gate → (ℕ → Gate) → Option ℕ → Gate
for_used g f none = g
for_used g f (some conn) = f conn

abbrev pub step : Gate → Event → Gate
step g (arrives a) = (on_connection a g).1
step g (works k f) =
    for_used g (λ conn. set_client g conn (f (g.clients conn))) (get_elem? g.in_use k)
step g (ends k) = for_used g (on_event g) (get_elem? g.in_use k)
step g (idles a k) = for_used g (on_idle_timeout a g) (get_elem? g.in_use k)

abbrev pub run : Gate → List Event → Gate
run g [] = g
run g (e ∷ es) = run (step g e) es

-- The application before the first connection.
abbrev pub started : ℕ → Gate
started online_threshold = record {
  clients = λ i. new_client;
  pool = [];
  fresh = 0;
  in_use = [];
  deleted = [];
  uid2conn = λ u s. none;
  role_id2conn = [];
  online_threshold = online_threshold;
}
