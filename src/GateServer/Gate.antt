-- ===== src/GateServer/Gate.antt =====
-- GateApplication: the pool of connections, the indices by user and by role, and the two ends of a
-- connection. `in_use` lists the connections that alloc_connection has given and free_connection
-- has not had, and `deleted` those that were deleted.
use frame_work.Prelude.{
  ℕ, zero, ◌+◌, Bool, ◌&&◌, List, [], ◌∷◌, Option, none, some, ℤ, pos, ok, minus_one, ltb, ◌==◌,
  if◌then◌else◌, length,
}
use frame_work.GateServer.Client.{
  Client, no_threshold, status_default, status_in_game, reset, on_connect, closes_idle, waits_on,
}

-- The back of m_conn_pool is the head of `pool`. `fresh` is the next address that new gives.
pub record Gate : Type 0 where
  pub clients : ℕ → Client
  pub pool : List ℕ
  pub fresh : ℕ
  pub in_use : List ℕ
  pub deleted : List ℕ
  pub uid2conn : ℕ → ℕ → Option ℕ
  pub role_id2conn : List (ℕ × ℕ)
  pub online_threshold : ℕ

-- ClientConnection()
abbrev pub new_client : Client
new_client = record {
  seq_counter = 0;
  uid = 0;
  role_id = 0;
  server_id = 0;
  status = status_default;
  policy_status = 0;
  client_seq = pos 0;
  last_heart = pos 0;
  cur_heart = pos 0;
  heart_time = 0;
  threshold = λ i. no_threshold;
  idle_timer = none;
}

abbrev pub set_client : Gate → ℕ → Client → Gate
set_client g conn c = record g { clients = λ i. if i == conn then c else g.clients i }

abbrev pub from_pool : Gate → List ℕ → ℕ × Gate
from_pool g [] = (
  g.fresh,
  set_client (record g { fresh = g.fresh + 1; in_use = g.fresh ∷ g.in_use }) g.fresh new_client,
)
from_pool g (conn ∷ conns) = (conn, record g { pool = conns; in_use = conn ∷ g.in_use })

unfoldable pub alloc_connection : Gate → ℕ × Gate
alloc_connection g = from_pool g g.pool

-- The connections without the first place of one.
abbrev pub without : List ℕ → ℕ → List ℕ
without [] conn = []
without (x ∷ xs) conn = if x == conn then xs else x ∷ without xs conn

unfoldable pub free_connection : Gate → ℕ → Gate
free_connection g conn =
    let g' = record g { in_use = without g.in_use conn } in
    if ltb 100 (length g.pool)
    then record g' { deleted = conn ∷ g.deleted }
    else record g' { pool = conn ∷ g.pool }

unfoldable pub get_user_connection : Gate → ℕ → ℕ → Option ℕ
get_user_connection g uid server_id = g.uid2conn uid server_id

abbrev pub or_else : Option ℕ → Option ℕ → Option ℕ
or_else none o = o
or_else (some conn) o = some conn

-- NULL is none. insert keeps an entry that is there.
unfoldable pub set_user_connection : Gate → ℕ → ℕ → Option ℕ → Gate
set_user_connection g uid server_id none = record g {
  uid2conn = λ u s. if (u == uid) && (s == server_id) then none else g.uid2conn u s;
}
set_user_connection g uid server_id (some conn) = record g {
  uid2conn = λ u s.
      if (u == uid) && (s == server_id)
      then or_else (g.uid2conn u s) (some conn)
      else g.uid2conn u s;
}

abbrev pub find_role : List (ℕ × ℕ) → ℕ → Option ℕ
find_role [] role_id = none
find_role ((r, conn) ∷ rs) role_id = if r == role_id then some conn else find_role rs role_id

unfoldable pub get_role_connection : Gate → ℕ → Option ℕ
get_role_connection g role_id = find_role g.role_id2conn role_id

abbrev pub erase_role : List (ℕ × ℕ) → ℕ → List (ℕ × ℕ)
erase_role [] role_id = []
erase_role ((r, conn) ∷ rs) role_id =
    let rest = erase_role rs role_id in if r == role_id then rest else (r, conn) ∷ rest

unfoldable pub set_role_connection : Gate → ℕ → Option ℕ → Gate
set_role_connection g role_id none = record g { role_id2conn = erase_role g.role_id2conn role_id }
set_role_connection g role_id (some conn) = record g {
  role_id2conn = (role_id, conn) ∷ erase_role g.role_id2conn role_id;
}

-- The connections that broadcast_all sends to, in the order of the index.
abbrev pub receivers : Gate → List (ℕ × ℕ) → List ℕ
receivers g [] = []
receivers g ((r, conn) ∷ rs) =
    let rest = receivers g rs in
    if (g.clients conn).status == status_in_game then conn ∷ rest else rest

unfoldable pub broadcast_all : Gate → List ℕ
broadcast_all g = receivers g g.role_id2conn

unfoldable pub is_online_threshold : Gate → Bool
is_online_threshold g = ltb g.online_threshold (length g.role_id2conn)

-- What init of the connection, the clocks and add_timer answer.
pub record Answers : Type 0 where
  pub init : ℤ
  pub now : ℕ
  pub run_ms : ℕ
  pub added : Bool

abbrev pub connected : Answers → ℤ → ℕ × Gate → ℤ × Gate
connected a (pos zero) (conn, g) =
    (ok, set_client g conn (on_connect a.added a.now a.run_ms (g.clients conn)))
connected a (_) (conn, g) = (minus_one, free_connection g conn)

-- ClientAcceptor::on_connection
unfoldable pub on_connection : Answers → Gate → ℤ × Gate
unfolding alloc_connection free_connection on_connect is_online_threshold
on_connection a g =
    if is_online_threshold g then (minus_one, g) else connected a a.init (alloc_connection g)

abbrev pub forget_role : Gate → ℕ → Gate
forget_role g role_id = if ltb 0 role_id then set_role_connection g role_id none else g

abbrev pub forget : Gate → Client → Gate
forget g c =
    if ltb 0 c.uid then forget_role (set_user_connection g c.uid c.server_id none) c.role_id else g

-- ClientConnection::on_event; its fini is that of tcp_data_handler.
unfoldable pub on_event : Gate → ℕ → Gate
unfolding set_role_connection set_user_connection reset free_connection
on_event g conn =
    let c = g.clients conn in free_connection (set_client (forget g c) conn (reset c)) conn

-- ClientConnection::on_idle_timeout
unfoldable pub on_idle_timeout : Answers → Gate → ℕ → Gate
unfolding on_event waits_on
on_idle_timeout a g conn =
    if closes_idle (g.clients conn) a.now
    then on_event g conn
    else set_client g conn (waits_on a.added a.run_ms (g.clients conn))
