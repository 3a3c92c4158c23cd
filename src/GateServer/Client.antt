-- ===== src/GateServer/Client.antt =====
-- ClientConnection: what it keeps beside its tcp_data_handler, and what it does with a packet. Its
-- user and role are not negative.
use frame_work.Prelude.{
  ℕ, ◌+◌, ◌*◌, ◌/◌, ◌%◌, Bool, true, false, not, ◌&&◌, ◌||◌, List, [], ◌∷◌, Option, none, some, ℤ,
  pos, negsuc, ok, ltb, leb, ◌==◌, if◌then◌else◌, get_or,
}
use frame_work.Threshold.{Threshold, init, inc, is_limit}
use frame_work.StrUtil.Split.{starts_with}

abbrev pub status_default : ℕ
status_default = 0

abbrev pub status_prepare : ℕ
status_prepare = 1

abbrev pub status_player_login : ℕ
status_player_login = 3

abbrev pub status_in_game : ℕ
status_in_game = 4

-- `idle_timer` is the time at which m_idle_timer ends, where it is in the timer engine.
pub record Client : Type 0 where
  pub seq_counter : ℕ
  pub uid : ℕ
  pub role_id : ℕ
  pub server_id : ℕ
  pub status : ℕ
  pub policy_status : ℕ
  pub client_seq : ℤ
  pub last_heart : ℤ
  pub cur_heart : ℤ
  pub heart_time : ℕ
  pub threshold : ℕ → Threshold
  pub idle_timer : Option ℕ

abbrev pub no_threshold : Threshold
no_threshold = record { cur_cycle = 0; cur_counter = 0; limit = 0; cycle_second = 0 }

unfoldable pub reset : Client → Client
reset c = record c {
  seq_counter = 0;
  uid = 0;
  role_id = 0;
  server_id = 0;
  status = status_default;
  client_seq = pos 0;
  last_heart = pos 0;
  cur_heart = pos 0;
  heart_time = 0;
  threshold = λ i. no_threshold;
  idle_timer = none;
}

-- The answer of add_timer: `added` says that it is 0.
abbrev pub arm : Bool → ℕ → Client → Client
arm true time c = record c { idle_timer = some time }
arm false time c = c

unfoldable pub on_connect : Bool → ℕ → ℕ → Client → Client
on_connect added now run_ms c = arm added (run_ms + 5000) (record c {
  client_seq = pos 0;
  cur_heart = pos 0;
  last_heart = pos 0;
  heart_time = now;
  status = status_default;
  policy_status = 0;
  threshold = λ i. init (pos 1) (pos 50);
})

unfoldable pub on_player_login : Client → Client
on_player_login c = record c { status = status_in_game }

unfoldable pub on_acc_login : ℕ → Client → Client
on_acc_login role_id c = record c { role_id = role_id; status = status_player_login }

-- m <= n of two ints
abbrev pub at_most : ℤ → ℤ → Bool
at_most (pos m) (pos n) = leb m n
at_most (pos m) (negsuc n) = false
at_most (negsuc m) (pos n) = true
at_most (negsuc m) (negsuc n) = leb n m

unfoldable pub check_seq : Client → ℤ → Bool × Client
check_seq c seq =
    if at_most seq c.client_seq then (false, c) else (true, record c { client_seq = seq })

abbrev pub same_int : ℤ → ℤ → Bool
same_int m n = at_most m n && at_most n m

unfoldable pub check_heart : Client → ℤ → Bool
check_heart c value = same_int value c.cur_heart || same_int value c.last_heart

abbrev pub max_action_size : ℕ
max_action_size = 512

-- The ten bits of action_id stand behind the two bits of type.
abbrev pub action_slot : ℕ → ℕ
action_slot msg_id = msg_id / 4 % 1024 % max_action_size

unfoldable pub check_threshold : Client → ℕ → ℕ → Bool × Client
unfolding inc
check_threshold c msg_id now =
    let slot = action_slot msg_id in
    let th = inc (c.threshold slot) now in
    (not (is_limit th), record c { threshold = λ i. if i == slot then th else c.threshold i })

-- "<policy-file-request/>"
abbrev pub policy_request : List ℕ
policy_request =
    b'<' ∷ b'p' ∷ b'o' ∷ b'l' ∷ b'i' ∷ b'c' ∷ b'y' ∷ b'-' ∷ b'f' ∷ b'i' ∷ b'l' ∷ b'e' ∷ b'-' ∷ b'r'
    ∷ b'e' ∷ b'q' ∷ b'u' ∷ b'e' ∷ b's' ∷ b't' ∷ b'/' ∷ b'>' ∷ []

abbrev pub head_size : ℕ
head_size = 4

-- A number of two bytes in the order of the network.
abbrev pub two_bytes : List ℕ → ℕ → ℕ
two_bytes memory i = get_or memory i 0 * 256 + get_or memory (i + 1) 0

abbrev pub head_length : List ℕ → ℕ → ℕ
head_length memory size = if ltb size head_size then head_size else two_bytes memory 0

-- get_packet_info answers its status and pi->size. `memory` is what stands from data on, of which
-- `size` bytes are data: memcmp reads as many bytes as the policy request has.
unfoldable pub get_packet_info : Client → List ℕ → ℕ → ℤ × ℕ × Client
get_packet_info c memory size =
    if (c.policy_status == 0) && starts_with memory policy_request
    then (ok, size, record c { policy_status = 1 })
    else (let length = head_length memory size in
        if ltb length head_size || ltb 10240 length then (negsuc 3, length, c) else (ok, length, c))

-- The checks that the configuration asks for.
pub record Checks : Type 0 where
  pub threshold : Bool
  pub seq : Bool
  pub active_heartbeat : Bool

-- What process_packet does with a packet of this type: it sends the policy, drops the packet,
-- refuses it, or hands it to process_player_login or to the log of unexpected packets.
pub data Action : Type 0 where
  sends_policy drops refuses dispatches : Action

abbrev pub checked_seq : Bool × Client → Action × Client
checked_seq (true, c) = (dispatches, c)
checked_seq (false, c) = (refuses, c)

-- `seq` is what stands at the seq of a cs_head_plus at the packet.
abbrev pub with_seq : Checks → ℤ → Client → Action × Client
with_seq k seq c = if k.seq then checked_seq (check_seq c seq) else (dispatches, c)

abbrev pub checked_threshold : Checks → ℤ → Bool × Client → Action × Client
checked_threshold k seq (true, c) = with_seq k seq c
checked_threshold k seq (false, c) = (drops, c)

unfoldable pub process_packet : Checks → Client → ℕ → ℤ → ℕ → Action × Client
unfolding check_threshold check_seq
process_packet k c type seq now =
    if c.policy_status == 1
    then (sends_policy, record c { policy_status = 2 })
    else (if k.threshold
        then checked_threshold k seq (check_threshold c type now)
        else with_seq k seq c)

-- What on_idle_timeout does: it calls on_event(0), or waits for another 50 seconds. The timer has
-- left the engine when it fires.
abbrev pub closes_idle : Client → ℕ → Bool
closes_idle c now = ltb c.status status_prepare || ltb (c.heart_time + 180) now

unfoldable pub waits_on : Bool → ℕ → Client → Client
waits_on added run_ms c = arm added (run_ms + 50000) (record c { idle_timer = none })
