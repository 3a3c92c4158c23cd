-- ===== src/Tests/Logs.antt =====
-- A run of the logger: a line on a new day, with a buffer that is full after it.
use frame_work.Prelude.{ℕ, pos, ◌+◌, ◌≤◌, refl, inl, some, true, false, [], ◌∷◌, length, arith}
use frame_work.DayRollLogger.Ready.{Begun, init-Begun}
use frame_work.DayRollLogger.{Logger, init, World, took, line_of, write_string}
use frame_work.DayRollLogger.Lines.{IsReady, Keeps, write_string-Keeps}

abbrev small : Logger
small = record {
  fd = some 5;
  filedate = 257;
  level = 3;
  null_prefix = false;
  has_buf = true;
  size = 4088;
  bytes = [];
  out = 120 ∷ 10 ∷ [];
  closed = [];
}

abbrev next_day : World
next_day = record { today = some 258; opened = some 6; kernel = took }

small-IsReady : IsReady small
small-IsReady = record { opened = (5, refl); large = omega arith; room = inl refl }

write_string-Keeps_example :
    Keeps small (line_of (104 ∷ 105 ∷ [])) (write_string next_day small 1 (104 ∷ 105 ∷ []))
    × (length small.bytes + (length {A = ℕ} (104 ∷ 105 ∷ []) + 1) ≤ small.size)
write_string-Keeps_example =
    write_string-Keeps next_day (λ n. refl) small 1 (104 ∷ 105 ∷ []) 258 6 small-IsReady
      (omega arith) (omega arith) (omega arith) refl refl

init-Begun_example : Begun 6 (init next_day true small false (pos 9) (pos 100000))
init-Begun_example =
    init-Begun next_day small (pos 9) (pos 100000) 258 6 refl refl (λ e. omega (arith, e))
