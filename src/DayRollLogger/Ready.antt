-- ===== src/DayRollLogger/Ready.antt =====
-- The logger that init makes.
use frame_work.Prelude.{
  ℕ, ◌+◌, ◌-◌, ◌≤◌, ◌≡◌, ◌≢◌, inl, refl, sym, ap, subst, true, false, ◌||◌, List, [], ◌∷◌, Option,
  none, some, ℤ, pos, negsuc, ok, ltb, ◌==◌, length, arith,
}
use frame_work.DayRollLogger.{
  Logger, Written, flush, flush_open, World, rolled, roll, prepare_on, prepare, max_iobuf_size,
  clamp_level, clamp_size, init,
}
use frame_work.DayRollLogger.Lines.{IsReady}

clamp_level-le : (n : ℤ) → (1 ≤ clamp_level n) × (clamp_level n ≤ 4)
clamp_level-le (pos n) = ground arith
clamp_level-le (negsuc n) = (omega arith, omega arith)

clamp_size-le : (n : ℤ) → (4096 ≤ clamp_size n) × (clamp_size n ≤ 4096000)
clamp_size-le (pos n) = ground arith
clamp_size-le (negsuc n) = (omega arith, omega arith)

-- A call that returns 0, with a file, a level that is on, and an empty buffer within the limits.
pub record Begins (new : ℕ) (s : ℤ) (l : Logger) : Type 0 where
  pub zero_status : s ≡ ok
  pub file : l.fd ≡ some new
  pub ready : IsReady l
  pub empty : length l.bytes ≡ 0
  pub some_level : 1 ≤ l.level
  pub known_level : l.level ≤ 4
  pub limited : l.size + 8 ≤ max_iobuf_size

abbrev pub Begun : ℕ → Option (ℤ × Logger) → Type 0
Begun new none = ⊥
Begun new (some (s, l)) = Begins new s l

-- An empty buffer within the limits, and a level that is on.
record IsFresh (l : Logger) : Type 0 where
  empty : length l.bytes ≡ 0
  some_level : 1 ≤ l.level
  known_level : l.level ≤ 4
  large : 4088 ≤ l.size
  limited : l.size + 8 ≤ max_iobuf_size

named :
    (l : Logger) (new date : ℕ) (closed : List ℕ)
    → IsFresh l
    → Begins new ok (record l { fd = some new; filedate = date; closed = closed })
named l new date closed v = record {
  zero_status = refl;
  file = refl;
  ready = record { opened = (new, refl); large = v.large; room = inl v.empty };
  empty = v.empty;
  some_level = v.some_level;
  known_level = v.known_level;
  limited = v.limited;
}

rolled-Begun :
    (l : Logger) (date new : ℕ) (kernel : ℕ → Written) (file : Option ℕ)
    → IsFresh l
    → Begun new (rolled new date file (flush_open l kernel file))
rolled-Begun l date new kernel none v = named l new date l.closed v
rolled-Begun l date new kernel (some old) v =
    let q : ltb (length l.bytes) 1 ≡ true = ground (arith, v.empty) in
    rw q (named l new date (old ∷ l.closed) v)

-- init with a prefix that is neither NULL nor /dev/null, with any level and any buffer size, where
-- the memory is there, the date is known and not that of the logger, and a file can be opened: it
-- returns 0 and leaves a logger with that file, room for a line, an empty buffer, a level from 1
-- to 4, and a buffer that, with its head of eight bytes, is within MAX_IOBUF_SIZE.
pub init-Begun :
    (w : World) (l : Logger) (log_level buf_size : ℤ) (date new : ℕ)
    → w.today ≡ some date
    → w.opened ≡ some new
    → l.filedate ≢ date
    → Begun new (init w true l false log_level buf_size)
unfolding init prepare flush
init-Begun w l log_level buf_size date new d o n =
    let b = clamp_level-le log_level in
    let c = clamp_size-le buf_size in
    let l' = record l {
      level = clamp_level log_level;
      null_prefix = false;
      has_buf = true;
      size = clamp_size buf_size - 8;
      bytes = [];
    } in
    let v : IsFresh l' = record {
      empty = refl;
      some_level = b.0;
      known_level = b.1;
      large = omega (arith, c.0);
      limited = omega (arith, c.1, c.0);
    } in
    let q : (l.filedate == date) || false ≡ false = ground arith in
    subst (Begun new) (sym (ap (prepare_on w l') d)) (
      rw q (
        subst (Begun new) (sym (ap (roll l' w.kernel date) o))
          (rolled-Begun l' date new w.kernel l.fd v)))
