-- ===== src/DayRollLogger/Lines.antt =====
-- What a logger has been given, in its files and its buffer.
use frame_work.Prelude.{
  ℕ, zero, suc, ◌+◌, ◌-◌, ◌≤◌, ◌<◌, ◌≡◌, ◌⊎◌, inl, inr, refl, sym, ap, subst, ◌∙◌, true, false,
  ◌||◌, List, [], ◌∷◌, ◌++◌, Option, none, some, ℤ, pos, negsuc, ok, ltb, ◌==◌, length, take,
  length-take, length-append, append_assoc, append-nil, Bool-cases, arith,
}
use frame_work.DayRollLogger.{
  Logger, Written, took, flush, flush_open, World, rolled, roll, prepare_on, prepare, ends_line,
  with_newline, line_of, keep_line, prepared, overruns, at_most, is_closed, write_string,
}

-- All lines that were kept: in the files, and in the buffer.
abbrev pub logged : Logger → List ℕ
logged l = l.out ++ l.bytes

-- There is a file, and room for a line.
pub record IsReady (l : Logger) : Type 0 where
  pub opened : (fd : ℕ) × (l.fd ≡ some fd)
  pub large : 4088 ≤ l.size
  pub room : (length l.bytes ≡ 0) ⊎ (length l.bytes + 4096 ≤ l.size)

-- write takes all that it is given.
abbrev pub TakesAll : (ℕ → Written) → Type 0
TakesAll kernel = (n : ℕ) → kernel n ≡ took n

-- A call that returns 0 and leaves a ready logger that has kept these bytes too.
abbrev pub Keeps : Logger → List ℕ → Option (ℤ × Logger) → Type 0
Keeps l line none = ⊥
Keeps l line (some (s, l')) = (s ≡ ok) × (logged l' ≡ logged l ++ line) × IsReady l'

with_newline-length : (text : List ℕ) → length (with_newline text) ≤ length text + 1
with_newline-length text = elim (Bool-cases (ends_line text)) [
  | inl q ↦ rw q (omega arith)
  | inr q ↦ rw q (omega (arith, length-append text (10 ∷ [])))
]

pub line_of-length : (formatted : List ℕ) → length (line_of formatted) ≤ 4033
line_of-length formatted =
    omega (arith, with_newline-length (take 4032 formatted), length-take 4032 formatted)

-- A flush of a buffer that is not empty, by a write that takes all.
flush_open-all :
    (l : Logger) (kernel : ℕ → Written) (fd : ℕ)
    → TakesAll kernel
    → 0 < length l.bytes
    → flush_open l kernel (some fd) ≡ some (ok, record l { bytes = []; out = l.out ++ l.bytes })
flush_open-all l kernel fd t h =
    let a : ltb (length l.bytes) 1 ≡ false = ground arith in
    let b : (length l.bytes == length l.bytes) ≡ true = ground arith in
    rw a (rw (t (length l.bytes)) (rw b refl))

with_newline-some : (text : List ℕ) → 0 < length (with_newline text)
with_newline-some text = elim (Bool-cases (ends_line text)) [
  | inr q ↦ rw q (omega (arith, length-append text (10 ∷ [])))
  | inl q ↦ rw q (some_text text q)
]
  where
    some_text : (text : List ℕ) → ends_line text ≡ true → 0 < length text
    some_text [] q = absurd (cc)
    some_text (c ∷ cs) q = omega arith

emptied : Logger → Logger
emptied l = record l { bytes = []; out = l.out ++ l.bytes }

keep_line-Keeps :
    (kernel : ℕ → Written) (line : List ℕ) (l : Logger)
    → TakesAll kernel
    → IsReady l
    → 0 < length line
    → length line ≤ 4033
    → Keeps l line (keep_line kernel line l)
unfolding flush
keep_line-Keeps kernel line l t v h k =
    let (fd, e) = v.opened in
    let l' = record l { bytes = l.bytes ++ line } in
    elim (Bool-cases (ltb (l.size - length (l.bytes ++ line)) 4096)) [
      | inr q ↦
          let room : length (l.bytes ++ line) + 4096 ≤ l.size = ground arith in
          rw q (
            refl,
            sym (append_assoc l.out l.bytes line),
            record { opened = v.opened; large = v.large; room = inr room },
          )
      | inl q ↦ rw q (
          rw
            (ap (flush_open l' kernel) e
              ∙ flush_open-all l' kernel fd t (omega (arith, length-append l.bytes line)))
            (
              refl,
              append-nil (l.out ++ (l.bytes ++ line)) ∙ sym (append_assoc l.out l.bytes line),
              record { opened = (fd, e); large = v.large; room = inl refl },
            ))
    ]

at_most-short : (n : ℕ) → n < 4088 → at_most 4096 n ≤ 4088
at_most-short n h = ground arith

module _ (w : World) (t : TakesAll w.kernel) where
  rolled-Keeps :
      (l : Logger) (new date : ℕ) (file : Option ℕ)
      → is_closed file ≡ false
      → IsReady l
      → Keeps l [] (rolled new date file (flush_open l w.kernel file))
  rolled-Keeps l new date none c v = absurd (cc)
  rolled-Keeps l new date (some old) c v = elim (Bool-cases (ltb (length l.bytes) 1)) [
    | inl q ↦
        let none_left : length l.bytes ≡ 0 = ground arith in
        rw q (
          refl,
          sym (append-nil (logged l)),
          record { opened = (new, refl); large = v.large; room = inl none_left },
        )
    | inr q ↦
        let some_left : 0 < length l.bytes = ground arith in
        rw (flush_open-all l w.kernel old t some_left)
          (refl, refl, record { opened = (new, refl); large = v.large; room = inl refl })
  ]

  prepare-Keeps :
      (l : Logger) (date new : ℕ)
      → w.today ≡ some date
      → w.opened ≡ some new
      → IsReady l
      → Keeps l [] (prepare w l)
  unfolding prepare flush
  prepare-Keeps l date new d o v =
      subst (Keeps l []) (sym (ap (prepare_on w l) d))
        (elim (Bool-cases ((l.filedate == date) || l.null_prefix)) [
          | inl q ↦ rw q (refl, sym (append-nil (logged l)), v)
          | inr q ↦ rw q (
              subst (Keeps l []) (sym (ap (roll l w.kernel date) o))
                (rolled-Keeps l new date l.fd (ap is_closed v.opened.1) v))
        ])

  prepared-Keeps :
      (l : Logger) (raw : ℕ) (line : List ℕ) (o : Option (ℤ × Logger))
      → raw ≤ 4088
      → 0 < length line
      → length line ≤ 4033
      → Keeps l [] o
      → Keeps l line (prepared w.kernel raw line o)
  prepared-Keeps l raw line none b h k p = absurd p
  prepared-Keeps l raw line (some (pos (suc n), l')) b h k (s, e, v) = absurd (cc)
  prepared-Keeps l raw line (some (negsuc n, l')) b h k (s, e, v) = absurd (cc)
  prepared-Keeps l raw line (some (pos zero, l')) b h k (s, e, v) =
      let fits : overruns l' raw || overruns l' (length line + 1) ≡ false = elim v.room [
        | inl r ↦ ground (arith, v.large)
        | inr r ↦ ground arith
      ] in
      rw fits (kept (keep_line w.kernel line l') (keep_line-Keeps w.kernel line l' t v h k))
    where
      kept : (o : Option (ℤ × Logger)) → Keeps l' line o → Keeps l line o
      kept none q = q
      kept (some (r, l'')) (q, f, u) = (q, f ∙ ap (λ x. x ++ line) (e ∙ append-nil (logged l)), u)

  -- Where the logger has a file and room for a line, the level of the line is on, its text, as
  -- snprintf makes it, is shorter than 4088 bytes, the date is known, a file can be opened and
  -- write takes all that it is given: write_string returns 0, the files and the buffer together
  -- have gained exactly the line, also where the day changes or the buffer is flushed, there is a
  -- file and room for a line again, and neither the text with its NUL nor the line is written over
  -- the end of m_buf.
  pub write_string-Keeps :
      (l : Logger) (ll : ℕ) (formatted : List ℕ) (date new : ℕ)
      → IsReady l
      → 0 < ll
      → ll ≤ l.level
      → length formatted < 4088
      → w.today ≡ some date
      → w.opened ≡ some new
      → Keeps l (line_of formatted) (write_string w l ll formatted)
        × (length l.bytes + (length formatted + 1) ≤ l.size)
  unfolding write_string
  write_string-Keeps l ll formatted date new v h k b d o =
      let q : is_closed l.fd || (ltb l.level ll || ltb ll 1) ≡ false =
        ap (λ b. b || (ltb l.level ll || ltb ll 1)) (ap is_closed v.opened.1) ∙ ground arith in
      let n = line_of-length formatted in
      (
        rw q (
            prepared-Keeps l (at_most 4096 (length formatted)) (line_of formatted) (prepare w l)
              (at_most-short (length formatted) b) (with_newline-some (take 4032 formatted)) n
              (prepare-Keeps l date new d o v)),
        elim v.room [ inl r ↦ omega (arith, v.large, r) | inr r ↦ omega (arith, r) ],
      )
