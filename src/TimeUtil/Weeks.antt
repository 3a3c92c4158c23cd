-- ===== src/TimeUtil/Weeks.antt =====
-- The weeks of a zone that is a fixed number of seconds ahead, which begin on Sunday.
use frame_work.Prelude.{
  ℕ, suc, ◌+◌, ◌-◌, ◌*◌, ◌/◌, ◌%◌, ◌≤◌, ◌<◌, ◌≡◌, ◌≢◌, inl, inr, sym, Bool, true, false, ◌||◌, ltb,
  leb, ◌==◌, if◌then◌else◌, Bool-cases, arith,
}
use frame_work.TimeUtil.{
  Calendar, elapsed_of_week, is_same_day, distance, within_week, is_same_week,
}
use frame_work.TimeUtil.Days.{IsFixed, elapsed_lem}

-- The number of the local week of a time; that of the first of January 1970 began four days before.
abbrev pub week_of : ℕ → ℕ → ℕ
week_of east t = (t + east + 345600) / 604800

week_elapsed :
    {east : ℕ} {cal : Calendar} (now t : ℕ)
    → IsFixed east cal
    → 86400 ≤ t
    → elapsed_of_week cal now t ≡ (t + east + 345600) % 604800
unfolding elapsed_of_week
week_elapsed {east} {cal} now t z h =
    let q : (t == 0) ≡ false = ground arith in
    rw q (omega (arith, z.weekday t, elapsed_lem z now t h))

day_week :
    (east s t : ℕ) → (s + east) / 86400 ≡ (t + east) / 86400 → week_of east s ≡ week_of east t
day_week east s t h = omega arith

abbrev same_or_next : ℕ → ℕ → ℕ → Bool
same_or_next east first second =
    (week_of east first == week_of east second)
    || (second + east + 345600 == suc (week_of east first) * 604800)

-- The two tests, each from an order of the weeks.
false_by : (a b c d : ℕ) → a ≢ b → c ≢ d → (a == b) || (c == d) ≡ false
false_by a b c d h k = ground arith

true_left : (a b c d : ℕ) → a ≡ b → (a == b) || (c == d) ≡ true
true_left a b c d h = ground arith

true_right : (a b c d : ℕ) → c ≡ d → (a == b) || (c == d) ≡ true
true_right a b c d h = ground arith

neither :
    (east s t : ℕ)
    → week_of east s ≢ week_of east t
    → t + east + 345600 ≢ suc (week_of east s) * 604800
    → same_or_next east s t ≡ false
neither east s t h k = false_by (week_of east s) (week_of east t) _ _ h k

same_lem : (east s t : ℕ) → week_of east s ≡ week_of east t → same_or_next east s t ≡ true
same_lem east s t h = true_left (week_of east s) (week_of east t) _ _ h

next_lem :
    (east s t : ℕ)
    → t + east + 345600 ≡ suc (week_of east s) * 604800
    → same_or_next east s t ≡ true
next_lem east s t h = true_right (week_of east s) (week_of east t) _ _ h

far_apart : (east s t : ℕ) → 604800 < distance s t → same_or_next east s t ≡ false
far_apart east s t = elim (Bool-cases (leb t s)) [
  | inl q ↦
      let k : t ≤ s = ground arith in
      rw q (λ h. neither east s t (λ u. absurd (omega arith)) (λ u. absurd (omega arith)))
  | inr q ↦
      let k : s < t = ground arith in
      rw q (λ h. neither east s t (λ u. absurd (omega arith)) (λ u. absurd (omega arith)))
]

before_lem :
    (east s t e : ℕ)
    → e ≡ (s + east + 345600) % 604800
    → t < s
    → s - t ≤ 604800
    → (if ltb e (s - t) then false else true) ≡ same_or_next east s t
before_lem east s t e q k h = elim (Bool-cases (ltb e (s - t))) [
  | inl c ↦
      let g : e < s - t = ground arith in
      rw c (sym (neither east s t (λ u. absurd (omega arith)) (λ u. absurd (omega arith))))
  | inr c ↦ let g : s - t ≤ e = ground arith in rw c (sym (same_lem east s t (omega arith)))
]

after_lem :
    (east s t e : ℕ)
    → e ≡ (s + east + 345600) % 604800
    → s ≤ t
    → t - s ≤ 604800
    → (if ltb (604800 - e) (t - s) then false else true) ≡ same_or_next east s t
after_lem east s t e q k h = elim (Bool-cases (ltb (604800 - e) (t - s))) [
  | inl c ↦
      let g : 604800 - e < t - s = ground arith in
      rw c (sym (neither east s t (λ u. absurd (omega arith)) (λ u. absurd (omega arith))))
  | inr c ↦
      let g : t - s ≤ 604800 - e = ground arith in
      rw c (elim (Bool-cases (t - s == 604800 - e)) [
        | inl d ↦
            let same : t - s ≡ 604800 - e = ground arith in sym (next_lem east s t (omega arith))
        | inr d ↦
            let less : t - s < 604800 - e = ground arith in sym (same_lem east s t (omega arith))
      ])
]

within_lem :
    (east s t e : ℕ)
    → e ≡ (s + east + 345600) % 604800
    → distance s t ≤ 604800
    → within_week e s t ≡ same_or_next east s t
within_lem east s t e q = elim (Bool-cases (ltb t s)) [
  | inl c ↦
      let k : t < s = ground arith in
      let l : leb t s ≡ true = ground arith in rw (c, l) (λ h. before_lem east s t e q k h)
  | inr c ↦ let k : s ≤ t = ground arith in rw c (λ h. after_lem east s t e q k (near k h))
]
  where
    near : s ≤ t → distance s t ≤ 604800 → t - s ≤ 604800
    near k h = ground arith

-- In a zone that is a fixed number of seconds ahead of UTC, is_same_week of a first time from the
-- second day on and a second time that is not 0 holds where both are in one week from Sunday on,
-- and where the second is the first second of the week after.
pub is_same_week-week_of :
    {east : ℕ} {cal : Calendar} (first second : ℕ)
    → IsFixed east cal
    → 86400 ≤ first
    → 0 < second
    → is_same_week cal east first second
      ≡ (week_of east first == week_of east second)
        || (second + east + 345600 == suc (week_of east first) * 604800)
unfolding is_same_week is_same_day
is_same_week-week_of {east} {cal} first second z h k =
    let a : (first == 0) || (second == 0) ≡ false = ground arith in
    rw a (elim (Bool-cases (ltb 604800 (distance first second))) [
      | inl q ↦
          let g : 604800 < distance first second = ground arith in
          rw q (sym (far_apart east first second g))
      | inr q ↦
          let g : distance first second ≤ 604800 = ground arith in
          rw q (elim (Bool-cases ((first + east) / 86400 == (second + east) / 86400)) [
            | inl d ↦
                let same : (first + east) / 86400 ≡ (second + east) / 86400 = ground arith in
                rw d (sym (same_lem east first second (day_week east first second same)))
            | inr d ↦ rw d (
                within_lem east first second (elapsed_of_week cal first first)
                  (week_elapsed first first z h) g)
          ])
    ])
