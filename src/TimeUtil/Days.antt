-- ===== src/TimeUtil/Days.antt =====
-- A zone that is a fixed number of seconds ahead, and the days that it counts.
use frame_work.Prelude.{
  ℕ, suc, ◌+◌, ◌-◌, ◌*◌, ◌/◌, ◌%◌, ◌≤◌, ◌<◌, ◌≡◌, inl, inr, ap, ◌∙◌, false, pos, ok, ltb, ◌==◌,
  if◌then◌else◌, Bool-cases, arith,
}
use frame_work.TimeUtil.{
  Calendar, SimpleTime, elapsed_of_day, seconds_of, cmp_or, time_cmp, time_cmp_tm, convert_from_tm,
  seconds_to_nearest_time, and_one_more, get_passed_days_between,
}

-- What localtime_r and mktime do in a zone without summer time, `east` seconds ahead of UTC, for
-- the times from the second day on. The first of January 1970 was a Thursday.
pub record IsFixed (east : ℕ) (cal : Calendar) : Type 0 where
  pub hours : (t : ℕ) → (cal.localtime t).tm_hour ≡ (t + east) % 86400 / 3600
  pub minutes : (t : ℕ) → (cal.localtime t).tm_min ≡ (t + east) % 3600 / 60
  pub seconds : (t : ℕ) → (cal.localtime t).tm_sec ≡ (t + east) % 60
  pub weekday : (t : ℕ) → (cal.localtime t).tm_wday ≡ ((t + east) / 86400 + 4) % 7
  pub started : (t : ℕ) → 86400 ≤ t → cal.midnight t + (t + east) % 86400 ≡ t

module _ {east : ℕ} {cal : Calendar} (z : IsFixed east cal) where
  pub elapsed_lem : (now t : ℕ) → 86400 ≤ t → elapsed_of_day cal now t 86400 ≡ (t + east) % 86400
  unfolding elapsed_of_day
  elapsed_lem now t h =
      let q : (t == 0) ≡ false = ground arith in rw q (omega (arith, z.started t h))

-- The number of the local day of a time.
abbrev pub day_of : ℕ → ℕ → ℕ
day_of east t = (t + east) / 86400

count_lem :
    (east first last e : ℕ)
    → first < last
    → e ≡ (first + east) % 86400
    → (if ltb (last - first) (86400 - e)
        then 1
        else and_one_more 1 (last - first - (86400 - e)) 86400)
      ≡ suc (day_of east (last - 1)) - day_of east first
count_lem east first last e k q = elim (Bool-cases (ltb (last - first) (86400 - e))) [
  | inl t ↦ let h : last - first < 86400 - e = ground arith in rw t (omega arith)
  | inr t ↦
      let h : 86400 - e ≤ last - first = ground arith in
      rw t (elim (Bool-cases (ltb 0 ((last - first - (86400 - e)) % 86400))) [
        | inl u ↦
            let g : 0 < (last - first - (86400 - e)) % 86400 = ground arith in rw u (omega arith)
        | inr u ↦
            let g : (last - first - (86400 - e)) % 86400 ≡ 0 = ground arith in rw u (omega arith)
      ])
]

-- In a zone that is a fixed number of seconds ahead of UTC, get_passed_days_between of a time from
-- the second day on and a later one, with days of 86400 seconds, counts the local days from that
-- of the first time to that of the second before the later one.
pub get_passed_days_between-day_of :
    {east : ℕ} {cal : Calendar} (now first last : ℕ)
    → IsFixed east cal
    → 86400 ≤ first
    → first < last
    → get_passed_days_between cal now (pos first) (pos last) 86400
      ≡ suc (day_of east (last - 1)) - day_of east first
unfolding get_passed_days_between
get_passed_days_between-day_of {east} {cal} now first last z h k =
    let a : ltb last first ≡ false = ground arith in
    let b : (first == last) ≡ false = ground arith in
    let c : (first == 0) ≡ false = ground arith in
    simp (a, b, c)
      (count_lem east first last ((first - cal.midnight first) % 86400) k
        (omega (arith, z.started first h)))

-- x
pub time_cmp-seconds_of :
    (a b : SimpleTime)
    → a.min < 60
    → b.min < 60
    → a.sec < 60
    → b.sec < 60
    → time_cmp a b ≡ cmp_or (seconds_of a) (seconds_of b) ok
unfolding time_cmp
time_cmp-seconds_of a b ha hb sa sb = ground arith

-- The local second of the day of a time, from the three fields.
local_seconds :
    {east : ℕ} {cal : Calendar} (t : ℕ)
    → IsFixed east cal
    → (cal.localtime t).tm_hour * 3600 + (cal.localtime t).tm_min * 60 + (cal.localtime t).tm_sec
      ≡ (t + east) % 86400
local_seconds t z = omega (arith, z.hours t, z.minutes t, z.seconds t)

local_cmp :
    {east : ℕ} {cal : Calendar} (t : ℕ) (a : SimpleTime)
    → IsFixed east cal
    → a.min < 60
    → a.sec < 60
    → time_cmp_tm (cal.localtime t) a ≡ cmp_or ((t + east) % 86400) (seconds_of a) ok
unfolding time_cmp_tm
local_cmp {east} {cal} t a z hm hs =
    time_cmp-seconds_of (convert_from_tm (cal.localtime t)) a (omega (arith, z.minutes t)) hm
      (omega (arith, z.seconds t)) hs
    ∙ ap (λ s. cmp_or s (seconds_of a) ok) (local_seconds t z)

elapsed_now :
    {east : ℕ} {cal : Calendar} (now : ℕ)
    → IsFixed east cal
    → 86400 ≤ now
    → elapsed_of_day cal now 0 86400 ≡ (now + east) % 86400
unfolding elapsed_of_day
elapsed_now now z h = omega (arith, z.started now h)

-- In a zone that is a fixed number of seconds ahead of UTC, where both calls of time() answer the
-- same time from the second day on, seconds_to_nearest_time of a time of the day is below 86400,
-- and that many seconds later it is that time of the day.
pub seconds_to_nearest_time-lands :
    {east : ℕ} {cal : Calendar} (now : ℕ) (a : SimpleTime)
    → IsFixed east cal
    → 86400 ≤ now
    → a.hour < 24
    → a.min < 60
    → a.sec < 60
    → ((now + seconds_to_nearest_time cal now now a + east) % 86400 ≡ seconds_of a)
      × (seconds_to_nearest_time cal now now a < 86400)
unfolding seconds_to_nearest_time
seconds_to_nearest_time-lands {east} {cal} now a z h hh hm hs =
    rw (local_cmp now a z hm hs) (elim (Bool-cases (ltb (seconds_of a) ((now + east) % 86400))) [
      | inl p ↦
          let k : seconds_of a < (now + east) % 86400 = ground arith in
          let e = elapsed_now now z h in rw p (omega (arith, e), omega (arith, e))
      | inr p ↦ rw p (elim (Bool-cases (ltb ((now + east) % 86400) (seconds_of a))) [
        | inl q ↦
            let k : (now + east) % 86400 < seconds_of a = ground arith in
            let l = local_seconds now z in rw q (omega (arith, l), omega (arith, l))
        | inr q ↦
            let k : (now + east) % 86400 ≡ seconds_of a = ground arith in
            rw q (omega arith, omega arith)
      ])
    ])
