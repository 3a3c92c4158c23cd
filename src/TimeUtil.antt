-- ===== src/TimeUtil.antt =====
-- framework/time_util.h: arithmetic on seconds, days and weeks. A time_t is a number of seconds;
-- what localtime_r and mktime make of it is the parameter `Calendar`, and the answers of time() are
-- arguments.
pub mod Days
pub mod Weeks
use frame_work.Prelude.{
  ℕ, zero, suc, ◌+◌, ◌-◌, ◌*◌, ◌/◌, ◌%◌, Bool, true, false, ◌&&◌, ◌||◌, ℤ, pos, negsuc, ok,
  minus_one, ltb, leb, ◌==◌, if◌then◌else◌,
}

abbrev pub seconds_of_hour : ℕ
seconds_of_hour = 3600

abbrev pub seconds_of_day : ℕ
seconds_of_day = 86400

abbrev pub seconds_of_week : ℕ
seconds_of_week = 604800

-- The fields of struct tm that the code reads.
pub record Tm : Type 0 where
  pub tm_year : ℕ
  pub tm_mon : ℕ
  pub tm_mday : ℕ
  pub tm_wday : ℕ
  pub tm_hour : ℕ
  pub tm_min : ℕ
  pub tm_sec : ℕ

-- localtime_r, and what mktime answers for the tm of a time with its hour, minute and second at 0.
pub record Calendar : Type 0 where
  pub localtime : ℕ → Tm
  pub midnight : ℕ → ℕ

pub record SimpleTime : Type 0 where
  pub hour : ℕ
  pub min : ℕ
  pub sec : ℕ

abbrev pub or_now : ℕ → ℕ → ℕ
or_now now t = if t == 0 then now else t

-- get_seconds_elapsed_of_the_day(cur_time, day_seconds)
unfoldable pub elapsed_of_day : Calendar → ℕ → ℕ → ℕ → ℕ
elapsed_of_day cal now cur_time day_seconds =
    let t = or_now now cur_time in (t - cal.midnight t) % day_seconds

-- is_same_day of two struct tm
unfoldable pub is_same_date : Tm → Tm → Bool
is_same_date a b = (a.tm_year == b.tm_year) && ((a.tm_mon == b.tm_mon) && (a.tm_mday == b.tm_mday))

-- is_same_day of two times; `east` is -timezone, which is not negative east of Greenwich.
unfoldable pub is_same_day : ℕ → ℕ → ℕ → ℕ → Bool
is_same_day east first second day_seconds =
    (first + east) / day_seconds == (second + east) / day_seconds

-- An int difference.
abbrev pub difference : ℕ → ℕ → ℤ
difference m n = if leb n m then pos (m - n) else negsuc (n - m - 1)

abbrev pub seconds_of : SimpleTime → ℕ
seconds_of a = a.hour * seconds_of_hour + a.min * 60 + a.sec

unfoldable pub seconds_diff : SimpleTime → SimpleTime → ℤ
seconds_diff start end = difference (seconds_of end) (seconds_of start)

unfoldable pub convert_from_simple_time : SimpleTime → Tm → Tm
convert_from_simple_time a tm = record tm { tm_hour = a.hour; tm_min = a.min; tm_sec = a.sec }

unfoldable pub convert_from_tm : Tm → SimpleTime
convert_from_tm tm = record { hour = tm.tm_hour; min = tm.tm_min; sec = tm.tm_sec }

abbrev pub cmp_or : ℕ → ℕ → ℤ → ℤ
cmp_or a b rest = if ltb b a then pos 1 else (if ltb a b then minus_one else rest)

unfoldable pub time_cmp : SimpleTime → SimpleTime → ℤ
time_cmp a b = cmp_or a.hour b.hour (cmp_or a.min b.min (cmp_or a.sec b.sec ok))

-- time_cmp(tm, hour, min, sec)
unfoldable pub time_cmp_tm : Tm → SimpleTime → ℤ
unfolding time_cmp convert_from_tm
time_cmp_tm tm b = time_cmp (convert_from_tm tm) b

-- seconds_to_nearest_time; `later` is the time that the second call of time() answers. In the last
-- branch the terms are in another order, in which no part goes below 0.
abbrev pub nearest : Calendar → ℕ → Tm → SimpleTime → ℤ → ℕ
nearest cal later tm a (pos zero) = 0
nearest cal later tm a (pos (suc n)) =
    seconds_of_day
    - elapsed_of_day cal later 0 seconds_of_day
    + (a.hour * 3600 + a.min * 60 + a.sec)
nearest cal later tm a (negsuc n) =
    a.hour * 3600 + a.min * 60 + a.sec - (tm.tm_hour * 3600 + tm.tm_min * 60 + tm.tm_sec)

unfoldable pub seconds_to_nearest_time : Calendar → ℕ → ℕ → SimpleTime → ℕ
unfolding elapsed_of_day time_cmp_tm
seconds_to_nearest_time cal now later a =
    nearest cal later (cal.localtime now) a (time_cmp_tm (cal.localtime now) a)

-- get_seconds_elapsed_of_the_week
unfoldable pub elapsed_of_week : Calendar → ℕ → ℕ → ℕ
unfolding elapsed_of_day
elapsed_of_week cal now t =
    let s = or_now now t in
    (cal.localtime s).tm_wday * seconds_of_day + elapsed_of_day cal now s seconds_of_day

abbrev pub int_max : ℕ
int_max = 2147483647

-- A quotient, and one more where there is a remainder.
abbrev pub and_one_more : ℕ → ℕ → ℕ → ℕ
and_one_more base n day_seconds =
    n / day_seconds + base + (if ltb 0 (n % day_seconds) then 1 else 0)

-- From the first test of last_time == 0 on, where last_time < end_time.
abbrev pub days_from : Calendar → ℕ → ℕ → ℕ → ℕ → ℕ
days_from cal now last_time end_time day_seconds =
    if last_time == 0
    then and_one_more 0 end_time day_seconds
    else (let left = day_seconds - elapsed_of_day cal now last_time day_seconds in
        if ltb (end_time - last_time) left
        then 1
        else and_one_more 1 (end_time - last_time - left) day_seconds)

-- get_passed_days_between; `now` is read only for a last_time of 0, which does not come so far.
unfoldable pub get_passed_days_between : Calendar → ℕ → ℤ → ℤ → ℕ → ℕ
unfolding elapsed_of_day
get_passed_days_between cal now (negsuc n) end_time day_seconds = int_max
get_passed_days_between cal now (pos last_time) (negsuc n) day_seconds = 0
get_passed_days_between cal now (pos last_time) (pos end_time) day_seconds =
    if ltb end_time last_time
    then 0
    else (if last_time == end_time then 1 else days_from cal now last_time end_time day_seconds)

-- get_passed_days_since; `now` is what time(NULL) answers.
unfoldable pub get_passed_days_since : Calendar → ℕ → ℤ → ℕ → ℕ
unfolding elapsed_of_day
get_passed_days_since cal now (negsuc n) day_seconds = int_max
get_passed_days_since cal now (pos last_time) day_seconds =
    if ltb now last_time
    then 0
    else (if last_time == now then 1 else days_from cal now last_time now day_seconds)

abbrev pub distance : ℕ → ℕ → ℕ
distance m n = if leb n m then m - n else n - m

abbrev pub within_week : ℕ → ℕ → ℕ → Bool
within_week elapsed first second =
    if ltb second first
    then (if ltb elapsed (first - second) then false else true)
    else (if ltb (seconds_of_week - elapsed) (second - first) then false else true)

unfoldable pub is_same_week : Calendar → ℕ → ℕ → ℕ → Bool
unfolding is_same_day elapsed_of_week
is_same_week cal east first second =
    if (first == 0) || (second == 0)
    then false
    else (if ltb seconds_of_week (distance first second)
        then false
        else (if is_same_day east first second seconds_of_day
            then true
            else within_week (elapsed_of_week cal first first) first second))
