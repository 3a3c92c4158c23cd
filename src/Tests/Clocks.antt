-- ===== src/Tests/Clocks.antt =====
-- Runs of the functions on time, eight hours ahead of UTC.
use frame_work.Prelude.{suc, ◌+◌, ◌-◌, ◌*◌, ◌/◌, ◌%◌, ◌<◌, ◌≡◌, refl, true, ◌||◌, ◌==◌, pos, arith}
use frame_work.TimeUtil.{
  Calendar, SimpleTime, get_passed_days_between, is_same_week, seconds_to_nearest_time, seconds_of,
}
use frame_work.TimeUtil.Days.{
  IsFixed, day_of, get_passed_days_between-day_of, seconds_to_nearest_time-lands,
}
use frame_work.TimeUtil.Weeks.{week_of, is_same_week-week_of}

abbrev shanghai : Calendar
shanghai = record {
  localtime = λ t. record {
    tm_year = 0;
    tm_mon = 0;
    tm_mday = 0;
    tm_wday = ((t + 28800) / 86400 + 4) % 7;
    tm_hour = (t + 28800) % 86400 / 3600;
    tm_min = (t + 28800) % 3600 / 60;
    tm_sec = (t + 28800) % 60;
  };
  midnight = λ t. t - (t + 28800) % 86400;
}

shanghai-IsFixed : IsFixed 28800 shanghai
shanghai-IsFixed = record {
  hours = λ t. refl;
  minutes = λ t. refl;
  seconds = λ t. refl;
  weekday = λ t. refl;
  started = λ t h. omega arith;
}

-- From noon to the midnight after it.
get_passed_days_between-day_of_example :
    get_passed_days_between shanghai 0 (pos 100800) (pos 144000) 86400
    ≡ suc (day_of 28800 (144000 - 1)) - day_of 28800 100800
get_passed_days_between-day_of_example =
    get_passed_days_between-day_of {cal = shanghai} 0 100800 144000 shanghai-IsFixed (omega arith)
      (omega arith)

-- Sunday at midnight, at the end of the week of the Saturday before.
is_same_week-week_of_example :
    is_same_week shanghai 28800 200000 230400
    ≡ (week_of 28800 200000 == week_of 28800 230400)
      || (230400 + 28800 + 345600 == suc (week_of 28800 200000) * 604800)
is_same_week-week_of_example =
    is_same_week-week_of {cal = shanghai} 200000 230400 shanghai-IsFixed (omega arith) (omega arith)

next_week : is_same_week shanghai 28800 200000 230400 ≡ true
next_week =
    is_same_week-week_of {cal = shanghai} 200000 230400 shanghai-IsFixed (omega arith) (omega arith)

abbrev half_past_six : SimpleTime
half_past_six = record { hour = 6; min = 30; sec = 0 }

abbrev six_forty : SimpleTime
six_forty = record { hour = 6; min = 40; sec = 0 }

seconds_to_nearest_time-lands_example :
    ((100800 + seconds_to_nearest_time shanghai 100800 100800 half_past_six + 28800) % 86400
      ≡ seconds_of half_past_six)
    × (seconds_to_nearest_time shanghai 100800 100800 half_past_six < 86400)
seconds_to_nearest_time-lands_example =
    seconds_to_nearest_time-lands {cal = shanghai} 100800 half_past_six shanghai-IsFixed
      (omega arith) (omega arith) (omega arith) (omega arith)
