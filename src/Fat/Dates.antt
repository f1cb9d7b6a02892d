-- ===== src/Fat/Dates.antt =====
-- Dates and times of directory entries, include/fat12.h.
use advanced_os.Base.{ℕ, ◌≡◌, ◌<◌, ◌≤◌, ◌*◌, ◌/◌, ◌+◌, ◌-◌, ◌%◌, ◌^◌, arith}
use advanced_os.Memory.{u32}

-- `fat_date_t` and `fat_time_t`.
pub record FatDate : Type 0 where
  pub year : ℕ
  pub month : ℕ
  pub day : ℕ

pub record FatTime : Type 0 where
  pub hour : ℕ
  pub minute : ℕ
  pub second : ℕ

-- `int_to_date` and `int_to_time`. No difference goes below 0.
unfoldable pub int_to_date : ℕ → FatDate
int_to_date date =
    let y = date / 512 in
    let m = (date - y * 512) / 32 in record { year = y; month = m; day = date - y * 512 - m * 32 }

unfoldable pub int_to_time : ℕ → FatTime
int_to_time t =
    let h = t / 2048 in
    let m = (t - h * 2048) / 32 in
    record { hour = h; minute = m; second = (t - h * 2048 - m * 32) * 2 }

-- `date_to_int` and `time_to_int`, with `int` results as bit patterns.
unfoldable pub date_to_int : (year month day : ℕ) → ℕ
date_to_int year month day = u32 (u32 (year + 2 ^ 32 - 1980) * 2 ^ 9 + month * 2 ^ 5 + day)

unfoldable pub time_to_int : (hour minute second : ℕ) → ℕ
time_to_int hour minute second = u32 (hour * 2 ^ 11 + minute * 2 ^ 5 + second / 2)

-- A date from 1980 to 2107 (month below 16, day below 32), stored in an entry's 16 bits, reads back
-- as the year from 1980 on, the month and the day.
pub int_to_date-date_to_int :
    (year month day : ℕ)
    → 1980 ≤ year
    → year < 2108
    → month < 16
    → day < 32
    → let d = int_to_date (date_to_int year month day % 2 ^ 16) in
      (d.year + 1980 ≡ year) × (d.month ≡ month) × (d.day ≡ day)
unfolding int_to_date date_to_int
int_to_date-date_to_int year month day a b c d = (omega arith, omega arith, omega arith)

-- A time (hour below 32, minute and second below 64), stored in an entry's 16 bits, reads back with
-- its seconds rounded down to an even number.
pub int_to_time-time_to_int :
    (hour minute second : ℕ)
    → hour < 32
    → minute < 64
    → second < 64
    → let t = int_to_time (time_to_int hour minute second % 2 ^ 16) in
      (t.hour ≡ hour) × (t.minute ≡ minute) × (t.second + second % 2 ≡ second)
unfolding int_to_time time_to_int
int_to_time-time_to_int hour minute second a b c = (omega arith, omega arith, omega arith)
