-- ===== src/Clock.antt =====
-- The clock of ntoskrnl/ke/clock.c. The CMOS registers behind the two ports are a function of the
-- register number; they are taken to stand still while the six of them are read.
mod Tests
use open_lib.Common.{ℕ, ◌+◌, ◌*◌, ◌/◌, ◌%◌, ◌^◌, ◌<◌, ◌≤◌, ◌≡◌, refl, arith}

-- KSYSTEM_TIME, whose fields hold what a UCHAR holds.
pub record SystemTime : Type 0 where
  pub seconds : ℕ
  pub minutes : ℕ
  pub hours : ℕ
  pub days : ℕ
  pub months : ℕ
  pub years : ℕ

abbrev pub rtc_seconds : ℕ
rtc_seconds = 0x00

abbrev pub rtc_minutes : ℕ
rtc_minutes = 0x02

abbrev pub rtc_hours : ℕ
rtc_hours = 0x04

abbrev pub rtc_days : ℕ
rtc_days = 0x07

abbrev pub rtc_months : ℕ
rtc_months = 0x08

abbrev pub rtc_years : ℕ
rtc_years = 0x09

-- The mask 15 keeps the low four bits.
unfoldable pub convert_bcd : ℕ → ℕ
convert_bcd value = (value / 2 ^ 4 * 10 + value % 16) % 256

unfoldable pub get_rtc_data : (ℕ → ℕ) → ℕ → ℕ
unfolding convert_bcd
get_rtc_data cmos i = convert_bcd (cmos i)

-- `KiUpdateClock` writes every field of KiGlobalTime.
unfoldable pub update_clock : (ℕ → ℕ) → SystemTime
update_clock cmos = record {
  seconds = get_rtc_data cmos rtc_seconds;
  minutes = get_rtc_data cmos rtc_minutes;
  hours = get_rtc_data cmos rtc_hours;
  days = get_rtc_data cmos rtc_days;
  months = get_rtc_data cmos rtc_months;
  years = get_rtc_data cmos rtc_years;
}

-- `KeQuerySystemTime`: KiGlobalTime after the call, and what `ClockTime` points at.
unfoldable pub query_system_time : (ℕ → ℕ) → SystemTime × SystemTime
query_system_time cmos = (update_clock cmos, update_clock cmos)

-- A two-digit number in binary-coded decimal.
abbrev pub bcd : ℕ → ℕ
bcd n = n / 10 * 16 + n % 10

pub record IsTwoDigits (t : SystemTime) : Type 0 where
  pub seconds : t.seconds < 100
  pub minutes : t.minutes < 100
  pub hours : t.hours < 100
  pub days : t.days < 100
  pub months : t.months < 100
  pub years : t.years < 100

-- The registers of a clock that shows `t` in binary-coded decimal.
pub record Shows (cmos : ℕ → ℕ) (t : SystemTime) : Type 0 where
  pub seconds : cmos rtc_seconds ≡ bcd t.seconds
  pub minutes : cmos rtc_minutes ≡ bcd t.minutes
  pub hours : cmos rtc_hours ≡ bcd t.hours
  pub days : cmos rtc_days ≡ bcd t.days
  pub months : cmos rtc_months ≡ bcd t.months
  pub years : cmos rtc_years ≡ bcd t.years

convert_bcd-bcd : (n : ℕ) → n < 100 → convert_bcd (bcd n) ≡ n
unfolding convert_bcd
convert_bcd-bcd n h = omega arith

get_rtc_data-bcd : (cmos : ℕ → ℕ) (i n : ℕ) → cmos i ≡ bcd n → n < 100 → get_rtc_data cmos i ≡ n
unfolding get_rtc_data
get_rtc_data-bcd cmos i n e h = rw e (convert_bcd-bcd n h)

-- The system time is the time that the registers show in binary-coded decimal.
pub query_system_time_lem :
    (cmos : ℕ → ℕ) (t : SystemTime) → IsTwoDigits t → Shows cmos t → query_system_time cmos ≡ (t, t)
unfolding query_system_time update_clock
query_system_time_lem cmos t two shows =
    rw
      (
        get_rtc_data-bcd cmos rtc_seconds t.seconds shows.seconds two.seconds,
        get_rtc_data-bcd cmos rtc_minutes t.minutes shows.minutes two.minutes,
        get_rtc_data-bcd cmos rtc_hours t.hours shows.hours two.hours,
        get_rtc_data-bcd cmos rtc_days t.days shows.days two.days,
        get_rtc_data-bcd cmos rtc_months t.months shows.months two.months,
        get_rtc_data-bcd cmos rtc_years t.years shows.years two.years,
      )
      refl
