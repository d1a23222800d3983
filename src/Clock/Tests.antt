-- ===== src/Clock/Tests.antt =====
-- A reading of ntoskrnl/ke/clock.c.
use open_lib.Common.{ℕ, ◌≡◌, refl, arith, ◌==◌, if◌then◌else◌}
use open_lib.Clock.{SystemTime, query_system_time, query_system_time_lem}

abbrev evening : SystemTime
evening = record { seconds = 59; minutes = 7; hours = 23; days = 31; months = 12; years = 21 }

abbrev registers : ℕ → ℕ
registers i =
    if i == 0
    then 0x59
    else if i == 2
    then 0x07
    else if i == 4
    then 0x23
    else if i == 7
    then 0x31
    else if i == 8
    then 0x12
    else 0x21

query_system_time_lem_example : query_system_time registers ≡ (evening, evening)
query_system_time_lem_example =
    query_system_time_lem registers evening
      (record {
        seconds = omega arith;
        minutes = omega arith;
        hours = omega arith;
        days = omega arith;
        months = omega arith;
        years = omega arith;
      })
      (record {
        seconds = refl;
        minutes = refl;
        hours = refl;
        days = refl;
        months = refl;
        years = refl;
      })
