-- ===== src/Prelude/Calendar.antt =====
-- The year of a `datetime`, which is the number of microseconds since 0001-01-01.
use dfir_investigation_workb.Prelude.Tests.{if◌then◌else◌, ◌==◌}
use Prim.Native.Nat.{ℕ, ◌+◌, ◌*◌, ◌/◌, ◌%◌}
use mathlib.Core.Bool.{◌||◌}

abbrev pub Datetime : Type 0
Datetime = ℕ

-- the year that a count of days since the year 1 falls in
unfoldable pub year_of_day : ℕ → ℕ
year_of_day day =
    let in_400 = day % 146097 in
    let in_100 = in_400 % 36524 in
    let in_4 = in_100 % 1461 in
    let n100 = in_400 / 36524 in
    let n1 = in_4 / 365 in
    let year = day / 146097 * 400 + n100 * 100 + in_100 / 1461 * 4 + n1 in
    if (n1 == 4) || (n100 == 4) then year else year + 1

-- `instant.year`
unfoldable pub year_of : Datetime → ℕ
unfolding year_of_day
year_of instant = year_of_day (instant / 86400000000)
