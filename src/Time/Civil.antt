-- ===== src/Time/Civil.antt =====
-- The date and the time of day of an instant, in UTC, and its text in the layout of
-- `time.RFC3339Nano`. A year is counted from the first of March of the year 0, which is 306 days
-- before the zero time, so that the leap day stands last.
use canterbury.Base.{
  ℕ, zero, suc, ◌+◌, ◌-◌, ◌*◌, ◌/◌, ◌%◌, [], ◌∷◌, ◌++◌, Bytes, length, ltb, leb, ◌==◌,
  if◌then◌else◌,
}
use canterbury.Strings.Decimal.{itoa}
use canterbury.Time.{Time, second}

pub record Date : Type 0 where
  pub year : ℕ
  pub month : ℕ
  pub day : ℕ

abbrev pub day_length : ℕ
day_length = 86_400 * second

unfoldable pub date_of_days : ℕ → Date
date_of_days days =
    let z = days + 306 in
    let era = z / 146_097 in
    let doe = z % 146_097 in
    let yoe = (doe - doe / 1_460 + doe / 36_524 - doe / 146_096) / 365 in
    let doy = doe - (365 * yoe + yoe / 4 - yoe / 100) in
    let mp = (5 * doy + 2) / 153 in
    let month = if ltb mp 10 then mp + 3 else mp - 9 in
    record {
      year = yoe + era * 400 + (if leb month 2 then 1 else 0);
      month = month;
      day = doy - (153 * mp + 2) / 5 + 1;
    }

-- `t.Year()`, `t.Month()` and `t.Day()`
unfoldable pub date_of : Time → Date
unfolding date_of_days
date_of t = date_of_days (t / day_length)

zeros : ℕ → Bytes
zeros zero = []
zeros (suc n) = b'0' ∷ zeros n

-- `%04d` and `%02d`
unfoldable pub pad : ℕ → ℕ → Bytes
unfolding zeros
pad width n = let text = itoa n in zeros (width - length text) ++ text

-- The digits of a fraction without the zeros at its end.
unfoldable pub without_zeros : Bytes → Bytes
without_zeros [] = []
without_zeros (c ∷ s) =
    let rest = without_zeros s in
    elim rest [ [] ↦ if c == b'0' then [] else c ∷ [] | d ∷ ds ↦ c ∷ d ∷ ds ]

unfoldable pub fraction : ℕ → Bytes
unfolding without_zeros
fraction nanos = if nanos == 0 then [] else b'.' ∷ without_zeros (pad 9 nanos)

unfoldable pub rfc3339_nano : Time → Bytes
rfc3339_nano t =
    let date = date_of t in
    let clock = t % day_length in
    let seconds = clock / second in
    pad 4 date.year
    ++ (b'-' ∷ pad 2 date.month)
    ++ (b'-' ∷ pad 2 date.day)
    ++ (b'T' ∷ pad 2 (seconds / 3_600))
    ++ (b':' ∷ pad 2 (seconds / 60 % 60))
    ++ (b':' ∷ pad 2 (seconds % 60))
    ++ fraction (clock % second)
    ++ b'Z' ∷ []
