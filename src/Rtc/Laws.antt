-- ===== src/Rtc/Laws.antt =====
-- What rtc_read of src/drivers/time/rtc.c makes of a clock that shows a time.
use sector_os_re.Base.{
  [], ◌++◌, inr, inl, Bool-cases, some, ◌∷◌, List, ◌-◌, leb, ◌&&◌, ◌+◌, ◌*◌, zero, refl, arith, not,
  false, ◌≤◌, ◌/◌, ◌==◌, suc, ◌%◌, if◌then◌else◌, ◌≡◌, ◌<◌, true, Bool, ℕ,
}
use sector_os_re.Rtc.{rtc_decode, rtc_read, settle, same_time, from_bcd, RtcTime, hour_of, year_of}

-- A test that all numbers under `top` pass.
every : (ℕ → Bool) → ℕ → Bool
every passes zero = true
every passes (suc top) = let lower = every passes top in if passes top then lower else false

every-at : (passes : ℕ → Bool) (top m : ℕ) → every passes top ≡ true → m < top → passes m ≡ true
unfolding every
every-at passes zero m table under = absurd (omega arith)
every-at passes (suc top) m table under =
    let highest : passes top ≡ true = ground (arith, table) in
    elim (Bool-cases (m == top)) [
      | inl here ↦ let e : m ≡ top = ground arith in rw e highest
      | inr lower ↦ every-at passes top m (rw highest at table) (ground arith)
    ]

-- How the registers show a number, and an hour: in BCD or binary, and of 24 hours or of 12 with the
-- highest bit from noon on.
unfoldable pub shown : Bool → ℕ → ℕ
shown binary n = if binary then n else n / 10 * 16 + n % 10

unfoldable pub shown_hour : Bool → Bool → ℕ → ℕ
shown_hour binary hours_24 hour =
    let half = if hour % 12 == 0 then 12 else hour % 12 in
    if hours_24 then shown binary hour else shown binary half + (if leb 12 hour then 128 else 0)

unfoldable pub shown_time : Bool → Bool → RtcTime → RtcTime
shown_time binary hours_24 t = record {
  second = shown binary t.second;
  minute = shown binary t.minute;
  hour = shown_hour binary hours_24 t.hour;
  day = shown binary t.day;
  month = shown binary t.month;
  year = shown binary (t.year % 100);
}

-- The hour that is read: with a clock of 12 hours, midnight and noon change places.
abbrev pub read_hour : Bool → ℕ → ℕ
read_hour hours_24 hour = if not hours_24 && (hour % 12 == 0) then 12 - hour else hour

bcd_table : every (λ n. from_bcd (n / 10 * 16 + n % 10) == n) 100 ≡ true
unfolding every from_bcd
bcd_table = refl

from_bcd-shown : (n : ℕ) → n < 100 → from_bcd (n / 10 * 16 + n % 10) ≡ n
from_bcd-shown n lt =
    let row = every-at (λ k. from_bcd (k / 10 * 16 + k % 10) == k) 100 n bcd_table lt in
    ground (arith, row)

hour_table :
    (binary hours_24 : Bool)
    → every (λ h. hour_of binary hours_24 (shown_hour binary hours_24 h) == read_hour hours_24 h) 24
      ≡ true
unfolding every hour_of shown_hour shown
hour_table true true = refl
hour_table true false = refl
hour_table false true = refl
hour_table false false = refl

hour_of-shown_hour :
    (binary hours_24 : Bool) (h : ℕ)
    → h < 24
    → hour_of binary hours_24 (shown_hour binary hours_24 h) ≡ read_hour hours_24 h
hour_of-shown_hour binary hours_24 h lt =
    let row =
      every-at (λ h. hour_of binary hours_24 (shown_hour binary hours_24 h) == read_hour hours_24 h)
        24 h (hour_table binary hours_24) lt in
    ground (arith, row)

plain-shown :
    (binary : Bool) (n : ℕ)
    → n < 100
    → (if binary then shown binary n else from_bcd (shown binary n)) ≡ n
unfolding shown
plain-shown true n lt = refl
plain-shown false n lt = from_bcd-shown n lt

year_of-digits : (year : ℕ) → 2021 ≤ year → year < 2121 → year_of (year % 100) ≡ year
unfolding year_of
year_of-digits year lo hi = ground arith

same_time_refl : (t : RtcTime) → same_time t t ≡ true
unfolding same_time
same_time_refl t = ground arith

-- Whether each of the readings behind a first one differs from the one before it.
unfoldable pub keeps_changing : RtcTime → List RtcTime → Bool
keeps_changing first [] = true
keeps_changing first (now ∷ readings) =
    let rest = keeps_changing now readings in not (same_time first now) && rest

-- Readings that are passed over, and then two that are alike.
settle-twice :
    (first now : RtcTime) (passed readings : List RtcTime)
    → keeps_changing first passed ≡ true
    → settle first (passed ++ now ∷ now ∷ readings) ≡ some now
unfolding settle keeps_changing
settle-twice first now [] readings change = elim (Bool-cases (same_time first now)) [
  | inl same ↦ rw same refl
  | inr ticked ↦ rw (ticked, same_time_refl now) refl
]
settle-twice first now (next ∷ passed) readings change =
    let differ : same_time first next ≡ false = ground arith in
    let later : keeps_changing next passed ≡ true = ground arith in
    rw differ (settle-twice next now passed readings later)

-- As long as each reading of the clock differs from the one before, it is read again. If then two
-- readings in a row show the same time of the years 2021 to 2120, in any of the four formats of the
-- clock, that time is the result; but with hours up to 12, noon is read as midnight and midnight as
-- noon.
pub rtc_read-shown_time :
    (binary hours_24 : Bool) (first t : RtcTime) (passed readings : List RtcTime)
    → keeps_changing first passed ≡ true
    → t.second < 60
    → t.minute < 60
    → t.hour < 24
    → t.day < 32
    → t.month < 13
    → 2021 ≤ t.year
    → t.year < 2121
    → let shows = shown_time binary hours_24 t in
      rtc_read binary hours_24 first (passed ++ shows ∷ shows ∷ readings)
      ≡ some (record t { hour = read_hour hours_24 t.hour })
unfolding rtc_read rtc_decode shown_time
rtc_read-shown_time binary hours_24 first t passed readings change second minute hour day month from
      to =
    let two_digits : t.year % 100 < 100 = omega arith in
    rw
      (
        settle-twice first (shown_time binary hours_24 t) passed readings change,
        plain-shown binary t.second (omega arith),
        plain-shown binary t.minute (omega arith),
        hour_of-shown_hour binary hours_24 t.hour hour,
        plain-shown binary t.day (omega arith),
        plain-shown binary t.month (omega arith),
        plain-shown binary (t.year % 100) two_digits,
        year_of-digits t.year from to,
      )
      refl
