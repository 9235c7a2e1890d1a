-- ===== src/Rtc.antt =====
-- src/drivers/time/rtc.c: the time that is read from the clock. What the registers give, one reading
-- after the other, is an argument; the century register is not in use, as the source sets it to 0.
pub mod Laws
mod Tests
use sector_os_re.Base.{
  ◌%◌, not, [], bit_or, some, ◌∷◌, ◌>>=◌, ◌*◌, none, ltb, ◌&&◌, ◌/◌, Option, ◌+◌, List,
  if◌then◌else◌, ◌==◌, bit_and, Bool, ℕ,
}

pub record RtcTime : Type 0 where
  pub second : ℕ
  pub minute : ℕ
  pub hour : ℕ
  pub day : ℕ
  pub month : ℕ
  pub year : ℕ

unfoldable pub same_time : RtcTime → RtcTime → Bool
same_time s t =
    s.second == t.second
    && (s.minute == t.minute)
    && (s.hour == t.hour)
    && (s.day == t.day)
    && (s.month == t.month)
    && (s.year == t.year)

-- `do … while`: the readings go on until one is like the one before. `none`: they do not settle.
unfoldable pub settle : RtcTime → List RtcTime → Option RtcTime
settle last [] = none
settle last (now ∷ readings) =
    let rest = settle now readings in if same_time last now then some now else rest

unfoldable pub from_bcd : ℕ → ℕ
from_bcd n = bit_and n 0x0f + n / 16 * 10

-- The hour, in two steps: out of BCD, where the highest bit stays, and out of 12 hours.
unfoldable pub hour_of : Bool → Bool → ℕ → ℕ
hour_of binary hours_24 raw =
    let digits = bit_and raw 0x0f + bit_and raw 0x70 / 16 * 10 in
    let hour = if binary then raw else bit_or digits (bit_and raw 0x80) in
    if not hours_24 && not (bit_and hour 0x80 == 0) then (bit_and hour 0x7f + 12) % 24 else hour

-- The year from the two digits of the clock.
unfoldable pub year_of : ℕ → ℕ
year_of digits = let year = digits + 2000 in if ltb year 2021 then year + 100 else year

-- `binary` and `hours_24` are bits 0x04 and 0x02 of register B.
unfoldable pub rtc_decode : Bool → Bool → RtcTime → RtcTime
rtc_decode binary hours_24 t =
    let plain = λ (n : ℕ). if binary then n else from_bcd n in
    record {
      second = plain t.second;
      minute = plain t.minute;
      hour = hour_of binary hours_24 t.hour;
      day = plain t.day;
      month = plain t.month;
      year = year_of (plain t.year);
    }

unfoldable pub rtc_read : Bool → Bool → RtcTime → List RtcTime → Option RtcTime
rtc_read binary hours_24 first readings = do
  raw ← settle first readings
  some (rtc_decode binary hours_24 raw)
