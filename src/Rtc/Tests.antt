-- ===== src/Rtc/Tests.antt =====
-- src/drivers/time/rtc.c on readings of the clock.
use sector_os_re.Base.{true, ◌++◌, arith, some, [], refl, ◌∷◌, ◌≡◌, false}
use sector_os_re.Rtc.{same_time, rtc_read, RtcTime, hour_of}
use sector_os_re.Rtc.Laws.{
  keeps_changing, rtc_read-shown_time, read_hour, shown_time, shown, shown_hour,
}

-- Noon, at the end of 2022.
abbrev noon : RtcTime
noon = record { second = 59; minute = 30; hour = 12; day = 31; month = 12; year = 2022 }

-- A reading that the clock ticked in.
abbrev torn : RtcTime
torn = record (shown_time false false noon) { second = 0x58; minute = 0x29 }

-- The clock ticks in the second reading.
torn_differs : keeps_changing noon (torn ∷ []) ≡ true
unfolding keeps_changing shown_time shown same_time
torn_differs = refl

rtc_read-shown_time_example :
    rtc_read false false noon
      ((torn ∷ []) ++ shown_time false false noon ∷ shown_time false false noon ∷ [])
    ≡ some (record noon { hour = read_hour false 12 })
rtc_read-shown_time_example =
    rtc_read-shown_time false false noon noon (torn ∷ []) [] torn_differs (omega arith)
      (omega arith) (omega arith) (omega arith) (omega arith) (omega arith) (omega arith)

noon_is_midnight : hour_of false false (shown_hour false false 12) ≡ 0
unfolding hour_of shown_hour shown
noon_is_midnight = refl
