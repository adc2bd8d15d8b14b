-- ===== src/Devices/Clock.antt =====
-- The clock of src/drivers/rtc.c, whose registers are an argument, and the ticks of
-- src/drivers/timer.c. The ports' programming and the drawing of the mouse are left out.
use quantum_kernel.Prelude.{
  ltb, leb, if◌then◌else◌, u8, ℕ, ◌+◌, ◌-◌, ◌*◌, ◌/◌, ◌%◌, ◌≤◌, ◌<◌, min, ◌≡◌, ap, ◌∙◌, ◌&&◌, ◌||◌,
  arith, ◌==◌,
}

-- `rtc_time_t`
pub record RtcTime : Type 0 where
  pub sec : ℕ
  pub min : ℕ
  pub hour : ℕ
  pub day : ℕ
  pub month : ℕ
  pub year : ℕ

-- The result is a `uint8_t`.
unfoldable pub bcd_to_dec : ℕ → ℕ
bcd_to_dec val = u8 (val / 16 * 10 + val % 16)

unfoldable pub get_timezone_offset : ℕ → ℕ → ℕ
get_timezone_offset month day =
    if ltb 3 month && ltb month 10
    then 3
    else if (month == 3) && leb 25 day
    then 3
    else if (month == 10) && leb day 31
    then 3
    else 2

-- `regs r` is the byte that register `r` gives.
unfoldable pub rtc_read : (ℕ → ℕ) → RtcTime
rtc_read regs = record {
  sec = bcd_to_dec (regs 0);
  min = bcd_to_dec (regs 2);
  hour = bcd_to_dec (regs 4);
  day = bcd_to_dec (regs 7);
  month = bcd_to_dec (regs 8);
  year = bcd_to_dec (regs 9) + 2000;
}

unfoldable pub rtc_get_local_time : (ℕ → ℕ) → RtcTime
rtc_get_local_time regs =
    let t = rtc_read regs in record t { hour = (t.hour + get_timezone_offset t.month t.day) % 24 }

-- The byte of a number below 100 in binary-coded decimal.
abbrev pub bcd : ℕ → ℕ
bcd n = n / 10 * 16 + n % 10

-- `bcd_to_dec` undoes the clock's encoding.
bcd_to_dec-bcd : (n : ℕ) → n < 100 → bcd_to_dec (bcd n) ≡ n
unfolding bcd_to_dec
bcd_to_dec-bcd n h = omega arith

-- The clock's registers at a time.
pub record IsAt (regs : ℕ → ℕ) (t : RtcTime) : Type 0 where
  pub sec : (regs 0 ≡ bcd t.sec) × (t.sec < 60)
  pub min : (regs 2 ≡ bcd t.min) × (t.min < 60)
  pub hour : (regs 4 ≡ bcd t.hour) × (t.hour < 24)
  pub day : (regs 7 ≡ bcd t.day) × (1 ≤ t.day) × (t.day ≤ 31)
  pub month : (regs 8 ≡ bcd t.month) × (1 ≤ t.month) × (t.month ≤ 12)
  pub year : (regs 9 ≡ bcd (t.year - 2000)) × (2000 ≤ t.year) × (t.year < 2100)

field : (reg n : ℕ) → reg ≡ bcd n → n < 100 → bcd_to_dec reg ≡ n
field reg n e h = ap bcd_to_dec e ∙ bcd_to_dec-bcd n h

year_field : (reg n : ℕ) → reg ≡ bcd (n - 2000) → 2000 ≤ n → n < 2100 → bcd_to_dec reg + 2000 ≡ n
year_field reg n e h k = let f = field reg (n - 2000) e (omega arith) in omega (arith, f)

-- The offset of the months in summer time, October whole and March from the 25th on.
offset_lem :
    (month day : ℕ)
    → day ≤ 31
    → get_timezone_offset month day
      ≡ (if (ltb 3 month && ltb month 11) || ((month == 3) && leb 25 day) then 3 else 2)
unfolding get_timezone_offset
offset_lem month day h = ground arith

abbrev time : ℕ → ℕ → ℕ → ℕ → ℕ → ℕ → RtcTime
time sec min hour day month year = record {
  sec = sec;
  min = min;
  hour = hour;
  day = day;
  month = month;
  year = year;
}

-- The clock's registers hold the time that is read.
rtc_read_lem : (regs : ℕ → ℕ) (t : RtcTime) → IsAt regs t → rtc_read regs ≡ t
unfolding rtc_read
rtc_read_lem regs t at =
    let sec = field (regs 0) t.sec at.sec.0 (omega (arith, at.sec)) in
    let min = field (regs 2) t.min at.min.0 (omega (arith, at.min)) in
    let hour = field (regs 4) t.hour at.hour.0 (omega (arith, at.hour)) in
    let day = field (regs 7) t.day at.day.0 (omega (arith, at.day)) in
    let month = field (regs 8) t.month at.month.0 (omega (arith, at.month)) in
    let year = year_field (regs 9) t.year at.year.0 at.year.1 at.year.2 in cc

-- With the registers of a time of this century: the local time is that time with the hour moved by
-- three hours from the 25th of March to the end of October and by two in the rest of the year, round
-- the clock; the date stays that of the registers, also past midnight.
pub rtc_get_local_time_lem :
    (regs : ℕ → ℕ) (t : RtcTime)
    → IsAt regs t
    → rtc_get_local_time regs ≡ record t {
      hour =
          (t.hour
            + (if (ltb 3 t.month && ltb t.month 11) || ((t.month == 3) && leb 25 t.day)
                then 3
                else 2))
          % 24;
    }
unfolding rtc_get_local_time
rtc_get_local_time_lem regs t at =
    ap {A = RtcTime} {B = RtcTime}
      (λ r. record r { hour = (r.hour + get_timezone_offset r.month r.day) % 24 })
      (rtc_read_lem regs t at)
    ∙ ap {A = ℕ} {B = RtcTime} (λ o. record t { hour = (t.hour + o) % 24 })
        (offset_lem t.month t.day at.day.2)
