-- ===== src/Vrtc/Registers.antt =====
-- The registers of the clock and their formats (src/vmm/io/vrtc.c). A register is a byte of
-- `struct rtcdev`, at its offset there.
use xhyve_manager.Base.{
  ℕ, ◌+◌, ◌-◌, ◌*◌, ◌/◌, ◌%◌, ◌^◌, Bool, not, ◌&&◌, ◌||◌, Option, none, some, List, [], ◌∷◌, ◌==◌,
  ltb, leb, if◌then◌else◌, bit_and, get_or, ◌>>=◌, is_some,
}
use xhyve_manager.Base.Bits.{has_bit, set_bit, clear_bit}
use xhyve_manager.Vrtc.Calendar.{Clocktime, Timespec, clock_ct_to_ts, clock_ts_to_ct}

abbrev pub bin2bcd_data : List ℕ
bin2bcd_data =
    0x00 ∷ 0x01 ∷ 0x02 ∷ 0x03 ∷ 0x04 ∷ 0x05 ∷ 0x06 ∷ 0x07 ∷ 0x08 ∷ 0x09 ∷ 0x10 ∷ 0x11 ∷ 0x12 ∷ 0x13
    ∷ 0x14 ∷ 0x15 ∷ 0x16 ∷ 0x17 ∷ 0x18 ∷ 0x19 ∷ 0x20 ∷ 0x21 ∷ 0x22 ∷ 0x23 ∷ 0x24 ∷ 0x25 ∷ 0x26
    ∷ 0x27 ∷ 0x28 ∷ 0x29 ∷ 0x30 ∷ 0x31 ∷ 0x32 ∷ 0x33 ∷ 0x34 ∷ 0x35 ∷ 0x36 ∷ 0x37 ∷ 0x38 ∷ 0x39
    ∷ 0x40 ∷ 0x41 ∷ 0x42 ∷ 0x43 ∷ 0x44 ∷ 0x45 ∷ 0x46 ∷ 0x47 ∷ 0x48 ∷ 0x49 ∷ 0x50 ∷ 0x51 ∷ 0x52
    ∷ 0x53 ∷ 0x54 ∷ 0x55 ∷ 0x56 ∷ 0x57 ∷ 0x58 ∷ 0x59 ∷ 0x60 ∷ 0x61 ∷ 0x62 ∷ 0x63 ∷ 0x64 ∷ 0x65
    ∷ 0x66 ∷ 0x67 ∷ 0x68 ∷ 0x69 ∷ 0x70 ∷ 0x71 ∷ 0x72 ∷ 0x73 ∷ 0x74 ∷ 0x75 ∷ 0x76 ∷ 0x77 ∷ 0x78
    ∷ 0x79 ∷ 0x80 ∷ 0x81 ∷ 0x82 ∷ 0x83 ∷ 0x84 ∷ 0x85 ∷ 0x86 ∷ 0x87 ∷ 0x88 ∷ 0x89 ∷ 0x90 ∷ 0x91
    ∷ 0x92 ∷ 0x93 ∷ 0x94 ∷ 0x95 ∷ 0x96 ∷ 0x97 ∷ 0x98 ∷ 0x99 ∷ []

-- `struct rtcdev`, by offset.
abbrev pub Rtcdev : Type 0
Rtcdev = ℕ → ℕ

abbrev pub put : Rtcdev → ℕ → ℕ → Rtcdev
put rtc i v = λ j. if j == i then v else rtc j

-- The offset of the century, `RTC_CENTURY`.
abbrev pub rtc_century : ℕ
rtc_century = 0x32

-- `struct vrtc`: `base_rtctime` is none when it is `VRTC_BROKEN_TIME`. `timer` is the interval the
-- callout is set to, if it is active, and `pulses` counts the pulses of IRQ 8 of the 8259A pair and
-- of pin 8 of the I/O APIC.
pub record Vrtc : Type 0 where
  pub addr : ℕ
  pub base_uptime : ℕ
  pub base_rtctime : Option ℕ
  pub rtcdev : Rtcdev
  pub timer : Option ℕ
  pub pulses : ℕ

abbrev pub reg_a : Vrtc → ℕ
reg_a v = v.rtcdev 10

abbrev pub reg_b : Vrtc → ℕ
reg_b v = v.rtcdev 11

abbrev pub reg_c : Vrtc → ℕ
reg_c v = v.rtcdev 12

abbrev pub put_reg : Vrtc → ℕ → ℕ → Vrtc
put_reg v i x = record v { rtcdev = put v.rtcdev i x }

-- Bits of register B: `RTCSB_24HR`, `RTCSB_BIN`, `RTCSB_UINTR`, `RTCSB_AINTR`, `RTCSB_PINTR` and
-- `RTCSB_HALT`.
abbrev pub is_24hr : ℕ → Bool
is_24hr b = has_bit b 1

abbrev pub is_binary : ℕ → Bool
is_binary b = has_bit b 2

abbrev pub uintr_enabled : Vrtc → Bool
uintr_enabled v = has_bit (reg_b v) 4

abbrev pub aintr_enabled : Vrtc → Bool
aintr_enabled v = has_bit (reg_b v) 5

abbrev pub pintr_enabled : Vrtc → Bool
pintr_enabled v = has_bit (reg_b v) 6

abbrev pub rtc_halted : Vrtc → Bool
rtc_halted v = has_bit (reg_b v) 7

unfoldable pub divider_enabled : ℕ → Bool
divider_enabled a = bit_and a 0x70 == 0x20

unfoldable pub update_enabled : Vrtc → Bool
unfolding divider_enabled
update_enabled v = divider_enabled (reg_a v) && (not (rtc_halted v) && is_some v.base_rtctime)

-- `rtcset` and `rtcget` in the format that register B selects; none is -1.
unfoldable pub rtcset : ℕ → ℕ → ℕ
rtcset b val = (if is_binary b then val else get_or bin2bcd_data val 0) % 256

unfoldable pub rtcget : ℕ → ℕ → Option ℕ
rtcget b val =
    let lower = val % 16 in
    let upper = val / 16 % 16 in
    if is_binary b
    then some val
    else if ltb 9 lower || ltb 9 upper
    then none
    else some (upper * 10 + lower)

-- The hour as it is stored, in the 12-hour or the 24-hour format.
unfoldable pub hour_to_rtc : ℕ → ℕ → ℕ
unfolding rtcset
hour_to_rtc b hour =
    let twelve = if hour == 0 || hour == 12 then 12 else hour % 12 in
    let stored = rtcset b (if is_24hr b then hour else twelve) in
    if not (is_24hr b) && leb 12 hour then set_bit stored 7 else stored

-- The assignments of `secs_to_rtc`.
unfoldable pub ct_to_rtc : Rtcdev → Clocktime → Rtcdev
unfolding rtcset hour_to_rtc
ct_to_rtc rtc ct =
    let b = rtc 11 in
    let rtc1 = put (put rtc 0 (rtcset b ct.sec)) 2 (rtcset b ct.min) in
    let rtc2 = put (put rtc1 4 (hour_to_rtc b ct.hour)) 6 (rtcset b (ct.dow + 1)) in
    let rtc3 = put (put rtc2 7 (rtcset b ct.day)) 8 (rtcset b ct.mon) in
    put (put rtc3 9 (rtcset b (ct.year % 100))) rtc_century (rtcset b (ct.year / 100))

-- `secs_to_rtc`: `host` is what `clock_get_time` returns.
unfoldable pub secs_to_rtc : Timespec → Option ℕ → Vrtc → Bool → Vrtc
unfolding ct_to_rtc clock_ts_to_ct
secs_to_rtc host none v force_update = v
secs_to_rtc host (some rtctime) v force_update =
    if rtc_halted v && not force_update
    then v
    else record v { rtcdev = ct_to_rtc v.rtcdev (clock_ts_to_ct host) }

-- A field that `rtc_to_secs` reads, with its range check.
unfoldable pub rtc_field : ℕ → ℕ → ℕ → ℕ → Option ℕ
unfolding rtcget
rtc_field b val low high = do
  field ← rtcget b val
  if ltb field low || ltb high field then none else some field

-- The hour of the 24-hour format from what the register holds.
abbrev pub hour_from_12 : Bool → ℕ → Option ℕ
hour_from_12 pm hour =
    if leb 1 hour && leb hour 12
    then some ((if hour == 12 then 0 else hour) + (if pm then 12 else 0))
    else none

abbrev pub hour_from_24 : ℕ → Option ℕ
hour_from_24 hour = if ltb 23 hour then none else some hour

unfoldable pub hour_from_rtc : ℕ → ℕ → Option ℕ
unfolding rtcget
hour_from_rtc b stored =
    let pm = not (is_24hr b) && has_bit stored 7 in
    do
      hour ← rtcget b (if pm then clear_bit 8 stored 7 else stored)
      if is_24hr b then hour_from_24 hour else hour_from_12 pm hour

-- `rtc_to_secs`: none is `VRTC_BROKEN_TIME`. The day of the week is -1 there and not read.
unfoldable pub rtc_to_secs : Rtcdev → Option ℕ
unfolding rtc_field hour_from_rtc rtcget clock_ct_to_ts
rtc_to_secs rtc =
    let b = rtc 11 in
    do
      sec ← rtc_field b (rtc 0) 0 59
      min ← rtc_field b (rtc 2) 0 59
      hour ← hour_from_rtc b (rtc 4)
      day ← rtc_field b (rtc 7) 1 31
      mon ← rtc_field b (rtc 8) 1 12
      year ← rtc_field b (rtc 9) 0 99
      century ← rtcget b (rtc rtc_century)
      ts ←
          if ltb (century * 100 + year) 1900
          then none
          else clock_ct_to_ts (record {
            year = century * 100 + year;
            mon = mon;
            day = day;
            hour = hour;
            min = min;
            sec = sec;
            dow = 2 ^ 32 - 1;
            nsec = 0;
          })
      some ts.tv_sec
