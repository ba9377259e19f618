-- ===== src/Vrtc/Ports.antt =====
-- The ports of the clock, its battery-backed memory and the calls of the virtual machine
-- (src/vmm/io/vrtc.c). An outcome of none is a call that is still running after `fuel` rounds of
-- its loop.
use xhyve_manager.Base.{
  ℕ, ◌%◌, ◌^◌, Bool, false, not, ◌&&◌, ◌||◌, Option, none, some, ◌==◌, ltb, leb, if◌then◌else◌,
  bit_and, ◌>>=◌, is_some, Status, ok, fail, einval,
}
use xhyve_manager.Base.Bits.{bit_not}
use xhyve_manager.Vrtc.Calendar.{Timespec}
use xhyve_manager.Vrtc.Registers.{
  Vrtc, reg_b, reg_c, put_reg, rtc_halted, rtc_century, secs_to_rtc, rtc_to_secs,
}
use xhyve_manager.Vrtc.Device.{
  vrtc_curtime, vrtc_set_reg_c, vrtc_set_reg_a, vrtc_set_reg_b, vrtc_time_update,
}

-- The offsets of the date and time.
abbrev pub is_date : ℕ → Bool
is_date offset = ltb offset 10 || offset == rtc_century

unfoldable pub vrtc_addr_handler : Vrtc → Bool → ℕ → ℕ → Status × ℕ × Vrtc
vrtc_addr_handler v input bytes val =
    if not (bytes == 1)
    then (fail, val, v)
    else if input
    then (ok, 0xff, v)
    else (ok, val, record v { addr = val % 2 ^ 7 })

-- `vrtc_nvram_write`; `sizeof(struct rtcdev)` is 128 and the offset of `nvram` 14. A negative
-- offset is a large one as the unsigned number it is compared as.
unfoldable pub vrtc_nvram_write : Vrtc → ℕ → ℕ → Status × Vrtc
vrtc_nvram_write v offset value =
    if ltb offset 14 || (offset == rtc_century || leb 128 offset)
    then (einval, v)
    else (ok, put_reg v offset value)

module _ (host : Timespec) (now : ℕ) where
  -- `vrtc_nvram_read`: the status, `*retval` where it is set, and the state.
  unfoldable pub vrtc_nvram_read : Vrtc → ℕ → Status × Option ℕ × Vrtc
  unfolding vrtc_curtime secs_to_rtc
  vrtc_nvram_read v offset =
      let w = if is_date offset then secs_to_rtc host (vrtc_curtime now v).0 v false else v in
      if leb 128 offset then (einval, none, v) else (ok, some (w.rtcdev offset), w)

  abbrev pub vrtc_get_time : Vrtc → Option ℕ
  vrtc_get_time v = (vrtc_curtime now v).0

-- A read of the register `addr`: the value and the state.
unfoldable pub read_rtc : Vrtc → ℕ → ℕ × Vrtc
unfolding vrtc_set_reg_c
read_rtc v offset = if offset == 12 then (reg_c v, vrtc_set_reg_c v 0) else (v.rtcdev offset, v)

-- Register A is 0x20, register B `RTCSB_24HR`, register D `RTCSD_PWR`.
abbrev pub cleared : Vrtc
cleared = record {
  addr = 13;
  base_uptime = 0;
  base_rtctime = none;
  rtcdev = λ j. if j == 10 then 0x20 else if j == 11 then 2 else if j == 13 then 0x80 else 0;
  timer = none;
  pulses = 0;
}

module _ (host : Timespec) (fuel now : ℕ) where
  unfoldable pub vrtc_set_time : Vrtc → Option ℕ → Option (Status × Vrtc)
  unfolding vrtc_time_update
  vrtc_set_time v secs = vrtc_time_update host fuel v secs now

  -- The `switch` of a write. The high bit of the seconds is read-only.
  unfoldable pub write_rtc : Vrtc → ℕ → ℕ → Option (Status × Vrtc)
  unfolding vrtc_set_reg_a vrtc_set_reg_b
  write_rtc v offset val =
      let value = val % 2 ^ 8 in
      if offset == 10
      then some (ok, vrtc_set_reg_a now v value)
      else if offset == 11
      then vrtc_set_reg_b host fuel now v value
      else if offset == 12 || offset == 13
      then some (ok, v)
      else if offset == 0
      then some (ok, put_reg v 0 (val % 2 ^ 7))
      else some (ok, put_reg v offset value)

  -- What a write of the century does to the time, after the write with its status.
  unfoldable pub recompute : Vrtc → Option (Status × Vrtc)
  unfolding vrtc_time_update rtc_to_secs
  recompute v =
      let curtime = rtc_to_secs v.rtcdev in
      vrtc_time_update host fuel v curtime now >>= λ r.
      some (if is_some curtime then r.0 else fail, r.1)

  -- The registers before the access: the time brought up to date, and the fields when they are
  -- what is accessed.
  unfoldable pub refresh : Vrtc → ℕ → Option Vrtc
  unfolding vrtc_curtime vrtc_time_update secs_to_rtc
  refresh v offset =
      let (curtime, basetime) = vrtc_curtime now v in
      vrtc_time_update host fuel v curtime basetime >>= λ r.
      some (if is_date offset then secs_to_rtc host curtime r.1 false else r.1)

  -- `vrtc_data_handler`: the status, `*val` and the state.
  unfoldable pub vrtc_data_handler : Vrtc → Bool → ℕ → ℕ → Option (Status × ℕ × Vrtc)
  unfolding refresh read_rtc write_rtc recompute
  vrtc_data_handler v input bytes val =
      let offset = v.addr in
      if not (bytes == 1) || leb 128 offset
      then some (fail, val, v)
      else refresh v offset >>= λ w.
          if input
          then (let (value, after) = read_rtc w offset in some (ok, value, after))
          else write_rtc w offset val >>= λ r.
              let written = if offset == 0 then val % 2 ^ 7 else val in
              (if offset == rtc_century && not (rtc_halted r.1) then recompute r.1 else some r)
              >>= λ s. some (s.0, written, s.1)

  -- `~(RTCSB_ALL_INTRS | RTCSB_SQWE)`; the status of `vrtc_set_reg_b` is dropped.
  unfoldable pub vrtc_reset : Vrtc → Option Vrtc
  unfolding vrtc_set_reg_b vrtc_set_reg_c
  vrtc_reset v = vrtc_set_reg_b host fuel now v (bit_and (reg_b v) (bit_not 8 0x78)) >>= λ r.
      some (vrtc_set_reg_c r.1 0)

  unfoldable pub vrtc_init : Option Vrtc
  unfolding vrtc_time_update secs_to_rtc
  vrtc_init = vrtc_time_update host fuel cleared (some 0) now >>= λ r.
      some (secs_to_rtc host (some 0) r.1 false)
