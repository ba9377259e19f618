-- ===== src/Vrtc/Halted.antt =====
-- The date and time registers while the guest halts updates (src/vmm/io/vrtc.c).
use xhyve_manager.Base.{
  ℕ, ◌%◌, ◌^◌, ◌≡◌, refl, ◌∙◌, Bool, true, false, not, ◌&&◌, ◌||◌, none, some, ◌==◌, leb,
  if◌then◌else◌, arith, Bool-cases, Option-cases, inl, inr, ok,
}
use xhyve_manager.Vrtc.Calendar.{Timespec}
use xhyve_manager.Vrtc.Registers.{
  Vrtc, Rtcdev, put, put_reg, rtc_halted, rtc_century, secs_to_rtc, update_enabled,
}
use xhyve_manager.Vrtc.Device.{vrtc_curtime, vrtc_time_update}
use xhyve_manager.Vrtc.Ports.{is_date, read_rtc, write_rtc, refresh, vrtc_data_handler}
use xhyve_manager.Vrtc.Invariant.{IsVrtc}
use xhyve_manager.Vrtc.Runs.{put_reg-IsVrtc}

if_same {ℓ} : {A : Type ℓ} (b : Bool) (x : A) → (if b then x else x) ≡ x
if_same true x = refl
if_same false x = refl

pub halted_none : (v : Vrtc) → IsVrtc v → rtc_halted v ≡ true → v.base_rtctime ≡ none
halted_none v h halted = elim (Option-cases v.base_rtctime) [
  | inl none_ ↦ none_
  | inr there ↦ absurd (ground (arith, h.halted_broken, halted, there.1))
]

curtime_halted :
    (now : ℕ) (v : Vrtc)
    → rtc_halted v ≡ true
    → vrtc_curtime now v ≡ (v.base_rtctime, v.base_uptime)
unfolding vrtc_curtime update_enabled
curtime_halted now v halted = ground (arith, halted)

-- While updates are halted, bringing the clock up to date changes nothing.
refresh_halted :
    (host : Timespec) (fuel now : ℕ) (v : Vrtc) (i : ℕ)
    → IsVrtc v
    → rtc_halted v ≡ true
    → refresh host fuel now v i ≡ some v
unfolding refresh vrtc_time_update secs_to_rtc
refresh_halted host fuel now v i h halted =
    let broken = halted_none v h halted in
    rw (curtime_halted now v halted, broken, if_same (is_date i)) refl

-- The byte that a write of a date register stores.
abbrev stored_byte : ℕ → ℕ → ℕ
stored_byte i val = if i == 0 then val % 2 ^ 7 else val % 2 ^ 8

date_write :
    (host : Timespec) (fuel now : ℕ) (v : Vrtc) (i val : ℕ)
    → is_date i ≡ true
    → write_rtc host fuel now v i val ≡ some (ok, put_reg v i (stored_byte i val))
unfolding write_rtc
date_write host fuel now v i val date =
    let a : (i == 10) ≡ false = ground (arith, date) in
    let b : (i == 11) ≡ false = ground (arith, date) in
    let d : (i == 12 || i == 13) ≡ false = ground (arith, date) in
    elim (Bool-cases (i == 0)) [
      | inl e ↦ (let z : i ≡ 0 = ground (arith, e) in rw z refl)
      | inr e ↦ rw (a, b, d, e) refl
    ]

date_halted : (v : Vrtc) (i x : ℕ) → is_date i ≡ true → rtc_halted (put_reg v i x) ≡ rtc_halted v
date_halted v i x date = let b : (11 == i) ≡ false = ground (arith, date) in rw b refl

date_IsVrtc : (v : Vrtc) (i x : ℕ) → is_date i ≡ true → IsVrtc v → IsVrtc (put_reg v i x)
date_IsVrtc v i x date h =
    put_reg-IsVrtc v i x (ground (arith, date)) (ground (arith, date)) (ground (arith, date)) h

write_halted :
    (host : Timespec) (fuel now : ℕ) (v : Vrtc) (val : ℕ)
    → IsVrtc v
    → rtc_halted v ≡ true
    → is_date v.addr ≡ true
    → vrtc_data_handler host fuel now v false 1 val
      ≡ some
          (ok, if v.addr == 0 then val % 2 ^ 7 else val, put_reg v v.addr (stored_byte v.addr val))
unfolding vrtc_data_handler
write_halted host fuel now v val h halted date =
    let i : ℕ = v.addr in
    let byte : ℕ = stored_byte i val in
    let inside : leb 128 i ≡ false = ground (arith, date) in
    let halted' : rtc_halted (put_reg v i byte) ≡ true = date_halted v i byte date ∙ halted in
    let kept : (i == rtc_century && not (rtc_halted (put_reg v i byte))) ≡ false =
      ground (arith, halted') in
    rw
      (
        inside,
        refresh_halted host fuel now v i h halted,
        date_write host fuel now v i val date,
        kept,
      )
      refl

read_halted :
    (host : Timespec) (fuel now : ℕ) (v : Vrtc) (x : ℕ)
    → IsVrtc v
    → rtc_halted v ≡ true
    → is_date v.addr ≡ true
    → vrtc_data_handler host fuel now v true 1 x ≡ some (ok, v.rtcdev v.addr, v)
unfolding vrtc_data_handler read_rtc
read_halted host fuel now v x h halted date =
    let i : ℕ = v.addr in
    let inside : leb 128 i ≡ false = ground (arith, date) in
    let other : (i == 12) ≡ false = ground (arith, date) in
    rw (inside, refresh_halted host fuel now v i h halted, other) refl

put_here : (rtc : Rtcdev) (i x : ℕ) → put rtc i x i ≡ x
put_here rtc i x = ground arith

-- What the guest writes to a date or time register while updates are halted it reads back, at any
-- later time, less the high bit of the seconds; the write changes nothing else.
pub read-write_halted :
    (host host' : Timespec) (fuel fuel' now now' : ℕ) (v : Vrtc) (val x : ℕ)
    → IsVrtc v
    → rtc_halted v ≡ true
    → is_date v.addr ≡ true
    → let byte = if v.addr == 0 then val % 2 ^ 7 else val % 2 ^ 8 in
      let w = put_reg v v.addr byte in
      (vrtc_data_handler host fuel now v false 1 val
        ≡ some (ok, if v.addr == 0 then val % 2 ^ 7 else val, w))
      × (vrtc_data_handler host' fuel' now' w true 1 x ≡ some (ok, byte, w))
read-write_halted host host' fuel fuel' now now' v val x h halted date =
    let i : ℕ = v.addr in
    let byte : ℕ = stored_byte i val in
    let w : Vrtc = put_reg v i byte in
    let halted' : rtc_halted w ≡ true = date_halted v i byte date ∙ halted in
    (
      write_halted host fuel now v val h halted date,
      read_halted host' fuel' now' w x (date_IsVrtc v i byte date h) halted' date
          ∙ rw (put_here v.rtcdev i byte) refl,
    )
