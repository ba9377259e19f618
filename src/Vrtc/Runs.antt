-- ===== src/Vrtc/Runs.antt =====
-- Runs of the clock from `vrtc_init` on (src/vmm/io/vrtc.c).
use xhyve_manager.Base.{
  ℕ, ◌%◌, ◌^◌, ◌≡◌, refl, Bool, false, not, ◌&&◌, ◌||◌, Option, some, ◌==◌, ltb, leb, if◌then◌else◌,
  bit_and, ◌>>=◌, arith, Bool-cases, inl, inr, ok, fail, List, [], ◌∷◌,
}
use xhyve_manager.Base.Bits.{bit_not}
use xhyve_manager.Vrtc.Calendar.{Timespec}
use xhyve_manager.Vrtc.Registers.{
  Vrtc, reg_b, put_reg, rtc_halted, rtc_century, secs_to_rtc, rtc_to_secs,
}
use xhyve_manager.Vrtc.Device.{vrtc_curtime, vrtc_set_reg_b, vrtc_time_update, vrtc_callout_handler}
use xhyve_manager.Vrtc.Ports.{
  is_date, vrtc_addr_handler, vrtc_nvram_write, vrtc_nvram_read, vrtc_set_time, read_rtc, write_rtc,
  recompute, refresh, vrtc_data_handler, vrtc_reset, cleared, vrtc_init,
}
use xhyve_manager.Vrtc.Invariant.{
  IsVrtc, Ends, >>=-Ends, either-Ends, either-IsVrtc, same-IsVrtc, set_reg_c-IsVrtc,
  secs_to_rtc-IsVrtc, time_update-IsVrtc,
}
use xhyve_manager.Vrtc.Control.{After, set_reg_a-IsVrtc, set_reg_b-IsVrtc, callout_handler-IsVrtc}

-- A write of a register that is none of A, B and D.
pub put_reg-IsVrtc :
    (v : Vrtc) (i x : ℕ)
    → (i == 10) ≡ false
    → (i == 11) ≡ false
    → (i == 13) ≡ false
    → IsVrtc v
    → IsVrtc (put_reg v i x)
put_reg-IsVrtc v i x a b d h =
    same-IsVrtc v (put_reg v i x) refl refl (ground (arith, a)) (ground (arith, b))
      (ground (arith, d)) h

module _ (host : Timespec) (fuel now : ℕ) where
  write_rtc-IsVrtc : (v : Vrtc) (i x : ℕ) → IsVrtc v → After (write_rtc host fuel now v i x)
  unfolding write_rtc
  write_rtc-IsVrtc v i x h = elim (Bool-cases (i == 10)) [
    | inl a ↦ rw a (set_reg_a-IsVrtc now v (x % 2 ^ 8) h)
    | inr a ↦ rw a (elim (Bool-cases (i == 11)) [
      | inl b ↦ rw b (set_reg_b-IsVrtc host fuel now v (x % 2 ^ 8) h)
      | inr b ↦ rw b (elim (Bool-cases (i == 12 || i == 13)) [
        | inl d ↦ rw d h
        | inr d ↦ rw d (
            either-Ends (λ r. IsVrtc r.1) (i == 0) (some (ok, put_reg v 0 (x % 2 ^ 7)))
              (some (ok, put_reg v i (x % 2 ^ 8))) (put_reg-IsVrtc v 0 (x % 2 ^ 7) refl refl refl h)
              (put_reg-IsVrtc v i (x % 2 ^ 8) a b (ground (arith, d)) h))
      ])
    ])
  ]

  recompute-IsVrtc : (v : Vrtc) → IsVrtc v → After (recompute host fuel now v)
  unfolding recompute
  recompute-IsVrtc v h =
      >>=-Ends (λ r. IsVrtc r.1) (λ r. IsVrtc r.1)
        (vrtc_time_update host fuel v (rtc_to_secs v.rtcdev) now) _
        (time_update-IsVrtc host fuel v (rtc_to_secs v.rtcdev) now h) (λ r hr. hr)

  refresh-IsVrtc : (v : Vrtc) (i : ℕ) → IsVrtc v → Ends IsVrtc (refresh host fuel now v i)
  unfolding refresh
  refresh-IsVrtc v i h =
      let (curtime, basetime) = vrtc_curtime now v in
      >>=-Ends (λ r. IsVrtc r.1) IsVrtc (vrtc_time_update host fuel v curtime basetime) _
        (time_update-IsVrtc host fuel v curtime basetime h)
        (λ r hr.
          either-IsVrtc (is_date i) (secs_to_rtc host curtime r.1 false) r.1
            (secs_to_rtc-IsVrtc host curtime r.1 false hr) hr)

  read_rtc-IsVrtc : (v : Vrtc) (i : ℕ) → IsVrtc v → IsVrtc (read_rtc v i).1
  unfolding read_rtc
  read_rtc-IsVrtc v i h = ground (arith, h, set_reg_c-IsVrtc v 0 h)

  data_handler-IsVrtc :
      (v : Vrtc) (input : Bool) (bytes val : ℕ)
      → IsVrtc v
      → Ends (λ r. IsVrtc r.2) (vrtc_data_handler host fuel now v input bytes val)
  unfolding vrtc_data_handler
  data_handler-IsVrtc v input bytes val h =
      let i = v.addr in
      either-Ends (λ r. IsVrtc r.2) (not (bytes == 1) || leb 128 i) (some (fail, val, v)) _ h
        (>>=-Ends IsVrtc (λ r. IsVrtc r.2) (refresh host fuel now v i) _ (refresh-IsVrtc v i h)
          (λ w hw.
            either-Ends (λ r. IsVrtc r.2) input _ _ (read_rtc-IsVrtc w i hw)
              (>>=-Ends (λ r. IsVrtc r.1) (λ r. IsVrtc r.2) (write_rtc host fuel now w i val) _
                (write_rtc-IsVrtc w i val hw)
                (λ r hr.
                  >>=-Ends (λ r. IsVrtc r.1) (λ r. IsVrtc r.2)
                    (if i == rtc_century && not (rtc_halted r.1)
                      then recompute host fuel now r.1
                      else some r)
                    _
                    (either-Ends (λ r. IsVrtc r.1) (i == rtc_century && not (rtc_halted r.1)) _ _
                      (recompute-IsVrtc r.1 hr) hr)
                    (λ s hs. hs)))))

addr_handler-IsVrtc :
    (v : Vrtc) (input : Bool) (bytes val : ℕ)
    → IsVrtc v
    → IsVrtc (vrtc_addr_handler v input bytes val).2
unfolding vrtc_addr_handler
addr_handler-IsVrtc v input bytes val h =
    let w : Vrtc = record v { addr = val % 2 ^ 7 } in
    let hw : IsVrtc w = record {
      addr_lt = omega arith;
      not_updating = h.not_updating;
      powered = h.powered;
      halted_broken = h.halted_broken;
    } in
    ground (arith, h, hw)

nvram_write-IsVrtc : (v : Vrtc) (i x : ℕ) → IsVrtc v → IsVrtc (vrtc_nvram_write v i x).1
unfolding vrtc_nvram_write
nvram_write-IsVrtc v i x h = elim (Bool-cases (ltb i 14 || (i == rtc_century || leb 128 i))) [
  | inl refused ↦ rw refused h
  | inr allowed ↦ rw allowed (
      put_reg-IsVrtc v i x (ground (arith, allowed)) (ground (arith, allowed))
        (ground (arith, allowed)) h)
]

nvram_read-IsVrtc :
    (host : Timespec) (now : ℕ) (v : Vrtc) (i : ℕ)
    → IsVrtc v
    → IsVrtc (vrtc_nvram_read host now v i).2
unfolding vrtc_nvram_read
nvram_read-IsVrtc host now v i h =
    let w = secs_to_rtc host (vrtc_curtime now v).0 v false in
    let hw = secs_to_rtc-IsVrtc host (vrtc_curtime now v).0 v false h in ground (arith, h, hw)

reset-IsVrtc :
    (host : Timespec) (fuel now : ℕ) (v : Vrtc)
    → IsVrtc v
    → Ends IsVrtc (vrtc_reset host fuel now v)
unfolding vrtc_reset
reset-IsVrtc host fuel now v h =
    let newval = bit_and (reg_b v) (bit_not 8 0x78) in
    >>=-Ends (λ r. IsVrtc r.1) IsVrtc (vrtc_set_reg_b host fuel now v newval) _
      (set_reg_b-IsVrtc host fuel now v newval h) (λ r hr. set_reg_c-IsVrtc r.1 0 hr)

init-IsVrtc : (host : Timespec) (fuel now : ℕ) → Ends IsVrtc (vrtc_init host fuel now)
unfolding vrtc_init
init-IsVrtc host fuel now =
    let start : IsVrtc cleared = record {
      addr_lt = omega arith;
      not_updating = refl;
      powered = refl;
      halted_broken = refl;
    } in
    >>=-Ends (λ r. IsVrtc r.1) IsVrtc (vrtc_time_update host fuel cleared (some 0) now) _
      (time_update-IsVrtc host fuel cleared (some 0) now start)
      (λ r hr. secs_to_rtc-IsVrtc host (some 0) r.1 false hr)

-- What the rest of the virtual machine does to the clock: accesses of the two ports, with `bytes`
-- and `*val`, the callout when it fires, the calls of the battery-backed memory and of the time,
-- and a reset.
pub data Op : Type 0 where
  address : Bool → ℕ → ℕ → Op
  access : Bool → ℕ → ℕ → Op
  fire : Bool → Op
  store : ℕ → ℕ → Op
  load : ℕ → Op
  set_time : Option ℕ → Op
  reset : Op

-- One call, at the times `host` and `now`.
unfoldable pub step : Timespec → ℕ → ℕ → Vrtc → Op → Option Vrtc
unfolding vrtc_addr_handler vrtc_data_handler vrtc_callout_handler vrtc_nvram_write vrtc_nvram_read
    vrtc_set_time vrtc_reset
step host fuel now v (address input bytes val) = some (vrtc_addr_handler v input bytes val).2
step host fuel now v (access input bytes val) =
    vrtc_data_handler host fuel now v input bytes val >>= λ r. some r.2
step host fuel now v (fire pending) = vrtc_callout_handler host fuel now pending v
step host fuel now v (store i x) = some (vrtc_nvram_write v i x).1
step host fuel now v (load i) = some (vrtc_nvram_read host now v i).2
step host fuel now v (set_time t) = vrtc_set_time host fuel now v t >>= λ r. some r.1
step host fuel now v reset = vrtc_reset host fuel now v

step-IsVrtc :
    (host : Timespec) (fuel now : ℕ) (v : Vrtc) (op : Op)
    → IsVrtc v
    → Ends IsVrtc (step host fuel now v op)
unfolding step vrtc_set_time
step-IsVrtc host fuel now v (address input bytes val) h = addr_handler-IsVrtc v input bytes val h
step-IsVrtc host fuel now v (access input bytes val) h =
    >>=-Ends (λ r. IsVrtc r.2) IsVrtc (vrtc_data_handler host fuel now v input bytes val) _
      (data_handler-IsVrtc host fuel now v input bytes val h) (λ r hr. hr)
step-IsVrtc host fuel now v (fire pending) h = callout_handler-IsVrtc host fuel now pending v h
step-IsVrtc host fuel now v (store i x) h = nvram_write-IsVrtc v i x h
step-IsVrtc host fuel now v (load i) h = nvram_read-IsVrtc host now v i h
step-IsVrtc host fuel now v (set_time t) h =
    >>=-Ends (λ r. IsVrtc r.1) IsVrtc (vrtc_time_update host fuel v t now) _
      (time_update-IsVrtc host fuel v t now h) (λ r hr. hr)
step-IsVrtc host fuel now v reset h = reset-IsVrtc host fuel now v h

-- A run of calls, each at times of its own: none as soon as a call does not end.
unfoldable pub vrtc_steps : ℕ → Option Vrtc → List (Timespec × ℕ × Op) → Option Vrtc
unfolding step
vrtc_steps fuel m [] = m
vrtc_steps fuel m ((host, now, op) ∷ ops) = vrtc_steps fuel (m >>= λ v. step host fuel now v op) ops

steps-IsVrtc :
    (fuel : ℕ) (m : Option Vrtc) (ops : List (Timespec × ℕ × Op))
    → Ends IsVrtc m
    → Ends IsVrtc (vrtc_steps fuel m ops)
unfolding vrtc_steps
steps-IsVrtc fuel m [] h = h
steps-IsVrtc fuel m ((host, now, op) ∷ ops) h =
    steps-IsVrtc fuel (m >>= λ v. step host fuel now v op) ops (
      >>=-Ends IsVrtc IsVrtc m (λ v. step host fuel now v op) h
        (λ v hv. step-IsVrtc host fuel now v op hv))

-- After any sequence of accesses of the ports, callouts, calls and resets that come to an end, at
-- whatever times, the index register is inside the register file, the update flag of register A is
-- clear, register D says that the power is good, and while the guest halts updates the clock has no
-- valid time of its own.
pub vrtc_steps-IsVrtc :
    (host : Timespec) (fuel now : ℕ) (ops : List (Timespec × ℕ × Op))
    → Ends IsVrtc (vrtc_steps fuel (vrtc_init host fuel now) ops)
vrtc_steps-IsVrtc host fuel now ops =
    steps-IsVrtc fuel (vrtc_init host fuel now) ops (init-IsVrtc host fuel now)
