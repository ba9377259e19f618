-- ===== src/Vatpit/Latch.antt =====
-- A count that is loaded, latched and read (src/vmm/io/vatpit.c).
use native.Mathlib.Nat.{mod-eq_of_lt}
use xhyve_manager.Base.Bits.{clear_bit}
use xhyve_manager.Base.{
  ℕ, ◌+◌, ◌-◌, ◌*◌, ◌/◌, ◌%◌, ◌^◌, ◌<◌, ◌≡◌, ◌≢◌, refl, ◌∙◌, Bool, true, false, arith,
  if◌then◌else◌, ◌==◌, List, [], ◌∷◌, length, get_or, set, length-set, get_or-set_self,
  get_or-set_ne,
}
use xhyve_manager.Vatpit.Device.{
  Channel, pit_timer_start_cntr0, with_default, counter, pit_update_counter, read_counter,
  write_counter,
}

-- A channel with nothing latched and both bytes of the next count to come.
pub record IsIdle (c : Channel) : Type 0 where
  pub cr_two : length c.cr ≡ 2
  pub no_byte : c.crbyte ≡ 0
  pub no_count : c.olbyte ≡ 0
  pub no_status : c.slatched ≡ false

-- What a load of a count leaves.
record IsLoaded (c : Channel) (t count : ℕ) : Type 0 where
  initial : c.initial ≡ count
  loaded_at : c.now_sbt ≡ t
  no_count : c.olbyte ≡ 0
  no_status : c.slatched ≡ false

write_low :
    (freq t n : ℕ) (c : Channel) (lo : ℕ)
    → IsIdle c
    → write_counter freq t n c lo ≡ record c { cr = set c.cr 0 lo; crbyte = 1 }
unfolding write_counter
write_low freq t n c lo idle = rw idle.no_byte refl

start-IsLoaded :
    (freq t count : ℕ) (c : Channel)
    → IsLoaded c t count
    → IsLoaded (pit_timer_start_cntr0 freq t c) t count
unfolding pit_timer_start_cntr0
start-IsLoaded freq t count c l = ground arith

either-IsLoaded :
    (b : Bool) (c d : Channel) (t count : ℕ)
    → IsLoaded c t count
    → IsLoaded d t count
    → IsLoaded (if b then c else d) t count
either-IsLoaded true c d t count l m = l
either-IsLoaded false c d t count l m = m

-- The count made of the two bytes.
two_bytes :
    (cr : List ℕ) (lo hi : ℕ)
    → length cr ≡ 2
    → let full = set (set cr 0 lo) 1 hi in get_or full 0 0 + get_or full 1 0 * 256 ≡ lo + hi * 256
two_bytes cr lo hi two =
    let first : get_or (set (set cr 0 lo) 1 hi) 0 0 ≡ lo =
      get_or-set_ne (set cr 0 lo) 1 0 hi 0 (omega arith)
      ∙ get_or-set_self cr 0 lo 0 (omega arith) in
    let second : get_or (set (set cr 0 lo) 1 hi) 1 0 ≡ hi =
      get_or-set_self (set cr 0 lo) 1 hi 0 (omega (arith, length-set cr 0 lo)) in
    rw (first, second) refl

write_high :
    (freq t n : ℕ) (c : Channel) (lo hi : ℕ)
    → IsIdle c
    → lo + hi * 256 ≢ 0
    → IsLoaded
        (write_counter freq t n (record c { cr = set c.cr 0 lo; crbyte = 1 }) hi)
        t
        (lo + hi * 256)
unfolding write_counter
write_high freq t n c lo hi idle some_count =
    let full = set (set c.cr 0 lo) 1 hi in
    let e : Channel = record c {
      cr = full;
      status = clear_bit 8 c.status 6;
      frbyte = 0;
      crbyte = 0;
      initial = get_or full 0 0 + get_or full 1 0 * 256;
      now_sbt = t;
    } in
    let bytes = two_bytes c.cr lo hi idle.cr_two in
    let le : IsLoaded e t (lo + hi * 256) = record {
      initial = bytes;
      loaded_at = refl;
      no_count = idle.no_count;
      no_status = idle.no_status;
    } in
    let g : Channel = record e { callout_sbt = t } in
    let lg : IsLoaded g t (lo + hi * 256) = record {
      initial = bytes;
      loaded_at = refl;
      no_count = idle.no_count;
      no_status = idle.no_status;
    } in
    let f = if n == 0 then pit_timer_start_cntr0 freq t g else e in
    let lf =
      either-IsLoaded (n == 0) (pit_timer_start_cntr0 freq t g) e t (lo + hi * 256)
        (start-IsLoaded freq t (lo + hi * 256) g lg) le in
    let loads : (f.initial == 0) ≡ false = ground (arith, lf.initial) in rw loads lf

-- Latching a loaded count.
latch_lem :
    (freq t later count : ℕ) (c : Channel)
    → count ≢ 0
    → count < 2 ^ 16
    → IsLoaded c t count
    → let d = (pit_update_counter freq later c true).1 in
      let value = count - (later - t) / freq % count in
      (d.ol ≡ value / 256 ∷ value % 256 ∷ []) × (d.olbyte ≡ 2) × (d.slatched ≡ false)
unfolding pit_update_counter with_default
latch_lem freq t later count c some_count fits l =
    let default : (c.initial == 0) ≡ false = ground (arith, l.initial) in
    let small : count - (later - t) / freq % count < 2 ^ 16 = omega arith in
    let value : counter freq later c ≡ count - (later - t) / freq % count =
      rw (l.initial, l.loaded_at) (mod-eq_of_lt small) in
    rw (l.no_count, default, value) (refl, refl, l.no_status)

read_two :
    (freq now : ℕ) (d : Channel)
    → d.slatched ≡ false
    → d.olbyte ≡ 2
    → read_counter freq now d ≡ (get_or d.ol 1 0, record d { olbyte = 1 })
unfolding read_counter
read_two freq now d no_status two = rw (no_status, two) refl

read_one :
    (freq now : ℕ) (d : Channel)
    → d.slatched ≡ false
    → read_counter freq now (record d { olbyte = 1 }) ≡ (get_or d.ol 0 0, record d { olbyte = 0 })
unfolding read_counter
read_one freq now d no_status = rw no_status refl

-- A count that is written low byte first, latched at a later time and read in two bytes, low byte
-- first, is the count less the ticks since it was written, going round at the count; the reads may
-- come at any time, and use the latch up. The count is not 0, and the channel was idle.
pub read_counter-latched :
    (freq before t later t2 t3 n : ℕ) (c : Channel) (lo hi : ℕ)
    → IsIdle c
    → lo < 256
    → hi < 256
    → lo + hi * 256 ≢ 0
    → let count = lo + hi * 256 in
      let loaded = write_counter freq t n (write_counter freq before n c lo) hi in
      let latched = (pit_update_counter freq later loaded true).1 in
      let (low, d) = read_counter freq t2 latched in
      let (high, e) = read_counter freq t3 d in
      (low + high * 256 ≡ count - (later - t) / freq % count) × (e.olbyte ≡ 0)
read_counter-latched freq before t later t2 t3 n c lo hi idle flo fhi some_count =
    let count = lo + hi * 256 in
    let first = write_low freq before n c lo idle in
    let loaded = write_counter freq t n (write_counter freq before n c lo) hi in
    let l : IsLoaded loaded t count = rw first (write_high freq t n c lo hi idle some_count) in
    let (ol, two, no_status) = latch_lem freq t later count loaded some_count (omega arith) l in
    let d = (pit_update_counter freq later loaded true).1 in
    let value = count - (later - t) / freq % count in
    rw (read_two freq t2 d no_status two, read_one freq t3 d no_status, ol) (omega arith, refl)
