-- ===== src/Uart/Backend.antt =====
-- The resources of the two legacy ports and the choice of the terminal (`uart_legacy_alloc`,
-- `uart_set_backend` of src/uart_emul.c). What the host answers is a parameter.
use xhyve_manager.Base.{
  ℕ, Bool, true, false, not, ◌&&◌, Option, none, some, List, [], ◌∷◌, if◌then◌else◌, ltb, ◌==◌,
  length, get_or, set,
}
use xhyve_manager.Base.Int.{ℤ, pos, negsuc}
use xhyve_manager.Uart.Device.{Uart}

-- An element of `uart_lres`.
pub record Resource : Type 0 where
  pub baseaddr : ℕ
  pub irqline : ℕ
  pub inuse : Bool

abbrev pub uart_lres : List Resource
uart_lres =
    record { baseaddr = 0x3f8; irqline = 4; inuse = false }
    ∷ record { baseaddr = 0x2f8; irqline = 3; inuse = false }
    ∷ []

abbrev pub no_resource : Resource
no_resource = record { baseaddr = 0; irqline = 0; inuse = true }

-- The result is the base address and the interrupt, `none` for -1.
unfoldable pub uart_legacy_alloc : List Resource → ℤ → Option (ℕ × ℕ) × List Resource
uart_legacy_alloc lres (negsuc n) = (none, lres)
uart_legacy_alloc lres (pos which) =
    let r = get_or lres which no_resource in
    if ltb which (length lres) && not r.inuse
    then (some (r.baseaddr, r.irqline), set lres which (record r { inuse = true }))
    else (none, lres)

-- What `backend` names.
pub data Backend : Type 0 where
  stdio : Backend
  autopty : Backend
  tty : Backend

-- What the host answers to `fcntl`, to `open` of `/dev/ptmx` (whether it is not -1), to `ptsname`
-- (whether it is not NULL), `grantpt` and `unlockpt`, and to `open` of the terminal (whether it is
-- positive) and `isatty`.
pub record Answers : Type 0 where
  pub fcntl : ℤ
  pub ptmx : Bool
  pub ptsname : Bool
  pub grantpt : ℤ
  pub unlockpt : ℤ
  pub tty_open : Bool
  pub isatty : Bool

abbrev pub minus_one : ℤ
minus_one = negsuc 0

abbrev is_minus_one : ℤ → Bool
is_minus_one (pos n) = false
is_minus_one (negsuc n) = n == 0

abbrev pub is_success : ℤ → Bool
is_success (pos n) = n == 0
is_success (negsuc n) = false

-- `sc->tty.opened = true`.
abbrev pub with_tty : Uart → Uart
with_tty s = record s { port = record s.port { opened = true } }

-- `uart_opentty`: `mevent_add` gives an event that is enabled.
unfoldable pub uart_opentty : Uart → Uart
uart_opentty s = record s { port = record s.port { listening = true } }

-- The branch for a pseudo terminal: the result, and whether `tty.opened` is set.
unfoldable pub open_autopty : Answers → ℤ × Bool
open_autopty a =
    if not a.ptmx
    then (minus_one, false)
    else if not a.ptsname
    then (minus_one, false)
    else if is_minus_one a.grantpt
    then (a.grantpt, false)
    else if is_minus_one a.unlockpt
    then (a.unlockpt, false)
    else (pos 0, true)

unfoldable pub uart_tty_backend : Answers → ℤ × Bool
uart_tty_backend a = if a.tty_open && a.isatty then (pos 0, true) else (minus_one, false)

-- The three branches: the result, whether `tty.opened` is set, and `uart_stdio`. A second "stdio" is
-- taken for the name of a terminal.
unfoldable pub choose_tty : Answers → Bool → Backend → (ℤ × Bool) × Bool
unfolding open_autopty uart_tty_backend
choose_tty a uart_stdio stdio =
    if not uart_stdio then ((a.fcntl, true), true) else (uart_tty_backend a, uart_stdio)
choose_tty a uart_stdio autopty = (open_autopty a, uart_stdio)
choose_tty a uart_stdio tty = (uart_tty_backend a, uart_stdio)

-- `uart_set_backend`, with `uart_stdio` as an argument and a result. No backend, NULL, is `none`.
unfoldable pub uart_set_backend : Answers → Bool → Uart → Option Backend → ℤ × Bool × Uart
unfolding choose_tty uart_opentty
uart_set_backend a uart_stdio s none = (pos 0, uart_stdio, s)
uart_set_backend a uart_stdio s (some b) =
    let ((retval, opens), in_use) = choose_tty a uart_stdio b in
    let t = if opens then with_tty s else s in
    (retval, in_use, if is_success retval then uart_opentty t else t)
