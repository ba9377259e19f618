-- ===== src/Manager/Launch.antt =====
-- The arguments that `start_machine` builds for xhyve (src/xhyve-manager.c).
use Prim.Native.String.{String, ◌++◌}
use text.Mathlib.Text.{◌==◌ as str_eq}
use xhyve_manager.Base.{
  ℕ, ◌+◌, Bool, true, false, not, ◌&&◌, Option, none, some, List, [], ◌∷◌, if◌then◌else◌, ◌==◌, set,
}
use xhyve_manager.Manager.Config.{Field, Machine, get_field}

-- `get_firmware_type`; `none` where the tool exits.
unfoldable pub get_firmware_type : Machine → Option String
get_firmware_type m =
    if str_eq (get_field m "machine" "type") "bsd"
    then some "fbsd"
    else if str_eq (get_field m "machine" "type") "linux"
    then some "kexec"
    else none

abbrev pub is_end : List ℕ → Bool
is_end [] = true
is_end (c ∷ cs) = false

-- What one `s` of the format appends: the string, and a comma unless the format ends here.
abbrev pub append_arg : List ℕ → String → Option String → String
append_arg next ret none = ret
append_arg next ret (some s) = if is_end next then ret ++ s else (ret ++ s) ++ ","

-- The loop of `form_config_string` over the format's characters; a null pointer is `none`. The
-- result is `none` where `va_arg` would read past the arguments.
unfoldable pub format_loop : List ℕ → List (Option String) → String → Option String
format_loop [] args ret = some ret
format_loop (c ∷ next) args ret = elim (c == b's') [
  | true ↦ elim args [ [] ↦ none | arg ∷ rest ↦ format_loop next rest (append_arg next ret arg) ]
  | false ↦ format_loop next args ret
]

unfoldable pub form_config_string : List ℕ → List (Option String) → Option String
unfolding format_loop
form_config_string fmt args = format_loop fmt args ""

-- The strings that `start_machine` gathers; null is `none`.
pub record Strings : Type 0 where
  pub firmware : Option String
  pub acpi : Option String
  pub bridge : Option String
  pub lpc : Option String
  pub lpc_dev : Option String
  pub networking : Option String
  pub internal_storage : Option String
  pub external_storage : Option String

-- `form_config_string(&old, "ss", old, value)`.
abbrev pub append_value : Option String → String → Option String
append_value old value = form_config_string (b's' ∷ b's' ∷ []) (old ∷ some value ∷ [])

abbrev pub is_given : String → Bool
is_given value = not (str_eq value "")

-- The statements that the macro `CFG` stands for, at one line of config.def of the machine `m`.
unfoldable pub gather_field : Machine → Strings → Field → Strings
gather_field m a f =
    let section = f.entry.section in
    let value = f.value in
    record {
      firmware = if str_eq section "boot" then append_value a.firmware value else a.firmware;
      acpi =
          if str_eq section "acpi" && str_eq (get_field m "acpi" "enabled") "true"
          then form_config_string (b's' ∷ []) (some "-A" ∷ [])
          else a.acpi;
      bridge =
          if str_eq section "bridge" && is_given value
          then append_value a.bridge value
          else a.bridge;
      lpc = if str_eq section "lpc" && is_given value then append_value a.lpc value else a.lpc;
      lpc_dev =
          if str_eq section "lpc_dev" && is_given value
          then append_value a.lpc_dev value
          else a.lpc_dev;
      networking =
          if str_eq section "networking" && is_given value
          then append_value a.networking value
          else a.networking;
      internal_storage =
          if str_eq section "internal_storage" && is_given value
          then append_value a.internal_storage value
          else a.internal_storage;
      external_storage =
          if str_eq section "external_storage"
            && is_given (get_field m "external_storage" "configinfo")
          then append_value a.external_storage value
          else a.external_storage;
    }

unfoldable pub gather_from : Machine → Strings → List Field → Strings
gather_from m a [] = a
gather_from m a (f ∷ fields) = gather_from m (gather_field m a f) fields

unfoldable pub gather : Machine → String → Strings
unfolding gather_from
gather m firmware =
    gather_from m
      (record {
        firmware = some firmware;
        acpi = none;
        bridge = none;
        lpc = none;
        lpc_dev = none;
        networking = none;
        internal_storage = none;
        external_storage = none;
      })
      m

-- `exec_args` and `argnum`; a null pointer is `none`.
pub record Exec : Type 0 where
  pub args : List (Option String)
  pub argnum : ℕ

-- `exec_args[argnum++] = arg`.
abbrev pub push_arg : Exec → Option String → Exec
push_arg e arg = record { args = set e.args e.argnum arg; argnum = e.argnum + 1 }

unfoldable pub initial_args : Machine → Strings → Exec
initial_args m a = record {
  args =
      some "xhyve"
      ∷ some "-f"
      ∷ a.firmware
      ∷ some "-U"
      ∷ some (get_field m "machine" "uuid")
      ∷ some "-m"
      ∷ some (get_field m "memory" "size")
      ∷ some "-c"
      ∷ some (get_field m "processor" "cpus")
      ∷ some "-s"
      ∷ a.bridge
      ∷ some "-l"
      ∷ a.lpc_dev
      ∷ some "-s"
      ∷ a.lpc
      ∷ some "-s"
      ∷ a.networking
      ∷ some "-s"
      ∷ a.internal_storage
      ∷ some ""
      ∷ some ""
      ∷ some ""
      ∷ none
      ∷ [];
  argnum = 19;
}

unfoldable pub exec_args : Machine → Strings → Exec
unfolding initial_args
exec_args m a =
    let e = initial_args m a in
    let e' : Exec = elim a.external_storage [
      | none ↦ e
      | some s ↦ push_arg (push_arg e (some "-s")) (some s)
    ] in
    elim a.acpi [ none ↦ e' | some s ↦ push_arg e' (some s) ]

-- `start_machine` up to `run_xhyve`.
unfoldable pub start_machine : Machine → Option Exec
unfolding get_firmware_type gather exec_args
start_machine m = elim (get_firmware_type m) [
  | none ↦ none
  | some firmware ↦ some (exec_args m (gather m firmware))
]
