-- ===== src/Manager/Tests.antt =====
-- The theorems on the tool at concrete machines (src/xhyve-manager.c).
use mathlib.Core.Option
use xhyve_manager.Base.{
  true, false, ◌≡◌, refl, none, some, List, [], ◌∷◌, if◌then◌else◌, ◌++◌ as append, take, length,
  get_or, ◌≤◌,
}
use xhyve_manager.Manager.Config.{
  Machine, Line, Event, initialize_machine_config, handler, get_field, write_machine_config,
  load_machine_config,
}
use xhyve_manager.Manager.Plain.{is_plain, has_plain_values}
use xhyve_manager.Manager.Reload.{events_of, load-write_machine_config}
use xhyve_manager.Manager.Launch.{Strings, gather, initial_args, exec_args}
use xhyve_manager.Manager.Arguments.{
  intercalate, joined, values_of, bridge, external_storage, given_in, goes_into, slot-gather,
  exec_args_lem,
}
use xhyve_manager.Manager.Commands.{
  initialize, ask, write, info, edit, cleanup, parse_args, is_orderly, parse_args-orderly,
}

abbrev named : Machine
unfolding initialize_machine_config handler
named = handler initialize_machine_config "machine" "name" "Arch"

named_name : get_field named "machine" "name" ≡ "Arch"
unfolding named get_field
named_name = refl

-- A parser that does what is documented of plain lines, and nothing else.
abbrev plain_parse : List Line → List Event
plain_parse lines = if is_plain lines then events_of "" lines else []

plain_parse_lem :
    (lines : List Line) → is_plain lines ≡ true → plain_parse lines ≡ events_of "" lines
plain_parse_lem lines plain = rw plain refl

-- The machine of the defaults, named anew, is written and read back.
load-write_machine_config_example :
    load_machine_config
      (λ path. Option.map plain_parse (some (write_machine_config named)))
      "/Users/aj"
      "Arch"
      false
    ≡ some named
unfolding named initialize_machine_config has_plain_values
load-write_machine_config_example =
    load-write_machine_config plain_parse (λ path. some (write_machine_config named)) "/Users/aj"
      "Arch" false named plain_parse_lem refl refl refl

-- A value that the parser cuts is not plain.
comment_cut : is_plain (write_machine_config (handler named "boot" "options" "quiet ;fast")) ≡ false
unfolding named initialize_machine_config handler write_machine_config is_plain
comment_cut = refl

slot-gather_example :
    (gather initialize_machine_config "kexec").bridge
    ≡ joined (values_of (goes_into bridge initialize_machine_config) initialize_machine_config)
slot-gather_example = slot-gather bridge initialize_machine_config "kexec"

-- Without a configinfo the external storage has no argument.
default_external :
    joined
      (values_of (goes_into external_storage initialize_machine_config) initialize_machine_config)
    ≡ none
unfolding initialize_machine_config values_of get_field
default_external = refl

default_bridge :
    joined (values_of (given_in "bridge") initialize_machine_config) ≡ some "0:0,hostbridge"
unfolding initialize_machine_config values_of intercalate
default_bridge = refl

abbrev strings : Strings
strings = record {
  firmware = some "kexec";
  acpi = some "-A";
  bridge = some "0:0,hostbridge";
  lpc = some "31,lpc";
  lpc_dev = some "com1,stdio";
  networking = none;
  internal_storage = none;
  external_storage = some "3,ahci-cd,a.iso";
}

exec_args_lem_example :
    let e = exec_args named strings in
    (take e.argnum e.args
      ≡ append
          (take 19 (initial_args named strings).args)
          (some "-s" ∷ some "3,ahci-cd,a.iso" ∷ some "-A" ∷ []))
    × (e.argnum ≤ 22)
    × (length e.args ≡ 23)
    × (get_or e.args 22 (some "") ≡ none)
exec_args_lem_example = exec_args_lem named strings

parse_args-orderly_example :
    is_orderly true false false (parse_args (λ name. true) false true (some "start") (some "Arch"))
    ≡ true
parse_args-orderly_example =
    parse_args-orderly (λ name. true) false true (some "start") (some "Arch")

created :
    parse_args (λ name. false) true false (some "create") none
    ≡ initialize ∷ ask ∷ write ∷ info ∷ edit ∷ cleanup ∷ []
unfolding parse_args
created = refl
