-- ===== src/Manager/Config.antt =====
-- The configuration of a machine (include/xhyve-manager/config.def, and the functions of
-- src/xhyve-manager.c that include it), and the files that it is kept in.
use Prim.Native.String.{String, ◌++◌}
use text.Mathlib.Text.{◌==◌ as str_eq}
use xhyve_manager.Base.{Bool, not, ◌&&◌, Option, none, some, List, [], ◌∷◌, map, if◌then◌else◌}

-- A line `CFG(section, name, default)`.
pub record Entry : Type 0 where
  pub section : String
  pub name : String
  pub default : String

abbrev cfg : String → String → String → Entry
cfg s n d = record { section = s; name = n; default = d }

-- include/xhyve-manager/config.def
unfoldable pub config_def : List Entry
config_def =
    cfg "machine" "name" "default"
    ∷ cfg "machine" "type" "linux"
    ∷ cfg "machine" "uuid" ""
    ∷ cfg "boot" "kernel" "vmlinuz"
    ∷ cfg "boot" "initrd" "initrd.gz"
    ∷ cfg "boot" "options" "earlyprintk=serial console=ttyS0 acpi=off"
    ∷ cfg "acpi" "enabled" "false"
    ∷ cfg "processor" "cpus" "1"
    ∷ cfg "memory" "size" "1G"
    ∷ cfg "bridge" "slot" "0:0"
    ∷ cfg "bridge" "driver" "hostbridge"
    ∷ cfg "bridge" "configinfo" ""
    ∷ cfg "lpc" "slot" "31"
    ∷ cfg "lpc" "driver" "lpc"
    ∷ cfg "lpc_dev" "config" "com1,stdio"
    ∷ cfg "internal_storage" "slot" "4"
    ∷ cfg "internal_storage" "driver" "virtio-blk"
    ∷ cfg "internal_storage" "configinfo" "/usr/local/Library/xhyve/vdisks/hdd.img"
    ∷ cfg "external_storage" "slot" "3"
    ∷ cfg "external_storage" "driver" "ahci-cd"
    ∷ cfg "external_storage" "configinfo" ""
    ∷ cfg "networking" "slot" "2:0"
    ∷ cfg "networking" "driver" "virtio-net"
    ∷ cfg "networking" "configinfo" ""
    ∷ []

-- A field of `xhyve_virtual_machine_t`, `char *section_name`, and the structure: the fields in the
-- order of config.def.
pub record Field : Type 0 where
  pub entry : Entry
  pub value : String

abbrev pub Machine : Type 0
Machine = List Field

unfoldable pub initialize_machine_config : Machine
unfolding config_def
initialize_machine_config = map (λ e. record { entry = e; value = e.default }) config_def

abbrev pub is_field : String → String → Entry → Bool
is_field section name e = str_eq section e.section && str_eq name e.name

-- `handler`: the chain of `else if` stores the value in the first field that matches.
unfoldable pub handler : Machine → String → String → String → Machine
handler [] section name value = []
handler (f ∷ m) section name value =
    let rest = handler m section name value in
    if is_field section name f.entry then record f { value = value } ∷ m else f ∷ rest

-- `machine->section_name`.
unfoldable pub get_field : Machine → String → String → String
get_field [] section name = ""
get_field (f ∷ m) section name =
    let rest = get_field m section name in if is_field section name f.entry then f.value else rest

-- The lines of a configuration file: `[section]` and `name = value`.
pub data Line : Type 0 where
  heading : String → Line
  assign : String → String → Line

-- The loop of `write_machine_config`, where `section` is the one written last.
unfoldable pub write_fields : String → Machine → List Line
write_fields section [] = []
write_fields section (f ∷ m) =
    let rest = write_fields f.entry.section m in
    if not (str_eq section f.entry.section)
    then heading f.entry.section ∷ assign f.entry.name f.value ∷ rest
    else assign f.entry.name f.value ∷ rest

unfoldable pub write_machine_config : Machine → List Line
unfolding write_fields
write_machine_config m = write_fields "" m

-- `print_machine_info`: the lines `section_name = value`.
unfoldable pub print_machine_info : Machine → List String
print_machine_info [] = []
print_machine_info (f ∷ m) =
    (f.entry.section ++ "_" ++ f.entry.name ++ " = " ++ f.value) ∷ print_machine_info m

-- A call of the handler: section, name and value.
abbrev pub Event : Type 0
Event = String × String × String

unfoldable pub handle_all : Machine → List Event → Machine
handle_all m [] = m
handle_all m ((section, name, value) ∷ events) = handle_all (handler m section name value) events

-- `get_machine_path` and `get_config_path`, at a home directory.
unfoldable pub get_machine_path : String → String → String
get_machine_path home name =
    home ++ "/" ++ "Xhyve Virtual Machines" ++ "/" ++ name ++ "." ++ "xhyvm"

unfoldable pub get_config_path : String → String → String
unfolding get_machine_path
get_config_path home name = get_machine_path home name ++ "/config.ini"

-- `load_machine_config`. What `ini_parse` hands to the handler is the argument, `none` for a file
-- that it cannot open (-1); the result is `none` where the tool exits.
unfoldable pub load_machine_config :
    (String → Option (List Event)) → String → String → Bool → Option Machine
unfolding initialize_machine_config handle_all get_config_path
load_machine_config ini_parse home name new_file = elim (ini_parse (get_config_path home name)) [
  | none ↦ if new_file then some initialize_machine_config else none
  | some events ↦ some (handle_all initialize_machine_config events)
]
