-- ===== src/Manager/Arguments.antt =====
-- What the arguments of xhyve say (src/xhyve-manager.c).
use Prim.Native.String.{String, ◌++◌}
use text.Mathlib.Text.{◌==◌ as str_eq}
use text.Mathlib.TextLemmas.{nil-append, append_assoc}
use xhyve_manager.Base.{
  ◌++◌ as append, take, ◌≤◌, ◌≡◌, refl, ap, ◌∙◌, Bool, ◌&&◌, Option, none, some, List, [], ◌∷◌,
  if◌then◌else◌, get_or, length, arith, Bool-cases, inl, inr,
}
use xhyve_manager.Manager.Config.{Field, Machine, get_field}
use xhyve_manager.Manager.Launch.{
  format_loop, form_config_string, Strings, append_value, is_given, gather_field, gather_from,
  gather, initial_args, exec_args,
}

-- The texts with commas between them.
unfoldable pub intercalate : String → List String → String
intercalate s [] = s
intercalate s (t ∷ ts) = s ++ ("," ++ intercalate t ts)

intercalate-append :
    (p s : String) (ts : List String) → intercalate (p ++ s) ts ≡ p ++ intercalate s ts
unfolding intercalate
intercalate-append p s [] = refl
intercalate-append p s (t ∷ ts) = append_assoc p s ("," ++ intercalate t ts)

-- No text at all is a null pointer.
abbrev pub joined : List String → Option String
joined [] = none
joined (s ∷ ts) = some (intercalate s ts)

abbrev onto : Option String → List String → List String
onto none ts = ts
onto (some s) ts = s ∷ ts

-- The values of the fields that pass a test.
unfoldable pub values_of : (Field → Bool) → List Field → List String
values_of p [] = []
values_of p (f ∷ fields) = let rest = values_of p fields in if p f then f.value ∷ rest else rest

-- What a string of `Strings` becomes.
collect : (Field → Bool) → Option String → List Field → Option String
collect p o [] = o
collect p o (f ∷ fields) = collect p (if p f then append_value o f.value else o) fields

append_value-none : (value : String) → append_value none value ≡ some value
unfolding form_config_string format_loop
append_value-none value = ap some (nil-append value)

append_value-some : (s value : String) → append_value (some s) value ≡ some (s ++ ("," ++ value))
unfolding form_config_string format_loop
append_value-some s value = ap some (rw (nil-append s) (append_assoc s "," value))

joined-append_value :
    (o : Option String) (value : String) (ts : List String)
    → joined (onto (append_value o value) ts) ≡ joined (onto o (value ∷ ts))
unfolding intercalate
joined-append_value none value ts = rw (append_value-none value) refl
joined-append_value (some s) value ts = rw (append_value-some s value) (
    ap some
      (intercalate-append s ("," ++ value) ts ∙ ap (λ t. s ++ t) (intercalate-append "," value ts)))

collect-values_of :
    (p : Field → Bool) (o : Option String) (fields : List Field)
    → collect p o fields ≡ joined (onto o (values_of p fields))
unfolding collect values_of
collect-values_of p none [] = refl
collect-values_of p (some s) [] = unfold intercalate in refl
collect-values_of p o (f ∷ fields) = elim (Bool-cases (p f)) [
  | inl hit ↦ rw hit (
      collect-values_of p (append_value o f.value) fields
      ∙ joined-append_value o f.value (values_of p fields))
  | inr miss ↦ rw miss (collect-values_of p o fields)
]

-- The strings that become the arguments of `-s` and `-l`.
pub data Slot : Type 0 where
  bridge lpc lpc_dev networking internal_storage external_storage : Slot

abbrev pub slot : Slot → Strings → Option String
slot bridge a = a.bridge
slot lpc a = a.lpc
slot lpc_dev a = a.lpc_dev
slot networking a = a.networking
slot internal_storage a = a.internal_storage
slot external_storage a = a.external_storage

abbrev pub given_in : String → Field → Bool
given_in section f = str_eq f.entry.section section && is_given f.value

-- Which fields go into the argument: those of the section that are not empty, and for the external
-- storage all of the section, or none without a configinfo.
abbrev pub goes_into : Slot → Machine → Field → Bool
goes_into bridge m f = given_in "bridge" f
goes_into lpc m f = given_in "lpc" f
goes_into lpc_dev m f = given_in "lpc_dev" f
goes_into networking m f = given_in "networking" f
goes_into internal_storage m f = given_in "internal_storage" f
goes_into external_storage m f =
    str_eq f.entry.section "external_storage"
    && is_given (get_field m "external_storage" "configinfo")

slot-gather_from :
    (k : Slot) (m : Machine) (a : Strings) (fields : List Field)
    → slot k (gather_from m a fields) ≡ collect (goes_into k m) (slot k a) fields
unfolding gather_from gather_field collect
slot-gather_from bridge m a [] = refl
slot-gather_from lpc m a [] = refl
slot-gather_from lpc_dev m a [] = refl
slot-gather_from networking m a [] = refl
slot-gather_from internal_storage m a [] = refl
slot-gather_from external_storage m a [] = refl
slot-gather_from bridge m a (f ∷ fields) = slot-gather_from bridge m (gather_field m a f) fields
slot-gather_from lpc m a (f ∷ fields) = slot-gather_from lpc m (gather_field m a f) fields
slot-gather_from lpc_dev m a (f ∷ fields) = slot-gather_from lpc_dev m (gather_field m a f) fields
slot-gather_from networking m a (f ∷ fields) =
    slot-gather_from networking m (gather_field m a f) fields
slot-gather_from internal_storage m a (f ∷ fields) =
    slot-gather_from internal_storage m (gather_field m a f) fields
slot-gather_from external_storage m a (f ∷ fields) =
    slot-gather_from external_storage m (gather_field m a f) fields

-- The argument of a bridge, LPC, LPC device, networking or internal storage slot is the values of its
-- section that are not empty, in the order of config.def and with commas between them; where all are
-- empty it is a null pointer. The argument of the external storage is all the values of its section,
-- empty ones too, when its configinfo is given, and a null pointer when not.
pub slot-gather :
    (k : Slot) (m : Machine) (firmware : String)
    → slot k (gather m firmware) ≡ joined (values_of (goes_into k m) m)
unfolding gather
slot-gather bridge m fw = slot-gather_from bridge m _ m ∙ collect-values_of _ none m
slot-gather lpc m fw = slot-gather_from lpc m _ m ∙ collect-values_of _ none m
slot-gather lpc_dev m fw = slot-gather_from lpc_dev m _ m ∙ collect-values_of _ none m
slot-gather networking m fw = slot-gather_from networking m _ m ∙ collect-values_of _ none m
slot-gather internal_storage m fw =
    slot-gather_from internal_storage m _ m ∙ collect-values_of _ none m
slot-gather external_storage m fw =
    slot-gather_from external_storage m _ m ∙ collect-values_of _ none m

firmware-gather_from :
    (m : Machine) (a : Strings) (fields : List Field)
    → (gather_from m a fields).firmware
      ≡ collect (λ f. str_eq f.entry.section "boot") a.firmware fields
unfolding gather_from gather_field collect
firmware-gather_from m a [] = refl
firmware-gather_from m a (f ∷ fields) = firmware-gather_from m (gather_field m a f) fields

-- The argument of `-f` is the loader followed by every value of the section `boot`, the empty ones
-- too, with commas between them.
pub firmware-gather :
    (m : Machine) (firmware : String)
    → (gather m firmware).firmware
      ≡ some (intercalate firmware (values_of (λ f. str_eq f.entry.section "boot") m))
unfolding gather
firmware-gather m firmware = firmware-gather_from m _ m ∙ collect-values_of _ (some firmware) m

abbrev option_args : String → Option String → List (Option String)
option_args flag none = []
option_args flag (some s) = some flag ∷ some s ∷ []

abbrev flag_arg : Option String → List (Option String)
flag_arg none = []
flag_arg (some s) = some s ∷ []

-- The arguments passed to `run_xhyve` are the 19 fixed ones, then the external storage if there is
-- one, then the ACPI flag if it is set. They are at most 22, so that every write is inside the 23
-- elements of `exec_args` and its null terminator stays.
pub exec_args_lem :
    (m : Machine) (a : Strings)
    → let e = exec_args m a in
      (take e.argnum e.args
        ≡ append
            (take 19 (initial_args m a).args)
            (append (option_args "-s" a.external_storage) (flag_arg a.acpi)))
      × (e.argnum ≤ 22)
      × (length e.args ≡ 23)
      × (get_or e.args 22 (some "") ≡ none)
unfolding exec_args
exec_args_lem m a = (ground arith, ground arith, ground arith, ground arith)
