-- ===== src/Manager/Reload.antt =====
-- Writing the configuration file of a machine and loading it (src/xhyve-manager.c).
use Prim.Native.String.{String}
use text.Mathlib.Text.{◌==◌ as str_eq}
use text.Mathlib.TextEquality.{eq_iff}
use text.Mathlib.TextPositions.{eq_refl}
use mathlib.Core.Option
use xhyve_manager.Base.{
  Bool, true, false, not, ◌&&◌, ◌≡◌, refl, sym, ap, ◌∙◌, Option, some, List, [], ◌∷◌, map, arith,
  inl, inr, Bool-cases, and-parts,
}
use xhyve_manager.Manager.Config.{
  Entry, config_def, Field, Machine, initialize_machine_config, is_field, handler, Line, heading,
  assign, write_fields, write_machine_config, Event, handle_all, get_config_path,
  load_machine_config,
}
use xhyve_manager.Manager.Plain.{is_plain, has_plain_values, write_machine_config-is_plain}

-- What inih documents: the handler is called for each pair in order, with the section above it.
pub events_of : String → List Line → List Event
events_of section [] = []
events_of section (heading s ∷ lines) = events_of s lines
events_of section (assign n v ∷ lines) = (section, n, v) ∷ events_of section lines

-- The fields as events.
fields_of : Machine → List Event
fields_of [] = []
fields_of (f ∷ m) = (f.entry.section, f.entry.name, f.value) ∷ fields_of m

events_of-write_fields :
    (section : String) (m : Machine) → events_of section (write_fields section m) ≡ fields_of m
unfolding events_of write_fields fields_of
events_of-write_fields section [] = refl
events_of-write_fields section (f ∷ m) = elim (Bool-cases (str_eq section f.entry.section)) [
  | inl same ↦
      let e : section ≡ f.entry.section = (eq_iff section f.entry.section).0 same in
      rw same (
        rw e (
          ap (λ l. (f.entry.section, f.entry.name, f.value) ∷ l)
            (events_of-write_fields f.entry.section m)))
  | inr other ↦ rw other (
      ap (λ l. (f.entry.section, f.entry.name, f.value) ∷ l)
        (events_of-write_fields f.entry.section m))
]

-- No entry of the list has the section and name of `e`.
abbrev is_fresh : Entry → List Entry → Bool
is_fresh e [] = true
is_fresh e (d ∷ ds) = not (is_field d.section d.name e) && is_fresh e ds

abbrev distinct : List Entry → Bool
distinct [] = true
distinct (e ∷ es) = is_fresh e es && distinct es

-- The sections and names of config.def are distinct.
config_def-distinct : distinct config_def ≡ true
unfolding config_def
config_def-distinct = refl

handler_hit :
    (f : Field) (m : Machine) (section name value : String)
    → is_field section name f.entry ≡ true
    → handler (f ∷ m) section name value ≡ record f { value = value } ∷ m
unfolding handler
handler_hit f m section name value hit = rw hit

handler_miss :
    (f : Field) (m : Machine) (section name value : String)
    → is_field section name f.entry ≡ false
    → handler (f ∷ m) section name value ≡ f ∷ handler m section name value
unfolding handler
handler_miss f m section name value miss = rw miss

-- Events for other fields leave the first one alone.
handle_all-fresh :
    (f : Field) (m fields : Machine)
    → is_fresh f.entry (map (λ g. g.entry) fields) ≡ true
    → handle_all (f ∷ m) (fields_of fields) ≡ f ∷ handle_all m (fields_of fields)
unfolding handle_all fields_of
handle_all-fresh f m [] fresh = refl
handle_all-fresh f m (g ∷ gs) fresh =
    let (apart, rest) =
      and-parts (not (is_field g.entry.section g.entry.name f.entry))
        (is_fresh f.entry (map (λ h. h.entry) gs)) fresh in
    let miss : is_field g.entry.section g.entry.name f.entry ≡ false = ground arith in
    ap (λ n. handle_all n (fields_of gs)) (handler_miss f m _ _ g.value miss)
    ∙ handle_all-fresh f (handler m g.entry.section g.entry.name g.value) gs rest

is_field_self : (e : Entry) → is_field e.section e.name e ≡ true
is_field_self e = rw (eq_refl e.section, eq_refl e.name)

-- The events of a machine give its fields back to any machine of the same shape.
handle_all-fields_of :
    (m start : Machine)
    → distinct (map (λ f. f.entry) m) ≡ true
    → map (λ f. f.entry) start ≡ map (λ f. f.entry) m
    → handle_all start (fields_of m) ≡ m
unfolding handle_all fields_of
handle_all-fields_of [] [] apart shape = refl
handle_all-fields_of [] (g ∷ gs) apart shape = cc
handle_all-fields_of (f ∷ m) [] apart shape = cc
handle_all-fields_of (f ∷ m) (g ∷ gs) apart shape =
    let head : g.entry ≡ f.entry = cc in
    let rest : map (λ (h : Field). h.entry) gs ≡ map (λ h. h.entry) m = cc in
    let (fresh, apart') = and-parts _ _ apart in
    let hit : is_field f.entry.section f.entry.name g.entry ≡ true =
      rw head (is_field_self f.entry) in
    let stored : Path Field (record g { value = f.value }) f =
      λ i. record { entry = head i; value = f.value } in
    ap (λ n. handle_all n (fields_of m)) (handler_hit g gs _ _ f.value hit)
    ∙ (ap (λ h. handle_all (h ∷ gs) (fields_of m)) stored
        ∙ (handle_all-fresh f gs m fresh ∙ ap (λ n. f ∷ n) (handle_all-fields_of m gs apart' rest)))

load_found :
    (ini : String → Option (List Event)) (home name : String) (new_file : Bool)
    (events : List Event)
    → ini (get_config_path home name) ≡ some events
    → load_machine_config ini home name new_file
      ≡ some (handle_all initialize_machine_config events)
load_found ini home name new_file events found = unfold load_machine_config in ground arith

initialize-shape : map (λ f. f.entry) initialize_machine_config ≡ config_def
unfolding initialize_machine_config
initialize-shape = refl

-- A configuration is read back as it was written, when each of its values is plain and short enough
-- for its line: printable ASCII, with no blank around it and no semicolon after a blank or at the
-- front, in a line of at most 199 characters. `fs` gives the lines of a file; inih is `ini_parse`, and
-- of it is assumed what its header documents: on lines that are plain in this way, under sections and
-- names of lower letters and underscores, it calls the handler for each pair in order, with the
-- section above it.
pub load-write_machine_config :
    (ini_parse : List Line → List Event) (fs : String → Option (List Line)) (home name : String)
    (new_file : Bool) (m : Machine)
    → ((lines : List Line) → is_plain lines ≡ true → ini_parse lines ≡ events_of "" lines)
    → map (λ f. f.entry) m ≡ config_def
    → has_plain_values m ≡ true
    → fs (get_config_path home name) ≡ some (write_machine_config m)
    → load_machine_config (λ path. Option.map ini_parse (fs path)) home name new_file ≡ some m
unfolding write_machine_config
load-write_machine_config ini_parse fs home name new_file m documented shape plain kept =
    load_found _ home name new_file _ (ap (Option.map ini_parse) kept)
    ∙ ap some (
        ap (handle_all initialize_machine_config)
          (documented _ (write_machine_config-is_plain m shape plain) ∙ events_of-write_fields "" m)
        ∙ handle_all-fields_of m initialize_machine_config (rw shape config_def-distinct)
            (initialize-shape ∙ sym shape))
