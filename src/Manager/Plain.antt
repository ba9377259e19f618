-- ===== src/Manager/Plain.antt =====
-- The lines of a configuration file that the INI parser takes as they are written
-- (include/ini/ini.h): it cuts a line at 200 characters and a comment off a value, and it strips
-- blanks.
use Prim.Native.Char.{code}
use Prim.Native.String.{String}
use text.Mathlib.Text.{◌==◌ as str_eq}
use xhyve_manager.Base.{
  ℕ, ◌+◌, Bool, true, not, ◌&&◌, ◌||◌, ◌≡◌, refl, List, [], ◌∷◌, map, length, ◌==◌, ltb, leb,
  and-parts, Bool-cases, inl, inr,
}
use xhyve_manager.Manager.Config.{
  Entry, config_def, Machine, Line, heading, assign, write_fields, write_machine_config,
}

-- The code points of a text: its bytes, as only ASCII is plain.
abbrev pub codes : String → List ℕ
codes String.[] = []
codes (String.◌∷◌ c s) = code c ∷ codes s

-- A section or a name: lower letters and underscores, and fewer than 50 of them.
abbrev is_word : List ℕ → Bool
is_word [] = true
is_word (c ∷ cs) = (c == b'_' || (leb b'a' c && leb c b'z')) && is_word cs

abbrev is_name : String → Bool
is_name s = (ltb 0 (length (codes s)) && ltb (length (codes s)) 50) && is_word (codes s)

-- The rest of a value, where `blank` says that a blank comes before: printable ASCII, with no
-- semicolon after a blank and no blank at the end.
abbrev is_plain_rest : Bool → List ℕ → Bool
is_plain_rest blank [] = not blank
is_plain_rest blank (c ∷ cs) =
    (leb 32 c && leb c 126) && (not (blank && c == b';') && is_plain_rest (c == 32) cs)

-- A value is written after a blank of its own.
abbrev is_plain_value : List ℕ → Bool
is_plain_value [] = true
is_plain_value (c ∷ cs) = not (c == 32) && is_plain_rest true (c ∷ cs)

-- A value that is plain, in a line that fits: `name = value` and its end, in 199 characters.
abbrev fits_line : String → String → Bool
fits_line name value =
    is_plain_value (codes value) && ltb (length (codes name) + length (codes value) + 4) 200

unfoldable pub is_plain_line : Line → Bool
is_plain_line (heading s) = is_name s
is_plain_line (assign n v) = is_name n && fits_line n v

unfoldable pub is_plain : List Line → Bool
unfolding is_plain_line
is_plain [] = true
is_plain (line ∷ lines) = is_plain_line line && is_plain lines

-- Every value of the machine is plain and fits its line.
unfoldable pub has_plain_values : Machine → Bool
has_plain_values [] = true
has_plain_values (f ∷ m) = fits_line f.entry.name f.value && has_plain_values m

abbrev has_names : List Entry → Bool
has_names [] = true
has_names (e ∷ es) = (is_name e.section && is_name e.name) && has_names es

config_def-has_names : has_names config_def ≡ true
unfolding config_def
config_def-has_names = refl

write_fields-is_plain :
    (section : String) (m : Machine)
    → has_names (map (λ f. f.entry) m) ≡ true
    → has_plain_values m ≡ true
    → is_plain (write_fields section m) ≡ true
unfolding is_plain write_fields has_plain_values
write_fields-is_plain section [] names values = refl
write_fields-is_plain section (f ∷ m) names values =
    let (entry, names') =
      and-parts (is_name f.entry.section && is_name f.entry.name) (has_names (map (λ g. g.entry) m))
        names in
    let (named_section, named) = and-parts (is_name f.entry.section) (is_name f.entry.name) entry in
    let (value, values') = and-parts (fits_line f.entry.name f.value) (has_plain_values m) values in
    let rest = write_fields-is_plain f.entry.section m names' values' in
    elim (Bool-cases (str_eq section f.entry.section)) [
      | inl same ↦ rw same (rw (named, value) rest)
      | inr other ↦ rw other (rw (named_section, named, value) rest)
    ]

-- A machine with plain values is written in plain lines.
pub write_machine_config-is_plain :
    (m : Machine)
    → map (λ f. f.entry) m ≡ config_def
    → has_plain_values m ≡ true
    → is_plain (write_machine_config m) ≡ true
unfolding write_machine_config
write_machine_config-is_plain m shape values =
    write_fields-is_plain "" m (rw shape config_def-has_names) values
