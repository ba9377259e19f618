-- ===== src/Manager/Commands.antt =====
-- The dispatch of a command (`parse_args` of src/xhyve-manager.c), as the actions that it takes in
-- order.
use Prim.Native.String.{String}
use text.Mathlib.Text.{◌==◌ as str_eq}
use text.Mathlib.TextEquality.{eq_iff}
use xhyve_manager.Base.{
  Bool, true, false, not, ◌&&◌, ◌≡◌, refl, Option, none, some, List, [], ◌∷◌, ◌++◌, if◌then◌else◌,
  arith, Bool-cases, inl, inr,
}

-- `initialize` stands for the allocation with `initialize_machine_config`, `load` for a
-- `load_machine_config` that returns, `missing` for one that exits, and `usage` exits too. `ask` is
-- the dialogue of `create_machine`, and `write` its `write_machine_config`.
pub data Action : Type 0 where
  initialize ask write setup usage edit info start refuse exit_failure cleanup : Action
  extract load missing : String → Action

-- `create_machine`; `edits` says that the answer to the question at its end is "y".
unfoldable pub create_machine : Bool → List Action
create_machine edits = ask ∷ write ∷ info ∷ (if edits then edit ∷ [] else [])

-- The second half of the branch with a parameter, after the machine is loaded.
unfoldable pub dispatch : Bool → String → List Action
dispatch root command =
    if str_eq command "create"
    then usage ∷ []
    else if str_eq command "edit"
    then edit ∷ cleanup ∷ []
    else if str_eq command "info"
    then info ∷ cleanup ∷ []
    else if str_eq command "start"
    then if root then start ∷ exit_failure ∷ [] else refuse ∷ exit_failure ∷ []
    else cleanup ∷ []

-- `parse_args`, where `loads` tells which machines have a configuration that can be read, and
-- `root` is `getuid() == 0`. A null pointer is `none`.
unfoldable pub parse_args :
    (String → Bool) → Bool → Bool → Option String → Option String → List Action
unfolding dispatch create_machine
parse_args loads edits root none param = usage ∷ []
parse_args loads edits root (some command) none =
    initialize
    ∷ (if str_eq command "create"
        then create_machine edits ++ (cleanup ∷ [])
        else if str_eq command "setup"
        then setup ∷ cleanup ∷ []
        else usage ∷ [])
parse_args loads edits root (some command) (some param) =
    (if str_eq command "extract" then extract param ∷ [] else [])
    ++ (if not (str_eq command "create") && not (str_eq command "extract")
        then initialize
          ∷ (if loads param then load param ∷ dispatch root command else missing param ∷ [])
        else dispatch root command)

-- Whether a machine is edited and shown only once its configuration is written or loaded, and
-- started only once it is loaded and by root, whether nothing follows an exit, and whether the last
-- action is one or frees the machine. `known` and `loaded` say what was done before.
abbrev pub is_orderly : Bool → Bool → Bool → List Action → Bool
is_orderly root known loaded [] = false
is_orderly root known loaded (initialize ∷ rest) = is_orderly root known loaded rest
is_orderly root known loaded (ask ∷ rest) = is_orderly root known loaded rest
is_orderly root known loaded (write ∷ rest) = is_orderly root true loaded rest
is_orderly root known loaded (setup ∷ rest) = is_orderly root known loaded rest
is_orderly root known loaded (extract p ∷ rest) = is_orderly root known loaded rest
is_orderly root known loaded (load p ∷ rest) = is_orderly root true true rest
is_orderly root known loaded (refuse ∷ rest) = not root && is_orderly root known loaded rest
is_orderly root known loaded (edit ∷ rest) = known && is_orderly root known loaded rest
is_orderly root known loaded (info ∷ rest) = known && is_orderly root known loaded rest
is_orderly root known loaded (start ∷ rest) = (loaded && root) && is_orderly root known loaded rest
is_orderly root known loaded (usage ∷ []) = true
is_orderly root known loaded (missing p ∷ []) = true
is_orderly root known loaded (exit_failure ∷ []) = true
is_orderly root known loaded (cleanup ∷ []) = true
is_orderly root known loaded (usage ∷ a ∷ rest) = false
is_orderly root known loaded (missing p ∷ a ∷ rest) = false
is_orderly root known loaded (exit_failure ∷ a ∷ rest) = false
is_orderly root known loaded (cleanup ∷ a ∷ rest) = false

dispatch-orderly :
    (root : Bool) (command : String)
    → str_eq command "create" ≡ false
    → is_orderly root true true (dispatch root command) ≡ true
unfolding dispatch
dispatch-orderly root command not_create = rw not_create (ground arith)

-- For every command and parameter, and whatever is answered at the end of `create`: a machine is
-- edited or shown only after its configuration was loaded or, by `create`, written; it is started
-- only after it was loaded and only by root; and nothing is done after an exit.
pub parse_args-orderly :
    (loads : String → Bool) (edits root : Bool) (command param : Option String)
    → is_orderly root false false (parse_args loads edits root command param) ≡ true
unfolding parse_args
parse_args-orderly loads edits root none param = refl
parse_args-orderly loads edits root (some command) none = ground arith
parse_args-orderly loads edits root (some command) (some param) =
    elim (Bool-cases (str_eq command "extract")) [
      | inl e ↦ rw ((eq_iff command "extract").0 e) refl
      | inr not_extract ↦ elim (Bool-cases (str_eq command "create")) [
        | inl e ↦ rw ((eq_iff command "create").0 e) refl
        | inr not_create ↦
            rw (not_extract, not_create) (ground (arith, dispatch-orderly root command not_create))
      ]
    ]
