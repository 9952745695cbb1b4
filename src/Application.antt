-- ===== src/Application.antt =====
-- src/base/application.cpp with include/mifsa/base/application.h. The option parser (src/importlib/popl.hpp)
-- is the parameter `Options`; what the system and the files give are arguments.
pub mod Arguments
use mifsa_base.Base.{
  ℕ, zero, suc, ◌+◌, ◌/◌, ◌%◌, Bool, true, false, not, ◌&&◌, List, [], ◌∷◌, ◌++◌, Option, none,
  some, Bytes, codes, ◌==◌, if◌then◌else◌,
}
use mifsa_base.Base.Int.{ℤ, pos, negsuc}
use mifsa_base.Variant.Data.{
  Variant, VariantMap, Doubles, ParseType, in_standard, null, bool, int, double, string, end,
}
use mifsa_base.Variant.Access.{
  type, type_null, type_bool, type_int, type_double, type_string, to_bool, to_int, to_double,
  to_string,
}
use mifsa_base.Variant.Value
use mifsa_base.Dir.{get_cfg_path, is_empty}
use mifsa_base.Host.{get_exe_dir, get_exe_name}

-- `Application::Arg`
pub record Arg : Type 0 where
  pub short_name : Bytes
  pub long_name : Bytes
  pub description : Bytes
  pub default_value : Variant

-- What `get_option` of one type of option gives: an `invalid_argument`, a null pointer, or the value.
pub data Lookup {ℓ} (A : Type ℓ) : Type ℓ where
  invalid absent : Lookup A
  found : A → Lookup A

-- The options as they are after the parse, by their long names.
pub record Options : Type 0 where
  pub get_bool : Bytes → Lookup Bool
  pub get_int : Bytes → Lookup ℤ
  pub get_double : Bytes → Lookup ℕ
  pub get_string : Bytes → Lookup Bytes
  pub get_switch : Bytes → Lookup Bool

abbrev pub value_or {ℓ} : {A : Type ℓ} → Variant → (A → Variant) → Lookup A → Variant
value_or default make invalid = default
value_or default make absent = default
value_or default make (found a) = make a

unfoldable pub get_arg_value : Options → Arg → Variant
unfolding type
get_arg_value o arg =
    if type arg.default_value == type_bool
    then value_or arg.default_value bool (o.get_bool arg.long_name)
    else if type arg.default_value == type_int
    then value_or arg.default_value int (o.get_int arg.long_name)
    else if type arg.default_value == type_double
    then value_or arg.default_value double (o.get_double arg.long_name)
    else if type arg.default_value == type_string
    then value_or arg.default_value string (o.get_string arg.long_name)
    else if type arg.default_value == type_null
    then value_or arg.default_value bool (o.get_switch arg.long_name)
    else arg.default_value

-- What is added to the option parser for an argument: the kind of the option, with its default.
pub data Added : Type 0 where
  bool_option : Bytes → Bytes → Bytes → Bool → Added
  int_option : Bytes → Bytes → Bytes → ℤ → Added
  double_option : Bytes → Bytes → Bytes → ℕ → Added
  string_option : Bytes → Bytes → Bytes → Bytes → Added
  switch_option : Bytes → Bytes → Bytes → Added

unfoldable pub added_option : Doubles → Arg → Option Added
unfolding type to_bool to_int to_double to_string
added_option ops arg =
    if type arg.default_value == type_bool
    then some
        (bool_option arg.short_name arg.long_name arg.description (to_bool arg.default_value false))
    else if type arg.default_value == type_int
    then some (
        int_option arg.short_name arg.long_name arg.description
          (to_int ops arg.default_value (pos 0)))
    else if type arg.default_value == type_double
    then some (
        double_option arg.short_name arg.long_name arg.description
          (to_double ops arg.default_value (ops.of_int (pos 0))))
    else if type arg.default_value == type_string
    then some (
        string_option arg.short_name arg.long_name arg.description (to_string arg.default_value []))
    else if type arg.default_value == type_null
    then some (switch_option arg.short_name arg.long_name arg.description)
    else none

abbrev pub with_option : Option Added → List Added → List Added
with_option none added = added
with_option (some a) added = a ∷ added

-- The loop of `parserArgs`, behind the option for help.
unfoldable pub added_options : Doubles → List Arg → List Added
unfolding added_option
added_options ops [] = []
added_options ops (arg ∷ args) = with_option (added_option ops arg) (added_options ops args)

-- How `parserArgs` ends: it returns, or it exits the program with a status.
pub data Ending : Type 0 where
  returns : Ending
  exits : ℕ → Ending

-- `parse` of the added options gives none for an `invalid_option`, or whether the help option is set.
unfoldable pub parser_args : (List Added → Option Bool) → Doubles → List Arg → Ending
unfolding added_options
parser_args parse ops args =
    elim (parse (
      switch_option (codes "h") (codes "help") (codes "produce help message")
      ∷ added_options ops args)) [
        | none ↦ exits 0
        | some help_set ↦ if help_set then exits 0 else returns
      ]

abbrev pub check_none : ℕ
check_none = 2

abbrev pub check_singleton : ℕ
check_singleton = 4

abbrev pub check_terminate : ℕ
check_terminate = 8

-- `flag & bit`, for a power of two.
abbrev pub has_flag : ℕ → ℕ → Bool
has_flag flag bit = flag / bit % 2 == 1

-- `parserFlag`: how it ends, and whether it registers the handler of signals.
unfoldable pub parser_flag : Bool → ℕ → Ending × Bool
parser_flag is_single flag =
    if has_flag flag check_singleton && not is_single
    then (exits 1, false)
    else (returns, has_flag flag check_terminate)

-- `readConfig`: `read_json` is what `Variant::readJson` gives for a path. The test of `expectPath` never
-- holds, since that path is never empty.
unfoldable pub read_config :
    (Bytes → Bool) → (Bytes → Bytes) → (Bytes → Variant) → Bytes → VariantMap
unfolding get_cfg_path Value.to_map
read_config exists environment read_json file_name =
    if is_empty (codes "/etc/" ++ file_name)
    then end
    else Value.to_map (
        read_json
          (get_cfg_path exists environment file_name (codes "MIFSA_CONF_DIR") (codes "mifsa")))

-- The fields of `ApplicationHelper` but the arguments of the program and the option parser.
pub record Application : Type 0 where
  pub type_name : Bytes
  pub exe_path : Bytes
  pub exe_dir : Bytes
  pub exe_name : Bytes
  pub config : VariantMap

-- The constructor; `configure` is `readConfig`.
unfoldable pub make_application : Bytes → (Bytes → VariantMap) → Bytes → Bool → Application
unfolding get_exe_dir get_exe_name
make_application exe configure type_name has_cfg = record {
  type_name = type_name;
  exe_path = exe;
  exe_dir = get_exe_dir exe exe;
  exe_name = get_exe_name exe exe;
  config =
      if not (is_empty type_name) && has_cfg then configure (type_name ++ codes ".json") else end;
}
