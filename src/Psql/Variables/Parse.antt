-- ===== src/Psql/Variables/Parse.antt =====
-- crates/rpsql/src/variables.rs: the hooks of the variables, and the parsers they check values with.
use pgrust_drop.Prelude.{
  ℕ, suc, Bool, true, false, ◌&&◌, ◌||◌, [], Option, none, some, leb, if◌then◌else◌, length, take,
  map, is_some, Bytes, codes, bytes_eq,
}
use pgrust_drop.Psql.Scan.Chars.{to_lower}

-- `enum BoolField`, `NumField`, `EnumField` and `PromptField`.
pub data BoolField : Type 0 where
  autocommit on_error_stop quiet singleline singlestep : BoolField
  show_all_results hide_compression hide_tableam : BoolField

pub data NumField : Type 0 where
  fetch_count histsize ignoreeof : NumField

pub data EnumField : Type 0 where
  echo echo_hidden on_error_rollback comp_case histcontrol verbosity show_context : EnumField

pub data PromptField : Type 0 where
  prompt1 prompt2 prompt3 : PromptField

-- `enum Substitute` and `enum Assign`.
pub data Substitute : Type 0 where
  bool ignore_eof : Substitute
  default : Bytes → Substitute

pub data Assign : Type 0 where
  bool : BoolField → Assign
  num : NumField → Assign
  watch_interval accept : Assign
  enum : EnumField → Assign
  prompt : PromptField → Assign

-- Is the value a prefix of the word, with at least so many characters?
abbrev prefix_of : ℕ → Bytes → Bytes → Bool
prefix_of least word value = leb least (length value) && bytes_eq (take (length value) word) value

-- `unwrap_or("")`.
abbrev pub or_empty : Option Bytes → Bytes
or_empty none = []
or_empty (some value) = value

-- `parse_variable_bool`: the value, or none when it is no Boolean and the result stays.
unfoldable pub parse_variable_bool : Option Bytes → Option Bool
parse_variable_bool value =
    let v = map to_lower (or_empty value) in
    if prefix_of 1 (codes "true") v || prefix_of 1 (codes "yes") v
    then some true
    else if prefix_of 1 (codes "false") v || prefix_of 1 (codes "no") v
    then some false
    else if prefix_of 2 (codes "on") v
    then some true
    else if prefix_of 2 (codes "off") v
    then some false
    else if bytes_eq v (codes "1")
    then some true
    else if bytes_eq v (codes "0")
    then some false
    else none

-- A word of a table, told by its place: what `parse_echo` and its likes give.
abbrev word_of : Bytes → Bytes → Option ℕ → Option ℕ
word_of value word later =
    if bytes_eq value word then some 0 else elim later [ none ↦ none | some i ↦ some (suc i) ]

-- `parse_echo`, `parse_comp_case`, `parse_histcontrol`, `parse_verbosity` and `parse_show_context`:
-- the place of the value among the variants of the enumeration.
unfoldable pub parse_echo : Bytes → Option ℕ
parse_echo v =
    word_of v (codes "none")
      (word_of v (codes "errors") (word_of v (codes "queries") (word_of v (codes "all") none)))

unfoldable pub parse_comp_case : Bytes → Option ℕ
parse_comp_case v = word_of v (codes "lower") (
    word_of v (codes "upper")
      (word_of v (codes "preserve-lower") (word_of v (codes "preserve-upper") none)))

unfoldable pub parse_histcontrol : Bytes → Option ℕ
parse_histcontrol v = word_of v (codes "none") (
    word_of v (codes "ignorespace")
      (word_of v (codes "ignoredups") (word_of v (codes "ignoreboth") none)))

unfoldable pub parse_verbosity : Bytes → Option ℕ
parse_verbosity v =
    word_of v (codes "default")
      (word_of v (codes "verbose") (word_of v (codes "terse") (word_of v (codes "sqlstate") none)))

unfoldable pub parse_show_context : Bytes → Option ℕ
parse_show_context v =
    word_of v (codes "never") (word_of v (codes "errors") (word_of v (codes "always") none))

-- `enum EchoHidden` and `enum ErrorRollback`: on or off, or their third value.
pub data Tristate : Type 0 where
  switch : Bool → Tristate
  third : Tristate

abbrev switched : Option Bool → Option Tristate
switched none = none
switched (some b) = some (Tristate.switch b)

-- `parse_echo_hidden` and `parse_error_rollback`.
unfoldable pub parse_echo_hidden : Bytes → Option Tristate
parse_echo_hidden v =
    if bytes_eq v (codes "noexec")
    then some Tristate.third
    else switched (parse_variable_bool (some v))

unfoldable pub parse_error_rollback : Bytes → Option Tristate
parse_error_rollback v =
    if bytes_eq v (codes "interactive")
    then some Tristate.third
    else switched (parse_variable_bool (some v))

-- The test of `check_assign` on an enumeration.
unfoldable pub is_enum_value : EnumField → Bytes → Bool
is_enum_value EnumField.echo v = is_some (parse_echo v)
is_enum_value EnumField.echo_hidden v = is_some (parse_echo_hidden v)
is_enum_value EnumField.on_error_rollback v = is_some (parse_error_rollback v)
is_enum_value EnumField.comp_case v = is_some (parse_comp_case v)
is_enum_value EnumField.histcontrol v = is_some (parse_histcontrol v)
is_enum_value EnumField.verbosity v = is_some (parse_verbosity v)
is_enum_value EnumField.show_context v = is_some (parse_show_context v)
