-- ===== src/Psql/Variables/Space.antt =====
-- crates/rpsql/src/variables.rs: `VariableSpace`, the variables with their hooks, sorted by name.
use pgrust_drop.Prelude.{
  ℕ, zero, suc, Bool, true, false, not, ◌&&◌, ◌||◌, List, [], ◌∷◌, Option, none, some, ltb, ◌==◌,
  if◌then◌else◌, is_nil, is_some, Bytes, codes, bytes_eq,
}
use pgrust_drop.Psql.Scan.Chars.{is_variable_char}
use pgrust_drop.Psql.Variables.Parse.{
  EnumField, Substitute, Assign, or_empty, parse_variable_bool, is_enum_value,
}
use pgrust_drop.Psql.Variables.Number.{parse_variable_num}

-- `struct Variable` and `struct VariableSpace`.
pub record Variable : Type 0 where
  pub name : Bytes
  pub value : Option Bytes
  pub substitute : Option Substitute
  pub assign : Option Assign

pub record VariableSpace : Type 0 where
  pub entries : List Variable

-- `struct AssignError`, as what it says.
pub data AssignError : Type 0 where
  invalid_name : Bytes → AssignError
  boolean_expected integer_expected : Bytes → Bytes → AssignError
  bad_double : Option Bytes → Bytes → AssignError
  unrecognized : EnumField → Bytes → Bytes → AssignError

-- `Ord` of strings: by their bytes.
unfoldable pub bytes_lt : Bytes → Bytes → Bool
bytes_lt a [] = false
bytes_lt [] (y ∷ b) = true
bytes_lt (x ∷ a) (y ∷ b) = ltb x y || (x == y && bytes_lt a b)

-- `Result<usize, usize>` of a search.
pub data Place : Type 0 where
  found vacant : ℕ → Place

abbrev pub next_place : Place → Place
next_place (Place.found i) = Place.found (suc i)
next_place (Place.vacant i) = Place.vacant (suc i)

-- `position`: what `binary_search_by` gives where the entries are sorted and no name is twice there.
unfoldable pub position : Bytes → List Variable → Place
position name [] = Place.vacant 0
position name (v ∷ vs) =
    let behind = next_place (position name vs) in
    if bytes_eq v.name name
    then Place.found 0
    else if bytes_lt v.name name
    then behind
    else Place.vacant 0

-- `self.entries[i]`, `self.entries[i] = entry`, `insert` and `remove`.
unfoldable pub entry_at : ℕ → List Variable → Option Variable
entry_at i [] = none
entry_at zero (v ∷ vs) = some v
entry_at (suc i) (v ∷ vs) = entry_at i vs

unfoldable pub replace_at : ℕ → Variable → List Variable → List Variable
replace_at i e [] = []
replace_at zero e (v ∷ vs) = e ∷ vs
replace_at (suc i) e (v ∷ vs) = v ∷ replace_at i e vs

unfoldable pub insert_at : ℕ → Variable → List Variable → List Variable
insert_at zero e vs = e ∷ vs
insert_at (suc i) e [] = e ∷ []
insert_at (suc i) e (v ∷ vs) = v ∷ insert_at i e vs

unfoldable pub remove_at : ℕ → List Variable → List Variable
remove_at i [] = []
remove_at zero (v ∷ vs) = vs
remove_at (suc i) (v ∷ vs) = v ∷ remove_at i vs

-- `valid_variable_name`.
unfoldable pub all_variable_chars : Bytes → Bool
all_variable_chars [] = true
all_variable_chars (c ∷ cs) = is_variable_char c && all_variable_chars cs

unfoldable pub valid_variable_name : Bytes → Bool
valid_variable_name name = not (is_nil name) && all_variable_chars name

abbrev number_or_ten : Bytes → Bytes
number_or_ten v = if is_some (parse_variable_num (some v)) then v else codes "10"

-- `apply_substitute`.
unfoldable pub apply_substitute : Substitute → Option Bytes → Option Bytes
apply_substitute Substitute.bool none = some (codes "off")
apply_substitute Substitute.bool (some v) = if is_nil v then some (codes "on") else some v
apply_substitute (Substitute.default word) none = some word
apply_substitute (Substitute.default word) (some v) = some v
apply_substitute Substitute.ignore_eof none = some (codes "0")
apply_substitute Substitute.ignore_eof (some v) = some (number_or_ten v)

abbrev pub substituted : Option Substitute → Option Bytes → Option Bytes
substituted none value = value
substituted (some hook) value = apply_substitute hook value

abbrev pub value_of : Option Variable → Option Bytes
value_of none = none
value_of (some v) = v.value

abbrev pub found_value : Place → List Variable → Option Bytes
found_value (Place.found i) vs = value_of (entry_at i vs)
found_value (Place.vacant i) vs = none

-- `VariableSpace::get`.
unfoldable pub get : VariableSpace → Bytes → Option Bytes
get s name = found_value (position name s.entries) s.entries

-- `get_bool`: false where the value is no Boolean.
unfoldable pub get_bool : VariableSpace → Bytes → Bool
get_bool s name = elim (parse_variable_bool (get s name)) [ none ↦ false | some b ↦ b ]

abbrev pub put : Variable → Place → List Variable → List Variable
put e (Place.found i) vs = replace_at i e vs
put e (Place.vacant i) vs = insert_at i e vs

-- `set_hooks`.
unfoldable pub set_hooks : Bytes → Option Substitute → Option Assign → VariableSpace → VariableSpace
set_hooks name substitute assign s =
    let e : Variable = record {
      name = name;
      value = substituted substitute (get s name);
      substitute = substitute;
      assign = assign;
    } in
    record { entries = put e (position name s.entries) s.entries }

abbrev pub is_bare : Variable → Bool
is_bare v = not (is_some v.value) && not (is_some v.substitute) && not (is_some v.assign)

-- The entry with its new value, or no entry where neither value nor hook is left.
abbrev pub store_at : ℕ → Variable → List Variable → List Variable
store_at i e vs = if is_bare e then remove_at i vs else replace_at i e vs

-- What `set` comes to: the space, and the error where it is refused.
abbrev pub Setting : Type 0
Setting = VariableSpace × Option AssignError

-- The variable of `\watch` is checked with `strtod` of the floating-point numbers, which is the
-- argument: is the value refused?
module _ (refused_double : Option Bytes → Bool) where
  -- `check_assign`: the error, or none where it is `Ok`.
  unfoldable pub check_assign : Assign → Bytes → Option Bytes → Option AssignError
  check_assign (Assign.bool f) name value =
      if is_some (parse_variable_bool value)
      then none
      else some (AssignError.boolean_expected (or_empty value) name)
  check_assign (Assign.num f) name value =
      if is_some (parse_variable_num value)
      then none
      else some (AssignError.integer_expected (or_empty value) name)
  check_assign Assign.watch_interval name value =
      if refused_double value then some (AssignError.bad_double value name) else none
  check_assign (Assign.enum f) name value =
      if is_enum_value f (or_empty value)
      then none
      else some (AssignError.unrecognized f (or_empty value) name)
  check_assign (Assign.prompt f) name value = none
  check_assign Assign.accept name value = none

  abbrev pub checked : Option Assign → Bytes → Option Bytes → Option AssignError
  checked none name value = none
  checked (some hook) name value = check_assign hook name value

  unfoldable pub set_entry : Bytes → ℕ → Variable → Option Bytes → VariableSpace → Setting
  set_entry name i v value s =
      let new_value = substituted v.substitute value in
      elim (checked v.assign name new_value) [
        | some e ↦ (s, some e)
        | none ↦ (record { entries = store_at i (record v { value = new_value }) s.entries }, none)
      ]

  abbrev pub set_at : Bytes → Place → Option Bytes → VariableSpace → Setting
  set_at name (Place.found i) value s = elim (entry_at i s.entries) [
    | none ↦ (s, none)
    | some v ↦ set_entry name i v value s
  ]
  set_at name (Place.vacant i) none s = (s, none)
  set_at name (Place.vacant i) (some value) s =
      let e : Variable = record {
        name = name;
        value = some value;
        substitute = none;
        assign = none;
      } in
      (record { entries = insert_at i e s.entries }, none)

  -- `VariableSpace::set`.
  unfoldable pub set : VariableSpace → Bytes → Option Bytes → Setting
  set s name value =
      if valid_variable_name name
      then set_at name (position name s.entries) value s
      else (s, if is_some value then some (AssignError.invalid_name name) else none)

  -- `set_bool` and `delete`.
  unfoldable pub set_bool : VariableSpace → Bytes → Setting
  set_bool s name = set s name (some (codes "on"))

  unfoldable pub delete : VariableSpace → Bytes → Setting
  delete s name = set s name none
