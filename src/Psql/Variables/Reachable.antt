-- ===== src/Psql/Variables/Reachable.antt =====
-- crates/rpsql/src/variables.rs: the spaces that `new` and calls of `set` lead to.
use mathlib.Core.Path.{subst}
use pgrust_drop.Prelude.{
  Bool, false, List, [], ◌∷◌, Option, some, Bytes, codes, bytes_eq, ◌≡◌, refl, sym, inl, inr,
  Bool-cases,
}
use pgrust_drop.Psql.Scan.Chars.{to_lower}
use pgrust_drop.Psql.Variables.Parse.{
  parse_variable_bool, is_enum_value, parse_echo, parse_echo_hidden, parse_error_rollback,
  parse_comp_case, parse_histcontrol, parse_verbosity, parse_show_context,
}
use pgrust_drop.Psql.Variables.Number.{
  parse_variable_num, trim_from, with_radix, from_str_radix, digits_value, to_i32,
}
use pgrust_drop.Psql.Variables.Space.{
  VariableSpace, Setting, bytes_lt, position, replace_at, insert_at, entry_at, get, set_hooks,
  apply_substitute, check_assign, set, valid_variable_name,
}
use pgrust_drop.Psql.Variables.Laws.{IsSpace, Renews, SetsRight, set-SetsRight}
use pgrust_drop.Psql.Variables.Accepted.{IsAccepted, AreAccepted, set-AreAccepted}
use pgrust_drop.Psql.Variables.New.{new, hooks, IsSpace-new}

-- Calls of `set`, each a name with the value to give it or with none to delete it.
unfoldable pub set_each :
    (Option Bytes → Bool) → List (Bytes × Option Bytes) → VariableSpace → VariableSpace
set_each refused_double [] s = s
set_each refused_double (c ∷ calls) s =
    set_each refused_double calls ((set refused_double s (c.0) (c.1)).0)

new-AreAccepted :
    (refused_double : Option Bytes → Bool)
    → refused_double (some (codes "2")) ≡ false
    → AreAccepted refused_double new
unfolding new hooks set_hooks get position bytes_lt bytes_eq replace_at insert_at entry_at
    apply_substitute AreAccepted IsAccepted check_assign parse_variable_bool to_lower
    parse_variable_num trim_from with_radix from_str_radix digits_value to_i32 is_enum_value
    parse_echo parse_echo_hidden parse_error_rollback parse_comp_case parse_histcontrol
    parse_verbosity parse_show_context
new-AreAccepted refused_double h = (
  refl,
  (
    refl,
    (
      refl,
      (
        refl,
        (
          refl,
          (
            refl,
            (
              refl,
              (
                refl,
                (
                  refl,
                  (
                    refl,
                    (
                      refl,
                      (
                        refl,
                        (
                          refl,
                          (
                            refl,
                            (
                              refl,
                              (
                                refl,
                                (refl, (refl, (refl, (refl, (refl, (refl, (rw h refl, tt))))))),
                              ),
                            ),
                          ),
                        ),
                      ),
                    ),
                  ),
                ),
              ),
            ),
          ),
        ),
      ),
    ),
  ),
)

SetsRight-IsSpace :
    (name : Bytes) (value : Option Bytes) (s : VariableSpace) (r : Setting)
    → IsSpace s
    → SetsRight name value s r
    → IsSpace (r.0)
unfolding SetsRight Renews
SetsRight-IsSpace name value s r h (inl e) = subst IsSpace (sym (e.0)) h
SetsRight-IsSpace name value s r h (inr e) = e.0.0

set-IsSpace :
    (refused_double : Option Bytes → Bool) (s : VariableSpace) (name : Bytes) (value : Option Bytes)
    → IsSpace s
    → IsSpace ((set refused_double s name value).0)
unfolding set
set-IsSpace refused_double s name value h = elim (Bool-cases (valid_variable_name name)) [
  | inl e ↦ SetsRight-IsSpace name value s _ h (set-SetsRight refused_double s h name value e)
  | inr e ↦ rw e h
]

set_each-Sound :
    (refused_double : Option Bytes → Bool) (calls : List (Bytes × Option Bytes)) (s : VariableSpace)
    → IsSpace s
    → AreAccepted refused_double s
    → IsSpace (set_each refused_double calls s)
      × AreAccepted refused_double (set_each refused_double calls s)
unfolding set_each
set_each-Sound refused_double [] s h a = (h, a)
set_each-Sound refused_double (c ∷ calls) s h a =
    set_each-Sound refused_double calls ((set refused_double s (c.0) (c.1)).0)
      (set-IsSpace refused_double s (c.0) (c.1) h)
      (set-AreAccepted refused_double s h (c.0) (c.1) a)

-- Every space that is reached is sound: after any calls of `set` on a new space, accepted or refused,
-- the entries are sorted with no name twice, and the value of every variable with an assign hook
-- passes its check. What `strtod` refuses is an argument, which does not refuse 2, the value that
-- WATCH_INTERVAL starts with.
pub set_each-new :
    (refused_double : Option Bytes → Bool)
    → refused_double (some (codes "2")) ≡ false
    → (calls : List (Bytes × Option Bytes))
    → IsSpace (set_each refused_double calls new)
      × AreAccepted refused_double (set_each refused_double calls new)
set_each-new refused_double h calls =
    set_each-Sound refused_double calls new IsSpace-new (new-AreAccepted refused_double h)
