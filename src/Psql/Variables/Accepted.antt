-- ===== src/Psql/Variables/Accepted.antt =====
-- crates/rpsql/src/variables.rs: the values that the hooks have accepted.
use mathlib.Core.Path.{subst}
use pgrust_drop.Prelude.{
  ℕ, Bool, Option, none, some, if◌then◌else◌, is_some, All, Bytes, ◌≡◌, refl, sym, ap, ◌∙◌,
  Option-cases, inl, inr,
}
use pgrust_drop.Psql.Scan.Fits.{split, split_option}
use pgrust_drop.Psql.Variables.Space.{
  Variable, VariableSpace, Place, AssignError, position, entry_at, substituted, checked, is_bare,
  store_at, Setting, set_entry, set_at, set, valid_variable_name,
}
use pgrust_drop.Psql.Variables.Order.{lookup, entry_of, entry_of-position, lookup_name}
use pgrust_drop.Psql.Variables.Edits.{All-put, All-taken}
use pgrust_drop.Psql.Variables.Laws.{IsSpace}

module _ (refused_double : Option Bytes → Bool) where
  -- The variable's value passes the check of its assign hook, where it has one.
  unfoldable pub IsAccepted : Variable → Type 0
  IsAccepted v = checked refused_double v.assign v.name v.value ≡ none

  unfoldable pub AreAccepted : VariableSpace → Type 0
  AreAccepted s = All IsAccepted s.entries

  module _ (s : VariableSpace) (sorted : IsSpace s) (name : Bytes) (value : Option Bytes)
      (h : AreAccepted s) where
    set_entry-AreAccepted :
        (i : ℕ) (v : Variable)
        → v.name ≡ name
        → AreAccepted ((set_entry refused_double name i v value s).0)
    unfolding set_entry AreAccepted IsAccepted
    set_entry-AreAccepted i v n =
        let e : Variable = record v { value = substituted v.substitute value } in
        split_option (λ (r : Setting). AreAccepted (r.0))
          (checked refused_double v.assign name e.value)
          {x = (record { entries = store_at i e s.entries }, none)} {f = λ x. (s, some x)}
          (λ c.
            split (All IsAccepted) (is_bare e)
              (λ b. All-taken IsAccepted (Place.found i) s.entries h)
              (λ b.
                All-put IsAccepted e
                  (subst (λ x. checked refused_double v.assign x e.value ≡ none) (sym n) c)
                  (Place.found i) s.entries h))
          (λ x c. h)

    set_at-AreAccepted :
        (p : Place)
        → position name s.entries ≡ p
        → (value' : Option Bytes) → value ≡ value'
        → AreAccepted ((set_at refused_double name p value' s).0)
    unfolding AreAccepted IsAccepted
    set_at-AreAccepted (Place.vacant i) at none k = h
    set_at-AreAccepted (Place.vacant i) at (some v) k =
        All-put IsAccepted _ refl (Place.vacant i) s.entries h
    set_at-AreAccepted (Place.found i) at value' k =
        let same : entry_at i s.entries ≡ lookup name s.entries =
          ap (λ q. entry_of q s.entries) (sym at) ∙ entry_of-position name s.entries sorted in
        elim (Option-cases (entry_at i s.entries)) [
          | inl n ↦ rw (set_at, n) h
          | inr (v, n) ↦
              rw (set_at, n, ← k)
                (set_entry-AreAccepted i v (lookup_name name s.entries v (sym same ∙ n)))
        ]

  -- Every value has passed its hook: when the entries are sorted and the value of each variable with
  -- an assign hook passes the check of it, this is so after any `set`, accepted or refused, of any
  -- name and value. What `strtod` refuses is an argument.
  pub set-AreAccepted :
      (s : VariableSpace)
      → IsSpace s
      → (name : Bytes) (value : Option Bytes) → AreAccepted s
      → AreAccepted ((set refused_double s name value).0)
  unfolding set
  set-AreAccepted s sorted name value h =
      split (λ (r : Setting). AreAccepted (r.0)) (valid_variable_name name)
        {x = set_at refused_double name (position name s.entries) value s}
        {y = (s, if is_some value then some (AssignError.invalid_name name) else none)}
        (λ v. set_at-AreAccepted s sorted name value h (position name s.entries) refl value refl)
        (λ v. h)
