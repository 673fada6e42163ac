-- ===== src/Psql/Variables/Laws.antt =====
-- crates/rpsql/src/variables.rs: `set` as an operation on a finite map of names to variables.
use mathlib.Core.Path.{subst}
use pgrust_drop.Prelude.{
  ℕ, Bool, true, Option, none, some, if◌then◌else◌, is_some, Bytes, bytes_eq, ◌≡◌, ◌⊎◌, refl, sym,
  ap, ◌∙◌, arith, Option-cases, inl, inr,
}
use pgrust_drop.Psql.Scan.Fits.{split, split_option}
use pgrust_drop.Psql.Variables.Space.{
  Variable, VariableSpace, Place, position, entry_at, put, substituted, checked, is_bare, store_at,
  Setting, set_entry, set_at, set, valid_variable_name,
}
use pgrust_drop.Psql.Variables.Order.{
  IsSorted, lookup, entry_of, entry_of-position, lookup_name, entry_found,
}
use pgrust_drop.Psql.Variables.Edits.{lookup-put, IsSorted-put, taken, lookup-taken, IsSorted-taken}

abbrev pub IsSpace : VariableSpace → Type 0
IsSpace s = IsSorted s.entries

abbrev fresh : Bytes → Option Bytes → Option Variable
fresh name none = none
fresh name (some value) =
    some (record { name = name; value = some value; substitute = none; assign = none })

-- What becomes of the variable under a name: with no hook a value makes it and none removes it; with
-- hooks it stays, with the value that the substitute hook makes.
unfoldable pub renewed : Bytes → Option Bytes → Option Variable → Option Variable
renewed name value none = fresh name value
renewed name value (some v) =
    let e : Variable = record v { value = substituted v.substitute value } in
    if is_bare e then none else some e

-- The space answers as the map in which just this name is renewed.
unfoldable pub Renews : Bytes → Option Bytes → VariableSpace → VariableSpace → Type 0
Renews name value s s' =
    IsSpace s'
    × ((k : Bytes)
        → lookup k s'.entries ≡ (
            if bytes_eq name k
            then renewed name value (lookup name s.entries)
            else lookup k s.entries))

module _ (s : VariableSpace) (sorted : IsSpace s) (name : Bytes) (value : Option Bytes) (p : Place)
    (at : position name s.entries ≡ p) where
  Renews-put :
      (e : Variable)
      → e.name ≡ name
      → renewed name value (lookup name s.entries) ≡ some e
      → Renews name value s (record { entries = put e p s.entries })
  unfolding Renews
  Renews-put e n r =
      let there : position e.name s.entries ≡ p = ap (λ x. position x s.entries) n ∙ at in
      (
        subst (λ q. IsSorted (put e q s.entries)) there (IsSorted-put e s.entries sorted),
        λ k.
            subst
              (λ q. lookup k (put e q s.entries) ≡ (
                if bytes_eq name k
                then renewed name value (lookup name s.entries)
                else lookup k s.entries))
              there
              (lookup-put k e s.entries
                ∙ ap (λ x. if bytes_eq x k then some e else lookup k s.entries) n
                ∙ rw r refl),
      )

  Renews-taken :
      renewed name value (lookup name s.entries) ≡ none
      → Renews name value s (record { entries = taken p s.entries })
  unfolding Renews
  Renews-taken r = (
    subst (λ q. IsSorted (taken q s.entries)) at (IsSorted-taken name s.entries sorted),
    λ k.
        subst
          (λ q. lookup k (taken q s.entries) ≡ (
            if bytes_eq name k
            then renewed name value (lookup name s.entries)
            else lookup k s.entries))
          at (lookup-taken k name s.entries sorted ∙ rw r refl),
  )

-- What `set` comes to: the space as it was, with an error, or the space with the name renewed.
unfoldable pub SetsRight : Bytes → Option Bytes → VariableSpace → Setting → Type 0
SetsRight name value s r =
    ((r.0 ≡ s) × (is_some (r.1) ≡ true)) ⊎ (Renews name value s (r.0) × (r.1 ≡ none))

module _ (refused_double : Option Bytes → Bool) (s : VariableSpace) (sorted : IsSpace s)
    (name : Bytes) (value : Option Bytes) where
  set_entry-SetsRight :
      (i : ℕ) (v : Variable)
      → position name s.entries ≡ Place.found i
      → lookup name s.entries ≡ some v
      → SetsRight name value s (set_entry refused_double name i v value s)
  unfolding set_entry SetsRight renewed
  set_entry-SetsRight i v at l =
      let e : Variable = record v { value = substituted v.substitute value } in
      split_option (SetsRight name value s) (checked refused_double v.assign name e.value)
        {x = (record { entries = store_at i e s.entries }, none)} {f = λ x. (s, some x)}
        (λ h.
          split (λ es. SetsRight name value s (record { entries = es }, none)) (is_bare e)
            (λ b. inr (Renews-taken s sorted name value (Place.found i) at (rw (l, b) refl), refl))
            (λ b. inr (
              Renews-put s sorted name value (Place.found i) at e (lookup_name name s.entries v l)
                  (rw (l, b) refl),
              refl,
            )))
        (λ x h. inl (refl, refl))

  missing : (i : ℕ) → position name s.entries ≡ Place.vacant i → lookup name s.entries ≡ none
  missing i at = sym (entry_of-position name s.entries sorted) ∙ ap (λ q. entry_of q s.entries) at

  set_found-SetsRight :
      (i : ℕ)
      → position name s.entries ≡ Place.found i
      → SetsRight name value s (set_at refused_double name (Place.found i) value s)
  set_found-SetsRight i at =
      let same : entry_at i s.entries ≡ lookup name s.entries =
        ap (λ q. entry_of q s.entries) (sym at) ∙ entry_of-position name s.entries sorted in
      elim (Option-cases (entry_at i s.entries)) [
        | inl n ↦ absurd (grind (arith, n, entry_found name s.entries i at))
        | inr (v, n) ↦ rw (set_at, n) (set_entry-SetsRight i v at (sym same ∙ n))
      ]

  set_vacant-SetsRight :
      (i : ℕ)
      → position name s.entries ≡ Place.vacant i
      → (value' : Option Bytes) → value ≡ value'
      → SetsRight name value s (set_at refused_double name (Place.vacant i) value' s)
  unfolding SetsRight renewed
  set_vacant-SetsRight i at none h =
      inr (Renews-taken s sorted name value (Place.vacant i) at (rw (missing i at, h) refl), refl)
  set_vacant-SetsRight i at (some v) h =
      inr (
        Renews-put s sorted name value (Place.vacant i) at _ refl (rw (missing i at, h) refl),
        refl,
      )

  set_at-SetsRight :
      (p : Place)
      → position name s.entries ≡ p
      → SetsRight name value s (set_at refused_double name p value s)
  set_at-SetsRight (Place.found i) at = set_found-SetsRight i at
  set_at-SetsRight (Place.vacant i) at = set_vacant-SetsRight i at value refl

-- `set` is an operation on a finite map: with a valid name, on sorted entries, it either refuses with
-- an error and leaves the space as it was, or leaves sorted entries in which every other name is found
-- as before and this one is renewed: its value is what the substitute hook makes of the one given, its
-- hooks stay, and it is gone only where neither a value nor a hook is left. What `strtod` refuses is
-- an argument.
pub set-SetsRight :
    (refused_double : Option Bytes → Bool) (s : VariableSpace)
    → IsSpace s
    → (name : Bytes) (value : Option Bytes) → valid_variable_name name ≡ true
    → SetsRight name value s (set refused_double s name value)
unfolding set
set-SetsRight refused_double s sorted name value h =
    rw h (set_at-SetsRight refused_double s sorted name value (position name s.entries) refl)
