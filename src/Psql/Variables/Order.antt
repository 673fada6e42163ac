-- ===== src/Psql/Variables/Order.antt =====
-- crates/rpsql/src/variables.rs: the order of the names, and where the entries are looked for.
use mathlib.Core.Path.{subst}
use pgrust_drop.Prelude.{
  ℕ, true, false, List, [], ◌∷◌, Option, none, some, if◌then◌else◌, is_some, All, Bytes, bytes_eq,
  bytes_eq_iff, ◌≡◌, refl, sym, ◌∙◌, arith, Bool-cases, inl, inr,
}
use pgrust_drop.Psql.Scan.Fits.{split}
use pgrust_drop.Psql.Variables.Space.{Variable, bytes_lt, Place, next_place, position, entry_at}

pub bytes_lt_trans :
    (a b c : Bytes) → bytes_lt a b ≡ true → bytes_lt b c ≡ true → bytes_lt a c ≡ true
unfolding bytes_lt
bytes_lt_trans a b [] h k = absurd (grind (arith, k))
bytes_lt_trans a [] (z ∷ c) h k = absurd (grind (arith, h))
bytes_lt_trans [] (y ∷ b) (z ∷ c) h k = refl
bytes_lt_trans (x ∷ a) (y ∷ b) (z ∷ c) h k = ground (arith, h, k, bytes_lt_trans a b c)

bytes_lt_differs : (a b : Bytes) → bytes_lt a b ≡ true → bytes_eq b a ≡ false
unfolding bytes_lt bytes_eq
bytes_lt_differs a [] h = absurd (grind (arith, h))
bytes_lt_differs [] (y ∷ b) h = refl
bytes_lt_differs (x ∷ a) (y ∷ b) h = ground (arith, h, bytes_lt_differs a b)

pub bytes_lt_total :
    (a b : Bytes) → bytes_eq a b ≡ false → bytes_lt a b ≡ false → bytes_lt b a ≡ true
unfolding bytes_lt bytes_eq
bytes_lt_total [] [] h k = absurd (grind (arith, h))
bytes_lt_total [] (y ∷ b) h k = absurd (grind (arith, k))
bytes_lt_total (x ∷ a) [] h k = refl
bytes_lt_total (x ∷ a) (y ∷ b) h k = ground (arith, h, k, bytes_lt_total a b)

-- The entries stand in the order of their names, none of which is there twice.
abbrev pub IsSorted : List Variable → Type 0
IsSorted [] = Unit
IsSorted (v ∷ vs) = All (λ (u : Variable). bytes_lt v.name u.name ≡ true) vs × IsSorted vs

-- The entry of a name, in any list.
unfoldable pub lookup : Bytes → List Variable → Option Variable
lookup name [] = none
lookup name (v ∷ vs) = let later = lookup name vs in if bytes_eq v.name name then some v else later

-- A name in front of all the entries is none of theirs.
pub lookup_before :
    (name : Bytes) (vs : List Variable)
    → All (λ (u : Variable). bytes_lt name u.name ≡ true) vs
    → lookup name vs ≡ none
unfolding lookup
lookup_before name [] h = refl
lookup_before name (v ∷ vs) (h, hs) = rw (bytes_lt_differs name v.name h) (lookup_before name vs hs)

-- In front of an entry, in front of all behind it.
pub before_rest :
    (name name' : Bytes) (vs : List Variable)
    → bytes_lt name name' ≡ true
    → All (λ (u : Variable). bytes_lt name' u.name ≡ true) vs
    → All (λ (u : Variable). bytes_lt name u.name ≡ true) vs
before_rest name name' [] h hs = tt
before_rest name name' (v ∷ vs) h (k, ks) =
    (bytes_lt_trans name name' v.name h k, before_rest name name' vs h ks)

-- Where the search stops in front of an entry, the name is in front of all that are left.
pub stops_before :
    (name : Bytes) (v : Variable) (vs : List Variable)
    → IsSorted (v ∷ vs)
    → bytes_eq v.name name ≡ false
    → bytes_lt v.name name ≡ false
    → All (λ (u : Variable). bytes_lt name u.name ≡ true) (v ∷ vs)
stops_before name v vs (h, hs) e l =
    let k = bytes_lt_total v.name name e l in (k, before_rest name v.name vs k h)

-- The entry at the place that a search gives.
abbrev pub entry_of : Place → List Variable → Option Variable
entry_of (Place.found i) vs = entry_at i vs
entry_of (Place.vacant i) vs = none

found_next :
    (p : Place) (v : Variable) (vs : List Variable)
    → entry_of (next_place p) (v ∷ vs) ≡ entry_of p vs
unfolding entry_at
found_next (Place.found i) v vs = refl
found_next (Place.vacant i) v vs = refl

-- The search finds what a walk over all the entries finds.
pub entry_of-position :
    (name : Bytes) (vs : List Variable)
    → IsSorted vs
    → entry_of (position name vs) vs ≡ lookup name vs
unfolding position lookup entry_at
entry_of-position name [] s = refl
entry_of-position name (v ∷ vs) s = elim (Bool-cases (bytes_eq v.name name)) [
  | inl e ↦ rw e refl
  | inr e ↦ elim (Bool-cases (bytes_lt v.name name)) [
    | inl l ↦ rw (e, l) (found_next (position name vs) v vs ∙ entry_of-position name vs (s.1))
    | inr l ↦ rw (e, l) (sym (lookup_before name vs ((stops_before name v vs s e l).1)))
  ]
]

abbrev Named : Bytes → Option Variable → Type 0
Named name none = Unit
Named name (some v) = v.name ≡ name

lookup-Named : (name : Bytes) (vs : List Variable) → Named name (lookup name vs)
unfolding lookup
lookup-Named name [] = tt
lookup-Named name (v ∷ vs) =
    split (Named name) (bytes_eq v.name name) (λ e. (bytes_eq_iff v.name name).0 e)
      (λ e. lookup-Named name vs)

pub lookup_name :
    (name : Bytes) (vs : List Variable) (v : Variable) → lookup name vs ≡ some v → v.name ≡ name
lookup_name name vs v h = subst (Named name) h (lookup-Named name vs)

pub bytes_eq_sym : (a b : Bytes) → bytes_eq a b ≡ bytes_eq b a
unfolding bytes_eq
bytes_eq_sym [] [] = refl
bytes_eq_sym [] (y ∷ b) = refl
bytes_eq_sym (x ∷ a) [] = refl
bytes_eq_sym (x ∷ a) (y ∷ b) = ground (arith, bytes_eq_sym a b)

-- A place that is found has an entry.
HasEntry : Place → List Variable → Type 0
HasEntry (Place.found i) vs = is_some (entry_at i vs) ≡ true
HasEntry (Place.vacant i) vs = Unit

HasEntry-next_place :
    (p : Place) (v : Variable) (vs : List Variable)
    → HasEntry p vs
    → HasEntry (next_place p) (v ∷ vs)
unfolding HasEntry entry_at
HasEntry-next_place (Place.found i) v vs h = h
HasEntry-next_place (Place.vacant i) v vs h = tt

HasEntry-position : (name : Bytes) (vs : List Variable) → HasEntry (position name vs) vs
unfolding position HasEntry entry_at
HasEntry-position name [] = tt
HasEntry-position name (v ∷ vs) =
    let P = λ (p : Place). HasEntry p (v ∷ vs) in
    split P (bytes_eq v.name name) (λ e. refl)
      (λ e.
        split P (bytes_lt v.name name)
          (λ l. HasEntry-next_place (position name vs) v vs (HasEntry-position name vs)) (λ l. tt))

pub entry_found :
    (name : Bytes) (vs : List Variable) (i : ℕ)
    → position name vs ≡ Place.found i
    → is_some (entry_at i vs) ≡ true
unfolding HasEntry
entry_found name vs i h = subst (λ p. HasEntry p vs) h (HasEntry-position name vs)
