-- ===== src/Psql/Variables/Edits.antt =====
-- crates/rpsql/src/variables.rs: what putting and removing an entry do to the others.
use mathlib.Core.Path.{subst}
use pgrust_drop.Prelude.{
  ℕ, zero, suc, true, false, List, [], ◌∷◌, Option, none, some, if◌then◌else◌, All, Bytes, bytes_eq,
  bytes_eq_iff, ◌≡◌, refl, sym, ap, ◌∙◌, Bool-cases, inl, inr, either,
}
use pgrust_drop.Psql.Variables.Space.{
  Variable, bytes_lt, Place, next_place, position, replace_at, insert_at, remove_at, put,
}
use pgrust_drop.Psql.Variables.Order.{IsSorted, lookup, lookup_before, stops_before, bytes_eq_sym}

put_next :
    (e : Variable) (p : Place) (v : Variable) (vs : List Variable)
    → put e (next_place p) (v ∷ vs) ≡ v ∷ put e p vs
unfolding replace_at insert_at
put_next e (Place.found i) v vs = refl
put_next e (Place.vacant i) v vs = refl

-- A name that is another's is not a third.
apart : (a b k : Bytes) → bytes_eq a b ≡ false → bytes_eq a k ≡ true → bytes_eq b k ≡ false
apart a b k h e = bytes_eq_sym b k ∙ ap (λ x. bytes_eq x b) (sym ((bytes_eq_iff a k).0 e)) ∙ h

-- What is looked up behind a `put` at the place of its name: the new entry under its name, and under
-- any other what was there.
pub lookup-put :
    (k : Bytes) (e : Variable) (vs : List Variable)
    → lookup k (put e (position e.name vs) vs) ≡ (if bytes_eq e.name k then some e else lookup k vs)
unfolding position lookup replace_at insert_at
lookup-put k e [] = refl
lookup-put k e (v ∷ vs) = elim (Bool-cases (bytes_eq v.name e.name)) [
  | inl h ↦ elim (Bool-cases (bytes_eq e.name k)) [
    | inl t ↦ rw (h, t) refl
    | inr t ↦ rw (h, t, ap (λ x. bytes_eq x k) ((bytes_eq_iff v.name e.name).0 h) ∙ t) refl
  ]
  | inr h ↦ elim (Bool-cases (bytes_lt v.name e.name)) [
    | inl l ↦ elim (Bool-cases (bytes_eq v.name k)) [
      | inl t ↦
          rw (h, l)
            (ap (lookup k) (put_next e (position e.name vs) v vs)
              ∙ rw (t, apart v.name e.name k h t) refl)
      | inr t ↦
          rw (h, l)
            (ap (lookup k) (put_next e (position e.name vs) v vs) ∙ rw t (lookup-put k e vs))
    ]
    | inr l ↦ rw (h, l) refl
  ]
]

module _ (P : Variable → Type 0) (e : Variable) (p : P e) where
  All-replace_at : (i : ℕ) (vs : List Variable) → All P vs → All P (replace_at i e vs)
  unfolding replace_at
  All-replace_at i [] h = tt
  All-replace_at zero (v ∷ vs) h = (p, h.1)
  All-replace_at (suc i) (v ∷ vs) h = (h.0, All-replace_at i vs (h.1))

  All-insert_at : (i : ℕ) (vs : List Variable) → All P vs → All P (insert_at i e vs)
  unfolding insert_at
  All-insert_at zero vs h = (p, h)
  All-insert_at (suc i) [] h = (p, tt)
  All-insert_at (suc i) (v ∷ vs) h = (h.0, All-insert_at i vs (h.1))

  pub All-put : (q : Place) (vs : List Variable) → All P vs → All P (put e q vs)
  All-put (Place.found i) vs h = All-replace_at i vs h
  All-put (Place.vacant i) vs h = All-insert_at i vs h

pub IsSorted-put :
    (e : Variable) (vs : List Variable) → IsSorted vs → IsSorted (put e (position e.name vs) vs)
unfolding position replace_at insert_at
IsSorted-put e [] s = (tt, tt)
IsSorted-put e (v ∷ vs) s = elim (Bool-cases (bytes_eq v.name e.name)) [
  | inl h ↦ rw h (
    subst (λ n. All (λ (u : Variable). bytes_lt n u.name ≡ true) vs)
        ((bytes_eq_iff v.name e.name).0 h) (s.0),
    s.1,
  )
  | inr h ↦ elim (Bool-cases (bytes_lt v.name e.name)) [
    | inl l ↦
        rw (h, l)
          (subst IsSorted (sym (put_next e (position e.name vs) v vs)) (
            All-put (λ u. bytes_lt v.name u.name ≡ true) e l (position e.name vs) vs (s.0),
            IsSorted-put e vs (s.1),
          ))
    | inr l ↦ rw (h, l) (stops_before e.name v vs s h l, s)
  ]
]

-- The entry at the place of a name is taken out.
abbrev pub taken : Place → List Variable → List Variable
taken (Place.found i) vs = remove_at i vs
taken (Place.vacant i) vs = vs

taken_next :
    (p : Place) (v : Variable) (vs : List Variable) → taken (next_place p) (v ∷ vs) ≡ v ∷ taken p vs
unfolding remove_at
taken_next (Place.found i) v vs = refl
taken_next (Place.vacant i) v vs = refl

pub All-taken :
    (P : Variable → Type 0) (q : Place) (vs : List Variable) → All P vs → All P (taken q vs)
unfolding remove_at
All-taken P (Place.vacant i) vs h = h
All-taken P (Place.found i) [] h = tt
All-taken P (Place.found zero) (v ∷ vs) h = h.1
All-taken P (Place.found (suc i)) (v ∷ vs) h = (h.0, All-taken P (Place.found i) vs (h.1))

pub IsSorted-taken :
    (name : Bytes) (vs : List Variable) → IsSorted vs → IsSorted (taken (position name vs) vs)
unfolding position remove_at
IsSorted-taken name [] s = tt
IsSorted-taken name (v ∷ vs) s = elim (Bool-cases (bytes_eq v.name name)) [
  | inl h ↦ rw h (s.1)
  | inr h ↦ elim (Bool-cases (bytes_lt v.name name)) [
    | inl l ↦
        rw (h, l)
          (subst IsSorted (sym (taken_next (position name vs) v vs)) (
            All-taken (λ u. bytes_lt v.name u.name ≡ true) (position name vs) vs (s.0),
            IsSorted-taken name vs (s.1),
          ))
    | inr l ↦ rw (h, l) s
  ]
]

absent :
    (k name : Bytes) (vs : List Variable)
    → All (λ (u : Variable). bytes_lt name u.name ≡ true) vs
    → (if bytes_eq name k then none else lookup k vs) ≡ lookup k vs
absent k name vs h = elim (Bool-cases (bytes_eq name k)) [
  | inl t ↦
      rw t (
        sym (subst (λ x. lookup x vs ≡ none) ((bytes_eq_iff name k).0 t) (lookup_before name vs h)))
  | inr t ↦ rw t refl
]

-- What is looked up behind it: nothing under the name, and under any other what was there.
pub lookup-taken :
    (k name : Bytes) (vs : List Variable)
    → IsSorted vs
    → lookup k (taken (position name vs) vs) ≡ (if bytes_eq name k then none else lookup k vs)
unfolding position lookup remove_at
lookup-taken k name [] s = either (λ (o : Option Variable). none ≡ o) (bytes_eq name k) refl refl
lookup-taken k name (v ∷ vs) s = elim (Bool-cases (bytes_eq v.name name)) [
  | inl h ↦ elim (Bool-cases (bytes_eq name k)) [
    | inl t ↦
        let n : v.name ≡ k = (bytes_eq_iff v.name name).0 h ∙ (bytes_eq_iff name k).0 t in
        rw (h, t) (subst (λ x. lookup x vs ≡ none) n (lookup_before v.name vs (s.0)))
    | inr t ↦ rw (h, t, ap (λ x. bytes_eq x k) ((bytes_eq_iff v.name name).0 h) ∙ t) refl
  ]
  | inr h ↦ elim (Bool-cases (bytes_lt v.name name)) [
    | inl l ↦ elim (Bool-cases (bytes_eq v.name k)) [
      | inl t ↦
          rw (h, l)
            (ap (lookup k) (taken_next (position name vs) v vs)
              ∙ rw (t, apart v.name name k h t) refl)
      | inr t ↦
          rw (h, l)
            (ap (lookup k) (taken_next (position name vs) v vs)
              ∙ rw t (lookup-taken k name vs (s.1)))
    ]
    | inr l ↦ rw (h, l) (sym (absent k name (v ∷ vs) (stops_before name v vs s h l)))
  ]
]
