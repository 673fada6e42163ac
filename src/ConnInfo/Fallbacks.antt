-- ===== src/ConnInfo/Fallbacks.antt =====
-- What `ConnInfo::add_fallbacks` of crates/rlibpq/src/conninfo.rs leaves in each row.
use pgrust_drop.Prelude.{
  ℕ, suc, true, List, [], ◌∷◌, Option, none, some, ◌≡◌, ◌≢◌, ◌⊎◌, inl, inr, refl, ap, ◌∙◌, sym,
  arith, length, get_or, Bytes, codes, bytes_eq, bytes_eq_iff, Bool-cases, Option-cases,
  if◌then◌else◌,
}
use pgrust_drop.ConnInfo.Options.{ConnOptionDef, conninfo_options}
use pgrust_drop.ConnInfo.{
  ConnInfo, IsConnInfo, position, index_of, get, Env, or_else, fallback, fill_rows, takes_default,
  is_system, set_index, add_fallbacks,
}
use pgrust_drop.ConnInfo.Laws.{position_cons, get_found, get_missing, get-set_at}

-- The first row of a keyword.
unfoldable pub row_of : Bytes → List ConnOptionDef → Option ConnOptionDef
row_of keyword [] = none
row_of keyword (row ∷ rows) =
    let behind = row_of keyword rows in if bytes_eq row.keyword keyword then some row else behind

-- What a row has once the fallbacks are in, from what it had.
abbrev pub filled : Env → Option ConnOptionDef → Option Bytes → Option Bytes
filled env none v = none
filled env (some row) v = or_else v (fallback env row)

get_or-fill_rows :
    (env : Env) (k : Bytes) (rows : List ConnOptionDef) (vs : List (Option Bytes)) {i : ℕ}
    → length vs ≡ length rows
    → position k rows ≡ some i
    → get_or (fill_rows env rows vs) i none ≡ filled env (row_of k rows) (get_or vs i none)
unfolding fill_rows position row_of
get_or-fill_rows env k [] vs len h = absurd (ground arith)
get_or-fill_rows env k (row ∷ rows) [] len h = absurd (omega arith)
get_or-fill_rows env k (row ∷ rows) (v ∷ vs) {i} len h =
    elim (Bool-cases (bytes_eq row.keyword k)) [
      | inl e ↦ let zero_i : i ≡ 0 = ground arith in rw (e, zero_i) refl
      | inr e ↦ elim (Option-cases (position k rows)) [
        | inl n ↦ absurd (ground arith)
        | inr (j, f) ↦
            let suc_i : i ≡ suc j = ground arith in
            rw (e, suc_i) (get_or-fill_rows env k rows vs (omega arith) f)
      ]
    ]

length-fill_rows :
    (env : Env) (rows : List ConnOptionDef) (vs : List (Option Bytes))
    → length (fill_rows env rows vs) ≡ length vs
unfolding fill_rows
length-fill_rows env (row ∷ rows) (v ∷ vs) = omega (arith, length-fill_rows env rows vs)
length-fill_rows env [] vs = refl
length-fill_rows env (row ∷ rows) [] = refl

abbrev filled_in : Env → ConnInfo → ConnInfo
filled_in env o = record { values = fill_rows env conninfo_options o.values }

get-filled_in :
    (env : Env) (o : ConnInfo) (k : Bytes) {i : ℕ}
    → IsConnInfo o
    → index_of k ≡ some i
    → get (filled_in env o) k ≡ filled env (row_of k conninfo_options) (get o k)
unfolding index_of
get-filled_in env o k len f =
    get_found (filled_in env o) k f
    ∙ get_or-fill_rows env k conninfo_options o.values len f
    ∙ ap (filled env (row_of k conninfo_options)) (sym (get_found o k f))

-- The fallbacks either fill in every row, or put one more value in the sslmode row, which had none.
add_fallbacks_cases :
    (env : Env) (o : ConnInfo)
    → (add_fallbacks env o ≡ filled_in env o)
      ⊎ ((takes_default env o ≡ true)
          × (add_fallbacks env o ≡ record {
            values =
                set_index
                  (index_of (codes "sslmode"))
                  (some (codes "verify-full"))
                  (filled_in env o).values;
          }))
unfolding add_fallbacks
add_fallbacks_cases env o = elim (Bool-cases (takes_default env o)) [
  | inl e ↦ elim (Bool-cases (is_system (get (filled_in env o) (codes "sslrootcert")))) [
    | inl f ↦ inr (e, rw (e, f) refl)
    | inr f ↦ inl (rw (e, f) refl)
  ]
  | inr e ↦ inl (rw e refl)
]

sslmode_known : (i : ℕ) × (index_of (codes "sslmode") ≡ some i)
unfolding index_of position conninfo_options bytes_eq
sslmode_known = (19, refl)

-- A row with no value takes the row's fallback, and one with a value keeps it, in every row but
-- sslmode's.
pub get-add_fallbacks :
    (env : Env) (o : ConnInfo) (k : Bytes) {i : ℕ}
    → IsConnInfo o
    → index_of k ≡ some i
    → k ≢ codes "sslmode"
    → get (add_fallbacks env o) k ≡ filled env (row_of k conninfo_options) (get o k)
get-add_fallbacks env o k len f other =
    let length_filled = length-fill_rows env conninfo_options o.values ∙ len in
    elim (add_fallbacks_cases env o) [
      | inl e ↦ rw e (get-filled_in env o k len f)
      | inr (_, e) ↦
          let (s, at_s) = sslmode_known in
          let (_, others, _) =
            get-set_at (filled_in env o) (codes "sslmode") (some (codes "verify-full"))
              length_filled at_s in
          rw (e, at_s) (others k other ∙ get-filled_in env o k len f)
    ]

row_of_found :
    (k : Bytes) (rows : List ConnOptionDef) {i : ℕ}
    → position k rows ≡ some i
    → (row : ConnOptionDef) × (row_of k rows ≡ some row)
unfolding row_of
row_of_found k [] h = absurd (unfold position in ground arith)
row_of_found k (row ∷ rows) h = elim (position_cons k row rows h) [
  | inl (e, _) ↦ (row, rw ((bytes_eq_iff row.keyword k).1 e) refl)
  | inr (j, _, e, f) ↦ let (found, g) = row_of_found k rows f in (found, rw e g)
]

takes_default_unset :
    (env : Env) (o : ConnInfo) → takes_default env o ≡ true → get o (codes "sslmode") ≡ none
unfolding takes_default
takes_default_unset env o h = elim (Option-cases (get o (codes "sslmode"))) [
  | inl e ↦ e
  | inr (v, e) ↦ absurd (ground arith)
]

-- A value that the connection string gives is never replaced, whatever the environment says.
pub get-add_fallbacks_given :
    (env : Env) (o : ConnInfo) (k : Bytes) {v : Bytes}
    → IsConnInfo o
    → get o k ≡ some v
    → get (add_fallbacks env o) k ≡ some v
unfolding index_of
get-add_fallbacks_given env o k {v} len h = elim (Option-cases (index_of k)) [
  | inl n ↦ absurd (let missing = get_missing o k n in ground arith)
  | inr (i, f) ↦
      let (row, found) = row_of_found k conninfo_options f in
      let kept : filled env (row_of k conninfo_options) (get o k) ≡ some v = rw (found, h) refl in
      elim (Bool-cases (bytes_eq k (codes "sslmode"))) [
        | inl e ↦ elim (add_fallbacks_cases env o) [
          | inl e ↦ rw e (get-filled_in env o k len f ∙ kept)
          | inr (default, _) ↦ absurd (
              let same = (bytes_eq_iff k (codes "sslmode")).0 e in
              let unset = ap (get o) same ∙ takes_default_unset env o default in ground arith)
        ]
        | inr e ↦
            get-add_fallbacks env o k len f (λ same.
              absurd (let differ = (bytes_eq_iff k (codes "sslmode")).1 same in ground arith))
            ∙ kept
      ]
]
