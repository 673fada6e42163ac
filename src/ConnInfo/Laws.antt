-- ===== src/ConnInfo/Laws.antt =====
-- Looking up, setting and filling in the options of a connection string.
use pgrust_drop.Prelude.{
  ℕ, zero, suc, ◌<◌, false, List, [], ◌∷◌, Option, none, some, ◌≡◌, ◌≢◌, ◌⊎◌, inl, inr, refl, ap,
  ◌∙◌, sym, arith, length, get_or, Bytes, bytes_eq, bytes_eq_iff, Bool-cases, Option-cases,
}
use pgrust_drop.ConnInfo.Options.{ConnOptionDef, conninfo_options}
use pgrust_drop.ConnInfo.{
  ConnInfo, IsConnInfo, position, index_of, get, set_at, Stored, rewritten, store, set,
}

pub position_cons :
    (keyword : Bytes) (row : ConnOptionDef) (rows : List ConnOptionDef) {i : ℕ}
    → position keyword (row ∷ rows) ≡ some i
    → ((row.keyword ≡ keyword) × (i ≡ 0))
      ⊎ ((j : ℕ) × (i ≡ suc j)
          × (bytes_eq row.keyword keyword ≡ false)
          × (position keyword rows ≡ some j))
unfolding position
position_cons keyword row rows h = elim (Bool-cases (bytes_eq row.keyword keyword)) [
  | inl e ↦ inl ((bytes_eq_iff row.keyword keyword).0 e, ground arith)
  | inr e ↦ elim (Option-cases (position keyword rows)) [
    | inl n ↦ absurd (ground arith)
    | inr (j, f) ↦ inr (j, ground arith, e, f)
  ]
]

position_lt :
    (keyword : Bytes) (rows : List ConnOptionDef) {i : ℕ}
    → position keyword rows ≡ some i
    → i < length rows
position_lt keyword [] h = absurd (unfold position in ground arith)
position_lt keyword (row ∷ rows) h = elim (position_cons keyword row rows h) [
  | inl (_, e) ↦ omega arith
  | inr (j, e, _, f) ↦ omega (arith, position_lt keyword rows f)
]

-- A row has one keyword.
position_inj :
    (k k' : Bytes) (rows : List ConnOptionDef) {i : ℕ}
    → position k rows ≡ some i
    → position k' rows ≡ some i
    → k ≡ k'
position_inj k k' [] h h' = absurd (unfold position in ground arith)
position_inj k k' (row ∷ rows) h h' = elim (position_cons k row rows h) [
  | inl (e, z) ↦ elim (position_cons k' row rows h') [
    | inl (e', _) ↦ sym e ∙ e'
    | inr (_, s, _, _) ↦ absurd (omega arith)
  ]
  | inr (j, s, _, f) ↦ elim (position_cons k' row rows h') [
    | inl (_, z) ↦ absurd (omega arith)
    | inr (j', s', _, f') ↦
        let same : j' ≡ j = omega arith in position_inj k k' rows f (f' ∙ ap some same)
  ]
]

get_or-set_at :
    (i : ℕ) (v : Option Bytes) (vs : List (Option Bytes))
    → i < length vs
    → get_or (set_at i v vs) i none ≡ v
unfolding set_at
get_or-set_at i v [] h = absurd (omega arith)
get_or-set_at zero v (w ∷ vs) h = refl
get_or-set_at (suc i) v (w ∷ vs) h = get_or-set_at i v vs (omega arith)

get_or-set_at_other :
    (i j : ℕ) (v : Option Bytes) (vs : List (Option Bytes))
    → i ≢ j
    → get_or (set_at i v vs) j none ≡ get_or vs j none
unfolding set_at
get_or-set_at_other i j v [] h = refl
get_or-set_at_other zero zero v (w ∷ vs) h = absurd (h refl)
get_or-set_at_other zero (suc j) v (w ∷ vs) h = refl
get_or-set_at_other (suc i) zero v (w ∷ vs) h = refl
get_or-set_at_other (suc i) (suc j) v (w ∷ vs) h = get_or-set_at_other i j v vs (λ e. h (ap suc e))

length-set_at :
    (i : ℕ) (v : Option Bytes) (vs : List (Option Bytes)) → length (set_at i v vs) ≡ length vs
unfolding set_at
length-set_at i v [] = refl
length-set_at zero v (w ∷ vs) = refl
length-set_at (suc i) v (w ∷ vs) = omega (arith, length-set_at i v vs)

-- A lookup behind the position of its keyword.
pub get_found :
    (o : ConnInfo) (k : Bytes) {i : ℕ} → index_of k ≡ some i → get o k ≡ get_or o.values i none
unfolding get
get_found o k h = rw (h, get) refl

pub get_missing : (o : ConnInfo) (k : Bytes) → index_of k ≡ none → get o k ≡ none
unfolding get
get_missing o k h = rw (h, get) refl

-- Setting the row of `k` changes what is found under `k`, and under no other keyword.
pub get-set_at :
    (o : ConnInfo) (k : Bytes) (v : Option Bytes) {i : ℕ}
    → IsConnInfo o
    → index_of k ≡ some i
    → (let o' : ConnInfo = record { values = set_at i v o.values } in
        (get o' k ≡ v) × ((k' : Bytes) → k' ≢ k → get o' k' ≡ get o k') × IsConnInfo o')
unfolding index_of
get-set_at o k v {i} len h =
    let o' : ConnInfo = record { values = set_at i v o.values } in
    (
      get_found o' k h
          ∙ get_or-set_at i v o.values (omega (arith, position_lt k conninfo_options h)),
      λ k' other. elim (Option-cases (index_of k')) [
        | inl n ↦ get_missing o' k' n ∙ sym (get_missing o k' n)
        | inr (j, f) ↦
            get_found o' k' f
            ∙ get_or-set_at_other i j v o.values
                (λ e. other (position_inj k' k conninfo_options f (h ∙ ap some e)))
            ∙ sym (get_found o k' f)
      ],
      length-set_at i v o.values ∙ len,
    )

store_known :
    (o : ConnInfo) (k v : Bytes) {o' : ConnInfo}
    → store o k v ≡ Stored.stored o'
    → (i : ℕ) × (index_of k ≡ some i) × (o' ≡ record { values = set_at i (some v) o.values })
unfolding store
store_known o k v h = elim (Option-cases (index_of k)) [
  | inl n ↦ absurd (ground arith)
  | inr (i, f) ↦ (i, f, ground arith)
]

pub Stored-cases :
    (s : Stored)
    → ((o : ConnInfo) × (s ≡ Stored.stored o)) ⊎ ((k : Bytes) × (s ≡ Stored.unknown_keyword k))
Stored-cases (Stored.stored o) = inl (o, refl)
Stored-cases (Stored.unknown_keyword k) = inr (k, refl)

-- Setting an option the table has, under the keyword and value that `requiressl` is rewritten to,
-- changes what is found under that keyword and under no other, and keeps one value for each row.
pub get-set :
    (o : ConnInfo) (keyword value : Bytes) {o' : ConnInfo}
    → IsConnInfo o
    → set o keyword value ≡ Stored.stored o'
    → (get o' ((rewritten keyword value).0) ≡ some ((rewritten keyword value).1))
      × ((k : Bytes) → k ≢ (rewritten keyword value).0 → get o' k ≡ get o k)
      × IsConnInfo o'
unfolding set
get-set o keyword value len h =
    let (k, v) = rewritten keyword value in
    let (i, f, e) = store_known o k v h in rw e (get-set_at o k (some v) len f)
