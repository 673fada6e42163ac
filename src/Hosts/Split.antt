-- ===== src/Hosts/Split.antt =====
-- crates/rlibpq/src/hosts.rs: splitting a list at its commas.
use mathlib.Core.Path.{subst}
use pgrust_drop.Prelude.{
  ℕ, List, [], ◌∷◌, ◌++◌, ◌==◌, if◌then◌else◌, length, Bytes, All, ◌≡◌, ◌≢◌, refl, ap, sym, ◌∙◌,
  arith, Bool-cases, inl, inr,
}

abbrev push_front : ℕ → List Bytes → List Bytes
push_front b [] = (b ∷ []) ∷ []
push_front b (elem ∷ elems) = (b ∷ elem) ∷ elems

-- `comma_separated`.
unfoldable pub comma_separated : Bytes → List Bytes
comma_separated [] = [] ∷ []
comma_separated (b ∷ input) =
    let rest = comma_separated input in if b == b',' then [] ∷ rest else push_front b rest

-- `count_comma_separated_elems`.
unfoldable pub count_comma_separated_elems : Bytes → ℕ
count_comma_separated_elems input = length (comma_separated input)

-- The elements with commas between them.
unfoldable pub join_commas : List Bytes → Bytes
join_commas [] = []
join_commas (elem ∷ []) = elem
join_commas (elem ∷ next ∷ elems) = elem ++ (b',' ∷ join_commas (next ∷ elems))

abbrev pub NoComma : Bytes → Type 0
NoComma elem = All (λ b. b ≢ b',') elem

pub comma_separated_cons :
    (input : Bytes) → (e : Bytes) × (es : List Bytes) × (comma_separated input ≡ e ∷ es)
unfolding comma_separated
comma_separated_cons [] = ([], [], refl)
comma_separated_cons (b ∷ input) = elim (Bool-cases (b == b',')) [
  | inl h ↦ ([], comma_separated input, rw h refl)
  | inr h ↦ let (e, es, f) = comma_separated_cons input in (b ∷ e, es, rw (h, f) refl)
]

push_front-join :
    (b : ℕ) (e : Bytes) (es : List Bytes)
    → join_commas (push_front b (e ∷ es)) ≡ b ∷ join_commas (e ∷ es)
unfolding join_commas
push_front-join b e [] = refl
push_front-join b e (next ∷ es) = refl

-- A list is its elements with commas between them, and no element has a comma.
pub join_commas-comma_separated :
    (input : Bytes)
    → (join_commas (comma_separated input) ≡ input) × All NoComma (comma_separated input)
unfolding comma_separated join_commas
join_commas-comma_separated [] = (refl, (tt, tt))
join_commas-comma_separated (b ∷ input) =
    let (e, es, f) = comma_separated_cons input in
    let (joined, clean) = join_commas-comma_separated input in
    let joined' : join_commas (e ∷ es) ≡ input = rw (sym f) joined in
    let clean' : All NoComma (e ∷ es) = subst (All NoComma) f clean in
    elim (Bool-cases (b == b',')) [
      | inl h ↦ rw (h, f) (rw joined' (ground arith), (tt, clean'))
      | inr h ↦
          rw (h, f)
            (
              push_front-join b e es ∙ ap (◌∷◌ b) joined',
              ((λ same. ground arith, clean'.0), clean'.1),
            )
    ]
