-- ===== src/Psql/Scan/Measure.antt =====
-- crates/rpsql/src/scan.rs: what each step of the lexer makes less of: the variables on no
-- buffer of the stack, and what is left of the buffer on top.
use mathlib.Core.Path.{subst}
use pgrust_drop.Prelude.{
  ℕ, suc, ◌+◌, ◌*◌, ◌≤◌, ◌<◌, Bool, true, false, ◌||◌, List, [], ◌∷◌, some, if◌then◌else◌, length,
  drop, is_nil, bytes_eq, bytes_eq_iff, Bytes, ◌≡◌, inl, inr, refl, sym, ap, arith, Bool-cases,
  length-drop,
}
use pgrust_drop.Psql.Scan.Work.{StartState, VariableSource, QuoteType, Work, Buf, rest, advance}
use pgrust_drop.Psql.Scan.Colon.{any_source}
use pgrust_drop.Psql.Scan.Fits.{Fits, Fits-1}

unfoldable pub contains : Bytes → List Bytes → Bool
contains name [] = false
contains name (n ∷ names) = bytes_eq name n || contains name names

-- The names cover every variable that is set.
unfoldable pub Covers : List Bytes → VariableSource → Type 0
Covers names vars =
    (name value : Bytes)
    → vars.get_variable name QuoteType.plain ≡ some value
    → contains name names ≡ true

-- How many of the names no buffer of the stack has.
unfoldable pub unread : List Bytes → List Buf → ℕ
unread [] stack = 0
unread (name ∷ names) stack =
    let more = unread names stack in if any_source name stack then more else suc more

abbrev pub stack_of : Work → List Buf
stack_of w = w.top ∷ w.below

pub unread_grows :
    (names : List Bytes) (b : Buf) (stack : List Buf)
    → unread names (b ∷ stack) ≤ unread names stack
unfolding unread any_source
unread_grows [] b stack = omega arith
unread_grows (name ∷ names) b stack = ground (arith, unread_grows names b stack)

-- One more buffer, with a name that the stack has not: fewer names are left.
pub unread_falls :
    (names : List Bytes) (name value : Bytes) (stack : List Buf)
    → contains name names ≡ true
    → any_source name stack ≡ false
    → unread names (record { data_ = value; pos = 0; varname = some name } ∷ stack)
      < unread names stack
unfolding unread any_source contains
unread_falls [] name value stack m h = absurd (grind (arith, m))
unread_falls (n ∷ names) name value stack m h =
    let b : Buf = record { data_ = value; pos = 0; varname = some name } in
    elim (Bool-cases (bytes_eq name n)) [
      | inl e ↦
          let same : any_source n stack ≡ false =
            subst (λ x. any_source x stack ≡ false) ((bytes_eq_iff name n).0 e) h in
          rw (e, same) (ground (arith, unread_grows names b stack))
      | inr e ↦ rw e (ground (arith, unread_falls names name value stack (ground (arith, m, e)) h))
    ]

-- Twice what is left of the buffer, and one more behind a string, where a step may read nothing.
pub weight : Work → ℕ
weight w = 2 * length (rest w) + (elim w.state.start_state [ StartState.xqs ↦ 1 | _ ↦ 0 ])

pub weight_least : (w : Work) → weight w ≤ 2 * length (rest w) + 1
unfolding weight
weight_least w = ground arith

pub some_weight : (w : Work) → is_nil (rest w) ≡ false → 2 ≤ weight w
unfolding weight
some_weight w h = omega (arith, (Fits-1 (rest w) h).1)

pub weight_most : (w : Work) → 2 * length (rest w) ≤ weight w
unfolding weight
weight_most w = omega arith

-- Outside quotes and behind a string.
pub weight_initial :
    (w : Work) → w.state.start_state ≡ StartState.initial → weight w ≡ 2 * length (rest w)
unfolding weight
weight_initial w h = rw h (omega arith)

pub weight_xqs :
    (w : Work) → w.state.start_state ≡ StartState.xqs → weight w ≡ 2 * length (rest w) + 1
unfolding weight
weight_xqs w h = rw h refl

pub same_rest : (w w' : Work) → w'.top ≡ w.top → rest w' ≡ rest w
unfolding rest
same_rest w w' t = ap (λ (b : Buf). drop b.pos b.data_) t

-- Reading makes less of the buffer left, and the stack keeps its names.
drop_less :
    (n p : ℕ) (bytes : Bytes)
    → Fits n (drop p bytes)
    → length (drop (p + n) bytes) < length (drop p bytes)
drop_less n p bytes f = omega (arith, f.0, f.1, length-drop p bytes, length-drop (p + n) bytes)

pub reads_less :
    (w w' : Work) (n : ℕ)
    → Fits n (rest w)
    → w'.top ≡ (advance n w).top
    → length (rest w') < length (rest w)
unfolding rest
reads_less w w' n f t =
    subst (λ (b : Buf). length (drop b.pos b.data_) < length (rest w)) (sym t)
      (drop_less n w.top.pos w.top.data_ f)

pub unread_same :
    (names : List Bytes) (b b' : Buf) (stack : List Buf)
    → b.varname ≡ b'.varname
    → unread names (b ∷ stack) ≡ unread names (b' ∷ stack)
unfolding unread any_source
unread_same [] b b' stack h = refl
unread_same (name ∷ names) b b' stack h = rw (unread_same names b b' stack h, h) refl

pub reads_unread :
    (names : List Bytes) (w w' : Work) (n : ℕ)
    → w'.top ≡ (advance n w).top
    → w'.below ≡ w.below
    → unread names (stack_of w') ≡ unread names (stack_of w)
reads_unread names w w' n t b =
    rw (b) (unread_same names w'.top w.top w.below (ap (λ (x : Buf). x.varname) t))
