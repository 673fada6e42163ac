-- ===== src/Psql/Variables/View.antt =====
-- crates/rpsql/src/variables.rs: `VarView`, the variables as the lexer of statements sees them.
use pgrust_drop.Prelude.{
  ℕ, ◌≤◌, true, List, [], ◌∷◌, Option, none, some, Bytes, bytes_eq, ◌≡◌, refl, sym, ap, ◌∙◌, arith,
  Bool-cases, inl, inr,
}
use pgrust_drop.Psql.Quote.{escape_literal, escape_identifier}
use pgrust_drop.Psql.Scan.Work.{ScanResult, PromptStatus, QuoteType, VariableSource, Buf, Scanner}
use pgrust_drop.Psql.Scan.Run.{Scanned, scan}
use pgrust_drop.Psql.Scan.Measure.{Covers, contains}
use pgrust_drop.Psql.Scan.Halts.{scan-ends}
use pgrust_drop.Psql.Variables.Space.{
  Place, Variable, VariableSpace, value_of, found_value, position, get,
}
use pgrust_drop.Psql.Variables.Order.{lookup, entry_of, entry_of-position, bytes_eq_sym}
use pgrust_drop.Psql.Variables.Laws.{IsSpace}

-- The value as the request quotes it. No rule of the lexer makes the request for a shell, for which
-- the source is unimplemented.
unfoldable pub quote_as : QuoteType → Bytes → Option Bytes
quote_as QuoteType.plain value = some value
quote_as QuoteType.sql_literal value = some (escape_literal value)
quote_as QuoteType.sql_ident value = some (escape_identifier value)
quote_as QuoteType.shell_arg value = none

abbrev quote_value : QuoteType → Option Bytes → Option Bytes
quote_value q none = none
quote_value q (some value) = quote_as q value

-- `VarView`.
unfoldable pub view : (Bytes → Bytes) → VariableSpace → VariableSource
view from_utf8_lossy s = record {
  from_utf8_lossy = from_utf8_lossy;
  get_variable = λ name q. quote_value q (get s name);
}

abbrev pub names_of : List Variable → List Bytes
names_of [] = []
names_of (v ∷ vs) = v.name ∷ names_of vs

contains-names_of :
    (name value : Bytes) (vs : List Variable)
    → value_of (lookup name vs) ≡ some value
    → contains name (names_of vs) ≡ true
unfolding lookup contains
contains-names_of name value [] h = absurd (grind (arith, h))
contains-names_of name value (v ∷ vs) h = elim (Bool-cases (bytes_eq v.name name)) [
  | inl e ↦ rw (bytes_eq_sym name v.name ∙ e) refl
  | inr e ↦
      let step : lookup name (v ∷ vs) ≡ lookup name vs = rw e refl in
      rw (bytes_eq_sym name v.name ∙ e)
        (contains-names_of name value vs (ap value_of (sym step) ∙ h))
]

plain_value :
    (o : Option Bytes) (value : Bytes) → quote_value QuoteType.plain o ≡ some value → o ≡ some value
unfolding quote_as
plain_value none value h = h
plain_value (some v) value h = h

found_value_of : (p : Place) (vs : List Variable) → found_value p vs ≡ value_of (entry_of p vs)
found_value_of (Place.found i) vs = refl
found_value_of (Place.vacant i) vs = refl

Covers-view :
    (from_utf8_lossy : Bytes → Bytes) (s : VariableSpace)
    → IsSpace s
    → Covers (names_of s.entries) (view from_utf8_lossy s)
unfolding Covers view get
Covers-view from_utf8_lossy s sorted name value h = contains-names_of name value s.entries (
    ap value_of (sym (entry_of-position name s.entries sorted))
    ∙ sym (found_value_of (position name s.entries) s.entries)
    ∙ plain_value (get s name) value h)

-- Scanning with the variables of psql ends: with the variables of any space whose entries are sorted,
-- on a scanner with a buffer, whatever its state and whatever is in the statement so far, some amount
-- of fuel brings `scan` to a result, which more fuel does not change. What `from_utf8_lossy` makes of
-- a name is an argument.
pub scan-view_ends :
    (from_utf8_lossy : Bytes → Bytes) (vars : VariableSpace)
    → IsSpace vars
    → (s : Scanner) (b : Buf) (bs : List Buf) → s.stack ≡ b ∷ bs
    → (query_buf : Bytes)
    → (fuel : ℕ) × (s' : Scanner) × (query_buf' : Bytes) × (r : ScanResult × PromptStatus)
      × ((k : ℕ)
          → fuel ≤ k
          → scan k s query_buf (view from_utf8_lossy vars) ≡ Scanned.scanned s' query_buf' r)
scan-view_ends from_utf8_lossy vars sorted s b bs h query_buf =
    scan-ends (view from_utf8_lossy vars) (names_of vars.entries)
      (Covers-view from_utf8_lossy vars sorted) s b bs h query_buf
