-- ===== src/Tests/Variables.antt =====
-- The theorems on the variables of psql at a concrete space.
use pgrust_drop.Prelude.{
  ℕ, ◌≤◌, Bool, false, List, [], ◌∷◌, Option, none, some, ◌≡◌, refl, Bytes, codes,
}
use pgrust_drop.Psql.Scan.Chars.{is_variable_char, is_dolq_cont, is_ident_start}
use pgrust_drop.Psql.Scan.Work.{ScanResult, PromptStatus, Buf, Scanner}
use pgrust_drop.Psql.Scan.Run.{Scanned, scan}
use pgrust_drop.Psql.Scan.Run
use pgrust_drop.Psql.Variables.Parse.{BoolField, Substitute, Assign}
use pgrust_drop.Psql.Variables.Space.{
  VariableSpace, bytes_lt, set, valid_variable_name, all_variable_chars,
}
use pgrust_drop.Psql.Variables.Laws.{IsSpace, SetsRight, set-SetsRight}
use pgrust_drop.Psql.Variables.Accepted.{AreAccepted}
use pgrust_drop.Psql.Variables.New.{new}
use pgrust_drop.Psql.Variables.Reachable.{set_each, set_each-new}
use pgrust_drop.Psql.Variables.View.{view, scan-view_ends}

-- A variable that names itself, and one with hooks.
abbrev small : VariableSpace
small = record {
  entries =
      record { name = codes "A"; value = some (codes ":A + 1"); substitute = none; assign = none }
      ∷ record {
        name = codes "QUIET";
        value = some (codes "off");
        substitute = some Substitute.bool;
        assign = some (Assign.bool BoolField.quiet);
      }
      ∷ [];
}

abbrev no_double : Option Bytes → Bool
no_double value = false

small-IsSpace : IsSpace small
unfolding bytes_lt
small-IsSpace = ((refl, tt), (tt, tt))

set-SetsRight_example :
    SetsRight
      (codes "QUIET")
      (some (codes "maybe"))
      small
      (set no_double small (codes "QUIET") (some (codes "maybe")))
unfolding valid_variable_name all_variable_chars is_variable_char is_dolq_cont is_ident_start
set-SetsRight_example =
    set-SetsRight no_double small small-IsSpace (codes "QUIET") (some (codes "maybe")) refl

abbrev three_calls : List (Bytes × Option Bytes)
three_calls =
    (codes "A", some (codes ":A + 1"))
    ∷ (codes "QUIET", some (codes "maybe"))
    ∷ (codes "FETCH_COUNT", none)
    ∷ []

set_each-new_example :
    IsSpace (set_each no_double three_calls new)
    × AreAccepted no_double (set_each no_double three_calls new)
set_each-new_example = set_each-new no_double refl three_calls

abbrev line : Buf
line = record { data_ = codes "select :A;"; pos = 0; varname = none }

abbrev scanner : Scanner
scanner = record { state = Run.new.state; stack = line ∷ [] }

scan-view_ends_example :
    (fuel : ℕ) × (s' : Scanner) × (query_buf' : Bytes) × (r : ScanResult × PromptStatus) × ((k : ℕ)
      → fuel ≤ k
      → scan k scanner [] (view (λ name. name) small) ≡ Scanned.scanned s' query_buf' r)
scan-view_ends_example = scan-view_ends (λ name. name) small small-IsSpace scanner line [] refl []
