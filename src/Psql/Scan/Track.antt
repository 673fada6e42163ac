-- ===== src/Psql/Scan/Track.antt =====
-- crates/rpsql/src/scan.rs: the first identifiers of a statement, by which the lexer knows a
-- routine's body and a COPY FROM STDIN.
use pgrust_drop.Prelude.{
  ℕ, zero, suc, ◌-◌, Bool, false, ◌&&◌, ◌||◌, List, [], ◌∷◌, ltb, leb, ◌==◌, if◌then◌else◌, Bytes,
  codes,
}
use pgrust_drop.Psql.Scan.Chars.{peek, eq_ignore_case, to_lower, to_upper}
use pgrust_drop.Psql.Scan.Work.{ScanState}

-- `is_create_routine`.
unfoldable pub is_create_routine : Bytes → Bool
is_create_routine idents =
    let routine = λ (i : ℕ). peek idents i == b'f' || peek idents i == b'p' in
    peek idents 0 == b'c'
    && (routine 1 || (peek idents 1 == b'o' && peek idents 2 == b'r' && routine 3))

-- The loop of `is_copy_from_stdin`, from index 1 on: the last slot is looked at only behind an `F`.
unfoldable pub from_stdin : Bytes → Bool
from_stdin [] = false
from_stdin (c ∷ []) = false
from_stdin (c ∷ next ∷ cs) =
    let later = from_stdin (next ∷ cs) in if c == b'F' then next == b'S' else later

-- `is_copy_from_stdin`.
unfoldable pub is_copy_from_stdin : Bytes → Bool
is_copy_from_stdin [] = false
is_copy_from_stdin (c ∷ cs) = c == b'C' && from_stdin cs

-- Is the identifier one of the words?
unfoldable pub is_any : Bytes → List Bytes → Bool
is_any identifier [] = false
is_any identifier (word ∷ words) = eq_ignore_case identifier word || is_any identifier words

abbrev put_at : ℕ → ℕ → Bytes → Bytes
put_at n b [] = []
put_at zero b (c ∷ cs) = b ∷ cs
put_at (suc n) b (c ∷ cs) = c ∷ put_at n b cs

abbrev routine_words : List Bytes
routine_words =
    codes "create" ∷ codes "function" ∷ codes "procedure" ∷ codes "or" ∷ codes "replace" ∷ []

abbrev copy_words : List Bytes
copy_words = codes "copy" ∷ codes "from" ∷ codes "stdin" ∷ codes "stdout" ∷ []

-- `record_initial_keyword`.
unfoldable pub record_initial_keyword : Bytes → ScanState → ScanState
record_initial_keyword identifier s =
    let n = s.init_idents_count in
    let idents =
      if is_any identifier routine_words
      then put_at n (to_lower (peek identifier 0)) s.init_idents
      else if is_any identifier copy_words
      then put_at n (to_upper (peek identifier 0)) s.init_idents
      else s.init_idents in
    if ltb n 8 then record s { init_idents = idents; init_idents_count = suc n } else s

abbrev set_begin_depth : ℕ → ScanState → ScanState
set_begin_depth n s = record s { begin_depth = n }

-- The depth of begin and end in a routine's body.
unfoldable pub track_begin : Bytes → ScanState → ScanState
track_begin identifier s =
    if eq_ignore_case identifier (codes "begin")
    then set_begin_depth (suc s.begin_depth) s
    else if eq_ignore_case identifier (codes "case")
    then (if leb 1 s.begin_depth then set_begin_depth (suc s.begin_depth) s else s)
    else if eq_ignore_case identifier (codes "end") && leb 1 s.begin_depth
    then set_begin_depth (s.begin_depth - 1) s
    else s

abbrev no_idents : Bytes
no_idents = 0 ∷ 0 ∷ 0 ∷ 0 ∷ 0 ∷ 0 ∷ 0 ∷ 0 ∷ []

abbrev pub clear_idents : ScanState → ScanState
clear_idents s = if s.init_idents_count == 0 then record s { init_idents = no_idents } else s

-- `track_identifier`.
unfoldable pub track_identifier : Bytes → ScanState → ScanState
track_identifier identifier s =
    let recorded = record_initial_keyword identifier (clear_idents s) in
    if s.paren_depth == 0
    then if is_create_routine recorded.init_idents
      then track_begin identifier recorded
      else recorded
    else s

-- What a semicolon does to the state at the end of a statement.
unfoldable pub count_statement : ScanState → ScanState
count_statement s = record s {
  copy_stdin_count =
      if is_copy_from_stdin s.init_idents then suc s.copy_stdin_count else s.copy_stdin_count;
  init_idents_count = 0;
}
