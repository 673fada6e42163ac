-- ===== src/Psql/Scan/Work.antt =====
-- crates/rpsql/src/scan.rs: the state of the lexer, and the work on the buffer on top.
use pgrust_drop.Prelude.{ℕ, ◌+◌, Bool, ◌++◌, List, Option, take, drop, Bytes}

-- `enum LexRes`, `enum ScanResult`, `enum PromptStatus` and `enum QuoteType`.
pub data LexRes : Type 0 where
  eol semi backslash : LexRes

pub data ScanResult : Type 0 where
  semicolon backslash incomplete eol : ScanResult

pub data PromptStatus : Type 0 where
  ready continue comment single_quote double_quote dollar_quote paren copy : PromptStatus

pub data QuoteType : Type 0 where
  plain sql_literal sql_ident shell_arg : QuoteType

-- `trait VariableSource`, with `String::from_utf8_lossy`, through which each name goes first.
pub record VariableSource : Type 0 where
  pub from_utf8_lossy : Bytes → Bytes
  pub get_variable : Bytes → QuoteType → Option Bytes

-- `enum StartState`.
pub data StartState : Type 0 where
  initial xb xc xd xh xq xqs xe xdolq xui xus : StartState

-- `struct Buf`.
pub record Buf : Type 0 where
  pub data_ : Bytes
  pub pos : ℕ
  pub varname : Option Bytes

-- `struct ScanState`. The counters, `i32` and `usize`, grow by at most one for each byte that is
-- read, and here they have no upper end.
pub record ScanState : Type 0 where
  pub start_state : StartState
  pub state_before_str_stop : StartState
  pub paren_depth : ℕ
  pub xcdepth : ℕ
  pub dolqstart : Option Bytes
  pub begin_depth : ℕ
  pub copy_stdin_count : ℕ
  pub init_idents_count : ℕ
  pub init_idents : Bytes
  pub std_strings : Bool

-- `struct Scanner`, the top of the stack first.
pub record Scanner : Type 0 where
  pub state : ScanState
  pub stack : List Buf

-- A scanner at work, whose stack is not empty, and the `query_buf` it appends to.
pub record Work : Type 0 where
  pub state : ScanState
  pub top : Buf
  pub below : List Buf
  pub out : Bytes

-- `Scanner::rest`.
unfoldable pub rest : Work → Bytes
rest w = drop w.top.pos w.top.data_

abbrev pub advance : ℕ → Work → Work
advance n w = record w {
  top = record { data_ = w.top.data_; pos = w.top.pos + n; varname = w.top.varname };
}

-- `Scanner::echo`.
unfoldable pub echo : ℕ → Work → Work
unfolding rest
echo n w = record (advance n w) { out = w.out ++ take n (rest w) }

-- `Scanner::skip`.
unfoldable pub skip : ℕ → Work → Work
skip n w = advance n w

-- `self.state.start_state = s`.
abbrev pub enter : StartState → Work → Work
enter s w = record w { state = record w.state { start_state = s } }

-- `out.extend_from_slice` of bytes that are not those of the buffer.
abbrev pub push_out : Bytes → Work → Work
push_out bytes w = record w { out = w.out ++ bytes }
