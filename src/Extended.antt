-- ===== src/Extended.antt =====
-- crates/rlibpq/src/extended.rs: the extended-query commands as plans, which messages each puts on
-- the wire. Laws is what the plans owe the encoder of the messages and the pipeline.
pub mod Laws
use Prim.Native.String.{String}
use pgrust_drop.Prelude.{
  ℕ, Bool, true, false, not, ◌&&◌, List, [], ◌∷◌, ◌++◌, Option, none, some, map, ◌==◌, ltb,
  if◌then◌else◌, length, Bytes, codes,
}
use pgrust_drop.Prelude.Int.{ℤ, pos}
use pgrust_drop.Message.Frontend.{Frontend, Target}
use pgrust_drop.Pipeline.{QueryClass}

abbrev pub pq_query_param_max_limit : ℕ
pq_query_param_max_limit = 65535

-- `enum Format`.
pub data Format : Type 0 where
  text binary : Format

-- `Format::code`.
abbrev pub code : Format → ℤ
code Format.text = pos 0
code Format.binary = pos 1

-- `struct Params`.
pub record Params : Type 0 where
  pub values : List (Option Bytes)
  pub formats : List Format
  pub result_format : Format

-- `Params::text`.
abbrev pub text_params : List (Option Bytes) → Params
text_params values = record { values = values; formats = []; result_format = Format.text }

-- `enum ArgumentError`.
pub data ArgumentError : Type 0 where
  too_many_parameters : ArgumentError
  length_mismatch : Bytes → ℕ → ℕ → ArgumentError

-- `struct Plan`.
pub record Plan : Type 0 where
  pub messages : List Frontend
  pub class : QueryClass
  pub query : Option Bytes

-- `Result<T, ArgumentError>`.
pub data Checked (A : Type 0) : Type 0 where
  fits : A → Checked A
  refused : ArgumentError → Checked A

infixl 5 ◌>>◌
abbrev pub ◌>>◌ : {A B : Type 0} → Checked A → Checked B → Checked B
fits a >> m = m
refused e >> m = refused e

-- `messages.last() == Some(&Frontend::Sync)`.
unfoldable pub last_is_sync : List Frontend → Bool
last_is_sync [] = false
last_is_sync (Frontend.sync ∷ []) = true
last_is_sync (m ∷ []) = false
last_is_sync (m ∷ n ∷ ms) = last_is_sync (n ∷ ms)

-- `Vec::pop`.
unfoldable pub pop : List Frontend → List Frontend
pop [] = []
pop (m ∷ []) = []
pop (m ∷ n ∷ ms) = m ∷ pop (n ∷ ms)

-- `Plan::without_sync`.
unfoldable pub without_sync : Plan → Plan
without_sync plan =
    if last_is_sync plan.messages then record plan { messages = pop plan.messages } else plan

-- `check_count`.
unfoldable pub check_count : ℕ → Checked Unit
check_count nparams =
    if ltb pq_query_param_max_limit nparams
    then refused ArgumentError.too_many_parameters
    else fits tt

-- `check_array`.
unfoldable pub check_array : Bytes → ℕ → ℕ → Checked Unit
check_array array len nparams =
    if not (len == 0) && not (len == nparams)
    then refused (ArgumentError.length_mismatch array len nparams)
    else fits tt

-- An array that is sent only with parameters.
abbrev pub when_params : {A : Type 0} → ℕ → List A → List A
when_params nparams array = if ltb 0 nparams then array else []

abbrev parse_messages : ℕ → Option (Bytes × List ℕ) → Bytes → List Frontend
parse_messages nparams none statement = []
parse_messages nparams (some (command, param_types)) statement =
    Frontend.parse statement command (when_params nparams param_types) ∷ []

abbrev command_of : Option (Bytes × List ℕ) → Option Bytes
command_of none = none
command_of (some (command, _)) = some command

unfoldable pub guts_plan : Option (Bytes × List ℕ) → Bytes → Params → Plan
guts_plan parsed statement params =
    let nparams = length params.values in
    record {
      messages =
          parse_messages nparams parsed statement
          ++ Frontend.bind [] statement (when_params nparams (map code params.formats))
              params.values (code params.result_format ∷ [])
            ∷ Frontend.describe Target.portal []
            ∷ Frontend.execute [] (pos 0)
            ∷ Frontend.sync
            ∷ [];
      class = QueryClass.extended;
      query = command_of parsed;
    }

-- `query_guts`.
unfoldable pub query_guts : Option (Bytes × List ℕ) → Bytes → Params → Checked Plan
query_guts parsed statement params =
    check_array (codes "paramFormats") (length params.formats) (length params.values)
    >> fits (guts_plan parsed statement params)

-- `query_params`.
unfoldable pub query_params : Bytes → List ℕ → Params → Checked Plan
query_params command param_types params =
    check_count (length params.values)
    >> (check_array (codes "paramTypes") (length param_types) (length params.values)
        >> query_guts (some (command, param_types)) [] params)

-- `query_prepared`.
unfoldable pub query_prepared : Bytes → Params → Checked Plan
query_prepared statement params =
    check_count (length params.values) >> query_guts none statement params

-- `prepare`.
unfoldable pub prepare : Bytes → Bytes → List ℕ → Checked Plan
prepare statement q param_types =
    check_count (length param_types)
    >> fits (record {
      messages = Frontend.parse statement q param_types ∷ Frontend.sync ∷ [];
      class = QueryClass.prepare;
      query = some q;
    })

-- `enum TypedCommand`.
pub data TypedCommand : Type 0 where
  describe close : TypedCommand

-- `typed_command`.
unfoldable pub typed_command : TypedCommand → Target → Bytes → Plan
typed_command TypedCommand.describe target name = record {
  messages = Frontend.describe target name ∷ Frontend.sync ∷ [];
  class = QueryClass.describe;
  query = none;
}
typed_command TypedCommand.close target name = record {
  messages = Frontend.close target name ∷ Frontend.sync ∷ [];
  class = QueryClass.close;
  query = none;
}

-- Any one of the four commands.
pub data Request : Type 0 where
  params : Bytes → List ℕ → Params → Request
  prepared : Bytes → Params → Request
  prepares : Bytes → Bytes → List ℕ → Request
  typed : TypedCommand → Target → Bytes → Request

abbrev pub plan_of : Request → Checked Plan
plan_of (Request.params command types ps) = query_params command types ps
plan_of (Request.prepared statement ps) = query_prepared statement ps
plan_of (Request.prepares statement q types) = prepare statement q types
plan_of (Request.typed command target name) = fits (typed_command command target name)
