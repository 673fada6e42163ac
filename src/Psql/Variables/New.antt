-- ===== src/Psql/Variables/New.antt =====
-- crates/rpsql/src/variables.rs: `VariableSpace::new`, and a listing of the variables.
use pgrust_drop.Prelude.{List, [], ◌∷◌, ◌++◌, Option, none, some, Bytes, codes}
use pgrust_drop.Psql.Variables.Parse.{
  BoolField, NumField, EnumField, PromptField, Substitute, Assign,
}
use pgrust_drop.Psql.Variables.Space.{Variable, VariableSpace, set_hooks}
use pgrust_drop.Psql.Variables.Edits.{IsSorted-put}
use pgrust_drop.Psql.Variables.Laws.{IsSpace}

-- A row of the table: a name with its hooks.
pub record Hooks : Type 0 where
  pub name : Bytes
  pub substitute : Option Substitute
  pub assign : Option Assign

abbrev row : Bytes → Option Substitute → Option Assign → Hooks
row name substitute assign = record { name = name; substitute = substitute; assign = assign }

abbrev switch : Bytes → BoolField → Hooks
switch name f = row name (some Substitute.bool) (some (Assign.bool f))

abbrev word : Bytes → Bytes → EnumField → Hooks
word name default f = row name (some (Substitute.default default)) (some (Assign.enum f))

abbrev number : Bytes → Bytes → NumField → Hooks
number name default f = row name (some (Substitute.default default)) (some (Assign.num f))

abbrev prompt : Bytes → PromptField → Hooks
prompt name f = row name none (some (Assign.prompt f))

-- The table of `new`.
unfoldable pub hooks : List Hooks
hooks =
    switch (codes "AUTOCOMMIT") BoolField.autocommit
    ∷ switch (codes "ON_ERROR_STOP") BoolField.on_error_stop
    ∷ switch (codes "QUIET") BoolField.quiet
    ∷ switch (codes "SINGLELINE") BoolField.singleline
    ∷ switch (codes "SINGLESTEP") BoolField.singlestep
    ∷ number (codes "FETCH_COUNT") (codes "0") NumField.fetch_count
    ∷ row (codes "HISTFILE") none (some Assign.accept)
    ∷ number (codes "HISTSIZE") (codes "500") NumField.histsize
    ∷ row (codes "IGNOREEOF") (some Substitute.ignore_eof) (some (Assign.num NumField.ignoreeof))
    ∷ word (codes "ECHO") (codes "none") EnumField.echo
    ∷ row (codes "ECHO_HIDDEN") (some Substitute.bool) (some (Assign.enum EnumField.echo_hidden))
    ∷ row (codes "ON_ERROR_ROLLBACK") (some Substitute.bool)
        (some (Assign.enum EnumField.on_error_rollback))
    ∷ word (codes "COMP_KEYWORD_CASE") (codes "preserve-upper") EnumField.comp_case
    ∷ word (codes "HISTCONTROL") (codes "none") EnumField.histcontrol
    ∷ prompt (codes "PROMPT1") PromptField.prompt1
    ∷ prompt (codes "PROMPT2") PromptField.prompt2
    ∷ prompt (codes "PROMPT3") PromptField.prompt3
    ∷ word (codes "VERBOSITY") (codes "default") EnumField.verbosity
    ∷ switch (codes "SHOW_ALL_RESULTS") BoolField.show_all_results
    ∷ word (codes "SHOW_CONTEXT") (codes "errors") EnumField.show_context
    ∷ switch (codes "HIDE_TOAST_COMPRESSION") BoolField.hide_compression
    ∷ switch (codes "HIDE_TABLEAM") BoolField.hide_tableam
    ∷ row (codes "WATCH_INTERVAL") (some (Substitute.default (codes "2")))
        (some Assign.watch_interval)
    ∷ []

abbrev set_all_hooks : List Hooks → VariableSpace → VariableSpace
set_all_hooks [] s = s
set_all_hooks (h ∷ hs) s = set_all_hooks hs (set_hooks h.name h.substitute h.assign s)

-- `VariableSpace::new`.
unfoldable pub new : VariableSpace
unfolding hooks
new = set_all_hooks hooks (record { entries = [] })

abbrev line_of : Bytes → Option Bytes → Bytes
line_of name none = []
line_of name (some value) = name ++ codes " = '" ++ value ++ codes "'\n"

abbrev print_entries : List Variable → Bytes
print_entries [] = []
print_entries (v ∷ vs) = line_of v.name v.value ++ print_entries vs

-- `print`.
unfoldable pub print : VariableSpace → Bytes
print s = print_entries s.entries

IsSpace-set_all_hooks :
    (hs : List Hooks) (s : VariableSpace) → IsSpace s → IsSpace (set_all_hooks hs s)
unfolding set_hooks
IsSpace-set_all_hooks [] s h = h
IsSpace-set_all_hooks (r ∷ rs) s h =
    IsSpace-set_all_hooks rs (set_hooks r.name r.substitute r.assign s) (IsSorted-put _ s.entries h)

pub IsSpace-new : IsSpace new
unfolding new hooks
IsSpace-new = IsSpace-set_all_hooks hooks (record { entries = [] }) tt
