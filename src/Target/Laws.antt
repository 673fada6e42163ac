-- ===== src/Target/Laws.antt =====
-- The check of crates/rlibpq/src/target.rs against what the server is, and the queries it asks.
use pgrust_drop.Prelude.{
  Bool, true, false, not, ◌&&◌, ◌||◌, Option, some, leb, ◌≡◌, ◌≢◌, ◌↔◌, inl, inr, arith,
  Option-cases, Bytes, codes,
}
use pgrust_drop.QueryResult.{QueryResult}
use pgrust_drop.Hosts.{TargetServerType}
use pgrust_drop.Target.{
  PgBool, ServerState, CheckQuery, TargetCheck, answer_value, yes_when, note_answer, answer,
  check_target, check_session, check_hot_standby, hot_standby_of, is_yes, starts_with,
}

-- What asks nothing more.
abbrev is_decided : TargetCheck → Bool
is_decided TargetCheck.accept = true
is_decided (TargetCheck.ask q) = false
is_decided (TargetCheck.reject r) = true

abbrev pub Decides : TargetCheck → Type 0
Decides check = is_decided check ≡ true

session-Decides :
    (target : TargetServerType) (state : ServerState) (on : Bool)
    → Decides (
        check_session target (record state {
          default_transaction_read_only = yes_when on;
          in_hot_standby = yes_when on;
        }))
session-Decides TargetServerType.read_write state true = ground arith
session-Decides TargetServerType.read_only state true = ground arith
session-Decides TargetServerType.any state true = ground arith
session-Decides TargetServerType.primary state true = ground arith
session-Decides TargetServerType.standby state true = ground arith
session-Decides TargetServerType.prefer_standby state true = ground arith
session-Decides TargetServerType.read_write state false = ground arith
session-Decides TargetServerType.read_only state false = ground arith
session-Decides TargetServerType.any state false = ground arith
session-Decides TargetServerType.primary state false = ground arith
session-Decides TargetServerType.standby state false = ground arith
session-Decides TargetServerType.prefer_standby state false = ground arith

standby-Decides :
    (target : TargetServerType) (state : ServerState) (on : Bool)
    → Decides
        (check_hot_standby target (hot_standby_of (record state { in_hot_standby = yes_when on })))
standby-Decides target state true = ground arith
standby-Decides target state false = ground arith

session_asks :
    (target : TargetServerType) (state : ServerState) {q : CheckQuery}
    → check_session target state ≡ TargetCheck.ask q
    → q ≡ CheckQuery.transaction_read_only
session_asks target state h = ground arith

standby_asks :
    (target : TargetServerType) (b : PgBool) {q : CheckQuery}
    → check_hot_standby target b ≡ TargetCheck.ask q
    → q ≡ CheckQuery.is_in_recovery
standby_asks target b h = ground arith

note_answer-Decides :
    (target : TargetServerType) (second_pass : Bool) (state : ServerState) (q : CheckQuery)
    (value : Bytes)
    → check_target target second_pass state ≡ TargetCheck.ask q
    → Decides (check_target target second_pass (note_answer q value state))
unfolding check_target
note_answer-Decides TargetServerType.any second_pass state q value h = ground arith
note_answer-Decides TargetServerType.read_write second_pass state q value h =
    rw (session_asks TargetServerType.read_write state h)
      (session-Decides TargetServerType.read_write state (starts_with value (codes "on")))
note_answer-Decides TargetServerType.read_only second_pass state q value h =
    rw (session_asks TargetServerType.read_only state h)
      (session-Decides TargetServerType.read_only state (starts_with value (codes "on")))
note_answer-Decides TargetServerType.primary second_pass state q value h =
    rw (standby_asks TargetServerType.primary (hot_standby_of state) h)
      (standby-Decides TargetServerType.primary state (starts_with value (codes "t")))
note_answer-Decides TargetServerType.standby second_pass state q value h =
    rw (standby_asks TargetServerType.standby (hot_standby_of state) h)
      (standby-Decides TargetServerType.standby state (starts_with value (codes "t")))
note_answer-Decides TargetServerType.prefer_standby true state q value h = ground arith
note_answer-Decides TargetServerType.prefer_standby false state q value h =
    rw (standby_asks TargetServerType.prefer_standby (hot_standby_of state) h)
      (standby-Decides TargetServerType.prefer_standby state (starts_with value (codes "t")))

-- A server is asked at most once: with the answer to the query that the check asked for, the same
-- check accepts the server or rejects it.
pub answer-Decides :
    (target : TargetServerType) (second_pass : Bool) (result : Option QueryResult)
    (state : ServerState) {state' : ServerState} {q : CheckQuery}
    → check_target target second_pass state ≡ TargetCheck.ask q
    → answer q result state ≡ some state'
    → Decides (check_target target second_pass state')
unfolding answer
answer-Decides target second_pass result state {state'} {q} h a =
    elim (Option-cases (answer_value result)) [
      | inl e ↦ absurd (ground arith)
      | inr (value, e) ↦
          let same : state' ≡ note_answer q value state = ground arith in
          rw same (note_answer-Decides target second_pass state q value h)
    ]

-- The servers that each value of `target_session_attrs` settles for, by whether their sessions are
-- read-only and whether they are in hot standby.
unfoldable pub wanted : TargetServerType → Bool → Bool → Bool → Bool
wanted TargetServerType.any second_pass read_only standby = true
wanted TargetServerType.read_write second_pass read_only standby = not read_only
wanted TargetServerType.read_only second_pass read_only standby = read_only
wanted TargetServerType.primary second_pass read_only standby = not standby
wanted TargetServerType.standby second_pass read_only standby = standby
wanted TargetServerType.prefer_standby second_pass read_only standby = second_pass || standby

abbrev pub IsKnown : ServerState → Type 0
IsKnown state =
    (state.default_transaction_read_only ≢ PgBool.unknown) × (state.in_hot_standby ≢ PgBool.unknown)

unfoldable pub settles : TargetServerType → Bool → ServerState → Bool
settles target second_pass state =
    wanted target second_pass
      (is_yes state.default_transaction_read_only || is_yes state.in_hot_standby)
      (leb 90000 state.sversion && is_yes state.in_hot_standby)

-- With nothing left unknown, a server is accepted exactly when it is wanted: one that is read-only
-- when either of its two settings says so, and in hot standby when it says so and is 9.0 or later.
pub check_target-settles :
    (target : TargetServerType) (second_pass : Bool) (state : ServerState)
    → IsKnown state
    → (check_target target second_pass state ≡ TargetCheck.accept)
      ↔ (settles target second_pass state ≡ true)
unfolding check_target wanted settles
check_target-settles TargetServerType.any second_pass state (k, l) = ground arith
check_target-settles TargetServerType.read_write second_pass state (k, l) = ground arith
check_target-settles TargetServerType.read_only second_pass state (k, l) = ground arith
check_target-settles TargetServerType.primary second_pass state (k, l) = ground arith
check_target-settles TargetServerType.standby second_pass state (k, l) = ground arith
check_target-settles TargetServerType.prefer_standby second_pass state (k, l) = ground arith
