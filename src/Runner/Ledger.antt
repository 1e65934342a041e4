-- ===== src/Runner/Ledger.antt =====
-- `EffectLedgerStore` of platform/app/effect_ledger.py: the tables of its database and the methods
-- on jobs and effects. A method is an action on the tables; a raise inside its `with` block rolls
-- the block back. The store's lock makes each method one step. A time is the microseconds of the
-- UTC clock, whose ISO texts sort as the numbers do; the columns that nothing reads back
-- (`updated_at`, `recorded_at`, a checkpoint's `created_at`) are left out.
pub mod Checkpoints
pub mod Retention
pub mod Reads
pub mod Trail
pub mod Soundness
pub mod Purging
pub mod Blocking
pub mod Operations
pub mod Steps
pub mod Replays
pub mod Latest
pub mod Called
pub mod Queues
pub mod Moves
mod Tests
use Prim.Native.String.{compare}
use text.Mathlib.Text.{is_le}
use study_assistance_agent.Prelude.{
  ℕ, ◌<◌, String, str_eq, Bool, true, false, not, ◌&&◌, ◌||◌, Option, none, some, List, [], ◌∷◌,
  ◌++◌, map, ltb, ◌==◌, if◌then◌else◌, is_some, or_else, find_row, select, update_rows, order_by,
}
use study_assistance_agent.Exec.{
  Exec, ok, err, pure, raise, lift, gets, ◌>>=◌, ◌>>◌, job_duplicate, job_unknown,
  idempotency_conflict, effect_duplicate, effect_unknown, integrity_error,
}
use study_assistance_agent.Runner.Effects.{
  EffectState, proposed, authorized, pending, applied, failed, compensated, is_terminal, is_pending,
  assert_transition_allowed,
}

-- A row of `runner_jobs`.
pub record Job : Type 0 where
  pub job_id : String
  pub scope_id : String
  pub learner_id : String
  pub state : String
  pub created_at : ℕ

pub record EffectRecord : Type 0 where
  pub effect_id : String
  pub job_id : String
  pub tool_name : String
  pub argument_digest : String
  pub idempotency_key : String
  pub state : EffectState
  pub result_digest : Option String

-- A row of `effect_ledger`; `_record_from_row` reads its `effect`.
pub record EffectRow : Type 0 where
  pub effect : EffectRecord
  pub created_at : ℕ

-- A row of `effect_events`.
pub record Event : Type 0 where
  pub effect_id : String
  pub from_state : Option EffectState
  pub to_state : EffectState

-- A row of `job_checkpoints`.
pub record Checkpoint : Type 0 where
  pub checkpoint_id : String
  pub job_id : String
  pub seq : ℕ
  pub stage : String
  pub input_digest : String
  pub state_digest : String

-- A row of `reconcile_attempts`.
pub record Attempt : Type 0 where
  pub effect_id : String
  pub outcome : String

pub record Ledger : Type 0 where
  pub jobs : List Job
  pub effects : List EffectRow
  pub events : List Event
  pub checkpoints : List Checkpoint
  pub attempts : List Attempt

abbrev pub empty_ledger : Ledger
empty_ledger = record { jobs = []; effects = []; events = []; checkpoints = []; attempts = [] }

unfoldable pub find_job : String → Ledger → Option Job
unfolding find_row
find_job id db = find_row (λ j. str_eq j.job_id id) db.jobs

unfoldable pub create_job : String → String → String → ℕ → Exec Ledger (Unit {0})
create_job id scope_id learner_id now db =
    if is_some (find_job id db) then (err job_duplicate, db) else (
      ok tt,
      record db {
        jobs =
            db.jobs
            ++ record {
              job_id = id;
              scope_id = scope_id;
              learner_id = learner_id;
              state = "created";
              created_at = now;
            }
              ∷ [];
      },
    )

unfoldable pub set_job_state : String → String → Exec Ledger (Unit {0})
set_job_state id state db =
    if is_some (find_job id db)
    then (
      ok tt,
      record db {
        jobs = update_rows (λ j. str_eq j.job_id id) (λ j. record j { state = state }) db.jobs;
      },
    )
    else (err job_unknown, db)

unfoldable pub get_job_state : String → Ledger → Option String
get_job_state id db = elim (find_job id db) [ none ↦ none | some j ↦ some j.state ]

abbrev pub has_id : String → EffectRow → Bool
has_id id row = str_eq row.effect.effect_id id

abbrev pub has_key : String → EffectRow → Bool
has_key key row = str_eq row.effect.idempotency_key key

unfoldable pub find_effect : String → Ledger → Option EffectRow
find_effect id db = find_row (has_id id) db.effects

unfoldable pub find_key : String → Ledger → Option EffectRow
find_key key db = find_row (has_key key) db.effects

abbrev pub record_of : Option EffectRow → Option EffectRecord
record_of none = none
record_of (some row) = some row.effect

unfoldable pub get_effect : String → Ledger → Option EffectRecord
unfolding find_effect
get_effect id db = record_of (find_effect id db)

unfoldable pub find_by_idempotency_key : String → Ledger → Option EffectRecord
unfolding find_key
find_by_idempotency_key key db = record_of (find_key key db)

unfoldable pub append_event : String → Option EffectState → EffectState → Ledger → Ledger
append_event id from_state to_state db = record db {
  events =
      db.events ++ record { effect_id = id; from_state = from_state; to_state = to_state } ∷ [];
}

-- The insertion fails on a known effect id and, since foreign keys are on, on an unknown job. The
-- key is not in the table.
pub insert_effect : EffectRecord → ℕ → Exec Ledger EffectRecord
unfolding append_event
insert_effect e now db =
    if is_some (find_effect e.effect_id db) || not (is_some (find_job e.job_id db))
    then (err effect_duplicate, db)
    else (
      ok e,
      append_event e.effect_id none proposed
          (record db { effects = db.effects ++ record { effect = e; created_at = now } ∷ [] }),
    )

-- The call's key has a row: a replay, or a conflict.
pub replay_effect : String → String → EffectRecord → Exec Ledger EffectRecord
replay_effect tool_name argument_digest existing db =
    if not (str_eq existing.argument_digest argument_digest)
      || not (str_eq existing.tool_name tool_name)
    then (err idempotency_conflict, db)
    else (ok existing, db)

unfoldable pub begin_effect :
    String → String → String → String → String → ℕ → Exec Ledger EffectRecord
unfolding insert_effect replay_effect
begin_effect id job_id tool_name argument_digest key now db = elim (find_key key db) [
  | some row ↦ replay_effect tool_name argument_digest row.effect db
  | none ↦
      insert_effect
        (record {
          effect_id = id;
          job_id = job_id;
          tool_name = tool_name;
          argument_digest = argument_digest;
          idempotency_key = key;
          state = proposed;
          result_digest = none;
        })
        now db
]

-- `SET state = ?, result_digest = COALESCE(?, result_digest)`
unfoldable pub move_to : EffectState → Option String → EffectRow → EffectRow
move_to target result_digest row = record row {
  effect = record row.effect {
    state = target;
    result_digest = elim result_digest [ none ↦ row.effect.result_digest | some d ↦ some d ];
  };
}

-- The writes of `transition`, once the step is known to be legal.
unfoldable pub write_transition : EffectRow → EffectState → Option String → Ledger → Ledger
unfolding append_event
write_transition row target result_digest db =
    append_event row.effect.effect_id (some row.effect.state) target (record db {
      effects = update_rows (has_id row.effect.effect_id) (move_to target result_digest) db.effects;
    })

unfoldable pub transition : String → EffectState → Option String → Exec Ledger EffectRecord
unfolding write_transition
transition id target result_digest db = elim (find_effect id db) [
  | none ↦ (err effect_unknown, db)
  | some row ↦ elim (assert_transition_allowed row.effect.state target) [
    | err code ↦ (err code, db)
    | ok _ ↦
        (ok (move_to target result_digest row).effect, write_transition row target result_digest db)
  ]
]

unfoldable pub authorize_effect : String → Exec Ledger EffectRecord
authorize_effect id = transition id authorized none

unfoldable pub mark_pending : String → Exec Ledger EffectRecord
mark_pending id = transition id pending none

unfoldable pub mark_applied : String → String → Exec Ledger EffectRecord
mark_applied id result_digest = transition id applied (some result_digest)

unfoldable pub mark_failed : String → Exec Ledger EffectRecord
mark_failed id = transition id failed none

unfoldable pub mark_compensated : String → Exec Ledger EffectRecord
mark_compensated id = transition id compensated none

-- Foreign keys are on, so an unknown effect is refused by the database itself.
unfoldable pub record_reconcile_attempt : String → String → Exec Ledger (Unit {0})
record_reconcile_attempt id outcome db =
    if is_some (find_effect id db)
    then (
      ok tt,
      record db { attempts = db.attempts ++ record { effect_id = id; outcome = outcome } ∷ [] },
    )
    else (err integrity_error, db)

unfoldable pub reconcile_attempts : String → Ledger → List String
reconcile_attempts id db = map (λ a. a.outcome) (select (λ a. str_eq a.effect_id id) db.attempts)

-- `ORDER BY created_at, effect_id`
unfoldable pub before : EffectRow → EffectRow → Bool
before a b =
    if a.created_at == b.created_at
    then is_le (compare a.effect.effect_id b.effect.effect_id)
    else ltb a.created_at b.created_at

unfoldable pub effects_where : (EffectRecord → Bool) → Ledger → List EffectRecord
unfolding before
effects_where p db =
    map (λ row. row.effect) (order_by before (select (λ row. p row.effect) db.effects))

unfoldable pub all_effects : String → Ledger → List EffectRecord
all_effects id = effects_where (λ e. str_eq e.job_id id)

unfoldable pub pending_effects : Ledger → List EffectRecord
pending_effects = effects_where (λ e. is_pending e.state)

unfoldable pub unfinished_effects : Ledger → List EffectRecord
unfinished_effects = effects_where (λ e. not (is_terminal e.state))

unfoldable pub events : String → Ledger → List (Option EffectState × EffectState)
events id db = map (λ e. (e.from_state, e.to_state)) (select (λ e. str_eq e.effect_id id) db.events)
