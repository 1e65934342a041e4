-- ===== src/Lib.antt =====
-- A verification library for the learning agent: its autonomous runner and job envelope, its study
-- sessions, its plans and their life cycle, and its review scheduler.
--
-- The runner (platform/app/runner_*.py, effect_ledger.py) performs effects, which are calls of
-- tools that write. An executor takes each effect through an authority, which decides whether it
-- may be written, and through a ledger, which records every step, to the write in the domain. A
-- crash may stop it at any boundary. A job envelope (platform/app/job_envelope.py) runs the steps of
-- a job under budgets. Study sessions (platform/app/study_session.py) put questions about a topic and
-- log a review in the schedule (platform/app/review_scheduler.py) when they are completed. The life
-- cycle of goal plans (platform/app/plan_lifecycle.py) reads the overdue files of the same schedule.
-- The review plans (platform/app/review_plan.py) stand alone.
--
-- - Exec: a method as an action on a state that may raise one of the codes; what was written
--   before the raise stays. `do` blocks follow the statements of the source.
-- - Prelude: library names, Boolean tests, lists; Prelude/Tables: SQL statements on lists of rows.
-- - Runner/Effects, Runner/Authority: platform/app/runner_authority.py. The JSON text and SHA-256
--   are parameters (`Digests`): no property assumes anything of them.
-- - Runner/Ledger: `EffectLedgerStore` of platform/app/effect_ledger.py, one definition for each
--   method under the method's name, with Checkpoints and Retention beside it. A method whose
--   `with` block raises leaves the tables as they were. The other children prove.
-- - Runner/Outcome, Runner/Recovery: `RunnerJobExecutor` of platform/app/runner_recovery.py. The
--   crash hook is a function from a crash point to the error raised there, so it stands for
--   injected crashes and for the kill switch of platform/app/runner_service.py alike; the domain
--   write is a function on an abstract state of the domain, which may fail and yet change it.
-- - Runner/Recovery/Resume: its `resume_job`, `cancel_job` and poison threshold; the callers' answers
--   are functions of the effect.
-- - Runner/Reconcile: `Reconciler` of platform/app/effect_reconcile.py.
-- - Planner: `GoalPlannerService` of platform/app/goal_planner.py, whose plans the life cycle stores.
--   Planner/Order is `_kahn` and its callers, one round of the loop for each task; Planner/Pinning is
--   `_pin_required`, `_ai_order` and `_prerequisite_report`. The closure of the required topics runs
--   on fuel, one round for each task, which is enough since a file is put on the stack once. The loop
--   after the window of days runs on fuel, one round for each task that is left, which is enough since
--   every day takes a task. The graph and the model's proposal are parameters.
-- - Filling: the loop that fills a day, which the two planners share.
-- - Plan: `ReviewPlanService` of platform/app/review_plan.py.
-- - Job: `JobEnvelope`, `SyntheticJobRunner`, `JobBudget` and `ConcurrencyGate` of
--   platform/app/job_envelope.py. The steps, the guard and the clocks are functions of the world.
-- - Runner/Service: the kill switch of `RunnerService` of platform/app/runner_service.py, which its
--   writes reach through the crash hook and its jobs through the guard, and its status.
-- - Study: `StudySessionService` of platform/app/study_session.py. Study/Grader, Hints and Selection
--   are its pure helpers; Study/Answers is `submit_answer` on the session's object and the review
--   history; Study/Service is the service around it, with the memory and the repository; Study/Saved
--   and Study/Responses are the records that it stores and shows. The QA and the quiz service, and the
--   library's treatment of texts, are parameters.
-- - Lifecycle: `PlanLifecycleService` of platform/app/plan_lifecycle.py on the tables of
--   platform/app/learning_store.py. The planner and the hash of event ids are parameters.
-- - Review: `ReviewSchedulerService` of platform/app/review_scheduler.py with the history in JSON.
--
-- All other loops are structural recursion on a list or a number. Times are numbers:
-- microseconds for the ledger and the reviews, days for the plans.
--
-- Not modelled: SQLite itself, the locks (a method is one step), texts for people, floating point,
-- retrieval and vector stores, the sources, the content pipeline, the web service and the tools.
pub mod Prelude
pub mod Exec
pub mod Runner
pub mod Lifecycle
pub mod Filling
pub mod Plan
pub mod Planner
pub mod Review
pub mod Job
pub mod Study
