-- ===== src/Lifecycle/Service/Progress.antt =====
-- `record_progress`: an event is stored once.
use study_assistance_agent.Prelude.{ℕ, String, ◌≡◌, ◌⊎◌, Bool, true, none, find_row, is_some}
use study_assistance_agent.Prelude.Tables.Keys.{at_key}
use study_assistance_agent.Exec.{Result, ok, err, illegal_plan_progress_event, plan_not_found}
use study_assistance_agent.Lifecycle.{PlanProgressRequest, PlanProgressEvent, Store}
use study_assistance_agent.Lifecycle.Service.{get_plan, event_key, event_of}

abbrev is_stored : String → Store → Bool
is_stored id s = is_some (find_row (at_key event_key id) s.progress_events)

-- The kinds of events that are recorded.
abbrev pub IsKnown : String → Type 0
IsKnown event = (event ≡ "completed") ⊎ ((event ≡ "skipped") ⊎ (event ≡ "overdue"))

-- The outcome of one call: refused for its event or for its plan, with nothing stored, or stored.
abbrev pub IsRecorded :
    (String → String) → ℕ → PlanProgressRequest → Store → Result PlanProgressEvent × Store → Type 0
IsRecorded hash now req s r =
    ((IsKnown req.event → ⊥) × (r ≡ (err illegal_plan_progress_event, s)))
    ⊎ ((IsKnown req.event × (get_plan req.plan_id s ≡ none) × (r ≡ (err plan_not_found, s)))
        ⊎ (IsKnown req.event
            × (is_some (get_plan req.plan_id s) ≡ true)
            × (r.0 ≡ ok (event_of hash now req))
            × (is_stored (event_of hash now req).event_id r.1 ≡ true)))
