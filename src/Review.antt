-- ===== src/Review.antt =====
-- `ReviewSchedulerService` of platform/app/review_scheduler.py without a repository: the history of
-- reviews by file, and the reviews that are due. A time is a number of microseconds, and a date a
-- number of days. The history holds the entries that the service writes, with all their fields.
-- `is_under` is the test whether a file's path starts with `knowledge/`, the course and a slash.
pub mod Repeats
pub mod Listing
pub mod Due
mod Tests
use study_assistance_agent.Prelude.{
  ℕ, zero, suc, ◌+◌, ◌-◌, ◌*◌, ◌/◌, min, String, str_eq, Bool, true, false, not, ◌&&◌, ◌||◌, Option,
  none, some, List, [], ◌∷◌, ◌++◌, if◌then◌else◌, ltb, leb, ◌==◌, is_some, length, count_if,
  find_row, update_rows, order_by,
}

pub record Review : Type 0 where
  pub file : String
  pub course : String
  pub review_count : ℕ
  pub last_reviewed : ℕ
  pub next_review : ℕ
  pub interval_days : ℕ
  pub source_session_id : Option String

pub record LogRequest : Type 0 where
  pub file : String
  pub course : String
  pub source_session_id : Option String

abbrev pub day_length : ℕ
day_length = 86400000000

abbrev pub interval_sequence : List ℕ
interval_sequence = 1 ∷ 2 ∷ 4 ∷ 8 ∷ 16 ∷ 32 ∷ []

abbrev pub at_index : ℕ → List ℕ → ℕ
at_index i [] = 0
at_index zero (x ∷ xs) = x
at_index (suc i) (x ∷ xs) = at_index i xs

-- Subtraction stops at 0, as `max(idx, 0)` does.
unfoldable pub get_interval : ℕ → ℕ
get_interval review_count = at_index (min (review_count - 1) 5) interval_sequence

-- An id that is given and not empty.
abbrev pub session_of : Option String → Option String
session_of none = none
session_of (some id) = if str_eq id "" then none else some id

abbrev pub is_of_session : String → Review → Bool
is_of_session id e = elim e.source_session_id [ none ↦ false | some s ↦ str_eq s id ]

unfoldable pub find_by_source_session : String → List Review → Option Review
find_by_source_session id history = find_row (is_of_session id) history

abbrev pub has_file : String → Review → Bool
has_file file e = str_eq e.file file

-- The entry of the request, its count raised, or a new one; then its next review.
unfoldable pub next_entry : LogRequest → ℕ → Option Review → Review
unfolding get_interval
next_entry req now old =
    let count : ℕ = elim old [ none ↦ 1 | some e ↦ e.review_count + 1 ] in
    record {
      file = req.file;
      course = elim old [ none ↦ req.course | some e ↦ e.course ];
      review_count = count;
      last_reviewed = now;
      next_review = now + get_interval count * day_length;
      interval_days = get_interval count;
      source_session_id = elim (session_of req.source_session_id) [
        | some id ↦ some id
        | none ↦ elim old [ none ↦ none | some e ↦ e.source_session_id ]
      ];
    }

-- `history[file_key] = entry`
unfoldable pub store_entry : Review → List Review → List Review
store_entry entry history =
    if is_some (find_row (has_file entry.file) history)
    then update_rows (has_file entry.file) (λ e. entry) history
    else history ++ entry ∷ []

unfoldable pub write_review : LogRequest → ℕ → List Review → Review × List Review
unfolding next_entry store_entry
write_review req now history =
    let entry = next_entry req now (find_row (has_file req.file) history) in
    (entry, store_entry entry history)

-- The session that the request names, if an entry has it already.
unfoldable pub known_review : LogRequest → List Review → Option Review
unfolding find_by_source_session
known_review req history = elim (session_of req.source_session_id) [
  | none ↦ none
  | some id ↦ find_by_source_session id history
]

-- The entry that the result is made of, and the history.
unfoldable pub log_review : LogRequest → ℕ → List Review → Review × List Review
unfolding known_review
log_review req now history = elim (known_review req history) [
  | some existing ↦ (existing, history)
  | none ↦ write_review req now history
]

-- An entry with the days that it is overdue, where it is due.
pub record DueEntry : Type 0 where
  pub entry : Review
  pub days_overdue : ℕ

pub record DueReport : Type 0 where
  pub entries : List DueEntry
  pub total_tracked : ℕ
  pub overdue : ℕ
  pub due_today : ℕ
  pub upcoming : ℕ

abbrev pub date_of : ℕ → ℕ
date_of t = t / day_length

module _ (is_under : String → String → Bool) where
  -- Does the loop of `get_due` keep the entry?
  unfoldable pub is_selected : Option String → Review → Bool
  is_selected none e = true
  is_selected (some course) e =
      str_eq course "" || (str_eq e.course course || is_under course e.file)

  -- The loop: the entries that are due, and the number of all.
  unfoldable pub collect_due : Option String → ℕ → List Review → List DueEntry × ℕ
  unfolding is_selected
  collect_due course today [] = ([], 0)
  collect_due course today (e ∷ es) =
      let rest = collect_due course today es in
      if not (is_selected course e)
      then rest
      else if leb (date_of e.next_review) today
      then (record { entry = e; days_overdue = today - date_of e.next_review } ∷ rest.0, suc rest.1)
      else (rest.0, suc rest.1)

  unfoldable pub get_due : Option String → ℕ → List Review → DueReport
  unfolding collect_due
  get_due course today history =
      let (due, tracked) = collect_due course today history in
      let entries = order_by (λ a b. leb b.days_overdue a.days_overdue) due in
      record {
        entries = entries;
        total_tracked = tracked;
        overdue = count_if (λ d. ltb 0 d.days_overdue) entries;
        due_today = count_if (λ d. d.days_overdue == 0) entries;
        upcoming = tracked - length entries;
      }
