-- ===== src/Review/Tests.antt =====
-- Small histories.
use mathlib.Core.List.{Memᴰ}
use study_assistance_agent.Prelude.{
  find_row, update_rows, ℕ, ◌+◌, ◌-◌, ◌*◌, ◌≤◌, min, String, ◌≡◌, refl, Bool, false, none, some,
  List, [], ◌∷◌, length, count_if, ltb,
}
use study_assistance_agent.Review.{
  write_review, Review, LogRequest, get_interval, is_selected, day_length, date_of, log_review,
  get_due,
}
use study_assistance_agent.Review.Repeats.{run_logs, log_review-repeats}
use study_assistance_agent.Review.Listing.{IsOrdered, IsWanted, AreListed, is_due}
use study_assistance_agent.Review.Due.{get_interval-doubles, get_due_complete}

abbrev request : String → String → LogRequest
request file session = record { file = file; course = "os"; source_session_id = some session }

abbrev entry : String → String → ℕ → Review
entry file session count = record {
  file = file;
  course = "os";
  review_count = count;
  last_reviewed = 0;
  next_review = 0 + get_interval count * day_length;
  interval_days = get_interval count;
  source_session_id = some session;
}

log_review-repeats_example :
    let later = run_logs ((request "b" "s2", 7) ∷ []) (log_review (request "a" "s1") 0 []).1 in
    log_review (request "c" "s1") 9 later ≡ ((log_review (request "a" "s1") 0 []).0, later)
unfolding log_review find_row write_review
log_review-repeats_example =
    log_review-repeats "s1" (request "a" "s1") (request "c" "s1") 0 9 []
      ((request "b" "s2", 7) ∷ []) refl refl ((refl, refl), tt)

-- A session is counted again once another has reviewed its file.
log_review_displaced :
    (log_review
      (request "a" "s1")
      0
      (run_logs ((request "a" "s1", 0) ∷ (request "a" "s2", 0) ∷ []) [])).0.review_count
    ≡ 3
unfolding log_review find_row write_review update_rows
log_review_displaced = refl

get_interval-doubles_example :
    (get_interval 0 ≡ 1)
    × (get_interval 1 ≡ 1)
    × (get_interval (3 + 2) ≡ min (2 * get_interval (3 + 1)) 32)
get_interval-doubles_example = get_interval-doubles 3

abbrev under_none : String → String → Bool
under_none course file = false

abbrev history : List Review
history = entry "a" "s1" 1 ∷ entry "b" "s2" 3 ∷ []

get_due_complete_example :
    let r = get_due under_none none 2 history in
    ((e : Review)
      → Memᴰ e history
      → IsWanted under_none none 2 e
      → date_of e.next_review ≤ 2
      → Memᴰ (record { entry = e; days_overdue = 2 - date_of e.next_review }) r.entries)
    × AreListed under_none none 2 history r.entries
    × (length r.entries ≡ count_if (is_due under_none none 2) history)
    × (r.total_tracked ≡ count_if (is_selected under_none none) history)
    × IsOrdered r.entries
    × (r.overdue ≡ count_if (λ d. ltb 0 d.days_overdue) r.entries)
    × (r.overdue + r.due_today ≡ length r.entries)
    × (length r.entries + r.upcoming ≡ r.total_tracked)
get_due_complete_example = get_due_complete under_none none 2 history
