-- ===== src/Review/Repeats.antt =====
-- One session is logged once: repeated calls of `log_review`.
use study_assistance_agent.Prelude.{
  ℕ, String, str_eq, eq_iff, ◌≡◌, refl, ◌∙◌, inl, inr, true, false, Option, none, some, List, [],
  ◌∷◌, arith, is_some, All, Bool-cases, Option-cases, find_row, update_rows, find_row-append,
}
use study_assistance_agent.Review.{
  Review, LogRequest, session_of, is_of_session, find_by_source_session, has_file, next_entry,
  store_entry, write_review, known_review, log_review,
}

module _ (id : String) (entry : Review) where
  updated :
      (history : List Review)
      → is_of_session id entry ≡ true
      → find_row (is_of_session id) history ≡ none
      → is_some (find_row (has_file entry.file) history) ≡ true
      → find_row (is_of_session id) (update_rows (has_file entry.file) (λ e. entry) history)
        ≡ some entry
  unfolding find_row update_rows
  updated [] is n h = absurd (ground arith)
  updated (x ∷ xs) is n h = ground (arith, updated xs is)

  -- An entry of a session without one is then the first of it.
  stored :
      (history : List Review)
      → is_of_session id entry ≡ true
      → find_row (is_of_session id) history ≡ none
      → find_row (is_of_session id) (store_entry entry history) ≡ some entry
  unfolding store_entry find_row
  stored history is n = elim (Bool-cases (is_some (find_row (has_file entry.file) history))) [
    | inl h ↦ rw h (updated history is n h)
    | inr h ↦ rw (h, find_row-append (is_of_session id) history (entry ∷ []), n, is) refl
  ]

  updated_other :
      (other : Review) (history : List Review)
      → str_eq other.file entry.file ≡ false
      → is_of_session id entry ≡ false
      → find_row (is_of_session id) history ≡ some other
      → find_row (is_of_session id) (update_rows (has_file entry.file) (λ e. entry) history)
        ≡ some other
  unfolding find_row update_rows
  updated_other other [] apart is f = absurd (ground arith)
  updated_other other (x ∷ xs) apart is f = ground (arith, updated_other other xs apart is)

  -- An entry of another file and another session does not change which is the first.
  stored_other :
      (other : Review) (history : List Review)
      → str_eq other.file entry.file ≡ false
      → is_of_session id entry ≡ false
      → find_row (is_of_session id) history ≡ some other
      → find_row (is_of_session id) (store_entry entry history) ≡ some other
  unfolding store_entry
  stored_other other history apart is f =
      elim (Bool-cases (is_some (find_row (has_file entry.file) history))) [
        | inl h ↦ rw h (updated_other other history apart is f)
        | inr h ↦ rw (h, find_row-append (is_of_session id) history (entry ∷ []), f) refl
      ]

-- Calls one after another, each with its time.
abbrev pub run_logs : List (LogRequest × ℕ) → List Review → List Review
run_logs [] history = history
run_logs ((req, now) ∷ rest) history = run_logs rest (log_review req now history).1

-- The request names a session, and another file.
abbrev pub IsOther : String → LogRequest × ℕ → Type 0
IsOther file (req, now) =
    (is_some (session_of req.source_session_id) ≡ true) × (str_eq file req.file ≡ false)

known_review-lem :
    (id : String) (req : LogRequest) (history : List Review)
    → session_of req.source_session_id ≡ some id
    → known_review req history ≡ find_row (is_of_session id) history
unfolding known_review find_by_source_session
known_review-lem id req history s = rw (s, known_review) refl

log_review-existing :
    (req : LogRequest) (now : ℕ) (history : List Review) (e : Review)
    → known_review req history ≡ some e
    → log_review req now history ≡ (e, history)
unfolding log_review
log_review-existing req now history e k = rw (k, log_review) refl

log_review-new :
    (req : LogRequest) (now : ℕ) (history : List Review)
    → known_review req history ≡ none
    → log_review req now history ≡ write_review req now history
unfolding log_review
log_review-new req now history k = rw (k, log_review) refl

-- The entry that is written has the session of the request.
next_entry-session :
    (j id : String) (req : LogRequest) (now : ℕ) (old : Option Review)
    → session_of req.source_session_id ≡ some j
    → is_of_session id (next_entry req now old) ≡ str_eq j id
unfolding next_entry
next_entry-session j id req now old s = ground (arith, s)

-- Of two sessions, one is known and the other is not.
other_session :
    (id j : String) (history : List Review) (entry : Review)
    → find_row (is_of_session j) history ≡ none
    → find_row (is_of_session id) history ≡ some entry
    → str_eq j id ≡ false
other_session id j history entry g f = elim (Bool-cases (str_eq j id)) [
  | inr h ↦ h
  | inl h ↦ let same : j ≡ id = (eq_iff j id).0 h in cc (same, g, f)
]

module _ (id : String) where
  log_review-known :
      (req : LogRequest) (now : ℕ) (history : List Review) (entry : Review)
      → session_of req.source_session_id ≡ some id
      → find_row (is_of_session id) history ≡ some entry
      → log_review req now history ≡ (entry, history)
  log_review-known req now history entry s f =
      log_review-existing req now history entry (known_review-lem id req history s ∙ f)

  -- After a call for the session, the entry returned is the first of the session.
  log_review-finds :
      (req : LogRequest) (now : ℕ) (history : List Review)
      → session_of req.source_session_id ≡ some id
      → find_row (is_of_session id) (log_review req now history).1
        ≡ some (log_review req now history).0
  log_review-finds req now history s = elim (Option-cases (find_row (is_of_session id) history)) [
    | inr (e, f) ↦ rw (log_review-known req now history e s f) f
    | inl n ↦ rw (log_review-new req now history (known_review-lem id req history s ∙ n)) (
        unfold write_review in
        stored id (next_entry req now (find_row (has_file req.file) history)) history
          (next_entry-session id id req now (find_row (has_file req.file) history) s
            ∙ (eq_iff id id).1 refl)
          n)
  ]

  -- A call for another session and another file does not change it.
  log_review-keeps :
      (req : LogRequest) (now : ℕ) (history : List Review) (entry : Review)
      → IsOther entry.file (req, now)
      → find_row (is_of_session id) history ≡ some entry
      → find_row (is_of_session id) (log_review req now history).1 ≡ some entry
  log_review-keeps req now history entry o f =
      elim (Option-cases (session_of req.source_session_id)) [
        | inl n ↦ absurd (ground (arith, n, o.0))
        | inr (j, s) ↦ elim (Option-cases (find_row (is_of_session j) history)) [
          | inr (e, g) ↦
              rw (log_review-existing req now history e (known_review-lem j req history s ∙ g)) f
          | inl g ↦ rw (log_review-new req now history (known_review-lem j req history s ∙ g)) (
              unfold write_review in
              stored_other id (next_entry req now (find_row (has_file req.file) history)) entry
                history (unfold next_entry in o.1)
                (next_entry-session j id req now (find_row (has_file req.file) history) s
                  ∙ other_session id j history entry g f)
                f)
        ]
      ]

  run_logs-keeps :
      (logs : List (LogRequest × ℕ)) (history : List Review) (entry : Review)
      → All (IsOther entry.file) logs
      → find_row (is_of_session id) history ≡ some entry
      → find_row (is_of_session id) (run_logs logs history) ≡ some entry
  run_logs-keeps [] history entry o f = f
  run_logs-keeps ((req, now) ∷ logs) history entry o f =
      run_logs-keeps logs (log_review req now history).1 entry o.1
        (log_review-keeps req now history entry o.0 f)

-- Logging a session twice counts one review. After a call of `log_review` with a session, let any
-- calls follow that name sessions and other files than the entry's. Then a call with the same
-- session, whatever its file, course and time, returns the entry of the first and changes nothing.
pub log_review-repeats :
    (id : String) (req req' : LogRequest) (now now' : ℕ) (history : List Review)
    (logs : List (LogRequest × ℕ))
    → session_of req.source_session_id ≡ some id
    → session_of req'.source_session_id ≡ some id
    → All (IsOther (log_review req now history).0.file) logs
    → let later = run_logs logs (log_review req now history).1 in
      log_review req' now' later ≡ ((log_review req now history).0, later)
log_review-repeats id req req' now now' history logs s s' o =
    log_review-known id req' now' _ _ s'
      (run_logs-keeps id logs _ _ o (log_review-finds id req now history s))
