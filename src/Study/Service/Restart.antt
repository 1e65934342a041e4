-- ===== src/Study/Service/Restart.antt =====
-- The saved records: a server that starts again with an empty memory finds every session as it was.
use mathlib.Core.Option
use study_assistance_agent.Prelude.{
  ℕ, String, str_eq, ◌≡◌, refl, sym, subst, ap, ◌∙◌, ◌⊎◌, inl, inr, Bool, true, false, Option, none,
  some, List, [], arith, if◌then◌else◌, find_row, eq_iff, Bool-cases, Option-cases,
}
use study_assistance_agent.Prelude.Tables.Keys.{at_key, put_row, find_row-put_row, key-find_row}
use study_assistance_agent.Exec.{Result, ok, err, rest_of, ◌>>=◌}
use study_assistance_agent.Study.{Texts, Session}
use study_assistance_agent.Study.Saved.{Codec, Saved, serialize_session, deserialize_session}
use study_assistance_agent.Study.Answers.{Desk, submit_answer}
use study_assistance_agent.Study.Service.{
  World, remember, persist, find_saved, require, finish_submit, submit,
}
use study_assistance_agent.Study.Saved.Lossless.{IsLossless, deserialize-serialize}

-- What a read after a write has found: the row that was written, or what was there.
put_row_found {ℓ} :
    {A : Type ℓ} (key : A → String) (k : String) (a b : A) (xs : List A)
    → find_row (at_key key k) (put_row key a xs) ≡ some b
    → ((str_eq (key a) k ≡ true) × (some a ≡ some b))
      ⊎ ((str_eq (key a) k ≡ false) × (find_row (at_key key k) xs ≡ some b))
put_row_found key k a b xs found =
    let IsFound : Bool → Type _ =
      λ c. (if c then some a else find_row (at_key key k) xs) ≡ some b in
    let read : IsFound (str_eq (key a) k) = sym (find_row-put_row key k a xs) ∙ found in
    elim (Bool-cases (str_eq (key a) k)) [
      | inl h ↦ inl (h, subst IsFound h read)
      | inr h ↦ inr (h, subst IsFound h read)
    ]

-- The memory keeps what the repository has saved.
abbrev pub IsSynced : {D : Type 0} → Codec D → World D → Type 0
IsSynced codec w =
    (id : String) (s : Session)
    → find_row (at_key (λ x. x.session_id) id) w.memory ≡ some s
    → Option.map (deserialize_session codec) (find_saved codec id w) ≡ some s

abbrev pub restart : {D : Type 0} → World D → World D
restart w = record w { memory = [] }

module _ {D : Type 0} (codec : Codec D) (lossless : IsLossless codec) where
  saved_id : (s : Session) → (serialize_session codec s).session_id ≡ s.session_id
  unfolding serialize_session
  saved_id s = refl

  find_saved-persist :
      (s : Session) (rows : List (Saved D)) (w : World D) (id : String)
      → w.repository ≡ some rows
      → find_saved codec id (persist codec s w) ≡ (
          if str_eq s.session_id id
          then some (serialize_session codec s)
          else find_saved codec id w)
  unfolding persist serialize_session
  find_saved-persist s rows w id r =
      rw (r, persist) (find_row-put_row (λ x. x.session_id) id (serialize_session codec s) rows)

  -- A session is remembered and saved together.
  persist-IsSynced :
      (s : Session) (rows : List (Saved D)) (w v : World D)
      → v.repository ≡ some rows
      → v.memory ≡ put_row (λ x. x.session_id) s w.memory
      → w.repository ≡ v.repository
      → IsSynced codec w
      → IsSynced codec (persist codec s v)
  unfolding persist
  persist-IsSynced s rows w v r e u synced id s' found =
      let saved = find_saved-persist s rows v id r in
      let read : Bool → Option (Saved D) =
        λ c. if c then some (serialize_session codec s) else find_saved codec id v in
      elim (put_row_found (λ x. x.session_id) id s s' w.memory
        (sym (ap (λ z. find_row (at_key (λ x. x.session_id) id) z) e) ∙ found)) [
          | inl (h, same) ↦
              ap (Option.map (deserialize_session codec)) (saved ∙ ap read h)
              ∙ ap some (deserialize-serialize codec lossless s)
              ∙ same
          | inr (h, same) ↦
              let kept : find_saved codec id v ≡ find_saved codec id w = cc u in
              ap (Option.map (deserialize_session codec)) (saved ∙ ap read h ∙ kept)
              ∙ synced id s' same
        ]

  none_there : (s : Session) → none ≡ some s → ⊥
  none_there s h = ground arith

  loaded_id : (r : Saved D) → (deserialize_session codec r).session_id ≡ r.session_id
  unfolding deserialize_session
  loaded_id r = refl

  absurd_saved :
      (id : String) (r : Saved D) (w : World D)
      → w.repository ≡ none
      → find_saved codec id w ≡ some r
      → r.session_id ≡ id
  absurd_saved id r w h g = ground arith

  find_saved-id :
      (id : String) (r : Saved D) (w : World D) → find_saved codec id w ≡ some r → r.session_id ≡ id
  find_saved-id id r w g = elim (Option-cases w.repository) [
    | inl none_there ↦ absurd_saved id r w none_there g
    | inr (rows, h) ↦
        key-find_row (λ x. x.session_id) id rows r
          (sym (
              ap
                (λ o. elim o [
                  | none ↦ none
                  | some rs ↦ find_row (at_key (λ (x : Saved D). x.session_id) id) rs
                ])
                h)
            ∙ g)
  ]

  -- A session that is read from the repository is remembered.
  loaded-IsSynced :
      (id : String) (r : Saved D) (w : World D)
      → IsSynced codec w
      → find_saved codec id w ≡ some r
      → IsSynced codec (remember codec (deserialize_session codec r) w)
  loaded-IsSynced id r w synced g id' s found =
      let s0 = deserialize_session codec r in
      elim (put_row_found (λ x. x.session_id) id' s0 s w.memory found) [
        | inl (h, same) ↦
            let asked : id ≡ id' =
              sym (find_saved-id id r w g) ∙ sym (loaded_id r) ∙ (eq_iff s0.session_id id').0 h in
            ap (Option.map (deserialize_session codec))
              (subst (λ k. find_saved codec k w ≡ some r) asked g)
            ∙ same
        | inr (h, same) ↦ synced id' s same
      ]

  require-IsSynced :
      (id : String) (w : World D) → IsSynced codec w → IsSynced codec (require codec id w).1
  unfolding require find_row
  require-IsSynced id w synced =
      elim (Option-cases (find_row (at_key (λ x. x.session_id) id) w.memory)) [
        | inr (s, h) ↦ rw (h, require) synced
        | inl h ↦ elim (Option-cases (find_saved codec id w)) [
          | inl g ↦ rw (h, require, g) synced
          | inr (r, g) ↦ rw (h, require, g) (loaded-IsSynced id r w synced g)
        ]
      ]

  require-repository :
      (id : String) (w : World D) → (require codec id w).1.repository ≡ w.repository
  unfolding require find_row
  require-repository id w =
      elim (Option-cases (find_row (at_key (λ x. x.session_id) id) w.memory)) [
        | inr (s, h) ↦ rw (h, require) refl
        | inl h ↦ elim (Option-cases (find_saved codec id w)) [
          | inl g ↦ rw (h, require, g) refl
          | inr (r, g) ↦ rw (h, require, g) refl
        ]
      ]

  finish-IsSynced :
      (texts : Texts) (x : Result Bool × Desk) (rows : List (Saved D)) (w : World D)
      → w.repository ≡ some rows
      → IsSynced codec w
      → IsSynced codec (finish_submit codec texts x w).1
  finish-IsSynced texts (err c, d) rows w r synced = synced
  finish-IsSynced texts (ok false, d) rows w r synced = synced
  finish-IsSynced texts (ok true, d) rows w r synced =
      persist-IsSynced d.session rows w
        (record (remember codec d.session w) { history = d.history }) r refl refl synced

  answered-IsSynced :
      (texts : Texts) (act : Desk → Result Bool × Desk) (x : Result Session) (rows : List (Saved D))
      (w : World D)
      → w.repository ≡ some rows
      → IsSynced codec w
      → IsSynced codec
          (rest_of
            (λ s v. finish_submit codec texts (act (record { session = s; history = v.history })) v)
            x
            w).1
  answered-IsSynced texts act (err c) rows w r synced = synced
  answered-IsSynced texts act (ok s) rows w r synced =
      finish-IsSynced texts (act (record { session = s; history = w.history })) rows w r synced

  -- A request to a session leaves the memory and the repository in step, whatever its result.
  submit-IsSynced :
      (texts : Texts) (now : ℕ) (id : String) (question_id : Option ℕ) (answer : String)
      (rows : List (Saved D)) (w : World D)
      → w.repository ≡ some rows
      → IsSynced codec w
      → IsSynced codec (submit codec texts now id question_id answer w).1
  unfolding submit ◌>>=◌
  submit-IsSynced texts now id question_id answer rows w r synced =
      answered-IsSynced texts (submit_answer texts now question_id answer) (require codec id w).0
        rows (require codec id w).1 (require-repository id w ∙ r) (require-IsSynced id w synced)

  restart-same :
      (id : String) (w : World D)
      → IsSynced codec w
      → (require codec id (restart w)).0 ≡ (require codec id w).0
  unfolding require find_row
  restart-same id w synced =
      elim (Option-cases (find_row (at_key (λ x. x.session_id) id) w.memory)) [
        | inl h ↦ elim (Option-cases (find_saved codec id w)) [
          | inl g ↦ rw (h, require, g) refl
          | inr (r, g) ↦ rw (h, require, g) refl
        ]
        | inr (s, h) ↦ elim (Option-cases (find_saved codec id w)) [
          | inl g ↦
              absurd
                (none_there s (ap (Option.map (deserialize_session codec)) (sym g) ∙ synced id s h))
          | inr (r, g) ↦
              let same : some (deserialize_session codec r) ≡ some s =
                ap (Option.map (deserialize_session codec)) (sym g) ∙ synced id s h in
              rw (h, require, g) (cc same)
        ]
      ]

  -- A server that starts again, with the repository and an empty memory, gives every request the same
  -- session as the server before, after any request to a session. The conditions are that there is a
  -- repository, that the models' own dumps are lossless, and that the memory and the repository were
  -- in step before the request.
  pub submit-restart :
      (texts : Texts) (now : ℕ) (id : String) (question_id : Option ℕ) (answer : String)
      (rows : List (Saved D)) (w : World D)
      → w.repository ≡ some rows
      → IsSynced codec w
      → (other : String)
      → let w' = (submit codec texts now id question_id answer w).1 in
        (require codec other (restart w')).0 ≡ (require codec other w').0
  submit-restart texts now id question_id answer rows w r synced other =
      restart-same other (submit codec texts now id question_id answer w).1
        (submit-IsSynced texts now id question_id answer rows w r synced)
