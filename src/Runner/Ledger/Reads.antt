-- ===== src/Runner/Ledger/Reads.antt =====
-- What the reads of the ledger return after its writes.
use mathlib.Core.Option
use study_assistance_agent.Prelude.{
  String, str_eq, eq_iff, ◌≡◌, refl, sym, subst, Bool, Option, some, List, [], ◌∷◌, ◌++◌, map,
  arith, if◌then◌else◌, select, select-append,
}
use study_assistance_agent.Prelude.Tables.Keys.{find_row-update_rows, key-find_row}
use study_assistance_agent.Runner.Effects.{EffectState}
use study_assistance_agent.Runner.Ledger.{
  Ledger, EffectRow, Event, find_effect, events, append_event, move_to, write_transition,
}

abbrev pub id_of : EffectRow → String
id_of row = row.effect.effect_id

abbrev pub key_of : EffectRow → String
key_of row = row.effect.idempotency_key

-- A row that is found is found under its own id.
pub id_of-find_effect :
    (id : String) (row : EffectRow) (db : Ledger) → find_effect id db ≡ some row → id_of row ≡ id
unfolding find_effect
id_of-find_effect id row db h = key-find_row id_of id db.effects row h

pub find_effect-id_of :
    (id : String) (row : EffectRow) (db : Ledger)
    → find_effect id db ≡ some row
    → find_effect (id_of row) db ≡ some row
find_effect-id_of id row db h =
    subst (λ k. find_effect k db ≡ some row) (sym (id_of-find_effect id row db h)) h

pub map-if_append {ℓ} :
    {A : Type ℓ} {B : Type ℓ} (f : A → B) (xs : List A) (x : A) (b : Bool)
    → map f (xs ++ (if b then x ∷ [] else [])) ≡ (if b then map f xs ++ f x ∷ [] else map f xs)
map-if_append f [] x b = ground arith
map-if_append f (y ∷ ys) x b = ground (arith, map-if_append f ys x b)

pub events-append_event :
    (k id : String) (s : Option EffectState) (t : EffectState) (db : Ledger)
    → events k (append_event id s t db)
      ≡ (if str_eq id k then events k db ++ (s, t) ∷ [] else events k db)
unfolding events append_event select
events-append_event k id s t db = rw select-append (
    map-if_append (λ (e : Event). (e.from_state, e.to_state))
      (select (λ (e : Event). str_eq e.effect_id k) db.events)
      (record { effect_id = id; from_state = s; to_state = t }) (str_eq id k))

module _ (k : String) (row : EffectRow) (t : EffectState) (d : Option String) (db : Ledger) where
  pub find_effect-write_transition : find_effect k (write_transition row t d db) ≡ (
      if str_eq (id_of row) k
      then Option.map (move_to t d) (find_effect k db)
      else find_effect k db)
  unfolding find_effect write_transition move_to
  find_effect-write_transition =
      find_row-update_rows id_of k (id_of row) (move_to t d) db.effects (λ x. refl)

  pub events-write_transition : events k (write_transition row t d db) ≡ (
      if str_eq (id_of row) k then events k db ++ (some row.effect.state, t) ∷ [] else events k db)
  unfolding write_transition events append_event
  events-write_transition = events-append_event k (id_of row) (some row.effect.state) t db

  -- The row that a transition has moved is read back under its id.
  pub find_effect-moved :
      find_effect k db ≡ some row
      → find_effect k (write_transition row t d db) ≡ some (move_to t d row)
  find_effect-moved e =
      ground
        (arith, find_effect-write_transition, id_of-find_effect k row db e, eq_iff (id_of row) k, e)
