-- ===== src/Collab/Store/Race.antt =====
-- Calls of aigenora/collab/store.py that overlap: `transition` reads the row, by which it passes its
-- guards, and updates it in another statement, which does not look at the state again; `append_event`
-- reads the largest id and inserts the row in another statement. The other call runs in between.
use aigenora.Prelude.{
  ℕ, ◌+◌, String, ◌≡◌, refl, Bool, true, false, Option, some, List, [], ◌∷◌, ◌++◌, Result, ok, err,
  ap, arith, eq_iff,
}
use aigenora.Prelude.Exec.{pure, ◌>>=◌}
use aigenora.Collab.Store.Laws.{find-append}
use aigenora.Collab.Store.Tables.{find, select, max_event_id, event_has_id, event_has_key}
use aigenora.Collab.Store.Numbering.{events_of, appended, fresh_above, append_event_total}
use aigenora.Collab.Store.Rows.{Task, EventRow, Update}
use aigenora.Collab.Store.States.{TaskState, contains, targets, state_eq}
use aigenora.Collab.Store.Transitions.{
  row, moved, apply_transition_lem, row-update_self, transition-apply, moved_columns,
  transition_legal,
}
use aigenora.Collab.Store.{
  Store, StoreError, Action, transition, apply_transition, append_event, insert_event, now_ms,
  integrity_error,
}

-- The first call has passed its guards: from there on it is `apply_transition`.
abbrev pub Passes :
    String → String → Store → TaskState → Option String → String → List Update → Type 0
Passes source id s new kind summary extra =
    (allow_same : Bool)
    → transition source id new kind summary extra allow_same s
      ≡ apply_transition source id new kind summary extra s

module _ (source id : String) (s : Store) (new : TaskState) (kind : Option String)
    (summary : String) (extra : List Update) where
  late_update :
      (t : Task)
      → row source id s ≡ some t
      → (t' : Task) × (row source id (apply_transition source id new kind summary extra s).1
          ≡ some t')
        × (t'.state ≡ new)
  late_update t h =
      let (returned, tasks) = apply_transition_lem source id s new kind summary extra t h in
      (
        moved source id s new kind summary extra t,
        rw tasks (row-update_self source id s new kind summary extra t h),
        (moved_columns source id s new kind summary extra t).0,
      )

-- Where the state of a task has an edge to each of two states, and a call of transition to the second
-- one has passed its guards, a call to the first one may run before the UPDATE: the task then stands in
-- the first state, and after the UPDATE in the second, whether or not there is an edge between them.
pub transition_race :
    (source id : String) (s : Store) (t : Task) (first second : TaskState)
    (kind kind' : Option String) (summary summary' : String) (extra extra' : List Update)
    (allow_same : Bool)
    → row source id s ≡ some t
    → state_eq t.state first ≡ false
    → contains (targets t.state) first ≡ true
    → state_eq t.state second ≡ false
    → contains (targets t.state) second ≡ true
    → let s' = (transition source id first kind summary extra allow_same s).1 in
      let s'' = (apply_transition source id second kind' summary' extra' s').1 in
      Passes source id s second kind' summary' extra'
      × ((u : Task) × (row source id s' ≡ some u) × (u.state ≡ first))
      × ((v : Task) × (row source id s'' ≡ some v) × (v.state ≡ second))
transition_race source id s t first second kind kind' summary summary' extra extra' allow_same h ne
      edge ne' edge' =
    let (returned, there, state, revision, others) =
      transition_legal source id s first kind summary extra t allow_same h ne edge in
    let after : Store = (transition source id first kind summary extra allow_same s).1 in
    (
      λ allow. transition-apply source id s second kind' summary' extra' t allow h ne' edge',
      (moved source id s first kind summary extra t, there, state),
      late_update source id after second kind' summary' extra'
          (moved source id s first kind summary extra t) there,
    )

-- What is left of a call of `append_event` that has read the rows of a ledger.
abbrev pub append_behind : String → String → String → String → Store → ℕ → Action ℕ
append_behind source id kind summary s at = do
  written ← insert_event (appended source id kind summary at s)
  pure (max_event_id (events_of source id s) + 1)

appended_taken :
    (source id kind summary : String) (at : ℕ) (s : Store)
    → find
        (event_has_id source id (max_event_id (events_of source id s) + 1))
        (s.events ++ appended source id kind summary at s ∷ [])
      ≡ some (appended source id kind summary at s)
unfolding events_of
appended_taken source id kind summary at s =
    let n : ℕ = max_event_id (select (event_has_key source id) s.events) + 1 in
    let own : event_has_id source id n (appended source id kind summary at s) ≡ true =
      unfold event_has_id in
      unfold event_has_key in ground (arith, eq_iff source source, eq_iff id id) in
    rw
      (
        find-append (event_has_id source id n) s.events (appended source id kind summary at s ∷ []),
        fresh_above source id s.events n (omega arith),
      )
      (unfold find in rw own refl)

insert_taken :
    (e x : EventRow) (s : Store)
    → find (event_has_id e.source_device e.task_id e.event_id) s.events ≡ some x
    → insert_event e s ≡ (err integrity_error, s)
unfolding insert_event
insert_taken e x s h = rw (h, insert_event) refl

raises_first :
    {A B : Type 0} (first : Action A) (then_do : A → Action B) (x : StoreError) (s : Store)
    → first s ≡ (err x, s)
    → (first >>= then_do) s ≡ (err x, s)
raises_first {A} {B} first then_do x s h =
    let run : Result StoreError A × Store → Result StoreError B × Store =
      λ r. elim r.0 [ err e ↦ (err e, r.1) | ok v ↦ then_do v r.1 ] in
    ap run h

-- A call of append_event reads the largest id and then inserts a row with the next one. Where another call
-- for the same task appends its event between the two statements, the INSERT meets a primary key that is
-- taken: the call raises, and its event is not in the ledger.
pub append_event_race :
    (source id kind summary kind' summary' : String) (at : ℕ) (s : Store)
    → let s' = (append_event source id kind summary s).1 in
      (append_event source id kind' summary' s
        ≡ append_behind source id kind' summary' s
            (s.clock s.reads)
            (record s { reads = s.reads + 1 }))
      × (append_behind source id kind' summary' s at s' ≡ (err integrity_error, s'))
append_event_race source id kind summary kind' summary' at s =
    let stopped =
      insert_taken (appended source id kind' summary' at s)
        (appended source id kind summary (s.clock s.reads) s)
        (append_event source id kind summary s).1
        (rw (append_event_total source id kind summary s)
          (appended_taken source id kind summary (s.clock s.reads) s)) in
    (
      unfold append_event in unfold now_ms in unfold events_of in refl,
      raises_first (insert_event (appended source id kind' summary' at s))
          (λ written. pure (max_event_id (events_of source id s) + 1)) integrity_error
          (append_event source id kind summary s).1 stopped,
    )
