-- ===== src/Collab/Store/Transitions.antt =====
-- `transition` and `insert_task` of aigenora/collab/store.py: what each outcome does to the ledger.
use mathlib.Core.Option
use aigenora.Prelude.{
  ◌+◌, String, ◌≡◌, refl, Bool, true, false, Option, none, some, List, arith, ok, err,
}
use aigenora.Collab.Store.Rows.{Task, Update}
use aigenora.Collab.Store.States.{TaskState, contains, targets, state_eq, state_name}
use aigenora.Collab.Store.Tables.{has_key, find, update_where}
use aigenora.Collab.Store.Laws.{
  find-update_where_self, find-update_where_ne, has_key-move_task, apply_updates-Keeps,
  keys_disjoint,
}
use aigenora.Collab.Store.Numbering.{append_event_total}
use aigenora.Collab.Store.{
  Store, append_event_if, text_or, apply_transition, transition, get_task, move_task,
  illegal_transition, now_ms,
}

abbrev pub row : String → String → Store → Option Task
row source id s = find (has_key source id) s.tasks

append_event_if_total :
    (kind : Option String) (source id summary : String) (s : Store)
    → ((append_event_if kind source id summary s).0 ≡ ok tt)
      × ((append_event_if kind source id summary s).1.tasks ≡ s.tasks)
append_event_if_total none source id summary s = (refl, refl)
append_event_if_total (some kind) source id summary s =
    ground (arith, append_event_total source id kind summary s)

module _ (source id : String) (s : Store) (new : TaskState) (kind : Option String)
    (summary : String) (extra : List Update) where
  -- The row that a transition writes.
  abbrev pub moved : Task → Task
  moved t = move_task new (s.clock s.reads) extra t

  pub row-update_self :
      (t : Task)
      → row source id s ≡ some t
      → find (has_key source id) (update_where (has_key source id) moved s.tasks) ≡ some (moved t)
  row-update_self t h = rw (
    find-update_where_self (has_key source id) moved s.tasks
        (λ x. has_key-move_task source id new (s.clock s.reads) extra x),
    h,
  )

  pub apply_transition_lem :
      (t : Task)
      → row source id s ≡ some t
      → ((apply_transition source id new kind summary extra s).0 ≡ ok (some (moved t)))
        × ((apply_transition source id new kind summary extra s).1.tasks
            ≡ update_where (has_key source id) moved s.tasks)
  unfolding apply_transition now_ms get_task
  apply_transition_lem t h = ground (
    arith,
    append_event_if_total kind source id (text_or summary (state_name new))
        (record s { reads = s.reads + 1; tasks = update_where (has_key source id) moved s.tasks }),
    row-update_self t h,
  )

  pub transition-apply :
      (t : Task) (allow_same : Bool)
      → row source id s ≡ some t
      → state_eq t.state new ≡ false
      → contains (targets t.state) new ≡ true
      → transition source id new kind summary extra allow_same s
        ≡ apply_transition source id new kind summary extra s
  unfolding transition get_task
  transition-apply t allow h ne edge = ground arith

  pub moved_columns : (t : Task) → ((moved t).state ≡ new) × ((moved t).revision ≡ t.revision + 1)
  unfolding move_task
  moved_columns t =
      let k =
        apply_updates-Keeps extra
          (record t { state = new; updated_at = s.clock s.reads; revision = t.revision + 1 }) in
      (k.state, k.revision)

  row-update_ne :
      (source' id' : String)
      → (source ≡ source' → id ≡ id' → ⊥)
      → find (has_key source' id') (update_where (has_key source id) moved s.tasks)
        ≡ row source' id' s
  row-update_ne source' id' d =
      find-update_where_ne (has_key source id) (has_key source' id') moved s.tasks
        (λ x. has_key-move_task source' id' new (s.clock s.reads) extra x)
        (keys_disjoint source id source' id' d)

  -- On an edge of the state machine the row takes the new state and the next revision, and no other
  -- row changes.
  pub transition_legal :
      (t : Task) (allow_same : Bool)
      → row source id s ≡ some t
      → state_eq t.state new ≡ false
      → contains (targets t.state) new ≡ true
      → let (r, s') = transition source id new kind summary extra allow_same s in
        (r ≡ ok (some (moved t)))
        × (row source id s' ≡ some (moved t))
        × ((moved t).state ≡ new)
        × ((moved t).revision ≡ t.revision + 1)
        × ((source' id' : String)
            → (source ≡ source' → id ≡ id' → ⊥)
            → row source' id' s' ≡ row source' id' s)
  transition_legal t allow h ne edge =
      let (returned, tasks) = apply_transition_lem t h in
      rw (transition-apply t allow h ne edge) (
        returned,
        rw tasks (row-update_self t h),
        (moved_columns t).0,
        (moved_columns t).1,
        λ source' id' d. rw tasks (row-update_ne source' id' d),
      )

  -- Off the edges the call raises, and the ledger is left alone.
  pub transition_illegal :
      (t : Task) (allow_same : Bool)
      → row source id s ≡ some t
      → state_eq t.state new ≡ false
      → contains (targets t.state) new ≡ false
      → transition source id new kind summary extra allow_same s ≡ (err illegal_transition, s)
  unfolding transition get_task
  transition_illegal t allow h ne edge = ground arith

-- A row is in the state that its `state` column names, or there is no row.
abbrev pub state_of : String → String → Store → Option TaskState
state_of source id s = Option.map (λ t. t.state) (row source id s)
