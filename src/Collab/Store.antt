-- ===== src/Collab/Store.antt =====
-- aigenora/collab/store.py: the SQLite ledger of tasks, events, notes, invocations and inputs. A
-- table is the list of its rows in the order of insertion; each call of `now_ms` reads the clock
-- once, and the readings are any numbers. A method runs its statements one behind the other, with
-- no statement of another thread or process between them: the source takes its lock for each
-- statement, not for a method, so this is the behaviour of calls that do not overlap.
pub mod Rows
pub mod States
pub mod Tables
pub mod Laws
pub mod Numbering
pub mod Transitions
pub mod Insertion
pub mod History
pub mod Race
mod Tests
use aigenora.Prelude.{
  ℕ, ◌+◌, String, Bool, true, false, ◌&&◌, not, Option, none, some, List, [], ◌∷◌, ◌++◌, str_eq,
  if◌then◌else◌, Result, ok, err, leb, ltb,
}
use aigenora.Prelude.Exec.{Exec, pure, raise, gets, or_raise, modify, raise_when, ◌>>=◌, ◌>>◌}
use aigenora.Collab.Store.States.{TaskState, received, state_eq, contains, targets, state_name}
use aigenora.Collab.Store.Rows.{
  Task, EventRow, Note, Invocation, Input, Update, apply_updates, truncate, set_input_request,
}
use aigenora.Prelude.{◌==◌, take}
use aigenora.Prelude.Int.{ℤ, pos, negsuc}
use aigenora.Collab.Store.Tables.{
  has_key, event_has_id, event_has_key, note_has_key, invocation_has_key, input_has_key, find,
  update_where, select, max_event_id, order_by_id, latest_started,
}

pub record Store : Type 0 where
  pub tasks : List Task
  pub events : List EventRow
  pub notes : List Note
  pub invocations : List Invocation
  pub inputs : List Input
  pub clock : ℕ → ℕ
  pub reads : ℕ

-- The exceptions of the ledger's methods, and of the adapter that their callers ask.
pub data StoreError : Type 0 where
  task_not_found already_in_state illegal_transition integrity_error adapter_failed : StoreError

abbrev pub Action : Type 0 → Type 0
Action A = Exec StoreError Store A

unfoldable pub now_ms : Action ℕ
now_ms s = (ok (s.clock s.reads), record s { reads = s.reads + 1 })

unfoldable pub get_task : String → String → Action (Option Task)
get_task source id = gets (λ s. find (has_key source id) s.tasks)

-- The INSERT into `events`; the primary key is the task's key and the id.
unfoldable pub insert_event : EventRow → Action (Unit {0})
insert_event e s = elim (find (event_has_id e.source_device e.task_id e.event_id) s.events) [
  | some _ ↦ (err integrity_error, s)
  | none ↦ (ok tt, record s { events = s.events ++ e ∷ [] })
]

unfoldable pub append_event : String → String → String → String → Action ℕ
unfolding now_ms insert_event
append_event source id kind summary = do
  rows ← gets (λ s. select (event_has_key source id) s.events)
  at ← now_ms
  insert_event (record {
    source_device = source;
    task_id = id;
    event_id = max_event_id rows + 1;
    kind = kind;
    summary = truncate 500 summary;
    at = at;
  })
  pure (max_event_id rows + 1)

-- `event_id > after`
abbrev pub is_behind : ℤ → ℕ → Bool
is_behind (pos after) n = ltb after n
is_behind (negsuc _) n = true

-- `LIMIT`, which a negative number turns off.
abbrev pub limit_to : ℤ → List EventRow → List EventRow
limit_to (pos limit) rows = take limit rows
limit_to (negsuc _) rows = rows

unfoldable pub events_after : String → String → ℤ → ℤ → Action (List EventRow)
events_after source id after limit = gets (λ s.
    limit_to limit (
      order_by_id (select (λ e. event_has_key source id e && is_behind after e.event_id) s.events)))

abbrev pub new_task : String → String → String → String → String → Option ℤ → ℕ → Task
new_task source id digest goal class expires ts = record {
  source_device = source;
  task_id = id;
  state = received;
  request_digest = digest;
  task_goal = goal;
  execution_class = class;
  expires_at_ms = expires;
  created_at = ts;
  updated_at = ts;
  session_id = none;
  revision = 1;
  result_manifest = none;
  result_summary = none;
  result_state = none;
  result_acked = 0;
  input_request = none;
}

-- The rest of `insert_task`, where no row has the key.
unfoldable pub insert_new_task :
    String → String → String → String → String → Option ℤ → Action (Option Task)
insert_new_task source id digest goal class expires = do
  ts ← now_ms
  modify (λ s. record s { tasks = s.tasks ++ new_task source id digest goal class expires ts ∷ [] })
  event_id ← append_event source id "received" "task durably received"
  get_task source id

unfoldable pub insert_task :
    String → String → String → String → String → Option ℤ → Action (Option Task)
insert_task source id digest goal class expires = do
  existing ← get_task source id
  elim existing [
    | some t ↦ pure (some t)
    | none ↦ insert_new_task source id digest goal class expires
  ]

-- Python's truth of an optional text.
abbrev truthy : Option String → Bool
truthy none = false
truthy (some text) = not (str_eq text "")

abbrev pub text_or : String → String → String
text_or a b = if str_eq a "" then b else a

-- The columns that `transition` writes.
unfoldable pub move_task : TaskState → ℕ → List Update → Task → Task
move_task new at extra t =
    apply_updates extra (record t { state = new; updated_at = at; revision = t.revision + 1 })

abbrev pub append_event_if : Option String → String → String → String → Action (Unit {0})
append_event_if none source id summary = pure tt
append_event_if (some kind) source id summary =
    if str_eq kind "" then pure tt else (do event_id ← append_event source id kind summary; pure tt)

-- The part of `transition` behind its guards.
unfoldable pub apply_transition :
    String → String → TaskState → Option String → String → List Update → Action (Option Task)
apply_transition source id new kind summary extra = do
  at ← now_ms
  modify
      (λ s. record s { tasks = update_where (has_key source id) (move_task new at extra) s.tasks })
  append_event_if kind source id (text_or summary (state_name new))
  get_task source id

unfoldable pub transition :
    String → String → TaskState → Option String → String → List Update → Bool → Action (Option Task)
transition source id new kind summary extra allow_same = do
  found ← get_task source id
  task ← or_raise found task_not_found
  if state_eq task.state new
      then (if allow_same then pure (some task) else raise already_in_state)
      else (do
        raise_when (not (contains (targets task.state) new)) illegal_transition
        apply_transition source id new kind summary extra)

-- The columns that `set_task_fields` writes.
unfoldable pub write_fields : List Update → ℕ → Task → Task
write_fields us at t = let t' = apply_updates us t in record t' { updated_at = at }

unfoldable pub set_task_fields : String → String → List Update → Action (Unit {0})
set_task_fields source id [] = pure tt
set_task_fields source id (u ∷ us) = do
  at ← now_ms
  modify (λ s. record s {
    tasks = update_where (has_key source id) (write_fields (u ∷ us) at) s.tasks;
  })

unfoldable pub add_note : String → String → String → String → String → Action Bool
add_note source id role note text = do
  dup ← gets (λ s. find (note_has_key source id role note) s.notes)
  elim dup [
    | some _ ↦ pure false
    | none ↦ (do
      at ← now_ms
      modify (λ s. record s {
        notes =
            s.notes
            ++ record {
              source_device = source;
              task_id = id;
              from_role = role;
              note_id = note;
              text = text;
              created_at = at;
              delivered = 0;
            }
              ∷ [];
      })
      pure true)
  ]

unfoldable pub mark_notes_delivered : String → String → String → List String → Action (Unit {0})
mark_notes_delivered source id role [] = pure tt
mark_notes_delivered source id role (n ∷ ns) =
    modify (λ s. record s {
      notes =
          update_where (note_has_key source id role n) (λ x. record x { delivered = 1 }) s.notes;
    })
    >> mark_notes_delivered source id role ns

-- The INSERT into `invocations`; the id is the primary key.
unfoldable pub insert_invocation : String → String → String → String → Action (Unit {0})
unfolding now_ms
insert_invocation invocation source id adapter = do
  at ← now_ms
  dup ← gets (λ s. find (λ i. str_eq i.id invocation) s.invocations)
  elim dup [
    | some _ ↦ raise integrity_error
    | none ↦ modify (λ s. record s {
      invocations =
          s.invocations
          ++ record {
            id = invocation;
            source_device = source;
            task_id = id;
            adapter = adapter;
            handle = "";
            status = "starting";
            started_at = at;
            finished_at = none;
          }
            ∷ [];
    })
  ]

unfoldable pub set_invocation_handle : String → String → String → Action (Unit {0})
set_invocation_handle invocation handle status = modify (λ s. record s {
  invocations =
      update_where (λ i. str_eq i.id invocation)
        (λ i. record i { handle = handle; status = status }) s.invocations;
})

unfoldable pub set_invocation_status : String → String → Bool → Action (Unit {0})
unfolding now_ms
set_invocation_status invocation status true = do
  at ← now_ms
  modify (λ s. record s {
    invocations =
        update_where (λ i. str_eq i.id invocation)
          (λ i. record i { status = status; finished_at = some at }) s.invocations;
  })
set_invocation_status invocation status false = modify (λ s. record s {
  invocations =
      update_where (λ i. str_eq i.id invocation) (λ i. record i { status = status }) s.invocations;
})

unfoldable pub latest_invocation : String → String → Action (Option Invocation)
latest_invocation source id =
    gets (λ s. latest_started (select (invocation_has_key source id) s.invocations))
