-- ===== src/Collab/Store/Tests.antt =====
-- Runs of the task ledger, and its theorems at concrete inputs.
use aigenora.Prelude.{
  ◌+◌, String, ◌≡◌, ◌≢◌, refl, true, none, some, [], ◌∷◌, arith, ok, err, length, take, drop, ◌≤◌,
}
use aigenora.Prelude.Int.{pos}
use aigenora.Collab.Store.Rows.{Task, Update, truncate}
use aigenora.Collab.Store.States.{
  TaskState, queued, dispatching, running, completed, cancelled, export_check, index, state_eq,
  contains, targets,
}
use aigenora.Collab.Store.Tables.{has_key, event_has_key, event_has_id, find, select, max_event_id}
use aigenora.Collab.Store.Numbering.{
  events_of, IsNumbered, append_event-IsNumbered, events_after-page,
}
use aigenora.Collab.Store.Transitions.{row, moved, transition_legal}
use aigenora.Collab.Store.Race.{Passes, transition_race, append_behind, append_event_race}
use aigenora.Collab.Store.Insertion.{insert_task_once}
use aigenora.Collab.Store.History.{History, here, next, Step, History_started, History_terminal}
use aigenora.Collab.Store.{
  Store, new_task, append_event, events_after, insert_task, transition, apply_transition,
  set_task_fields, illegal_transition, integrity_error, get_task, insert_new_task,
}

abbrev empty_store : Store
empty_store = record {
  tasks = [];
  events = [];
  notes = [];
  invocations = [];
  inputs = [];
  clock = λ n. n + 100;
  reads = 0;
}

abbrev sent : Store
sent = (insert_task "guest" "t1" "d" "goal" "local" none empty_store).1

abbrev task_at : String → TaskState → Task
task_at id state =
    let t = new_task "guest" id "d" "goal" "local" none 7 in record t { state = state }

-- A ledger with one task in a state, and another that waits.
abbrev ledger : TaskState → Store
ledger state = record empty_store { tasks = task_at "t1" state ∷ task_at "t2" queued ∷ [] }

received_once : (append_event "guest" "t1" "note" "x" sent).0 ≡ ok 2
unfolding insert_task get_task insert_new_task append_event find has_key select event_has_key
    event_has_id max_event_id truncate
received_once = refl

back_to_queued :
    (transition "guest" "t1" queued none "" [] true (ledger running)).0 ≡ err illegal_transition
unfolding transition get_task find has_key state_eq contains targets
back_to_queued = refl

empty_store-IsNumbered : IsNumbered empty_store
unfolding events_of select
empty_store-IsNumbered = record { at_key = λ source id. tt }

append_event-IsNumbered_example :
    ((append_event "guest" "t1" "note" "x" empty_store).0
      ≡ ok (length (events_of "guest" "t1" empty_store) + 1))
    × IsNumbered (append_event "guest" "t1" "note" "x" empty_store).1
append_event-IsNumbered_example =
    append_event-IsNumbered "guest" "t1" "note" "x" empty_store empty_store-IsNumbered

abbrev two_events : Store
two_events = (append_event "guest" "t1" "b" "y" (append_event "guest" "t1" "a" "x" empty_store).1).1

events_after-page_example :
    events_after "guest" "t1" (pos 1) (pos 5) two_events
    ≡ (ok (take 5 (drop 1 (events_of "guest" "t1" two_events))), two_events)
events_after-page_example =
    events_after-page "guest" "t1" (pos 1) (pos 5) two_events
      (append_event-IsNumbered "guest" "t1" "b" "y"
        (append_event "guest" "t1" "a" "x" empty_store).1
        (append_event-IsNumbered "guest" "t1" "a" "x" empty_store empty_store-IsNumbered).1).1

transition_legal_example :
    let (r, s') =
      transition "guest" "t1" export_check none ""
        (Update.set_result_state "completed" ∷ [])
        true
        (ledger running) in
    (r
      ≡ ok (
          some (
            moved "guest" "t1"
              (ledger running)
              export_check
              none
              ""
              (Update.set_result_state "completed" ∷ [])
              (task_at "t1" running))))
    × (row "guest" "t1" s'
        ≡ some (
            moved "guest" "t1"
              (ledger running)
              export_check
              none
              ""
              (Update.set_result_state "completed" ∷ [])
              (task_at "t1" running)))
    × ((moved "guest" "t1"
          (ledger running)
          export_check
          none
          ""
          (Update.set_result_state "completed" ∷ [])
          (task_at "t1" running)).state
        ≡ export_check)
    × ((moved "guest" "t1"
          (ledger running)
          export_check
          none
          ""
          (Update.set_result_state "completed" ∷ [])
          (task_at "t1" running)).revision
        ≡ 1 + 1)
    × ((source' id' : String)
        → ("guest" ≡ source' → "t1" ≡ id' → ⊥)
        → row source' id' s' ≡ row source' id' (ledger running))
unfolding find has_key state_eq contains targets
transition_legal_example =
    transition_legal "guest" "t1" (ledger running) export_check none ""
      (Update.set_result_state "completed" ∷ []) (task_at "t1" running) true refl refl refl

insert_task_once_example :
    ((insert_task "guest" "t1" "d" "goal" "local" none empty_store).0 ≡ ok (row "guest" "t1" sent))
    × (row "guest" "t1" sent ≢ none)
    × (insert_task "guest" "t1" "other" "goal" "remote" none sent
        ≡ ((insert_task "guest" "t1" "d" "goal" "local" none empty_store).0, sent))
insert_task_once_example =
    insert_task_once "guest" "t1" "d" "goal" "local" none "other" "goal" "remote" none empty_store

-- A requeue is tried on a running task, and its other fields are written.
abbrev tried : Store
tried = (transition "guest" "t1" queued none "" [] true (ledger running)).1

abbrev tried_history : History (ledger running) (set_task_fields "guest" "t1" [] tried).1
tried_history =
    next (next here (Step.moves "guest" "t1" queued none "" [] true)) (Step.sets "guest" "t1" [])

History_started_example :
    (t' : Task) × (row "guest" "t1" (set_task_fields "guest" "t1" [] tried).1 ≡ some t')
    × (4 ≤ index t'.state)
unfolding find has_key index
History_started_example =
    History_started "guest" "t1" tried_history (task_at "t1" running) refl (omega arith)

abbrev reopened : Store
reopened = (transition "guest" "t1" running (some "running") "again" [] true (ledger completed)).1

-- A queued task is cancelled between the dispatcher's read and its UPDATE, and is dispatched.
transition_race_example :
    let s' = (transition "guest" "t1" cancelled (some "cancelled") "" [] true (ledger queued)).1 in
    let s'' =
      (apply_transition "guest" "t1" dispatching (some "dispatching") "invocation inv-1" [] s').1 in
    Passes "guest" "t1" (ledger queued) dispatching (some "dispatching") "invocation inv-1" []
    × ((u : Task) × (row "guest" "t1" s' ≡ some u) × (u.state ≡ cancelled))
    × ((v : Task) × (row "guest" "t1" s'' ≡ some v) × (v.state ≡ dispatching))
unfolding find has_key state_eq contains targets
transition_race_example =
    transition_race "guest" "t1" (ledger queued) (task_at "t1" queued) cancelled dispatching
      (some "cancelled") (some "dispatching") "" "invocation inv-1" [] [] true refl refl refl refl
      refl

append_event_race_example :
    (append_event "guest" "t1" "note" "mine" sent
      ≡ append_behind "guest" "t1" "note" "mine" sent
          (sent.clock sent.reads)
          (record sent { reads = sent.reads + 1 }))
    × (append_behind "guest" "t1" "note" "mine" sent 9 (append_event "guest" "t1" "note" "x" sent).1
        ≡ (err integrity_error, (append_event "guest" "t1" "note" "x" sent).1))
append_event_race_example = append_event_race "guest" "t1" "note" "x" "note" "mine" 9 sent

History_terminal_example :
    (t' : Task) × (row "guest" "t1" reopened ≡ some t') × (t'.state ≡ completed)
unfolding find has_key index
History_terminal_example =
    History_terminal "guest" "t1"
      (next here (Step.moves "guest" "t1" running (some "running") "again" [] true))
      (task_at "t1" completed) refl (omega arith)
