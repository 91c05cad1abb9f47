-- ===== src/Collab/Dispatch/Cancel.antt =====
-- What the cancel handler of aigenora/collab/service.py does to a task.

use mathlib.Core.Path.{subst}
use aigenora.Prelude.{
  String, ◌≡◌, refl, Bool, true, false, Option, none, some, [], ◌∷◌, arith, ok, err, Result,
}
use aigenora.Collab.Store.Rows.{Task}
use aigenora.Collab.Store.States.{
  TaskState, queued, dispatching, running, waiting_local_operator, execution_unknown, export_check,
  cancelled, cancel_requested, received, waiting_inputs, contains, targets, state_eq,
  terminal_states,
}
use aigenora.Collab.Store.Tables.{latest_started, select, invocation_has_key}
use aigenora.Collab.Store.Transitions.{row}
use aigenora.Collab.Store.Numbering.{append_event_total}
use aigenora.Collab.Store.{
  Store, transition, illegal_transition, latest_invocation, append_event, get_task,
}
use aigenora.Collab.Dispatch.{StoreError, stop_summary, stop_confirmed, cancel_request}
use aigenora.Collab.Dispatch.Outcomes.{Stands, Stands-transition, Stands-refused}

-- The state that a cancel request leads to, where it leads anywhere.
unfoldable pub cancelled_from : TaskState → Option TaskState
cancelled_from received = some cancelled
cancelled_from waiting_inputs = some cancelled
cancelled_from queued = some cancelled
cancelled_from waiting_local_operator = some cancelled
cancelled_from running = some cancel_requested
cancelled_from dispatching = none
cancelled_from export_check = none
cancelled_from cancel_requested = some cancel_requested
cancelled_from state = some state

-- The reply to a cancel request, or its exception.
abbrev pub cancel_reply : Option TaskState → Result StoreError TaskState
cancel_reply none = err illegal_transition
cancel_reply (some state) = ok state

abbrev pub state_or : Option TaskState → TaskState → TaskState
state_or none old = old
state_or (some state) old = state

abbrev result_as : {A B : Type 0} → Result StoreError A → B → Result StoreError B
result_as (ok _) b = ok b
result_as (err e) _ = err e

-- What the handler did: the reply, and the row of the task afterwards.
abbrev Answered : (String → Bool) → Task → Store → Option TaskState → Type 0
Answered stop task s to =
    let (r, s') = cancel_request stop task s in
    (r ≡ cancel_reply to)
    × ((t : Task) × (row task.source_device task.task_id s' ≡ some t)
        × (t.state ≡ state_or to task.state))

module _ (stop : String → Bool) (task : Task) (s : Store)
    (found : row task.source_device task.task_id s ≡ some task) where
  stands : Stands task.source_device task.task_id s task.state task.revision
  stands = record { task = task; found = found; in_state = refl; at_revision = refl }

  summary : String
  summary = stop_summary (
      stop_confirmed stop (
        latest_started (select (invocation_has_key task.source_device task.task_id) s.invocations)))

  cancelled_early :
      (state : TaskState)
      → task.state ≡ state
      → contains terminal_states state ≡ false
      → contains (received ∷ waiting_inputs ∷ queued ∷ waiting_local_operator ∷ []) state ≡ true
      → state_eq state cancelled ≡ false
      → contains (targets state) cancelled ≡ true
      → Answered stop task s (some cancelled)
  unfolding cancel_request
  cancelled_early state e unended early ne edge =
      let (t, s', moves, there) =
        Stands-transition task.source_device task.task_id s task.state cancelled task.revision
          (some "cancelled") "cancelled before execution" stands (rw e ne) (rw e edge) in
      let result : cancel_request stop task s ≡ (ok cancelled, s') = ground (arith, moves) in
      rw result (refl, (there.task, there.found, there.in_state))

  ended_as :
      (state : TaskState)
      → task.state ≡ state
      → Answered stop task s (some task.state)
      → Answered stop task s (some state)
  ended_as state e h = subst (λ st. Answered stop task s (some st)) e h

  -- Past the early states: the transition to `cancel_requested` is tried.
  cancel_late :
      (state : TaskState)
      → task.state ≡ state
      → contains terminal_states state ≡ false
      → contains (received ∷ waiting_inputs ∷ queued ∷ waiting_local_operator ∷ []) state ≡ false
      → state_eq state execution_unknown ≡ false
      → (r : Result StoreError (Option Task)) (s' : Store)
      → transition task.source_device task.task_id cancel_requested
          (some "cancel_requested")
          summary
          []
          true
          s
        ≡ (r, s')
      → cancel_request stop task s ≡ (result_as r cancel_requested, s')
  unfolding cancel_request latest_invocation summary
  cancel_late state e unended late known (ok t) s' moves = ground arith
  cancel_late state e unended late known (err x) s' moves = ground arith

  cancelled_ended :
      contains terminal_states task.state ≡ true → Answered stop task s (some task.state)
  unfolding cancel_request
  cancelled_ended ended =
      let result : cancel_request stop task s ≡ (ok task.state, s) = ground arith in
      rw result (refl, (task, found, refl))

  -- The execution is unknown: the request is only recorded, in the event log.
  cancelled_unknown : task.state ≡ execution_unknown → Answered stop task s (some execution_unknown)
  unfolding cancel_request latest_invocation contains terminal_states state_eq
  cancelled_unknown e =
      let logged =
        append_event_total task.source_device task.task_id "cancel_recorded"
          "cancel recorded; execution state unknown" s in
      let s' : Store =
        (append_event task.source_device task.task_id "cancel_recorded"
          "cancel recorded; execution state unknown" s).1 in
      let result : cancel_request stop task s ≡ (ok execution_unknown, s') =
        ground (arith, e, logged) in
      rw (result, logged) (refl, (task, found, e))

  cancelled_running : task.state ≡ running → Answered stop task s (some cancel_requested)
  unfolding contains terminal_states state_eq targets
  cancelled_running e =
      let (t, s', moves, there) =
        Stands-transition task.source_device task.task_id s running cancel_requested task.revision
          (some "cancel_requested") summary
          (record { task = task; found = found; in_state = e; at_revision = refl }) refl refl in
      rw (cancel_late running e refl refl refl (ok (some t)) s' moves)
        (refl, (there.task, there.found, there.in_state))

  cancelled_refused :
      (state : TaskState)
      → task.state ≡ state
      → contains terminal_states state ≡ false
      → contains (received ∷ waiting_inputs ∷ queued ∷ waiting_local_operator ∷ []) state ≡ false
      → state_eq state execution_unknown ≡ false
      → state_eq state cancel_requested ≡ false
      → contains (targets state) cancel_requested ≡ false
      → Answered stop task s none
  cancelled_refused state e unended late known ne edge =
      let refused =
        Stands-refused task.source_device task.task_id s state cancel_requested task.revision
          (some "cancel_requested") summary
          (record { task = task; found = found; in_state = e; at_revision = refl }) ne edge in
      rw (cancel_late state e unended late known (err illegal_transition) s refused)
        (refl, (task, found, refl))

  cancelled_again : task.state ≡ cancel_requested → Answered stop task s (some cancel_requested)
  unfolding contains terminal_states state_eq
  cancelled_again e =
      rw
        (cancel_late cancel_requested e refl refl refl (ok (some task)) s
          (unfold transition get_task in ground (arith, found, e)))
        (refl, (task, found, e))

  answered : (state : TaskState) → task.state ≡ state → Answered stop task s (cancelled_from state)
  unfolding contains terminal_states state_eq targets cancelled_from
  answered received e = cancelled_early received e refl refl refl refl
  answered waiting_inputs e = cancelled_early waiting_inputs e refl refl refl refl
  answered queued e = cancelled_early queued e refl refl refl refl
  answered waiting_local_operator e = cancelled_early waiting_local_operator e refl refl refl refl
  answered running e = cancelled_running e
  answered dispatching e = cancelled_refused dispatching e refl refl refl refl refl
  answered export_check e = cancelled_refused export_check e refl refl refl refl refl
  answered cancel_requested e = cancelled_again e
  answered execution_unknown e = cancelled_unknown e
  answered state e = ended_as state e (cancelled_ended (rw e refl))

-- A cancel request is answered with the state in which the task then stands, except from
-- `dispatching` and `export_check`, where the state machine has no edge to `cancel_requested`: there
-- the handler raises and the task stays where it was.
pub cancel_request_lem :
    (stop : String → Bool) (task : Task) (s : Store)
    → row task.source_device task.task_id s ≡ some task
    → let (r, s') = cancel_request stop task s in
      (r ≡ cancel_reply (cancelled_from task.state))
      × ((t : Task) × (row task.source_device task.task_id s' ≡ some t)
          × (t.state ≡ state_or (cancelled_from task.state) task.state))
cancel_request_lem stop task s h = answered stop task s h task.state refl
