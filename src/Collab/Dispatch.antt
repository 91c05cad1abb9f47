-- ===== src/Collab/Dispatch.antt =====
-- aigenora/collab/service.py: the dispatcher, the restart reconciliation and the cancel handler,
-- over the task ledger. The adapter is another process: what it answers is an argument. The
-- diagnostics, a list of lines in memory that nothing else reads, are left out.
pub mod Outcomes
pub mod Recovery
pub mod Cancel
mod Tests
use Prim.Native.String.{◌++◌ as str_append}
use mathlib.Core.Option
use aigenora.Prelude.{
  ℕ, String, Bool, true, false, ◌&&◌, ◌||◌, not, Option, none, some, List, [], ◌∷◌, str_eq,
  if◌then◌else◌, Result, ok, err, ltb,
}
use aigenora.Prelude.Exec.{Exec, pure, raise, gets, or_raise, modify, raise_when, ◌>>=◌, ◌>>◌}
use aigenora.Collab.Store.Rows.{Task, Invocation, Update, truncate}
use aigenora.Collab.Store.States.{
  TaskState, queued, dispatching, running, waiting_local_operator, cancel_requested,
  execution_unknown, export_check, received, waiting_inputs, cancelled, contains, terminal_states,
  state_eq, state_name,
}
use aigenora.Collab.Store.{
  Store, StoreError, task_not_found, already_in_state, illegal_transition, integrity_error,
  adapter_failed, Action, get_task, transition, append_event, insert_invocation,
  set_invocation_handle, set_invocation_status, latest_invocation,
}

-- What one dispatch meets: the probe's answer (`none` where it raises, or `build_package` raised before it
-- with the row at hand), the handle that `submit` returns (`none` where it raises), and the adapter's
-- constants.
pub record Attempt : Type 0 where
  pub ready : Option Bool
  pub detail : String
  pub handle : Option String
  pub attended : Bool
  pub adapter : String
  pub invocation : String

-- `_try_dispatch` from the adapter's handle on; it returns whether a watcher was started.
unfoldable pub after_submit : String → String → Attempt → Option String → Action Bool
after_submit source id a none = do
  set_invocation_status a.invocation "submit_error" true
  moved ←
      transition source id execution_unknown (some "execution_unknown")
        "adapter submit raised; cannot prove execution never started" [] true
  pure false
after_submit source id a (some handle) = do
  set_invocation_handle a.invocation handle "submitted"
  moved ←
      transition source id running (some "running")
        (str_append "adapter " (str_append a.adapter " accepted the task")) [] true
  if a.attended
      then (do
        parked ←
            transition source id waiting_local_operator (some "waiting_local_operator")
              "attended adapter: local operator must drive the task" [] true
        pure false)
      else pure true

-- `_try_dispatch` from the probe's answer on.
unfoldable pub after_probe : String → String → Attempt → Option Bool → Action Bool
unfolding after_submit
after_probe source id a none = raise adapter_failed
after_probe source id a (some false) = do
  moved ←
      transition source id waiting_local_operator (some "adapter_not_ready")
        (str_append "adapter not ready: " (truncate 200 a.detail)) [] true
  pure false
after_probe source id a (some true) = do
  insert_invocation a.invocation source id a.adapter
  moved ←
      transition source id dispatching (some "dispatching") (str_append "invocation " a.invocation)
        [] true
  after_submit source id a a.handle

-- The `try` block of `_try_dispatch`, on the ledger; `build_package` looks for the row first.
unfoldable pub dispatch : String → String → Attempt → Action Bool
unfolding after_probe
dispatch source id a = do
  found ← get_task source id
  task ← or_raise found task_not_found
  after_probe source id a a.ready

-- The service: the ledger and the set `_watched_tasks`.
pub record Service : Type 0 where
  pub store : Store
  pub watched : List (String × String)

unfoldable pub is_watched : String → String → List (String × String) → Bool
is_watched source id [] = false
is_watched source id ((s, i) ∷ rest) = (str_eq s source && str_eq i id) || is_watched source id rest

-- `set.discard`
unfoldable pub discard : String → String → List (String × String) → List (String × String)
discard source id [] = []
discard source id ((s, i) ∷ rest) =
    let others = discard source id rest in
    if str_eq s source && str_eq i id then others else (s, i) ∷ others

-- `_try_dispatch`: the guard on the set, and the `finally` that takes the task off it.
unfoldable pub try_dispatch : String → String → Attempt → Exec StoreError Service Bool
unfolding is_watched discard
try_dispatch source id a s =
    if is_watched source id s.watched
    then (ok false, s)
    else (let (r, store) = dispatch source id a s.store in
        (r, record { store = store; watched = discard source id ((source, id) ∷ s.watched) }))

-- One round of `_dispatch_loop` over the queued tasks that it listed: an exception ends the round. The
-- line that the handler adds to the diagnostics in memory is not modelled.
unfoldable pub dispatch_round :
    List (String × String) → (String → String → Attempt) → Service → Service
dispatch_round [] attempt s = s
dispatch_round ((source, id) ∷ rest) attempt s =
    let (r, s') = try_dispatch source id (attempt source id) s in
    elim r [ ok _ ↦ dispatch_round rest attempt s' | err _ ↦ s' ]

pub data Verdict : Type 0 where
  proves_running_or_finished proves_never_started unknown : Verdict

abbrev pub never_started : Verdict → Bool
never_started proves_never_started = true
never_started _ = false

-- `try: … except ValueError: pass`; a missing row is a KeyError, which is not caught.
abbrev pub catch_value_error : {A : Type 0} → Action A → Action (Unit {0})
catch_value_error m s =
    let (r, s') = m s in
    elim r [
      | ok _ ↦ (ok tt, s')
      | err task_not_found ↦ (err task_not_found, s')
      | err integrity_error ↦ (err integrity_error, s')
      | err adapter_failed ↦ (err adapter_failed, s')
      | err already_in_state ↦ (ok tt, s')
      | err illegal_transition ↦ (ok tt, s')
    ]

-- The two branches of `recover_interrupted_tasks`: with no invocation, and with one, where the
-- adapter proves or does not prove that it never started.
unfoldable pub recover_with : String → String → TaskState → Option Bool → Action (Unit {0})
recover_with source id state none =
    if state_eq state dispatching
    then catch_value_error (
        transition source id queued (some "requeued")
          (str_append "restart: no invocation recorded (" (str_append (state_name state) ")")) []
          true)
    else catch_value_error (
        transition source id execution_unknown (some "execution_unknown")
          (str_append "restart: no invocation recorded (" (str_append (state_name state) ")")) []
          true)
recover_with source id state (some true) =
    catch_value_error (
      transition source id queued (some "requeued") "restart: adapter proved never started" [] true)
recover_with source id state (some false) = catch_value_error (
    transition source id execution_unknown (some "execution_unknown")
      "restart with unfinished invocation; awaiting observation or operator" [] true)

-- The body of the loop of `recover_interrupted_tasks`, for a listed task in a state; `reconcile` is
-- the adapter's answer.
unfoldable pub recover_task :
    (String → String → Verdict) → String → String → TaskState → Action (Unit {0})
unfolding recover_with
recover_task reconcile source id state = do
  invocation ← latest_invocation source id
  recover_with source id state
      (Option.map (λ i. never_started (reconcile i.id i.handle)) invocation)

-- Whether the adapter confirms that it stops the task's last invocation.
unfoldable pub stop_confirmed : (String → Bool) → Option Invocation → Bool
stop_confirmed stop none = false
stop_confirmed stop (some i) = if str_eq i.handle "" then false else stop i.handle

abbrev pub stop_summary : Bool → String
stop_summary stopped =
    str_append "stop requested" (if stopped then "" else "; adapter stop not confirmed")

-- `_on_cancel_request`, from the task row that `_require_task` found; `stop` is the adapter's
-- answer. The result is the state in the reply.
unfoldable pub cancel_request : (String → Bool) → Task → Action TaskState
cancel_request stop task =
    if contains terminal_states task.state
    then pure task.state
    else if contains (received ∷ waiting_inputs ∷ queued ∷ waiting_local_operator ∷ []) task.state
    then (do
      moved ←
          transition task.source_device task.task_id cancelled (some "cancelled")
            "cancelled before execution" [] true
      pure cancelled)
    else (do
      invocation ← latest_invocation task.source_device task.task_id
      if state_eq task.state execution_unknown
          then (do
            event ←
                append_event task.source_device task.task_id "cancel_recorded"
                  "cancel recorded; execution state unknown"
            pure execution_unknown)
          else (do
            moved ←
                transition task.source_device task.task_id cancel_requested
                  (some "cancel_requested") (stop_summary (stop_confirmed stop invocation)) [] true
            pure cancel_requested))
