-- ===== src/Collab/Dispatch/Recovery.antt =====
-- What the restart reconciliation of aigenora/collab/service.py does to a task.
use Prim.Native.String.{◌++◌ as str_append}
use mathlib.Core.Option
use aigenora.Prelude.{
  ℕ, ◌+◌, String, ◌≡◌, refl, Bool, true, false, Option, none, some, [], arith, ok,
}
use aigenora.Collab.Store.States.{
  TaskState, queued, dispatching, running, execution_unknown, export_check, contains, targets,
  state_eq, state_name,
}
use aigenora.Collab.Store.Tables.{latest_started, select, invocation_has_key}
use aigenora.Collab.Store.{Store, transition, latest_invocation}
use aigenora.Collab.Dispatch.{Verdict, never_started, recover_task, recover_with, catch_value_error}
use aigenora.Collab.Dispatch.Outcomes.{Stands, Stands-transition, Stands-refused}

-- The states that the reconciliation lists.
pub data IsInterrupted : TaskState → Type 0 where
  in_dispatching : IsInterrupted dispatching
  in_running : IsInterrupted running
  in_export_check : IsInterrupted export_check

-- What the ledger says of the task's last invocation, and the adapter of that.
abbrev pub evidence : (String → String → Verdict) → String → String → Store → Option Bool
evidence reconcile source id s =
    Option.map (λ i. never_started (reconcile i.id i.handle))
      (latest_started (select (invocation_has_key source id) s.invocations))

-- Where the state machine lets the task go: out of `dispatching` only with no invocation or a proof
-- that none started, out of `running` only without such a proof, out of `export_check` never.
unfoldable pub recovered : TaskState → Option Bool → TaskState
recovered dispatching none = queued
recovered dispatching (some true) = queued
recovered running none = execution_unknown
recovered running (some false) = execution_unknown
recovered state _ = state

-- A caught transition that is legal moves the task, and one that is not leaves all as it was.
caught_move :
    (source id : String) (s : Store) (old new : TaskState) (n : ℕ) (kind : Option String)
    (summary : String)
    → Stands source id s old n
    → state_eq old new ≡ false
    → contains (targets old) new ≡ true
    → (s' : Store) × (catch_value_error (transition source id new kind summary [] true) s
        ≡ (ok tt, s'))
      × Stands source id s' new (n + 1)
caught_move source id s old new n kind summary h ne edge =
    let (t, s', moves, stands) = Stands-transition source id s old new n kind summary h ne edge in
    (s', ground (arith, moves), stands)

caught_refusal :
    (source id : String) (s : Store) (old new : TaskState) (n : ℕ) (kind : Option String)
    (summary : String)
    → Stands source id s old n
    → state_eq old new ≡ false
    → contains (targets old) new ≡ false
    → catch_value_error (transition source id new kind summary [] true) s ≡ (ok tt, s)
caught_refusal source id s old new n kind summary h ne edge =
    ground (arith, Stands-refused source id s old new n kind summary h ne edge)

recover_with_lem :
    (source id : String) (s : Store) (n : ℕ) {state : TaskState} (proof : Option Bool)
    → IsInterrupted state
    → Stands source id s state n
    → (s' : Store) × (m : ℕ) × (recover_with source id state proof s ≡ (ok tt, s'))
      × Stands source id s' (recovered state proof) m
unfolding recover_with recovered state_eq contains targets
recover_with_lem source id s n none in_dispatching h =
    let (s', e, stands) =
      caught_move source id s dispatching queued n (some "requeued")
        (str_append "restart: no invocation recorded (" (str_append (state_name dispatching) ")")) h
        refl refl in
    (s', n + 1, e, stands)
recover_with_lem source id s n (some true) in_dispatching h =
    let (s', e, stands) =
      caught_move source id s dispatching queued n (some "requeued")
        "restart: adapter proved never started" h refl refl in
    (s', n + 1, e, stands)
recover_with_lem source id s n (some false) in_dispatching h = (
  s,
  n,
  caught_refusal source id s dispatching execution_unknown n (some "execution_unknown")
      "restart with unfinished invocation; awaiting observation or operator" h refl refl,
  h,
)
recover_with_lem source id s n none in_running h =
    let (s', e, stands) =
      caught_move source id s running execution_unknown n (some "execution_unknown")
        (str_append "restart: no invocation recorded (" (str_append (state_name running) ")")) h
        refl refl in
    (s', n + 1, e, stands)
recover_with_lem source id s n (some true) in_running h = (
  s,
  n,
  caught_refusal source id s running queued n (some "requeued")
      "restart: adapter proved never started" h refl refl,
  h,
)
recover_with_lem source id s n (some false) in_running h =
    let (s', e, stands) =
      caught_move source id s running execution_unknown n (some "execution_unknown")
        "restart with unfinished invocation; awaiting observation or operator" h refl refl in
    (s', n + 1, e, stands)
recover_with_lem source id s n none in_export_check h = (
  s,
  n,
  caught_refusal source id s export_check execution_unknown n (some "execution_unknown")
      (str_append "restart: no invocation recorded (" (str_append (state_name export_check) ")")) h
      refl refl,
  h,
)
recover_with_lem source id s n (some true) in_export_check h = (
  s,
  n,
  caught_refusal source id s export_check queued n (some "requeued")
      "restart: adapter proved never started" h refl refl,
  h,
)
recover_with_lem source id s n (some false) in_export_check h = (
  s,
  n,
  caught_refusal source id s export_check execution_unknown n (some "execution_unknown")
      "restart with unfinished invocation; awaiting observation or operator" h refl refl,
  h,
)

-- The reconciliation of an interrupted task returns, and the task then stands where `recovered`
-- says.
pub recover_task_lem :
    (reconcile : String → String → Verdict) (source id : String) (s : Store) (n : ℕ)
    (state : TaskState)
    → IsInterrupted state
    → Stands source id s state n
    → (s' : Store) × (m : ℕ) × (recover_task reconcile source id state s ≡ (ok tt, s'))
      × Stands source id s' (recovered state (evidence reconcile source id s)) m
unfolding recover_task latest_invocation
recover_task_lem reconcile source id s n state i h =
    recover_with_lem source id s n (evidence reconcile source id s) i h
