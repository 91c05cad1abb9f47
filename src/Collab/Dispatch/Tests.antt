-- ===== src/Collab/Dispatch/Tests.antt =====
-- The theorems of the dispatcher at concrete inputs.
use aigenora.Prelude.{
  ℕ, ◌+◌, String, ◌≡◌, refl, Bool, true, false, not, Option, none, some, [], ◌∷◌, ok, err,
  if◌then◌else◌,
}
use aigenora.Collab.Store.Rows.{Task, Invocation}
use aigenora.Collab.Store.States.{
  TaskState, queued, dispatching, running, waiting_local_operator, export_check,
}
use aigenora.Collab.Store.Tables.{find, has_key, select, invocation_has_key, latest_started}
use aigenora.Collab.Store.Transitions.{row}
use aigenora.Collab.Store.{Store, new_task, illegal_transition}
use aigenora.Collab.Dispatch.{
  Attempt, dispatch, Service, dispatch_round, is_watched, Verdict, proves_running_or_finished,
  recover_task, cancel_request,
}
use aigenora.Collab.Dispatch.Outcomes.{
  Stands, dispatch_submit_raises, dispatch_accepted, dispatch_round_starves,
}
use aigenora.Collab.Dispatch.Recovery.{recover_task_lem, in_dispatching, evidence, recovered}
use aigenora.Collab.Dispatch.Cancel.{cancel_request_lem, cancelled_from, cancel_reply, state_or}

abbrev task_at : String → TaskState → Task
task_at id state =
    let t = new_task "guest" id "d" "goal" "local" none 7 in record t { state = state }

abbrev claimed : Invocation
claimed = record {
  id = "inv-1";
  source_device = "guest";
  task_id = "t1";
  adapter = "zcode";
  handle = "4711";
  status = "submitted";
  started_at = 9;
  finished_at = none;
}

abbrev ledger : TaskState → Store
ledger state = record {
  tasks = task_at "t1" state ∷ task_at "t2" queued ∷ [];
  events = [];
  notes = [];
  invocations = claimed ∷ [];
  inputs = [];
  clock = λ n. n + 100;
  reads = 0;
}

ledger-Stands : (state : TaskState) → Stands "guest" "t1" (ledger state) state 1
unfolding find has_key
ledger-Stands state = record {
  task = task_at "t1" state;
  found = refl;
  in_state = refl;
  at_revision = refl;
}

-- An attempt that finds the adapter ready or not, and gets a handle or an exception.
abbrev attempt : Option Bool → Option String → Attempt
attempt ready handle = record {
  ready = ready;
  detail = "no binary";
  handle = handle;
  attended = true;
  adapter = "zcode";
  invocation = "inv-2";
}

dispatch_submit_raises_example :
    (s' : Store) × (dispatch "guest" "t1" (attempt (some true) none) (ledger queued)
      ≡ (err illegal_transition, s'))
    × Stands "guest" "t1" s' dispatching (1 + 1)
unfolding find
dispatch_submit_raises_example =
    dispatch_submit_raises "guest" "t1" (attempt (some true) none) (ledger queued) 1
      (ledger-Stands queued) refl refl refl

dispatch_accepted_example :
    (s' : Store) × (dispatch "guest" "t1" (attempt (some true) (some "99")) (ledger queued)
      ≡ (ok (not true), s'))
    × Stands "guest" "t1" s'
        (if true then waiting_local_operator else running)
        (if true then 1 + 3 else 1 + 2)
unfolding find
dispatch_accepted_example =
    dispatch_accepted "guest" "t1" (attempt (some true) (some "99")) (ledger queued) 1
      (ledger-Stands queued) "99" refl refl refl

abbrev service : Service
service = record { store = ledger queued; watched = [] }

dispatch_round_starves_example :
    dispatch_round
      (("guest", "t1") ∷ ("guest", "t2") ∷ [])
      (λ _ _. attempt (some false) none)
      service
    ≡ service
unfolding is_watched
dispatch_round_starves_example =
    dispatch_round_starves "guest" "t1" (("guest", "t2") ∷ []) (λ _ _. attempt (some false) none)
      service 1 (ledger-Stands queued) refl refl

abbrev asked : String → String → Verdict
asked id handle = proves_running_or_finished

-- The restart leaves a claimed task in `dispatching`.
recover_task_lem_example :
    (s' : Store) × (m : ℕ) × (recover_task asked "guest" "t1" dispatching (ledger dispatching)
      ≡ (ok tt, s'))
    × Stands "guest" "t1" s'
        (recovered dispatching (evidence asked "guest" "t1" (ledger dispatching)))
        m
recover_task_lem_example =
    recover_task_lem asked "guest" "t1" (ledger dispatching) 1 dispatching in_dispatching
      (ledger-Stands dispatching)

recovered_nowhere :
    recovered dispatching (evidence asked "guest" "t1" (ledger dispatching)) ≡ dispatching
unfolding recovered select invocation_has_key latest_started
recovered_nowhere = refl

cancel_request_lem_example :
    let (r, s') = cancel_request (λ _. true) (task_at "t1" export_check) (ledger export_check) in
    (r ≡ cancel_reply (cancelled_from export_check))
    × ((t : Task) × (row "guest" "t1" s' ≡ some t)
        × (t.state ≡ state_or (cancelled_from export_check) export_check))
unfolding find has_key
cancel_request_lem_example =
    cancel_request_lem (λ _. true) (task_at "t1" export_check) (ledger export_check) refl
