-- ===== src/Collab/Dispatch/Outcomes.antt =====
-- How one dispatch of aigenora/collab/service.py ends, by what the adapter answers.
use Prim.Native.String.{◌++◌ as str_append}
use aigenora.Prelude.{
  ℕ, ◌+◌, String, ◌≡◌, refl, Bool, true, false, not, Bool-cases, inl, inr, eq_iff, Option, none,
  some, List, [], ◌∷◌, arith, ok, err, if◌then◌else◌, str_eq, ◌++◌, ap, ◌∙◌,
}
use aigenora.Collab.Store.Rows.{Task, Invocation, truncate}
use aigenora.Collab.Store.States.{
  TaskState, queued, dispatching, running, waiting_local_operator, execution_unknown, contains,
  targets, state_eq,
}
use aigenora.Collab.Store.Tables.{find}
use aigenora.Collab.Store.Transitions.{row, moved, transition_legal, transition_illegal}
use aigenora.Collab.Store.{
  Store, transition, illegal_transition, get_task, insert_invocation, set_invocation_handle,
  set_invocation_status, now_ms,
}
use aigenora.Collab.Dispatch.{
  after_probe, Attempt, after_submit, dispatch, Service, try_dispatch, dispatch_round, is_watched,
  discard,
}

-- A task that stands in a state, at a revision.
pub record Stands (source id : String) (s : Store) (state : TaskState) (revision : ℕ) : Type 0 where
  pub task : Task
  pub found : row source id s ≡ some task
  pub in_state : task.state ≡ state
  pub at_revision : task.revision ≡ revision

-- A legal transition of a task that stands somewhere returns, and moves it.
pub Stands-transition :
    (source id : String) (s : Store) (old new : TaskState) (n : ℕ) (kind : Option String)
    (summary : String)
    → Stands source id s old n
    → state_eq old new ≡ false
    → contains (targets old) new ≡ true
    → (t : Task) × (s' : Store) × (transition source id new kind summary [] true s
        ≡ (ok (some t), s'))
      × Stands source id s' new (n + 1)
Stands-transition source id s old new n kind summary h ne edge =
    let t : Task = h.task in
    let t' : Task = moved source id s new kind summary [] t in
    let s' : Store = (transition source id new kind summary [] true s).1 in
    let (returned, own, state, revision, _) =
      transition_legal source id s new kind summary [] t true h.found (rw (h.in_state) ne)
        (rw (h.in_state) edge) in
    (
      t',
      s',
      λ i. (returned i, s'),
      record {
        task = t';
        found = own;
        in_state = state;
        at_revision = revision ∙ ap (λ m. m + 1) h.at_revision;
      },
    )

-- An illegal one raises and leaves the ledger alone.
pub Stands-refused :
    (source id : String) (s : Store) (old new : TaskState) (n : ℕ) (kind : Option String)
    (summary : String)
    → Stands source id s old n
    → state_eq old new ≡ false
    → contains (targets old) new ≡ false
    → transition source id new kind summary [] true s ≡ (err illegal_transition, s)
Stands-refused source id s old new n kind summary h ne edge =
    transition_illegal source id s new kind summary [] h.task true h.found (rw (h.in_state) ne)
      (rw (h.in_state) edge)

Stands-revision :
    {source id : String} {s : Store} {state : TaskState} {n m : ℕ}
    → n ≡ m
    → Stands source id s state n
    → Stands source id s state m
Stands-revision e h = rw (← e) h

module _ {source id : String} {s : Store} (st st' : TaskState) (n m : ℕ) where
  Stands-then :
      (b : Bool)
      → b ≡ true
      → Stands source id s st n
      → Stands source id s (if b then st else st') (if b then n else m)
  Stands-then true e h = h
  Stands-then false e h = absurd (ground arith)

  Stands-else :
      (b : Bool)
      → b ≡ false
      → Stands source id s st' m
      → Stands source id s (if b then st else st') (if b then n else m)
  Stands-else false e h = h
  Stands-else true e h = absurd (ground arith)

discard_absent :
    (source id : String) (watched : List (String × String))
    → is_watched source id watched ≡ false
    → discard source id watched ≡ watched
unfolding discard is_watched
discard_absent source id [] h = refl
discard_absent source id ((s, i) ∷ rest) h = ground (arith, discard_absent source id rest)

discard_unwatched :
    (source id : String) (watched : List (String × String))
    → is_watched source id watched ≡ false
    → discard source id ((source, id) ∷ watched) ≡ watched
unfolding discard
discard_unwatched source id watched h =
    ground (arith, eq_iff source source, eq_iff id id, discard_absent source id watched h)

-- The id of the attempt is not in the table of invocations.
abbrev pub IsFresh : Attempt → Store → Type 0
IsFresh a s = find (λ i. str_eq i.id a.invocation) s.invocations ≡ none

abbrev started : Attempt → String → String → Store → Invocation
started a source id s = record {
  id = a.invocation;
  source_device = source;
  task_id = id;
  adapter = a.adapter;
  handle = "";
  status = "starting";
  started_at = s.clock s.reads;
  finished_at = none;
}

-- The ledger with the attempt's invocation recorded.
abbrev recorded : Attempt → String → String → Store → Store
recorded a source id s = record s {
  reads = s.reads + 1;
  invocations = s.invocations ++ started a source id s ∷ [];
}

insert_invocation_fresh :
    (a : Attempt) (source id : String) (s : Store)
    → IsFresh a s
    → insert_invocation a.invocation source id a.adapter s ≡ (ok tt, recorded a source id s)
unfolding insert_invocation
insert_invocation_fresh a source id s h = ground arith

module _ (source id : String) (a : Attempt) (s : Store) (n : ℕ)
    (h : Stands source id s queued n) where
  -- The adapter is not ready: the code asks for a transition that the state machine does not have,
  -- so the dispatch raises and the ledger, with the task queued in it, is left alone.
  pub dispatch_not_ready :
      a.ready ≡ some false → dispatch source id a s ≡ (err illegal_transition, s)
  unfolding dispatch after_probe get_task state_eq contains targets
  dispatch_not_ready e = ground (
    arith,
    h.found,
    Stands-refused source id s queued waiting_local_operator n (some "adapter_not_ready")
        (str_append "adapter not ready: " (truncate 200 a.detail)) h refl refl,
  )

  queued_to_dispatching :
      IsFresh a s
      → (t : Task) × (s' : Store) × (transition source id dispatching
            (some "dispatching")
            (str_append "invocation " a.invocation)
            []
            true
            (recorded a source id s)
          ≡ (ok (some t), s'))
        × Stands source id s' dispatching (n + 1)
  unfolding state_eq contains targets
  queued_to_dispatching fresh =
      Stands-transition source id (recorded a source id s) queued dispatching n (some "dispatching")
        (str_append "invocation " a.invocation)
        (record {
          task = h.task;
          found = h.found;
          in_state = h.in_state;
          at_revision = h.at_revision;
        })
        refl refl

  dispatch-after_submit :
      a.ready ≡ some true
      → IsFresh a s
      → (s' : Store) × (dispatch source id a s ≡ after_submit source id a a.handle s')
        × Stands source id s' dispatching (n + 1)
  unfolding dispatch after_probe get_task
  dispatch-after_submit e fresh =
      let (t, s', moves, stands) = queued_to_dispatching fresh in
      (s', ground (arith, h.found, insert_invocation_fresh a source id s fresh, moves), stands)

  -- The adapter raises in `submit`: the code asks for `execution_unknown`, which the state machine
  -- does not have behind `dispatching`, so the dispatch raises and the task stays in `dispatching`.
  pub dispatch_submit_raises :
      a.ready ≡ some true
      → a.handle ≡ none
      → IsFresh a s
      → (s' : Store) × (dispatch source id a s ≡ (err illegal_transition, s'))
        × Stands source id s' dispatching (n + 1)
  unfolding after_submit set_invocation_status now_ms state_eq contains targets
  dispatch_submit_raises e raised fresh =
      let (s', calls, stands) = dispatch-after_submit e fresh in
      let s'' : Store = (set_invocation_status a.invocation "submit_error" true s').1 in
      let stands' : Stands source id s'' dispatching (n + 1) = record {
        task = stands.task;
        found = stands.found;
        in_state = stands.in_state;
        at_revision = stands.at_revision;
      } in
      (
        s'',
        calls
            ∙ ground (
              arith,
              raised,
              Stands-refused source id s'' dispatching execution_unknown (n + 1)
                  (some "execution_unknown")
                  "adapter submit raised; cannot prove execution never started" stands' refl refl,
            ),
        stands',
      )

  -- The adapter takes the task: it runs, and where the adapter is attended it is parked for the
  -- local operator; a watcher is started exactly where it is not.
  pub dispatch_accepted :
      (handle : String)
      → a.ready ≡ some true
      → a.handle ≡ some handle
      → IsFresh a s
      → (s' : Store) × (dispatch source id a s ≡ (ok (not a.attended), s'))
        × Stands source id s'
            (if a.attended then waiting_local_operator else running)
            (if a.attended then n + 3 else n + 2)
  unfolding after_submit set_invocation_handle state_eq contains targets
  dispatch_accepted handle e taken fresh =
      let (s1, calls, stands) = dispatch-after_submit e fresh in
      let s2 : Store = (set_invocation_handle a.invocation handle "submitted" s1).1 in
      let stands2 : Stands source id s2 dispatching (n + 1) = record {
        task = stands.task;
        found = stands.found;
        in_state = stands.in_state;
        at_revision = stands.at_revision;
      } in
      let (t3, s3, runs, stands3) =
        Stands-transition source id s2 dispatching running (n + 1) (some "running")
          (str_append "adapter " (str_append a.adapter " accepted the task")) stands2 refl refl in
      let (t4, s4, parks, stands4) =
        Stands-transition source id s3 running waiting_local_operator (n + 1 + 1)
          (some "waiting_local_operator") "attended adapter: local operator must drive the task"
          stands3 refl refl in
      elim (Bool-cases a.attended) [
        | inl attended ↦ (
          s4,
          calls ∙ ground (arith, taken, attended, runs, parks),
          Stands-then waiting_local_operator running (n + 3) (n + 2) a.attended attended
              (Stands-revision (omega arith) stands4),
        )
        | inr alone ↦ (
          s3,
          calls ∙ ground (arith, taken, alone, runs),
          Stands-else waiting_local_operator running (n + 3) (n + 2) a.attended alone
              (Stands-revision (omega arith) stands3),
        )
      ]

-- A queued task whose adapter is not ready ends the round of the dispatch loop: the tasks behind it
-- are not tried, and the service is left as it was.
pub dispatch_round_starves :
    (source id : String) (rest : List (String × String)) (attempt : String → String → Attempt)
    (s : Service) (n : ℕ)
    → Stands source id s.store queued n
    → (attempt source id).ready ≡ some false
    → is_watched source id s.watched ≡ false
    → dispatch_round ((source, id) ∷ rest) attempt s ≡ s
unfolding dispatch_round try_dispatch
dispatch_round_starves source id rest attempt s n h e free = ground (
  arith,
  dispatch_not_ready source id (attempt source id) s.store n h e,
  discard_unwatched source id s.watched free,
)
