-- ===== src/Collab/Store/Insertion.antt =====
-- `insert_task` of aigenora/collab/store.py: a task is received once, however often it is sent.
use aigenora.Prelude.{
  ◌+◌, String, ◌≡◌, ◌≢◌, refl, true, Option, none, some, [], ◌∷◌, ◌++◌, arith, eq_iff, ok,
  Option-cases, inl, inr,
}
use aigenora.Prelude.Int.{ℤ}
use aigenora.Collab.Store.Rows.{Task}
use aigenora.Collab.Store.Tables.{has_key, find}
use aigenora.Collab.Store.Laws.{find-append}
use aigenora.Collab.Store.Numbering.{append_event_total}
use aigenora.Collab.Store.Transitions.{row}
use aigenora.Collab.Store.{Store, get_task, insert_task, insert_new_task, now_ms, new_task}

module _ (source id digest goal class : String) (expires : Option ℤ) (s : Store) where
  -- The row of a task that is new.
  abbrev pub received_row : Task
  received_row = new_task source id digest goal class expires (s.clock s.reads)

  own_key : has_key source id received_row ≡ true
  unfolding has_key
  own_key = ground (arith, eq_iff source source, eq_iff id id)

  pub tasks-insert_new_task :
      (insert_new_task source id digest goal class expires s).1.tasks ≡ s.tasks ++ received_row ∷ []
  unfolding insert_new_task now_ms get_task
  tasks-insert_new_task = ground (
    arith,
    append_event_total source id "received" "task durably received"
        (record s { reads = s.reads + 1; tasks = s.tasks ++ received_row ∷ [] }),
  )

  find_received :
      row source id s ≡ none
      → find (has_key source id) (s.tasks ++ received_row ∷ []) ≡ some received_row
  unfolding find
  find_received h = rw (find-append (has_key source id) s.tasks) (rw h (rw own_key refl))

  insert_new_task_lem :
      row source id s ≡ none
      → ((insert_new_task source id digest goal class expires s).0 ≡ ok (some received_row))
        × (row source id (insert_new_task source id digest goal class expires s).1
            ≡ some received_row)
  unfolding insert_new_task now_ms get_task
  insert_new_task_lem h = ground (
    arith,
    append_event_total source id "received" "task durably received"
        (record s { reads = s.reads + 1; tasks = s.tasks ++ received_row ∷ [] }),
    find_received h,
  )

-- Once the key has a row, `insert_task` returns it and changes nothing.
pub insert_task-found :
    (source id digest goal class : String) (expires : Option ℤ) (s : Store) (t : Task)
    → row source id s ≡ some t
    → insert_task source id digest goal class expires s ≡ (ok (some t), s)
unfolding insert_task get_task
insert_task-found source id digest goal class expires s t h = ground arith

pub insert_task-new :
    (source id digest goal class : String) (expires : Option ℤ) (s : Store)
    → row source id s ≡ none
    → insert_task source id digest goal class expires s
      ≡ insert_new_task source id digest goal class expires s
unfolding insert_task get_task
insert_task-new source id digest goal class expires s h = ground arith

-- After a task was sent once, its row is the one that was returned, and sending it again, with
-- whatever digest, goal, class and expiry, returns that row and changes nothing.
pub insert_task_once :
    (source id digest goal class : String) (expires : Option ℤ) (digest' goal' class' : String)
    (expires' : Option ℤ) (s : Store)
    → let (r, s') = insert_task source id digest goal class expires s in
      (r ≡ ok (row source id s'))
      × (row source id s' ≢ none)
      × (insert_task source id digest' goal' class' expires' s' ≡ (r, s'))
insert_task_once source id digest goal class expires digest' goal' class' expires' s =
    elim (Option-cases (row source id s)) [
      | inl new ↦
          let (returned, found) = insert_new_task_lem source id digest goal class expires s new in
          rw (insert_task-new source id digest goal class expires s new) (
            rw (returned, found),
            λ e. cc,
            rw returned (insert_task-found source id digest' goal' class' expires' _ _ found),
          )
      | inr (t, old) ↦
          rw (insert_task-found source id digest goal class expires s t old)
            (rw old, λ e. cc, insert_task-found source id digest' goal' class' expires' s t old)
    ]
