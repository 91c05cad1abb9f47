-- ===== src/Collab/Store/History.antt =====
-- Histories of the ledger of aigenora/collab/store.py: any sequence of its operations on tasks and
-- events, one call behind the other. Calls that overlap are not histories: `transition` reads the row
-- and updates it in two statements, which Collab/Store/Race is about.
use aigenora.Prelude.{
  ℕ, ◌≤◌, String, ◌≡◌, refl, Bool, true, false, Option, none, some, List, [], ◌∷◌, ◌∙◌, sym, arith,
  eq_iff, Option-cases, Bool-cases, inl, inr, ◌⊎◌, str_eq, ◌&&◌,
}
use aigenora.Prelude.Int.{ℤ}
use aigenora.Collab.Store.Rows.{Task, Update, apply_updates}
use aigenora.Collab.Store.States.{TaskState, contains, targets, state_eq, index}
use aigenora.Collab.Store.Tables.{has_key, find, update_where}
use aigenora.Collab.Store.Laws.{
  find-append, find-update_where_self, find-update_where_ne, has_key-apply_updates,
  apply_updates-Keeps, keys_disjoint,
}
use aigenora.Collab.Store.Numbering.{append_event_total}
use aigenora.Collab.Store.Transitions.{row, moved, transition_legal, transition_illegal}
use aigenora.Collab.Store.Insertion.{insert_task-found, insert_task-new, tasks-insert_new_task}
use aigenora.Collab.Store.{
  Store, append_event, transition, insert_task, set_task_fields, now_ms, get_task, write_fields,
}

-- One operation, whether it returns or raises.
pub data Step (s : Store) : Store → Type 0 where
  inserts :
      (source id digest goal class : String) (expires : Option ℤ)
      → Step s (insert_task source id digest goal class expires s).1
  moves :
      (source id : String) (new : TaskState) (kind : Option String) (summary : String)
      (extra : List Update) (allow_same : Bool)
      → Step s (transition source id new kind summary extra allow_same s).1
  appends : (source id kind summary : String) → Step s (append_event source id kind summary s).1
  sets : (source id : String) (us : List Update) → Step s (set_task_fields source id us s).1

pub data History (s : Store) : Store → Type 0 where
  here : History s s
  next : {t u : Store} → History s t → Step t u → History s u

-- The state of a row stays, or moves along one edge.
abbrev Moves : TaskState → TaskState → Type 0
Moves a b = (a ≡ b) ⊎ (contains (targets a) b ≡ true)

-- A key that has a row keeps one, in the same state or one edge further.
abbrev Follows : String → String → Store → Store → Type 0
Follows source id s s' =
    (t : Task)
    → row source id s ≡ some t
    → (t' : Task) × (row source id s' ≡ some t') × Moves t.state t'.state

inserts-Follows :
    (source id digest goal class : String) (expires : Option ℤ) (s : Store) (source' id' : String)
    → Follows source' id' s (insert_task source id digest goal class expires s).1
inserts-Follows source id digest goal class expires s source' id' t h =
    elim (Option-cases (row source id s)) [
      | inr (u, old) ↦
          (t, rw (insert_task-found source id digest goal class expires s u old) h, inl refl)
      | inl new ↦ (
        t,
        rw (insert_task-new source id digest goal class expires s new) (
            rw (tasks-insert_new_task source id digest goal class expires s)
              (rw (find-append (has_key source' id') s.tasks) (rw h refl))),
        inl refl,
      )
    ]

same_key :
    (source id source' id' : String)
    → ((source ≡ source') × (id ≡ id')) ⊎ (source ≡ source' → id ≡ id' → ⊥)
same_key source id source' id' = elim (Bool-cases (str_eq source source' && str_eq id id')) [
  | inl e ↦ inl (ground (arith, eq_iff source source', eq_iff id id'))
  | inr n ↦ inr (λ p q. ground (arith, eq_iff source source', eq_iff id id'))
]

transition_missing :
    (source id : String) (new : TaskState) (kind : Option String) (summary : String)
    (extra : List Update) (allow : Bool) (s : Store)
    → row source id s ≡ none
    → (transition source id new kind summary extra allow s).1 ≡ s
unfolding transition get_task
transition_missing source id new kind summary extra allow s h = ground arith

transition_same :
    (source id : String) (new : TaskState) (kind : Option String) (summary : String)
    (extra : List Update) (allow : Bool) (s : Store) (u : Task)
    → row source id s ≡ some u
    → state_eq u.state new ≡ true
    → (transition source id new kind summary extra allow s).1 ≡ s
unfolding transition get_task
transition_same source id new kind summary extra allow s u h e = ground arith

moves_legal :
    (source id : String) (new : TaskState) (kind : Option String) (summary : String)
    (extra : List Update) (allow : Bool) (s : Store) (source' id' : String) (u : Task)
    → row source id s ≡ some u
    → state_eq u.state new ≡ false
    → contains (targets u.state) new ≡ true
    → Follows source' id' s (transition source id new kind summary extra allow s).1
moves_legal source id new kind summary extra allow s source' id' u found ne edge t h =
    let (_, own, state, _, others) =
      transition_legal source id s new kind summary extra u allow found ne edge in
    elim (same_key source id source' id') [
      | inl (p, q) ↦
          let mine : row source id s ≡ row source' id' s = cc in
          let same : u ≡ t = cc in
          let after : Store = (transition source id new kind summary extra allow s).1 in
          let there : row source' id' after ≡ row source id after = cc in
          (moved source id s new kind summary extra u, there ∙ own, inr (rw (state, ← same) edge))
      | inr d ↦ (t, others source' id' d ∙ h, inl refl)
    ]

-- What `transition` does to the row of its own key and to the others, whatever its outcome.
moves-Follows :
    (source id : String) (new : TaskState) (kind : Option String) (summary : String)
    (extra : List Update) (allow : Bool) (s : Store) (source' id' : String)
    → Follows source' id' s (transition source id new kind summary extra allow s).1
moves-Follows source id new kind summary extra allow s source' id' t h =
    elim (Option-cases (row source id s)) [
      | inl missing ↦
          (t, rw (transition_missing source id new kind summary extra allow s missing) h, inl refl)
      | inr (u, found) ↦ elim (Bool-cases (state_eq u.state new)) [
        | inl same ↦ (
          t,
          rw (transition_same source id new kind summary extra allow s u found same) h,
          inl refl,
        )
        | inr ne ↦ elim (Bool-cases (contains (targets u.state) new)) [
          | inr off ↦ (
            t,
            rw (transition_illegal source id s new kind summary extra u allow found ne off) h,
            inl refl,
          )
          | inl edge ↦
              moves_legal source id new kind summary extra allow s source' id' u found ne edge t h
        ]
      ]
    ]

appends-Follows :
    (source id kind summary : String) (s : Store) (source' id' : String)
    → Follows source' id' s (append_event source id kind summary s).1
appends-Follows source id kind summary s source' id' t h =
    (t, rw (append_event_total source id kind summary s) h, inl refl)

write_fields_columns :
    (source id : String) (us : List Update) (at : ℕ) (t : Task)
    → (has_key source id (write_fields us at t) ≡ has_key source id t)
      × ((write_fields us at t).state ≡ t.state)
unfolding write_fields
write_fields_columns source id us at t =
    let e : has_key source id (write_fields us at t) ≡ has_key source id (apply_updates us t) =
      unfold has_key in refl in
    (e ∙ has_key-apply_updates source id us t, (apply_updates-Keeps us t).state)

sets-Follows :
    (source id : String) (us : List Update) (s : Store) (source' id' : String)
    → Follows source' id' s (set_task_fields source id us s).1
unfolding set_task_fields now_ms
sets-Follows source id [] s source' id' t h = (t, h, inl refl)
sets-Follows source id (u ∷ us) s source' id' t h =
    let write : Task → Task = write_fields (u ∷ us) (s.clock s.reads) in
    elim (same_key source id source' id') [
      | inl (p, q) ↦
          let found : find (has_key source' id') (update_where (has_key source' id') write s.tasks)
              ≡ some (write t) =
            find-update_where_self (has_key source' id') write s.tasks
              (λ x. (write_fields_columns source' id' (u ∷ us) (s.clock s.reads) x).0)
            ∙ rw h in
          (
            write t,
            rw (p, q) found,
            inl (sym (write_fields_columns source id (u ∷ us) (s.clock s.reads) t).1),
          )
      | inr d ↦ (
        t,
        find-update_where_ne (has_key source id) (has_key source' id') write s.tasks
              (λ x. (write_fields_columns source' id' (u ∷ us) (s.clock s.reads) x).0)
              (keys_disjoint source id source' id' d)
            ∙ h,
        inl refl,
      )
    ]

Step-Follows : {s s' : Store} (source id : String) → Step s s' → Follows source id s s'
Step-Follows {s} source id (inserts src i digest goal class expires) =
    inserts-Follows src i digest goal class expires s source id
Step-Follows {s} source id (moves src i new kind summary extra allow) =
    moves-Follows src i new kind summary extra allow s source id
Step-Follows {s} source id (appends src i kind summary) =
    appends-Follows src i kind summary s source id
Step-Follows {s} source id (sets src i us) = sets-Follows src i us s source id

started_edge : (a b : TaskState) → Moves a b → 4 ≤ index a → 4 ≤ index b
unfolding contains targets index
started_edge TaskState.received b m h = absurd (omega arith)
started_edge _ b m h = ground arith

terminal_edge : (a b : TaskState) → Moves a b → 9 ≤ index a → b ≡ a
unfolding contains targets index
terminal_edge TaskState.received b m h = absurd (omega arith)
terminal_edge _ b m h = ground arith

-- Over any sequence of calls that do not overlap, a task that has reached `running` or a later state
-- stays in the ledger and never again stands in `received`, `waiting_inputs`, `queued` or `dispatching`.
pub History_started :
    {s s' : Store} (source id : String)
    → History s s'
    → (t : Task) → row source id s ≡ some t
    → 4 ≤ index t.state
    → (t' : Task) × (row source id s' ≡ some t') × (4 ≤ index t'.state)
History_started source id here t h st = (t, h, st)
History_started source id (next r step) t h st =
    let (u, there, late) = History_started source id r t h st in
    let (v, then_row, m) = Step-Follows source id step u there in
    (v, then_row, started_edge u.state v.state m late)

-- Over any sequence of calls that do not overlap, a task that has ended stays in the ledger in the
-- state in which it ended.
pub History_terminal :
    {s s' : Store} (source id : String)
    → History s s'
    → (t : Task) → row source id s ≡ some t
    → 9 ≤ index t.state
    → (t' : Task) × (row source id s' ≡ some t') × (t'.state ≡ t.state)
History_terminal source id here t h st = (t, h, refl)
History_terminal source id (next r step) t h st =
    let (u, there, same) = History_terminal source id r t h st in
    let (v, then_row, m) = Step-Follows source id step u there in
    (v, then_row, terminal_edge u.state v.state m (rw same st) ∙ same)
