-- ===== src/Collab/Store/Tables.antt =====
-- The statements of aigenora/collab/store.py on its tables: SELECT, UPDATE and MAX over the rows
-- that a WHERE clause keeps.
use aigenora.Prelude.{
  ℕ, String, Bool, ◌&&◌, Option, none, some, List, [], ◌∷◌, str_eq, ltb, ◌==◌, if◌then◌else◌,
}
use aigenora.Collab.Store.Rows.{Task, EventRow, Invocation, Note, Input}

-- `WHERE source_device=? AND task_id=?`, on each table
unfoldable pub has_key : String → String → Task → Bool
has_key source id t = str_eq t.source_device source && str_eq t.task_id id

unfoldable pub event_has_key : String → String → EventRow → Bool
event_has_key source id e = str_eq e.source_device source && str_eq e.task_id id

-- The primary key of `events`.
unfoldable pub event_has_id : String → String → ℕ → EventRow → Bool
event_has_id source id n e = event_has_key source id e && e.event_id == n

unfoldable pub note_has_key : String → String → String → String → Note → Bool
note_has_key source id role note n =
    str_eq n.source_device source
    && str_eq n.task_id id
    && str_eq n.from_role role
    && str_eq n.note_id note

unfoldable pub invocation_has_key : String → String → Invocation → Bool
invocation_has_key source id i = str_eq i.source_device source && str_eq i.task_id id

unfoldable pub input_has_key : String → String → String → Input → Bool
input_has_key source id input i =
    str_eq i.source_device source && str_eq i.task_id id && str_eq i.input_id input

module _ {A : Type 0} where
  -- The first row that a test keeps.
  unfoldable pub find : (A → Bool) → List A → Option A
  find p [] = none
  find p (x ∷ xs) = if p x then some x else find p xs

  -- `UPDATE … SET … WHERE …`
  unfoldable pub update_where : (A → Bool) → (A → A) → List A → List A
  update_where p f [] = []
  update_where p f (x ∷ xs) = (if p x then f x else x) ∷ update_where p f xs

  unfoldable pub select : (A → Bool) → List A → List A
  select p [] = []
  select p (x ∷ xs) = let rest = select p xs in if p x then x ∷ rest else rest

-- `SELECT COALESCE(MAX(event_id),0)`
unfoldable pub max_event_id : List EventRow → ℕ
max_event_id [] = 0
max_event_id (e ∷ es) = let m = max_event_id es in if ltb m e.event_id then e.event_id else m

unfoldable pub insert_by_id : EventRow → List EventRow → List EventRow
insert_by_id e [] = e ∷ []
insert_by_id e (x ∷ xs) = if ltb x.event_id e.event_id then x ∷ insert_by_id e xs else e ∷ x ∷ xs

-- `ORDER BY event_id`
unfoldable pub order_by_id : List EventRow → List EventRow
unfolding insert_by_id
order_by_id [] = []
order_by_id (e ∷ es) = insert_by_id e (order_by_id es)

-- `ORDER BY started_at DESC LIMIT 1`; of rows that started at one time, the one inserted first
unfoldable pub latest_started : List Invocation → Option Invocation
latest_started [] = none
latest_started (i ∷ is) = elim (latest_started is) [
  | none ↦ some i
  | some j ↦ if ltb i.started_at j.started_at then some j else some i
]
