-- ===== src/Collab/Store/Rows.antt =====
-- The rows of the tables of aigenora/collab/store.py, and the columns that callers write by name.
use aigenora.Prelude.{ℕ, zero, suc, String, Option, List, [], ◌∷◌}
use aigenora.Prelude.Int.{ℤ}
use aigenora.Collab.Store.States.{TaskState}

pub record Task : Type 0 where
  pub source_device : String
  pub task_id : String
  pub state : TaskState
  pub request_digest : String
  pub task_goal : String
  pub execution_class : String
  pub expires_at_ms : Option ℤ
  pub created_at : ℕ
  pub updated_at : ℕ
  pub session_id : Option String
  pub revision : ℕ
  pub result_manifest : Option String
  pub result_summary : Option String
  pub result_state : Option String
  pub result_acked : ℕ
  pub input_request : Option String

pub record EventRow : Type 0 where
  pub source_device : String
  pub task_id : String
  pub event_id : ℕ
  pub kind : String
  pub summary : String
  pub at : ℕ

pub record Note : Type 0 where
  pub source_device : String
  pub task_id : String
  pub from_role : String
  pub note_id : String
  pub text : String
  pub created_at : ℕ
  pub delivered : ℕ

pub record Invocation : Type 0 where
  pub id : String
  pub source_device : String
  pub task_id : String
  pub adapter : String
  pub handle : String
  pub status : String
  pub started_at : ℕ
  pub finished_at : Option ℕ

pub record Input : Type 0 where
  pub source_device : String
  pub task_id : String
  pub input_id : String
  pub question : String
  pub answer : Option String
  pub created_at : ℕ
  pub answered_at : Option ℕ

-- The columns that `extra_updates` and `set_task_fields` are called with.
pub data Update : Type 0 where
  set_result_state set_result_summary set_result_manifest : String → Update
  set_result_acked : ℕ → Update
  set_input_request : Option String → Update

unfoldable pub apply_update : Update → Task → Task
apply_update (set_result_state v) t = record t { result_state = Option.some v }
apply_update (set_result_summary v) t = record t { result_summary = Option.some v }
apply_update (set_result_manifest v) t = record t { result_manifest = Option.some v }
apply_update (set_result_acked n) t = record t { result_acked = n }
apply_update (set_input_request v) t = record t { input_request = v }

unfoldable pub apply_updates : List Update → Task → Task
unfolding apply_update
apply_updates [] t = t
apply_updates (u ∷ us) t = apply_updates us (apply_update u t)

-- `text[:n]`
unfoldable pub truncate : ℕ → String → String
truncate zero text = String.[]
truncate (suc n) String.[] = String.[]
truncate (suc n) (String.◌∷◌ c text) = String.◌∷◌ c (truncate n text)
