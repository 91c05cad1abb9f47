-- ===== src/Collab/Store/States.antt =====
-- The task states of aigenora/collab/store.py and the edges between them.
use aigenora.Prelude.{ℕ, String, Bool, false, ◌||◌, List, [], ◌∷◌, ◌==◌}

pub data TaskState : Type 0 where
  received waiting_inputs queued dispatching running waiting_local_operator cancel_requested
        execution_unknown export_check completed failed rejected cancelled expired :
      TaskState

unfoldable pub index : TaskState → ℕ
index received = 0
index waiting_inputs = 1
index queued = 2
index dispatching = 3
index running = 4
index waiting_local_operator = 5
index cancel_requested = 6
index execution_unknown = 7
index export_check = 8
index completed = 9
index failed = 10
index rejected = 11
index cancelled = 12
index expired = 13

unfoldable pub state_eq : TaskState → TaskState → Bool
unfolding index
state_eq a b = index a == index b

unfoldable pub contains : List TaskState → TaskState → Bool
unfolding state_eq
contains [] a = false
contains (x ∷ xs) a = state_eq x a || contains xs a

-- `TRANSITIONS`
unfoldable pub targets : TaskState → List TaskState
targets received = queued ∷ waiting_inputs ∷ cancelled ∷ rejected ∷ []
targets waiting_inputs = queued ∷ cancelled ∷ expired ∷ []
targets queued = dispatching ∷ cancelled ∷ expired ∷ []
targets dispatching = running ∷ failed ∷ queued ∷ []
targets running =
    waiting_local_operator ∷ cancel_requested ∷ export_check ∷ failed ∷ execution_unknown ∷ []
targets waiting_local_operator = running ∷ cancelled ∷ failed ∷ export_check ∷ []
targets cancel_requested = cancelled ∷ execution_unknown ∷ completed ∷ failed ∷ []
targets execution_unknown = running ∷ export_check ∷ failed ∷ cancelled ∷ completed ∷ []
targets export_check = completed ∷ waiting_local_operator ∷ cancelled ∷ failed ∷ []
targets _ = []

-- `TERMINAL_STATES`
unfoldable pub terminal_states : List TaskState
terminal_states = completed ∷ failed ∷ rejected ∷ cancelled ∷ expired ∷ []

-- The text of a state, as the column holds it.
unfoldable pub state_name : TaskState → String
state_name received = "received"
state_name waiting_inputs = "waiting_inputs"
state_name queued = "queued"
state_name dispatching = "dispatching"
state_name running = "running"
state_name waiting_local_operator = "waiting_local_operator"
state_name cancel_requested = "cancel_requested"
state_name execution_unknown = "execution_unknown"
state_name export_check = "export_check"
state_name completed = "completed"
state_name failed = "failed"
state_name rejected = "rejected"
state_name cancelled = "cancelled"
state_name expired = "expired"
