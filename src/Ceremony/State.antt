-- ===== src/Ceremony/State.antt =====
-- aigenora/ceremony/state.py: the ceremony's states, the guarded transition and the replay of a
-- recorded chain. An event is a JSON object: a field that is missing is `none`, and one that is there is any
-- JSON value. `text_of` is Python's `str` of a value that is not a text.
pub mod Legal
pub mod Replay
mod Tests
use aigenora.Prelude.{
  ℕ, zero, suc, ◌+◌, String, ◌≡◌, refl, Bool, true, false, ◌||◌, not, Option, none, some, List, [],
  ◌∷◌, map, Result, ok, err, ◌>>=◌, ◌>>◌, raise_if, str_eq, ◌==◌, if◌then◌else◌,
}
use aigenora.Proto.JsonDelta.Json.{Value, str, arr, obj, items, from_items, entries}

pub data CeremonyState : Type 0 where
  draft deliberating setup_frozen key_ceremony enrolling final_frozen voting sealed tallying
        provisional finalized disputed aborted :
      CeremonyState

-- The place of a state in the declaration of the enumeration.
unfoldable pub index : CeremonyState → ℕ
index draft = 0
index deliberating = 1
index setup_frozen = 2
index key_ceremony = 3
index enrolling = 4
index final_frozen = 5
index voting = 6
index sealed = 7
index tallying = 8
index provisional = 9
index finalized = 10
index disputed = 11
index aborted = 12

-- `==` of two members.
unfoldable pub state_eq : CeremonyState → CeremonyState → Bool
unfolding index
state_eq a b = index a == index b

unfoldable pub contains : List CeremonyState → CeremonyState → Bool
unfolding state_eq
contains [] a = false
contains (x ∷ xs) a = state_eq x a || contains xs a

-- `_FORWARD.get(state, set())`
unfoldable pub forward : CeremonyState → List CeremonyState
forward draft = deliberating ∷ []
forward deliberating = setup_frozen ∷ []
forward setup_frozen = key_ceremony ∷ []
forward key_ceremony = enrolling ∷ []
forward enrolling = final_frozen ∷ []
forward final_frozen = voting ∷ []
forward voting = sealed ∷ []
forward sealed = tallying ∷ []
forward tallying = provisional ∷ []
forward provisional = finalized ∷ []
forward disputed = aborted ∷ []
forward finalized = []
forward aborted = []

-- `_TERMINAL`
unfoldable pub is_terminal : CeremonyState → Bool
is_terminal finalized = true
is_terminal aborted = true
is_terminal _ = false

pub record Transition : Type 0 where
  pub old_state : CeremonyState
  pub new_state : CeremonyState
  pub input_artifact_root : String
  pub output_artifact_root : String
  pub reason_code : String
  pub evidence_ids : List String

-- The messages of `VsdpError(INVALID_TRANSITION, …)`, and the TypeError of a loop over a value that has no
-- items; the number is the event's index.
pub data TransitionError : Type 0 where
  terminal not_allowed evidence_required reason_required : TransitionError
  unknown_schema invalid_state broken_chain not_iterable : ℕ → TransitionError

-- `allowed` of `transition`
unfoldable pub allowed : CeremonyState → List CeremonyState
unfolding forward
allowed disputed = forward disputed
allowed current = disputed ∷ aborted ∷ forward current

abbrev is_empty {ℓ} : {A : Type ℓ} → List A → Bool
is_empty [] = true
is_empty (_ ∷ _) = false

unfoldable pub transition :
    CeremonyState
    → CeremonyState
    → String
    → String
    → String
    → List String
    → Result TransitionError Transition
transition current target input_root output_root reason evidence = do
  raise_if (is_terminal current) terminal
  raise_if (not (contains (allowed current) target)) not_allowed
  raise_if (if state_eq target disputed then is_empty evidence else false) evidence_required
  raise_if (str_eq reason "") reason_required
  ok (record {
    old_state = current;
    new_state = target;
    input_artifact_root = input_root;
    output_artifact_root = output_root;
    reason_code = reason;
    evidence_ids = evidence;
  })

-- The member's `.value`.
unfoldable pub value : CeremonyState → String
value draft = "draft"
value deliberating = "deliberating"
value setup_frozen = "setup_frozen"
value key_ceremony = "key_ceremony"
value enrolling = "enrolling"
value final_frozen = "final_frozen"
value voting = "voting"
value sealed = "sealed"
value tallying = "tallying"
value provisional = "provisional"
value finalized = "finalized"
value disputed = "disputed"
value aborted = "aborted"

abbrev states : List CeremonyState
states =
    draft ∷ deliberating ∷ setup_frozen ∷ key_ceremony ∷ enrolling ∷ final_frozen ∷ voting ∷ sealed
    ∷ tallying ∷ provisional ∷ finalized ∷ disputed ∷ aborted ∷ []

find_value : List CeremonyState → String → Option CeremonyState
unfolding value
find_value [] text = none
find_value (s ∷ rest) text = if str_eq (value s) text then some s else find_value rest text

-- `CeremonyState(text)`; `none` is its ValueError.
unfoldable pub of_value : String → Option CeremonyState
unfolding find_value
of_value = find_value states

pub record Event : Type 0 where
  pub schema : Option Value
  pub old_state : Option Value
  pub new_state : Option Value
  pub input_artifact_root : Option Value
  pub output_artifact_root : Option Value
  pub reason_code : Option Value
  pub evidence_ids : Option Value

abbrev pub transition_schema : String
transition_schema = "vsdp-transition/1"

unfoldable pub as_dict : Transition → Event
unfolding value
as_dict t = record {
  schema = some (str transition_schema);
  old_state = some (str (value t.old_state));
  new_state = some (str (value t.new_state));
  input_artifact_root = some (str t.input_artifact_root);
  output_artifact_root = some (str t.output_artifact_root);
  reason_code = some (str t.reason_code);
  evidence_ids = some (arr (from_items (map str t.evidence_ids)));
}

-- `str(value)`, which leaves a text as it is.
abbrev pub str_of : (Value → String) → Value → String
str_of text_of (str text) = text
str_of text_of v = text_of v

-- `str(event.get(key, ""))`
abbrev pub get_text : (Value → String) → Option Value → String
get_text text_of none = ""
get_text text_of (some v) = str_of text_of v

-- `str(event[key])` and `CeremonyState(…)`, each with the error that the `except` clause raises
abbrev pub read_state : (Value → String) → ℕ → Option Value → Result TransitionError CeremonyState
read_state text_of i none = err (invalid_state i)
read_state text_of i (some v) = elim (of_value (str_of text_of v)) [
  | none ↦ err (invalid_state i)
  | some s ↦ ok s
]

abbrev pub has_schema : Option Value → Bool
has_schema (some (str text)) = str_eq text transition_schema
has_schema _ = false

-- The characters of a text, as texts.
unfoldable pub characters : String → List String
characters String.[] = []
characters (String.◌∷◌ ch rest) = String.◌∷◌ ch String.[] ∷ characters rest

-- `tuple(str(item) for item in event.get("evidence_ids", []))`: the items of a list, the characters of a
-- text and the keys of an object.
unfoldable pub evidence_of :
    (Value → String) → ℕ → Option Value → Result TransitionError (List String)
unfolding characters
evidence_of text_of i none = ok []
evidence_of text_of i (some (arr xs)) = ok (map (str_of text_of) (items xs))
evidence_of text_of i (some (str text)) = ok (characters text)
evidence_of text_of i (some (obj fs)) = ok (map (λ f. f.0) (entries fs))
evidence_of text_of i (some _) = err (not_iterable i)

-- The call of `transition` that checks an event.
abbrev pub check_event :
    (Value → String)
    → CeremonyState
    → CeremonyState
    → Event
    → List String
    → Result TransitionError Transition
check_event text_of current new event evidence =
    transition current new (get_text text_of event.input_artifact_root)
      (get_text text_of event.output_artifact_root) (get_text text_of event.reason_code) evidence

-- The body of the loop of `replay`, for the event at an index: the next state.
unfoldable pub replay_event :
    (Value → String) → ℕ → CeremonyState → Event → Result TransitionError CeremonyState
unfolding evidence_of
replay_event text_of i current event = do
  raise_if (not (has_schema event.schema)) (unknown_schema i)
  old ← read_state text_of i event.old_state
  new ← read_state text_of i event.new_state
  raise_if (not (state_eq old current)) (broken_chain i)
  evidence ← evidence_of text_of i event.evidence_ids
  checked ← check_event text_of current new event evidence
  ok new

unfoldable pub replay_from :
    (Value → String) → ℕ → CeremonyState → List Event → Result TransitionError CeremonyState
unfolding replay_event
replay_from text_of i current [] = ok current
replay_from text_of i current (event ∷ events) =
    replay_event text_of i current event >>= λ next. replay_from text_of (i + 1) next events

unfoldable pub replay :
    (Value → String) → CeremonyState → List Event → Result TransitionError CeremonyState
unfolding replay_from
replay text_of initial events = replay_from text_of 0 initial events
