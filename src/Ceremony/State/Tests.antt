-- ===== src/Ceremony/State/Tests.antt =====
-- Runs of aigenora/ceremony/state.py, and the theorems at concrete inputs.
use aigenora.Prelude.{
  String, ◌+◌, ◌≡◌, refl, ◌≢◌, List, [], ◌∷◌, map, length, some, arith, ok, err, eq_iff, inl, inr,
}
use aigenora.Proto.JsonDelta.Json.{Value, null, from_items, items}
use aigenora.Ceremony.State.{
  evidence_of, draft, deliberating, setup_frozen, voting, disputed, index, Transition, transition,
  as_dict, replay, not_allowed, terminal, evidence_required, broken_chain, finalized, is_terminal,
  contains, allowed, of_value, state_eq,
}
use aigenora.Ceremony.State.Legal.{transition_sound, transition_complete, IsLegal, made}
use aigenora.Ceremony.State.Replay.{Run, here, made_then, replay-Run, replay_phases}

abbrev opening : Transition
opening = made draft deliberating "r0" "r1" "opened" []

abbrev freezing : Transition
freezing = made deliberating setup_frozen "r1" "r2" "frozen" []

-- A `str` for the values that are no texts.
abbrev shown : Value → String
shown _ = "None"

abbrev log : List Transition
log = opening ∷ freezing ∷ []

skip_refused : transition draft voting "" "" "x" [] ≡ err not_allowed
unfolding transition is_terminal contains allowed
skip_refused = refl

dispute_refused : transition voting disputed "" "" "x" [] ≡ err evidence_required
unfolding transition is_terminal contains allowed
dispute_refused = refl

finalized_is_final : transition finalized disputed "" "" "x" ("e" ∷ []) ≡ err terminal
unfolding transition is_terminal contains allowed
finalized_is_final = refl

broken_log : replay shown draft (map as_dict (opening ∷ opening ∷ [])) ≡ err (broken_chain 1)
unfolding replay evidence_of from_items items as_dict of_value state_eq transition is_terminal
    contains allowed
broken_log = refl

log_replays : replay shown draft (map as_dict log) ≡ ok setup_frozen
unfolding replay evidence_of from_items items as_dict of_value state_eq transition is_terminal
    contains allowed
log_replays = refl

-- A reason that is null has the text "None", and passes.
null_reason :
    replay shown draft (record (as_dict opening) { reason_code = some null } ∷ []) ≡ ok deliberating
unfolding replay evidence_of from_items items as_dict of_value state_eq transition is_terminal
    contains allowed
null_reason = refl

log-Run : Run draft log setup_frozen
unfolding transition is_terminal contains allowed
log-Run = made_then opening refl refl (made_then freezing refl refl (here setup_frozen))

transition_sound_example :
    (opening ≡ made draft deliberating "r0" "r1" "opened" [])
    × IsLegal draft deliberating
    × (deliberating ≡ disputed → ◌≢◌ {A = List String} [] [])
    × (◌≢◌ {A = String} "opened" "")
unfolding transition is_terminal contains allowed
transition_sound_example = transition_sound draft deliberating "r0" "r1" "opened" [] refl

transition_complete_example :
    transition voting disputed "a" "b" "fork" ("e1" ∷ [])
    ≡ ok (made voting disputed "a" "b" "fork" ("e1" ∷ []))
unfolding index
transition_complete_example =
    transition_complete voting disputed "a" "b" "fork" ("e1" ∷ []) (inr (inl (omega arith)))
      (λ _ e. cc) (λ e. cc ((eq_iff "fork" "").1 e))

replay-Run_example : replay shown draft (map as_dict log) ≡ ok setup_frozen
replay-Run_example = replay-Run shown log-Run

replay_phases_example : index setup_frozen ≡ index draft + length (map as_dict log)
unfolding index
replay_phases_example =
    replay_phases shown draft setup_frozen (map as_dict log) log_replays (omega arith)
