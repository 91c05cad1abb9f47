-- ===== src/Ceremony/State/Replay.antt =====
-- `replay` of aigenora/ceremony/state.py against runs of legal transitions.
use aigenora.Prelude.{
  ℕ, String, ap, ◌+◌, ◌≤◌, ◌≡◌, refl, ◌⊎◌, some, List, [], ◌∷◌, map, length, arith, ok, eq_iff,
  ok_of_bind, Result-cases, inl, inr,
}
use aigenora.Proto.JsonDelta.Json.{Value, str, arr, from_items, items-from_items}
use aigenora.Ceremony.State.{
  CeremonyState, draft, index, Transition, transition, value, of_value, Event, as_dict, check_event,
  evidence_of, str_of, replay_event, replay_from, replay, transition_schema,
}
use aigenora.Ceremony.State.Legal.{IsLegal, state_eq_iff, transition_sound, made}

-- Reading back what `as_dict` writes.
pub of_value-value : (s : CeremonyState) → of_value (value s) ≡ some s
unfolding of_value value
of_value-value draft = refl
of_value-value _ = refl

-- A recorded run: each transition was made from the state that the one before it reached.
pub data Run : CeremonyState → List Transition → CeremonyState → Type 0 where
  here : (s : CeremonyState) → Run s [] s
  made_then :
      {start end : CeremonyState} {rest : List Transition} (t : Transition)
      → t.old_state ≡ start
      → transition t.old_state t.new_state t.input_artifact_root t.output_artifact_root
          t.reason_code t.evidence_ids
        ≡ ok t
      → Run t.new_state rest end
      → Run start (t ∷ rest) end

-- `str` leaves the evidence that `as_dict` writes as it is.
texts : (text_of : Value → String) (l : List String) → map (str_of text_of) (map str l) ≡ l
texts text_of [] = refl
texts text_of (x ∷ l) = ap (λ t. x ∷ t) (texts text_of l)

evidence_of-as_dict :
    (text_of : Value → String) (i : ℕ) (l : List String)
    → evidence_of text_of i (some (arr (from_items (map str l)))) ≡ ok l
unfolding evidence_of
evidence_of-as_dict text_of i l = rw (items-from_items (map str l), texts text_of l) refl

pub replay_event-as_dict :
    (text_of : Value → String) (i : ℕ) (t : Transition)
    → transition t.old_state t.new_state t.input_artifact_root t.output_artifact_root t.reason_code
        t.evidence_ids
      ≡ ok t
    → replay_event text_of i t.old_state (as_dict t) ≡ ok t.new_state
unfolding replay_event as_dict
replay_event-as_dict text_of i t h = ground (
  arith,
  h,
  evidence_of-as_dict text_of i t.evidence_ids,
  of_value-value t.old_state,
  of_value-value t.new_state,
  state_eq_iff t.old_state t.old_state,
  eq_iff transition_schema transition_schema,
)

-- An event that replays is legal from the current state, and names it.
pub replay_event_sound :
    (text_of : Value → String) (i : ℕ) (current : CeremonyState) (event : Event)
    (next : CeremonyState)
    → replay_event text_of i current event ≡ ok next
    → IsLegal current next
unfolding replay_event
replay_event_sound text_of i current event next h =
    elim (Result-cases (evidence_of text_of i event.evidence_ids)) [
      | inr (e, failed) ↦ absurd (ground (arith, failed))
      | inl (evidence, read) ↦
          elim (Result-cases (check_event text_of current next event evidence)) [
            | inl (t, made) ↦ (transition_sound current next _ _ _ _ made).1
            | inr (e, failed) ↦ absurd (ground (arith, read, failed, state_eq_iff current next))
          ]
    ]

replay_from-Run :
    (text_of : Value → String) (i : ℕ) {start end : CeremonyState} {ts : List Transition}
    → Run start ts end
    → replay_from text_of i start (map as_dict ts) ≡ ok end
unfolding replay_from
replay_from-Run text_of i (here s) = refl
replay_from-Run text_of i (made_then t e h r) =
    rw (← e, replay_event-as_dict text_of i t h) (replay_from-Run text_of (i + 1) r)

-- The dictionaries of a recorded run replay to the state in which the run ended.
pub replay-Run :
    (text_of : Value → String) {start end : CeremonyState} {ts : List Transition}
    → Run start ts end
    → replay text_of start (map as_dict ts) ≡ ok end
unfolding replay
replay-Run text_of r = replay_from-Run text_of 0 r

-- One legal step leads to a later phase or out of the phases, and out of them nothing leads back.
phase_step :
    (old new : CeremonyState)
    → IsLegal old new
    → (index old ≤ 10 × (index new ≡ index old + 1)) ⊎ (11 ≤ index new)
unfolding index
phase_step old new h = ground arith

replay_from_phases :
    (text_of : Value → String) (i : ℕ) (start : CeremonyState) (events : List Event)
    (end : CeremonyState)
    → replay_from text_of i start events ≡ ok end
    → index end ≤ 10
    → index end ≡ index start + length events
unfolding replay_from
replay_from_phases text_of i start [] end h le = ground arith
replay_from_phases text_of i start (event ∷ events) end h le =
    let (next, e, rest) =
      ok_of_bind (replay_event text_of i start event) (λ s. replay_from text_of (i + 1) s events)
        h in
    omega (
      arith,
      phase_step start next (replay_event_sound text_of i start event next e),
      replay_from_phases text_of (i + 1) next events end rest le,
    )

-- A chain that replays to a phase has taken the phases one by one, none skipped and none repeated:
-- it has as many events as the phases that it passed.
pub replay_phases :
    (text_of : Value → String) (start end : CeremonyState) (events : List Event)
    → replay text_of start events ≡ ok end
    → index end ≤ 10
    → index end ≡ index start + length events
unfolding replay
replay_phases text_of start end events = replay_from_phases text_of 0 start events end
