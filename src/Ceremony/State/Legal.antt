-- ===== src/Ceremony/State/Legal.antt =====
-- Which transitions of aigenora/ceremony/state.py go through, against a description by phases.
use aigenora.Prelude.{
  ◌+◌, ◌≤◌, ◌<◌, String, ◌≡◌, ◌≢◌, ◌↔◌, ◌⊎◌, Bool, true, not, ◌&&◌, List, [], arith, ok, eq_iff,
}
use aigenora.Ceremony.State.{
  CeremonyState, draft, disputed, aborted, index, state_eq, contains, allowed, is_terminal,
  Transition, transition,
}

-- The phases 0 to 10 follow one another; every phase before the last may be disputed or aborted,
-- and a dispute can only be aborted.
abbrev pub IsLegal : CeremonyState → CeremonyState → Type 0
IsLegal old new =
    ((index new ≡ index old + 1) × (index new ≤ 10))
    ⊎ ((index old < 10) × (11 ≤ index new))
    ⊎ ((old ≡ disputed) × (new ≡ aborted))

permitted : CeremonyState → CeremonyState → Bool
permitted a b = not (is_terminal a) && contains (allowed a) b

permitted_iff : (a b : CeremonyState) → (permitted a b ≡ true) ↔ IsLegal a b
unfolding permitted is_terminal contains allowed
permitted_iff draft b = ground arith
permitted_iff _ b = ground arith

pub state_eq_iff : (a b : CeremonyState) → (state_eq a b ≡ true) ↔ (a ≡ b)
unfolding state_eq
state_eq_iff draft b = ground arith
state_eq_iff _ b = ground arith

-- What the guards of `transition` let through, and the record that it then returns.
module _ (old new : CeremonyState) (input output reason : String) (evidence : List String) where
  abbrev pub made : Transition
  made = record {
    old_state = old;
    new_state = new;
    input_artifact_root = input;
    output_artifact_root = output;
    reason_code = reason;
    evidence_ids = evidence;
  }

  pub transition_sound :
      {t : Transition}
      → transition old new input output reason evidence ≡ ok t
      → (t ≡ made) × IsLegal old new × (new ≡ disputed → evidence ≢ []) × (reason ≢ "")
  unfolding transition permitted
  transition_sound h = (
    ground arith,
    ground (arith, permitted_iff old new),
    λ e n. ground (arith, state_eq_iff new disputed),
    λ e. ground (arith, eq_iff reason ""),
  )

  pub transition_complete :
      IsLegal old new
      → (new ≡ disputed → evidence ≢ [])
      → reason ≢ ""
      → transition old new input output reason evidence ≡ ok made
  unfolding transition permitted
  transition_complete legal e r =
      ground (arith, permitted_iff old new, state_eq_iff new disputed, eq_iff reason "")
