-- ===== src/Proto/Group/Authority/Frames.antt =====
-- `_build_envelopes` of `GroupAuthority` in aigenora/proto/group.py.
use aigenora.Prelude.{
  ℕ, zero, suc, ◌+◌, ◌%◌, String, Bool, true, false, not, ◌||◌, Option, none, some, List, [], ◌∷◌,
  str_eq, ltb, ◌==◌, if◌then◌else◌, Result, ok, err, ◌>>=◌, length,
}
use aigenora.Prelude.Exec.{Exec}
use aigenora.Proto.JsonDelta.Dict.{Assoc, insert}
use aigenora.Proto.JsonDelta.Json.{Value, arr, obj, no_elements, from_entries}
use aigenora.Proto.Group.{Codec, GroupError, Member, json_hash}
use aigenora.Proto.Group.Authority.{
  Hooks, CheckpointState, state_entries, Checkpoint, Core, core_entries, Published, Authority,
  get_or,
}
use aigenora.Proto.Group.Authority.Build.{
  make_checkpoint_state, checkpoint_from_state, member_view, Mode, build_member_envelope,
  checkpoint_mode_of, view_mode_of, last_view, is_active,
}

-- What one call of `_build_envelopes` is about: the core of the frame, its hash, the events, the
-- checkpoint with its mode, and the direct messages.
pub record Plan : Type 0 where
  pub core : Core
  pub frame_hash : String
  pub events : Value
  pub checkpoint : Checkpoint
  pub checkpoint_mode : Mode
  pub direct : Assoc Value

-- An envelope and the view in it.
pub record Rendered : Type 0 where
  pub envelope : Assoc Value
  pub view : Assoc Value

-- The body of the loop over the members.
unfoldable pub render_member :
    Codec → Hooks → Authority → Plan → Member → Result GroupError Rendered
unfolding member_view build_member_envelope
render_member c hooks a p m = do
  view ← member_view hooks a m
  mode ← view_mode_of c (str_eq p.core.frame_kind "frame") (last_view a.published m.public_key) view
  envelope ←
      build_member_envelope c a.private_key p.core p.frame_hash p.events m.public_key view mode
        (get_or p.direct m.public_key (arr no_elements)) p.checkpoint p.checkpoint_mode
  ok (record { envelope = envelope; view = view })

-- The loop over the members, with the dictionaries `envelopes` and `current_views` so far; they have
-- the same keys.
unfoldable pub render_members :
    Codec
    → Hooks
    → Authority
    → Plan
    → List Member
    → Assoc Rendered
    → Result GroupError (Assoc Rendered)
unfolding render_member insert
render_members c hooks a p [] done = ok done
render_members c hooks a p (m ∷ ms) done =
    if is_active m
    then render_member c hooks a p m
      >>= (λ rendered. render_members c hooks a p ms (insert m.public_key rendered done))
    else render_members c hooks a p ms done

unfoldable pub core_of : Authority → String → String → String → String → Core
core_of a kind state_hash recovery_hash events_hash = record {
  frame_kind = kind;
  group_id = a.group_id;
  leader_public_key = a.leader_public_key;
  leader_epoch = a.leader_epoch;
  seq = a.seq;
  previous_hash = a.previous_hash;
  membership_version = a.membership_version;
  authority_state_hash = state_hash;
  recovery_state_hash = recovery_hash;
  events_hash = events_hash;
  completed = a.completed;
  outcome = a.outcome;
}

abbrev pub never_published : Option Published → Bool
never_published none = true
never_published (some _) = false

-- Whether the checkpoint of a frame has to come whole.
abbrev pub force_full_checkpoint : Authority → String → Bool
force_full_checkpoint a kind =
    never_published a.published
    || not (str_eq kind "frame")
    || a.completed
    || a.seq % a.config.checkpoint_every_events == 0

-- `_build_envelopes` from the frame hash up to the loop.
unfoldable pub plan_checkpoint :
    Codec
    → Authority
    → Core
    → String
    → Value
    → Assoc Value
    → CheckpointState
    → Result GroupError Plan
unfolding checkpoint_from_state
plan_checkpoint c a core frame events direct state = do
  checkpoint ← checkpoint_from_state c a state frame
  mode ← checkpoint_mode_of c (force_full_checkpoint a core.frame_kind) a.published checkpoint
  ok (record {
    core = core;
    frame_hash = frame;
    events = events;
    checkpoint = checkpoint;
    checkpoint_mode = mode;
    direct = direct;
  })

-- `_build_envelopes` up to the loop.
unfoldable pub plan_frame :
    Codec → Hooks → Authority → String → Value → Assoc Value → Result GroupError Plan
unfolding make_checkpoint_state json_hash state_entries core_of core_entries plan_checkpoint
plan_frame c hooks a kind events direct = do
  state ← make_checkpoint_state hooks a
  state_hash ← json_hash c (obj (from_entries a.state))
  recovery_hash ← json_hash c (obj (from_entries (state_entries state)))
  events_hash ← json_hash c events
  let core = core_of a kind state_hash recovery_hash events_hash
  frame ← json_hash c (obj (from_entries (core_entries core)))
  plan_checkpoint c a core frame events direct state

unfoldable pub column : {A B : Type 0} → (A → B) → Assoc A → Assoc B
column f [] = []
column f ((k, x) ∷ l) = (k, f x) ∷ column f l

-- `history[seq] = checkpoint`
unfoldable pub put_number : ℕ → Checkpoint → List (ℕ × Checkpoint) → List (ℕ × Checkpoint)
put_number n k [] = (n, k) ∷ []
put_number n k ((m, l) ∷ rest) = if m == n then (n, k) ∷ rest else (m, l) ∷ put_number n k rest

unfoldable pub lowest : ℕ → List (ℕ × Checkpoint) → ℕ
lowest n [] = n
lowest n ((m, l) ∷ rest) = lowest (if ltb m n then m else n) rest

-- `history.pop(n)`
unfoldable pub pop_number : ℕ → List (ℕ × Checkpoint) → List (ℕ × Checkpoint)
pop_number n [] = []
pop_number n ((m, l) ∷ rest) = if m == n then rest else (m, l) ∷ pop_number n rest

-- `while len(history) > 256: history.pop(min(history))`, on fuel: each round takes one off.
unfoldable pub trim : ℕ → List (ℕ × Checkpoint) → List (ℕ × Checkpoint)
unfolding lowest pop_number
trim zero history = history
trim (suc fuel) [] = []
trim (suc fuel) ((m, l) ∷ rest) =
    let shorter = trim fuel (pop_number (lowest m rest) ((m, l) ∷ rest)) in
    if ltb 256 (suc (length rest)) then shorter else (m, l) ∷ rest

unfoldable pub remember : ℕ → Checkpoint → List (ℕ × Checkpoint) → List (ℕ × Checkpoint)
unfolding put_number trim
remember seq checkpoint history =
    let longer = put_number seq checkpoint history in trim (length longer) longer

-- The writes at the end of `_build_envelopes`.
unfoldable pub publish : Plan → Assoc Rendered → Authority → Authority
unfolding column remember
publish p rendered a = record a {
  checkpoint_history = remember a.seq p.checkpoint a.checkpoint_history;
  previous_hash = p.frame_hash;
  published = some (record {
    core = p.core;
    events = p.events;
    checkpoint = p.checkpoint;
    envelopes = column (λ r. r.envelope) rendered;
    views = column (λ r. r.view) rendered;
  });
}

unfoldable pub publish_rendered :
    Plan → Result GroupError (Assoc Rendered) → Exec GroupError Authority (Assoc (Assoc Value))
unfolding column publish
publish_rendered p (err x) a = (err x, a)
publish_rendered p (ok rendered) a = (ok (column (λ r. r.envelope) rendered), publish p rendered a)

unfoldable pub build_planned :
    Codec → Hooks → Result GroupError Plan → Exec GroupError Authority (Assoc (Assoc Value))
unfolding publish_rendered render_members
build_planned c hooks (err x) a = (err x, a)
build_planned c hooks (ok p) a = publish_rendered p (render_members c hooks a p a.members []) a

abbrev pub advanced : Bool → Authority → Authority
advanced true a = record a { seq = a.seq + 1 }
advanced false a = a

-- `_build_envelopes`. The sequence number goes up first; a raise leaves it there.
unfoldable pub build_envelopes :
    Codec
    → Hooks
    → String
    → Value
    → Assoc Value
    → Bool
    → Exec GroupError Authority (Assoc (Assoc Value))
unfolding plan_frame build_planned
build_envelopes c hooks kind events direct advance a =
    build_planned c hooks (plan_frame c hooks (advanced advance a) kind events direct)
      (advanced advance a)
