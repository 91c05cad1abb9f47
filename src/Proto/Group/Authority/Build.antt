-- ===== src/Proto/Group/Authority/Build.antt =====
-- The parts of a frame of `GroupAuthority` in aigenora/proto/group.py: the checkpoint, the view and the
-- envelope of a member, and the choice between a delta and the whole.
use Prim.Native.String.{len}
use aigenora.Prelude.{
  ℕ, ◌+◌, String, Bool, true, false, Option, none, some, [], ◌∷◌, ◌++◌, str_eq, ltb, if◌then◌else◌,
  Result, ok, ◌>>=◌, ◌>>◌,
}
use aigenora.Proto.JsonDelta.{make_json_delta}
use aigenora.Proto.JsonDelta.Dict.{Assoc, lookup}
use aigenora.Proto.JsonDelta.Json.{Value, null, str, arr, obj, no_elements, from_entries}
use aigenora.Proto.Group
use aigenora.Proto.Group.{Codec, GroupError, Member, json_hash, canonical_json, validate_json}
use aigenora.Proto.Group.Checkpoints.{checkpoint_certificate_canonical}
use aigenora.Proto.Group.Replica.{signature_payload}
use aigenora.Proto.Group.Authority.{
  Hooks, CheckpointState, state_entries, Checkpoint, unsigned_entries, checkpoint_entries, Core,
  core_entries, Published, Authority, as_dict,
}

-- `_make_checkpoint_state`
unfoldable pub make_checkpoint_state : Hooks → Authority → Result GroupError CheckpointState
unfolding validate_json state_entries
make_checkpoint_state hooks a = do
  snapshot ← hooks.recovery_snapshot (obj (from_entries a.state))
  protocol_state ← as_dict snapshot Group.snapshot_object
  let state : CheckpointState = record {
    members = a.members;
    last_client_seq = a.last_client_seq;
    recovery_mode = a.config.recovery_mode;
    protocol_state = protocol_state;
    completed = a.completed;
    outcome = a.outcome;
  }
  validate_json 0 (obj (from_entries (state_entries state)))
  ok state

-- The dictionary before it is signed.
unfoldable pub unsigned_checkpoint : Authority → CheckpointState → String → Checkpoint
unsigned_checkpoint a state frame = record {
  group_id = a.group_id;
  leader_public_key = a.leader_public_key;
  leader_epoch = a.leader_epoch;
  seq = a.seq;
  frame_hash = frame;
  membership_version = a.membership_version;
  state = state;
  checkpoint_hash = "";
  checkpoint_signature = "";
}

-- `_checkpoint_from_state`
unfoldable pub checkpoint_from_state :
    Codec → Authority → CheckpointState → String → Result GroupError Checkpoint
unfolding unsigned_checkpoint json_hash unsigned_entries checkpoint_certificate_canonical
checkpoint_from_state c a state frame = do
  let checkpoint = unsigned_checkpoint a state frame
  hash ← json_hash c (obj (from_entries (unsigned_entries checkpoint)))
  let hashed = unsigned_entries checkpoint ++ ("checkpoint_hash", str hash) ∷ []
  ok (record checkpoint {
    checkpoint_hash = hash;
    checkpoint_signature = c.sign a.private_key (checkpoint_certificate_canonical c hashed);
  })

-- `_member_view`
unfoldable pub member_view : Hooks → Authority → Member → Result GroupError (Assoc Value)
unfolding validate_json
member_view hooks a m = do
  rendered ← hooks.view (obj (from_entries a.state)) m
  view ← as_dict rendered Group.hook_view_object
  validate_json 0 (obj (from_entries view))
  ok view

-- `*_mode` with its payload: "full", or "delta" with the delta.
pub data Mode : Type 0 where
  full : Mode
  delta : Value → Mode

abbrev pub mode_text : Mode → String
mode_text full = "full"
mode_text (delta d) = "delta"

abbrev pub full_or_null : Mode → Assoc Value → Value
full_or_null full d = obj (from_entries d)
full_or_null (delta _) d = null

abbrev pub delta_of : Mode → Value
delta_of full = arr no_elements
delta_of (delta d) = d

unfoldable pub private_payload :
    String → Mode → Assoc Value → String → Value → Mode → Checkpoint → Assoc Value
unfolding checkpoint_entries
private_payload viewer view_mode view view_hash direct checkpoint_mode checkpoint =
    ("viewer_public_key", str viewer)
    ∷ ("view_mode", str (mode_text view_mode))
    ∷ ("view", full_or_null view_mode view)
    ∷ ("view_delta", delta_of view_mode)
    ∷ ("view_state_hash", str view_hash)
    ∷ ("direct", direct)
    ∷ ("checkpoint_mode", str (mode_text checkpoint_mode))
    ∷ ("checkpoint", full_or_null checkpoint_mode (checkpoint_entries checkpoint))
    ∷ ("checkpoint_delta", delta_of checkpoint_mode)
    ∷ ("checkpoint_hash", str checkpoint.checkpoint_hash)
    ∷ ("checkpoint_signature", str checkpoint.checkpoint_signature)
    ∷ []

-- `_build_member_envelope`
unfoldable pub build_member_envelope :
    Codec
    → String
    → Core
    → String
    → Value
    → String
    → Assoc Value
    → Mode
    → Value
    → Checkpoint
    → Mode
    → Result GroupError (Assoc Value)
unfolding json_hash private_payload signature_payload canonical_json core_entries
build_member_envelope c private_key core frame events viewer view view_mode direct checkpoint
      checkpoint_mode =
    do
      state_hash ← json_hash c (obj (from_entries view))
      let payload =
          private_payload viewer view_mode view state_hash direct checkpoint_mode checkpoint
      view_hash ← json_hash c (obj (from_entries payload))
      signed ← canonical_json c (signature_payload frame view_hash viewer)
      ok (
          core_entries core
          ++ (("frame_hash", str frame) ∷ ("events", events) ∷ []
              ++ (payload
                  ++ ("view_hash", str view_hash)
                    ∷ ("signature", str (c.sign private_key signed))
                    ∷ [])))

-- The candidate delta where its text is shorter than that of the whole, by a margin.
unfoldable pub shorter_delta : Codec → ℕ → Value → Value → Value → Result GroupError Mode
unfolding canonical_json make_json_delta
shorter_delta c margin previous current whole = do
  let candidate = make_json_delta previous current
  short ← canonical_json c candidate
  long ← canonical_json c whole
  ok (if ltb (len short + margin) (len long) then delta candidate else full)

abbrev pub checkpoint_mode_of :
    Codec → Bool → Option Published → Checkpoint → Result GroupError Mode
checkpoint_mode_of c true published checkpoint = ok full
checkpoint_mode_of c false none checkpoint = ok full
checkpoint_mode_of c false (some p) checkpoint =
    shorter_delta c 256 (obj (from_entries (state_entries p.checkpoint.state)))
      (obj (from_entries (state_entries checkpoint.state)))
      (obj (from_entries (checkpoint_entries checkpoint)))

-- The view that the member has from the last frame.
abbrev pub last_view : Option Published → String → Option (Assoc Value)
last_view none key = none
last_view (some p) key = lookup key p.views

abbrev pub view_mode_of : Codec → Bool → Option (Assoc Value) → Assoc Value → Result GroupError Mode
view_mode_of c false previous view = ok full
view_mode_of c true none view = ok full
view_mode_of c true (some previous) view =
    shorter_delta c 96 (obj (from_entries previous)) (obj (from_entries view))
      (obj (from_entries view))

abbrev pub is_active : Member → Bool
is_active m = str_eq m.status "active"
