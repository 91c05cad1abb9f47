-- ===== src/Proto/Group/Authority.antt =====
-- `GroupAuthority` of aigenora/proto/group.py: its state, the results of hooks, and checkpoints. The
-- hooks are the game's; a hook that raises is an error. Logs, snapshot and files are left out.
pub mod Build
pub mod Frames
pub mod Inputs
pub mod Membership
pub mod Bootstraps
pub mod Accepted
pub mod Acknowledged
pub mod History
use aigenora.Prelude.{
  ℕ, String, Bool, true, false, not, ◌&&◌, ◌||◌, Option, none, some, List, [], ◌∷◌, ◌++◌, map,
  str_eq, ◌==◌, if◌then◌else◌, Result, ok, err, ◌>>=◌, ◌>>◌, raise_if, length,
}
use aigenora.Prelude.Int.{ℤ, pos, ltb_ℤ}
use aigenora.Proto.JsonDelta.Dict.{Assoc, lookup}
use aigenora.Proto.JsonDelta.Json.{
  Value, null, bool, int, str, arr, obj, no_elements, no_members, items, from_items, entries,
  from_entries,
}
use aigenora.Proto.Group
use aigenora.Proto.Group.{Codec, GroupError, Member, member_value, get, json_hash, validate_json}
use aigenora.Proto.Group.Checkpoints.{checkpoint_certificate_canonical}
use aigenora.Proto.Group.Replica.{or_null}

-- The hooks of the game, over the protocol state.
pub record Hooks : Type 0 where
  pub handle : Value → Member → Value → Result GroupError Value
  pub member_joined : Value → Member → Result GroupError Value
  pub member_left : Value → Member → String → Result GroupError Value
  pub on_leader_changed : Value → String → String → Result GroupError Value
  pub recovery_snapshot : Value → Result GroupError Value
  pub view : Value → Member → Result GroupError Value

-- The fields of `GroupConfig` that the authority reads.
pub record GroupConfig : Type 0 where
  pub max_participants : ℤ
  pub recovery_mode : String
  pub checkpoint_every_events : ℕ
  pub max_action_bytes : ℤ
  pub max_events_per_action : ℤ

-- The dictionary of `_make_checkpoint_state`.
pub record CheckpointState : Type 0 where
  pub members : List Member
  pub last_client_seq : Assoc ℕ
  pub recovery_mode : String
  pub protocol_state : Assoc Value
  pub completed : Bool
  pub outcome : Option String

unfoldable pub count_values : Assoc ℕ → Assoc Value
count_values [] = []
count_values ((k, n) ∷ l) = (k, int (pos n)) ∷ count_values l

unfoldable pub state_entries : CheckpointState → Assoc Value
unfolding member_value count_values
state_entries s =
    ("members", arr (from_items (map member_value s.members)))
    ∷ ("last_client_seq", obj (from_entries (count_values s.last_client_seq)))
    ∷ ("recovery_mode", str s.recovery_mode)
    ∷ ("protocol_state", obj (from_entries s.protocol_state))
    ∷ ("completed", bool s.completed)
    ∷ ("outcome", or_null s.outcome)
    ∷ []

-- The dictionary of `_checkpoint_from_state`.
pub record Checkpoint : Type 0 where
  pub group_id : String
  pub leader_public_key : String
  pub leader_epoch : ℤ
  pub seq : ℕ
  pub frame_hash : String
  pub membership_version : ℤ
  pub state : CheckpointState
  pub checkpoint_hash : String
  pub checkpoint_signature : String

unfoldable pub unsigned_entries : Checkpoint → Assoc Value
unfolding state_entries
unsigned_entries k =
    ("version", int (pos 1))
    ∷ ("group_id", str k.group_id)
    ∷ ("leader_public_key", str k.leader_public_key)
    ∷ ("leader_epoch", int k.leader_epoch)
    ∷ ("seq", int (pos k.seq))
    ∷ ("frame_hash", str k.frame_hash)
    ∷ ("membership_version", int k.membership_version)
    ∷ state_entries k.state

unfoldable pub checkpoint_entries : Checkpoint → Assoc Value
unfolding unsigned_entries
checkpoint_entries k =
    unsigned_entries k
    ++ ("checkpoint_hash", str k.checkpoint_hash)
      ∷ ("checkpoint_signature", str k.checkpoint_signature)
      ∷ []

-- The dictionary `core` of a frame.
pub record Core : Type 0 where
  pub frame_kind : String
  pub group_id : String
  pub leader_public_key : String
  pub leader_epoch : ℤ
  pub seq : ℕ
  pub previous_hash : String
  pub membership_version : ℤ
  pub authority_state_hash : String
  pub recovery_state_hash : String
  pub events_hash : String
  pub completed : Bool
  pub outcome : Option String

unfoldable pub core_entries : Core → Assoc Value
core_entries k =
    ("_group", str k.frame_kind)
    ∷ ("wire_version", int (pos 2))
    ∷ ("group_id", str k.group_id)
    ∷ ("leader_public_key", str k.leader_public_key)
    ∷ ("leader_epoch", int k.leader_epoch)
    ∷ ("seq", int (pos k.seq))
    ∷ ("previous_hash", str k.previous_hash)
    ∷ ("membership_version", int k.membership_version)
    ∷ ("authority_state_hash", str k.authority_state_hash)
    ∷ ("recovery_state_hash", str k.recovery_state_hash)
    ∷ ("events_hash", str k.events_hash)
    ∷ ("completed", bool k.completed)
    ∷ ("outcome", or_null k.outcome)
    ∷ []

-- What `_build_envelopes` sets at its end, all of it None or empty before: the last core, events,
-- checkpoint (with the checkpoint state in it), envelopes and views.
pub record Published : Type 0 where
  pub core : Core
  pub events : Value
  pub checkpoint : Checkpoint
  pub envelopes : Assoc (Assoc Value)
  pub views : Assoc (Assoc Value)

pub record Authority : Type 0 where
  pub group_id : String
  pub leader_public_key : String
  pub leader_epoch : ℤ
  pub membership_version : ℤ
  pub members : List Member
  pub private_key : String
  pub config : GroupConfig
  pub state : Assoc Value
  pub seq : ℕ
  pub previous_hash : String
  pub last_client_seq : Assoc ℕ
  pub completed : Bool
  pub outcome : Option String
  pub published : Option Published
  pub checkpoint_history : List (ℕ × Checkpoint)
  pub acknowledged_seq : Assoc ℕ
  pub replicated_checkpoint : Option Checkpoint

-- The dictionary that `_normalize_result` returns.
pub record Normalized : Type 0 where
  pub state : Assoc Value
  pub events : Value
  pub direct : Assoc Value
  pub completed : Bool
  pub outcome : Option String

abbrev pub get_or : Assoc Value → String → Value → Value
get_or d k v = elim (lookup k d) [ none ↦ v | some w ↦ w ]

abbrev pub as_dict : Value → GroupError → Result GroupError (Assoc Value)
as_dict (obj fs) x = ok (entries fs)
as_dict _ x = err x

abbrev pub as_array : Value → GroupError → Result GroupError (List Value)
as_array (arr xs) x = ok (items xs)
as_array _ x = err x

abbrev pub as_bool : Value → GroupError → Result GroupError Bool
as_bool (bool b) x = ok b
as_bool _ x = err x

abbrev pub as_text_or_none : Value → GroupError → Result GroupError (Option String)
as_text_or_none null x = ok none
as_text_or_none (str text) x = ok (some text)
as_text_or_none _ x = err x

-- `_normalize_result`
unfoldable pub normalize_result : GroupConfig → Value → Result GroupError Normalized
unfolding get validate_json
normalize_result config result = do
  d ← as_dict result Group.result_object
  state ← as_dict (get d "state") Group.result_state
  events ← as_array (get_or d "events" (arr no_elements)) Group.result_events
  raise_if (ltb_ℤ config.max_events_per_action (pos (length events))) Group.too_many_events
  direct ← as_dict (get_or d "direct" (obj no_members)) Group.result_direct
  completed ← as_bool (get_or d "completed" (bool false)) Group.result_completed
  outcome ← as_text_or_none (get d "outcome") Group.result_outcome
  validate_json 0 (obj (from_entries state))
  validate_json 0 (arr (from_items events))
  validate_json 0 (obj (from_entries direct))
  ok (record {
    state = state;
    events = arr (from_items events);
    direct = direct;
    completed = completed;
    outcome = outcome;
  })
