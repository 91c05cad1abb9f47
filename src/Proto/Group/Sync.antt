-- ===== src/Proto/Group/Sync.antt =====
-- A frame of the leader's authority at a member's replica, in aigenora/proto/group.py: what the codec
-- and the replica must be like for the replica to take it.
pub mod Envelope
pub mod Certificate
pub mod Frame
pub mod Planned
pub mod Plans
pub mod Members
pub mod Delivery
pub mod Live
pub mod Delivered
pub mod Refines
pub mod Inputs
pub mod Bootstrap
pub mod Bootstrapped
pub mod Lost
use aigenora.Prelude.{ℕ, String, ◌≡◌, Bool, true, false, ◌&&◌, Option, none, some, List, ok}
use aigenora.Prelude.Int.{ℤ}
use aigenora.Proto.JsonDelta.Dict.{Assoc}
use aigenora.Proto.JsonDelta.Json.{Value, str, obj, from_entries}
use aigenora.Proto.JsonDelta.Apply.{apply_json_delta}
use aigenora.Proto.Group.{Codec, is_hash, json_hash, canonical_json, validate_json}
use aigenora.Proto.Group.Checkpoints.{validate_checkpoint_state, checkpoint_certificate_canonical}
use aigenora.Proto.Group.Replica.{Replica, is_list, signature_payload}
use aigenora.Proto.Group.Authority.{
  CheckpointState, state_entries, Checkpoint, unsigned_entries, checkpoint_entries, Core,
  core_entries,
}
use aigenora.Proto.Group.Authority.Build.{Mode, full, delta, private_payload}

-- SHA-256 in hex is 64 digits.
abbrev pub Hashes : Codec → Type 0
Hashes c = (text : String) → is_hash c (str (c.sha256 text)) ≡ true

-- The keys are a pair.
abbrev pub KeyPair : Codec → String → String → Type 0
KeyPair c private_key public_key =
    (text : String) → c.verify public_key text (c.sign private_key text) ≡ true

-- A dictionary that comes whole, or as a delta that restores it from one that the replica has.
abbrev pub Restores : Bool → Option (Assoc Value) → Mode → Assoc Value → Type 0
Restores bootstrap base full d = Unit
Restores bootstrap base (delta ops) d =
    (bootstrap ≡ false)
    × (is_list ops ≡ true)
    × (held : Assoc Value) × (base ≡ some held)
    × (apply_json_delta (obj (from_entries held)) ops ≡ ok (obj (from_entries d)))

-- A checkpoint that comes whole, or as a delta of its state from the state of the replica's.
abbrev pub RestoresCheckpoint : Bool → Replica → Mode → Checkpoint → Type 0
RestoresCheckpoint bootstrap r full k = Unit
RestoresCheckpoint bootstrap r (delta ops) k =
    (bootstrap ≡ false)
    × (is_list ops ≡ true)
    × (old : Checkpoint) × (r.checkpoint ≡ some (checkpoint_entries old))
    × (apply_json_delta (obj (from_entries (state_entries old.state))) ops
        ≡ ok (obj (from_entries (state_entries k.state))))

-- The replica is of the group, the leader and the epoch of a frame, and of the viewer.
abbrev pub Belongs : Replica → Core → String → Type 0
Belongs r core viewer =
    (r.group_id ≡ core.group_id)
    × (r.leader_public_key ≡ core.leader_public_key)
    × (r.leader_epoch ≡ core.leader_epoch)
    × (r.viewer_public_key ≡ viewer)

-- A core and a checkpoint of one frame, with their hashes.
abbrev pub Consistent : Codec → String → Core → String → Value → Checkpoint → Type 0
Consistent c private_key core frame events k =
    (json_hash c (obj (from_entries (core_entries core))) ≡ ok frame)
    × (is_list events ≡ true)
    × (json_hash c events ≡ ok core.events_hash)
    × (json_hash c (obj (from_entries (state_entries k.state))) ≡ ok core.recovery_state_hash)
    × (json_hash c (obj (from_entries (unsigned_entries k))) ≡ ok k.checkpoint_hash)
    × (k.checkpoint_signature
        ≡ c.sign private_key (checkpoint_certificate_canonical c (checkpoint_entries k)))
    × (validate_checkpoint_state c (obj (from_entries (state_entries k.state))) ≡ ok tt)
    × (k.group_id ≡ core.group_id)
    × (k.leader_public_key ≡ core.leader_public_key)
    × (k.leader_epoch ≡ core.leader_epoch)
    × (k.seq ≡ core.seq)
    × (k.frame_hash ≡ frame)
    × (k.membership_version ≡ core.membership_version)
    × (k.state.completed ≡ core.completed)
    × (k.state.outcome ≡ core.outcome)

-- A view with the hashes of a member's part of a frame.
abbrev pub Sealed :
    Codec
    → String
    → String
    → Mode
    → Assoc Value
    → String
    → Value
    → Mode
    → Checkpoint
    → String
    → String
    → Type 0
Sealed c frame viewer mode view state_hash direct checkpoint_mode k view_hash signed =
    (validate_json 0 (obj (from_entries view)) ≡ ok tt)
    × (json_hash c (obj (from_entries view)) ≡ ok state_hash)
    × (json_hash c (
          obj (from_entries (private_payload viewer mode view state_hash direct checkpoint_mode k)))
        ≡ ok view_hash)
    × (canonical_json c (signature_payload frame view_hash viewer) ≡ ok signed)
