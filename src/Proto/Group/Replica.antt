-- ===== src/Proto/Group/Replica.antt =====
-- `GroupReplica` of aigenora/proto/group.py: what a member checks of a frame, and what it keeps. The
-- logs, the snapshot and the checkpoint file are left out: nothing of them is read back here.
pub mod Decode
pub mod Apply
pub mod Verified
pub mod Verifies
pub mod Chain
use aigenora.Prelude.{
  ℕ, suc, ◌+◌, String, Bool, true, false, not, ◌&&◌, ◌||◌, Option, none, some, List, [], ◌∷◌, ◌++◌,
  str_eq, ltb, leb, ◌==◌, if◌then◌else◌, Result, ok, err, ◌>>=◌, ◌>>◌, raise_if,
}
use aigenora.Prelude.Int.{ℤ, pos, ltb_ℤ}
use aigenora.Proto.JsonDelta.Dict.{Assoc, insert, without}
use aigenora.Proto.JsonDelta.Json.{
  Value, null, bool, int, str, arr, obj, no_elements, items, entries, from_entries, eq,
}
use aigenora.Proto.JsonDelta.Apply.{apply_json_delta}
use aigenora.Proto.Group
use aigenora.Proto.Group.{
  Codec, GroupError, get, truthy, is_hash, json_hash, canonical_json, validate_json,
}
use aigenora.Proto.Group.Checkpoints.{
  project, checkpoint_state_from, validate_checkpoint_state, checkpoint_certificate_canonical,
}

-- `self.seq` and the fields that are set with it start as None.
pub record Replica : Type 0 where
  pub group_id : String
  pub viewer_public_key : String
  pub leader_public_key : String
  pub leader_epoch : ℤ
  pub seq : Option ℕ
  pub frame_hash : Option String
  pub membership_version : ℤ
  pub checkpoint : Option (Assoc Value)
  pub view : Option (Assoc Value)

-- `GroupReplica.__init__`
unfoldable pub new_replica : Codec → String → String → String → ℤ → Replica
new_replica c group viewer leader epoch = record {
  group_id = group;
  viewer_public_key = c.lower viewer;
  leader_public_key = c.lower leader;
  leader_epoch = epoch;
  seq = none;
  frame_hash = none;
  membership_version = pos 0;
  checkpoint = none;
  view = none;
}

abbrev pub core_fields : List String
core_fields =
    "_group" ∷ "wire_version" ∷ "group_id" ∷ "leader_public_key" ∷ "leader_epoch" ∷ "seq"
    ∷ "previous_hash" ∷ "membership_version" ∷ "authority_state_hash" ∷ "recovery_state_hash"
    ∷ "events_hash" ∷ "completed" ∷ "outcome" ∷ []

abbrev pub private_payload_fields : List String
private_payload_fields =
    "viewer_public_key" ∷ "view_mode" ∷ "view" ∷ "view_delta" ∷ "view_state_hash" ∷ "direct"
    ∷ "checkpoint_mode" ∷ "checkpoint" ∷ "checkpoint_delta" ∷ "checkpoint_hash"
    ∷ "checkpoint_signature" ∷ []

abbrev pub differs : Value → Value → Bool
differs v w = not (eq v w)

-- The first checks of `apply`: whom the envelope is from and for.
unfoldable pub check_header : Replica → Assoc Value → Result GroupError (Unit {0})
unfolding get
check_header r e = do
  raise_if (differs (get e "group_id") (str r.group_id)) Group.group_mismatch
  raise_if (differs (get e "leader_public_key") (str r.leader_public_key)) Group.leader_mismatch
  raise_if (differs (get e "leader_epoch") (int r.leader_epoch)) Group.epoch_mismatch
  raise_if (differs (get e "viewer_public_key") (str r.viewer_public_key)) Group.viewer_mismatch
  raise_if (differs (get e "wire_version") (int (pos 2))) Group.wire_version_mismatch

-- A hash that a value must have, as text.
abbrev pub hash_text : Codec → Value → GroupError → Result GroupError String
hash_text c v x = elim v [ str text ↦ if is_hash c (str text) then ok text else err x | _ ↦ err x ]

abbrev pub text_of_value : Value → GroupError → Result GroupError String
text_of_value (str text) x = ok text
text_of_value _ x = err x

-- The dictionary that the leader signs.
unfoldable pub signature_payload : String → String → String → Value
signature_payload frame view viewer = obj (
    from_entries (
      ("frame_hash", str frame) ∷ ("view_hash", str view) ∷ ("viewer_public_key", str viewer) ∷ []))

abbrev pub is_list : Value → Bool
is_list (arr xs) = true
is_list _ = false

unfoldable pub check_frame_hash : Codec → Assoc Value → Result GroupError String
unfolding get is_hash json_hash project
check_frame_hash c e = do
  frame ← hash_text c (get e "frame_hash") Group.frame_hash_mismatch
  core ← json_hash c (obj (from_entries (project core_fields e)))
  raise_if (not (str_eq core frame)) Group.frame_hash_mismatch
  ok frame

unfoldable pub check_events : Codec → Assoc Value → Result GroupError (Unit {0})
unfolding get json_hash
check_events c e = do
  raise_if (not (is_list (get e "events"))) Group.events_hash_mismatch
  events ← json_hash c (get e "events")
  raise_if (differs (str events) (get e "events_hash")) Group.events_hash_mismatch

unfoldable pub check_view_hash : Codec → Assoc Value → Result GroupError String
unfolding get is_hash json_hash project
check_view_hash c e = do
  view ← hash_text c (get e "view_hash") Group.view_hash_mismatch
  payload ← json_hash c (obj (from_entries (project private_payload_fields e)))
  raise_if (not (str_eq payload view)) Group.view_hash_mismatch
  ok view

unfoldable pub check_signature :
    Codec → Replica → Assoc Value → String → String → Result GroupError (Unit {0})
unfolding get signature_payload canonical_json
check_signature c r e frame view = do
  signature ← text_of_value (get e "signature") Group.signature_missing
  signed ← canonical_json c (signature_payload frame view r.viewer_public_key)
  raise_if (not (c.verify r.leader_public_key signed signature)) Group.signature_invalid

-- The hashes and the signature that `apply` checks; it returns the frame hash.
unfoldable pub check_hashes : Codec → Replica → Assoc Value → Result GroupError String
unfolding check_frame_hash check_events check_view_hash check_signature
check_hashes c r e = do
  frame ← check_frame_hash c e
  check_events c e
  view ← check_view_hash c e
  check_signature c r e frame view
  ok frame

-- An integer that is no bool and not negative.
abbrev pub as_seq : Value → Result GroupError ℕ
as_seq (int (pos n)) = ok n
as_seq _ = err Group.seq_invalid

abbrev pub is_some_text : Option String → String → Bool
is_some_text none text = false
is_some_text (some t) text = str_eq text t

abbrev pub or_null : Option String → Value
or_null none = null
or_null (some t) = str t

-- The checks of a frame that is not the one that the replica has.
unfoldable pub check_next : Bool → Assoc Value → ℕ → ℕ → Option String → Result GroupError Bool
unfolding get
check_next bootstrap e seq current last = do
  raise_if (leb seq current) Group.moved_backwards
  raise_if (not bootstrap && not (seq == current + 1)) Group.sequence_gap
  raise_if (not bootstrap && differs (get e "previous_hash") (or_null last)) Group.chain_mismatch
  ok true

-- The checks of the sequence number against the replica's; `false` for a frame that it has.
unfoldable pub check_order :
    Bool → Assoc Value → String → ℕ → Option ℕ → Option String → Result GroupError Bool
unfolding check_next
check_order bootstrap e frame seq none last =
    if bootstrap then ok true else err Group.first_not_bootstrap
check_order bootstrap e frame seq (some current) last =
    if seq == current && is_some_text last frame
    then ok false
    else check_next bootstrap e seq current last
