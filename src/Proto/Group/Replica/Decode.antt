-- ===== src/Proto/Group/Replica/Decode.antt =====
-- `GroupReplica._decode_checkpoint` and `_decode_view` of aigenora/proto/group.py.
use aigenora.Prelude.{
  ℕ, String, Bool, not, ◌&&◌, ◌||◌, none, some, [], ◌∷◌, if◌then◌else◌, Result, ok, err, ◌>>=◌,
  ◌>>◌, raise_if,
}
use aigenora.Prelude.Int.{pos}
use aigenora.Proto.JsonDelta.{DeltaError}
use aigenora.Proto.JsonDelta.Dict.{Assoc, insert, without}
use aigenora.Proto.JsonDelta.Json.{Value, null, int, str, obj, entries, from_entries, eq}
use aigenora.Proto.JsonDelta.Apply.{apply_json_delta}
use aigenora.Proto.Group
use aigenora.Proto.Group.{
  Codec, GroupError, get, truthy, is_hash, json_hash, canonical_json, validate_json,
}
use aigenora.Proto.Group.Checkpoints.{
  checkpoint_state_from, validate_checkpoint_state, checkpoint_certificate_canonical,
}
use aigenora.Proto.Group.Replica.{Replica, differs, is_list, text_of_value}

-- `{**d, **update}`
unfoldable pub merge : Assoc Value → Assoc Value → Assoc Value
unfolding insert
merge d [] = d
merge d ((k, v) ∷ l) = merge (insert k v d) l

-- `try: apply_json_delta(…) except JsonDeltaError`
abbrev pub or_invalid : Result DeltaError Value → GroupError → Result GroupError Value
or_invalid (err x) y = err y
or_invalid (ok v) y = ok v

abbrev pub entries_of : Value → GroupError → Result GroupError (Assoc Value)
entries_of (obj fs) x = ok (entries fs)
entries_of _ x = err x

-- The dictionary of a checkpoint that comes as a delta.
unfoldable pub rebuilt_checkpoint : Replica → Assoc Value → ℕ → String → Assoc Value → Assoc Value
unfolding get merge
rebuilt_checkpoint r e seq frame state =
    merge
      (merge
        (("version", int (pos 1))
          ∷ ("group_id", str r.group_id)
          ∷ ("leader_public_key", str r.leader_public_key)
          ∷ ("leader_epoch", int r.leader_epoch)
          ∷ ("seq", int (pos seq))
          ∷ ("frame_hash", str frame)
          ∷ ("membership_version", get e "membership_version")
          ∷ [])
        state)
      (("checkpoint_hash", get e "checkpoint_hash")
        ∷ ("checkpoint_signature", get e "checkpoint_signature")
        ∷ [])

-- The branch on the mode in `_decode_checkpoint`.
unfoldable pub read_checkpoint :
    Codec → Replica → Bool → Assoc Value → ℕ → String → Result GroupError (Assoc Value)
unfolding get truthy checkpoint_state_from validate_checkpoint_state rebuilt_checkpoint
read_checkpoint c r bootstrap e seq frame = do
  raise_if (not (is_list (get e "checkpoint_delta"))) Group.checkpoint_delta_array
  if eq (get e "checkpoint_mode") (str "full")
      then entries_of (get e "checkpoint") Group.checkpoint_full_invalid >>= (λ full.
        raise_if (truthy (get e "checkpoint_delta")) Group.checkpoint_full_invalid >> ok full)
      else if eq (get e "checkpoint_mode") (str "delta")
      then raise_if (bootstrap || differs (get e "checkpoint") null) Group.checkpoint_bootstrap_full
        >> elim (r.checkpoint) [
          | none ↦ err Group.checkpoint_no_base
          | some held ↦ checkpoint_state_from held >>= λ base.
              or_invalid (apply_json_delta (obj (from_entries base)) (get e "checkpoint_delta"))
                Group.checkpoint_delta_invalid
              >>= λ state.
                  validate_checkpoint_state c state
                  >> (entries_of state Group.state_fields >>= λ fields.
                      ok (rebuilt_checkpoint r e seq frame fields))
        ]
      else err Group.checkpoint_mode_invalid

unfoldable pub unsigned : Assoc Value → Assoc Value
unfolding without
unsigned checkpoint = without "checkpoint_signature" (without "checkpoint_hash" checkpoint)

-- Whether a checkpoint is that of a frame of the replica's group and leader.
unfoldable pub certifies : Replica → Assoc Value → ℕ → String → Assoc Value → Bool
unfolding get
certifies r e seq frame checkpoint =
    eq (get checkpoint "group_id") (str r.group_id)
    && eq (get checkpoint "leader_public_key") (str r.leader_public_key)
    && eq (get checkpoint "leader_epoch") (int r.leader_epoch)
    && eq (get checkpoint "seq") (int (pos seq))
    && eq (get checkpoint "frame_hash") (str frame)
    && eq (get checkpoint "membership_version") (get e "membership_version")
    && eq (get checkpoint "completed") (get e "completed")
    && eq (get checkpoint "outcome") (get e "outcome")

-- The checks in `_decode_checkpoint` of the checkpoint that was read.
unfoldable pub check_checkpoint :
    Codec → Replica → Assoc Value → ℕ → String → Assoc Value → Result GroupError (Unit {0})
unfolding get is_hash json_hash unsigned certifies checkpoint_state_from validate_checkpoint_state
    checkpoint_certificate_canonical
check_checkpoint c r e seq frame checkpoint = do
  let held = get checkpoint "checkpoint_hash"
  raise_if (differs (get checkpoint "version") (int (pos 1)) || not (is_hash c held))
      Group.checkpoint_hash_mismatch
  hash ← json_hash c (obj (from_entries (unsigned checkpoint)))
  raise_if
      (differs (str hash) held
        || differs (get e "checkpoint_hash") held
        || differs (get e "checkpoint_signature") (get checkpoint "checkpoint_signature"))
      Group.checkpoint_hash_mismatch
  raise_if (not (certifies r e seq frame checkpoint)) Group.checkpoint_uncertified
  state ← checkpoint_state_from checkpoint
  validate_checkpoint_state c (obj (from_entries state))
  recovery ← json_hash c (obj (from_entries state))
  raise_if (differs (str recovery) (get e "recovery_state_hash")) Group.recovery_hash_mismatch
  signature ←
      text_of_value (get checkpoint "checkpoint_signature") Group.checkpoint_signature_missing
  raise_if
      (not (c.verify r.leader_public_key (checkpoint_certificate_canonical c checkpoint) signature))
      Group.certificate_invalid

-- `_decode_checkpoint`
unfoldable pub decode_checkpoint :
    Codec → Replica → Bool → Assoc Value → ℕ → String → Result GroupError (Assoc Value)
unfolding read_checkpoint check_checkpoint
decode_checkpoint c r bootstrap e seq frame = do
  checkpoint ← read_checkpoint c r bootstrap e seq frame
  check_checkpoint c r e seq frame checkpoint
  ok checkpoint

-- The branch on the mode in `_decode_view`.
unfoldable pub read_view : Replica → Bool → Assoc Value → Result GroupError (Assoc Value)
unfolding get truthy
read_view r bootstrap e = do
  raise_if (not (is_list (get e "view_delta"))) Group.view_delta_array
  if eq (get e "view_mode") (str "full")
      then entries_of (get e "view") Group.view_full_invalid
        >>= (λ full. raise_if (truthy (get e "view_delta")) Group.view_full_invalid >> ok full)
      else if eq (get e "view_mode") (str "delta")
      then raise_if (bootstrap || differs (get e "view") null) Group.view_bootstrap_full
        >> elim (r.view) [
          | none ↦ err Group.view_no_base
          | some held ↦
              or_invalid (apply_json_delta (obj (from_entries held)) (get e "view_delta"))
                Group.view_delta_invalid
              >>= λ view. entries_of view Group.view_object
        ]
      else err Group.view_mode_invalid

-- `_decode_view`
unfoldable pub decode_view : Codec → Replica → Bool → Assoc Value → Result GroupError (Assoc Value)
unfolding read_view get json_hash validate_json
decode_view c r bootstrap e = do
  view ← read_view r bootstrap e
  validate_json 0 (obj (from_entries view))
  hash ← json_hash c (obj (from_entries view))
  raise_if (differs (str hash) (get e "view_state_hash")) Group.view_state_mismatch
  ok view
