-- ===== src/Proto/Group/Sync/Planned.antt =====
-- The core and the checkpoint that `_build_envelopes` of aigenora/proto/group.py makes.
use mathlib.Core.Path.{subst}
use aigenora.Prelude.{
  ℕ, String, ◌≡◌, refl, true, Option, none, some, List, [], ◌∷◌, ◌++◌, map, ok, ok_of_bind,
}
use aigenora.Proto.JsonDelta.Dict.{Assoc, lookup, contains}
use aigenora.Proto.JsonDelta.Json.{
  bool, arr, str, obj, from_entries, from_items, entries-from_entries, items-from_items,
}
use aigenora.Proto.JsonDelta.Apply.{keys_are, has_keys}
use aigenora.Proto.Group.{
  Codec, snapshot_object, Member, member_value, json_hash, validate_json, get,
}
use aigenora.Proto.Group.Checkpoints.{
  normalize_members, validate_members_value, validate_checkpoint_state, are_counts, all_counts,
  is_mode, is_outcome, state_keys, checkpoint_certificate_canonical,
}
use aigenora.Proto.Group.Replica.{or_null}
use aigenora.Proto.Group.Authority.{
  Hooks, Authority, CheckpointState, count_values, state_entries, Checkpoint, unsigned_entries,
  checkpoint_entries, as_dict,
}
use aigenora.Proto.Group.Authority.Build.{
  make_checkpoint_state, checkpoint_from_state, unsigned_checkpoint,
}

-- The members are as `normalize_members` takes them, and the recovery mode is one of the three.
abbrev pub Restorable : Codec → Authority → Type 0
Restorable c a =
    ((ms : List Member) × (normalize_members c (map member_value a.members) ≡ ok ms))
    × (is_mode (str a.config.recovery_mode) ≡ true)

all_counts-count_values : (l : Assoc ℕ) → all_counts (count_values l) ≡ true
unfolding all_counts count_values
all_counts-count_values [] = refl
all_counts-count_values ((k, n) ∷ l) = all_counts-count_values l

are_counts-count_values : (l : Assoc ℕ) → are_counts (obj (from_entries (count_values l))) ≡ true
unfolding are_counts
are_counts-count_values l = rw (entries-from_entries (count_values l)) (all_counts-count_values l)

is_outcome-or_null : (t : Option String) → is_outcome (or_null t) ≡ true
is_outcome-or_null none = refl
is_outcome-or_null (some t) = refl

validate_members-members :
    (c : Codec) (members ms : List Member)
    → normalize_members c (map member_value members) ≡ ok ms
    → validate_members_value c (arr (from_items (map member_value members))) ≡ ok tt
unfolding validate_members_value
validate_members-members c members ms h = rw (items-from_items (map member_value members), h) refl

module _ (c : Codec) (s : CheckpointState) where
  keys_of_state : keys_are state_keys (state_entries s) ≡ true
  unfolding keys_are has_keys contains state_entries
  keys_of_state = refl

  fields_of_state :
      (get (state_entries s) "members" ≡ arr (from_items (map member_value s.members)))
      × (get (state_entries s) "last_client_seq"
          ≡ obj (from_entries (count_values s.last_client_seq)))
      × (get (state_entries s) "recovery_mode" ≡ str s.recovery_mode)
      × (get (state_entries s) "protocol_state" ≡ obj (from_entries s.protocol_state))
      × (get (state_entries s) "completed" ≡ bool s.completed)
      × (get (state_entries s) "outcome" ≡ or_null s.outcome)
  unfolding get lookup state_entries
  fields_of_state = (refl, refl, refl, refl, refl, refl)

  pub validate_checkpoint_state-state_entries :
      (ms : List Member)
      → normalize_members c (map member_value s.members) ≡ ok ms
      → is_mode (str s.recovery_mode) ≡ true
      → validate_json 0 (obj (from_entries (state_entries s))) ≡ ok tt
      → validate_checkpoint_state c (obj (from_entries (state_entries s))) ≡ ok tt
  unfolding validate_checkpoint_state
  validate_checkpoint_state-state_entries ms members mode valid =
      let (g1, g2, g3, g4, g5, g6) = fields_of_state in
      rw (entries-from_entries (state_entries s), keys_of_state)
        (rw (g1, validate_members-members c s.members ms members)
          (rw (g2, are_counts-count_values s.last_client_seq)
            (rw (g3, mode) (rw g4 (rw g5 (rw (g6, is_outcome-or_null s.outcome) valid))))))

-- What `_make_checkpoint_state` copies from the authority.
abbrev pub Copied : Authority → CheckpointState → Type 0
Copied a s =
    (validate_json 0 (obj (from_entries (state_entries s))) ≡ ok tt)
    × (s.members ≡ a.members)
    × (s.recovery_mode ≡ a.config.recovery_mode)
    × (s.completed ≡ a.completed)
    × (s.outcome ≡ a.outcome)

pub make_checkpoint_state-Copied :
    (hooks : Hooks) (a : Authority) {s : CheckpointState}
    → make_checkpoint_state hooks a ≡ ok s
    → Copied a s
unfolding make_checkpoint_state
make_checkpoint_state-Copied hooks a {s} h =
    let (snapshot, raw, h1) =
      ok_of_bind (hooks.recovery_snapshot (obj (from_entries a.state))) _ h in
    let (state, dict, h2) = ok_of_bind (as_dict snapshot snapshot_object) _ h1 in
    let made : CheckpointState = record {
      members = a.members;
      last_client_seq = a.last_client_seq;
      recovery_mode = a.config.recovery_mode;
      protocol_state = state;
      completed = a.completed;
      outcome = a.outcome;
    } in
    let (u, valid, h3) =
      ok_of_bind (validate_json 0 (obj (from_entries (state_entries made)))) _ h2 in
    let same : made ≡ s = cc in subst (Copied a) same (valid, refl, refl, refl, refl)

-- What `_checkpoint_from_state` puts together.
abbrev pub CheckpointOf : Codec → Authority → CheckpointState → String → Checkpoint → Type 0
CheckpointOf c a s frame k =
    (json_hash c (obj (from_entries (unsigned_entries k))) ≡ ok k.checkpoint_hash)
    × (k.checkpoint_signature
        ≡ c.sign a.private_key (checkpoint_certificate_canonical c (checkpoint_entries k)))
    × (k.state ≡ s)
    × (k.group_id ≡ a.group_id)
    × (k.leader_public_key ≡ a.leader_public_key)
    × (k.leader_epoch ≡ a.leader_epoch)
    × (k.seq ≡ a.seq)
    × (k.frame_hash ≡ frame)
    × (k.membership_version ≡ a.membership_version)

pub checkpoint_from_state-CheckpointOf :
    (c : Codec) (a : Authority) (s : CheckpointState) (frame : String) {k : Checkpoint}
    → checkpoint_from_state c a s frame ≡ ok k
    → CheckpointOf c a s frame k
unfolding checkpoint_from_state unsigned_entries checkpoint_certificate_canonical checkpoint_entries
    get lookup state_entries
checkpoint_from_state-CheckpointOf c a s frame {k} h =
    let base = unsigned_checkpoint a s frame in
    let (hash, hashed, h1) =
      ok_of_bind (json_hash c (obj (from_entries (unsigned_entries base)))) _ h in
    let made : Checkpoint = record base {
      checkpoint_hash = hash;
      checkpoint_signature = c.sign a.private_key (
          checkpoint_certificate_canonical c
            (unsigned_entries base ++ ("checkpoint_hash", str hash) ∷ []));
    } in
    let same : made ≡ k = cc in
    subst (CheckpointOf c a s frame) same (hashed, refl, refl, refl, refl, refl, refl, refl, refl)
