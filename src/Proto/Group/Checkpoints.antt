-- ===== src/Proto/Group/Checkpoints.antt =====
-- The members and the checkpoint states of aigenora/proto/group.py.
use Prim.Native.String.{◌++◌ as text_append}
use aigenora.Prelude.{
  ℕ, String, Bool, true, false, not, ◌&&◌, ◌||◌, List, [], ◌∷◌, str_eq, Result, ok, err, ◌>>=◌,
  ◌>>◌, raise_if,
}
use aigenora.Prelude.Int.{pos}
use aigenora.Proto.JsonDelta.Dict.{Assoc, contains}
use aigenora.Proto.JsonDelta.Json.{Value, null, bool, int, str, arr, obj, items, entries}
use aigenora.Proto.JsonDelta.Apply.{keys_are}
use aigenora.Proto.Group.{
  Codec, GroupError, member_object, state_missing, state_fields, members_array, client_seq_invalid,
  recovery_mode_invalid, protocol_state_object, completed_invalid, outcome_invalid, get, is_key,
  is_seat, Member, normalize_member, sort_members, validate_json,
}

abbrev pub spelled : Value → List String → List String
spelled (str key) identities = key ∷ identities
spelled _ identities = identities

-- The loop of `normalize_members`, with the keys as they were spelled and the seats so far.
unfoldable pub normalize_from :
    Codec → List String → List ℕ → List Value → Result GroupError (List Member)
unfolding normalize_member get
normalize_from c identities seats [] = ok []
normalize_from c identities seats (obj fs ∷ raws) = do
  let raw = entries fs
  m ←
      normalize_member c identities seats raw (is_key (get raw "public_key"))
        (is_seat (get raw "seat"))
  rest ← normalize_from c (spelled (get raw "public_key") identities) (m.seat ∷ seats) raws
  ok (m ∷ rest)
normalize_from c identities seats (_ ∷ raws) = err member_object

unfoldable pub normalize_members : Codec → List Value → Result GroupError (List Member)
unfolding normalize_from
normalize_members c raws = do ms ← normalize_from c [] [] raws; ok (sort_members ms)

abbrev pub state_keys : List String
state_keys =
    "members" ∷ "last_client_seq" ∷ "recovery_mode" ∷ "protocol_state" ∷ "completed" ∷ "outcome"
    ∷ []

unfoldable pub has_all : List String → Assoc Value → Bool
has_all [] d = true
has_all (k ∷ ks) d = contains k d && has_all ks d

-- `{key: d.get(key) for key in …}`
unfoldable pub project : List String → Assoc Value → Assoc Value
unfolding get
project [] d = []
project (k ∷ ks) d = (k, get d k) ∷ project ks d

-- `_checkpoint_state_from`
unfoldable pub checkpoint_state_from : Assoc Value → Result GroupError (Assoc Value)
unfolding has_all project
checkpoint_state_from d =
    raise_if (not (has_all state_keys d)) state_missing >> ok (project state_keys d)

-- A count of inputs: an integer that is no bool and not negative.
unfoldable pub all_counts : Assoc Value → Bool
all_counts [] = true
all_counts ((k, int (pos n)) ∷ l) = all_counts l
all_counts ((k, _) ∷ l) = false

unfoldable pub are_counts : Value → Bool
unfolding all_counts
are_counts (obj fs) = all_counts (entries fs)
are_counts _ = false

abbrev pub is_mode : Value → Bool
is_mode (str text) = str_eq text "exact" || str_eq text "restart_round" || str_eq text "abort"
is_mode _ = false

abbrev pub is_object : Value → Bool
is_object (obj fs) = true
is_object _ = false

abbrev pub is_bool : Value → Bool
is_bool (bool b) = true
is_bool _ = false

abbrev pub is_outcome : Value → Bool
is_outcome null = true
is_outcome (str text) = true
is_outcome _ = false

unfoldable pub validate_members_value : Codec → Value → Result GroupError (Unit {0})
unfolding normalize_members
validate_members_value c (arr xs) = do ms ← normalize_members c (items xs); ok tt
validate_members_value c _ = err members_array

-- `_validate_checkpoint_state`
unfoldable pub validate_checkpoint_state : Codec → Value → Result GroupError (Unit {0})
unfolding get validate_members_value are_counts
validate_checkpoint_state c (obj fs) = do
  let d = entries fs
  raise_if (not (keys_are state_keys d)) state_fields
  validate_members_value c (get d "members")
  raise_if (not (are_counts (get d "last_client_seq"))) client_seq_invalid
  raise_if (not (is_mode (get d "recovery_mode"))) recovery_mode_invalid
  raise_if (not (is_object (get d "protocol_state"))) protocol_state_object
  raise_if (not (is_bool (get d "completed"))) completed_invalid
  raise_if (not (is_outcome (get d "outcome"))) outcome_invalid
  validate_json 0 (obj fs)
validate_checkpoint_state c _ = err state_fields

-- `checkpoint_certificate_canonical`
unfoldable pub checkpoint_certificate_canonical : Codec → Assoc Value → String
unfolding get
checkpoint_certificate_canonical c d =
    let field : String → String = λ k. c.text_of (get d k) in
    text_append "aigenora-group-checkpoint-v1:" (
      text_append (field "group_id") (
        text_append ":" (
          text_append (field "leader_public_key") (
            text_append ":" (
              text_append (field "leader_epoch") (
                text_append ":" (
                  text_append (field "seq") (
                    text_append ":" (
                      text_append (field "frame_hash") (
                        text_append ":" (
                          text_append (field "membership_version")
                            (text_append ":" (field "checkpoint_hash")))))))))))))
