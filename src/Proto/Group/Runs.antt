-- ===== src/Proto/Group/Runs.antt =====
-- The group of the sample through a start, a bootstrap and an input.
use mathlib.Core.Path.{subst}
use aigenora.Prelude.{ℕ, ◌≡◌, refl, sym, true, false, Option, none, some, [], ◌∷◌, ok, map}
use aigenora.Prelude.Int.{pos}
use aigenora.Proto.JsonDelta.Dict.{Assoc, lookup, insert, contains, without, sort, missing, str_leb}
use aigenora.Proto.JsonDelta.Json.{
  Value, null, int, str, arr, no_elements, from_entries, entries, from_items, items, eq, eq_members,
  number_eq, number_eq_value, as_number, ℤ_eq,
}
use aigenora.Proto.JsonDelta.{
  diff, removals, additions, join, to_wire, make_json_delta, delta_ops, is_deep, path_of,
}
use aigenora.Proto.JsonDelta.Apply.{
  keys_are, has_keys, apply_json_delta, update_at, update_parent, set_at, put_child, get_child,
  set_child,
}
use aigenora.Proto.Group.{
  is_hash, all_hex, member_value, json_hash, canonical_json, validate_json, validate_text, get,
  text_or, truthy, any_text, any_number, normalize_member, sort_members, by_seat,
}
use aigenora.Proto.Group.Checkpoints.{
  checkpoint_certificate_canonical, checkpoint_state_from, validate_checkpoint_state,
  validate_members_value, normalize_members, normalize_from, are_counts, all_counts, has_all,
  project, is_mode,
}
use aigenora.Proto.Group.Replica.{
  new_replica, signature_payload, check_header, check_hashes, check_frame_hash, check_events,
  check_view_hash, check_signature, check_order, check_next,
}
use aigenora.Proto.Group.Replica.Decode.{
  decode_checkpoint, read_checkpoint, check_checkpoint, unsigned, certifies, decode_view, read_view,
}
use aigenora.Proto.Group.Replica.Apply.{
  apply, verify_frame, decode_new, membership_version_of, write_frame,
}
use aigenora.Proto.Group.Authority.{
  Published, CheckpointState, Authority, unsigned_entries, checkpoint_entries, state_entries,
  core_entries, count_values, normalize_result,
}
use aigenora.Proto.Group.Authority.Build.{
  make_checkpoint_state, checkpoint_from_state, unsigned_checkpoint, member_view,
  build_member_envelope, private_payload, shorter_delta,
}
use aigenora.Proto.Group.Authority.Frames.{
  build_envelopes, build_planned, publish_rendered, publish, plan_frame, plan_checkpoint, core_of,
  render_members, render_member, column, remember, put_number, trim,
}
use aigenora.Proto.Group.Authority.Inputs.{
  accepted, apply_input, check_input, take_input, count_input, handle_action, take_result,
  find_member, member as group_member,
}
use aigenora.Proto.Group.Authority.Bootstraps.{bootstrap_envelope, bootstrap_for}
use aigenora.Proto.Group.Sync.{KeyPair}
use aigenora.Proto.Group.Sync.Refines.{Sound}
use aigenora.Proto.Group.Sync.Bootstrapped.{OfGroup}
use aigenora.Proto.Group.Sync.Delivery.{InStep, Lossless, Exact}
use aigenora.Proto.Group.Sample.{
  zero_hash, leader_key, guest_key, codec, state_with, hooks, seated, fresh, at_start,
  first_envelope, newcomer, joined, move, after_input, after_move, second_envelope, codec-Hashes,
  codec_keys, codec_int, first_envelopes, Lossless-ExactAt,
}

pub computed :
    ((at_start.private_key ≡ "private") × (at_start.leader_public_key ≡ leader_key))
    × (normalize_members codec (map member_value at_start.members) ≡ ok at_start.members)
    × (apply_input codec hooks guest_key (int (pos 1)) move at_start
        ≡ (ok (after_move, accepted 1 1 zero_hash false), after_input))
    × (lookup guest_key after_move ≡ some second_envelope)
    × InStep at_start joined guest_key
    × (after_input.completed ≡ false)
    × (build_envelopes codec hooks "snapshot" (arr no_elements) [] false fresh
        ≡ (ok first_envelopes, at_start))
    × (bootstrap_envelope codec hooks guest_key at_start ≡ ok (some first_envelope))
    × OfGroup at_start newcomer guest_key
unfolding build_envelopes build_planned publish_rendered publish plan_frame plan_checkpoint core_of
    make_checkpoint_state checkpoint_from_state unsigned_checkpoint unsigned_entries
    checkpoint_entries state_entries core_entries count_values member_value json_hash canonical_json
    validate_json validate_text render_members render_member member_view build_member_envelope
    private_payload signature_payload shorter_delta column remember put_number trim insert lookup
    from_entries entries from_items items checkpoint_certificate_canonical get apply_input
    check_input take_input count_input handle_action normalize_result take_result find_member
    group_member bootstrap_envelope bootstrap_for apply verify_frame check_header check_hashes
    check_frame_hash check_events check_view_hash check_signature check_order check_next decode_new
    decode_checkpoint read_checkpoint check_checkpoint unsigned certifies decode_view read_view
    checkpoint_state_from validate_checkpoint_state validate_members_value normalize_members
    normalize_from normalize_member sort_members by_seat are_counts all_counts has_all contains
    project without keys_are has_keys is_hash all_hex text_or truthy any_text any_number
    membership_version_of write_frame diff removals additions join sort missing str_leb to_wire eq
    number_eq number_eq_value as_number ℤ_eq new_replica
computed = (
  (refl, refl),
  refl,
  refl,
  refl,
  (_, refl, refl, refl, refl, refl, refl, refl, refl, refl),
  refl,
  refl,
  refl,
  (refl, refl, refl, refl),
)

abbrev pub blank : Published
blank = record {
  core = record {
    frame_kind = "";
    group_id = "";
    leader_public_key = "";
    leader_epoch = pos 0;
    seq = 0;
    previous_hash = "";
    membership_version = pos 0;
    authority_state_hash = "";
    recovery_state_hash = "";
    events_hash = "";
    completed = false;
    outcome = none;
  };
  events = null;
  checkpoint = record {
    group_id = "";
    leader_public_key = "";
    leader_epoch = pos 0;
    seq = 0;
    frame_hash = "";
    membership_version = pos 0;
    state = record {
      members = [];
      last_client_seq = [];
      recovery_mode = "";
      protocol_state = [];
      completed = false;
      outcome = none;
    };
    checkpoint_hash = "";
    checkpoint_signature = "";
  };
  envelopes = [];
  views = [];
}

abbrev or_blank : Option Published → Published
or_blank none = blank
or_blank (some p) = p

abbrev pub published_by : Authority → Published
published_by a = or_blank a.published

abbrev view_at : ℕ → Assoc Value
view_at n = ("state", state_with n) ∷ ("seat", int (pos 1)) ∷ []

-- The states of the checkpoints differ in the counter and in the guest's number.
abbrev state_at : ℕ → Assoc ℕ → CheckpointState
state_at n numbers = record {
  members = seated leader_key 0 ∷ seated guest_key 1 ∷ [];
  last_client_seq = numbers;
  recovery_mode = "exact";
  protocol_state = ("count", int (pos n)) ∷ [];
  completed = false;
  outcome = none;
}

pub published_frames :
    (at_start.published ≡ some (published_by at_start))
    × (after_input.published ≡ some (published_by after_input))
    × (lookup guest_key (published_by at_start).views ≡ some (view_at 0))
    × (lookup guest_key (published_by after_input).views ≡ some (view_at 1))
    × ((published_by at_start).checkpoint.state ≡ state_at 0 [])
    × ((published_by after_input).checkpoint.state ≡ state_at 1 ((guest_key, 1) ∷ []))
    × (is_mode (str at_start.config.recovery_mode) ≡ true)
    × (normalize_members codec (map member_value fresh.members) ≡ ok fresh.members)
    × KeyPair codec at_start.private_key at_start.leader_public_key
unfolding build_envelopes build_planned publish_rendered publish plan_frame plan_checkpoint core_of
    make_checkpoint_state checkpoint_from_state unsigned_checkpoint unsigned_entries
    checkpoint_entries state_entries core_entries count_values member_value json_hash canonical_json
    validate_json validate_text render_members render_member member_view build_member_envelope
    private_payload signature_payload shorter_delta column remember put_number trim insert lookup
    from_entries entries from_items items checkpoint_certificate_canonical get apply_input
    check_input take_input count_input handle_action normalize_result take_result find_member
    group_member bootstrap_envelope bootstrap_for apply verify_frame check_header check_hashes
    check_frame_hash check_events check_view_hash check_signature check_order check_next decode_new
    decode_checkpoint read_checkpoint check_checkpoint unsigned certifies decode_view read_view
    checkpoint_state_from validate_checkpoint_state validate_members_value normalize_members
    normalize_from normalize_member sort_members by_seat are_counts all_counts has_all contains
    project without keys_are has_keys is_hash all_hex text_or truthy any_text any_number
    membership_version_of write_frame diff removals additions join sort missing str_leb to_wire eq
    number_eq number_eq_value as_number ℤ_eq new_replica
published_frames = (refl, refl, refl, refl, refl, refl, refl, refl, codec_keys)

Exact-view : Exact (view_at 0) (view_at 1)
unfolding make_json_delta delta_ops diff removals additions join sort missing contains lookup
    str_leb eq eq_members number_eq number_eq_value as_number ℤ_eq is_deep path_of to_wire entries
    from_entries items from_items apply_json_delta insert keys_are has_keys update_at update_parent
    set_at put_child get_child set_child
Exact-view = refl

Exact-state :
    Exact (state_entries (state_at 0 [])) (state_entries (state_at 1 ((guest_key, 1) ∷ [])))
unfolding make_json_delta delta_ops diff removals additions join sort missing contains lookup
    str_leb eq eq_members number_eq number_eq_value as_number ℤ_eq is_deep path_of to_wire entries
    from_entries items from_items apply_json_delta insert keys_are has_keys update_at update_parent
    set_at put_child get_child set_child state_entries member_value count_values
Exact-state = refl

Exact-states :
    Exact
      (state_entries (published_by at_start).checkpoint.state)
      (state_entries (published_by after_input).checkpoint.state)
Exact-states =
    subst (λ s. Exact (state_entries s) (state_entries (published_by after_input).checkpoint.state))
      (sym published_frames.4)
      (subst (λ s. Exact (state_entries (state_at 0 [])) (state_entries s)) (sym published_frames.5)
        Exact-state)

pub at_start-Sound : Sound codec at_start
at_start-Sound = (
  codec-Hashes,
  published_frames.8,
  codec_int,
  ((at_start.members, computed.1), published_frames.6),
)

pub at_start-Lossless : Lossless at_start after_input guest_key second_envelope
at_start-Lossless =
    Lossless-ExactAt at_start after_input guest_key second_envelope (published_by at_start)
      (published_by after_input) (published_frames.0) (published_frames.1)
      (view_at 0, view_at 1, published_frames.2, published_frames.3, Exact-states, Exact-view)
