-- ===== src/Proto/Group/EdgeTests.antt =====
-- A lost frame, an acknowledgement and the history, in the group of the sample.

use aigenora.Prelude.{◌≤◌, length, ◌+◌, ◌≡◌, refl, true, false, none, [], ◌∷◌, ok, err}
use aigenora.Prelude.Int.{pos}
use aigenora.Proto.JsonDelta.Dict.{lookup, insert, contains, without, sort, missing, str_leb}
use aigenora.Proto.JsonDelta.Json.{
  null, int, arr, no_elements, from_entries, entries, from_items, items, eq, number_eq,
  number_eq_value, as_number, ℤ_eq,
}
use aigenora.Proto.JsonDelta.{diff, removals, additions, join, to_wire}
use aigenora.Proto.JsonDelta.Apply.{keys_are, has_keys}
use aigenora.Proto.Group.{
  hook_raised, is_hash, all_hex, member_value, json_hash, canonical_json, validate_json,
  validate_text, get, text_or, truthy, any_text, any_number, normalize_member, sort_members,
  by_seat,
}
use aigenora.Proto.Group.Checkpoints.{
  checkpoint_certificate_canonical, checkpoint_state_from, validate_checkpoint_state,
  validate_members_value, normalize_members, normalize_from, are_counts, all_counts, has_all,
  project,
}
use aigenora.Proto.Group.Replica.{
  new_replica, signature_payload, check_header, check_hashes, check_frame_hash, check_events,
  check_view_hash, check_signature, check_order, check_next,
}
use aigenora.Proto.Group.Replica.Decode.{
  decode_checkpoint, read_checkpoint, check_checkpoint, unsigned, certifies, decode_view, read_view,
}
use aigenora.Proto.Group.Replica.Apply.{
  apply, verify_frame, decode_new, membership_version_of, write_frame,
}
use aigenora.Proto.Group.Authority.{
  Hooks, Normalized, Authority, unsigned_entries, checkpoint_entries, state_entries, core_entries,
  count_values, normalize_result,
}
use aigenora.Proto.Group.Authority.Build.{
  full, make_checkpoint_state, checkpoint_from_state, unsigned_checkpoint, member_view,
  build_member_envelope, private_payload, shorter_delta,
}
use aigenora.Proto.Group.Authority.Frames.{
  Plan, build_envelopes, build_planned, publish_rendered, publish, plan_frame, plan_checkpoint,
  core_of, render_members, render_member, column, remember, put_number, trim,
}
use aigenora.Proto.Group.Authority.Inputs.{
  count_of, counted, last_envelopes, duplicate, apply_input, check_input, take_input, count_input,
  handle_action, take_result, find_member, member as group_member,
}
use aigenora.Proto.Group.Authority.Bootstraps.{bootstrap_envelope, bootstrap_for}
use aigenora.Proto.Group.Authority.Membership.{checkpoint_at, acknowledge}
use aigenora.Proto.Group.Authority.History.{publish-length}
use aigenora.Proto.Group.Sync.Lost.{after_lost, apply_input-lost}
use aigenora.Proto.Group.Sample.{zero_hash, guest_key, codec, hooks, seated, at_start, move}
use aigenora.Proto.Group.Runs.{blank}

-- The views cannot be rendered.
abbrev blind : Hooks
blind = record hooks { view = λ state m. err hook_raised }

abbrev handled : Normalized
handled = record {
  state = ("count", int (pos 1)) ∷ [];
  events = arr no_elements;
  direct = [];
  completed = false;
  outcome = none;
}

abbrev lost : Authority
lost = after_lost guest_key 1 handled at_start

blind_fails :
    (check_input codec guest_key (int (pos 1)) at_start ≡ ok (seated guest_key 1, 1))
    × (1 ≡ count_of guest_key at_start.last_client_seq + 1)
    × (handle_action codec blind (seated guest_key 1) move at_start ≡ ok handled)
    × (build_envelopes codec blind "frame"
          (arr no_elements)
          []
          true
          (counted guest_key 1 handled at_start)
        ≡ (err hook_raised, lost))
unfolding build_envelopes build_planned publish_rendered publish plan_frame plan_checkpoint core_of
    make_checkpoint_state checkpoint_from_state unsigned_checkpoint unsigned_entries
    checkpoint_entries state_entries core_entries count_values member_value json_hash canonical_json
    validate_json validate_text render_members render_member member_view build_member_envelope
    private_payload signature_payload shorter_delta column remember put_number trim insert lookup
    from_entries entries from_items items checkpoint_certificate_canonical get apply_input
    check_input take_input count_input handle_action normalize_result take_result find_member
    group_member bootstrap_envelope bootstrap_for apply verify_frame check_header check_hashes
    check_frame_hash check_events check_view_hash check_signature check_order check_next decode_new
    decode_checkpoint read_checkpoint check_checkpoint unsigned certifies decode_view read_view
    checkpoint_state_from validate_checkpoint_state validate_members_value normalize_members
    normalize_from normalize_member sort_members by_seat are_counts all_counts has_all contains
    project without keys_are has_keys is_hash all_hex text_or truthy any_text any_number
    membership_version_of write_frame diff removals additions join sort missing str_leb to_wire eq
    number_eq number_eq_value as_number ℤ_eq new_replica
blind_fails = (refl, refl, refl, refl)

apply_input-lost_example :
    (apply_input codec blind guest_key (int (pos 1)) move at_start ≡ (err hook_raised, lost))
    × (lost.seq ≡ at_start.seq + 1)
    × (apply_input codec blind guest_key (int (pos 1)) null lost
        ≡ (ok (last_envelopes at_start, duplicate 1 (at_start.seq + 1)), lost))
apply_input-lost_example =
    apply_input-lost codec blind guest_key (int (pos 1)) move null at_start (seated guest_key 1) 1
      handled (blind_fails.0) (blind_fails.1) (blind_fails.2) refl (blind_fails.3)

-- The acknowledgement is recorded.
acknowledged : (acknowledge codec guest_key (int (pos 0)) zero_hash none at_start).0 ≡ true
unfolding acknowledge checkpoint_at build_envelopes build_planned publish_rendered publish
    plan_frame plan_checkpoint core_of make_checkpoint_state checkpoint_from_state
    unsigned_checkpoint unsigned_entries checkpoint_entries state_entries core_entries count_values
    member_value json_hash canonical_json validate_json validate_text render_members render_member
    member_view build_member_envelope private_payload signature_payload shorter_delta column
    remember put_number trim insert lookup from_entries entries from_items items
    checkpoint_certificate_canonical get apply_input check_input take_input count_input
    handle_action normalize_result take_result find_member group_member bootstrap_envelope
    bootstrap_for apply verify_frame check_header check_hashes check_frame_hash check_events
    check_view_hash check_signature check_order check_next decode_new decode_checkpoint
    read_checkpoint check_checkpoint unsigned certifies decode_view read_view checkpoint_state_from
    validate_checkpoint_state validate_members_value normalize_members normalize_from
    normalize_member sort_members by_seat are_counts all_counts has_all contains project without
    keys_are has_keys is_hash all_hex text_or truthy any_text any_number membership_version_of
    write_frame diff removals additions join sort missing str_leb to_wire eq number_eq
    number_eq_value as_number ℤ_eq new_replica
acknowledged = refl

abbrev small_plan : Plan
small_plan = record {
  core = blank.core;
  frame_hash = zero_hash;
  events = null;
  checkpoint = blank.checkpoint;
  checkpoint_mode = full;
  direct = [];
}

publish-length_example : length (publish small_plan [] at_start).checkpoint_history ≤ 256
publish-length_example = publish-length small_plan [] at_start
