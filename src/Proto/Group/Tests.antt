-- ===== src/Proto/Group/Tests.antt =====
-- The theorems on groups at the runs of the sample.

use aigenora.Prelude.{ℕ, ◌≡◌, refl, ◌⊎◌, false, some, [], ◌∷◌, ok}
use aigenora.Prelude.Int.{pos}
use aigenora.Proto.JsonDelta.Dict.{lookup, insert, contains, without, sort, missing, str_leb}
use aigenora.Proto.JsonDelta.Json.{
  Value, null, int, arr, obj, no_elements, from_entries, entries, from_items, items, eq, number_eq,
  number_eq_value, as_number, ℤ_eq,
}
use aigenora.Proto.JsonDelta.{diff, removals, additions, join, to_wire}
use aigenora.Proto.JsonDelta.Apply.{keys_are, has_keys}
use aigenora.Proto.Group.{
  Member, is_hash, all_hex, member_value, json_hash, canonical_json, validate_json, validate_text,
  get, text_or, truthy, any_text, any_number, normalize_member, sort_members, by_seat,
}
use aigenora.Proto.Group.Checkpoints.{
  checkpoint_certificate_canonical, checkpoint_state_from, validate_checkpoint_state,
  validate_members_value, normalize_members, normalize_from, are_counts, all_counts, has_all,
  project,
}
use aigenora.Proto.Group.Replica.{
  new_replica, signature_payload, check_header, check_hashes, check_frame_hash, check_events,
  check_view_hash, check_signature, check_order, check_next,
}
use aigenora.Proto.Group.Replica.Decode.{
  decode_checkpoint, read_checkpoint, check_checkpoint, unsigned, certifies, decode_view, read_view,
}
use aigenora.Proto.Group.Replica.Apply.{
  apply, verify_frame, decode_new, membership_version_of, write_frame,
}
use aigenora.Proto.Group.Replica.Chain.{Refuses, Takes, apply-Verified, At, Chained, live_run-Chain}
use aigenora.Proto.Group.Authority.{
  unsigned_entries, checkpoint_entries, state_entries, core_entries, count_values, normalize_result,
}
use aigenora.Proto.Group.Authority.Build.{
  make_checkpoint_state, checkpoint_from_state, unsigned_checkpoint, member_view,
  build_member_envelope, private_payload, shorter_delta,
}
use aigenora.Proto.Group.Authority.Frames.{
  build_envelopes, build_planned, publish_rendered, publish, plan_frame, plan_checkpoint, core_of,
  render_members, render_member, column, remember, put_number, trim,
}
use aigenora.Proto.Group.Authority.Inputs.{
  duplicate, apply_input, check_input, take_input, count_input, handle_action, take_result,
  only_active, find_member, member as group_member,
}
use aigenora.Proto.Group.Authority.Bootstraps.{bootstrap_envelope, bootstrap_for}
use aigenora.Proto.Group.Sync.Inputs.{apply_input-again, apply_input-Delivered}
use aigenora.Proto.Group.Sync.Delivered.{Delivered}
use aigenora.Proto.Group.Sync.Bootstrap.{Standing, build_envelopes-Standing}
use aigenora.Proto.Group.Sync.Bootstrapped.{Behind, Bootstrapped, bootstrap_envelope-Bootstrapped}
use aigenora.Proto.Group.Sample.{
  zero_hash, leader_key, guest_key, codec, hooks, fresh, at_start, first_envelope, newcomer, joined,
  move, after_input, after_move, second_envelope, codec-Hashes, codec_int,
}
use aigenora.Proto.Group.Runs.{computed, published_frames, at_start-Sound, at_start-Lossless}

apply_input-Delivered_example : Delivered codec second_envelope joined after_input guest_key
apply_input-Delivered_example =
    apply_input-Delivered codec hooks guest_key (int (pos 1)) move at_start joined guest_key
      at_start-Sound (computed.4) (computed.2) (computed.3) at_start-Lossless

apply_input-again_example :
    (n : ℕ) × (apply_input codec hooks guest_key (int (pos 1)) null after_input
      ≡ (ok (after_move, duplicate n after_input.seq), after_input))
apply_input-again_example =
    apply_input-again codec hooks guest_key (int (pos 1)) move null at_start (computed.2)
      (computed.5)

build_envelopes-Standing_example : Standing codec at_start
build_envelopes-Standing_example =
    build_envelopes-Standing codec hooks "snapshot" (arr no_elements) [] false fresh
      ((fresh.members, published_frames.7), refl) refl (computed.6)

newcomer_Behind : Behind newcomer.seq at_start.seq
unfolding new_replica
newcomer_Behind = tt

bootstrap_envelope-Bootstrapped_example :
    (m : Member) × (only_active (group_member codec guest_key at_start) ≡ some m)
    × Bootstrapped codec hooks first_envelope at_start m newcomer
bootstrap_envelope-Bootstrapped_example =
    bootstrap_envelope-Bootstrapped codec hooks at_start newcomer guest_key codec-Hashes
      published_frames.8 codec_int build_envelopes-Standing_example (computed.8) newcomer_Behind
      (computed.7)

abbrev second : Value
second = obj (from_entries second_envelope)

apply-Verified_example : Refuses codec false second joined ⊎ Takes codec false second joined
apply-Verified_example = apply-Verified codec false second joined

joined-At : At leader_key guest_key zero_hash 0 joined
unfolding build_envelopes build_planned publish_rendered publish plan_frame plan_checkpoint core_of
    make_checkpoint_state checkpoint_from_state unsigned_checkpoint unsigned_entries
    checkpoint_entries state_entries core_entries count_values member_value json_hash canonical_json
    validate_json validate_text render_members render_member member_view build_member_envelope
    private_payload signature_payload shorter_delta column remember put_number trim insert lookup
    from_entries entries from_items items checkpoint_certificate_canonical get apply_input
    check_input take_input count_input handle_action normalize_result take_result find_member
    group_member bootstrap_envelope bootstrap_for apply verify_frame check_header check_hashes
    check_frame_hash check_events check_view_hash check_signature check_order check_next decode_new
    decode_checkpoint read_checkpoint check_checkpoint unsigned certifies decode_view read_view
    checkpoint_state_from validate_checkpoint_state validate_members_value normalize_members
    normalize_from normalize_member sort_members by_seat are_counts all_counts has_all contains
    project without keys_are has_keys is_hash all_hex text_or truthy any_text any_number
    membership_version_of write_frame diff removals additions join sort missing str_leb to_wire eq
    number_eq number_eq_value as_number ℤ_eq new_replica
joined-At = (refl, refl, refl, refl)

live_run-Chain_example : Chained codec leader_key guest_key zero_hash 0 (second ∷ move ∷ []) joined
live_run-Chain_example =
    live_run-Chain codec leader_key guest_key (second ∷ move ∷ []) zero_hash 0 joined joined-At
