-- ===== src/Proto/Group/Replica/Verifies.antt =====
-- The stages of `GroupReplica.apply` of aigenora/proto/group.py, put together.
use mathlib.Core.Path.{subst}
use aigenora.Prelude.{
  ℕ, String, ◌≡◌, refl, sym, Bool, true, false, not, ◌||◌, some, ok, passed, passed_last,
  ok_of_bind, arith,
}
use aigenora.Prelude.Int.{pos, negsuc}
use aigenora.Proto.JsonDelta.Dict.{Assoc}
use aigenora.Proto.JsonDelta.Json.{Value, null, bool, int, float, str, arr, obj, from_entries, eq}
use aigenora.Proto.Group
use aigenora.Proto.Group.{Codec, GroupError, get, is_hash, json_hash, canonical_json, validate_json}
use aigenora.Proto.Group.Checkpoints.{
  checkpoint_certificate_canonical, validate_checkpoint_state, checkpoint_state_from,
}
use aigenora.Proto.Group.Replica.{
  Replica, check_header, check_hashes, check_order, as_seq, differs, text_of_value,
}
use aigenora.Proto.Group.Replica.Decode.{
  decode_checkpoint, decode_view, read_checkpoint, read_view, check_checkpoint, unsigned, certifies,
}
use aigenora.Proto.Group.Replica.Apply.{Frame, verify_frame, decode_new}
use aigenora.Proto.Group.Replica.Verified.{
  SignedFrame, CertifiedCheckpoint, DecodedFrame, Follows, Verified, json_hash-ok, text_of_value-ok,
  not-false, check_hashes-SignedFrame, check_order-ok,
}

as_seq-ok : (v : Value) {n : ℕ} → as_seq v ≡ ok n → v ≡ int (pos n)
as_seq-ok null h = cc
as_seq-ok (bool b) h = cc
as_seq-ok (int (pos k)) h = cc
as_seq-ok (int (negsuc k)) h = cc
as_seq-ok (float b) h = cc
as_seq-ok (str b) h = cc
as_seq-ok (arr b) h = cc
as_seq-ok (obj b) h = cc

decode_view-ok :
    (c : Codec) (r : Replica) (bootstrap : Bool) (e : Assoc Value) {view : Assoc Value}
    → decode_view c r bootstrap e ≡ ok view
    → eq (str (c.sha256 (c.dumps (obj (from_entries view))))) (get e "view_state_hash") ≡ true
unfolding decode_view
decode_view-ok c r bootstrap e h =
    let (view, is_view, h1) = ok_of_bind (read_view r bootstrap e) _ h in
    let dict = obj (from_entries view) in
    let (u, valid, h2) = ok_of_bind (validate_json 0 dict) _ h1 in
    let (hash, hashed, h3) = ok_of_bind (json_hash c dict) _ h2 in
    let (same, h4) =
      passed (differs (str hash) (get e "view_state_hash")) Group.view_state_mismatch _ h3 in
    let a = not-false (eq (str hash) (get e "view_state_hash")) same in
    let b = json_hash-ok c dict hashed in cc

first_false : (a b d : Bool) → a || b || d ≡ false → a ≡ false
first_false a b d h = ground arith

check_checkpoint-ok :
    (c : Codec) (r : Replica) (e : Assoc Value) (seq : ℕ) (frame : String)
    (checkpoint : Assoc Value)
    → check_checkpoint c r e seq frame checkpoint ≡ ok tt
    → CertifiedCheckpoint c r e seq frame checkpoint
unfolding check_checkpoint
check_checkpoint-ok c r e seq frame checkpoint h =
    let held = get checkpoint "checkpoint_hash" in
    let (version, h1) =
      passed (differs (get checkpoint "version") (int (pos 1)) || not (is_hash c held))
        Group.checkpoint_hash_mismatch _ h in
    let (hash, hashed, h2) =
      ok_of_bind (json_hash c (obj (from_entries (unsigned checkpoint)))) _ h1 in
    let (same, h3) =
      passed
        (differs (str hash) held
          || differs (get e "checkpoint_hash") held
          || differs (get e "checkpoint_signature") (get checkpoint "checkpoint_signature"))
        Group.checkpoint_hash_mismatch _ h2 in
    let (agrees, h4) =
      passed (not (certifies r e seq frame checkpoint)) Group.checkpoint_uncertified _ h3 in
    let (state, is_state, h5) = ok_of_bind (checkpoint_state_from checkpoint) _ h4 in
    let (u, valid, h6) = ok_of_bind (validate_checkpoint_state c (obj (from_entries state))) _ h5 in
    let (recovery, is_recovery, h7) = ok_of_bind (json_hash c (obj (from_entries state))) _ h6 in
    let (recovers, h8) =
      passed (differs (str recovery) (get e "recovery_state_hash")) Group.recovery_hash_mismatch _
        h7 in
    let (signature, signed, h9) =
      ok_of_bind
        (text_of_value (get checkpoint "checkpoint_signature") Group.checkpoint_signature_missing) _
        h8 in
    let verified =
      passed_last
        (not
          (c.verify r.leader_public_key (checkpoint_certificate_canonical c checkpoint) signature))
        Group.certificate_invalid h9 in
    let own = not-false (eq (str hash) held) (first_false _ _ _ same) in
    let a = json_hash-ok c (obj (from_entries (unsigned checkpoint))) hashed in
    let certified : eq (str (c.sha256 (c.dumps (obj (from_entries (unsigned checkpoint)))))) held
        ≡ true =
      rw a at own in
    (signature, text_of_value-ok _ _ signed, not-false _ verified, not-false _ agrees, certified)

decode_checkpoint-ok :
    (c : Codec) (r : Replica) (bootstrap : Bool) (e : Assoc Value) (seq : ℕ) (frame : String)
    {checkpoint : Assoc Value}
    → decode_checkpoint c r bootstrap e seq frame ≡ ok checkpoint
    → CertifiedCheckpoint c r e seq frame checkpoint
unfolding decode_checkpoint
decode_checkpoint-ok c r bootstrap e seq frame {checkpoint} h =
    let (read, is_read, h1) = ok_of_bind (read_checkpoint c r bootstrap e seq frame) _ h in
    let (u, checked, h2) = ok_of_bind (check_checkpoint c r e seq frame read) _ h1 in
    let same : read ≡ checkpoint = cc in
    subst (CertifiedCheckpoint c r e seq frame) same
      (check_checkpoint-ok c r e seq frame read checked)

decode_new-ok :
    (c : Codec) (r : Replica) (bootstrap : Bool) (e : Assoc Value) (seq : ℕ) (frame : String)
    (new : Bool) {f : Frame}
    → decode_new c r bootstrap e seq frame new ≡ ok (some f)
    → (new ≡ true) × DecodedFrame c r e seq frame f
unfolding decode_new
decode_new-ok c r bootstrap e seq frame false h = cc
decode_new-ok c r bootstrap e seq frame true {f} h =
    let (checkpoint, decoded, h1) = ok_of_bind (decode_checkpoint c r bootstrap e seq frame) _ h in
    let (view, is_view, h2) = ok_of_bind (decode_view c r bootstrap e) _ h1 in
    let made : Frame = record {
      seq = seq;
      frame_hash = frame;
      checkpoint = checkpoint;
      view = view;
    } in
    let same : made ≡ f = cc in
    (
      refl,
      subst (DecodedFrame c r e seq frame) same (
        refl,
        refl,
        decode_checkpoint-ok c r bootstrap e seq frame decoded,
        decode_view-ok c r bootstrap e is_view,
      ),
    )

assemble :
    (c : Codec) (r : Replica) (bootstrap : Bool) (e : Assoc Value) (f : Frame) {frame : String}
    {seq : ℕ}
    → SignedFrame c r.leader_public_key r.viewer_public_key e frame
    → get e "seq" ≡ int (pos seq)
    → check_order bootstrap e frame seq r.seq r.frame_hash ≡ ok true
    → DecodedFrame c r e seq frame f
    → Verified c r bootstrap e f
assemble c r bootstrap e f {frame} {seq} signed is_seq ordered decoded =
    let (same_seq, same_frame, certified, view) = decoded in
    (
      subst (SignedFrame c r.leader_public_key r.viewer_public_key e) (sym same_frame) signed,
      subst (λ n. get e "seq" ≡ int (pos n)) (sym same_seq) is_seq,
      subst (λ n. CertifiedCheckpoint c r e n f.frame_hash f.checkpoint) (sym same_seq)
          (subst (λ h. CertifiedCheckpoint c r e seq h f.checkpoint) (sym same_frame) certified),
      view,
      λ live.
          subst (Follows r e) (sym same_seq)
            (check_order-ok e frame seq r.seq r.frame_hash (rw live at ordered)),
    )

pub verify_frame-Verified :
    (c : Codec) (r : Replica) (bootstrap : Bool) (e : Assoc Value) {f : Frame}
    → verify_frame c r bootstrap e ≡ ok (some f)
    → Verified c r bootstrap e f
unfolding verify_frame
verify_frame-Verified c r bootstrap e {f} h =
    let (u, header, h1) = ok_of_bind (check_header r e) _ h in
    let (frame, hashes, h2) = ok_of_bind (check_hashes c r e) _ h1 in
    let (seq, is_seq, h3) = ok_of_bind (as_seq (get e "seq")) _ h2 in
    let (new, order, h4) = ok_of_bind (check_order bootstrap e frame seq r.seq r.frame_hash) _ h3 in
    let (is_new, decoded) = decode_new-ok c r bootstrap e seq frame new h4 in
    let ordered : check_order bootstrap e frame seq r.seq r.frame_hash ≡ ok true = cc in
    assemble c r bootstrap e f (check_hashes-SignedFrame c r e hashes) (as_seq-ok _ is_seq) ordered
      decoded
