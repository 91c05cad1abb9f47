-- ===== src/Proto/Group/Replica/Verified.antt =====
-- What a frame has that `GroupReplica.apply` of aigenora/proto/group.py takes.

use aigenora.Prelude.{
  ℕ, ◌+◌, String, ◌≡◌, refl, Bool, true, false, not, ◌&&◌, Option, none, some, str_eq, leb, ◌==◌,
  ok, passed, passed_last, ok_of_bind, arith, eq_iff, Bool-cases, inl, inr,
}
use aigenora.Prelude.Int.{pos}
use aigenora.Proto.JsonDelta.Dict.{Assoc}
use aigenora.Proto.JsonDelta.Json.{Value, null, bool, int, float, str, arr, obj, from_entries, eq}
use aigenora.Proto.Group
use aigenora.Proto.Group.{Codec, GroupError, get, is_hash, json_hash, canonical_json, validate_json}
use aigenora.Proto.Group.Checkpoints.{project, checkpoint_certificate_canonical}
use aigenora.Proto.Group.Replica.{
  Replica, core_fields, private_payload_fields, signature_payload, check_hashes, check_frame_hash,
  check_events, check_view_hash, check_signature, check_order, check_next, or_null, is_some_text,
  differs, hash_text, text_of_value,
}
use aigenora.Proto.Group.Replica.Decode.{unsigned, certifies}
use aigenora.Proto.Group.Replica.Apply.{Frame}

-- The leader signed the frame hash and the hash of the member's own part.
abbrev pub SignedFrame : Codec → String → String → Assoc Value → String → Type 0
SignedFrame c leader viewer e frame =
    (view : String) × (signature : String) × (get e "frame_hash" ≡ str frame)
    × (frame ≡ c.sha256 (c.dumps (obj (from_entries (project core_fields e)))))
    × (view ≡ c.sha256 (c.dumps (obj (from_entries (project private_payload_fields e)))))
    × (c.verify leader (c.dumps (signature_payload frame view viewer)) signature ≡ true)

-- The leader certified the checkpoint, which is one of this frame, and its hash is that of its
-- content.
abbrev pub CertifiedCheckpoint : Codec → Replica → Assoc Value → ℕ → String → Assoc Value → Type 0
CertifiedCheckpoint c r e seq frame checkpoint =
    (signature : String) × (get checkpoint "checkpoint_signature" ≡ str signature)
    × (c.verify r.leader_public_key (checkpoint_certificate_canonical c checkpoint) signature
        ≡ true)
    × (certifies r e seq frame checkpoint ≡ true)
    × (eq (str (c.sha256 (c.dumps (obj (from_entries (unsigned checkpoint))))))
          (get checkpoint "checkpoint_hash")
        ≡ true)

abbrev pub DecodedFrame : Codec → Replica → Assoc Value → ℕ → String → Frame → Type 0
DecodedFrame c r e seq frame f =
    (f.seq ≡ seq)
    × (f.frame_hash ≡ frame)
    × CertifiedCheckpoint c r e seq frame f.checkpoint
    × (eq (str (c.sha256 (c.dumps (obj (from_entries f.view))))) (get e "view_state_hash") ≡ true)

-- Without a bootstrap the frame follows the one that the replica has.
abbrev pub Follows : Replica → Assoc Value → ℕ → Type 0
Follows r e seq =
    (n : ℕ) × (r.seq ≡ some n)
    × (seq ≡ n + 1)
    × (eq (get e "previous_hash") (or_null r.frame_hash) ≡ true)

-- What stands behind a frame that passed the checks.
abbrev pub Verified : Codec → Replica → Bool → Assoc Value → Frame → Type 0
Verified c r bootstrap e f =
    SignedFrame c r.leader_public_key r.viewer_public_key e f.frame_hash
    × (get e "seq" ≡ int (pos f.seq))
    × CertifiedCheckpoint c r e f.seq f.frame_hash f.checkpoint
    × (eq (str (c.sha256 (c.dumps (obj (from_entries f.view))))) (get e "view_state_hash") ≡ true)
    × (bootstrap ≡ false → Follows r e f.seq)

hash_text-ok :
    (c : Codec) (v : Value) (x : GroupError) {t : String} → hash_text c v x ≡ ok t → v ≡ str t
hash_text-ok c null x h = cc
hash_text-ok c (bool b) x h = cc
hash_text-ok c (int n) x h = cc
hash_text-ok c (float n) x h = cc
hash_text-ok c (arr n) x h = cc
hash_text-ok c (obj n) x h = cc
hash_text-ok c (str text) x h = ground arith

canonical_json-ok : (c : Codec) (v : Value) {t : String} → canonical_json c v ≡ ok t → t ≡ c.dumps v
unfolding canonical_json
canonical_json-ok c v h = let (u, valid, same) = ok_of_bind (validate_json 0 v) _ h in cc

pub json_hash-ok :
    (c : Codec) (v : Value) {t : String} → json_hash c v ≡ ok t → t ≡ c.sha256 (c.dumps v)
unfolding json_hash
json_hash-ok c v h =
    let (text, run, rest) = ok_of_bind (canonical_json c v) _ h in
    let e = canonical_json-ok c v run in cc

str_eq_of : (a b : String) → not (str_eq a b) ≡ false → a ≡ b
str_eq_of a b h = ground (arith, eq_iff a b)

pub text_of_value-ok :
    (v : Value) (x : GroupError) {t : String} → text_of_value v x ≡ ok t → v ≡ str t
text_of_value-ok null x h = cc
text_of_value-ok (bool b) x h = cc
text_of_value-ok (int n) x h = cc
text_of_value-ok (float n) x h = cc
text_of_value-ok (arr n) x h = cc
text_of_value-ok (obj n) x h = cc
text_of_value-ok (str text) x h = cc

check_frame_hash-ok :
    (c : Codec) (e : Assoc Value) {frame : String}
    → check_frame_hash c e ≡ ok frame
    → (get e "frame_hash" ≡ str frame)
      × (frame ≡ c.sha256 (c.dumps (obj (from_entries (project core_fields e)))))
unfolding check_frame_hash
check_frame_hash-ok c e h =
    let core_dict = obj (from_entries (project core_fields e)) in
    let (frame, is_frame, h1) =
      ok_of_bind (hash_text c (get e "frame_hash") Group.frame_hash_mismatch) _ h in
    let (core, is_core, h2) = ok_of_bind (json_hash c core_dict) _ h1 in
    let (same, h3) = passed (not (str_eq core frame)) Group.frame_hash_mismatch _ h2 in
    let read = hash_text-ok c (get e "frame_hash") Group.frame_hash_mismatch is_frame in
    let a = str_eq_of core frame same in let b = json_hash-ok c core_dict is_core in (cc, cc)

check_view_hash-ok :
    (c : Codec) (e : Assoc Value) {view : String}
    → check_view_hash c e ≡ ok view
    → (get e "view_hash" ≡ str view)
      × (view ≡ c.sha256 (c.dumps (obj (from_entries (project private_payload_fields e)))))
unfolding check_view_hash
check_view_hash-ok c e h =
    let payload_dict = obj (from_entries (project private_payload_fields e)) in
    let (view, is_view, h1) =
      ok_of_bind (hash_text c (get e "view_hash") Group.view_hash_mismatch) _ h in
    let (payload, is_payload, h2) = ok_of_bind (json_hash c payload_dict) _ h1 in
    let (same, h3) = passed (not (str_eq payload view)) Group.view_hash_mismatch _ h2 in
    let read = hash_text-ok c (get e "view_hash") Group.view_hash_mismatch is_view in
    let a = str_eq_of payload view same in
    let b = json_hash-ok c payload_dict is_payload in (cc, cc)

pub not-false : (b : Bool) → not b ≡ false → b ≡ true
not-false b h = ground arith

check_signature-ok :
    (c : Codec) (r : Replica) (e : Assoc Value) (frame view : String)
    → check_signature c r e frame view ≡ ok tt
    → (signature : String) × (get e "signature" ≡ str signature)
      × (c.verify r.leader_public_key
            (c.dumps (signature_payload frame view r.viewer_public_key))
            signature
          ≡ true)
unfolding check_signature
check_signature-ok c r e frame view h =
    let payload = signature_payload frame view r.viewer_public_key in
    let (signature, is_text, h1) =
      ok_of_bind (text_of_value (get e "signature") Group.signature_missing) _ h in
    let (signed, is_json, h2) = ok_of_bind (canonical_json c payload) _ h1 in
    let verified = not-false _ (
      passed_last (not (c.verify r.leader_public_key signed signature)) Group.signature_invalid
        h2) in
    let a = canonical_json-ok c payload is_json in (signature, text_of_value-ok _ _ is_text, cc)

pub check_hashes-SignedFrame :
    (c : Codec) (r : Replica) (e : Assoc Value) {frame : String}
    → check_hashes c r e ≡ ok frame
    → SignedFrame c r.leader_public_key r.viewer_public_key e frame
unfolding check_hashes
check_hashes-SignedFrame c r e h =
    let (frame, is_frame, h1) = ok_of_bind (check_frame_hash c e) _ h in
    let (u, is_events, h2) = ok_of_bind (check_events c e) _ h1 in
    let (view, is_view, h3) = ok_of_bind (check_view_hash c e) _ h2 in
    let (u', signed, h4) = ok_of_bind (check_signature c r e frame view) _ h3 in
    let (read, same) = check_frame_hash-ok c e is_frame in
    let (read', same') = check_view_hash-ok c e is_view in
    let (signature, read'', verified) = check_signature-ok c r e frame view signed in
    (view, signature, cc, cc, same', cc)

check_next-ok :
    (e : Assoc Value) (seq n : ℕ) (last : Option String) {new : Bool}
    → check_next false e seq n last ≡ ok new
    → (seq ≡ n + 1) × (eq (get e "previous_hash") (or_null last) ≡ true)
unfolding check_next
check_next-ok e seq n last h =
    let (behind, h1) = passed (leb seq n) Group.moved_backwards _ h in
    let (next, h2) = passed (not (seq == n + 1)) Group.sequence_gap _ h1 in
    let (linked, h3) =
      passed (differs (get e "previous_hash") (or_null last)) Group.chain_mismatch _ h2 in
    (ground arith, not-false _ linked)

pub check_order-ok :
    (e : Assoc Value) (frame : String) (seq : ℕ) (held : Option ℕ) (last : Option String)
    → check_order false e frame seq held last ≡ ok true
    → (n : ℕ) × (held ≡ some n) × (seq ≡ n + 1) × (eq (get e "previous_hash") (or_null last) ≡ true)
unfolding check_order
check_order-ok e frame seq none last h = cc
check_order-ok e frame seq (some n) last h =
    elim (Bool-cases (seq == n && is_some_text last frame)) [
      | inl same ↦ absurd (ground (arith, rw same at h))
      | inr new ↦
          let (next, linked) = check_next-ok e seq n last (rw new at h) in (n, refl, next, linked)
    ]
