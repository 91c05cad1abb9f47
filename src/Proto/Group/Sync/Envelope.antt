-- ===== src/Proto/Group/Sync/Envelope.antt =====
-- The envelope of `_build_member_envelope` under the checks of `GroupReplica.apply`, both of
-- aigenora/proto/group.py.
use aigenora.Prelude.{String, ◌≡◌, refl, true, [], ◌∷◌, ◌++◌, ok, eq_refl, arith}
use aigenora.Prelude.Int.{ℤ, pos, negsuc}
use aigenora.Proto.JsonDelta.Dict.{Assoc, lookup}
use aigenora.Proto.JsonDelta.Json.{
  Value, str, int, obj, from_entries, eq, ℤ_eq, number_eq, number_eq_value, as_number,
}
use aigenora.Proto.Group.{Codec, is_hash, json_hash, canonical_json, get}
use aigenora.Proto.Group.Checkpoints.{project}
use aigenora.Proto.Group.Replica.{
  Replica, is_list, signature_payload, check_header, check_hashes, check_frame_hash, check_events,
  check_view_hash, check_signature, core_fields, private_payload_fields,
}
use aigenora.Proto.Group.Replica.Verified.{json_hash-ok}
use aigenora.Proto.Group.Authority.{Checkpoint, Core, core_entries}
use aigenora.Proto.Group.Authority.Build.{Mode, private_payload}
use aigenora.Proto.Group.Sync.{Hashes, KeyPair, Belongs, Consistent, Sealed}

pub eq_str : (a b : String) → a ≡ b → eq (str b) (str a) ≡ true
unfolding eq
eq_str a b e = rw e (eq_refl b)

pub eq_int : (a b : ℤ) → a ≡ b → eq (int b) (int a) ≡ true
unfolding eq number_eq_value number_eq ℤ_eq as_number
eq_int a (pos n) e = rw e (ground arith)
eq_int a (negsuc n) e = rw e (ground arith)

pub is_hash-json_hash :
    (c : Codec) (v : Value) {t : String}
    → Hashes c
    → json_hash c v ≡ ok t
    → is_hash c (str t) ≡ true
is_hash-json_hash c v hashes h = rw (json_hash-ok c v h) (hashes (c.dumps v))

module _ (c : Codec) (private_key : String) (core : Core) (frame : String) (events : Value)
    (viewer : String) (mode : Mode) (view : Assoc Value) (state_hash : String) (direct : Value)
    (checkpoint_mode : Mode) (k : Checkpoint) (view_hash signed : String) where
  -- The dictionary that `_build_member_envelope` returns.
  abbrev pub envelope_of : Assoc Value
  envelope_of =
      core_entries core
      ++ (("frame_hash", str frame) ∷ ("events", events) ∷ []
          ++ (private_payload viewer mode view state_hash direct checkpoint_mode k
              ++ ("view_hash", str view_hash)
                ∷ ("signature", str (c.sign private_key signed))
                ∷ []))

  pub check_header-envelope :
      (r : Replica) → Belongs r core viewer → check_header r envelope_of ≡ ok tt
  unfolding check_header get lookup core_entries private_payload
  check_header-envelope r (group, leader, epoch, own) =
      rw
        (
          eq_str _ _ group,
          eq_str _ _ leader,
          eq_int _ _ epoch,
          eq_str _ _ own,
          eq_int (pos 2) (pos 2) refl,
        )
        refl

  project-core : project core_fields envelope_of ≡ core_entries core
  unfolding project get lookup core_entries private_payload
  project-core = refl

  project-private_payload :
      project private_payload_fields envelope_of
      ≡ private_payload viewer mode view state_hash direct checkpoint_mode k
  unfolding project get lookup core_entries private_payload
  project-private_payload = refl

  check_frame_hash-envelope :
      Hashes c
      → json_hash c (obj (from_entries (core_entries core))) ≡ ok frame
      → check_frame_hash c envelope_of ≡ ok frame
  unfolding check_frame_hash get lookup core_entries
  check_frame_hash-envelope hashes hashed =
      rw
        (
          is_hash-json_hash c (obj (from_entries (core_entries core))) hashes hashed,
          project-core,
          hashed,
          eq_refl frame,
        )
        refl

  check_events-envelope :
      is_list events ≡ true
      → json_hash c events ≡ ok core.events_hash
      → check_events c envelope_of ≡ ok tt
  unfolding check_events get lookup core_entries
  check_events-envelope listed hashed =
      rw (listed, hashed, eq_str core.events_hash core.events_hash refl) refl

  check_view_hash-envelope :
      Hashes c
      → json_hash c (
          obj (from_entries (private_payload viewer mode view state_hash direct checkpoint_mode k)))
        ≡ ok view_hash
      → check_view_hash c envelope_of ≡ ok view_hash
  unfolding check_view_hash get lookup core_entries private_payload
  check_view_hash-envelope hashes hashed =
      rw
        (
          is_hash-json_hash c
              (obj (
                from_entries
                  (private_payload viewer mode view state_hash direct checkpoint_mode k)))
              hashes hashed,
          project-private_payload,
          hashed,
          eq_refl view_hash,
        )
        refl

  check_signature-envelope :
      (r : Replica)
      → KeyPair c private_key r.leader_public_key
      → r.viewer_public_key ≡ viewer
      → canonical_json c (signature_payload frame view_hash viewer) ≡ ok signed
      → check_signature c r envelope_of frame view_hash ≡ ok tt
  unfolding check_signature get lookup core_entries private_payload
  check_signature-envelope r pair own canonical = rw (own, canonical, pair signed) refl

  pub check_hashes-envelope :
      (r : Replica)
      → Hashes c
      → KeyPair c private_key r.leader_public_key
      → r.viewer_public_key ≡ viewer
      → Consistent c private_key core frame events k
      → Sealed c frame viewer mode view state_hash direct checkpoint_mode k view_hash signed
      → check_hashes c r envelope_of ≡ ok frame
  unfolding check_hashes
  check_hashes-envelope r hashes pair own made sealed =
      rw
        (
          check_frame_hash-envelope hashes made.0,
          check_events-envelope made.1 made.2,
          check_view_hash-envelope hashes sealed.2,
          check_signature-envelope r pair own sealed.3,
        )
        refl
