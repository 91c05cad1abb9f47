-- ===== src/Proto/Group/Replica/Apply.antt =====
-- `GroupReplica.apply` and `advance_epoch` of aigenora/proto/group.py. Everything is checked before
-- the first write; the one call between the writes that may raise is `int()` of the membership
-- version.
use aigenora.Prelude.{
  ℕ, String, Bool, true, false, Option, none, some, if◌then◌else◌, Result, ok, err, ◌>>=◌, ◌>>◌,
}
use aigenora.Prelude.Int.{ℤ, pos, ltb_ℤ}
use aigenora.Prelude.Exec.{Exec}
use aigenora.Proto.JsonDelta.Dict.{Assoc}
use aigenora.Proto.JsonDelta.Json.{Value, obj, entries}
use aigenora.Proto.Group
use aigenora.Proto.Group.{Codec, GroupError, get, truthy}
use aigenora.Proto.Group.Replica.{Replica, check_header, check_hashes, check_order, as_seq}
use aigenora.Proto.Group.Replica.Decode.{decode_checkpoint, decode_view}

-- What a frame that passes the checks brings.
pub record Frame : Type 0 where
  pub seq : ℕ
  pub frame_hash : String
  pub checkpoint : Assoc Value
  pub view : Assoc Value

-- The two decoders, for a frame that the replica does not have.
unfoldable pub decode_new :
    Codec → Replica → Bool → Assoc Value → ℕ → String → Bool → Result GroupError (Option Frame)
unfolding decode_checkpoint decode_view
decode_new c r bootstrap e seq frame false = ok none
decode_new c r bootstrap e seq frame true = do
  checkpoint ← decode_checkpoint c r bootstrap e seq frame
  view ← decode_view c r bootstrap e
  ok (some (record { seq = seq; frame_hash = frame; checkpoint = checkpoint; view = view }))

-- `apply` up to its first write; `none` is a frame that the replica has.
unfoldable pub verify_frame :
    Codec → Replica → Bool → Assoc Value → Result GroupError (Option Frame)
unfolding check_header check_hashes get check_order decode_new
verify_frame c r bootstrap e = do
  check_header r e
  frame ← check_hashes c r e
  seq ← as_seq (get e "seq")
  new ← check_order bootstrap e frame seq r.seq r.frame_hash
  decode_new c r bootstrap e seq frame new

-- `int(envelope.get("membership_version") or 0)`
unfoldable pub membership_version_of : Codec → Value → Option ℤ
unfolding truthy
membership_version_of c v = if truthy v then c.int_of v else some (pos 0)

-- The writes of `apply`.
unfoldable pub write_frame : Frame → Option ℤ → Exec GroupError Replica Bool
write_frame f none r =
    (err Group.int_raised, record r { seq = some f.seq; frame_hash = some f.frame_hash })
write_frame f (some version) r = (
  ok true,
  record r {
    seq = some f.seq;
    frame_hash = some f.frame_hash;
    membership_version = version;
    checkpoint = some f.checkpoint;
    view = some f.view;
  },
)

abbrev pub write_verified :
    Codec → Assoc Value → Result GroupError (Option Frame) → Exec GroupError Replica Bool
write_verified c e (err x) r = (err x, r)
write_verified c e (ok none) r = (ok false, r)
write_verified c e (ok (some f)) r =
    write_frame f (membership_version_of c (get e "membership_version")) r

-- `apply`; it answers whether the frame is new.
unfoldable pub apply : Codec → Bool → Value → Exec GroupError Replica Bool
unfolding verify_frame membership_version_of write_frame get
apply c bootstrap (obj fs) r =
    write_verified c (entries fs) (verify_frame c r bootstrap (entries fs)) r
apply c bootstrap _ r = (err Group.envelope_object, r)

-- `advance_epoch`
unfoldable pub advance_epoch : Codec → String → ℤ → Exec GroupError Replica (Unit {0})
advance_epoch c leader epoch r =
    if ltb_ℤ r.leader_epoch epoch
    then (ok tt, record r { leader_public_key = c.lower leader; leader_epoch = epoch })
    else (err Group.epoch_not_increasing, r)
