-- ===== src/Proto/Group/Sync/Certificate.antt =====
-- The checkpoint in an envelope under `_decode_checkpoint` of aigenora/proto/group.py.
use mathlib.Core.Path.{subst}
use aigenora.Prelude.{
  ℕ, String, ◌≡◌, refl, sym, Bool, true, false, Option, none, some, ok, eq_refl, arith,
}
use aigenora.Prelude.Int.{pos}
use aigenora.Proto.JsonDelta.Dict.{Assoc, lookup, without, contains}
use aigenora.Proto.JsonDelta.Json.{
  Value, null, bool, arr, no_elements, str, obj, from_entries, items, entries-from_entries, eq,
  number_eq_value, number_eq, ℤ_eq, as_number,
}
use aigenora.Proto.JsonDelta.Apply.{apply_json_delta}
use aigenora.Proto.Group.{Codec, get, truthy}
use aigenora.Proto.Group.Checkpoints.{
  validate_checkpoint_state, checkpoint_certificate_canonical, project, checkpoint_state_from,
  has_all,
}
use aigenora.Proto.Group.Replica.{Replica, or_null, is_list}
use aigenora.Proto.Group.Replica.Decode.{
  read_checkpoint, check_checkpoint, unsigned, certifies, rebuilt_checkpoint,
}
use aigenora.Proto.Group.Authority.{
  state_entries, Checkpoint, unsigned_entries, checkpoint_entries, Core, core_entries,
}
use aigenora.Proto.Group.Authority.Build.{Mode, private_payload}
use aigenora.Proto.Group.Sync.{Hashes, KeyPair, Belongs, Consistent}
use aigenora.Proto.Group.Sync.Envelope.{envelope_of, eq_str, eq_int, is_hash-json_hash}

eq_bool : (b : Bool) → eq (bool b) (bool b) ≡ true
unfolding eq number_eq_value number_eq ℤ_eq as_number
eq_bool true = ground arith
eq_bool false = ground arith

eq_outcome : (t : Option String) → eq (or_null t) (or_null t) ≡ true
unfolding eq
eq_outcome none = refl
eq_outcome (some t) = eq_refl t

pub eq_null : eq null null ≡ true
unfolding eq
eq_null = refl

pub full_delta : eq (str "delta") (str "full") ≡ false
unfolding eq
full_delta = refl

module _ (k : Checkpoint) where
  checkpoint_state_from-checkpoint_entries :
      checkpoint_state_from (checkpoint_entries k) ≡ ok (state_entries k.state)
  unfolding checkpoint_state_from has_all contains project get lookup checkpoint_entries
      unsigned_entries state_entries
  checkpoint_state_from-checkpoint_entries = refl

  unsigned-checkpoint_entries : unsigned (checkpoint_entries k) ≡ unsigned_entries k
  unfolding unsigned without checkpoint_entries unsigned_entries state_entries
  unsigned-checkpoint_entries = refl

module _ (c : Codec) (private_key : String) (core : Core) (frame : String) (events : Value)
    (viewer : String) (mode : Mode) (view : Assoc Value) (state_hash : String) (direct : Value)
    (checkpoint_mode : Mode) (k : Checkpoint) (view_hash signed : String) (r : Replica) where
  abbrev E : Assoc Value
  E =
      envelope_of c private_key core frame events viewer mode view state_hash direct checkpoint_mode
        k view_hash signed

  certifies-envelope :
      Belongs r core viewer
      → Consistent c private_key core frame events k
      → certifies r E core.seq frame (checkpoint_entries k) ≡ true
  unfolding certifies get lookup checkpoint_entries unsigned_entries state_entries core_entries
      private_payload
  certifies-envelope belongs made =
      let (group, leader, epoch, own) = belongs in
      let (m0, m1, m2, m3, m4, m5, m6, m7, m8, m9, m10, m11, m12, m13, m14) = made in
      rw
        (
          m7,
          m8,
          m9,
          m10,
          m11,
          m12,
          m13,
          m14,
          eq_str _ _ group,
          eq_str _ _ leader,
          eq_int _ _ epoch,
          eq_int (pos core.seq) (pos core.seq) refl,
          eq_str frame frame refl,
          eq_int core.membership_version core.membership_version refl,
          eq_bool core.completed,
          eq_outcome core.outcome,
        )
        refl

  certificate-verified :
      KeyPair c private_key r.leader_public_key
      → Consistent c private_key core frame events k
      → c.verify r.leader_public_key
          (checkpoint_certificate_canonical c (checkpoint_entries k))
          k.checkpoint_signature
        ≡ true
  certificate-verified pair made =
      let text = checkpoint_certificate_canonical c (checkpoint_entries k) in
      subst (λ s. c.verify r.leader_public_key text s ≡ true) (sym made.5) (pair text)

  pub check_checkpoint-envelope :
      Hashes c
      → KeyPair c private_key r.leader_public_key
      → Belongs r core viewer
      → Consistent c private_key core frame events k
      → check_checkpoint c r E core.seq frame (checkpoint_entries k) ≡ ok tt
  unfolding check_checkpoint get lookup checkpoint_entries unsigned_entries state_entries
      core_entries private_payload
  check_checkpoint-envelope hashes pair belongs made =
      let (m0, m1, m2, m3, m4, m5, m6, m7, m8, m9, m10, m11, m12, m13, m14) = made in
      rw
        (
          eq_int (pos 1) (pos 1) refl,
          is_hash-json_hash c (obj (from_entries (unsigned_entries k))) hashes m4,
          unsigned-checkpoint_entries k,
          m4,
          eq_str k.checkpoint_hash k.checkpoint_hash refl,
          eq_str k.checkpoint_signature k.checkpoint_signature refl,
          certifies-envelope belongs made,
          checkpoint_state_from-checkpoint_entries k,
          m6,
          m3,
          eq_str core.recovery_state_hash core.recovery_state_hash refl,
          certificate-verified pair made,
        )
        refl

module _ (c : Codec) (r : Replica) (bootstrap : Bool) (e : Assoc Value) (seq : ℕ)
    (frame : String) where
  pub read_checkpoint-full :
      (d : Assoc Value)
      → get e "checkpoint_delta" ≡ arr no_elements
      → get e "checkpoint_mode" ≡ str "full"
      → get e "checkpoint" ≡ obj (from_entries d)
      → read_checkpoint c r bootstrap e seq frame ≡ ok d
  unfolding read_checkpoint truthy items
  read_checkpoint-full d a b f =
      rw (a, b, eq_str "full" "full" refl, f, entries-from_entries d) refl

  pub read_checkpoint-delta :
      (ops : Value) (old k : Checkpoint)
      → bootstrap ≡ false
      → is_list ops ≡ true
      → get e "checkpoint_delta" ≡ ops
      → get e "checkpoint_mode" ≡ str "delta"
      → get e "checkpoint" ≡ null
      → r.checkpoint ≡ some (checkpoint_entries old)
      → apply_json_delta (obj (from_entries (state_entries old.state))) ops
        ≡ ok (obj (from_entries (state_entries k.state)))
      → validate_checkpoint_state c (obj (from_entries (state_entries k.state))) ≡ ok tt
      → read_checkpoint c r bootstrap e seq frame
        ≡ ok (rebuilt_checkpoint r e seq frame (state_entries k.state))
  unfolding read_checkpoint
  read_checkpoint-delta ops old k live listed a b f held restores valid =
      rw
        (
          a,
          live,
          listed,
          b,
          full_delta,
          eq_str "delta" "delta" refl,
          f,
          eq_null,
          held,
          checkpoint_state_from-checkpoint_entries old,
        )
        (rw (a, restores) (rw valid (rw (entries-from_entries (state_entries k.state)) refl)))
