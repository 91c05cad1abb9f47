-- ===== src/Proto/Group/Sync/Frame.antt =====
-- A whole envelope of `_build_member_envelope` under `GroupReplica.apply`, both of
-- aigenora/proto/group.py.
use aigenora.Prelude.{String, ◌≡◌, refl, ap, ◌∙◌, Bool, true, false, some, ok}
use aigenora.Proto.JsonDelta.Dict.{Assoc, lookup, insert}
use aigenora.Proto.JsonDelta.Json.{
  Value, null, arr, no_elements, str, obj, from_entries, items, entries-from_entries,
}
use aigenora.Proto.JsonDelta.Apply.{apply_json_delta}
use aigenora.Proto.Group.{Codec, get, truthy}
use aigenora.Proto.Group.Replica.{Replica, is_list, check_order}
use aigenora.Proto.Group.Replica.Decode.{
  read_checkpoint, decode_checkpoint, rebuilt_checkpoint, merge, read_view, decode_view,
}
use aigenora.Proto.Group.Replica.Apply.{verify_frame, decode_new}
use aigenora.Proto.Group.Replica.Verified.{json_hash-ok}
use aigenora.Proto.Group.Authority.{
  state_entries, Checkpoint, unsigned_entries, checkpoint_entries, Core, core_entries,
}
use aigenora.Proto.Group.Authority.Build.{Mode, full, delta, private_payload}
use aigenora.Proto.Group.Sync.{
  Hashes, KeyPair, Restores, RestoresCheckpoint, Belongs, Consistent, Sealed,
}
use aigenora.Proto.Group.Sync.Envelope.{
  envelope_of, eq_str, check_header-envelope, check_hashes-envelope,
}
use aigenora.Proto.Group.Sync.Certificate.{
  check_checkpoint-envelope, read_checkpoint-full, read_checkpoint-delta, eq_null, full_delta,
}

module _ (r : Replica) (bootstrap : Bool) (e : Assoc Value) where
  read_view-full :
      (d : Assoc Value)
      → get e "view_delta" ≡ arr no_elements
      → get e "view_mode" ≡ str "full"
      → get e "view" ≡ obj (from_entries d)
      → read_view r bootstrap e ≡ ok d
  unfolding read_view truthy items
  read_view-full d a b f = rw (a, b, eq_str "full" "full" refl, f, entries-from_entries d) refl

  read_view-delta :
      (ops : Value) (held d : Assoc Value)
      → bootstrap ≡ false
      → is_list ops ≡ true
      → get e "view_delta" ≡ ops
      → get e "view_mode" ≡ str "delta"
      → get e "view" ≡ null
      → r.view ≡ some held
      → apply_json_delta (obj (from_entries held)) ops ≡ ok (obj (from_entries d))
      → read_view r bootstrap e ≡ ok d
  unfolding read_view
  read_view-delta ops held d live listed a b f has restores =
      rw (a, live, listed, b, full_delta, eq_str "delta" "delta" refl, f, eq_null, has)
        (rw (a, restores) (rw (entries-from_entries d) refl))

module _ (c : Codec) (private_key : String) (core : Core) (frame : String) (events : Value)
    (viewer : String) (mode : Mode) (view : Assoc Value) (state_hash : String) (direct : Value)
    (k : Checkpoint) (view_hash signed : String) (r : Replica) (bootstrap : Bool) where
  abbrev pub E : Mode → Assoc Value
  E checkpoint_mode =
      envelope_of c private_key core frame events viewer mode view state_hash direct checkpoint_mode
        k view_hash signed

  rebuilt_checkpoint-same :
      (ops : Value)
      → Belongs r core viewer
      → Consistent c private_key core frame events k
      → rebuilt_checkpoint r (E (delta ops)) core.seq frame (state_entries k.state)
        ≡ checkpoint_entries k
  unfolding rebuilt_checkpoint merge insert get lookup core_entries private_payload
      checkpoint_entries unsigned_entries state_entries
  rebuilt_checkpoint-same ops belongs made =
      let (group, leader, epoch, own) = belongs in
      rw (group, leader, epoch, made.7, made.8, made.9, made.10, made.11, made.12) refl

  read_checkpoint-envelope :
      (checkpoint_mode : Mode)
      → Belongs r core viewer
      → Consistent c private_key core frame events k
      → RestoresCheckpoint bootstrap r checkpoint_mode k
      → read_checkpoint c r bootstrap (E checkpoint_mode) core.seq frame ≡ ok (checkpoint_entries k)
  unfolding get lookup core_entries private_payload
  read_checkpoint-envelope full belongs made restores =
      read_checkpoint-full c r bootstrap (E full) core.seq frame (checkpoint_entries k) refl refl
        refl
  read_checkpoint-envelope (delta ops) belongs made (live, listed, old, held, restores) =
      read_checkpoint-delta c r bootstrap (E (delta ops)) core.seq frame ops old k live listed refl
        refl refl held restores made.6
      ∙ ap ok (rebuilt_checkpoint-same ops belongs made)

  decode_checkpoint-envelope :
      (checkpoint_mode : Mode)
      → Hashes c
      → KeyPair c private_key r.leader_public_key
      → Belongs r core viewer
      → Consistent c private_key core frame events k
      → RestoresCheckpoint bootstrap r checkpoint_mode k
      → decode_checkpoint c r bootstrap (E checkpoint_mode) core.seq frame
        ≡ ok (checkpoint_entries k)
  unfolding decode_checkpoint
  decode_checkpoint-envelope m hashes pair belongs made restores =
      rw
        (
          read_checkpoint-envelope m belongs made restores,
          check_checkpoint-envelope c private_key core frame events viewer mode view state_hash
              direct m k view_hash signed r hashes pair belongs made,
        )
        refl

module _ (c : Codec) (private_key : String) (core : Core) (frame : String) (events : Value)
    (viewer : String) (view : Assoc Value) (state_hash : String) (direct : Value)
    (checkpoint_mode : Mode) (k : Checkpoint) (view_hash signed : String) (r : Replica)
    (bootstrap : Bool) where
  abbrev V : Mode → Assoc Value
  V mode =
      envelope_of c private_key core frame events viewer mode view state_hash direct checkpoint_mode
        k view_hash signed

  read_view-envelope :
      (mode : Mode) → Restores bootstrap r.view mode view → read_view r bootstrap (V mode) ≡ ok view
  unfolding get lookup core_entries private_payload
  read_view-envelope full restores = read_view-full r bootstrap (V full) view refl refl refl
  read_view-envelope (delta ops) (live, listed, held, has, restores) =
      read_view-delta r bootstrap (V (delta ops)) ops held view live listed refl refl refl has
        restores

  decode_view-envelope :
      (mode : Mode)
      → Restores bootstrap r.view mode view
      → Sealed c frame viewer mode view state_hash direct checkpoint_mode k view_hash signed
      → decode_view c r bootstrap (V mode) ≡ ok view
  unfolding decode_view get lookup core_entries private_payload
  decode_view-envelope mode restores sealed =
      rw
        (
          read_view-envelope mode restores,
          sealed.0,
          eq_str _ _ (json_hash-ok c (obj (from_entries view)) sealed.1),
        )
        refl

  pub verify_frame-envelope :
      (mode : Mode)
      → Hashes c
      → KeyPair c private_key r.leader_public_key
      → Belongs r core viewer
      → Consistent c private_key core frame events k
      → Sealed c frame viewer mode view state_hash direct checkpoint_mode k view_hash signed
      → RestoresCheckpoint bootstrap r checkpoint_mode k
      → Restores bootstrap r.view mode view
      → check_order bootstrap (V mode) frame core.seq r.seq r.frame_hash ≡ ok true
      → verify_frame c r bootstrap (V mode)
        ≡ ok (
            some (record {
              seq = core.seq;
              frame_hash = frame;
              checkpoint = checkpoint_entries k;
              view = view;
            }))
  unfolding verify_frame decode_new get lookup core_entries private_payload
  verify_frame-envelope mode hashes pair belongs made sealed checkpoint restores next =
      rw
        (
          check_header-envelope c private_key core frame events viewer mode view state_hash direct
              checkpoint_mode k view_hash signed r belongs,
          check_hashes-envelope c private_key core frame events viewer mode view state_hash direct
              checkpoint_mode k view_hash signed r hashes pair belongs.3 made sealed,
          next,
          decode_checkpoint-envelope c private_key core frame events viewer mode view state_hash
              direct k view_hash signed r bootstrap checkpoint_mode hashes pair belongs made
              checkpoint,
          decode_view-envelope mode restores sealed,
        )
        refl
