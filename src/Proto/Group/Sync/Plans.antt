-- ===== src/Proto/Group/Sync/Plans.antt =====
-- The plan of a frame in `_build_envelopes` of aigenora/proto/group.py.
use mathlib.Core.Path.{subst}
use aigenora.Prelude.{String, ◌≡◌, refl, ap, ◌∙◌, sym, true, ok, ok_of_bind, ok_injective}
use aigenora.Proto.JsonDelta.Dict.{Assoc}
use aigenora.Proto.JsonDelta.Json.{Value, obj, from_entries}
use aigenora.Proto.Group.{Codec, json_hash}
use aigenora.Proto.Group.Checkpoints.{validate_checkpoint_state}
use aigenora.Proto.Group.Replica.{is_list}
use aigenora.Proto.Group.Authority.{
  Hooks, Authority, CheckpointState, state_entries, Checkpoint, Core, core_entries,
}
use aigenora.Proto.Group.Authority.Build.{
  make_checkpoint_state, checkpoint_from_state, checkpoint_mode_of,
}
use aigenora.Proto.Group.Authority.Frames.{
  Plan, plan_frame, core_of, force_full_checkpoint, plan_checkpoint,
}
use aigenora.Proto.Group.Sync.{Consistent}
use aigenora.Proto.Group.Sync.Planned.{
  Restorable, validate_checkpoint_state-state_entries, Copied, make_checkpoint_state-Copied,
  CheckpointOf, checkpoint_from_state-CheckpointOf,
}

-- What `_build_envelopes` has put together before its loop over the members.
abbrev pub PlannedFrom : Codec → Authority → String → Value → Plan → Type 0
PlannedFrom c a kind events p =
    Consistent c a.private_key p.core p.frame_hash p.events p.checkpoint
    × (p.events ≡ events)
    × (p.core.frame_kind ≡ kind)
    × (p.core.group_id ≡ a.group_id)
    × (p.core.leader_public_key ≡ a.leader_public_key)
    × (p.core.leader_epoch ≡ a.leader_epoch)
    × (p.core.seq ≡ a.seq)
    × (p.core.previous_hash ≡ a.previous_hash)
    × (checkpoint_mode_of c (force_full_checkpoint a kind) a.published p.checkpoint
        ≡ ok p.checkpoint_mode)

consistent :
    (c : Codec) (a : Authority) (kind state_hash recovery_hash events_hash frame : String)
    (events : Value) (s : CheckpointState) (k : Checkpoint)
    → Restorable c a
    → is_list events ≡ true
    → Copied a s
    → json_hash c (obj (from_entries (state_entries s))) ≡ ok recovery_hash
    → json_hash c events ≡ ok events_hash
    → json_hash c
        (obj (from_entries (core_entries (core_of a kind state_hash recovery_hash events_hash))))
      ≡ ok frame
    → CheckpointOf c a s frame k
    → Consistent c a.private_key
        (core_of a kind state_hash recovery_hash events_hash)
        frame
        events
        k
unfolding core_of
consistent c a kind state_hash recovery_hash events_hash frame events s k (members, mode) listed
      copied recovery hashed framed made =
    let (valid, same_members, same_mode, same_completed, same_outcome) = copied in
    let (digest, signature, same, group, leader, epoch, seq, hash, version) = made in
    let (ms, normal) = members in
    (
      framed,
      listed,
      hashed,
      subst (λ t. json_hash c (obj (from_entries (state_entries t))) ≡ ok recovery_hash) (sym same)
          recovery,
      digest,
      signature,
      subst (λ t. validate_checkpoint_state c (obj (from_entries (state_entries t))) ≡ ok tt)
          (sym same)
          (validate_checkpoint_state-state_entries c s ms (rw same_members normal)
            (rw same_mode mode) valid),
      group,
      leader,
      epoch,
      seq,
      hash,
      version,
      ap (λ t. t.completed) same ∙ same_completed,
      ap (λ t. t.outcome) same ∙ same_outcome,
    )

plan_checkpoint-made :
    (c : Codec) (a : Authority) (core : Core) (frame : String) (events : Value)
    (direct : Assoc Value) (s : CheckpointState) {p : Plan}
    → plan_checkpoint c a core frame events direct s ≡ ok p
    → (p.core ≡ core)
      × (p.frame_hash ≡ frame)
      × (p.events ≡ events)
      × CheckpointOf c a s frame p.checkpoint
      × (checkpoint_mode_of c (force_full_checkpoint a core.frame_kind) a.published p.checkpoint
          ≡ ok p.checkpoint_mode)
unfolding plan_checkpoint
plan_checkpoint-made c a core frame events direct s {p} h =
    let (k, certified, h1) = ok_of_bind (checkpoint_from_state c a s frame) _ h in
    let (mode, moded, h2) =
      ok_of_bind (checkpoint_mode_of c (force_full_checkpoint a core.frame_kind) a.published k) _
        h1 in
    subst
      (λ p.
        (p.core ≡ core)
        × (p.frame_hash ≡ frame)
        × (p.events ≡ events)
        × CheckpointOf c a s frame p.checkpoint
        × (checkpoint_mode_of c (force_full_checkpoint a core.frame_kind) a.published p.checkpoint
            ≡ ok p.checkpoint_mode))
      (ok_injective h2)
      (refl, refl, refl, checkpoint_from_state-CheckpointOf c a s frame certified, moded)

settle :
    (c : Codec) (a : Authority) (kind state_hash recovery_hash events_hash frame : String)
    (events : Value) (p : Plan)
    → p.core ≡ core_of a kind state_hash recovery_hash events_hash
    → p.frame_hash ≡ frame
    → p.events ≡ events
    → Consistent c a.private_key
        (core_of a kind state_hash recovery_hash events_hash)
        frame
        events
        p.checkpoint
    → checkpoint_mode_of c (force_full_checkpoint a kind) a.published p.checkpoint
      ≡ ok p.checkpoint_mode
    → PlannedFrom c a kind events p
unfolding core_of
settle c a kind state_hash recovery_hash events_hash frame events p core framed same made moded = (
  subst (λ k. Consistent c a.private_key k p.frame_hash p.events p.checkpoint) (sym core)
      (subst
        (λ h.
          Consistent c a.private_key (core_of a kind state_hash recovery_hash events_hash) h
            p.events p.checkpoint)
        (sym framed)
        (subst
          (λ v.
            Consistent c a.private_key (core_of a kind state_hash recovery_hash events_hash) frame v
              p.checkpoint)
          (sym same) made)),
  same,
  ap (λ k. k.frame_kind) core,
  ap (λ k. k.group_id) core,
  ap (λ k. k.leader_public_key) core,
  ap (λ k. k.leader_epoch) core,
  ap (λ k. k.seq) core,
  ap (λ k. k.previous_hash) core,
  moded,
)

pub plan_frame-PlannedFrom :
    (c : Codec) (hooks : Hooks) (a : Authority) (kind : String) (events : Value)
    (direct : Assoc Value) {p : Plan}
    → Restorable c a
    → is_list events ≡ true
    → plan_frame c hooks a kind events direct ≡ ok p
    → PlannedFrom c a kind events p
unfolding plan_frame core_of
plan_frame-PlannedFrom c hooks a kind events direct {p} restorable listed h =
    let (s, snapshot, h1) = ok_of_bind (make_checkpoint_state hooks a) _ h in
    let (state_hash, stated, h2) = ok_of_bind (json_hash c (obj (from_entries a.state))) _ h1 in
    let (recovery_hash, recovery, h3) =
      ok_of_bind (json_hash c (obj (from_entries (state_entries s)))) _ h2 in
    let (events_hash, hashed, h4) = ok_of_bind (json_hash c events) _ h3 in
    let core = core_of a kind state_hash recovery_hash events_hash in
    let (frame, framed, h5) =
      ok_of_bind (json_hash c (obj (from_entries (core_entries core)))) _ h4 in
    let (same_core, same_frame, same_events, made, moded) =
      plan_checkpoint-made c a core frame events direct s h5 in
    let built =
      consistent c a kind state_hash recovery_hash events_hash frame events s p.checkpoint
        restorable listed (make_checkpoint_state-Copied hooks a snapshot) recovery hashed framed
        made in
    settle c a kind state_hash recovery_hash events_hash frame events p same_core same_frame
      same_events built moded
