-- ===== src/Proto/Group/Sync/Delivered.antt =====
-- The frames of `_build_envelopes` reach the members that are in step, aigenora/proto/group.py.
use mathlib.Core.Path.{subst}
use aigenora.Prelude.{ℕ, ◌+◌, String, ◌≡◌, refl, ap, ◌∙◌, sym, true, false, some, ok}
use aigenora.Prelude.Int.{ℤ}
use aigenora.Proto.JsonDelta.Dict.{Assoc, lookup}
use aigenora.Proto.JsonDelta.Json.{
  Value, arr, no_elements, int, str, obj, from_entries, entries-from_entries,
}
use aigenora.Proto.Group.{Codec, get}
use aigenora.Proto.Group.Replica.{Replica}
use aigenora.Proto.Group.Replica.Apply.{
  Frame, apply, verify_frame, write_frame, membership_version_of,
}
use aigenora.Proto.Group.Authority.{
  Hooks, Authority, Checkpoint, state_entries, checkpoint_entries, Core, core_entries, Published,
  get_or,
}
use aigenora.Proto.Group.Authority.Build.{Mode, last_view, mode_text, private_payload}
use aigenora.Proto.Group.Authority.Frames.{Plan, Rendered}
use aigenora.Proto.Group.Sync.{Hashes, KeyPair}
use aigenora.Proto.Group.Sync.Envelope.{envelope_of}
use aigenora.Proto.Group.Sync.Frame.{verify_frame-envelope}
use aigenora.Proto.Group.Sync.Plans.{PlannedFrom}
use aigenora.Proto.Group.Sync.Members.{RenderedAt}
use aigenora.Proto.Group.Sync.Delivery.{InStep, Exact}
use aigenora.Proto.Group.Sync.Live.{checkpoint_mode_of-Restores, view_mode_of-Restores, next_frame}

-- The replica takes the envelope, and is then in step with the authority.
abbrev pub Delivered : Codec → Assoc Value → Replica → Authority → String → Type 0
Delivered c e r a viewer =
    (r' : Replica) × (apply c false (obj (from_entries e)) r ≡ (ok true, r')) × InStep a r' viewer

-- The membership version of an envelope is an integer, and its modes are the modes of its parts.
pub envelope_version :
    (c : Codec) (private_key : String) (core : Core) (frame : String) (events : Value)
    (viewer : String) (mode : Mode) (view : Assoc Value) (state_hash : String) (direct : Value)
    (checkpoint_mode : Mode) (k : Checkpoint) (view_hash signed : String)
    → let e =
        envelope_of c private_key core frame events viewer mode view state_hash direct
          checkpoint_mode k view_hash signed in
      (get e "membership_version" ≡ int core.membership_version)
      × (get e "previous_hash" ≡ str core.previous_hash)
      × (get e "checkpoint_mode" ≡ str (mode_text checkpoint_mode))
      × (get e "view_mode" ≡ str (mode_text mode))
unfolding get lookup core_entries private_payload
envelope_version c private_key core frame events viewer mode view state_hash direct checkpoint_mode
      k view_hash signed =
    (refl, refl, refl, refl)

pub apply-write :
    (c : Codec) (e : Assoc Value) (r : Replica) (f : Frame) (version : ℤ)
    → verify_frame c r false e ≡ ok (some f)
    → membership_version_of c (get e "membership_version") ≡ some version
    → apply c false (obj (from_entries e)) r ≡ write_frame f (some version) r
unfolding apply
apply-write c e r f version verified versioned =
    rw (entries-from_entries e, verified, versioned) refl

abbrev pub frame_of : Plan → Assoc Value → Frame
frame_of p view = record {
  seq = p.core.seq;
  frame_hash = p.frame_hash;
  checkpoint = checkpoint_entries p.checkpoint;
  view = view;
}

abbrev pub Verifies : Codec → Replica → Plan → Assoc Value → Assoc Value → Type 0
Verifies c r p view e =
    (verify_frame c r false e ≡ ok (some (frame_of p view)))
    × (get e "membership_version" ≡ int p.core.membership_version)

-- The envelope of a member that the loop rendered, at the member's replica.
pub rendered-Verifies :
    (c : Codec) (hooks : Hooks) (a b : Authority) (p : Plan) (last : Published)
    (kind viewer : String) (events : Value) (r : Replica) (x : Rendered)
    → Hashes c
    → KeyPair c b.private_key b.leader_public_key
    → PlannedFrom c b kind events p
    → RenderedAt c hooks b p viewer x
    → b.published ≡ some last
    → r.group_id ≡ b.group_id
    → r.leader_public_key ≡ b.leader_public_key
    → r.leader_epoch ≡ b.leader_epoch
    → r.viewer_public_key ≡ viewer
    → (n : ℕ) → r.seq ≡ some n
    → b.seq ≡ n + 1
    → r.frame_hash ≡ some b.previous_hash
    → r.checkpoint ≡ some (checkpoint_entries last.checkpoint)
    → r.view ≡ last_view b.published viewer
    → (get x.envelope "checkpoint_mode" ≡ str "delta"
        → Exact (state_entries last.checkpoint.state) (state_entries p.checkpoint.state))
    → (get x.envelope "view_mode" ≡ str "delta"
        → (v : Assoc Value) → last_view b.published viewer ≡ some v
        → Exact v x.view)
    → Verifies c r p x.view x.envelope
rendered-Verifies c hooks a b p last kind viewer events r x hashes pair planned (m, key, rendered)
      published group leader epoch own n at next hash held seen exact Exact-view =
    let (made, same_events, same_kind, group', leader', epoch', seq', prev', moded) = planned in
    let (mode, valid, viewed, view_moded, enveloped) = rendered in
    let (state_hash, view_hash, signed, is_envelope, stated, hashed, canonical) = enveloped in
    let direct = get_or p.direct m.public_key (arr no_elements) in
    let facts =
      envelope_version c b.private_key p.core p.frame_hash p.events m.public_key mode x.view
        state_hash direct p.checkpoint_mode p.checkpoint view_hash signed in
    let e =
      envelope_of c b.private_key p.core p.frame_hash p.events m.public_key mode x.view state_hash
        direct p.checkpoint_mode p.checkpoint view_hash signed in
    subst (Verifies c r p x.view) (sym is_envelope) (
      verify_frame-envelope c b.private_key p.core p.frame_hash p.events m.public_key x.view
          state_hash direct p.checkpoint_mode p.checkpoint view_hash signed r false mode hashes
          (subst (KeyPair c b.private_key) (sym leader) pair)
          (group ∙ sym group', leader ∙ sym leader', epoch ∙ sym epoch', own ∙ sym key) made
          (valid, stated, hashed, canonical)
          (checkpoint_mode_of-Restores c _ b.published p.checkpoint r last published held
            (λ ops part. exact (
              ap (λ t. get t "checkpoint_mode") is_envelope
              ∙ facts.2
              ∙ ap (λ k. str (mode_text k)) part))
            moded)
          (view_mode_of-Restores c _ (last_view b.published m.public_key) x.view r.view
            (seen ∙ ap (last_view b.published) (sym key))
            (λ v shown ops part.
              Exact-view
                (ap (λ t. get t "view_mode") is_envelope
                  ∙ facts.3
                  ∙ ap (λ k. str (mode_text k)) part)
                v (ap (last_view b.published) (sym key) ∙ shown))
            view_moded)
          (next_frame e p.frame_hash b.previous_hash n p.core.seq r.seq r.frame_hash at hash
            (seq' ∙ next) (facts.1 ∙ ap str prev')),
      facts.0,
    )
