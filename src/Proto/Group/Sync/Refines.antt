-- ===== src/Proto/Group/Sync/Refines.antt =====
-- `_build_envelopes` and `apply_input` of the authority against `apply` of the members' replicas, all
-- of aigenora/proto/group.py.
use mathlib.Core.Path.{subst}
use aigenora.Prelude.{
  ◌+◌, String, ◌≡◌, refl, ap, ◌∙◌, sym, true, Option, some, [], ok, inl, inr, ◌⊎◌,
}
use aigenora.Prelude.Int.{ℤ}
use aigenora.Proto.JsonDelta.Dict.{Assoc, lookup}
use aigenora.Proto.JsonDelta.Json.{Value}
use aigenora.Proto.Group.{Codec}
use aigenora.Proto.Group.Replica.{Replica, is_list}
use aigenora.Proto.Group.Replica.Apply.{Frame, write_frame, membership_version_of}
use aigenora.Proto.Group.Authority.{Hooks, Authority, Published}
use aigenora.Proto.Group.Authority.Build.{last_view}
use aigenora.Proto.Group.Authority.Frames.{Plan, Rendered, build_envelopes, publish, advanced}
use aigenora.Proto.Group.Sync.{Hashes, KeyPair}
use aigenora.Proto.Group.Sync.Planned.{Restorable}
use aigenora.Proto.Group.Sync.Plans.{PlannedFrom, plan_frame-PlannedFrom}
use aigenora.Proto.Group.Sync.Members.{RenderedAt, render_members-RenderedAt}
use aigenora.Proto.Group.Sync.Delivery.{
  InStep, Lossless, build_envelopes-Built, lookup-column, column_entry,
}
use aigenora.Proto.Group.Sync.Live.{IntOf, membership_version_of-int}
use aigenora.Proto.Group.Sync.Delivered.{Delivered, frame_of, apply-write, rendered-Verifies}

-- What the two sides rest on: SHA-256, the leader's keys, `int()`, and members and a recovery mode as
-- the checks of a checkpoint take them.
abbrev pub Sound : Codec → Authority → Type 0
Sound c a = Hashes c × KeyPair c a.private_key a.leader_public_key × IntOf c × Restorable c a

last_view-lookup :
    (published : Option Published) (p : Published) (viewer : String)
    → published ≡ some p
    → lookup viewer p.views ≡ last_view published viewer
last_view-lookup published p viewer e = ap (λ q. last_view q viewer) (sym e)

from_empty : (k : String) (x : Rendered) {A : Type 0} → (lookup k [] ≡ some x) ⊎ A → A
unfolding lookup
from_empty k x (inl h) = cc
from_empty k x (inr a) = a

write_some :
    (f : Frame) (m : ℤ) (r : Replica)
    → write_frame f (some m) r ≡ (ok true, (write_frame f (some m) r).1)
unfolding write_frame
write_some f m r = refl

module _ (c : Codec) (hooks : Hooks) (kind : String) (events : Value) (direct : Assoc Value)
    (a : Authority) (r : Replica) (viewer : String) where
  step_published :
      (p : Plan) (rendered : Assoc Rendered) (x : Rendered) (version : ℤ)
      → lookup viewer rendered ≡ some x
      → r.group_id ≡ a.group_id
      → r.leader_public_key ≡ a.leader_public_key
      → r.leader_epoch ≡ a.leader_epoch
      → r.viewer_public_key ≡ viewer
      → p.core.seq ≡ a.seq + 1
      → InStep
          (publish p rendered (advanced true a))
          (write_frame (frame_of p x.view) (some version) r).1
          viewer
  unfolding publish write_frame
  step_published p rendered x version found group leader epoch own seq = (
    _,
    refl,
    group,
    leader,
    epoch,
    own,
    ap some seq,
    refl,
    refl,
    sym (lookup-column (λ r. r.view) viewer rendered found),
  )

  deliver :
      (p : Plan) (rendered : Assoc Rendered) (x : Rendered)
      → lookup viewer rendered ≡ some x
      → Sound c a
      → InStep a r viewer
      → PlannedFrom c (advanced true a) kind events p
      → RenderedAt c hooks (advanced true a) p viewer x
      → Lossless a (publish p rendered (advanced true a)) viewer x.envelope
      → Delivered c x.envelope r (publish p rendered (advanced true a)) viewer
  unfolding publish
  deliver p rendered x found sound in_step from for_viewer lossless =
      let (hashes, pair, of_int, restorable) = sound in
      let (last, published, group, leader, epoch, own, at, hash, held, seen) = in_step in
      let (exact, Exact-views) = lossless last _ published refl in
      let (m, versioned) = membership_version_of-int c p.core.membership_version of_int in
      let (verified, version) =
        rendered-Verifies c hooks a (advanced true a) p last kind viewer events r x hashes pair from
          for_viewer published group leader epoch own a.seq at refl hash held
          (seen ∙ last_view-lookup a.published last viewer published) (exact)
          (λ carried v h.
            Exact-views carried v x.view (last_view-lookup a.published last viewer published ∙ h)
              (lookup-column (λ r. r.view) viewer rendered found)) in
      (
        (write_frame (frame_of p x.view) (some m) r).1,
        apply-write c x.envelope r (frame_of p x.view) m verified
              (ap (membership_version_of c) version ∙ versioned)
            ∙ write_some (frame_of p x.view) m r,
        step_published p rendered x m found group leader epoch own (from.6),
      )

  -- An envelope that build_envelopes makes for a replica in step is taken, and leaves the replica in
  -- step.
  pub build_envelopes-Delivered :
      {envelopes : Assoc (Assoc Value)} {a' : Authority} {e : Assoc Value}
      → Sound c a
      → is_list events ≡ true
      → InStep a r viewer
      → build_envelopes c hooks kind events direct true a ≡ (ok envelopes, a')
      → lookup viewer envelopes ≡ some e
      → Lossless a a' viewer e
      → Delivered c e r a' viewer
  build_envelopes-Delivered {e = e} sound listed in_step run found lossless =
      let (hashes, pair, of_int, restorable) = sound in
      let (last, published, group, leader, epoch, own, at, hash, held, seen) = in_step in
      let (p, rendered, planned, looped, out, left) =
        build_envelopes-Built c hooks kind events direct true a run in
      let (x, x_found, x_is) =
        column_entry (λ r. r.envelope) viewer rendered (ap (lookup viewer) out ∙ found) in
      let b = advanced true a in
      let from = plan_frame-PlannedFrom c hooks b kind events direct restorable listed planned in
      let for_viewer =
        from_empty viewer x
          (render_members-RenderedAt c hooks b p a.members [] viewer looped x_found) in
      subst (λ s. Delivered c e r s viewer) left
        (subst (λ t. Delivered c t r (publish p rendered b) viewer) x_is
          (deliver p rendered x x_found sound in_step from for_viewer (
            subst (λ t. Lossless a (publish p rendered b) viewer t) (sym x_is)
              (subst (λ s. Lossless a s viewer e) (sym left) lossless))))
