-- ===== src/Proto/Group/Sync/Bootstrap.antt =====
-- The frame that the authority stands at after `_build_envelopes`, aigenora/proto/group.py.
use mathlib.Core.Path.{subst}
use aigenora.Prelude.{String, ◌≡◌, refl, Bool, true, false, some, ok}
use aigenora.Proto.JsonDelta.Dict.{Assoc}
use aigenora.Proto.JsonDelta.Json.{Value}
use aigenora.Proto.Group.{Codec}
use aigenora.Proto.Group.Replica.{is_list}
use aigenora.Proto.Group.Authority.{Hooks, Authority, Published}
use aigenora.Proto.Group.Authority.Frames.{Plan, Rendered, build_envelopes, publish, advanced}
use aigenora.Proto.Group.Authority.Inputs.{Envelopes}
use aigenora.Proto.Group.Sync.{Consistent}
use aigenora.Proto.Group.Sync.Planned.{Restorable}
use aigenora.Proto.Group.Sync.Plans.{PlannedFrom, plan_frame-PlannedFrom}
use aigenora.Proto.Group.Sync.Delivery.{build_envelopes-Built}

-- The last frame of the authority: its core, events and checkpoint belong together, and the sequence
-- number and the hash that the next frame continues are its own.
abbrev pub Standing : Codec → Authority → Type 0
Standing c a =
    (p : Published) × (a.published ≡ some p)
    × Consistent c a.private_key p.core a.previous_hash p.events p.checkpoint
    × (p.core.group_id ≡ a.group_id)
    × (p.core.leader_public_key ≡ a.leader_public_key)
    × (p.core.leader_epoch ≡ a.leader_epoch)
    × (p.core.seq ≡ a.seq)

publish-Standing :
    (c : Codec) (kind : String) (events : Value) (b : Authority) (p : Plan)
    (rendered : Assoc Rendered)
    → PlannedFrom c b kind events p
    → Standing c (publish p rendered b)
unfolding publish
publish-Standing c kind events b p rendered
      (made, same, is_kind, group, leader, epoch, seq, previous, moded) =
    (_, refl, made, group, leader, epoch, seq)

still :
    (c : Codec) (a : Authority) (advance : Bool)
    → Restorable c a
    → Restorable c (advanced advance a)
still c a true restorable = restorable
still c a false restorable = restorable

-- Where the members of the authority pass normalize_members, its recovery mode is one of the three and the
-- events are a list: after a call of build_envelopes that returned, with the sequence number advanced or
-- not, the authority's last core, events, checkpoint, sequence number and frame hash belong together,
-- and the checkpoint's state is one that the checks of a checkpoint take.
pub build_envelopes-Standing :
    (c : Codec) (hooks : Hooks) (kind : String) (events : Value) (direct : Assoc Value)
    (advance : Bool) (a : Authority) {envelopes : Envelopes} {a' : Authority}
    → Restorable c a
    → is_list events ≡ true
    → build_envelopes c hooks kind events direct advance a ≡ (ok envelopes, a')
    → Standing c a'
build_envelopes-Standing c hooks kind events direct advance a restorable listed run =
    let (p, rendered, planned, looped, out, left) =
      build_envelopes-Built c hooks kind events direct advance a run in
    subst (Standing c) left (
      publish-Standing c kind events (advanced advance a) p rendered (
        plan_frame-PlannedFrom c hooks (advanced advance a) kind events direct
          (still c a advance restorable) listed planned))
