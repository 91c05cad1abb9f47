-- ===== src/Proto/Group/Sync/Members.antt =====
-- The envelopes that the loop of `_build_envelopes` of aigenora/proto/group.py makes.
use mathlib.Core.Path.{subst}
use mathlib.Core.Option.{some-injective}
use aigenora.Prelude.{
  String, ◌≡◌, ap, ◌∙◌, sym, some, List, [], ◌∷◌, ok, ok_of_bind, ok_injective, str_eq, eq_iff, ◌⊎◌,
  inl, inr, Bool-cases,
}
use aigenora.Proto.JsonDelta.Dict.{Assoc, lookup, insert, lookup-insert}
use aigenora.Proto.JsonDelta.Json.{Value, arr, no_elements, obj, from_entries}
use aigenora.Proto.Group.{Codec, hook_view_object, Member, json_hash, canonical_json, validate_json}
use aigenora.Proto.Group.Replica.{signature_payload}
use aigenora.Proto.Group.Authority.{Hooks, Authority, Checkpoint, Core, as_dict, get_or}
use aigenora.Proto.Group.Authority.Build.{
  Mode, private_payload, build_member_envelope, member_view, view_mode_of, last_view, is_active,
}
use aigenora.Proto.Group.Authority.Frames.{Plan, Rendered, render_member, render_members}
use aigenora.Proto.Group.Sync.Envelope.{envelope_of}

-- An envelope of `_build_member_envelope`, taken apart.
abbrev pub Enveloped :
    Codec
    → String
    → Core
    → String
    → Value
    → String
    → Mode
    → Assoc Value
    → Value
    → Mode
    → Checkpoint
    → Assoc Value
    → Type 0
Enveloped c private_key core frame events viewer mode view direct checkpoint_mode k e =
    (state_hash : String) × (view_hash : String) × (signed : String) × (e
      ≡ envelope_of c private_key core frame events viewer mode view state_hash direct
          checkpoint_mode k view_hash signed)
    × (json_hash c (obj (from_entries view)) ≡ ok state_hash)
    × (json_hash c (
          obj (from_entries (private_payload viewer mode view state_hash direct checkpoint_mode k)))
        ≡ ok view_hash)
    × (canonical_json c (signature_payload frame view_hash viewer) ≡ ok signed)

pub build_member_envelope-Enveloped :
    (c : Codec) (private_key : String) (core : Core) (frame : String) (events : Value)
    (viewer : String) (view : Assoc Value) (mode : Mode) (direct : Value) (k : Checkpoint)
    (checkpoint_mode : Mode) {e : Assoc Value}
    → build_member_envelope c private_key core frame events viewer view mode direct k
        checkpoint_mode
      ≡ ok e
    → Enveloped c private_key core frame events viewer mode view direct checkpoint_mode k e
unfolding build_member_envelope
build_member_envelope-Enveloped c private_key core frame events viewer view mode direct k
      checkpoint_mode h =
    let (state_hash, stated, h1) = ok_of_bind (json_hash c (obj (from_entries view))) _ h in
    let (view_hash, hashed, h2) =
      ok_of_bind
        (json_hash c (
          obj
            (from_entries (private_payload viewer mode view state_hash direct checkpoint_mode k))))
        _ h1 in
    let (signed, canonical, h3) =
      ok_of_bind (canonical_json c (signature_payload frame view_hash viewer)) _ h2 in
    (state_hash, view_hash, signed, sym (ok_injective h3), stated, hashed, canonical)

-- An envelope with the view in it, for a member.
abbrev pub RenderedFor : Codec → Hooks → Authority → Plan → Member → Rendered → Type 0
RenderedFor c hooks a p m r =
    (mode : Mode) × (validate_json 0 (obj (from_entries r.view)) ≡ ok tt)
    × (member_view hooks a m ≡ ok r.view)
    × (view_mode_of c (str_eq p.core.frame_kind "frame") (last_view a.published m.public_key) r.view
        ≡ ok mode)
    × Enveloped c a.private_key p.core p.frame_hash p.events m.public_key mode r.view
        (get_or p.direct m.public_key (arr no_elements)) p.checkpoint_mode p.checkpoint r.envelope

pub member_view-valid :
    (hooks : Hooks) (a : Authority) (m : Member) {view : Assoc Value}
    → member_view hooks a m ≡ ok view
    → validate_json 0 (obj (from_entries view)) ≡ ok tt
unfolding member_view
member_view-valid hooks a m h =
    let (raw, rendered, h1) = ok_of_bind (hooks.view (obj (from_entries a.state)) m) _ h in
    let (view, dict, h2) = ok_of_bind (as_dict raw hook_view_object) _ h1 in
    let (u, valid, h3) = ok_of_bind (validate_json 0 (obj (from_entries view))) _ h2 in
    subst (λ v. validate_json 0 (obj (from_entries v)) ≡ ok tt) (ok_injective h3) valid

render_member-RenderedFor :
    (c : Codec) (hooks : Hooks) (a : Authority) (p : Plan) (m : Member) {r : Rendered}
    → render_member c hooks a p m ≡ ok r
    → RenderedFor c hooks a p m r
unfolding render_member
render_member-RenderedFor c hooks a p m {r} h =
    let (view, viewed, h1) = ok_of_bind (member_view hooks a m) _ h in
    let (mode, moded, h2) =
      ok_of_bind
        (view_mode_of c (str_eq p.core.frame_kind "frame") (last_view a.published m.public_key)
          view)
        _ h1 in
    let (e, enveloped, h3) =
      ok_of_bind
        (build_member_envelope c a.private_key p.core p.frame_hash p.events m.public_key view mode
          (get_or p.direct m.public_key (arr no_elements)) p.checkpoint p.checkpoint_mode)
        _ h2 in
    subst (RenderedFor c hooks a p m) (ok_injective h3) (
      mode,
      member_view-valid hooks a m viewed,
      viewed,
      moded,
      build_member_envelope-Enveloped c a.private_key p.core p.frame_hash p.events m.public_key view
          mode _ p.checkpoint p.checkpoint_mode enveloped,
    )

-- Some active member has the key, and the entry is that member's.
abbrev pub RenderedAt : Codec → Hooks → Authority → Plan → String → Rendered → Type 0
RenderedAt c hooks a p key r = (m : Member) × (m.public_key ≡ key) × RenderedFor c hooks a p m r

placed :
    (c : Codec) (hooks : Hooks) (a : Authority) (p : Plan) (m : Member) (done : Assoc Rendered)
    (key : String) (new : Rendered) {r : Rendered}
    → render_member c hooks a p m ≡ ok new
    → lookup key (insert m.public_key new done) ≡ some r
    → (lookup key done ≡ some r) ⊎ RenderedAt c hooks a p key r
placed c hooks a p m done key new {r} run found =
    let there = sym (lookup-insert m.public_key key new done) ∙ found in
    elim (Bool-cases (str_eq m.public_key key)) [
      | inl same ↦
          let is_new : new ≡ r = some-injective new r (rw same at there) in
          inr (
            m,
            (eq_iff m.public_key key).0 same,
            subst (RenderedFor c hooks a p m) is_new (render_member-RenderedFor c hooks a p m run),
          )
      | inr other ↦ inl (rw other at there)
    ]

pub render_members-RenderedAt :
    (c : Codec) (hooks : Hooks) (a : Authority) (p : Plan) (ms : List Member)
    (done : Assoc Rendered) {all : Assoc Rendered} (key : String) {r : Rendered}
    → render_members c hooks a p ms done ≡ ok all
    → lookup key all ≡ some r
    → (lookup key done ≡ some r) ⊎ RenderedAt c hooks a p key r
unfolding render_members
render_members-RenderedAt c hooks a p [] done key h found =
    inl (ap (lookup key) (ok_injective h) ∙ found)
render_members-RenderedAt c hooks a p (m ∷ ms) done key {r} h found =
    elim (Bool-cases (is_active m)) [
      | inr idle ↦ render_members-RenderedAt c hooks a p ms done key (rw idle at h) found
      | inl active ↦
          let (new, run, rest) = ok_of_bind (render_member c hooks a p m) _ (rw active at h) in
          elim (render_members-RenderedAt c hooks a p ms (insert m.public_key new done) key rest
            found) [ inr later ↦ inr later | inl here ↦ placed c hooks a p m done key new run here ]
    ]
