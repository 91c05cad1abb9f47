-- ===== src/Proto/Group/Sync/Delivery.antt =====
-- The frames of the authority at a replica in step with it, both of aigenora/proto/group.py.

use mathlib.Core.Option.{some-injective}
use aigenora.Prelude.{
  String, ◌≡◌, refl, ap, Bool, some, [], ◌∷◌, ok, err, Result, ok_injective, str_eq, Bool-cases,
  inl, inr,
}
use aigenora.Proto.JsonDelta.{make_json_delta}
use aigenora.Proto.JsonDelta.Dict.{Assoc, lookup}
use aigenora.Proto.JsonDelta.Json.{Value, str, obj, from_entries}
use aigenora.Proto.JsonDelta.Apply.{apply_json_delta}
use aigenora.Proto.Group.{Codec, GroupError, get}
use aigenora.Proto.Group.Replica.{Replica}
use aigenora.Proto.Group.Authority.{Hooks, Authority, state_entries, checkpoint_entries, Published}
use aigenora.Proto.Group.Authority.Frames.{
  Plan, Rendered, plan_frame, render_members, build_planned, publish_rendered, build_envelopes,
  publish, column, advanced,
}

-- The replica of a viewer is in step with the authority: of the same group, leader and epoch, at its
-- last frame, with its last checkpoint and the viewer's last view.
abbrev pub InStep : Authority → Replica → String → Type 0
InStep a r viewer =
    (p : Published) × (a.published ≡ some p)
    × (r.group_id ≡ a.group_id)
    × (r.leader_public_key ≡ a.leader_public_key)
    × (r.leader_epoch ≡ a.leader_epoch)
    × (r.viewer_public_key ≡ viewer)
    × (r.seq ≡ some a.seq)
    × (r.frame_hash ≡ some a.previous_hash)
    × (r.checkpoint ≡ some (checkpoint_entries p.checkpoint))
    × (r.view ≡ lookup viewer p.views)

-- A delta that gives the very value that it was made for. `delta_roundtrip` promises one that `==`
-- takes for the same.
abbrev pub Exact : Assoc Value → Assoc Value → Type 0
Exact d d' =
    apply_json_delta (obj (from_entries d))
      (make_json_delta (obj (from_entries d)) (obj (from_entries d')))
    ≡ ok (obj (from_entries d'))

-- Where an envelope carries a delta of the checkpoint's state, or of the viewer's view, between two
-- frames, that delta is exact.
abbrev pub Lossless : Authority → Authority → String → Assoc Value → Type 0
Lossless a a' viewer e =
    (p p' : Published)
    → a.published ≡ some p
    → a'.published ≡ some p'
    → (get e "checkpoint_mode" ≡ str "delta"
        → Exact (state_entries p.checkpoint.state) (state_entries p'.checkpoint.state))
      × (get e "view_mode" ≡ str "delta"
          → (v v' : Assoc Value) → lookup viewer p.views ≡ some v
          → lookup viewer p'.views ≡ some v'
          → Exact v v')

module _ {A B : Type 0} (f : A → B) where
  pub lookup-column :
      (k : String) (l : Assoc A) {x : A} → lookup k l ≡ some x → lookup k (column f l) ≡ some (f x)
  unfolding lookup column
  lookup-column k [] h = cc
  lookup-column k ((j, y) ∷ l) {x} h = elim (Bool-cases (str_eq j k)) [
    | inl same ↦ rw same (ap (λ t. some (f t)) (some-injective y x (rw same at h)))
    | inr other ↦ rw other (lookup-column k l (rw other at h))
  ]

  pub column_entry :
      (k : String) (l : Assoc A) {y : B}
      → lookup k (column f l) ≡ some y
      → (x : A) × (lookup k l ≡ some x) × (f x ≡ y)
  unfolding lookup column
  column_entry k [] h = cc
  column_entry k ((j, z) ∷ l) {y} h = elim (Bool-cases (str_eq j k)) [
    | inl same ↦ (z, rw same refl, some-injective (f z) y (rw same at h))
    | inr other ↦ let (x, found, e) = column_entry k l (rw other at h) in (x, rw other found, e)
  ]

-- A run of build_envelopes that returned, taken apart.
abbrev pub Built :
    Codec
    → Hooks
    → String
    → Value
    → Assoc Value
    → Authority
    → Assoc (Assoc Value)
    → Authority
    → Type 0
Built c hooks kind events direct a envelopes a' =
    (p : Plan) × (rendered : Assoc Rendered) × (plan_frame c hooks a kind events direct ≡ ok p)
    × (render_members c hooks a p a.members [] ≡ ok rendered)
    × (column (λ r. r.envelope) rendered ≡ envelopes)
    × (publish p rendered a ≡ a')

publish_rendered-ok :
    (p : Plan) (run : Result GroupError (Assoc Rendered)) (a : Authority)
    {envelopes : Assoc (Assoc Value)} {a' : Authority}
    → publish_rendered p run a ≡ (ok envelopes, a')
    → (rendered : Assoc Rendered) × (run ≡ ok rendered)
      × (column (λ r. r.envelope) rendered ≡ envelopes)
      × (publish p rendered a ≡ a')
unfolding publish_rendered
publish_rendered-ok p (err x) a h = let failed = ap (λ t. t.0) h in cc
publish_rendered-ok p (ok rendered) a h =
    (rendered, refl, ok_injective (ap (λ t. t.0) h), ap (λ t. t.1) h)

build_planned-ok :
    (c : Codec) (hooks : Hooks) (plan : Result GroupError Plan) (a : Authority)
    {envelopes : Assoc (Assoc Value)} {a' : Authority}
    → build_planned c hooks plan a ≡ (ok envelopes, a')
    → (p : Plan) × (plan ≡ ok p)
      × (publish_rendered p (render_members c hooks a p a.members []) a ≡ (ok envelopes, a'))
unfolding build_planned
build_planned-ok c hooks (err x) a h = let failed = ap (λ t. t.0) h in cc
build_planned-ok c hooks (ok p) a h = (p, refl, h)

pub build_envelopes-Built :
    (c : Codec) (hooks : Hooks) (kind : String) (events : Value) (direct : Assoc Value)
    (advance : Bool) (a : Authority) {envelopes : Assoc (Assoc Value)} {a' : Authority}
    → build_envelopes c hooks kind events direct advance a ≡ (ok envelopes, a')
    → Built c hooks kind events direct (advanced advance a) envelopes a'
unfolding build_envelopes
build_envelopes-Built c hooks kind events direct advance a h =
    let (p, planned, h1) = build_planned-ok c hooks _ (advanced advance a) h in
    let (rendered, run, out, left) = publish_rendered-ok p _ (advanced advance a) h1 in
    (p, rendered, planned, run, out, left)
