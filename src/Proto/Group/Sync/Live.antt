-- ===== src/Proto/Group/Sync/Live.antt =====
-- One frame of the authority, taken by a replica in step with it, both of aigenora/proto/group.py.
use mathlib.Core.Path.{subst}
use mathlib.Core.Option.{some-injective}
use Prim.Native.String.{len}
use aigenora.Prelude.{
  ℕ, ◌+◌, String, ◌≡◌, refl, ap, ◌∙◌, sym, Bool, true, false, Option, none, some, ok, ok_of_bind,
  ok_injective, leb, ltb, ◌==◌, arith, Bool-cases, inl, inr, if◌then◌else◌, ◌⊎◌,
}
use aigenora.Prelude.Int.{ℤ, pos}
use aigenora.Proto.JsonDelta.{make_json_delta}
use aigenora.Proto.JsonDelta.Dict.{Assoc}
use aigenora.Proto.JsonDelta.Json.{Value, int, str}
use aigenora.Proto.Group.{Codec, get, truthy, canonical_json}
use aigenora.Proto.Group.Replica.{Replica, is_list, check_order, check_next}
use aigenora.Proto.Group.Replica.Apply.{membership_version_of}
use aigenora.Proto.Group.Authority.{Checkpoint, state_entries, checkpoint_entries, Published}
use aigenora.Proto.Group.Authority.Build.{
  Mode, full, delta, shorter_delta, checkpoint_mode_of, view_mode_of,
}
use aigenora.Proto.Group.Sync.{Restores, RestoresCheckpoint}
use aigenora.Proto.Group.Sync.Envelope.{eq_str}
use aigenora.Proto.Group.Sync.Delivery.{Exact}

is_list-make_json_delta : (v w : Value) → is_list (make_json_delta v w) ≡ true
unfolding make_json_delta
is_list-make_json_delta v w = refl

if_delta :
    (b : Bool) (d : Value)
    → ((if b then delta d else full) ≡ full) ⊎ ((if b then delta d else full) ≡ delta d)
if_delta true d = inr refl
if_delta false d = inl refl

shorter_delta-ok :
    (c : Codec) (margin : ℕ) (previous current value : Value) {mode : Mode}
    → shorter_delta c margin previous current value ≡ ok mode
    → (mode ≡ full) ⊎ (mode ≡ delta (make_json_delta previous current))
unfolding shorter_delta
shorter_delta-ok c margin previous current value h =
    let (short, is_short, h1) =
      ok_of_bind (canonical_json c (make_json_delta previous current)) _ h in
    let (long, is_long, h2) = ok_of_bind (canonical_json c value) _ h1 in
    subst (λ mode. (mode ≡ full) ⊎ (mode ≡ delta (make_json_delta previous current)))
      (ok_injective h2)
      (if_delta (ltb (len short + margin) (len long)) (make_json_delta previous current))

pub checkpoint_mode_of-Restores :
    (c : Codec) (forced : Bool) (published : Option Published) (k : Checkpoint) (r : Replica)
    (p : Published) {mode : Mode}
    → published ≡ some p
    → r.checkpoint ≡ some (checkpoint_entries p.checkpoint)
    → ((ops : Value)
        → mode ≡ delta ops
        → Exact (state_entries p.checkpoint.state) (state_entries k.state))
    → checkpoint_mode_of c forced published k ≡ ok mode
    → RestoresCheckpoint false r mode k
checkpoint_mode_of-Restores c true published k r p has held exact h =
    subst (λ m. RestoresCheckpoint false r m k) (ok_injective h) tt
checkpoint_mode_of-Restores c false none k r p has held exact h = cc
checkpoint_mode_of-Restores c false (some q) k r p has held exact h =
    let same : q ≡ p = some-injective q p has in
    elim (shorter_delta-ok c 256 _ _ _ h) [
      | inl whole ↦ subst (λ m. RestoresCheckpoint false r m k) (sym whole) tt
      | inr part ↦
          subst (λ m. RestoresCheckpoint false r m k) (sym part)
            (
              refl,
              is_list-make_json_delta _ _,
              q.checkpoint,
              held ∙ ap (λ t. some (checkpoint_entries t.checkpoint)) (sym same),
              subst (λ t. Exact (state_entries t.checkpoint.state) (state_entries k.state))
                  (sym same) (exact _ part),
            )
    ]

pub view_mode_of-Restores :
    (c : Codec) (live : Bool) (previous : Option (Assoc Value)) (view : Assoc Value)
    (held : Option (Assoc Value)) {mode : Mode}
    → held ≡ previous
    → ((v : Assoc Value) → previous ≡ some v → (ops : Value) → mode ≡ delta ops → Exact v view)
    → view_mode_of c live previous view ≡ ok mode
    → Restores false held mode view
view_mode_of-Restores c false previous view held has exact h =
    subst (λ m. Restores false held m view) (ok_injective h) tt
view_mode_of-Restores c true none view held has exact h =
    subst (λ m. Restores false held m view) (ok_injective h) tt
view_mode_of-Restores c true (some v) view held has exact h = elim (shorter_delta-ok c 96 _ _ _ h) [
  | inl whole ↦ subst (λ m. Restores false held m view) (sym whole) tt
  | inr part ↦
      subst (λ m. Restores false held m view) (sym part)
        (refl, is_list-make_json_delta _ _, v, has, exact v refl _ part)
]

pub next_frame :
    (e : Assoc Value) (frame last : String) (n seq : ℕ) (held : Option ℕ) (hash : Option String)
    → held ≡ some n
    → hash ≡ some last
    → seq ≡ n + 1
    → get e "previous_hash" ≡ str last
    → check_order false e frame seq held hash ≡ ok true
unfolding check_order check_next
next_frame e frame last n seq held hash a b s linked =
    let fresh : (n + 1 == n) ≡ false = ground arith in
    let beyond : leb (n + 1) n ≡ false = ground arith in
    let same : (n + 1 == n + 1) ≡ true = ground arith in
    rw (a, b, s, fresh, beyond, same, linked, eq_str last last refl) refl

-- `int()` of an integer is that integer.
abbrev pub IntOf : Codec → Type 0
IntOf c = (n : ℤ) → c.int_of (int n) ≡ some n

pub membership_version_of-int :
    (c : Codec) (n : ℤ) → IntOf c → (m : ℤ) × (membership_version_of c (int n) ≡ some m)
unfolding membership_version_of
membership_version_of-int c n of_int = elim (Bool-cases (truthy (int n))) [
  | inl nonzero ↦ (n, rw nonzero (of_int n))
  | inr none_given ↦ (pos 0, rw none_given refl)
]
