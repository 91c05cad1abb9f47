-- ===== src/Proto/Group/Replica/Chain.antt =====
-- One call of `GroupReplica.apply` of aigenora/proto/group.py, and any number of them.
use mathlib.Core.Path.{subst}
use aigenora.Prelude.{
  ℕ, ◌+◌, String, ◌≡◌, refl, ap, ◌∙◌, ◌≢◌, ◌⊎◌, inl, inr, Bool, true, false, Option, none, some,
  List, [], ◌∷◌, ◌==◌, if◌then◌else◌, Result, ok, err, Result-cases, length, arith,
}
use aigenora.Prelude.Int.{ℤ, pos}
use aigenora.Proto.JsonDelta.Dict.{Assoc}
use aigenora.Proto.JsonDelta.Json.{Value, int, str, obj, entries, eq}
use aigenora.Proto.Group
use aigenora.Proto.Group.{Codec, GroupError, get}
use aigenora.Proto.Group.Replica.{Replica, or_null}
use aigenora.Proto.Group.Replica.Apply.{
  Frame, verify_frame, write_frame, membership_version_of, apply,
}
use aigenora.Proto.Group.Replica.Verified.{SignedFrame, Verified}
use aigenora.Proto.Group.Replica.Verifies.{verify_frame-Verified}

-- A call that writes nothing and does not answer True.
abbrev pub Refuses : Codec → Bool → Value → Replica → Type 0
Refuses c bootstrap v r =
    (x : Result GroupError Bool) × (apply c bootstrap v r ≡ (x, r)) × (x ≢ ok true)

abbrev envelope : Value → Assoc Value
envelope (obj fs) = entries fs
envelope _ = []

-- A call that writes a verified frame. Where `int()` raises on the membership version, the sequence
-- number and the frame hash are written and the rest is not.
abbrev pub Takes : Codec → Bool → Value → Replica → Type 0
Takes c bootstrap v r =
    (f : Frame) × Verified c r bootstrap (envelope v) f
    × (apply c bootstrap v r
        ≡ write_frame f (membership_version_of c (get (envelope v) "membership_version")) r)

refused : (x : GroupError) → ◌≢◌ {A = Result GroupError Bool} (err x) (ok true)
refused x h = cc

-- A call of apply either leaves the replica as it was and does not answer True, or writes a frame
-- whose hashes, signature and checkpoint certificate are the leader's and which, without a
-- bootstrap, follows the replica's own frame.
pub apply-Verified :
    (c : Codec) (bootstrap : Bool) (v : Value) (r : Replica)
    → Refuses c bootstrap v r ⊎ Takes c bootstrap v r
unfolding apply
apply-Verified c bootstrap (obj fs) r =
    elim (Result-cases (verify_frame c r bootstrap (entries fs))) [
      | inr (x, refusal) ↦ inl (err x, rw refusal refl, refused x)
      | inl (none, known) ↦ inl (ok false, rw known refl, λ h. cc)
      | inl (some f, new) ↦
          inr (f, verify_frame-Verified c r bootstrap (entries fs) new, rw new refl)
    ]
apply-Verified c bootstrap v r =
    inl (err Group.envelope_object, refl, refused Group.envelope_object)

-- `apply` on one live frame after another, what it answers left aside.
unfoldable pub live_run : Codec → List Value → Replica → Replica
unfolding apply
live_run c [] r = r
live_run c (v ∷ vs) r = live_run c vs (apply c false v r).1

abbrev same_seq : Option ℕ → Option ℕ → Bool
same_seq none none = true
same_seq (some m) (some n) = m == n
same_seq _ _ = false

-- The envelopes that moved the replica on.
unfoldable pub taken : Codec → List Value → Replica → List (Assoc Value)
unfolding apply
taken c [] r = []
taken c (v ∷ vs) r =
    let next = (apply c false v r).1 in
    let rest = taken c vs next in if same_seq r.seq next.seq then rest else envelope v ∷ rest

-- Frames that the leader signed for the viewer, each the next one of the frame before it.
abbrev pub Chain : Codec → String → String → String → ℕ → List (Assoc Value) → Type 0
Chain c leader viewer last n [] = Unit
Chain c leader viewer last n (e ∷ es) =
    (frame : String) × (get e "seq" ≡ int (pos (n + 1)))
    × (eq (get e "previous_hash") (str last) ≡ true)
    × SignedFrame c leader viewer e frame
    × Chain c leader viewer frame (n + 1) es

-- The replica stands at a frame of a leader and a viewer.
abbrev pub At : String → String → String → ℕ → Replica → Type 0
At leader viewer last n r =
    (r.leader_public_key ≡ leader)
    × (r.viewer_public_key ≡ viewer)
    × (r.seq ≡ some n)
    × (r.frame_hash ≡ some last)

abbrev pub Chained : Codec → String → String → String → ℕ → List Value → Replica → Type 0
Chained c leader viewer last n vs r =
    Chain c leader viewer last n (taken c vs r)
    × ((live_run c vs r).seq ≡ some (n + length (taken c vs r)))

write_frame-At :
    (leader viewer last : String) (n : ℕ) (f : Frame) (version : Option ℤ) (r : Replica)
    → At leader viewer last n r
    → At leader viewer f.frame_hash f.seq (write_frame f version r).1
unfolding write_frame
write_frame-At leader viewer last n f none r at = (at.0, at.1, refl, refl)
write_frame-At leader viewer last n f (some version) r at = (at.0, at.1, refl, refl)

same_seq_refl : (n : Option ℕ) → same_seq n n ≡ true
same_seq_refl none = refl
same_seq_refl (some n) = ground arith

live_run-next :
    (c : Codec) (v : Value) (vs : List Value) (r s : Replica)
    → (apply c false v r).1 ≡ s
    → live_run c (v ∷ vs) r ≡ live_run c vs s
unfolding live_run
live_run-next c v vs r s e = ap (live_run c vs) e

taken-next :
    (c : Codec) (v : Value) (vs : List Value) (r s : Replica) (b : Bool)
    → (apply c false v r).1 ≡ s
    → same_seq r.seq s.seq ≡ b
    → taken c (v ∷ vs) r ≡ (if b then taken c vs s else envelope v ∷ taken c vs s)
unfolding taken
taken-next c v vs r s b e same =
    ap (λ t. if same_seq r.seq t.seq then taken c vs t else envelope v ∷ taken c vs t) e
    ∙ ap (λ t. if t then taken c vs s else envelope v ∷ taken c vs s) same

moved_on : {p q : Option ℕ} {n m : ℕ} → p ≡ some n → q ≡ some m → m ≡ n + 1 → same_seq p q ≡ false
moved_on {n = n} {m = m} a b e = let differ : (n == m) ≡ false = ground arith in rw (a, b) differ

next_after : {h : Option ℕ} {n m k : ℕ} → h ≡ some n → h ≡ some m → k ≡ m + 1 → k ≡ n + 1
next_after a b e = cc

extend :
    (c : Codec) (leader viewer last frame : String) (n : ℕ) (v : Value) (vs : List Value)
    (r s : Replica)
    → taken c (v ∷ vs) r ≡ envelope v ∷ taken c vs s
    → live_run c (v ∷ vs) r ≡ live_run c vs s
    → get (envelope v) "seq" ≡ int (pos (n + 1))
    → eq (get (envelope v) "previous_hash") (str last) ≡ true
    → SignedFrame c leader viewer (envelope v) frame
    → Chained c leader viewer frame (n + 1) vs s
    → Chained c leader viewer last n (v ∷ vs) r
extend c leader viewer last frame n v vs r s e e' seq linked signed (chain, count) =
    rw (e, e') ((frame, seq, linked, signed, chain), count ∙ ap some (omega arith))

no_frames :
    (c : Codec) (leader viewer last : String) (n : ℕ) (r : Replica)
    → r.seq ≡ some n
    → Chained c leader viewer last n [] r
unfolding live_run taken
no_frames c leader viewer last n r at = (tt, at ∙ ap some (omega arith))

-- Over any sequence of live frames, genuine or not, the replica's sequence number grows by one for
-- each frame that is taken, and the frames that are taken are signed by the leader for the viewer
-- and linked by their hashes.
pub live_run-Chain :
    (c : Codec) (leader viewer : String) (vs : List Value) (last : String) (n : ℕ) (r : Replica)
    → At leader viewer last n r
    → Chained c leader viewer last n vs r
live_run-Chain c leader viewer [] last n r at = no_frames c leader viewer last n r at.2
live_run-Chain c leader viewer (v ∷ vs) last n r at = elim (apply-Verified c false v r) [
  | inl (x, run, answer) ↦
      rw
        (
          taken-next c v vs r r true (ap (λ t. t.1) run) (same_seq_refl r.seq),
          live_run-next c v vs r r (ap (λ t. t.1) run),
        )
        (live_run-Chain c leader viewer vs last n r at)
  | inr (f, verified, run) ↦
      let (signed, is_seq, certified, view, follows) = verified in
      let (m, held, next, linked) = follows refl in
      let version = membership_version_of c (get (envelope v) "membership_version") in
      let s = (write_frame f version r).1 in
      let at' = write_frame-At leader viewer last n f version r at in
      let step : f.seq ≡ n + 1 = next_after (at.2) held next in
      let moved : same_seq r.seq s.seq ≡ false = moved_on at.2 at'.2 step in
      let e = taken-next c v vs r s false (ap (λ t. t.1) run) moved in
      extend c leader viewer last f.frame_hash n v vs r s e
        (live_run-next c v vs r s (ap (λ t. t.1) run)) (is_seq ∙ ap (λ k. int (pos k)) step)
        (subst (λ h. eq (get (envelope v) "previous_hash") (or_null h) ≡ true) at.3 linked)
        (subst (λ k. SignedFrame c leader k (envelope v) f.frame_hash) at.1
          (subst (λ k. SignedFrame c k r.viewer_public_key (envelope v) f.frame_hash) at.0 signed))
        (live_run-Chain c leader viewer vs f.frame_hash (n + 1) s
          (subst (λ k. At leader viewer f.frame_hash k s) step at'))
]
