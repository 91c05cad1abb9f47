-- ===== src/Proto/Group/Sync/Bootstrapped.antt =====
-- `bootstrap_envelope` of the authority at a replica that is behind, aigenora/proto/group.py.
use mathlib.Core.Path.{subst}
use mathlib.Core.Option.{some-injective}
use aigenora.Prelude.{
  ℕ, ◌<◌, String, ◌≡◌, refl, ap, ◌∙◌, sym, true, false, Option, none, some, ok, ok_of_bind,
  ok_injective, arith, leb, ◌==◌,
}
use aigenora.Prelude.Int.{ℤ}
use aigenora.Proto.JsonDelta.Dict.{Assoc}
use aigenora.Proto.JsonDelta.Json.{Value, arr, no_elements, obj, from_entries, entries-from_entries}
use aigenora.Proto.Group.{Codec, Member, get}
use aigenora.Proto.Group.Replica.{Replica, check_order, check_next}
use aigenora.Proto.Group.Replica.Apply.{
  Frame, apply, verify_frame, write_frame, membership_version_of,
}
use aigenora.Proto.Group.Authority.{Hooks, Authority, checkpoint_entries, Published}
use aigenora.Proto.Group.Authority.Build.{full, build_member_envelope, member_view}
use aigenora.Proto.Group.Authority.Inputs.{member, only_active}
use aigenora.Proto.Group.Authority.Bootstraps.{bootstrap_envelope, bootstrap_for}
use aigenora.Proto.Group.Sync.{Hashes, KeyPair, Consistent}
use aigenora.Proto.Group.Sync.Envelope.{envelope_of}
use aigenora.Proto.Group.Sync.Frame.{verify_frame-envelope}
use aigenora.Proto.Group.Sync.Members.{
  Enveloped, build_member_envelope-Enveloped, member_view-valid,
}
use aigenora.Proto.Group.Sync.Live.{IntOf, membership_version_of-int}
use aigenora.Proto.Group.Sync.Delivered.{envelope_version}
use aigenora.Proto.Group.Sync.Bootstrap.{Standing}

-- The replica has no frame of that number or a later one.
abbrev pub Behind : Option ℕ → ℕ → Type 0
Behind none seq = Unit
Behind (some n) seq = n < seq

bootstrap_next :
    (e : Assoc Value) (frame : String) (seq : ℕ) (held : Option ℕ) (hash : Option String)
    → Behind held seq
    → check_order true e frame seq held hash ≡ ok true
unfolding check_order check_next
bootstrap_next e frame seq none hash behind = refl
bootstrap_next e frame seq (some n) hash behind =
    let fresh : (seq == n) ≡ false = ground arith in
    let beyond : leb seq n ≡ false = ground arith in rw (fresh, beyond) refl

-- The replica has the authority's last frame, and the view of a member.
abbrev pub Holds : Authority → Assoc Value → Replica → Type 0
Holds a view r =
    (p : Published) × (a.published ≡ some p)
    × (r.seq ≡ some a.seq)
    × (r.frame_hash ≡ some a.previous_hash)
    × (r.checkpoint ≡ some (checkpoint_entries p.checkpoint))
    × (r.view ≡ some view)

-- The replica takes the envelope as a bootstrap.
abbrev pub Bootstrapped : Codec → Hooks → Assoc Value → Authority → Member → Replica → Type 0
Bootstrapped c hooks e a m r =
    (view : Assoc Value) × (r' : Replica) × (member_view hooks a m ≡ ok view)
    × (apply c true (obj (from_entries e)) r ≡ (ok true, r'))
    × Holds a view r'

bootstrap_for-Bootstrapped :
    (c : Codec) (hooks : Hooks) (a : Authority) (r : Replica) (key : String)
    (published : Option Published) (found : Option Member) {e : Assoc Value}
    → bootstrap_for c hooks a key published found ≡ ok (some e)
    → (p : Published) × (m : Member) × (view : Assoc Value) × (published ≡ some p)
      × (found ≡ some m)
      × (member_view hooks a m ≡ ok view)
      × Enveloped c a.private_key p.core p.checkpoint.frame_hash p.events
          (c.lower key)
          full
          view
          (arr no_elements)
          full
          p.checkpoint
          e
unfolding bootstrap_for
bootstrap_for-Bootstrapped c hooks a r key none found h = cc
bootstrap_for-Bootstrapped c hooks a r key (some p) none h = cc
bootstrap_for-Bootstrapped c hooks a r key (some p) (some m) {e} h =
    let (view, viewed, h1) = ok_of_bind (member_view hooks a m) _ h in
    let (envelope, built, h2) =
      ok_of_bind
        (build_member_envelope c a.private_key p.core p.checkpoint.frame_hash p.events (c.lower key)
          view full (arr no_elements) p.checkpoint full)
        _ h1 in
    let same = some-injective envelope e (ok_injective h2) in
    (
      p,
      m,
      view,
      refl,
      refl,
      viewed,
      subst
          (Enveloped c a.private_key p.core p.checkpoint.frame_hash p.events (c.lower key) full view
            (arr no_elements) full p.checkpoint)
          same
          (build_member_envelope-Enveloped c a.private_key p.core p.checkpoint.frame_hash p.events
            (c.lower key) view full (arr no_elements) p.checkpoint full built),
    )

-- The replica is of the authority's group, leader and epoch, and of a viewer.
abbrev pub OfGroup : Authority → Replica → String → Type 0
OfGroup a r viewer =
    (r.group_id ≡ a.group_id)
    × (r.leader_public_key ≡ a.leader_public_key)
    × (r.leader_epoch ≡ a.leader_epoch)
    × (r.viewer_public_key ≡ viewer)

write_frame-true :
    (c : Codec) (e : Assoc Value) (r : Replica) (f : Frame) (version : ℤ)
    → verify_frame c r true e ≡ ok (some f)
    → membership_version_of c (get e "membership_version") ≡ some version
    → apply c true (obj (from_entries e)) r ≡ write_frame f (some version) r
unfolding apply
write_frame-true c e r f version verified versioned =
    rw (entries-from_entries e, verified, versioned) refl

holds :
    (a : Authority) (r : Replica) (p : Published) (view : Assoc Value) (version : ℤ)
    → a.published ≡ some p
    → p.core.seq ≡ a.seq
    → p.checkpoint.frame_hash ≡ a.previous_hash
    → let f : Frame = record {
      seq = p.core.seq;
      frame_hash = p.checkpoint.frame_hash;
      checkpoint = checkpoint_entries p.checkpoint;
      view = view;
    } in
      (r' : Replica) × (write_frame f (some version) r ≡ (ok true, r')) × Holds a view r'
unfolding write_frame
holds a r p view version published seq hash =
    (_, refl, (p, published, ap some seq, ap some hash, refl, refl))

abbrev StandingAt : Codec → Authority → Published → Type 0
StandingAt c a p =
    Consistent c a.private_key p.core p.checkpoint.frame_hash p.events p.checkpoint
    × (p.core.group_id ≡ a.group_id)
    × (p.core.leader_public_key ≡ a.leader_public_key)
    × (p.core.leader_epoch ≡ a.leader_epoch)
    × (p.core.seq ≡ a.seq)
    × (p.checkpoint.frame_hash ≡ a.previous_hash)

standing_at :
    (c : Codec) (a : Authority) (p : Published)
    → Standing c a
    → a.published ≡ some p
    → StandingAt c a p
standing_at c a p (q, q_published, made, group, leader, epoch, seq) published =
    subst (StandingAt c a) (some-injective q p (sym q_published ∙ published)) (
      subst (λ h. Consistent c a.private_key q.core h q.events q.checkpoint) (sym made.11) made,
      group,
      leader,
      epoch,
      seq,
      made.11,
    )

-- Where SHA-256 gives 64 hex digits, int() of an integer is that integer, and the leader's keys
-- are a pair, and the authority's last core, events, checkpoint, sequence number and frame hash
-- belong together, with a checkpoint state that the checks of a checkpoint take: an envelope
-- that bootstrap_envelope makes is taken by the member's replica where that has no frame of that
-- number or a later one; the replica then has the authority's sequence number, frame hash and
-- checkpoint, and the view that the hook renders.
pub bootstrap_envelope-Bootstrapped :
    (c : Codec) (hooks : Hooks) (a : Authority) (r : Replica) (key : String) {e : Assoc Value}
    → Hashes c
    → KeyPair c a.private_key a.leader_public_key
    → IntOf c
    → Standing c a
    → OfGroup a r (c.lower key)
    → Behind r.seq a.seq
    → bootstrap_envelope c hooks key a ≡ ok (some e)
    → (m : Member) × (only_active (member c key a) ≡ some m) × Bootstrapped c hooks e a m r
unfolding bootstrap_envelope
bootstrap_envelope-Bootstrapped c hooks a r key {e} hashes pair of_int standing belongs behind run =
    let (group, leader, epoch, own) = belongs in
    let (p, m, view, published, found, viewed, enveloped) =
      bootstrap_for-Bootstrapped c hooks a r key a.published (only_active (member c key a)) run in
    let (made, p_group, p_leader, p_epoch, p_seq, p_hash) = standing_at c a p standing published in
    let (state_hash, view_hash, signed, is_envelope, stated, hashed, canonical) = enveloped in
    let facts =
      envelope_version c a.private_key p.core p.checkpoint.frame_hash p.events (c.lower key) full
        view state_hash (arr no_elements) full p.checkpoint view_hash signed in
    let sent =
      envelope_of c a.private_key p.core p.checkpoint.frame_hash p.events (c.lower key) full view
        state_hash (arr no_elements) full p.checkpoint view_hash signed in
    let (version, versioned) = membership_version_of-int c p.core.membership_version of_int in
    let verified =
      verify_frame-envelope c a.private_key p.core p.checkpoint.frame_hash p.events (c.lower key)
        view state_hash (arr no_elements) full p.checkpoint view_hash signed r true full hashes
        (subst (KeyPair c a.private_key) (sym leader) pair)
        (group ∙ sym p_group, leader ∙ sym p_leader, epoch ∙ sym p_epoch, own) made
        (member_view-valid hooks a m viewed, stated, hashed, canonical) tt tt
        (bootstrap_next sent p.checkpoint.frame_hash p.core.seq r.seq r.frame_hash
          (subst (Behind r.seq) (sym p_seq) behind)) in
    let (r', written, held) = holds a r p view version published p_seq p_hash in
    (
      m,
      found,
      subst (λ t. Bootstrapped c hooks t a m r) (sym is_envelope)
          (
            view,
            r',
            viewed,
            write_frame-true c sent r _ version verified
                  (ap (membership_version_of c) facts.0 ∙ versioned)
                ∙ written,
            held,
          ),
    )
