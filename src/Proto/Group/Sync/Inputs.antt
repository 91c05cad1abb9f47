-- ===== src/Proto/Group/Sync/Inputs.antt =====
-- `apply_input` of aigenora/proto/group.py at the members' replicas, and an input that comes again.
use mathlib.Core.Path.{subst}
use aigenora.Prelude.{
  ℕ, ◌+◌, String, ◌≡◌, refl, ap, ◌∙◌, sym, Bool, true, false, Option, none, some, ok, ok_of_bind,
  ok_injective, passed, arith, inl, inr, leb, eq_refl,
}
use aigenora.Proto.JsonDelta.Dict.{Assoc, lookup, insert, lookup-insert}
use aigenora.Proto.JsonDelta.Json.{Value}
use aigenora.Proto.Group
use aigenora.Proto.Group.{Codec, GroupError, Member}
use aigenora.Proto.Group.Replica.{Replica}
use aigenora.Proto.Group.Authority.{Hooks, Authority}
use aigenora.Proto.Group.Authority.Frames.{Plan, Rendered, publish, column, advanced}
use aigenora.Proto.Group.Authority.Inputs.{
  Envelopes, Receipt, duplicate, accepted, apply_input, take_input, check_input, last_envelopes,
  count_of, only_active, member, as_positive, counted, take_result, or_error, find_member,
}
use aigenora.Proto.Group.Authority.Accepted.{Handled, apply_input-Answered}
use aigenora.Proto.Group.Sync.Delivery.{InStep, Lossless, build_envelopes-Built}
use aigenora.Proto.Group.Sync.Delivered.{Delivered}
use aigenora.Proto.Group.Sync.Refines.{Sound, build_envelopes-Delivered}

-- Where SHA-256 gives 64 hex digits, int() of an integer is that integer, and the leader's keys
-- are a pair, the members of the authority pass normalize_members, its recovery mode is one of
-- the three, and the authority accepts an input: a replica in step takes the envelope that it is
-- sent, and is in step with the authority again: it has its sequence number, frame hash,
-- checkpoint and view. A delta that the envelope carries has to be exact.
pub apply_input-Delivered :
    (c : Codec) (hooks : Hooks) (actor : String) (client_seq action : Value) (a : Authority)
    (r : Replica) (viewer : String) {envelopes : Envelopes} {n seq : ℕ} {hash : String}
    {completed : Bool} {a' : Authority} {e : Assoc Value}
    → Sound c a
    → InStep a r viewer
    → apply_input c hooks actor client_seq action a
      ≡ (ok (envelopes, accepted n seq hash completed), a')
    → lookup viewer envelopes ≡ some e
    → Lossless a a' viewer e
    → Delivered c e r a' viewer
unfolding take_result
apply_input-Delivered c hooks actor client_seq action a r viewer sound in_step run found lossless =
    let (m, k, checked, answered) = apply_input-Answered c hooks actor client_seq action a run in
    elim answered [
      | inl (old, same, left) ↦ let other = ap (λ t. t.1) same in cc
      | inr (next, (result, listed, built, receipt)) ↦
          build_envelopes-Delivered c hooks "frame" result.events result.direct
            (counted actor k result a) r viewer sound listed in_step built found lossless
    ]

or_error-ok :
    {A : Type 0} (o : Option A) (x : GroupError) {v : A} → or_error o x ≡ ok v → o ≡ some v
or_error-ok none x h = cc
or_error-ok (some v) x h = ap some (ok_injective h)

-- The checks of the actor look at the members and at the end of the group only.
check_input-again :
    (c : Codec) (actor : String) (client_seq : Value) (a a' : Authority) {m : Member} {n : ℕ}
    → check_input c actor client_seq a ≡ ok (m, n)
    → a'.members ≡ a.members
    → a'.completed ≡ false
    → check_input c actor client_seq a' ≡ ok (m, n)
unfolding check_input member
check_input-again c actor client_seq a a' {m} {n} h members live =
    let (running, h1) = passed a.completed Group.already_completed _ h in
    let (k, found, h2) =
      ok_of_bind
        (or_error (only_active (find_member (c.lower actor) a.members)) Group.actor_inactive) _
        h1 in
    let (j, positive, h3) =
      ok_of_bind (or_error (as_positive client_seq) Group.client_seq_positive) _ h2 in
    rw (live, members, found, positive) h3

take_old :
    (c : Codec) (hooks : Hooks) (actor : String) (m : Member) (n : ℕ) (action : Value)
    (previous : ℕ) (a : Authority)
    → leb n previous ≡ true
    → take_input c hooks actor m n action previous a ≡ (ok (last_envelopes a, duplicate n a.seq), a)
unfolding take_input
take_old c hooks actor m n action previous a old = rw old refl

-- What an accepted input leaves: its number as the actor's last one, and its envelopes.
abbrev Kept : String → ℕ → Authority → Envelopes → Authority → Type 0
Kept actor n a envelopes a' =
    (a'.members ≡ a.members)
    × (count_of actor a'.last_client_seq ≡ n)
    × (last_envelopes a' ≡ envelopes)
    × (a'.seq ≡ a.seq + 1)

published-Kept :
    (actor : String) (n : ℕ) (a b : Authority) (p : Plan) (rendered : Assoc Rendered)
    → b.members ≡ a.members
    → b.last_client_seq ≡ insert actor n a.last_client_seq
    → b.seq ≡ a.seq + 1
    → Kept actor n a (column (λ r. r.envelope) rendered) (publish p rendered b)
unfolding publish
published-Kept actor n a b p rendered members seqs seq = (
  members,
  rw (seqs, lookup-insert actor actor n a.last_client_seq, eq_refl actor) refl,
  refl,
  seq,
)

Handled-Kept :
    (c : Codec) (hooks : Hooks) (actor : String) (n : ℕ) (a a' : Authority)
    (answer : Envelopes × Receipt)
    → Handled c hooks actor n a answer a'
    → Kept actor n a (answer.0) a'
unfolding take_result
Handled-Kept c hooks actor n a a' answer (result, listed, run, receipt) =
    let (p, rendered, planned, looped, out, left) =
      build_envelopes-Built c hooks "frame" result.events result.direct true
        (counted actor n result a) run in
    subst (λ s. Kept actor n a answer.0 s) left
      (subst
        (λ es. Kept actor n a es (publish p rendered (advanced true (counted actor n result a))))
        out
        (published-Kept actor n a (advanced true (counted actor n result a)) p rendered refl refl
          refl))

pub repeat :
    (c : Codec) (hooks : Hooks) (actor : String) (client_seq action : Value) (a a' : Authority)
    (m : Member) (n : ℕ) (envelopes : Envelopes)
    → check_input c actor client_seq a ≡ ok (m, n)
    → a'.members ≡ a.members
    → a'.completed ≡ false
    → leb n (count_of actor a'.last_client_seq) ≡ true
    → last_envelopes a' ≡ envelopes
    → apply_input c hooks actor client_seq action a' ≡ (ok (envelopes, duplicate n a'.seq), a')
unfolding apply_input
repeat c hooks actor client_seq action a a' m n envelopes checked members live old same =
    rw (check_input-again c actor client_seq a a' checked members live) (
      take_old c hooks actor m n action (count_of actor a'.last_client_seq) a' old
      ∙ ap (λ es. (ok (es, duplicate n a'.seq), a')) same)

leb_refl : (n k : ℕ) → k ≡ n → leb n k ≡ true
leb_refl n k e = ground arith

-- Where apply_input returned and the group is not completed, the same number from the same actor,
-- with whatever action, is answered with the same envelopes and changes nothing.
pub apply_input-again :
    (c : Codec) (hooks : Hooks) (actor : String) (client_seq action action' : Value) (a : Authority)
    {answer : Envelopes × Receipt} {a' : Authority}
    → apply_input c hooks actor client_seq action a ≡ (ok answer, a')
    → a'.completed ≡ false
    → (n : ℕ) × (apply_input c hooks actor client_seq action' a'
        ≡ (ok (answer.0, duplicate n a'.seq), a'))
apply_input-again c hooks actor client_seq action action' a {answer} {a'} run live =
    let (m, n, checked, answered) = apply_input-Answered c hooks actor client_seq action a run in
    elim answered [
      | inl (old, same, left) ↦ (
        n,
        repeat c hooks actor client_seq action' a a' m n answer.0 checked
            (sym (ap (λ s. s.members) left)) live
            (subst (λ s. leb n (count_of actor s.last_client_seq) ≡ true) left old)
            (ap last_envelopes (sym left) ∙ ap (λ t. t.0) same),
      )
      | inr (next, handled) ↦
          let (members, counted_n, envelopes, seq) =
            Handled-Kept c hooks actor n a a' answer handled in
          (
            n,
            repeat c hooks actor client_seq action' a a' m n answer.0 checked members live
                (leb_refl n (count_of actor a'.last_client_seq) counted_n) envelopes,
          )
    ]
