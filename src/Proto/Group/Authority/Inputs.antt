-- ===== src/Proto/Group/Authority/Inputs.antt =====
-- The operations of `GroupAuthority` in aigenora/proto/group.py. Each writes before it builds its
-- frame, and what is written stays where the frame cannot be built.
use Prim.Native.String.{len}
use aigenora.Prelude.{
  ℕ, zero, suc, ◌+◌, String, Bool, true, not, Option, none, some, List, [], ◌∷◌, str_eq, leb, ◌==◌,
  if◌then◌else◌, Result, ok, err, ◌>>=◌, ◌>>◌, raise_if,
}
use aigenora.Prelude.Int.{pos, ltb_ℤ}
use aigenora.Prelude.Exec.{Exec}
use aigenora.Proto.JsonDelta.Dict.{Assoc, lookup, insert}
use aigenora.Proto.JsonDelta.Json.{Value, int, obj, from_entries}
use aigenora.Proto.Group
use aigenora.Proto.Group.{Codec, GroupError, Member, canonical_json}
use aigenora.Proto.Group.Checkpoints.{is_object}
use aigenora.Proto.Group.Authority.{Hooks, Authority, Normalized, normalize_result}
use aigenora.Proto.Group.Authority.Build.{is_active}
use aigenora.Proto.Group.Authority.Frames.{build_envelopes}

abbrev pub Envelopes : Type 0
Envelopes = Assoc (Assoc Value)

abbrev pub Action : Type 0 → Type 0
Action A = Exec GroupError Authority A

-- A call that reads the state only.
abbrev pub run : {A : Type 0} → (Authority → Result GroupError A) → Action A
run f a = (f a, a)

unfoldable pub find_member : String → List Member → Option Member
find_member key [] = none
find_member key (m ∷ ms) = if str_eq m.public_key key then some m else find_member key ms

-- `member`
unfoldable pub member : Codec → String → Authority → Option Member
unfolding find_member
member c key a = find_member (c.lower key) a.members

abbrev pub only_active : Option Member → Option Member
only_active none = none
only_active (some m) = if is_active m then some m else none

abbrev or_zero : Option ℕ → ℕ
or_zero none = 0
or_zero (some n) = n

abbrev pub count_of : String → Assoc ℕ → ℕ
count_of key l = or_zero (lookup key l)

-- An integer that is no bool and at least 1.
abbrev pub as_positive : Value → Option ℕ
as_positive (int (pos zero)) = none
as_positive (int (pos (suc n))) = some (suc n)
as_positive _ = none

pub data Receipt : Type 0 where
  duplicate : ℕ → ℕ → Receipt
  accepted : ℕ → ℕ → String → Bool → Receipt

abbrev pub last_envelopes : Authority → Envelopes
last_envelopes a = elim a.published [ none ↦ [] | some p ↦ p.envelopes ]

unfoldable pub take_result : Normalized → Authority → Authority
take_result n a = record a { state = n.state; completed = n.completed; outcome = n.outcome }

-- The state with the result and the actor's number in it, in which the frame is built.
abbrev pub counted : String → ℕ → Normalized → Authority → Authority
counted actor n r a = record (take_result r a) {
  last_client_seq = insert actor n a.last_client_seq;
}

-- The checks of an action and the hook's result.
unfoldable pub handle_action :
    Codec → Hooks → Member → Value → Authority → Result GroupError Normalized
unfolding canonical_json normalize_result
handle_action c hooks m action a = do
  raise_if (not (is_object action)) Group.action_object
  text ← canonical_json c action
  raise_if (ltb_ℤ a.config.max_action_bytes (pos (len text))) Group.action_too_large
  result ← hooks.handle (obj (from_entries a.state)) m action
  normalize_result a.config result

abbrev pub with_receipt :
    ℕ
    → Result GroupError Envelopes × Authority
    → Result GroupError (Envelopes × Receipt) × Authority
with_receipt n (err x, a) = (err x, a)
with_receipt n (ok envelopes, a) = (ok (envelopes, accepted n a.seq a.previous_hash a.completed), a)

-- The part of `apply_input` behind the hook's result.
unfoldable pub count_input :
    Codec → Hooks → String → ℕ → Result GroupError Normalized → Action (Envelopes × Receipt)
unfolding build_envelopes take_result insert
count_input c hooks actor n (err x) a = (err x, a)
count_input c hooks actor n (ok r) a =
    with_receipt n (build_envelopes c hooks "frame" r.events r.direct true (counted actor n r a))

-- The three cases of a client's number against the actor's last one.
unfoldable pub take_input :
    Codec → Hooks → String → Member → ℕ → Value → ℕ → Action (Envelopes × Receipt)
unfolding handle_action count_input
take_input c hooks actor m n action previous a =
    if leb n previous
    then (ok (last_envelopes a, duplicate n a.seq), a)
    else if n == previous + 1
    then count_input c hooks actor n (handle_action c hooks m action a) a
    else (err Group.client_seq_gap, a)

abbrev pub or_error : {A : Type 0} → Option A → GroupError → Result GroupError A
or_error none x = err x
or_error (some v) x = ok v

-- The first checks of `apply_input`: the actor and its number.
unfoldable pub check_input : Codec → String → Value → Authority → Result GroupError (Member × ℕ)
unfolding member
check_input c actor client_seq a = do
  raise_if a.completed Group.already_completed
  m ← or_error (only_active (member c actor a)) Group.actor_inactive
  n ← or_error (as_positive client_seq) Group.client_seq_positive
  ok (m, n)

abbrev pub take_checked :
    Codec → Hooks → String → Value → Result GroupError (Member × ℕ) → Action (Envelopes × Receipt)
take_checked c hooks actor action (err x) a = (err x, a)
take_checked c hooks actor action (ok (m, n)) a =
    take_input c hooks actor m n action (count_of actor a.last_client_seq) a

-- `apply_input`
unfoldable pub apply_input : Codec → Hooks → String → Value → Value → Action (Envelopes × Receipt)
unfolding check_input take_input
apply_input c hooks actor client_seq action a =
    take_checked c hooks actor action (check_input c actor client_seq a) a
