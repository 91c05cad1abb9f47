-- ===== src/Proto/Group/Authority/Membership.antt =====
-- Membership, the leader's change and acknowledgements of `GroupAuthority` in
-- aigenora/proto/group.py.
use aigenora.Prelude.{
  ℕ, String, Bool, true, false, not, ◌&&◌, ◌||◌, Option, none, some, List, [], ◌∷◌, ◌++◌, str_eq,
  ltb, ◌==◌, if◌then◌else◌, Result, ok, err, length,
}
use aigenora.Prelude.Int.{ℤ, pos, ltb_ℤ}
use aigenora.Prelude.Exec.{gets, or_raise, modify, raise_when, ◌>>=◌, ◌>>◌}
use aigenora.Proto.JsonDelta.Dict.{lookup, insert}
use aigenora.Proto.JsonDelta.Json.{Value, int, obj, from_entries}
use aigenora.Proto.Group
use aigenora.Proto.Group.{Codec, GroupError, Member, sort_members}
use aigenora.Proto.Group.Checkpoints.{normalize_members}
use aigenora.Proto.Group.Authority.{Hooks, Checkpoint, Authority, normalize_result}
use aigenora.Proto.Group.Authority.Frames.{build_envelopes}
use aigenora.Proto.Group.Authority.Inputs.{Envelopes, Action, run, member, only_active, take_result}

unfoldable pub seat_taken : ℕ → List Member → Bool
seat_taken seat [] = false
seat_taken seat (m ∷ ms) = m.seat == seat || seat_taken seat ms

-- `existing.update(normalized)` of the first member with a key, then its status.
unfoldable pub rejoin : Member → List Member → List Member
rejoin new [] = []
rejoin new (m ∷ ms) =
    if str_eq m.public_key new.public_key
    then record new { status = "active" } ∷ ms
    else m ∷ rejoin new ms

unfoldable pub enter : Member → Option Member → Action (Unit {0})
unfolding seat_taken rejoin sort_members
enter new (some existing) = modify (λ a. record a { members = rejoin new a.members })
enter new none = do
  a ← gets (λ a. a)
  raise_when (not (ltb_ℤ (pos (length a.members)) a.config.max_participants)) Group.group_full
  raise_when (seat_taken new.seat a.members) Group.seat_occupied
  modify (λ b. record b { members = sort_members (b.members ++ new ∷ []) })

abbrev first_of : List Member → Result GroupError Member
first_of [] = err Group.member_object
first_of (m ∷ ms) = ok m

-- `add_member`; a result's completion is not taken over here.
unfoldable pub add_member : Codec → Hooks → Value → ℤ → Action Envelopes
unfolding normalize_members member enter normalize_result build_envelopes
add_member c hooks raw version = do
  ms ← run (λ a. normalize_members c (raw ∷ []))
  new ← run (λ a. first_of ms)
  existing ← gets (member c new.public_key)
  enter new existing
  modify (λ a. record a { membership_version = version })
  result ← run (λ a. hooks.member_joined (obj (from_entries a.state)) new)
  normalized ← run (λ a. normalize_result a.config result)
  modify (λ a. record a { state = normalized.state })
  build_envelopes c hooks "membership" normalized.events normalized.direct true

-- `member["status"] = "left"` of the first member with a key.
unfoldable pub leave : String → List Member → List Member
leave key [] = []
leave key (m ∷ ms) =
    if str_eq m.public_key key then record m { status = "left" } ∷ ms else m ∷ leave key ms

-- `remove_member`
unfoldable pub remove_member : Codec → Hooks → String → ℤ → String → Action Envelopes
unfolding member leave normalize_result take_result build_envelopes
remove_member c hooks key version reason = do
  found ← gets (member c key)
  m ← or_raise found Group.unknown_member
  modify (λ a. record a { members = leave m.public_key a.members; membership_version = version })
  result ←
      run
        (λ a. hooks.member_left (obj (from_entries a.state)) (record m { status = "left" }) reason)
  normalized ← run (λ a. normalize_result a.config result)
  modify (take_result normalized)
  build_envelopes c hooks "membership" normalized.events normalized.direct true

-- `leader_changed`
unfoldable pub leader_changed : Codec → Hooks → String → String → Action Envelopes
unfolding normalize_result build_envelopes
leader_changed c hooks old new = do
  result ← run (λ a. hooks.on_leader_changed (obj (from_entries a.state)) old new)
  normalized ← run (λ a. normalize_result a.config result)
  modify (λ a. record a { state = normalized.state })
  build_envelopes c hooks "epoch_start" normalized.events normalized.direct true

unfoldable pub checkpoint_at : ℕ → List (ℕ × Checkpoint) → Option Checkpoint
checkpoint_at seq [] = none
checkpoint_at seq ((n, k) ∷ rest) = if n == seq then some k else checkpoint_at seq rest

abbrev pub hash_agrees : Option String → String → Bool
hash_agrees none hash = true
hash_agrees (some claimed) hash = str_eq claimed hash

-- `seq < self._acknowledged_seq.get(public_key, -1)`
abbrev pub behind : ℕ → Option ℕ → Bool
behind seq none = false
behind seq (some n) = ltb seq n

abbrev pub newest : ℕ → Checkpoint → Option Checkpoint → Option Checkpoint
newest seq k none = some k
newest seq k (some old) = if ltb old.seq seq then some k else some old

-- `acknowledge` on the checkpoint of the number.
abbrev pub acknowledge_checkpoint :
    String → ℕ → String → Option String → Option Checkpoint → Authority → Bool × Authority
acknowledge_checkpoint key seq frame hash none a = (false, a)
acknowledge_checkpoint key seq frame hash (some k) a =
    if str_eq k.frame_hash frame
      && hash_agrees hash k.checkpoint_hash
      && not (behind seq (lookup key a.acknowledged_seq))
    then (
      true,
      record a {
        acknowledged_seq = insert key seq a.acknowledged_seq;
        replicated_checkpoint = newest seq k a.replicated_checkpoint;
      },
    )
    else (false, a)

-- An integer that is no bool and at least 0, which every number of the history is.
abbrev pub as_number : Value → Option ℕ
as_number (int (pos n)) = some n
as_number _ = none

abbrev pub acknowledge_member :
    String → String → Option String → Option ℕ → Option Member → Authority → Bool × Authority
acknowledge_member key frame hash none found a = (false, a)
acknowledge_member key frame hash (some seq) none a = (false, a)
acknowledge_member key frame hash (some seq) (some m) a =
    if str_eq key a.leader_public_key
    then (false, a)
    else acknowledge_checkpoint key seq frame hash (checkpoint_at seq a.checkpoint_history) a

-- `acknowledge`
unfoldable pub acknowledge :
    Codec → String → Value → String → Option String → Authority → Bool × Authority
unfolding member checkpoint_at
acknowledge c key seq frame hash a =
    acknowledge_member key frame hash (as_number seq) (only_active (member c key a)) a
