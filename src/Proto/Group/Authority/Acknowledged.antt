-- ===== src/Proto/Group/Authority/Acknowledged.antt =====
-- What `acknowledge` of `GroupAuthority` in aigenora/proto/group.py records.
use aigenora.Prelude.{ℕ, ◌≤◌, String, ◌≡◌, Bool, true, false, Option, none, some, str_eq, ◌⊎◌}
use aigenora.Proto.JsonDelta.Dict.{lookup}
use aigenora.Proto.Group.{Codec, Member}
use aigenora.Proto.Group.Authority.{Authority, Checkpoint}
use aigenora.Proto.Group.Authority.Inputs.{member, only_active}
use aigenora.Proto.Group.Authority.Membership.{checkpoint_at}

-- A number that is at least another, where there is one.
abbrev pub NotBefore : Option ℕ → Option ℕ → Type 0
NotBefore none n = Unit
NotBefore (some m) none = ⊥
NotBefore (some m) (some n) = m ≤ n

abbrev pub seq_of : Option Checkpoint → Option ℕ
seq_of none = none
seq_of (some k) = some k.seq

-- Each checkpoint of the history is kept under its own number.
abbrev pub Numbered : Authority → Type 0
Numbered a = (n : ℕ) (k : Checkpoint) → checkpoint_at n a.checkpoint_history ≡ some k → k.seq ≡ n

-- A checkpoint of the history, for a member that is not the leader.
abbrev pub Records : String → String → ℕ → Authority → Authority → Type 0
Records key frame seq a a' =
    (k : Checkpoint) × (checkpoint_at seq a.checkpoint_history ≡ some k)
    × (k.frame_hash ≡ frame)
    × (lookup key a'.acknowledged_seq ≡ some seq)
    × ((j : String) → NotBefore (lookup j a.acknowledged_seq) (lookup j a'.acknowledged_seq))
    × NotBefore (seq_of a.replicated_checkpoint) (seq_of a'.replicated_checkpoint)
    × NotBefore (some seq) (seq_of a'.replicated_checkpoint)

-- What a call of `acknowledge` does.
abbrev pub Acknowledges : Codec → String → Option ℕ → String → Authority → Bool × Authority → Type 0
Acknowledges c key given frame a result =
    ((result.0 ≡ false) × (result.1 ≡ a))
    ⊎ ((m : Member) × (seq : ℕ) × (result.0 ≡ true)
        × (given ≡ some seq)
        × (only_active (member c key a) ≡ some m)
        × (str_eq key a.leader_public_key ≡ false)
        × Records key frame seq a result.1)
