-- ===== src/Proto/Group/Authority/Bootstraps.antt =====
-- The bootstraps of `GroupAuthority` in aigenora/proto/group.py.
use aigenora.Prelude.{String, Option, none, some, List, [], ◌∷◌, Result, ok, ◌>>=◌, if◌then◌else◌}
use aigenora.Proto.JsonDelta.Dict.{Assoc, insert}
use aigenora.Proto.JsonDelta.Json.{Value, arr, no_elements}
use aigenora.Proto.Group.{Codec, GroupError, Member}
use aigenora.Proto.Group.Authority.{Hooks, Published, Authority}
use aigenora.Proto.Group.Authority.Build.{full, build_member_envelope, member_view, is_active}
use aigenora.Proto.Group.Authority.Inputs.{Envelopes, member, only_active}

unfoldable pub bootstrap_for :
    Codec
    → Hooks
    → Authority
    → String
    → Option Published
    → Option Member
    → Result GroupError (Option (Assoc Value))
unfolding member_view build_member_envelope
bootstrap_for c hooks a key none found = ok none
bootstrap_for c hooks a key (some p) none = ok none
bootstrap_for c hooks a key (some p) (some m) = do
  view ← member_view hooks a m
  envelope ←
      build_member_envelope c a.private_key p.core p.checkpoint.frame_hash p.events (c.lower key)
        view full (arr no_elements) p.checkpoint full
  ok (some envelope)

-- `bootstrap_envelope`
unfoldable pub bootstrap_envelope :
    Codec → Hooks → String → Authority → Result GroupError (Option (Assoc Value))
unfolding member bootstrap_for
bootstrap_envelope c hooks key a =
    bootstrap_for c hooks a key a.published (only_active (member c key a))

abbrev with_envelope : String → Option (Assoc Value) → Envelopes → Envelopes
with_envelope key none done = done
with_envelope key (some envelope) done = insert key envelope done

-- The loop of `bootstrap_envelopes`, with the envelopes so far.
unfoldable pub bootstrap_from :
    Codec → Hooks → Authority → List Member → Envelopes → Result GroupError Envelopes
unfolding bootstrap_envelope insert
bootstrap_from c hooks a [] done = ok done
bootstrap_from c hooks a (m ∷ ms) done =
    if is_active m
    then bootstrap_envelope c hooks m.public_key a
      >>= (λ found. bootstrap_from c hooks a ms (with_envelope m.public_key found done))
    else bootstrap_from c hooks a ms done

unfoldable pub bootstrap_envelopes : Codec → Hooks → Authority → Result GroupError Envelopes
unfolding bootstrap_from
bootstrap_envelopes c hooks a = bootstrap_from c hooks a a.members []
