-- ===== src/Proto/Group/Sample.antt =====
-- A small group: a codec, a game with one counter, a leader and a guest.
use mathlib.Core.Path.{subst}
use mathlib.Core.Option.{some-injective}
use aigenora.Prelude.{
  ℕ, String, ◌≡◌, refl, sym, ◌∙◌, true, false, Option, none, some, [], ◌∷◌, ok, err, Result, str_eq,
}
use aigenora.Prelude.Int.{ℤ, pos}
use aigenora.Proto.JsonDelta.Dict.{Assoc, lookup}
use aigenora.Proto.JsonDelta.Json.{Value, int, str, arr, obj, no_elements, from_entries}
use aigenora.Proto.Group.{Codec, GroupError, Member, is_hash, all_hex}
use aigenora.Proto.Group.Replica.{Replica, new_replica}
use aigenora.Proto.Group.Replica.Apply.{apply}
use aigenora.Proto.Group.Authority.{Hooks, GroupConfig, Published, Authority, state_entries}
use aigenora.Proto.Group.Authority.Frames.{build_envelopes}
use aigenora.Proto.Group.Authority.Inputs.{Envelopes, Receipt, apply_input}
use aigenora.Proto.Group.Authority.Bootstraps.{bootstrap_envelope}
use aigenora.Proto.Group.Sync.{Hashes, KeyPair}
use aigenora.Proto.Group.Sync.Live.{IntOf}
use aigenora.Proto.Group.Sync.Delivery.{Lossless, Exact}

abbrev pub zero_hash : String
zero_hash = "0000000000000000000000000000000000000000000000000000000000000000"

abbrev pub leader_key : String
leader_key = "aaaaaaaaaaaaaaaaaaaaaaaaaaaaaaaaaaaaaaaaaaaaaaaaaaaaaaaaaaaaaaaa"

abbrev pub guest_key : String
guest_key = "bbbbbbbbbbbbbbbbbbbbbbbbbbbbbbbbbbbbbbbbbbbbbbbbbbbbbbbbbbbbbbbb"

abbrev pub to_int : Value → Option ℤ
to_int (int n) = some n
to_int _ = none

abbrev pub to_text : Value → String
to_text (str text) = text
to_text _ = "value"

-- Every text has the same hash, and a signature is one word.
abbrev pub codec : Codec
codec = record {
  dumps = λ v. "text";
  text_of = to_text;
  int_of = to_int;
  lower = λ t. t;
  sha256 = λ t. zero_hash;
  sign = λ k t. "signed";
  verify = λ k t s. str_eq s "signed";
}

abbrev pub state_with : ℕ → Value
state_with n = obj (from_entries (("count", int (pos n)) ∷ []))

abbrev pub hooks : Hooks
hooks = record {
  handle = λ state m action. ok (obj (from_entries (("state", state_with 1) ∷ [])));
  member_joined = λ state m. ok (obj (from_entries (("state", state) ∷ [])));
  member_left = λ state m reason. ok (obj (from_entries (("state", state) ∷ [])));
  on_leader_changed = λ state old new. ok (obj (from_entries (("state", state) ∷ [])));
  recovery_snapshot = λ state. ok state;
  view = λ state m. ok (obj (from_entries (("state", state) ∷ ("seat", int (pos m.seat)) ∷ [])));
}

abbrev pub seated : String → ℕ → Member
seated key seat = record { member_id = key; public_key = key; seat = seat; status = "active" }

abbrev pub small_config : GroupConfig
small_config = record {
  max_participants = pos 4;
  recovery_mode = "exact";
  checkpoint_every_events = 20;
  max_action_bytes = pos 8192;
  max_events_per_action = pos 64;
}

abbrev pub fresh : Authority
fresh = record {
  group_id = "group";
  leader_public_key = leader_key;
  leader_epoch = pos 1;
  membership_version = pos 1;
  members = seated leader_key 0 ∷ seated guest_key 1 ∷ [];
  private_key = "private";
  config = small_config;
  state = ("count", int (pos 0)) ∷ [];
  seq = 0;
  previous_hash = zero_hash;
  last_client_seq = [];
  completed = false;
  outcome = none;
  published = none;
  checkpoint_history = [];
  acknowledged_seq = [];
  replicated_checkpoint = none;
}

abbrev pub at_start : Authority
at_start = (build_envelopes codec hooks "snapshot" (arr no_elements) [] false fresh).1

abbrev pub or_empty : Result GroupError (Option (Assoc Value)) → Assoc Value
or_empty (ok (some e)) = e
or_empty _ = []

abbrev pub first_envelope : Assoc Value
first_envelope = or_empty (bootstrap_envelope codec hooks guest_key at_start)

abbrev pub newcomer : Replica
newcomer = new_replica codec "group" guest_key leader_key (pos 1)

abbrev pub joined : Replica
joined = (apply codec true (obj (from_entries first_envelope)) newcomer).1

abbrev pub move : Value
move = obj (from_entries (("move", str "up") ∷ []))

abbrev pub after_input : Authority
after_input = (apply_input codec hooks guest_key (int (pos 1)) move at_start).1

abbrev pub or_no_envelopes : Result GroupError (Envelopes × Receipt) → Envelopes
or_no_envelopes (ok (envelopes, receipt)) = envelopes
or_no_envelopes (err x) = []

abbrev pub or_nothing : Result GroupError Envelopes → Envelopes
or_nothing (ok envelopes) = envelopes
or_nothing (err x) = []

abbrev pub after_move : Envelopes
after_move = or_no_envelopes (apply_input codec hooks guest_key (int (pos 1)) move at_start).0

abbrev pub or_no_entries : Option (Assoc Value) → Assoc Value
or_no_entries none = []
or_no_entries (some d) = d

abbrev pub second_envelope : Assoc Value
second_envelope = or_no_entries (lookup guest_key after_move)

abbrev published_of : Authority → Option Published
published_of a = a.published

pub codec-Hashes : Hashes codec
unfolding is_hash all_hex
codec-Hashes t = refl

pub codec_keys : KeyPair codec "private" leader_key
codec_keys t = refl

pub codec_int : IntOf codec
codec_int n = refl

abbrev pub first_envelopes : Envelopes
first_envelopes =
    or_nothing (build_envelopes codec hooks "snapshot" (arr no_elements) [] false fresh).0

-- The deltas between two published frames, at the frames themselves.
abbrev pub ExactAt : Published → Published → String → Type 0
ExactAt p p' viewer =
    (v : Assoc Value) × (v' : Assoc Value) × (lookup viewer p.views ≡ some v)
    × (lookup viewer p'.views ≡ some v')
    × Exact (state_entries p.checkpoint.state) (state_entries p'.checkpoint.state)
    × Exact v v'

pub Exact-views :
    (p p' : Published) (viewer : String)
    → ExactAt p p' viewer
    → Exact (state_entries p.checkpoint.state) (state_entries p'.checkpoint.state)
      × ((w w' : Assoc Value)
          → lookup viewer p.views ≡ some w
          → lookup viewer p'.views ≡ some w'
          → Exact w w')
Exact-views p p' viewer (v, v', found, found', exact, Exact-view) = (
  exact,
  λ w w' g g'.
      subst (λ t. Exact t w') (some-injective v w (sym found ∙ g))
        (subst (Exact v) (some-injective v' w' (sym found' ∙ g')) Exact-view),
)

pub Lossless-ExactAt :
    (a a' : Authority) (viewer : String) (sent : Assoc Value) (p p' : Published)
    → a.published ≡ some p
    → a'.published ≡ some p'
    → ExactAt p p' viewer
    → Lossless a a' viewer sent
Lossless-ExactAt a a' viewer sent p p' e e' exact q q' h h' =
    let (states, views) = Exact-views q q' viewer (
      subst (λ t. ExactAt t q' viewer) (some-injective p q (sym e ∙ h))
        (subst (λ t. ExactAt p t viewer) (some-injective p' q' (sym e' ∙ h')) exact)) in
    (λ _. states, λ _. views)
