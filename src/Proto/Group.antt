-- ===== src/Proto/Group.antt =====
-- aigenora/proto/group.py: the wire format of an authoritative group, the leader's authority and the
-- member's replica. The parts that both sides use stand here: the checks on JSON values, hashes,
-- members and checkpoint states. Texts are Python's without lone surrogates.
pub mod Checkpoints
pub mod Replica
pub mod Authority
pub mod Sync
mod Sample
mod Runs
mod Tests
mod EdgeTests
use Prim.Native.Char.{code}
use Prim.Native.String.{len, count}
use aigenora.Prelude.{
  ℕ, zero, suc, ◌+◌, String, Bool, true, false, not, ◌&&◌, ◌||◌, Option, none, some, List, [], ◌∷◌,
  str_eq, ltb, leb, ◌==◌, if◌then◌else◌, Result, ok, err, ◌>>=◌, ◌>>◌, raise_if, length,
}
use aigenora.Prelude.Int.{ℤ, pos, negsuc}
use aigenora.Proto.JsonDelta.Dict.{Assoc, lookup, contains, insert}
use aigenora.Proto.JsonDelta.Json.{
  Value, null, bool, int, float, str, arr, obj, Elements, no_elements, element, Members, no_members,
  member, items, from_items, entries, from_entries, eq,
}
use aigenora.Proto.JsonDelta.Apply.{keys_are}

-- What the code calls: `json.dumps` with sorted keys, `str()`, `int()` (`none` where it raises),
-- `str.lower`, SHA-256 in hex, and
-- Ed25519 over hex keys and signatures (`sign_raw` and `verify_raw` of aigenora/engine/keys.py).
pub record Codec : Type 0 where
  pub dumps : Value → String
  pub text_of : Value → String
  pub int_of : Value → Option ℤ
  pub lower : String → String
  pub sha256 : String → String
  pub sign : String → String → String
  pub verify : String → String → String → Bool

-- The messages of `GroupProtocolError`, and the exception of `verify_raw`.
pub data GroupError : Type 0 where
  nesting float_value string_limit array_limit object_limit : GroupError
  member_object public_key_invalid seat_invalid not_unique : GroupError
  state_missing state_fields members_array client_seq_invalid recovery_mode_invalid : GroupError
  protocol_state_object completed_invalid outcome_invalid : GroupError
  envelope_object group_mismatch leader_mismatch epoch_mismatch viewer_mismatch : GroupError
  wire_version_mismatch frame_hash_mismatch events_hash_mismatch view_hash_mismatch : GroupError
  signature_missing signature_invalid seq_invalid moved_backwards sequence_gap : GroupError
  chain_mismatch first_not_bootstrap : GroupError
  checkpoint_delta_array checkpoint_full_invalid checkpoint_bootstrap_full checkpoint_no_base :
      GroupError
  checkpoint_delta_invalid checkpoint_mode_invalid checkpoint_hash_mismatch : GroupError
  checkpoint_uncertified recovery_hash_mismatch checkpoint_signature_missing : GroupError
  certificate_invalid : GroupError
  view_delta_array view_full_invalid view_bootstrap_full view_no_base view_delta_invalid :
      GroupError
  view_object view_mode_invalid view_state_mismatch epoch_not_increasing : GroupError
  already_completed actor_inactive client_seq_positive client_seq_gap action_object : GroupError
  action_too_large group_full seat_occupied unknown_member : GroupError
  result_object result_state result_events too_many_events result_direct : GroupError
  result_completed result_outcome snapshot_object hook_view_object hook_raised int_raised :
      GroupError

abbrev pub max_json_depth : ℕ
max_json_depth = 16

abbrev pub max_container_items : ℕ
max_container_items = 1024

abbrev pub max_string_bytes : ℕ
max_string_bytes = 65536

-- A string of `_validate_json`, at a depth.
unfoldable pub validate_text : ℕ → String → Result GroupError (Unit {0})
validate_text depth text = do
  raise_if (ltb max_json_depth depth) nesting
  raise_if (ltb max_string_bytes (len text)) string_limit

-- `_validate_json`
unfoldable mutual
  pub validate_json : ℕ → Value → Result GroupError (Unit {0})
  validate_json depth null = raise_if (ltb max_json_depth depth) nesting
  validate_json depth (bool b) = raise_if (ltb max_json_depth depth) nesting
  validate_json depth (int n) = raise_if (ltb max_json_depth depth) nesting
  validate_json depth (float bits) = raise_if (ltb max_json_depth depth) nesting >> err float_value
  validate_json depth (str text) = validate_text depth text
  validate_json depth (arr xs) = do
    raise_if (ltb max_json_depth depth) nesting
    raise_if (ltb max_container_items (length (items xs))) array_limit
    validate_items (depth + 1) xs
  validate_json depth (obj fs) = do
    raise_if (ltb max_json_depth depth) nesting
    raise_if (ltb max_container_items (length (entries fs))) object_limit
    validate_members (depth + 1) fs

  pub validate_items : ℕ → Elements → Result GroupError (Unit {0})
  validate_items depth no_elements = ok tt
  validate_items depth (element v xs) = do validate_json depth v; validate_items depth xs

  pub validate_members : ℕ → Members → Result GroupError (Unit {0})
  validate_members depth no_members = ok tt
  validate_members depth (member k v fs) = do
    validate_text depth k
    validate_json depth v
    validate_members depth fs

-- `d.get(key)`
unfoldable pub get : Assoc Value → String → Value
get d k = elim (lookup k d) [ none ↦ null | some v ↦ v ]

-- `bool(value)`
unfoldable pub truthy : Value → Bool
truthy null = false
truthy (bool b) = b
truthy (int n) = not (eq (int n) (int (pos 0)))
truthy (float bits) = not (eq (float bits) (int (pos 0)))
truthy (str text) = not (str_eq text "")
truthy (arr xs) = not (length (items xs) == 0)
truthy (obj fs) = not (length (entries fs) == 0)

-- `a or b` of a value and a text that `str` is taken of.
unfoldable pub text_or : Codec → Value → String → String
unfolding truthy
text_or c v text = if truthy v then c.text_of v else text

-- `ch in "0123456789abcdef"`, and with the capitals too.
unfoldable pub all_hex : Bool → String → Bool
all_hex capitals String.[] = true
all_hex capitals (String.◌∷◌ ch rest) =
    ((leb 48 (code ch) && leb (code ch) 57)
      || (leb 97 (code ch) && leb (code ch) 102)
      || (capitals && leb 65 (code ch) && leb (code ch) 70))
    && all_hex capitals rest

-- `_is_hash`
unfoldable pub is_hash : Codec → Value → Bool
unfolding all_hex
is_hash c (str text) = count text == 64 && all_hex false (c.lower text)
is_hash c _ = false

-- `canonical_json`; after `_validate_json` no value is left that `json.dumps` refuses.
unfoldable pub canonical_json : Codec → Value → Result GroupError String
canonical_json c v = validate_json 0 v >> ok (c.dumps v)

unfoldable pub json_hash : Codec → Value → Result GroupError String
unfolding canonical_json
json_hash c v = do text ← canonical_json c v; ok (c.sha256 text)

-- A dictionary that `normalize_members` returns.
pub record Member : Type 0 where
  pub member_id : String
  pub public_key : String
  pub seat : ℕ
  pub status : String

unfoldable pub member_value : Member → Value
member_value m = obj (
    from_entries (
      ("member_id", str m.member_id)
      ∷ ("public_key", str m.public_key)
      ∷ ("seat", int (pos m.seat))
      ∷ ("status", str m.status)
      ∷ []))

abbrev pub is_key : Value → Option String
is_key (str text) = if count text == 64 && all_hex true text then some text else none
is_key _ = none

abbrev pub is_seat : Value → Option ℕ
is_seat (int (pos n)) = if ltb 31 n then none else some n
is_seat _ = none

unfoldable pub any_text : String → List String → Bool
any_text t [] = false
any_text t (u ∷ us) = str_eq u t || any_text t us

unfoldable pub any_number : ℕ → List ℕ → Bool
any_number n [] = false
any_number n (k ∷ ks) = k == n || any_number n ks

-- The checks of one member against the keys and seats before it, and what is appended.
unfoldable pub normalize_member :
    Codec → List String → List ℕ → Assoc Value → Option String → Option ℕ → Result GroupError Member
unfolding get text_or any_text any_number
normalize_member c identities seats raw none seat = err public_key_invalid
normalize_member c identities seats raw (some key) none = err seat_invalid
normalize_member c identities seats raw (some key) (some seat) = do
  raise_if (any_text key identities || any_number seat seats) not_unique
  ok (record {
    member_id = text_or c (get raw "member_id") key;
    public_key = c.lower key;
    seat = seat;
    status = text_or c (get raw "status") "active";
  })

unfoldable pub by_seat : Member → List Member → List Member
by_seat m [] = m ∷ []
by_seat m (n ∷ ns) = if leb (m.seat) (n.seat) then m ∷ n ∷ ns else n ∷ by_seat m ns

-- `sort(key=lambda item: item["seat"])`; `by_seat` keeps the order of equal seats.
unfoldable pub sort_members : List Member → List Member
unfolding by_seat
sort_members [] = []
sort_members (m ∷ ms) = by_seat m (sort_members ms)
