-- ===== src/Collab/Store/Laws.antt =====
-- What the statements of aigenora/collab/store.py do to the row of a key.
use mathlib.Core.Option
use aigenora.Prelude.{
  ℕ, String, ◌≡◌, refl, Bool, true, false, none, some, List, [], ◌∷◌, ◌++◌, arith, eq_iff, ◌∙◌,
  Bool-cases, inl, inr,
}
use aigenora.Collab.Store.Rows.{Task, Update, apply_update, apply_updates}
use aigenora.Collab.Store.States.{TaskState}
use aigenora.Collab.Store.Tables.{has_key, find, update_where}
use aigenora.Collab.Store.{move_task}

module _ {A : Type 0} where
  pub find-append :
      (p : A → Bool) (xs ys : List A)
      → find p (xs ++ ys) ≡ elim (find p xs) [ some x ↦ some x | none ↦ find p ys ]
  unfolding find
  find-append p [] ys = refl
  find-append p (x ∷ xs) ys = ground (arith, find-append p xs ys)

  -- A test that an update keeps finds the updated row.
  pub find-update_where_self :
      (p : A → Bool) (f : A → A) (xs : List A)
      → ((x : A) → p (f x) ≡ p x)
      → find p (update_where p f xs) ≡ Option.map f (find p xs)
  unfolding find update_where
  find-update_where_self p f [] k = refl
  find-update_where_self p f (x ∷ xs) k = ground (arith, k x, find-update_where_self p f xs k)

  -- A row that no updated row can be is found as before.
  pub find-update_where_ne :
      (p q : A → Bool) (f : A → A) (xs : List A)
      → ((x : A) → q (f x) ≡ q x)
      → ((x : A) → p x ≡ true → q x ≡ false)
      → find q (update_where p f xs) ≡ find q xs
  unfolding find update_where
  find-update_where_ne p q f [] k d = refl
  find-update_where_ne p q f (x ∷ xs) k d =
      ground (arith, k x, d x, find-update_where_ne p q f xs k d)

  pub find_holds : (p : A → Bool) (xs : List A) (x : A) → find p xs ≡ some x → p x ≡ true
  unfolding find
  find_holds p [] x h = cc
  find_holds p (y ∷ ys) x h = ground (arith, find_holds p ys x)

pub has_key-apply_updates :
    (source id : String) (us : List Update) (t : Task)
    → has_key source id (apply_updates us t) ≡ has_key source id t
unfolding has_key apply_updates
has_key-apply_updates source id [] t = refl
has_key-apply_updates source id (u ∷ us) t =
    has_key-apply_updates source id us (apply_update u t) ∙ keeps u
  where
    keeps : (u : Update) → has_key source id (apply_update u t) ≡ has_key source id t
    keeps (Update.set_result_state v) = refl
    keeps (Update.set_result_summary v) = refl
    keeps (Update.set_result_manifest v) = refl
    keeps (Update.set_result_acked n) = refl
    keeps (Update.set_input_request v) = refl

-- The columns that `extra_updates` cannot reach.
pub record Keeps (t t' : Task) : Type 0 where
  pub state : t'.state ≡ t.state
  pub revision : t'.revision ≡ t.revision
  pub digest : t'.request_digest ≡ t.request_digest
  pub updated_at : t'.updated_at ≡ t.updated_at

pub apply_updates-Keeps : (us : List Update) (t : Task) → Keeps t (apply_updates us t)
unfolding apply_updates
apply_updates-Keeps [] t = record {
  state = refl;
  revision = refl;
  digest = refl;
  updated_at = refl;
}
apply_updates-Keeps (Update.set_result_state v ∷ us) t =
    let k = apply_updates-Keeps us (record t { result_state = some v }) in
    record { state = k.state; revision = k.revision; digest = k.digest; updated_at = k.updated_at }
apply_updates-Keeps (Update.set_result_summary v ∷ us) t =
    let k = apply_updates-Keeps us (record t { result_summary = some v }) in
    record { state = k.state; revision = k.revision; digest = k.digest; updated_at = k.updated_at }
apply_updates-Keeps (Update.set_result_manifest v ∷ us) t =
    let k = apply_updates-Keeps us (record t { result_manifest = some v }) in
    record { state = k.state; revision = k.revision; digest = k.digest; updated_at = k.updated_at }
apply_updates-Keeps (Update.set_result_acked n ∷ us) t =
    let k = apply_updates-Keeps us (record t { result_acked = n }) in
    record { state = k.state; revision = k.revision; digest = k.digest; updated_at = k.updated_at }
apply_updates-Keeps (Update.set_input_request v ∷ us) t =
    let k = apply_updates-Keeps us (record t { input_request = v }) in
    record { state = k.state; revision = k.revision; digest = k.digest; updated_at = k.updated_at }

pub has_key-move_task :
    (source id : String) (new : TaskState) (at : ℕ) (us : List Update) (t : Task)
    → has_key source id (move_task new at us t) ≡ has_key source id t
unfolding move_task
has_key-move_task source id new at us t = rw has_key-apply_updates (unfold has_key in refl)

-- Two keys that differ keep no row in common.
pub keys_disjoint :
    (s i s' i' : String)
    → (s ≡ s' → i ≡ i' → ⊥)
    → (t : Task) → has_key s i t ≡ true
    → has_key s' i' t ≡ false
unfolding has_key
keys_disjoint s i s' i' d t h = elim (Bool-cases (has_key s' i' t)) [
  | inr e ↦ e
  | inl e ↦ absurd (
      d (ground (arith, eq_iff t.source_device s, eq_iff t.source_device s'))
        (ground (arith, eq_iff t.task_id i, eq_iff t.task_id i')))
]
