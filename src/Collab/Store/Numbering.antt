-- ===== src/Collab/Store/Numbering.antt =====
-- The event log of aigenora/collab/store.py: each task's events are numbered 1, 2, 3, … in the
-- order in which they were appended, and `events_after` pages through them.
use Prim.Native.Nat.{max}
use mathlib.Core.List.{append-nil}
use aigenora.Prelude.{
  ℕ, zero, suc, ◌+◌, ◌-◌, ◌<◌, String, ◌≡◌, refl, Bool, true, ◌&&◌, none, List, [], ◌∷◌, ◌++◌, ap,
  arith, eq_iff, length, drop, ltb, Bool-cases, inl, inr, ok,
}
use aigenora.Collab.Store.Rows.{EventRow, truncate}
use aigenora.Collab.Store.Tables.{
  event_has_key, event_has_id, find, select, max_event_id, order_by_id,
}
use aigenora.Prelude.Int.{ℤ, pos, negsuc}
use aigenora.Collab.Store.{Store, append_event, events_after, is_behind, limit_to}

-- The events of a task, in the order in which they were appended.
unfoldable pub events_of : String → String → Store → List EventRow
events_of source id s = select (event_has_key source id) s.events

-- The ids go up by one, from the number behind `n`.
abbrev pub CountsUp : ℕ → List EventRow → Type 0
CountsUp n [] = Unit
CountsUp n (e ∷ es) = (e.event_id ≡ suc n) × CountsUp (suc n) es

pub record IsNumbered (s : Store) : Type 0 where
  pub at_key : (source id : String) → CountsUp 0 (events_of source id s)

module _ {A : Type 0} where
  select-append : (p : A → Bool) (xs ys : List A) → select p (xs ++ ys) ≡ select p xs ++ select p ys
  unfolding select
  select-append p [] ys = refl
  select-append p (x ∷ xs) ys = ground (arith, select-append p xs ys)

CountsUp-append :
    (n : ℕ) (es : List EventRow) (e : EventRow)
    → CountsUp n es
    → e.event_id ≡ suc (n + length es)
    → CountsUp n (es ++ e ∷ [])
CountsUp-append n [] e h p = (omega arith, tt)
CountsUp-append n (x ∷ es) e h p = (h.0, CountsUp-append (suc n) es e h.1 (omega arith))

max_of_CountsUp :
    (n : ℕ) (es : List EventRow) → CountsUp n es → max n (max_event_id es) ≡ n + length es
unfolding max_event_id
max_of_CountsUp n [] h = omega arith
max_of_CountsUp n (e ∷ es) h = ground (arith, max_of_CountsUp (suc n) es h.1)

-- The id behind the largest is not taken.
pub fresh_above :
    (source id : String) (es : List EventRow) (m : ℕ)
    → max_event_id (select (event_has_key source id) es) < m
    → find (event_has_id source id m) es ≡ none
unfolding max_event_id select find event_has_id
fresh_above source id [] m h = refl
fresh_above source id (e ∷ es) m h = ground (arith, fresh_above source id es m)

abbrev pub appended : String → String → String → String → ℕ → Store → EventRow
appended source id kind summary at s = record {
  source_device = source;
  task_id = id;
  event_id = max_event_id (events_of source id s) + 1;
  kind = kind;
  summary = truncate 500 summary;
  at = at;
}

module _ (source id kind summary : String) (s : Store) where
  -- The primary key is never violated: the call returns, with one row and one reading more.
  pub append_event_total : append_event source id kind summary s ≡ (
    ok (max_event_id (events_of source id s) + 1),
    record s {
      events = s.events ++ appended source id kind summary (s.clock s.reads) s ∷ [];
      reads = s.reads + 1;
    },
  )
  unfolding append_event events_of
  append_event_total = ground (
    arith,
    fresh_above source id s.events (max_event_id (select (event_has_key source id) s.events) + 1),
  )

  own_key : (at : ℕ) → event_has_key source id (appended source id kind summary at s) ≡ true
  unfolding event_has_key
  own_key at = ground (arith, eq_iff source source, eq_iff id id)

  other_key :
      (source' id' : String) (at : ℕ)
      → event_has_key source' id' (appended source id kind summary at s) ≡ true
      → (source ≡ source') × (id ≡ id')
  unfolding event_has_key
  other_key source' id' at h = ground (arith, eq_iff source source', eq_iff id id')

  next_id :
      (source' id' : String) (at : ℕ)
      → CountsUp 0 (events_of source' id' s)
      → event_has_key source' id' (appended source id kind summary at s) ≡ true
      → max_event_id (events_of source id s) + 1 ≡ suc (0 + length (events_of source' id' s))
  next_id source' id' at h k =
      let (p, q) = other_key source' id' at k in
      let same : max_event_id (events_of source id s) ≡ max_event_id (events_of source' id' s) =
        cc in
      omega (arith, max_of_CountsUp 0 (events_of source' id' s) h)

  events_of-append_event :
      (source' id' : String)
      → CountsUp 0 (events_of source' id' s)
      → CountsUp 0 (events_of source' id' (append_event source id kind summary s).1)
  unfolding events_of select
  events_of-append_event source' id' h = rw append_event_total (
      rw (select-append (event_has_key source' id') s.events)
        (elim (Bool-cases (event_has_key source' id' new)) [
          | inl own ↦ rw own (CountsUp-append 0 _ new h (next_id source' id' _ h own))
          | inr other ↦ rw (other, append-nil) h
        ]))
    where
      new : EventRow
      new = appended source id kind summary (s.clock s.reads) s

  -- In a numbered ledger, the id that a call returns which no other call overlaps is the number of
  -- the task's events, the new one included; the events of every task stay numbered 1, 2, 3, ….
  pub append_event-IsNumbered :
      IsNumbered s
      → ((append_event source id kind summary s).0 ≡ ok (length (events_of source id s) + 1))
        × IsNumbered (append_event source id kind summary s).1
  append_event-IsNumbered h = (
    rw append_event_total (
        ap (λ n. ok (n + 1))
          (omega (arith, max_of_CountsUp 0 (events_of source id s) (h.at_key source id)))),
    record { at_key = λ source' id'. events_of-append_event source' id' (h.at_key source' id') },
  )

-- Sorting rows that are in order changes nothing.
order_by_id-CountsUp : (n : ℕ) (es : List EventRow) → CountsUp n es → order_by_id es ≡ es
unfolding order_by_id
order_by_id-CountsUp n [] h = refl
order_by_id-CountsUp n (e ∷ []) h = refl
order_by_id-CountsUp n (e ∷ x ∷ es) h =
    rw (order_by_id-CountsUp (suc n) (x ∷ es) h.1) (ground arith)

sub-zero : (n : ℕ) → n ≡ n - 0
sub-zero n = omega arith

-- Of rows that are numbered from behind `n`, those with an id behind `after` are the rows behind
-- the first `after - n`.
select_after :
    (p : EventRow → Bool) (after n k : ℕ) (es : List EventRow)
    → k ≡ after - n
    → CountsUp n (select p es)
    → select (λ e. p e && ltb after e.event_id) es ≡ drop k (select p es)
unfolding select
select_after p after n zero [] e h = refl
select_after p after n (suc k) [] e h = refl
select_after p after n zero (x ∷ es) e h = elim (Bool-cases (p x)) [
  | inl own ↦
      let h' : CountsUp n (x ∷ select p es) = rw own at h in
      rw (own, select_after p after (suc n) zero es (omega arith) h'.1) (ground arith)
  | inr other ↦
      let h' : CountsUp n (select p es) = rw other at h in
      rw (other, select_after p after n zero es e h')
]
select_after p after n (suc k) (x ∷ es) e h = elim (Bool-cases (p x)) [
  | inl own ↦
      let h' : CountsUp n (x ∷ select p es) = rw own at h in
      rw (own, select_after p after (suc n) k es (omega arith) h'.1) (ground arith)
  | inr other ↦
      let h' : CountsUp n (select p es) = rw other at h in
      rw (other, select_after p after n (suc k) es e h')
]

CountsUp-drop : (k n : ℕ) (es : List EventRow) → CountsUp n es → (m : ℕ) × CountsUp m (drop k es)
CountsUp-drop zero n es h = (n, h)
CountsUp-drop (suc k) n [] h = (n, tt)
CountsUp-drop (suc k) n (e ∷ es) h = CountsUp-drop k (suc n) es h.1

-- The number of the events that the cursor has passed.
abbrev pub passed_by : ℤ → ℕ
passed_by (pos after) = after
passed_by (negsuc _) = 0

select_all : (p : EventRow → Bool) (es : List EventRow) → select (λ e. p e && true) es ≡ select p es
unfolding select
select_all p [] = refl
select_all p (x ∷ es) = ground (arith, select_all p es)

select_behind :
    (p : EventRow → Bool) (after : ℤ) (es : List EventRow)
    → CountsUp 0 (select p es)
    → select (λ e. p e && is_behind after e.event_id) es ≡ drop (passed_by after) (select p es)
select_behind p (pos after) es h = select_after p after 0 after es (sub-zero after) h
select_behind p (negsuc n) es h = select_all p es

-- In a numbered ledger a page holds the task's next events behind the cursor, up to the limit, or all of
-- them where the limit is negative, in the order in which they were appended.
pub events_after-page :
    (source id : String) (after limit : ℤ) (s : Store)
    → IsNumbered s
    → events_after source id after limit s
      ≡ (ok (limit_to limit (drop (passed_by after) (events_of source id s))), s)
unfolding events_after events_of
events_after-page source id after limit s h =
    let own : CountsUp 0 (select (event_has_key source id) s.events) = h.at_key source id in
    let (m, behind) =
      CountsUp-drop (passed_by after) 0 (select (event_has_key source id) s.events) own in
    rw (select_behind (event_has_key source id) after s.events own) (
      rw
        (order_by_id-CountsUp m (drop (passed_by after) (select (event_has_key source id) s.events))
          behind)
        refl)
