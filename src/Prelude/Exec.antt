-- ===== src/Prelude/Exec.antt =====
-- A method of an object that may raise. What was written before a raise stays written, so the
-- object comes back beside the exception too.
use mathlib.Core.Path.{◌≡◌, refl, ap}
use mathlib.Core.Bool.{Bool, true, false}
use mathlib.Core.Option.{Option, none, some}
use aigenora.Prelude.Results.{Result, ok, err}

abbrev pub Exec {ℓ} : Type 0 → Type 0 → Type ℓ → Type ℓ
Exec E S A = S → Result E A × S

module _ {ℓ} {E S : Type 0} {A : Type ℓ} where
  abbrev pub pure : A → Exec E S A
  pure a s = (ok a, s)

  abbrev pub raise : E → Exec E S A
  raise e s = (err e, s)

  abbrev pub gets : (S → A) → Exec E S A
  gets f s = (ok (f s), s)

  -- The value of an optional row, or the exception where there is none.
  abbrev pub or_raise : Option A → E → Exec E S A
  or_raise none e = raise e
  or_raise (some a) _ = pure a

infixl 5 ◌>>=◌ ◌>>◌
abbrev pub ◌>>=◌ : {X S V W : Type 0} → Exec X S V → (V → Exec X S W) → Exec X S W
◌>>=◌ first next s =
    let (result, left) = first s in elim result [ err x ↦ (err x, left) | ok v ↦ next v left ]

abbrev pub ◌>>◌ : {X S V W : Type 0} → Exec X S V → Exec X S W → Exec X S W
first >> second = first >>= λ _. second

abbrev pub modify : {X S : Type 0} → (S → S) → Exec X S (Unit {0})
modify change s = (ok tt, change s)

abbrev pub raise_when : {X S : Type 0} → Bool → X → Exec X S (Unit {0})
raise_when true x s = (err x, s)
raise_when false x s = (ok tt, s)

after :
    {X S V W : Type 0} (run : Result X V × S) (next : V → Exec X S W) {w : W} {s' : S}
    → ◌≡◌ {A = Result X W × S}
        (let (result, left) = run in elim result [ err x ↦ (err x, left) | ok v ↦ next v left ])
        (ok w, s')
    → (v : V) × (t : S) × (run ≡ (ok v, t)) × (next v t ≡ (ok w, s'))
after (err x, t) next h = let failed = ap (λ t. t.0) h in cc
after (ok v, t) next h = (v, t, refl, h)

-- A chain that returned has gone through its first call.
pub ok_of_chain :
    {X S V W : Type 0} (first : Exec X S V) (next : V → Exec X S W) (s : S) {w : W} {s' : S}
    → (first >>= next) s ≡ (ok w, s')
    → (v : V) × (t : S) × (first s ≡ (ok v, t)) × (next v t ≡ (ok w, s'))
ok_of_chain first next s h = after (first s) next h

-- A chain whose first call reads the state only.
pub ok_of_read :
    {X S V W : Type 0} (call : Result X V) (next : V → Exec X S W) (s : S) {w : W} {s' : S}
    → ((λ t. (call, t)) >>= next) s ≡ (ok w, s')
    → (v : V) × (call ≡ ok v) × (next v s ≡ (ok w, s'))
ok_of_read (err x) next s h = let failed = ap (λ t. t.0) h in cc
ok_of_read (ok v) next s h = (v, refl, h)
