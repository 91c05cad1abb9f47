-- ===== src/Prelude/Results.antt =====
-- A call that may raise: the value that it returns, or the exception.
use mathlib.Core.Path.{◌≡◌, refl, ap}
use mathlib.Core.Logic.{◌⊎◌, inl, inr}
use mathlib.Core.Bool.{Bool, true, false}

pub data Result {κ} (Exception : Type 0) (Value : Type κ) : Type κ where
  err : Exception → Result Exception Value
  ok : Value → Result Exception Value

module _ {X : Type 0} where
  infixl 5 ◌>>=◌ ◌>>◌
  abbrev pub ◌>>=◌ {κ ℓ} : {V : Type κ} {W : Type ℓ} → Result X V → (V → Result X W) → Result X W
  err x >>= next = err x
  ok v >>= next = next v

  abbrev pub ◌>>◌ {ℓ} : {W : Type ℓ} → Result X (Unit {0}) → Result X W → Result X W
  first >> second = first >>= λ _. second

  -- `if test: raise x`
  abbrev pub raise_if : Bool → X → Result X (Unit {0})
  raise_if false x = ok tt
  raise_if true x = err x

  -- A chain that returned has gone through its first call.
  pub ok_of_bind {κ ℓ} :
      {V : Type κ} {W : Type ℓ} (first : Result X V) (next : V → Result X W) {w : W}
      → (first >>= next) ≡ ok w
      → (v : V) × (first ≡ ok v) × (next v ≡ ok w)
  ok_of_bind (err x) next returned = cc
  ok_of_bind (ok v) next returned = (v, refl, returned)

  pub Result-cases {κ} :
      {V : Type κ} (call : Result X V) → ((v : V) × (call ≡ ok v)) ⊎ ((x : X) × (call ≡ err x))
  Result-cases (err x) = inr (x, refl)
  Result-cases (ok v) = inl (v, refl)

  value_of {κ} : {V : Type κ} → V → Result X V → V
  value_of v (err x) = v
  value_of v (ok w) = w

  pub ok_injective {κ} : {V : Type κ} {v w : V} → ◌≡◌ {A = Result X V} (ok v) (ok w) → v ≡ w
  unfolding value_of
  ok_injective {v = v} e = ap (value_of v) e

  -- A chain that returned has passed its test.
  pub passed {ℓ} :
      {W : Type ℓ} (test : Bool) (x : X) (next : Result X W) {w : W}
      → (raise_if test x >> next) ≡ ok w
      → (test ≡ false) × (next ≡ ok w)
  passed true x next returned = cc
  passed false x next returned = (refl, returned)

  pub passed_last : (test : Bool) (x : X) → raise_if test x ≡ ok tt → test ≡ false
  passed_last true x returned = cc
  passed_last false x returned = refl
