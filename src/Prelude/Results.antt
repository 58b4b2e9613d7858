-- ===== src/Prelude/Results.antt =====
-- How a Go call ends: it returns a value, returns an error, panics, or ends the process
-- (`log.Fatal`). An error is its text.
use Prim.Native.String.{String}
use mathlib.Core.Path.{◌≡◌, refl}
use mathlib.Core.Logic.{◌⊎◌, inl, inr}

pub data Failure : Type 0 where
  error : String → Failure
  panic : String → Failure
  fatal : String → Failure

pub data Outcome {ℓ} (A : Type ℓ) : Type ℓ where
  ok : A → Outcome A
  fail : Failure → Outcome A

infixl 5 ◌>>=◌ ◌>>◌
abbrev pub ◌>>=◌ {ℓ κ} : {A : Type ℓ} {B : Type κ} → Outcome A → (A → Outcome B) → Outcome B
ok a >>= f = f a
fail e >>= f = fail e

abbrev pub ◌>>◌ {ℓ} : {B : Type ℓ} → Outcome (Unit {0}) → Outcome B → Outcome B
m >> k = m >>= λ _. k

-- `if err != nil { panic(err) }`: the caller turns a returned error into a panic.
abbrev pub or_panic {ℓ} : {A : Type ℓ} → Outcome A → Outcome A
or_panic (fail (error e)) = fail (panic e)
or_panic r = r

-- `if err != nil { log.Fatal(err) }`
abbrev pub or_fatal {ℓ} : {A : Type ℓ} → Outcome A → Outcome A
or_fatal (fail (error e)) = fail (fatal e)
or_fatal r = r

-- A chain that returns a value has a first call that returns one.
pub >>=-eq-ok {ℓ κ} :
    {A : Type ℓ} {B : Type κ} (call : Outcome A) (next : A → Outcome B) {result : B}
    → (call >>= next) ≡ ok result
    → (value : A) × (call ≡ ok value) × (next value ≡ ok result)
>>=-eq-ok (ok value) next returned = (value, refl, returned)
>>=-eq-ok (fail why) next returned = cc

pub or_panic-eq-ok {ℓ} : {A : Type ℓ} (m : Outcome A) {a : A} → or_panic m ≡ ok a → m ≡ ok a
or_panic-eq-ok (ok a) h = h
or_panic-eq-ok (fail (error e)) h = cc
or_panic-eq-ok (fail (panic e)) h = h
or_panic-eq-ok (fail (fatal e)) h = h

pub Outcome-cases {ℓ} :
    {A : Type ℓ} (m : Outcome A) → ((a : A) × (m ≡ ok a)) ⊎ ((e : Failure) × (m ≡ fail e))
Outcome-cases (ok a) = inl (a, refl)
Outcome-cases (fail e) = inr (e, refl)

abbrev value_or {ℓ} : {A : Type ℓ} → A → Outcome A → A
value_or d (ok a) = a
value_or d (fail e) = d

pub ok-injective {ℓ} : {A : Type ℓ} {a b : A} → ok a ≡ ok b → a ≡ b
ok-injective {a = a} e = λ i. value_or a (e i)

pub or_fatal-eq-ok {ℓ} : {A : Type ℓ} (m : Outcome A) {a : A} → or_fatal m ≡ ok a → m ≡ ok a
or_fatal-eq-ok (ok a) h = h
or_fatal-eq-ok (fail (error e)) h = cc
or_fatal-eq-ok (fail (panic e)) h = h
or_fatal-eq-ok (fail (fatal e)) h = h

pub fail_is_ok {ℓ} : {A : Type ℓ} {why : Failure} {value : A} → fail why ≡ ok value → ⊥
fail_is_ok e = cc
