-- ===== src/Policy/Result.antt =====
-- The errors that Validate of internal/policy/config.go returns, one constructor for each, and the
-- results of code that may return one.
use ti_assignment_promise_th.Base.{
  inl, inr, ◌⊎◌, ℕ, ◌≡◌, refl, Bool, true, false, String, Option, none, some,
}

pub data ConfigError : Type 0 where
  no_tiers : ConfigError
  customer_without_id : ℕ → ConfigError
  duplicate_customer : String → ConfigError
  undefined_tier : String → String → ConfigError
  negative_tier_rpm : String → ConfigError
  negative_customer_limit : String → ConfigError
  no_limit : String → String → ConfigError
  two_limits : String → String → ConfigError
  override_without_customer : ℕ → ConfigError
  unknown_override_customer : String → ConfigError
  no_ticket : String → ConfigError
  no_reason : String → ConfigError
  no_expiry : String → ConfigError
  bad_expiry : String → ConfigError
  expired : String → ConfigError
  non_positive_limit : String → ConfigError
  does_not_raise : String → ConfigError
  bad_window_start : String → ConfigError
  bad_window_end : String → ConfigError
  window_not_after : String → ConfigError
  negative_grace : String → ConfigError
  overlapping_windows : String → ConfigError
  load_failed : ConfigError

pub data Result {ℓ} (A : Type ℓ) : Type ℓ where
  ok : A → Result A
  err : ConfigError → Result A

infixl 5 ◌>>=◌ ◌>>◌
abbrev pub ◌>>=◌ {ℓ κ} : {A : Type ℓ} {B : Type κ} → Result A → (A → Result B) → Result B
err e >>= next = err e
ok a >>= next = next a

abbrev pub ◌>>◌ {ℓ} : {B : Type ℓ} → Result (Unit {0}) → Result B → Result B
check >> rest = check >>= λ _. rest

-- `if bad { return err }`
abbrev pub fail_if : Bool → ConfigError → Result (Unit {0})
fail_if true e = err e
fail_if false e = ok tt

abbrev pub or_fail {ℓ} : {A : Type ℓ} → Option A → ConfigError → Result A
or_fail none e = err e
or_fail (some a) e = ok a

-- What a successful step lets the rest rely on.
pub >>=-eq-ok {ℓ κ} :
    {A : Type ℓ} {B : Type κ} (step : Result A) (next : A → Result B) {last : B}
    → (step >>= next) ≡ ok last
    → (first : A) × (step ≡ ok first) × (next first ≡ ok last)
>>=-eq-ok (err e) next h = cc
>>=-eq-ok (ok a) next h = (a, refl, h)

-- The same for the two kinds of check that Validate makes.
pub fail_if-eq-ok {ℓ} :
    {A : Type ℓ} (bad : Bool) (e : ConfigError) (m : Result A) {a : A}
    → (fail_if bad e >> m) ≡ ok a
    → (bad ≡ false) × (m ≡ ok a)
fail_if-eq-ok true e m h = cc
fail_if-eq-ok false e m h = (refl, h)

pub or_fail-eq-ok {ℓ κ} :
    {A : Type ℓ} {B : Type κ} (o : Option A) (e : ConfigError) (f : A → Result B) {b : B}
    → (or_fail o e >>= f) ≡ ok b
    → (a : A) × (o ≡ some a) × (f a ≡ ok b)
or_fail-eq-ok none e f h = cc
or_fail-eq-ok (some a) e f h = (a, refl, h)

pub ok-injective {ℓ} : {A : Type ℓ} (a b : A) → ok a ≡ ok b → a ≡ b
ok-injective a b h = cc

pub Result-cases {ℓ} :
    {A : Type ℓ} (m : Result A) → ((a : A) × (m ≡ ok a)) ⊎ ((e : ConfigError) × (m ≡ err e))
Result-cases (ok a) = inl (a, refl)
Result-cases (err e) = inr (e, refl)
