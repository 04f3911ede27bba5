-- ===== src/Prelude/Result.antt =====
-- An `Effect` that succeeds or fails, and a function that returns or throws.
use foundationdb_effect.Prelude.{◌≡◌, ◌≢◌, refl, ap}

pub data Result {ℓ} (E : Type 0) (A : Type ℓ) : Type ℓ where
  ok : A → Result E A
  err : E → Result E A

infixl 5 ◌>>=◌
abbrev pub ◌>>=◌ {ℓ κ} :
    {E : Type 0} {A : Type ℓ} {B : Type κ} → Result E A → (A → Result E B) → Result E B
ok value >>= next = next value
err reason >>= next = err reason

-- `Effect.map`
abbrev pub map_ok {ℓ κ} : {E : Type 0} {A : Type ℓ} {B : Type κ} → (A → B) → Result E A → Result E B
map_ok f (ok a) = ok (f a)
map_ok f (err e) = err e

-- `Effect.mapError`
abbrev pub map_err {ℓ} : {E F : Type 0} {A : Type ℓ} → (E → F) → Result E A → Result F A
map_err f (ok a) = ok a
map_err f (err e) = err (f e)

-- What a chain that succeeds has gone through.
pub >>=-eq-ok {ℓ κ} :
    {E : Type 0} {A : Type ℓ} {B : Type κ} (first : Result E A) (next : A → Result E B) {last : B}
    → (first >>= next) ≡ ok last
    → (middle : A) × (first ≡ ok middle) × (next middle ≡ ok last)
>>=-eq-ok (ok middle) next done = (middle, refl, done)
>>=-eq-ok (err reason) next done = cc

pub ok-injective {ℓ} :
    {E : Type 0} {A : Type ℓ} {a b : A} → ◌≡◌ {A = Result E A} (ok a) (ok b) → a ≡ b
ok-injective e = cc

pub map_ok-eq-ok {ℓ κ} :
    {E : Type 0} {A : Type ℓ} {B : Type κ} (f : A → B) (m : Result E A) {b : B}
    → map_ok f m ≡ ok b
    → (a : A) × (m ≡ ok a) × (f a ≡ b)
map_ok-eq-ok f (ok a) h = (a, refl, ok-injective h)
map_ok-eq-ok f (err e) h = cc

pub err≢ok {ℓ} : {E : Type 0} {A : Type ℓ} {e : E} {a : A} → ◌≢◌ {A = Result E A} (err e) (ok a)
err≢ok same = cc

pub map_err-eq-ok {ℓ} :
    {E F : Type 0} {A : Type ℓ} (f : E → F) (m : Result E A) {a : A} → map_err f m ≡ ok a → m ≡ ok a
map_err-eq-ok f (ok b) h = ap (λ a. ok a) (ok-injective h)
map_err-eq-ok f (err e) h = absurd (err≢ok h)

pub err-injective {ℓ} :
    {E : Type 0} {A : Type ℓ} {e f : E} → ◌≡◌ {A = Result E A} (err e) (err f) → e ≡ f
err-injective same = cc

pub map_ok-eq-err {ℓ κ} :
    {E : Type 0} {A : Type ℓ} {B : Type κ} (f : A → B) (m : Result E A) {e : E}
    → map_ok f m ≡ err e
    → m ≡ err e
map_ok-eq-err f (ok a) h = cc
map_ok-eq-err f (err e) h = ap (λ e. err e) (err-injective h)
