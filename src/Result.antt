-- ===== src/Result.antt =====
-- A member function that returns `bool` and fills an out parameter: it returned true with a value,
-- it returned false, or an exception left it.
use oai_cn5g_sepp.Base.{◌≡◌, refl, Bool, true, false, Option, none, some}

pub data Result {ℓ} (A : Type ℓ) : Type ℓ where
  ok : A → Result A
  fail : Result A
  thrown : Result A

module _ {ℓ κ} {A : Type ℓ} {B : Type κ} where
  infixl 5 ◌>>=◌
  abbrev pub ◌>>=◌ : Result A → (A → Result B) → Result B
  fail >>= next = fail
  thrown >>= next = thrown
  ok value >>= next = next value

  -- Where both calls of a sequence returned true.
  pub >>=-eq-ok :
      (first : Result A) (next : A → Result B) {result : B}
      → (first >>= next) ≡ ok result
      → (value : A) × (first ≡ ok value) × (next value ≡ ok result)
  >>=-eq-ok fail next h = cc
  >>=-eq-ok thrown next h = cc
  >>=-eq-ok (ok value) next h = (value, refl, h)

infixl 5 ◌>>◌
abbrev pub ◌>>◌ {ℓ} : {A : Type ℓ} → Result (Unit {0}) → Result A → Result A
check >> rest = check >>= λ _. rest

-- `if (!test) return false;`
abbrev pub require : Bool → Result (Unit {0})
require true = ok tt
require false = fail

abbrev pub or_fail {ℓ} : {A : Type ℓ} → Option A → Result A
or_fail none = fail
or_fail (some a) = ok a

abbrev pub or_throw {ℓ} : {A : Type ℓ} → Option A → Result A
or_throw none = thrown
or_throw (some a) = ok a

pub require-eq-ok : (b : Bool) {t : Unit {0}} → require b ≡ ok t → b ≡ true
require-eq-ok true h = refl
require-eq-ok false h = cc

pub or_fail-eq-ok {ℓ} : {A : Type ℓ} (o : Option A) {a : A} → or_fail o ≡ ok a → o ≡ some a
or_fail-eq-ok none h = cc
or_fail-eq-ok (some a) h = cc

pub or_throw-eq-ok {ℓ} : {A : Type ℓ} (o : Option A) {a : A} → or_throw o ≡ ok a → o ≡ some a
or_throw-eq-ok none h = cc
or_throw-eq-ok (some a) h = cc

-- Whatever a call returns satisfies `P`.
abbrev pub Returns {ℓ κ} : {A : Type ℓ} → (A → Type κ) → Result A → Type (ℓ ⊔ κ)
Returns P r = (a : _) → r ≡ ok a → P a

pub Returns->>= {ℓ κ μ ν} :
    {A : Type ℓ} {B : Type κ} {P : A → Type μ} {Q : B → Type ν} (first : Result A)
    {next : A → Result B}
    → Returns P first
    → ((a : A) → P a → Returns Q (next a))
    → Returns Q (first >>= next)
Returns->>= first p q b e = let (a, e1, e2) = >>=-eq-ok first _ e in q a (p a e1) b e2

-- Where nothing is known of the first call.
pub Returns->>=_any {ℓ κ ν} :
    {A : Type ℓ} {B : Type κ} {Q : B → Type ν} (first : Result A) {next : A → Result B}
    → ((a : A) → Returns Q (next a))
    → Returns Q (first >>= next)
Returns->>=_any first q b e = let (a, e1, e2) = >>=-eq-ok first _ e in q a b e2

pub ok-inj {ℓ} : {A : Type ℓ} {a b : A} → ok a ≡ ok b → a ≡ b
ok-inj e = cc

pub Returns-ok {ℓ κ} : {A : Type ℓ} (P : A → Type κ) (a : A) → P a → Returns P (ok a)
Returns-ok P a p b e = rw (← (ok-inj e)) p
