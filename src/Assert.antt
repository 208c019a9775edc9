-- ===== src/Assert.antt =====
-- include/MyUtils/Assert.h and src/Assert.cpp: a contract violation ends the process. A function
-- that asserts returns a `Checked` value, and `abort` is the state after AssertFailed.
use my_utils.Base.{◌≡◌, sym, ◌∙◌, subst, Bool, true, false}

-- AssertFailed does not return: there is no state after `abort` to go on from.
pub data Checked {ℓ} (A : Type ℓ) : Type ℓ where
  ok : A → Checked A
  abort : Checked A

infixl 5 ◌>>=◌ ◌>>◌
abbrev pub ◌>>=◌ {ℓ κ} : {A : Type ℓ} {B : Type κ} → Checked A → (A → Checked B) → Checked B
ok a >>= f = f a
abort >>= f = abort

abbrev pub ◌>>◌ {ℓ} : {B : Type ℓ} → Checked (Unit {0}) → Checked B → Checked B
m >> k = m >>= λ _. k

-- MYUTILS_ASSERT
abbrev pub assert : Bool → Checked (Unit {0})
assert true = ok tt
assert false = abort

-- The call does not abort, and what it returns satisfies `P`.
abbrev pub Succeeds {ℓ κ} : {A : Type ℓ} → Checked A → (A → Type κ) → Type (ℓ ⊔ κ)
Succeeds {A} m P = (a : A) × (m ≡ ok a) × P a

pub ok-injective {ℓ} : {A : Type ℓ} {a b : A} → ok a ≡ ok b → a ≡ b
ok-injective e = cc

pub Succeeds-apply {ℓ κ} :
    {A : Type ℓ} {m : Checked A} (P : A → Type κ) {a : A} → Succeeds m P → m ≡ ok a → P a
Succeeds-apply P (b, e, p) h = subst P (ok-injective (sym e ∙ h)) p

-- What the call returns satisfies `P`, where it returns.
abbrev pub Returns {ℓ κ} : {A : Type ℓ} → Checked A → (A → Type κ) → Type κ
Returns (ok a) P = P a
Returns abort P = Unit

pub Returns-bind {ℓ κ μ ν} :
    {A : Type ℓ} {B : Type κ} (P : A → Type μ) (R : B → Type ν) (m : Checked A) (f : A → Checked B)
    → Returns m P
    → ((a : A) → P a → Returns (f a) R)
    → Returns (m >>= f) R
Returns-bind P R (ok a) f h k = k a h
Returns-bind P R abort f h k = tt

pub Returns-assert {ℓ κ} :
    {B : Type ℓ} (R : B → Type κ) (test : Bool) (m : Checked B)
    → Returns m R
    → Returns (assert test >> m) R
Returns-assert R true m h = h
Returns-assert R false m h = tt

pub Returns-apply {ℓ κ} :
    {A : Type ℓ} (P : A → Type κ) {m : Checked A} {a : A} → Returns m P → m ≡ ok a → P a
Returns-apply P h e = subst (λ m. Returns m P) e h
