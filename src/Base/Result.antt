-- ===== src/Base/Result.antt =====
-- What a Go function with an error result returns, and what it does when it panics.
use Prim.Native.String.{String}
use mathlib.Core.Path.{subst}
use go_capnp.Base.{if◌then◌else◌, ℕ, sym, ap, ◌≡◌, refl, Bool, true, false, ◌⊎◌, inl, inr}

-- `errors.New(s)`, `errors.New(s + str.Utod(n) + t)`, and of an error `exc.WrapError(prefix, e)` and
-- `exc.WrapError(prefix + str.Utod(n), e)`.
pub data GoError : Type 0 where
  new : String → GoError
  numbered : String → ℕ → String → GoError
  wrapped : String → GoError → GoError
  indexed : String → ℕ → GoError → GoError

pub data Result {ℓ} (T : Type ℓ) : Type ℓ where
  panic : String → Result T
  err : GoError → Result T
  ok : T → Result T

-- `v, err := m; if err != nil { return err }`, then `next`.
infixl 5 ◌>>=◌ ◌>>◌
unfoldable pub ◌>>=◌ {ℓ κ} : {T : Type ℓ} {U : Type κ} → Result T → (T → Result U) → Result U
panic s >>= next = panic s
err e >>= next = err e
ok v >>= next = next v

unfoldable pub ◌>>◌ {ℓ} : {U : Type ℓ} → Result (Unit {0}) → Result U → Result U
panic s >> next = panic s
err e >> next = err e
ok v >> next = next

-- `if !test { return errors.New(s) }`
unfoldable pub require : Bool → String → Result (Unit {0})
require true s = ok tt
require false s = err (new s)

-- `if err != nil { return exc.WrapError(prefix, err) }`
unfoldable pub wrap_error {ℓ} : {A : Type ℓ} → String → Result A → Result A
wrap_error prefix (ok a) = ok a
wrap_error prefix (err e) = err (wrapped prefix e)
wrap_error prefix (panic s) = panic s

abbrev value_or {ℓ} : {A : Type ℓ} → A → Result A → A
value_or a (ok b) = b
value_or a (err e) = a
value_or a (panic s) = a

pub ok-injective {ℓ} : {A : Type ℓ} {a b : A} → ok a ≡ ok b → a ≡ b
ok-injective {a} e = ap (value_or a) e

-- The call does not panic, and where it returns a value, that has property P.
pub data Ensures {ℓ} {A : Type ℓ} (P : A → Type 0) : Result A → Type ℓ where
  returns : {a : A} → P a → Ensures P (ok a)
  fails : {e : GoError} → Ensures P (err e)

pub Ensures-bind {ℓ κ} :
    {A : Type ℓ} {B : Type κ} (P : A → Type 0) {Q : B → Type 0} {m : Result A} {f : A → Result B}
    → Ensures P m
    → ((a : A) → P a → Ensures Q (f a))
    → Ensures Q (m >>= f)
unfolding ◌>>=◌
Ensures-bind P (returns h) k = k _ h
Ensures-bind P fails k = fails

pub Ensures-require {ℓ} :
    {A : Type ℓ} {Q : A → Type 0} (test : Bool) (s : String) {k : Result A}
    → (test ≡ true → Ensures Q k)
    → Ensures Q (require test s >> k)
unfolding ◌>>◌ require
Ensures-require true s h = h refl
Ensures-require false s h = fails

pub Ensures-wrap {ℓ} :
    {A : Type ℓ} {P : A → Type 0} (prefix : String) {m : Result A}
    → Ensures P m
    → Ensures P (wrap_error prefix m)
unfolding wrap_error
Ensures-wrap prefix (returns h) = returns h
Ensures-wrap prefix fails = fails

-- From a known result.
pub Ensures-ok {ℓ} :
    {A : Type ℓ} (P : A → Type 0) {m : Result A} {a : A} → m ≡ ok a → P a → Ensures P m
Ensures-ok P e h = subst (Ensures P) (sym e) (returns h)

-- The value's property, once the call is known to have returned it.
pub Ensures-value {ℓ} :
    {A : Type ℓ} (P : A → Type 0) {m : Result A} {a : A} → Ensures P m → m ≡ ok a → P a
Ensures-value P (returns h) e = subst P (ok-injective e) h
Ensures-value P fails e = absurd (cc)

-- What such a call does.
pub Ensures-cases {ℓ} :
    {A : Type ℓ} {P : A → Type 0} {m : Result A}
    → Ensures P m
    → ((a : A) × (m ≡ ok a) × P a) ⊎ ((e : GoError) × (m ≡ err e))
Ensures-cases (returns h) = inl (_, refl, h)
Ensures-cases fails = inr (_, refl)

-- The value, with the equation that says where it comes from.
pub Ensures-self {ℓ} :
    {A : Type ℓ} {P : A → Type 0} {m : Result A}
    → Ensures P m
    → (Q : A → Type 0) → ((a : A) → m ≡ ok a → Q a)
    → Ensures Q m
Ensures-self (returns h) Q k = returns (k _ refl)
Ensures-self fails Q k = fails

pub Ensures-weaken {ℓ} :
    {A : Type ℓ} (P : A → Type 0) {Q : A → Type 0} {m : Result A}
    → ((a : A) → P a → Q a)
    → Ensures P m
    → Ensures Q m
Ensures-weaken P k (returns h) = returns (k _ h)
Ensures-weaken P k fails = fails

-- Where the call returns a value, that has property P.
pub data Gives {ℓ} {A : Type ℓ} (P : A → Type 0) : Result A → Type ℓ where
  gives : {a : A} → P a → Gives P (ok a)
  errs : {e : GoError} → Gives P (err e)
  panics : {s : String} → Gives P (panic s)

pub Gives-bind {ℓ κ} :
    {A : Type ℓ} {B : Type κ} (P : A → Type 0) {Q : B → Type 0} {m : Result A} {f : A → Result B}
    → Gives P m
    → ((a : A) → P a → Gives Q (f a))
    → Gives Q (m >>= f)
unfolding ◌>>=◌
Gives-bind P (gives h) k = k _ h
Gives-bind P errs k = errs
Gives-bind P panics k = panics

pub Gives-wrap {ℓ} :
    {A : Type ℓ} {P : A → Type 0} (prefix : String) {m : Result A}
    → Gives P m
    → Gives P (wrap_error prefix m)
unfolding wrap_error
Gives-wrap prefix (gives h) = gives h
Gives-wrap prefix errs = errs
Gives-wrap prefix panics = panics

-- A call that does not panic, with what else is known of its value.
pub Ensures-and {ℓ} :
    {A : Type ℓ} (P Q : A → Type 0) {m : Result A}
    → Ensures P m
    → Gives Q m
    → Ensures (λ a. P a × Q a) m
Ensures-and P Q (returns h) (gives k) = returns (h, k)
Ensures-and P Q fails g = fails

pub any_value {ℓ} : {A : Type ℓ} (m : Result A) → Gives (λ _. Unit {0}) m
any_value (ok a) = gives tt
any_value (err e) = errs
any_value (panic s) = panics

-- The branch that a test which fails leads to.
pub Ensures-else {ℓ} :
    {A : Type ℓ} {P : A → Type 0} {test : Bool} (x : Result A) {y : Result A}
    → test ≡ false
    → Ensures P y
    → Ensures P (if test then x else y)
Ensures-else x e h = rw e h

pub else_branch {ℓ} :
    {A : Type ℓ} {test : Bool} (x : A) {y a : A}
    → test ≡ false
    → y ≡ a
    → (if test then x else y) ≡ a
else_branch x e same = rw e same

pub Gives-require {ℓ} :
    {A : Type ℓ} {Q : A → Type 0} (test : Bool) (s : String) {k : Result A}
    → (test ≡ true → Gives Q k)
    → Gives Q (require test s >> k)
unfolding ◌>>◌ require
Gives-require true s h = h refl
Gives-require false s h = errs
