-- ===== src/Base/Results.antt =====
-- Python's exceptions as values, with the parts that a message interpolates kept as data of a type
-- that each program chooses.
use mathlib.Core.Path.{◌≡◌, refl, ap, sym, subst}
use mathlib.Core.Logic.{◌↔◌}
use mathlib.Core.Bool.{Bool, true, false}

-- The exceptions that leave a function; `exit` is `raise SystemExit(message)`, `other` one that M names,
-- `value_error` is `raise ValueError(message)`, `decode_error` is what `json.loads` raises.
pub data Exception {ℓ} (M : Type ℓ) : Type ℓ where
  exit other : M → Exception M
  value_error : M → Exception M
  type_error attribute_error key_error index_error decode_error : Exception M

pub data Result {ℓ κ} (M : Type ℓ) (A : Type κ) : Type (ℓ ⊔ κ) where
  ok : A → Result M A
  err : Exception M → Result M A

infixl 5 ◌>>=◌ ◌>>◌
abbrev pub ◌>>=◌ {ℓ κ μ} :
    {M : Type ℓ} {A : Type κ} {B : Type μ} → Result M A → (A → Result M B) → Result M B
ok a >>= f = f a
err e >>= f = err e

abbrev pub ◌>>◌ {ℓ κ μ} :
    {M : Type ℓ} {A : Type κ} {B : Type μ} → Result M A → Result M B → Result M B
m >> k = m >>= λ _. k

-- `if not condition: raise SystemExit(message)`.
abbrev pub require {ℓ} : {M : Type ℓ} → Bool → M → Result M (Unit {0})
require true m = ok tt
require false m = err (exit m)

-- Inversion of a successful bind.
pub >>=-eq-ok {ℓ κ μ} :
    {M : Type ℓ} {A : Type κ} {B : Type μ} (step : Result M A) (next : A → Result M B) {out : B}
    → (step >>= next) ≡ ok out
    → (value : A) × (step ≡ ok value) × (next value ≡ ok out)
>>=-eq-ok (err e) next h = cc
>>=-eq-ok (ok value) next h = (value, refl, h)

pub require-eq-ok {ℓ} :
    {M : Type ℓ} (b : Bool) (m : M) {u : Unit {0}} → require b m ≡ ok u → b ≡ true
require-eq-ok true m h = refl
require-eq-ok false m h = cc

-- Inversion of a guarded continuation.
pub require->>-eq-ok {ℓ κ} :
    {M : Type ℓ} {B : Type κ} (c : Bool) (m : M) (k : Result M B) {b : B}
    → (require c m >> k) ≡ ok b
    → (c ≡ true) × (k ≡ ok b)
require->>-eq-ok true m k h = (refl, h)
require->>-eq-ok false m k h = cc

pub ok-injective {ℓ κ} :
    {M : Type ℓ} {A : Type κ} {a b : A} → ◌≡◌ {A = Result M A} (ok a) (ok b) → a ≡ b
ok-injective h = cc

-- What a run that is made for its exceptions alone has established when it returns.
abbrev pub Accepts {ℓ κ μ} : {M : Type ℓ} {A : Type κ} → Result M A → Type μ → Type (ℓ ⊔ κ ⊔ μ)
Accepts {A} m P = ((a : A) × (m ≡ ok a)) ↔ P

pub require-Accepts {ℓ μ} :
    {M : Type ℓ} {P : Type μ} (b : Bool) (m : M) → ((b ≡ true) ↔ P) → Accepts (require b m) P
require-Accepts true m p = (λ h. p.0 refl, λ h. (tt, refl))
require-Accepts false m p = (λ h. cc (h.1), λ h. cc (p.1 h))

-- Blocks are read off step by step: the conditions of the first step, then those of the rest.
pub >>_iff {ℓ κ μ ν ρ} :
    {M : Type ℓ} {A : Type κ} {B : Type μ} {P : Type ν} {Q : Type ρ} (m : Result M A)
    (k : Result M B) (b : B)
    → Accepts m P
    → ((k ≡ ok b) ↔ Q)
    → ((m >> k) ≡ ok b) ↔ (P × Q)
>>_iff (ok a) k b p q = (λ h. (p.0 (a, refl), q.0 h), λ h. q.1 h.1)
>>_iff (err e) k b p q = (λ h. cc, λ h. cc ((p.1 h.0).1))

pub >>=_iff {ℓ κ μ ν ρ} :
    {M : Type ℓ} {A : Type κ} {B : Type μ} {P : A → Type ν} {Q : A → Type ρ} (m : Result M A)
    (f : A → Result M B) (b : B)
    → ((a : A) → (m ≡ ok a) ↔ P a)
    → ((a : A) → (f a ≡ ok b) ↔ Q a)
    → ((m >>= f) ≡ ok b) ↔ ((a : A) × P a × Q a)
>>=_iff (ok a) f b p q = (
  λ h. (a, (p a).0 refl, (q a).0 h),
  λ (a', h, k). subst (λ x. f x ≡ ok b) (sym (ok-injective ((p a').1 h))) ((q a').1 k),
)
>>=_iff (err e) f b p q = (λ h. cc, λ (a, h, k). cc ((p a).1 h))

pub ok_iff {ℓ κ} :
    {M : Type ℓ} {A : Type κ} (a b : A) → (◌≡◌ {A = Result M A} (ok a) (ok b)) ↔ (a ≡ b)
ok_iff a b = (ok-injective, ap ok)

-- A step that returns a value that nothing reads.
pub any-Accepts {ℓ κ μ} :
    {M : Type ℓ} {A : Type κ} {P : A → Type μ} (m : Result M A)
    → ((a : A) → (m ≡ ok a) ↔ P a)
    → Accepts m ((a : A) × P a)
any-Accepts m p = (λ (a, h). (a, (p a).0 h), λ (a, h). (a, (p a).1 h))

pub unit-Accepts {ℓ μ} :
    {M : Type ℓ} {P : Type μ} (m : Result M (Unit {0})) → ((m ≡ ok tt) ↔ P) → Accepts m P
unit-Accepts m p = (λ (u, h). p.0 h, λ h. (tt, p.1 h))

-- A block that ends in a run made for its exceptions.
pub unit_iff {ℓ μ} :
    {M : Type ℓ} {P : Type μ} (m : Result M (Unit {0})) → Accepts m P → (m ≡ ok tt) ↔ P
unit_iff m p = (λ h. p.0 (tt, h), λ h. (p.1 h).1)

pub end_iff {ℓ κ μ} :
    {M : Type ℓ} {A : Type κ} {P : Type μ} (m : Result M A)
    → Accepts m P
    → (◌≡◌ {A = Result M (Unit {0})} (m >> ok tt) (ok tt)) ↔ P
end_iff (ok a) p = (λ h. p.0 (a, refl), λ h. refl)
end_iff (err e) p = (λ h. cc, λ h. cc ((p.1 h).1))
