-- ===== src/Stabilization/Actions.antt =====
-- Inversion of an action that returns.
use grain_protocol.Base.{◌≡◌, refl, ap, subst, Result, ok, err, ok-injective}
use grain_protocol.Stabilization.Campaign.{
  Failure, World, Action, pure, bind_result, ◌>>=◌, lift_result,
}

pub bind-eq-ok {ℓ κ} :
    {A : Type ℓ} {B : Type κ} (m : Action A) (f : A → Action B) (w : World) {out : B × World}
    → (m >>= f) w ≡ ok out
    → (a : A) × (v : World) × (m w ≡ ok (a, v)) × (f a v ≡ ok out)
bind-eq-ok {A} m f w {out} h = go (m w) refl h
  where
    go :
        (r : Result Failure (A × World))
        → m w ≡ r
        → bind_result r f ≡ ok out
        → (a : A) × (v : World) × (m w ≡ ok (a, v)) × (f a v ≡ ok out)
    go (ok (a, v)) e k = (a, v, e, k)
    go (err e') e k = cc

pub lift_result-eq-ok {ℓ} :
    {A : Type ℓ} (r : Result Failure A) (w : World) {a : A} {v : World}
    → lift_result r w ≡ ok (a, v)
    → (r ≡ ok a) × (w ≡ v)
lift_result-eq-ok (ok b) w h = (cc, cc)
lift_result-eq-ok (err e) w h = cc

-- What holds of all that an action returns.
abbrev pub Returns {ℓ κ} : {A : Type ℓ} → Action A → (A → Type κ) → Type (ℓ ⊔ κ)
Returns {A} m P = (w : World) (a : A) (v : World) → m w ≡ ok (a, v) → P a

module _ {ℓ κ} {A : Type ℓ} where
  pub pure-Returns : (P : A → Type κ) (a : A) → P a → Returns (pure a) P
  pure-Returns P a p w b v h = subst P (returned h) p
    where
      returned : {x y : A × World} → ◌≡◌ {A = Result Failure (A × World)} (ok x) (ok y) → x.0 ≡ y.0
      returned e = ap (λ z. z.0) (ok-injective e)

  pub >>=-Returns {μ ν} :
      {B : Type μ} {Q : B → Type ν} {P : A → Type κ} (m : Action B) (f : B → Action A)
      → Returns m Q
      → ((b : B) → Q b → Returns (f b) P)
      → Returns (m >>= f) P
  >>=-Returns m f q p w a v h =
      let (b, u, first, rest) = bind-eq-ok m f w h in p b (q w b u first) u a v rest

  -- A step of which nothing is known.
  pub any-Returns {μ} :
      {B : Type μ} {P : A → Type κ} (m : Action B) (f : B → Action A)
      → ((b : B) → Returns (f b) P)
      → Returns (m >>= f) P
  any-Returns m f p w a v h = let (b, u, first, rest) = bind-eq-ok m f w h in p b u a v rest
