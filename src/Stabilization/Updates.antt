-- ===== src/Stabilization/Updates.antt =====
-- Reading a value back where it was written, and the rest where it was not.
use grain_protocol.Base.{
  ℕ, zero, suc, ◌≡◌, ◌≢◌, refl, ap, sym, subst, String, str_eq, eq_iff, eq_refl, false, Option,
  none, some, List, [], ◌∷◌, lookup, Bool-cases, inl, inr, Result, ok, err, index_error, >>=-eq-ok,
  ok-injective,
}
use grain_protocol.Json.{Value, arr, obj, Items, nil, cons, Fields, end, field, fields}
use grain_protocol.Stabilization.Paths.{
  Part, key, index, or_raise, nth, get_item, get_at_path, put_field, put_nth, as_arr, set_item,
  set_at_path,
}

pub lookup-put_field :
    (fs : Fields) (k : String) (v : Value) → lookup k (fields (put_field fs k v)) ≡ some v
unfolding lookup put_field
lookup-put_field end k v = rw (eq_refl k)
lookup-put_field (field j w fs) k v = elim (Bool-cases (str_eq j k)) [
  | inl same ↦ rw (same, same)
  | inr other ↦ rw (other, other) (lookup-put_field fs k v)
]

pub lookup-put_field_ne :
    (fs : Fields) (k j : String) (v : Value)
    → str_eq k j ≡ false
    → lookup j (fields (put_field fs k v)) ≡ lookup j (fields fs)
unfolding lookup put_field
lookup-put_field_ne end k j v h = rw h
lookup-put_field_ne (field i w fs) k j v h = elim (Bool-cases (str_eq i k)) [
  | inl same ↦
      let e : str_eq i j ≡ false = subst (λ x. str_eq x j ≡ false) (sym ((eq_iff i k).0 same)) h in
      rw (same, e) refl
  | inr other ↦ elim (Bool-cases (str_eq i j)) [
    | inl here ↦ rw (other, here) refl
    | inr there ↦ rw (other, there) (lookup-put_field_ne fs k j v h)
  ]
]

nth-put_nth :
    (vs : Items) (n : ℕ) (v : Value) {ws : Items} → put_nth vs n v ≡ some ws → nth ws n ≡ some v
unfolding put_nth nth
nth-put_nth nil n v h = cc
nth-put_nth (cons w vs) zero v {ws} h =
    let e : cons v vs ≡ ws = cc in subst (λ x. nth x zero ≡ some v) e refl
nth-put_nth (cons w vs) (suc n) v {ws} h =
    deeper w n v (put_nth vs n v) (λ xs e. nth-put_nth vs n v e) h
  where
    deeper :
        (w : Value) (n : ℕ) (v : Value) (o : Option Items)
        → ((xs : Items) → o ≡ some xs → nth xs n ≡ some v)
        → ◌≡◌ {A = Option Items} (elim o [ none ↦ none | some xs ↦ some (cons w xs) ]) (some ws)
        → nth ws (suc n) ≡ some v
    deeper w n v none ih h' = cc
    deeper w n v (some xs) ih h' =
        let same : cons w xs ≡ ws = cc in subst (λ x. nth x (suc n) ≡ some v) same (ih xs refl)

module _ {ℓ} {M : Type ℓ} where
  or_raise-eq-ok :
      {A : Type 0} (o : Option A) (r : Result M A) {a : A}
      → ((x : A) → r ≢ ok x)
      → or_raise o r ≡ ok a
      → o ≡ some a
  or_raise-eq-ok none r never h = absurd (never _ h)
  or_raise-eq-ok (some x) r never h = ap some (ok-injective h)

  get_item-set_item :
      (node : Value) (part : Part) (v : Value) {changed : Value}
      → set_item {M = M} node part v ≡ ok changed
      → get_item {M = M} changed part ≡ ok v
  unfolding set_item get_item
  get_item-set_item (obj fs) (key k) v h =
      subst (λ x. get_item {M = M} x (key k) ≡ ok v) (ok-injective h) (rw (lookup-put_field fs k v))
  get_item-set_item (arr vs) (index n) v {changed} h = go (put_nth vs n v) refl h
    where
      go :
          (o : Option Items)
          → put_nth vs n v ≡ o
          → or_raise {M = M} (as_arr o) (err index_error) ≡ ok changed
          → get_item {M = M} changed (index n) ≡ ok v
      go none e h' = cc
      go (some ws) e h' =
          subst (λ x. get_item {M = M} x (index n) ≡ ok v) (ok-injective h')
            (rw (nth-put_nth vs n v e))
  get_item-set_item _ part v h = cc

  -- What was written along a path is read back along it.
  pub get_at_path-set_at_path :
      (node : Value) (path : List Part) (v : Value) {changed : Value}
      → set_at_path {M = M} node path v ≡ ok changed
      → get_at_path {M = M} changed path ≡ ok v
  unfolding set_at_path get_at_path
  get_at_path-set_at_path node [] v h = cc
  get_at_path-set_at_path node (part ∷ []) v h = rw (get_item-set_item node part v h)
  get_at_path-set_at_path node (part ∷ next ∷ path) v h =
      let (child, got, h1) = >>=-eq-ok (get_item {M = M} node part) _ h in
      let (inner, set, h2) = >>=-eq-ok (set_at_path {M = M} child (next ∷ path) v) _ h1 in
      rw (get_item-set_item node part inner h2) (get_at_path-set_at_path child (next ∷ path) v set)
