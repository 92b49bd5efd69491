-- ===== src/Stabilization/Found.antt =====
-- What `find_b64_paths` finds.
use mathlib.Core.List.{append_assoc, append-nil}
use grain_protocol.Base.{
  ℕ, suc, ◌+◌, ◌≡◌, ◌∙◌, ap, sym, subst, arith, String, str_eq, eq_iff, eq_refl, true, false, some,
  List, [], ◌∷◌, ◌++◌, lookup, keys, contains, Distinct, All, All-append, All-map, Bool-cases, inl,
  inr, and_parts, ok,
}
use grain_protocol.Json.{Value, str, arr, obj, Items, nil, cons, Fields, end, field, fields}
use grain_protocol.Json.Equality.{is_str_iff}
use grain_protocol.Stabilization.Paths.{
  Part, key, index, nth, get_item, get_at_path, is_b64_member, row_if, find_b64_paths,
  paths_in_fields, paths_in_items,
}

-- No object in a value lists a key twice, as `json.loads` makes them.
abbrev mutual
  pub IsProper : Value → Type 0
  IsProper (obj fs) = Distinct (keys (fields fs)) × AreProperFields fs
  IsProper (arr vs) = AreProperItems vs
  IsProper _ = Unit

  pub AreProperFields : Fields → Type 0
  AreProperFields end = Unit
  AreProperFields (field k v fs) = IsProper v × AreProperFields fs

  pub AreProperItems : Items → Type 0
  AreProperItems nil = Unit
  AreProperItems (cons v vs) = IsProper v × AreProperItems vs

module _ {ℓ} (M : Type ℓ) where
  -- A path that goes on from a given one, and leads to a text.
  abbrev pub LeadsToText : List Part → Value → List Part → Type ℓ
  LeadsToText before node path =
      (q : List Part) × (path ≡ before ++ q)
      × ((s : String) × (get_at_path {M = M} node q ≡ ok (str s)))

  -- A path that leads to a text from below leads to it from above.
  lift :
      (before : List Part) (part : Part) (node child : Value)
      → get_item {M = M} node part ≡ ok child
      → (path : List Part) → LeadsToText (before ++ (part ∷ [])) child path
      → LeadsToText before node path
  unfolding get_at_path
  lift before part node child got path (q, at, (s, leads)) =
      (part ∷ q, at ∙ append_assoc before (part ∷ []) q, (s, rw got leads))

str_eq_flip : (j k : String) → str_eq j k ≡ false → str_eq k j ≡ false
str_eq_flip j k h = elim (Bool-cases (str_eq k j)) [
  | inl same ↦ let e : str_eq j k ≡ true = (eq_iff j k).1 (sym ((eq_iff k j).0 same)) in cc (e, h)
  | inr other ↦ other
]

abbrev pub Looked : List (String × Value) → String × Value → Type 0
Looked rows row = lookup row.0 rows ≡ some row.1

Looked-cons :
    (k : String) (v : Value) (all rows : List (String × Value))
    → contains (keys rows) k ≡ false
    → All (Looked all) rows
    → All (Looked ((k, v) ∷ all)) rows
unfolding contains keys lookup
Looked-cons k v all [] h found = tt
Looked-cons k v all ((j, w) ∷ rows) h found =
    let here : str_eq j k ≡ false = ground arith in
    let rest : contains (keys rows) k ≡ false = ground arith in
    (rw (str_eq_flip j k here) found.0, Looked-cons k v all rows rest found.1)

-- Of names that are distinct, each leads to the value beside it.
pub Distinct-Looked : (rows : List (String × Value)) → Distinct (keys rows) → All (Looked rows) rows
unfolding keys lookup
Distinct-Looked [] h = tt
Distinct-Looked ((k, v) ∷ rows) h =
    (rw (eq_refl k), Looked-cons k v rows rows h.0 (Distinct-Looked rows h.1))

module _ {ℓ} (M : Type ℓ) where
  row_if-LeadsToText :
      (k : String) (v : Value) (path : List Part)
      → All
          (LeadsToText M (path ++ (key k ∷ [])) v)
          (row_if (is_b64_member k v) (path ++ (key k ∷ [])))
  unfolding get_at_path
  row_if-LeadsToText k v path = elim (Bool-cases (is_b64_member k v)) [
    | inl member ↦
        let (s, is_text) = (is_str_iff v).0 (and_parts _ _ member).1 in
        rw member (([], sym (append-nil (path ++ (key k ∷ []))), (s, ap ok is_text)), tt)
    | inr other ↦ rw other tt
  ]

  item_of_field :
      (whole : Fields) (k : String) (v : Value)
      → lookup k (fields whole) ≡ some v
      → get_item {M = M} (obj whole) (key k) ≡ ok v
  unfolding get_item
  item_of_field whole k v h = rw h

  item_of_list :
      (whole : Items) (idx : ℕ) (v : Value)
      → nth whole idx ≡ some v
      → get_item {M = M} (arr whole) (index idx) ≡ ok v
  unfolding get_item
  item_of_list whole idx v h = rw h

  first :
      (whole vs : Items) (v : Value) (idx : ℕ)
      → ((n : ℕ) → nth whole (idx + n) ≡ nth (cons v vs) n)
      → nth whole idx ≡ some v
  unfolding nth
  first whole vs v idx same = let e : idx ≡ idx + 0 = omega arith in ap (nth whole) e ∙ same 0

  next :
      (whole vs : Items) (v : Value) (idx : ℕ)
      → ((n : ℕ) → nth whole (idx + n) ≡ nth (cons v vs) n)
      → (n : ℕ) → nth whole (suc idx + n) ≡ nth vs n
  unfolding nth
  next whole vs v idx same n =
      let e : suc idx + n ≡ idx + suc n = omega arith in ap (nth whole) e ∙ same (suc n)

  mutual
    unfolding find_b64_paths

    found_in_value :
        (v : Value) (path : List Part)
        → IsProper v
        → All (LeadsToText M path v) (find_b64_paths v path)
    found_in_value (obj fs) path proper =
        found_in_fields fs fs path (Distinct-Looked (fields fs) proper.0) proper.1
    found_in_value (arr vs) path proper =
        found_in_items vs vs path 0 (λ n. ap (nth vs) (omega arith)) proper
    found_in_value _ path proper = tt

    found_in_fields :
        (whole fs : Fields) (path : List Part)
        → All (Looked (fields whole)) (fields fs)
        → AreProperFields fs
        → All (LeadsToText M path (obj whole)) (paths_in_fields fs path)
    found_in_fields whole end path looked proper = tt
    found_in_fields whole (field k v fs) path looked proper =
        let up = lift M path (key k) (obj whole) v (item_of_field whole k v looked.0) in
        All-append (LeadsToText M path (obj whole)) _ _ (All-map _ up (row_if-LeadsToText k v path))
          (All-append (LeadsToText M path (obj whole)) _ _
            (All-map _ up (found_in_value v (path ++ (key k ∷ [])) proper.0))
            (found_in_fields whole fs path looked.1 proper.1))

    found_in_items :
        (whole vs : Items) (path : List Part) (idx : ℕ)
        → ((n : ℕ) → nth whole (idx + n) ≡ nth vs n)
        → AreProperItems vs
        → All (LeadsToText M path (arr whole)) (paths_in_items vs path idx)
    found_in_items whole nil path idx same proper = tt
    found_in_items whole (cons v vs) path idx same proper =
        All-append (LeadsToText M path (arr whole)) _ _
          (All-map _
            (lift M path (index idx) (arr whole) v
              (item_of_list whole idx v (first whole vs v idx same)))
            (found_in_value v (path ++ (index idx ∷ [])) proper.0))
          (found_in_items whole vs path (suc idx) (next whole vs v idx same) proper.1)

  -- Every path that is found in a value leads to a text of it.
  pub find_b64_paths-LeadsToText :
      (v : Value)
      → IsProper v
      → All (λ path. (s : String) × (get_at_path {M = M} v path ≡ ok (str s))) (find_b64_paths v [])
  find_b64_paths-LeadsToText v proper =
      All-map _
        (λ path (q, at, (s, leads)).
          (s, subst (λ p. get_at_path {M = M} v p ≡ ok (str s)) (sym at) leads))
        (found_in_value v [] proper)
