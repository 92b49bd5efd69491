-- ===== src/Vectors/Walks.antt =====
-- The walks over a vector against predicates on the whole tree.
use grain_protocol.Base.{
  ℕ, suc, ◌≡◌, refl, ◌↔◌, String, true, false, List, [], ◌++◌, All, All-append, All-append_left,
  All-append_right, append-eq-nil_iff, join_iff, then_iff, Option, none, some, Bool, ◌∷◌,
  if◌then◌else◌, arith,
}
use grain_protocol.Base.Int.{ℤ, pos, negsuc, ◌≤ℤ◌}
use grain_protocol.Json.{Value, int, arr, obj, Items, nil, cons, Fields, end, field}
use grain_protocol.Report.{Detail, at}
use grain_protocol.Vectors.{
  validate_b64, or_root, child_path, is_unsafe, collect_unsafe_expect_integers, unsafe_in_fields,
  unsafe_in_items, b64_text, row_or, collect_b64_fields, b64_in_fields, b64_in_items,
}

-- Between -(2^53 - 1) and 2^53 - 1.
abbrev pub IsSafeInteger : ℤ → Type 0
IsSafeInteger n = (negsuc 9007199254740990 ≤ℤ n) × (n ≤ℤ pos 9007199254740991)

is_unsafe_iff : (n : ℤ) → (is_unsafe n ≡ false) ↔ IsSafeInteger n
unfolding is_unsafe
is_unsafe_iff n = ground arith

unsafe_row_iff :
    (row : Detail × ℤ) (b : Bool)
    → ◌≡◌ {A = List (Detail × ℤ)} (if b then row ∷ [] else []) [] ↔ (b ≡ false)
unsafe_row_iff row true = (λ h. cc, λ h. cc)
unsafe_row_iff row false = (λ h. refl, λ h. refl)

-- Every integer in a value, at any depth, is at most 2^53 - 1 in absolute value.
abbrev mutual
  pub IsSafe : Value → Type 0
  IsSafe (int n) = IsSafeInteger n
  IsSafe (obj fs) = AreSafeFields fs
  IsSafe (arr vs) = AreSafeItems vs
  IsSafe _ = Unit

  pub AreSafeFields : Fields → Type 0
  AreSafeFields end = Unit
  AreSafeFields (field key value fs) = IsSafe value × AreSafeFields fs

  pub AreSafeItems : Items → Type 0
  AreSafeItems nil = Unit
  AreSafeItems (cons item vs) = IsSafe item × AreSafeItems vs

mutual
  unfolding collect_unsafe_expect_integers

  unsafe_in_value_iff :
      (v : Value) (path : Detail) → (collect_unsafe_expect_integers v path ≡ []) ↔ IsSafe v
  unsafe_in_value_iff (int n) path =
      then_iff (unsafe_row_iff (or_root path, n) (is_unsafe n)) (is_unsafe_iff n)
  unsafe_in_value_iff (obj fs) path = unsafe_in_fields_iff fs path
  unsafe_in_value_iff (arr vs) path = unsafe_in_items_iff vs path 0
  unsafe_in_value_iff _ path = (λ h. tt, λ h. refl)

  unsafe_in_fields_iff :
      (fs : Fields) (path : Detail) → (unsafe_in_fields fs path ≡ []) ↔ AreSafeFields fs
  unsafe_in_fields_iff end path = (λ h. tt, λ h. refl)
  unsafe_in_fields_iff (field key value fs) path =
      then_iff
        (append-eq-nil_iff (collect_unsafe_expect_integers value (child_path path key))
          (unsafe_in_fields fs path))
        (join_iff (unsafe_in_value_iff value (child_path path key)) (unsafe_in_fields_iff fs path))

  unsafe_in_items_iff :
      (vs : Items) (path : Detail) (idx : ℕ) → (unsafe_in_items vs path idx ≡ []) ↔ AreSafeItems vs
  unsafe_in_items_iff nil path idx = (λ h. tt, λ h. refl)
  unsafe_in_items_iff (cons item vs) path idx =
      then_iff
        (append-eq-nil_iff (collect_unsafe_expect_integers item (at path idx))
          (unsafe_in_items vs path (suc idx)))
        (join_iff (unsafe_in_value_iff item (at path idx)) (unsafe_in_items_iff vs path (suc idx)))

-- Nothing is collected exactly when every integer at any depth lies between -(2^53 - 1) and 2^53 - 1.
pub collect_unsafe_expect_integers-eq-nil_iff :
    (v : Value) (path : Detail) → (collect_unsafe_expect_integers v path ≡ []) ↔ IsSafe v
collect_unsafe_expect_integers-eq-nil_iff v path = unsafe_in_value_iff v path

-- A text whose name calls for base64 decodes; any other member is looked into.
abbrev pub IsMember : Type 0 → Option String → Type 0
IsMember Below none = Below
IsMember Below (some s) = validate_b64 s ≡ true

abbrev mutual
  pub HasB64 : Value → Type 0
  HasB64 (obj fs) = HaveB64Fields fs
  HasB64 (arr vs) = HaveB64Items vs
  HasB64 _ = Unit

  pub HaveB64Fields : Fields → Type 0
  HaveB64Fields end = Unit
  HaveB64Fields (field key value fs) =
      IsMember (HasB64 value) (b64_text key value) × HaveB64Fields fs

  pub HaveB64Items : Items → Type 0
  HaveB64Items nil = Unit
  HaveB64Items (cons item vs) = HasB64 item × HaveB64Items vs

abbrev IsValidRow : Detail × String → Type 0
IsValidRow (path, value) = validate_b64 value ≡ true

append_iff :
    (xs ys : List (Detail × String))
    → All IsValidRow (xs ++ ys) ↔ (All IsValidRow xs × All IsValidRow ys)
append_iff xs ys = (
  λ h. (All-append_left IsValidRow xs ys h, All-append_right IsValidRow xs ys h),
  λ h. All-append IsValidRow xs ys h.0 h.1,
)

row_or_iff :
    {Below : Type 0} (path : Detail) (o : Option String) (rows : List (Detail × String))
    → (All IsValidRow rows ↔ Below)
    → All IsValidRow (row_or path o rows) ↔ IsMember Below o
row_or_iff path none rows below = below
row_or_iff path (some s) rows below = (λ h. h.0, λ h. (h, tt))

mutual
  unfolding collect_b64_fields

  pub collect_b64_fields_iff :
      (v : Value) (path : Detail) → All IsValidRow (collect_b64_fields v path) ↔ HasB64 v
  collect_b64_fields_iff (obj fs) path = b64_in_fields_iff fs path
  collect_b64_fields_iff (arr vs) path = b64_in_items_iff vs path 0
  collect_b64_fields_iff _ path = (λ h. tt, λ h. tt)

  b64_in_fields_iff :
      (fs : Fields) (path : Detail) → All IsValidRow (b64_in_fields fs path) ↔ HaveB64Fields fs
  b64_in_fields_iff end path = (λ h. tt, λ h. tt)
  b64_in_fields_iff (field key value fs) path =
      then_iff
        (append_iff (row_or (child_path path key) (b64_text key value) _) (b64_in_fields fs path))
        (join_iff
          (row_or_iff (child_path path key) (b64_text key value) _
            (collect_b64_fields_iff value (child_path path key)))
          (b64_in_fields_iff fs path))

  b64_in_items_iff :
      (vs : Items) (path : Detail) (idx : ℕ)
      → All IsValidRow (b64_in_items vs path idx) ↔ HaveB64Items vs
  b64_in_items_iff nil path idx = (λ h. tt, λ h. tt)
  b64_in_items_iff (cons item vs) path idx =
      then_iff (append_iff (collect_b64_fields item (at path idx)) (b64_in_items vs path (suc idx)))
        (join_iff (collect_b64_fields_iff item (at path idx)) (b64_in_items_iff vs path (suc idx)))
