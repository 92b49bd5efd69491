-- ===== src/FoodWallet/Clean.antt =====
-- The search for raw material: what `reject_forbidden_raw_material` lets through, and what it does not
-- look at.
use grain_protocol.Base.{
  ℕ, suc, ◌≡◌, refl, ◌↔◌, String, Bool, false, List, [], ◌∷◌, ◌++◌, All, All-append,
  All-append_left, All-append_right, ok, >>_iff, require-Accepts, not_iff, false_iff, join_iff,
  then_iff,
}
use grain_protocol.Json.{Value, arr, obj, Items, nil, cons, Fields, end, field, texts}
use grain_protocol.Report.{Detail, at}
use grain_protocol.FoodWallet.Material.{
  IsRawName, IsRawValue, is_forbidden_key_iff, is_forbidden_value_iff,
}
use grain_protocol.FoodWallet.Privacy.{
  is_forbidden_key, walk_items, walk_fields, walk_list, is_forbidden_value, reject_items,
  reject_forbidden_raw_material,
}

module _ (is_wide_word : ℕ → Bool) where
  -- A member of an object whose name has no word of raw material in it, and whose value is no text with
  -- a title or a token of raw material in it.
  abbrev pub IsCleanMember : String → Value → Type 0
  IsCleanMember key value = (¬ IsRawName key) × (¬ IsRawValue is_wide_word value)

  -- All members of all objects below a value. A text that stands in a list is no member.
  abbrev mutual
    pub IsClean : Value → Type 0
    IsClean (obj fs) = AreCleanFields fs
    IsClean (arr vs) = AreCleanItems vs
    IsClean _ = Unit

    pub AreCleanFields : Fields → Type 0
    AreCleanFields end = Unit
    AreCleanFields (field key item fs) = IsCleanMember key item × (IsClean item × AreCleanFields fs)

    pub AreCleanItems : Items → Type 0
    AreCleanItems nil = Unit
    AreCleanItems (cons item vs) = IsClean item × AreCleanItems vs

  abbrev IsCleanRow : Detail × String × Value → Type 0
  IsCleanRow (path, key, value) = IsCleanMember key value

  reject_items_iff :
      (rows : List (Detail × String × Value))
      → (reject_items is_wide_word rows ≡ ok tt) ↔ All IsCleanRow rows
  unfolding reject_items
  reject_items_iff [] = (λ h. tt, λ h. refl)
  reject_items_iff ((path, key, value) ∷ rows) =
      let allowed = false_iff (is_forbidden_key key) (is_forbidden_key_iff key) in
      let harmless =
        false_iff (is_forbidden_value is_wide_word value)
          (is_forbidden_value_iff is_wide_word value) in
      let steps =
        >>_iff _ _ tt (require-Accepts _ _ (then_iff (not_iff (is_forbidden_key key)) allowed)) (
          >>_iff _ _ tt
            (require-Accepts _ _
              (then_iff (not_iff (is_forbidden_value is_wide_word value)) harmless))
            (reject_items_iff rows)) in
      (
        λ h. let (a, (b, rest)) = steps.0 h in ((a, b), rest),
        λ ((a, b), rest). steps.1 (a, (b, rest)),
      )

  append_iff :
      (xs ys : List (Detail × String × Value))
      → All IsCleanRow (xs ++ ys) ↔ (All IsCleanRow xs × All IsCleanRow ys)
  append_iff xs ys = (
    λ h. (All-append_left IsCleanRow xs ys h, All-append_right IsCleanRow xs ys h),
    λ h. All-append IsCleanRow xs ys h.0 h.1,
  )

  mutual
    unfolding walk_items

    walk_items_iff : (v : Value) (path : Detail) → All IsCleanRow (walk_items v path) ↔ IsClean v
    walk_items_iff (obj fs) path = walk_fields_iff fs path
    walk_items_iff (arr vs) path = walk_list_iff vs path 0
    walk_items_iff _ path = (λ h. tt, λ h. tt)

    walk_fields_iff :
        (fs : Fields) (path : Detail) → All IsCleanRow (walk_fields fs path) ↔ AreCleanFields fs
    walk_fields_iff end path = (λ h. tt, λ h. tt)
    walk_fields_iff (field key item fs) path =
        join_iff (λ h. h, λ h. h)
          (then_iff (append_iff (walk_items item _) (walk_fields fs path))
            (join_iff (walk_items_iff item _) (walk_fields_iff fs path)))

    walk_list_iff :
        (vs : Items) (path : Detail) (index : ℕ)
        → All IsCleanRow (walk_list vs path index) ↔ AreCleanItems vs
    walk_list_iff nil path index = (λ h. tt, λ h. tt)
    walk_list_iff (cons item vs) path index =
        then_iff (append_iff (walk_items item (at path index)) (walk_list vs path (suc index)))
          (join_iff (walk_items_iff item (at path index)) (walk_list_iff vs path (suc index)))

  -- A fixture passes exactly when no member of an object in it, at any depth, has a name with a word of
  -- raw material in it, or a text with a title or a token of raw material in it, as they are spelled out
  -- by `RawName`, `RawTitle` and `RawToken`.
  pub reject_forbidden_raw_material_iff :
      (fixture : Fields) (path : String)
      → (reject_forbidden_raw_material is_wide_word fixture path ≡ ok tt) ↔ AreCleanFields fixture
  unfolding reject_forbidden_raw_material
  reject_forbidden_raw_material_iff fixture path =
      then_iff (reject_items_iff (walk_fields fixture _)) (walk_fields_iff fixture _)

  -- Texts that stand in a list are not looked at: a member whose name is allowed and whose value is a
  -- list of texts passes, whatever the texts say.
  pub list_of_texts-passes :
      (key path : String) (vs : List String)
      → is_forbidden_key key ≡ false
      → reject_forbidden_raw_material is_wide_word (field key (arr (texts vs)) end) path ≡ ok tt
  list_of_texts-passes key path vs allowed =
      (reject_forbidden_raw_material_iff (field key (arr (texts vs)) end) path).1 (
        ((false_iff (is_forbidden_key key) (is_forbidden_key_iff key)).0 allowed, λ h. absurd h),
        (clean vs, tt),
      )
    where
      clean : (ss : List String) → AreCleanItems (texts ss)
      clean [] = tt
      clean (s ∷ ss) = (tt, clean ss)
