-- ===== src/Vectors/Shapes.antt =====
-- The shape checks of a manifest record and of a ledger event against what they ask for.
use grain_protocol.Base.{
  ◌≡◌, refl, ◌↔◌, ◌⊎◌, inl, inr, ◌∙◌, ap, sym, subst, arith, String, str_eq, eq_iff, Bool, true,
  false, not, ◌&&◌, ◌||◌, List, [], ◌∷◌, contains, All, length, ◌==◌, Bool-cases, if◌then◌else◌,
  Option, none, some, ok, >>=-eq-ok, ok-injective,
}
use grain_protocol.Json.{Value, str, obj, Fields, get, has_key, in_set, py_eq}
use grain_protocol.Json.Equality.{in_set-OneOf, OneOf}
use grain_protocol.Vectors.{
  Problem, manifest_problem, validate_manifest_record_shape, event_keys, missing_from,
  check_event_body, body_or, validate_ledger_event_shape,
}

put_iff :
    (has_cap has_chash : Bool)
    → (manifest_problem (str "put") has_cap has_chash ≡ none)
      ↔ ((has_cap ≡ true) × (has_chash ≡ true))
unfolding manifest_problem py_eq
put_iff true true = (λ h. (refl, refl), λ h. refl)
put_iff true false = (λ h. cc, λ h. cc)
put_iff false has_chash = (λ h. cc, λ h. cc)

del_iff :
    (has_cap has_chash : Bool)
    → (manifest_problem (str "del") has_cap has_chash ≡ none)
      ↔ ((has_cap ≡ false) × (has_chash ≡ false))
unfolding manifest_problem py_eq
del_iff false false = (λ h. (refl, refl), λ h. refl)
del_iff false true = (λ h. cc, λ h. cc)
del_iff true has_chash = (λ h. cc, λ h. cc)

-- A record that puts has both keys, and one that deletes has neither.
abbrev pub IsRecord : Fields → Type 0
IsRecord rec =
    ((get rec "op" ≡ str "put")
      × ((has_key rec "cap_id_b64" ≡ true) × (has_key rec "chash_b64" ≡ true)))
    ⊎ ((get rec "op" ≡ str "del")
        × ((has_key rec "cap_id_b64" ≡ false) × (has_key rec "chash_b64" ≡ false)))

put_or_del : (v : Value) → OneOf ("put" ∷ "del" ∷ []) v → (v ≡ str "put") ⊎ (v ≡ str "del")
unfolding contains
put_or_del v (s, e, h) = elim (Bool-cases (str_eq "put" s)) [
  | inl same ↦ inl (e ∙ ap str (sym ((eq_iff "put" s).0 same)))
  | inr other ↦
      let del : str_eq "del" s ≡ true = ground arith in
      inr (e ∙ ap str (sym ((eq_iff "del" s).0 del)))
]

accepted-IsRecord : (rec : Fields) → validate_manifest_record_shape rec ≡ ok none → IsRecord rec
unfolding validate_manifest_record_shape
accepted-IsRecord rec h =
    let (known, is_in, h1) = >>=-eq-ok (in_set (get rec "op") ("put" ∷ "del" ∷ [])) _ h in
    let found : (known ≡ true)
        × (manifest_problem (get rec "op") (has_key rec "cap_id_b64") (has_key rec "chash_b64")
            ≡ none) =
      split _ known (ok-injective h1) in
    elim (put_or_del (get rec "op") (in_set-OneOf (get rec "op") _ (is_in ∙ ap ok found.0))) [
      | inl put ↦ inl (
        put,
        (put_iff _ _).0 (
            subst
              (λ v. manifest_problem v (has_key rec "cap_id_b64") (has_key rec "chash_b64") ≡ none)
              put found.1),
      )
      | inr del ↦ inr (
        del,
        (del_iff _ _).0 (
            subst
              (λ v. manifest_problem v (has_key rec "cap_id_b64") (has_key rec "chash_b64") ≡ none)
              del found.1),
      )
    ]
  where
    split :
        {q : Option Problem} (p : Problem) (b : Bool)
        → (if b then q else some p) ≡ none
        → (b ≡ true) × (q ≡ none)
    split p true e = (refl, e)
    split p false e = cc

IsRecord-accepted : (rec : Fields) → IsRecord rec → validate_manifest_record_shape rec ≡ ok none
unfolding validate_manifest_record_shape in_set contains
IsRecord-accepted rec (inl (put, keys)) = rw put (ap ok ((put_iff _ _).1 keys))
IsRecord-accepted rec (inr (del, keys)) = rw del (ap ok ((del_iff _ _).1 keys))

-- A manifest record has the right shape exactly when it puts and has both keys, or deletes and has
-- neither.
pub validate_manifest_record_shape_iff :
    (rec : Fields) → (validate_manifest_record_shape rec ≡ ok none) ↔ IsRecord rec
validate_manifest_record_shape_iff rec = (accepted-IsRecord rec, IsRecord-accepted rec)

pub missing_from-nil_iff :
    (ev : Fields) (names : List String)
    → ((length (missing_from ev names) == 0) ≡ true) ↔ All (λ key. has_key ev key ≡ true) names
unfolding missing_from
missing_from-nil_iff ev [] = (λ h. tt, λ h. refl)
missing_from-nil_iff ev (key ∷ names) = elim (Bool-cases (has_key ev key)) [
  | inl there ↦
      rw there (
        λ h. (refl, (missing_from-nil_iff ev names).0 h),
        λ h. (missing_from-nil_iff ev names).1 h.1,
      )
  | inr absent ↦ rw absent (λ h. ground arith, λ h. cc)
]

-- What the type of an event asks of its body.
abbrev pub IsBodyOf : Value → Fields → Type 0
IsBodyOf t body =
    (py_eq t (str "DeviceKeyGrant") ≡ true → has_key body "grant_ak" ≡ true)
    × ((py_eq t (str "DeviceKeyRevoke") ≡ true → has_key body "revoke_ak" ≡ true)
        × (py_eq t (str "IntakeEvent") ≡ true
            → (has_key body "mean" ≡ true) × (has_key body "var" ≡ true)))

body_iff :
    (grant revoke intake a b c d : Bool) (p q r : Problem)
    → ◌≡◌ {A = Option Problem}
        (if grant && not a
          then some p
          else if revoke && not b
          then some q
          else if intake && (not c || not d)
          then some r
          else none)
        none
      ↔ ((grant ≡ true → a ≡ true)
          × ((revoke ≡ true → b ≡ true) × (intake ≡ true → (c ≡ true) × (d ≡ true))))
body_iff grant revoke intake a b c d p q r = ground arith

body_or_iff :
    (t v : Value) → (body_or t v ≡ none) ↔ ((body : Fields) × (v ≡ obj body) × IsBodyOf t body)
unfolding check_event_body
body_or_iff t (obj fs) =
    let both =
      body_iff (py_eq t (str "DeviceKeyGrant")) (py_eq t (str "DeviceKeyRevoke"))
        (py_eq t (str "IntakeEvent")) (has_key fs "grant_ak") (has_key fs "revoke_ak")
        (has_key fs "mean") (has_key fs "var") _ _ _ in
    (
      λ h. (fs, refl, both.0 h),
      λ (body, e, is_body). let same : body ≡ fs = cc in both.1 (subst (IsBodyOf t) same is_body),
    )
body_or_iff t _ = (λ h. cc, λ (body, e, is_body). cc)

-- An event with the five keys, whose body is an object with what its type asks for.
abbrev pub IsEvent : Fields → Type 0
IsEvent ev =
    All (λ key. has_key ev key ≡ true) event_keys
    × ((body : Fields) × (get ev "body" ≡ obj body) × IsBodyOf (get ev "t") body)

-- A ledger event has the right shape exactly when it has the five keys and a body with the members
-- that its type asks for.
pub validate_ledger_event_shape_iff :
    (ev : Fields) → (validate_ledger_event_shape ev ≡ none) ↔ IsEvent ev
unfolding validate_ledger_event_shape
validate_ledger_event_shape_iff ev =
    let all_there = missing_from-nil_iff ev event_keys in
    elim (Bool-cases (length (missing_from ev event_keys) == 0)) [
      | inl whole ↦
          rw (validate_ledger_event_shape, whole)
            (
              λ h. (all_there.0 whole, (body_or_iff (get ev "t") (get ev "body")).0 h),
              λ h. (body_or_iff (get ev "t") (get ev "body")).1 h.1,
            )
      | inr lacking ↦
          rw (validate_ledger_event_shape, lacking)
            (λ h. cc, λ h. absurd (true_is_not_false (sym (all_there.1 h.0) ∙ lacking)))
    ]
  where
    true_is_not_false : ¬ (true ≡ false)
    true_is_not_false e = cc
