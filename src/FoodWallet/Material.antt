-- ===== src/FoodWallet/Material.antt =====
-- Which names and texts are raw material: the searches of `reject_forbidden_raw_material` against the
-- words of Forbidden.
use grain_protocol.Base.{
  ℕ, ◌≡◌, refl, sym, ap, subst, ◌↔◌, ◌⊎◌, inl, inr, arith, String, Bool, true, false, not, ◌&&◌,
  ◌||◌, List, [], ◌∷◌, ◌++◌, Bool-cases, or_iff, and_parts, then_iff,
}
use grain_protocol.Base.Text.{codes}
use grain_protocol.Json.{Value, str}
use grain_protocol.Regex.{Regex, match_prefix, search_regex, nullable}
use grain_protocol.Regex.Languages.{Denotes}
use grain_protocol.Regex.Matching.{match_prefix-Begins, Begins-match_prefix, search_regex_iff}
use grain_protocol.FoodWallet.Forbidden.{
  RawName, RawTitle, RawToken, forbidden_field-Denotes, forbidden_content-Denotes,
  forbidden_token-Denotes,
}
use grain_protocol.FoodWallet.Privacy.{
  forbidden_field, forbidden_content, forbidden_token, is_forbidden_key, is_word, search_token,
  has_forbidden_content, is_forbidden_value,
}

-- A text with a piece of a kind in it.
abbrev pub Contains : (List ℕ → Type 0) → List ℕ → Type 0
Contains P s =
    (before : List ℕ) × (w : List ℕ) × (after : List ℕ) × (s ≡ before ++ (w ++ after)) × P w

search_regex-Contains :
    (r : Regex) (P : List ℕ → Type 0) (s : List ℕ)
    → Denotes r P
    → (search_regex r s ≡ true) ↔ Contains P s
search_regex-Contains r P s p = then_iff (search_regex_iff r s) (
  λ (before, w, after, e, m). (before, w, after, e, (p w).0 m),
  λ (before, w, after, e, m). (before, w, after, e, (p w).1 m),
)

-- A name of raw material.
abbrev pub IsRawName : String → Type 0
IsRawName key = Contains RawName (codes key)

pub is_forbidden_key_iff : (key : String) → (is_forbidden_key key ≡ true) ↔ IsRawName key
unfolding is_forbidden_key
is_forbidden_key_iff key =
    search_regex-Contains forbidden_field RawName (codes key) forbidden_field-Denotes

-- Nothing is no token.
no_token : match_prefix forbidden_token [] ≡ false
unfolding match_prefix nullable
no_token = refl

or_right : (a : Bool) {b : Bool} → b ≡ true → (a || b) ≡ true
or_right a h = ground (arith, h)

module _ (is_wide_word : ℕ → Bool) where
  -- Whether what ends in these characters ends in one of a word.
  abbrev pub ends_word : Bool → List ℕ → Bool
  ends_word last [] = last
  ends_word last (c ∷ s) = ends_word (is_word is_wide_word c) s

  -- A token before which no word goes on.
  abbrev pub HasToken : Bool → List ℕ → Type 0
  HasToken last s =
      (before : List ℕ) × (w : List ℕ) × (after : List ℕ) × (s ≡ before ++ (w ++ after))
      × RawToken w
      × (ends_word last before ≡ false)

  search_token-HasToken :
      (last : Bool) (s : List ℕ) → search_token is_wide_word last s ≡ true → HasToken last s
  unfolding search_token
  search_token-HasToken last [] h = cc
  search_token-HasToken last (c ∷ s) h =
      elim (Bool-cases (not last && match_prefix forbidden_token (c ∷ s))) [
        | inl here ↦
            let (apart, fits) = and_parts (not last) (match_prefix forbidden_token (c ∷ s)) here in
            let (w, after, e, m) = match_prefix-Begins forbidden_token (c ∷ s) fits in
            ([], w, after, e, (forbidden_token-Denotes w).0 m, ground arith)
        | inr later ↦
            let (before, w, after, e, m, apart) = search_token-HasToken (is_word is_wide_word c) s (
              subst (λ b. (b || search_token is_wide_word (is_word is_wide_word c) s) ≡ true) later
                h) in
            (c ∷ before, w, after, ap (λ x. c ∷ x) e, m, apart)
      ]

  HasToken-search_token :
      (last : Bool) (s before w after : List ℕ)
      → s ≡ before ++ (w ++ after)
      → RawToken w
      → ends_word last before ≡ false
      → search_token is_wide_word last s ≡ true
  unfolding search_token
  HasToken-search_token last [] before w after e m apart = absurd (empty before e)
    where
      fits : match_prefix forbidden_token (w ++ after) ≡ true
      fits =
          Begins-match_prefix forbidden_token (w ++ after) w after refl
            ((forbidden_token-Denotes w).1 m)

      empty : (bs : List ℕ) → [] ≡ bs ++ (w ++ after) → ⊥
      empty [] k =
          let none = no_token in
          let none_fits = subst (λ x. match_prefix forbidden_token x ≡ true) (sym k) fits in cc
      empty (b ∷ bs) k = cc
  HasToken-search_token last (c ∷ s) [] w after e m apart =
      let fits =
        subst (λ x. match_prefix forbidden_token x ≡ true) (sym e)
          (Begins-match_prefix forbidden_token (w ++ after) w after refl
            ((forbidden_token-Denotes w).1 m)) in
      rw (apart, fits) refl
  HasToken-search_token last (c ∷ s) (b ∷ before) w after e m apart =
      let head : b ≡ c = cc in
      let rest : s ≡ before ++ (w ++ after) = cc in
      let later =
        HasToken-search_token (is_word is_wide_word c) s before w after rest m
          (subst (λ x. ends_word (is_word is_wide_word x) before ≡ false) head apart) in
      or_right (not last && match_prefix forbidden_token (c ∷ s)) later

  -- A text of raw material: a title or a token stands in it.
  abbrev pub IsRawText : String → Type 0
  IsRawText s = Contains RawTitle (codes s) ⊎ HasToken false (codes s)

  pub has_forbidden_content_iff :
      (s : String) → (has_forbidden_content is_wide_word s ≡ true) ↔ IsRawText s
  unfolding has_forbidden_content
  has_forbidden_content_iff s =
      or_iff (search_regex forbidden_content (codes s)) (search_token is_wide_word false (codes s))
        (search_regex-Contains forbidden_content RawTitle (codes s) forbidden_content-Denotes)
        (
          search_token-HasToken false (codes s),
          λ (before, w, after, e, m, apart).
              HasToken-search_token false (codes s) before w after e m apart,
        )

  -- A value that is such a text.
  abbrev pub IsRawValue : Value → Type 0
  IsRawValue (str s) = IsRawText s
  IsRawValue _ = ⊥

  pub is_forbidden_value_iff :
      (v : Value) → (is_forbidden_value is_wide_word v ≡ true) ↔ IsRawValue v
  is_forbidden_value_iff (str s) = has_forbidden_content_iff s
  is_forbidden_value_iff _ = (λ h. cc, λ h. absurd h)
