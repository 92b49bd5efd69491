-- ===== src/Regex/Matching.antt =====
-- The search against the meaning of regular expressions.
use grain_protocol.Base.{
  ℕ, ◌≡◌, refl, ◌↔◌, ◌∙◌, ap, sym, subst, arith, true, List, [], ◌∷◌, ◌++◌, Bool-cases, inl, inr,
  if◌then◌else◌, and_parts,
}
use grain_protocol.Regex.{
  Regex, never, eps, class, seq, alt, star, in_class, nullable, seq', alt', deriv, match_prefix,
  search_regex,
}

-- The texts that an expression stands for.
pub data Matches : Regex → List ℕ → Type 0 where
  m_eps : {w : List ℕ} → w ≡ [] → Matches eps w
  m_class :
      {ranges : List (ℕ × ℕ)} {w : List ℕ} (c : ℕ)
      → in_class ranges c ≡ true
      → w ≡ c ∷ []
      → Matches (class ranges) w
  m_seq :
      {r q : Regex} {w s t : List ℕ} → Matches r s → Matches q t → w ≡ s ++ t → Matches (seq r q) w
  m_left : {r q : Regex} {w : List ℕ} → Matches r w → Matches (alt r q) w
  m_right : {r q : Regex} {w : List ℕ} → Matches q w → Matches (alt r q) w
  m_stop : {r : Regex} {w : List ℕ} → w ≡ [] → Matches (star r) w
  m_more :
      {r : Regex} {w s t : List ℕ} (c : ℕ)
      → Matches r (c ∷ s)
      → Matches (star r) t
      → w ≡ c ∷ (s ++ t)
      → Matches (star r) w

append-nil_parts : (s t : List ℕ) → [] ≡ s ++ t → (s ≡ []) × (t ≡ [])
append-nil_parts [] t h = (refl, sym h)
append-nil_parts (c ∷ s) t h = cc

nullable-Matches : (r : Regex) → nullable r ≡ true → Matches r []
unfolding nullable
nullable-Matches never h = cc
nullable-Matches eps h = m_eps refl
nullable-Matches (class ranges) h = cc
nullable-Matches (seq r q) h =
    let (a, b) = and_parts (nullable r) (nullable q) h in
    m_seq (nullable-Matches r a) (nullable-Matches q b) refl
nullable-Matches (alt r q) h = elim (Bool-cases (nullable r)) [
  | inl a ↦ m_left (nullable-Matches r a)
  | inr b ↦ m_right (nullable-Matches q (ground arith))
]
nullable-Matches (star r) h = m_stop refl

Matches-nullable : {r : Regex} {w : List ℕ} → Matches r w → w ≡ [] → nullable r ≡ true
unfolding nullable
Matches-nullable (m_eps _) e = refl
Matches-nullable (m_class c _ at) e = cc
Matches-nullable (m_seq {s = s} {t = t} a b at) e =
    let (left, right) = append-nil_parts s t (sym e ∙ at) in
    rw (Matches-nullable a left, Matches-nullable b right)
Matches-nullable (m_left {r} a) e = rw (Matches-nullable a e)
Matches-nullable (m_right {r} {q} b) e = let there = Matches-nullable b e in ground (arith, there)
Matches-nullable (m_stop _) e = refl
Matches-nullable (m_more c a b at) e = refl

seq'-Matches : (r q : Regex) {w : List ℕ} → Matches (seq' r q) w → Matches (seq r q) w
unfolding seq'
seq'-Matches never q h = elim h [ ]
seq'-Matches _ q h = h

Matches-seq' : (r q : Regex) {w : List ℕ} → Matches (seq r q) w → Matches (seq' r q) w
unfolding seq'
Matches-seq' never q (m_seq a b at) = absurd (not_never a)
  where
    not_never : {s : List ℕ} → ¬ Matches never s
    not_never h = elim h [ ]
Matches-seq' _ q h = h

alt'-Matches : (r q : Regex) {w : List ℕ} → Matches (alt' r q) w → Matches (alt r q) w
unfolding alt'
alt'-Matches never q h = m_right h
alt'-Matches _ q h = h

not-Matches-never : {s : List ℕ} → ¬ Matches never s
not-Matches-never h = elim h [ ]

Matches-alt' : (r q : Regex) {w : List ℕ} → Matches (alt r q) w → Matches (alt' r q) w
unfolding alt'
Matches-alt' never q (m_left a) = absurd (not-Matches-never a)
Matches-alt' never q (m_right b) = b
Matches-alt' _ q h = h

cons_parts : {c d : ℕ} {s t : List ℕ} → ◌≡◌ {A = List ℕ} (c ∷ s) (d ∷ t) → (c ≡ d) × (s ≡ t)
cons_parts h = (cc, cc)

module _ (c : ℕ) where
  class_cons :
      {ranges : List (ℕ × ℕ)} {w : List ℕ}
      → in_class ranges c ≡ true
      → Matches eps w
      → Matches (class ranges) (c ∷ w)
  class_cons there (m_eps e) = m_class c there (ap (λ l. c ∷ l) e)

  seq_cons :
      {r r' q : Regex} {w : List ℕ}
      → ((s : List ℕ) → Matches r' s → Matches r (c ∷ s))
      → Matches (seq r' q) w
      → Matches (seq r q) (c ∷ w)
  seq_cons step (m_seq {s = s} a b at) = m_seq (step s a) b (ap (λ l. c ∷ l) at)

  star_cons :
      {r r' : Regex} {w : List ℕ}
      → ((s : List ℕ) → Matches r' s → Matches r (c ∷ s))
      → Matches (seq r' (star r)) w
      → Matches (star r) (c ∷ w)
  star_cons step (m_seq {s = s} a b at) = m_more c (step s a) b (ap (λ l. c ∷ l) at)

  alt_cons :
      {r r' q q' : Regex} {w : List ℕ}
      → (Matches r' w → Matches r (c ∷ w))
      → (Matches q' w → Matches q (c ∷ w))
      → Matches (alt r' q') w
      → Matches (alt r q) (c ∷ w)
  alt_cons left right (m_left a) = m_left (left a)
  alt_cons left right (m_right b) = m_right (right b)

  join {ℓ} :
      {P : Type ℓ} {r q : Regex} {w : List ℕ}
      → (Matches r w → P)
      → (Matches q w → P)
      → Matches (alt r q) w
      → P
  join left right (m_left a) = left a
  join left right (m_right b) = right b

  -- A derivative matches what is left of a match after its first character.
  deriv-Matches : (r : Regex) (w : List ℕ) → Matches (deriv c r) w → Matches r (c ∷ w)
  unfolding deriv
  deriv-Matches never w h = absurd (not-Matches-never h)
  deriv-Matches eps w h = absurd (not-Matches-never h)
  deriv-Matches (class ranges) w h = elim (Bool-cases (in_class ranges c)) [
    | inl there ↦ class_cons there (subst (λ b. Matches (if b then eps else never) w) there h)
    | inr absent ↦
        absurd (not-Matches-never (subst (λ b. Matches (if b then eps else never) w) absent h))
  ]
  deriv-Matches (seq r q) w h =
      let first = seq_cons (deriv-Matches r) in
      let second = deriv-Matches q w in
      let here = seq' (deriv c r) q in
      elim (Bool-cases (nullable r)) [
        | inl skips ↦
            join (λ a. first (seq'-Matches (deriv c r) q a))
              (λ b. m_seq (nullable-Matches r skips) (second b) refl)
              (alt'-Matches here (deriv c q)
                (subst (λ b. Matches (if b then alt' here (deriv c q) else here) w) skips h))
        | inr stays ↦ first (
            seq'-Matches (deriv c r) q
              (subst (λ b. Matches (if b then alt' here (deriv c q) else here) w) stays h))
      ]
  deriv-Matches (alt r q) w h =
      alt_cons (deriv-Matches r w) (deriv-Matches q w) (alt'-Matches (deriv c r) (deriv c q) h)
  deriv-Matches (star r) w h = star_cons (deriv-Matches r) (seq'-Matches (deriv c r) (star r) h)

  Matches-deriv :
      {r : Regex} {v : List ℕ} → Matches r v → (w : List ℕ) → v ≡ c ∷ w → Matches (deriv c r) w
  unfolding deriv
  Matches-deriv (m_eps e) w at = cc
  Matches-deriv (m_class {ranges = ranges} d there e) w at =
      let (same, rest) = cons_parts (sym at ∙ e) in
      rw (subst (λ x. in_class ranges x ≡ true) (sym same) there) (m_eps rest)
  Matches-deriv (m_seq {r} {q} {s = []} {t = t} a b e) w at =
      rw (Matches-nullable a refl) (Matches-alt' _ _ (m_right (Matches-deriv b w (sym e ∙ at))))
  Matches-deriv (m_seq {r} {q} {s = d ∷ s} {t = t} a b e) w at =
      let (same, rest) = cons_parts (sym at ∙ e) in
      let first =
        Matches-seq' (deriv c r) q
          (m_seq (Matches-deriv a s (ap (λ x. x ∷ s) (sym same))) b rest) in
      elim (Bool-cases (nullable r)) [
        | inl skips ↦ rw skips (Matches-alt' _ _ (m_left first))
        | inr stays ↦ rw stays first
      ]
  Matches-deriv (m_left a) w at = Matches-alt' _ _ (m_left (Matches-deriv a w at))
  Matches-deriv (m_right b) w at = Matches-alt' _ _ (m_right (Matches-deriv b w at))
  Matches-deriv (m_stop e) w at = cc
  Matches-deriv (m_more {r} {s = s} d a b e) w at =
      let (same, rest) = cons_parts (sym at ∙ e) in
      Matches-seq' (deriv c r) (star r)
        (m_seq (Matches-deriv a s (ap (λ x. x ∷ s) (sym same))) b rest)

-- Some beginning of the text matches.
abbrev pub Begins : Regex → List ℕ → Type 0
Begins r s = (w : List ℕ) × (t : List ℕ) × (s ≡ w ++ t) × Matches r w

pub match_prefix-Begins : (r : Regex) (s : List ℕ) → match_prefix r s ≡ true → Begins r s
unfolding match_prefix
match_prefix-Begins r [] h = ([], [], refl, nullable-Matches r h)
match_prefix-Begins r (c ∷ s) h = elim (Bool-cases (nullable r)) [
  | inl at_once ↦ ([], c ∷ s, refl, nullable-Matches r at_once)
  | inr not_yet ↦
      let (w, t, whole, m) = match_prefix-Begins (deriv c r) s (ground arith) in
      (c ∷ w, t, ap (λ l. c ∷ l) whole, deriv-Matches c r w m)
]

pub Begins-match_prefix :
    (r : Regex) (s w t : List ℕ) → s ≡ w ++ t → Matches r w → match_prefix r s ≡ true
unfolding match_prefix
Begins-match_prefix r [] w t whole m = Matches-nullable m (append-nil_parts w t whole).0
Begins-match_prefix r (c ∷ s) [] t whole m = rw (Matches-nullable m refl)
Begins-match_prefix r (c ∷ s) (d ∷ w) t whole m =
    let (same, rest) = cons_parts whole in
    let later =
      Begins-match_prefix (deriv c r) s w t rest
        (Matches-deriv c m w (ap (λ x. x ∷ w) (sym same))) in
    ground (arith, later)

search-Begins :
    (r : Regex) (s : List ℕ)
    → search_regex r s ≡ true
    → (before : List ℕ) × (rest : List ℕ) × (s ≡ before ++ rest) × Begins r rest
unfolding search_regex
search-Begins r [] h = ([], [], refl, match_prefix-Begins r [] h)
search-Begins r (c ∷ s) h = elim (Bool-cases (match_prefix r (c ∷ s))) [
  | inl here ↦ ([], c ∷ s, refl, match_prefix-Begins r (c ∷ s) here)
  | inr later ↦
      let (before, rest, whole, b) = search-Begins r s (ground arith) in
      (c ∷ before, rest, ap (λ l. c ∷ l) whole, b)
]

Begins-search :
    (r : Regex) (s before rest : List ℕ)
    → s ≡ before ++ rest
    → match_prefix r rest ≡ true
    → search_regex r s ≡ true
unfolding search_regex
Begins-search r [] [] rest whole h = subst (λ l. match_prefix r l ≡ true) (sym whole) h
Begins-search r [] (b ∷ before) rest whole h = cc
Begins-search r (c ∷ s) [] rest whole h =
    let here = subst (λ l. match_prefix r l ≡ true) (sym whole) h in ground (arith, here)
Begins-search r (c ∷ s) (b ∷ before) rest whole h =
    let later = Begins-search r s before rest (cons_parts whole).1 h in ground (arith, later)

-- A search succeeds exactly when some part of the text matches.
pub search_regex_iff :
    (r : Regex) (s : List ℕ)
    → (search_regex r s ≡ true) ↔ (
        (before : List ℕ) × (w : List ℕ) × (after : List ℕ) × (s ≡ before ++ (w ++ after))
        × Matches r w)
search_regex_iff r s = (
  λ h.
      let (before, rest, whole, (w, after, cut, m)) = search-Begins r s h in
      (before, w, after, whole ∙ ap (λ l. before ++ l) cut, m),
  λ (before, w, after, whole, m).
      Begins-search r s before (w ++ after) whole
        (Begins-match_prefix r (w ++ after) w after refl m),
)
