-- ===== src/Regex/Languages.antt =====
-- Expressions as predicates on texts of code points: each combinator against what it says of a text.
use grain_protocol.Base.{
  ℕ, zero, suc, ◌≡◌, refl, sym, ap, ap₂, subst, ◌∙◌, ◌↔◌, ◌⊎◌, inl, inr, String, true, List, [],
  ◌∷◌, ◌++◌, map, All, then_iff, arith,
}
use grain_protocol.Base.Text.{codes}
use grain_protocol.Regex.{
  Regex, eps, class, seq, alt, star, never, in_class, fold, char, literal, literal_codes, any_of,
  any_text, sequence, at_least,
}
use grain_protocol.Regex.Matching.{Matches, m_eps, m_class, m_seq, m_left, m_right, m_stop, m_more}

-- A text that is a word, in any case.
abbrev pub Word : String → List ℕ → Type 0
Word s w = map fold w ≡ codes s

-- One of some words.
abbrev pub Among : List String → List ℕ → Type 0
Among [] w = ⊥
Among (s ∷ ss) w = Word s w ⊎ Among ss w

-- Pieces one after the other.
abbrev pub InOrder : List (List ℕ → Type 0) → List ℕ → Type 0
InOrder [] w = w ≡ []
InOrder (P ∷ Ps) w = (a : List ℕ) × (b : List ℕ) × (w ≡ a ++ b) × P a × InOrder Ps b

-- A text of one of some kinds.
abbrev pub AnyOf : List (List ℕ → Type 0) → List ℕ → Type 0
AnyOf [] w = ⊥
AnyOf (P ∷ Ps) w = P w ⊎ AnyOf Ps w

-- One character, and characters of a kind, at least so many of them.
abbrev pub One : (ℕ → Type 0) → List ℕ → Type 0
One P w = (c : ℕ) × (w ≡ c ∷ []) × P (fold c)

abbrev pub AtLeast : ℕ → (ℕ → Type 0) → List ℕ → Type 0
AtLeast zero P w = All (λ c. P (fold c)) w
AtLeast (suc n) P w = (c : ℕ) × (s : List ℕ) × (w ≡ c ∷ s) × P (fold c) × AtLeast n P s

-- An expression stands for the texts of a kind.
abbrev pub Denotes : Regex → (List ℕ → Type 0) → Type 0
Denotes r P = (w : List ℕ) → Matches r w ↔ P w

eps-Denotes : Denotes eps (λ w. w ≡ [])
eps-Denotes w = (λ h. out h, m_eps)
  where
    out : Matches eps w → w ≡ []
    out (m_eps e) = e

pub class-Denotes :
    (ranges : List (ℕ × ℕ)) (P : ℕ → Type 0)
    → ((c : ℕ) → (in_class ranges c ≡ true) ↔ P (fold c))
    → Denotes (class ranges) (One P)
class-Denotes ranges P kind w = (out, λ (c, e, p). m_class c ((kind c).1 p) e)
  where
    out : Matches (class ranges) w → One P w
    out (m_class c there e) = (c, e, (kind c).0 there)

seq-Denotes :
    (r q : Regex) (P Q : List ℕ → Type 0) (w : List ℕ)
    → Denotes r P
    → Denotes q Q
    → Matches (seq r q) w ↔ ((a : List ℕ) × (b : List ℕ) × (w ≡ a ++ b) × P a × Q b)
seq-Denotes r q P Q w p q' = (out, λ (a, b, e, x, y). m_seq ((p a).1 x) ((q' b).1 y) e)
  where
    out : Matches (seq r q) w → (a : List ℕ) × (b : List ℕ) × (w ≡ a ++ b) × P a × Q b
    out (m_seq {s = s} {t = t} x y e) = (s, t, e, (p s).0 x, (q' t).0 y)

pub alt-Denotes :
    (r q : Regex) (P Q : List ℕ → Type 0)
    → Denotes r P
    → Denotes q Q
    → Denotes (alt r q) (λ w. P w ⊎ Q w)
alt-Denotes r q P Q p q' w =
    (out, elim [ inl x ↦ m_left ((p w).1 x) | inr y ↦ m_right ((q' w).1 y) ])
  where
    out : Matches (alt r q) w → P w ⊎ Q w
    out (m_left x) = inl ((p w).0 x)
    out (m_right y) = inr ((q' w).0 y)

never-Denotes : Denotes never (λ w. ⊥)
never-Denotes w = (λ h. elim h [ ], λ h. absurd h)

-- Maybe a text of a kind, maybe none.
pub optional-Denotes :
    (r : Regex) (P : List ℕ → Type 0) → Denotes r P → Denotes (alt r eps) (λ w. P w ⊎ (w ≡ []))
optional-Denotes r P p = alt-Denotes r eps P (λ w. w ≡ []) p eps-Denotes

-- The parts of a sequence and of an alternative, one by one.
abbrev pub AllDenote : List Regex → List (List ℕ → Type 0) → Type 0
AllDenote [] [] = Unit
AllDenote (r ∷ rs) (P ∷ Ps) = Denotes r P × AllDenote rs Ps
AllDenote _ _ = ⊥

pub sequence-Denotes :
    (rs : List Regex) (Ps : List (List ℕ → Type 0))
    → AllDenote rs Ps
    → Denotes (sequence rs) (InOrder Ps)
sequence-Denotes [] [] h = eps-Denotes
sequence-Denotes (r ∷ rs) (P ∷ Ps) (p, h) =
    λ w. seq-Denotes r (sequence rs) P (InOrder Ps) w p (sequence-Denotes rs Ps h)
sequence-Denotes [] (P ∷ Ps) h = absurd h
sequence-Denotes (r ∷ rs) [] h = absurd h

pub any_of-Denotes :
    (rs : List Regex) (Ps : List (List ℕ → Type 0))
    → AllDenote rs Ps
    → Denotes (any_of rs) (AnyOf Ps)
any_of-Denotes [] [] h = never-Denotes
any_of-Denotes (r ∷ rs) (P ∷ Ps) (p, h) =
    alt-Denotes r (any_of rs) P (AnyOf Ps) p (any_of-Denotes rs Ps h)
any_of-Denotes [] (P ∷ Ps) h = absurd h
any_of-Denotes (r ∷ rs) [] h = absurd h

in_class-one : (c d : ℕ) → (in_class ((c, c) ∷ []) d ≡ true) ↔ (fold d ≡ c)
unfolding in_class
in_class-one c d = ground arith

pub char-Denotes : (c : ℕ) → Denotes (char c) (λ w. map fold w ≡ c ∷ [])
char-Denotes c w =
    then_iff (class-Denotes ((c, c) ∷ []) (λ d. d ≡ c) (in_class-one c) w) (out, back w)
  where
    out : One (λ d. d ≡ c) w → map fold w ≡ c ∷ []
    out (d, e, p) = ap (map fold) e ∙ ap (λ x. x ∷ []) p

    back : (v : List ℕ) → map fold v ≡ c ∷ [] → One (λ d. d ≡ c) v
    back [] h = cc
    back (d ∷ []) h = (d, refl, cc)
    back (d ∷ e ∷ v) h = cc

map-fold-append : (a b : List ℕ) → map fold (a ++ b) ≡ map fold a ++ map fold b
map-fold-append [] b = refl
map-fold-append (c ∷ a) b = ap (λ x. fold c ∷ x) (map-fold-append a b)

literal_codes-Denotes : (cs : List ℕ) → Denotes (literal_codes cs) (λ w. map fold w ≡ cs)
literal_codes-Denotes [] w = then_iff (eps-Denotes w) (λ e. ap (map fold) e, back w)
  where
    back : (v : List ℕ) → map fold v ≡ [] → v ≡ []
    back [] h = refl
    back (d ∷ v) h = cc
literal_codes-Denotes (c ∷ []) w = char-Denotes c w
literal_codes-Denotes (c ∷ d ∷ s) w =
    then_iff
      (seq-Denotes (char c) (literal_codes (d ∷ s)) (λ v. map fold v ≡ c ∷ [])
        (λ v. map fold v ≡ d ∷ s) w (char-Denotes c) (literal_codes-Denotes (d ∷ s)))
      (λ (a, b, e, x, y). ap (map fold) e ∙ map-fold-append a b ∙ ap₂ (λ u v. u ++ v) x y, back w)
  where
    back :
        (v : List ℕ)
        → map fold v ≡ c ∷ d ∷ s
        → (a : List ℕ) × (b : List ℕ) × (v ≡ a ++ b) × (map fold a ≡ c ∷ []) × (map fold b ≡ d ∷ s)
    back [] h = cc
    back (e ∷ v) h = (e ∷ [], v, refl, cc, cc)

pub literal-Denotes : (s : String) → Denotes (literal s) (Word s)
literal-Denotes s = literal_codes-Denotes (codes s)

pub any_text-Denotes : (ss : List String) → Denotes (any_text ss) (Among ss)
any_text-Denotes [] = never-Denotes
any_text-Denotes (s ∷ ss) =
    alt-Denotes (literal s) (any_text ss) (Word s) (Among ss) (literal-Denotes s)
      (any_text-Denotes ss)

-- Repeated characters of a class.
module _ (ranges : List (ℕ × ℕ)) (P : ℕ → Type 0)
    (kind : (c : ℕ) → (in_class ranges c ≡ true) ↔ P (fold c)) where
  star-All : {w : List ℕ} → Matches (star (class ranges)) w → All (λ c. P (fold c)) w
  star-All (m_stop e) = subst (All (λ c. P (fold c))) (sym e) tt
  star-All (m_more {s = s} {t = t} c a b e) =
      let (d, same, p) = (class-Denotes ranges P kind (c ∷ s)).0 a in
      let one : c ∷ (s ++ t) ≡ d ∷ t = ap (λ x. x ++ t) same in
      subst (All (λ x. P (fold x))) (sym (e ∙ one)) (p, star-All b)

  All-star : (w : List ℕ) → All (λ c. P (fold c)) w → Matches (star (class ranges)) w
  All-star [] h = m_stop refl
  All-star (c ∷ w) (p, h) = m_more c (m_class c ((kind c).1 p) refl) (All-star w h) refl

  pub at_least-Denotes : (n : ℕ) → Denotes (at_least n (class ranges)) (AtLeast n P)
  at_least-Denotes zero w = (star-All, All-star w)
  at_least-Denotes (suc n) w =
      then_iff
        (seq-Denotes (class ranges) (at_least n (class ranges)) (One P) (AtLeast n P) w
          (class-Denotes ranges P kind) (at_least-Denotes n))
        (
          λ (a, b, e, (c, one, p), rest). (c, b, e ∙ ap (λ x. x ++ b) one, p, rest),
          λ (c, s, e, p, rest). (c ∷ [], s, e, (c, refl, p), rest),
        )
