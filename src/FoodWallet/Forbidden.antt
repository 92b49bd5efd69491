-- ===== src/FoodWallet/Forbidden.antt =====
-- Raw material, word by word: the names and the texts that tools/ci/check_food_wallet_contract.py
-- forbids, apart from its expressions.
use grain_protocol.Base.{ℕ, ◌≡◌, ◌≤◌, ◌↔◌, ◌⊎◌, arith, String, true, List, [], ◌∷◌}
use grain_protocol.Base.Text.{is_space}
use grain_protocol.Regex.{
  Regex, class, in_class, fold, literal, star, char, sequence, some_of, at_least,
}
use grain_protocol.Regex.Languages.{
  Word, Among, InOrder, AnyOf, One, AtLeast, Denotes, class-Denotes, optional-Denotes,
  sequence-Denotes, any_of-Denotes, literal-Denotes, any_text-Denotes, at_least-Denotes,
  char-Denotes,
}
use grain_protocol.FoodWallet.Privacy.{
  joint, joined, then_colon, spaces, forbidden_fields, forbidden_contents, forbidden_field,
  forbidden_content, forbidden_token,
}

-- At least so much white space, and "_", "-" or nothing.
abbrev pub Spaces : ℕ → List ℕ → Type 0
Spaces n = AtLeast n (λ x. is_space x ≡ true)

abbrev pub Joint : List ℕ → Type 0
Joint w = One (λ x. (x ≡ b'_') ⊎ (x ≡ b'-')) w ⊎ (w ≡ [])

abbrev pub Joined : (List ℕ → Type 0) → (List ℕ → Type 0) → List ℕ → Type 0
Joined P Q = InOrder (P ∷ Joint ∷ Q ∷ [])

abbrev pub ThenColon : (List ℕ → Type 0) → List ℕ → Type 0
ThenColon P = InOrder (P ∷ Spaces 0 ∷ Word ":" ∷ [])

-- The names of raw material.
abbrev raw_names : List (List ℕ → Type 0)
raw_names =
    Joined (Word "raw") (Among ("photo" ∷ "image" ∷ "qr" ∷ "snapshot" ∷ "trust" ∷ []))
    ∷ Joined (Among ("photo" ∷ "image" ∷ [])) (Among ("b64" ∷ "bytes" ∷ "data" ∷ []))
    ∷ Joined (Word "trust") (Word "bundle")
    ∷ Joined (Word "trust") (Word "pub")
    ∷ Word "snapshot"
    ∷ Joined (Word "sync") (Word "bundle")
    ∷ Joined (Word "identity") (Word "bundle")
    ∷ Joined (Word "qr") (Among ("payload" ∷ "string" ∷ []))
    ∷ Joined (Word "private") (Word "key")
    ∷ Joined (Word "secret") (Word "key")
    ∷ Word "seed"
    ∷ Word "mnemonic"
    ∷ Joined (Word "cose") (Word "b64")
    ∷ []

abbrev pub RawName : List ℕ → Type 0
RawName = AnyOf raw_names

abbrev pub IsKeyLetter : ℕ → Type 0
IsKeyLetter x = ((b'a' ≤ x) × (x ≤ b'z')) ⊎ (x ≡ 32)

abbrev pub IsTokenLetter : ℕ → Type 0
IsTokenLetter x =
    ((b'0' ≤ x) × (x ≤ b'9')) ⊎ (((b'a' ≤ x) × (x ≤ b'z')) ⊎ ((x ≡ b'_') ⊎ (x ≡ b'-')))

-- The head of a private key, and the titles that raw material stands behind.
abbrev pub KeyHead : List ℕ → Type 0
KeyHead = InOrder (Word "-----begin " ∷ AtLeast 0 IsKeyLetter ∷ Word "private key-----" ∷ [])

abbrev raw_titles : List (List ℕ → Type 0)
raw_titles =
    KeyHead
    ∷ ThenColon (InOrder (Word "raw" ∷ Spaces 1 ∷ Word "qr" ∷ Spaces 1 ∷ Word "payload" ∷ []))
    ∷ ThenColon (Joined (Joined (Word "trust") (Word "pub")) (Word "b64"))
    ∷ ThenColon (Joined (Word "identity") (Word "bundle"))
    ∷ ThenColon (Joined (Word "sync") (Word "bundle"))
    ∷ ThenColon (Joined (Word "snapshot") (Word "b64"))
    ∷ ThenColon (InOrder (Word "raw" ∷ Spaces 1 ∷ Word "trust" ∷ Spaces 1 ∷ Word "bundle" ∷ []))
    ∷ []

abbrev pub RawTitle : List ℕ → Type 0
RawTitle = AnyOf raw_titles

-- A GR1 token, with eight letters, digits, "_" or "-" at least.
abbrev token_parts : List (List ℕ → Type 0)
token_parts = Word "gr1" ∷ AtLeast 8 IsTokenLetter ∷ []

abbrev pub RawToken : List ℕ → Type 0
RawToken = InOrder token_parts

space-kind :
    (c : ℕ)
    → (in_class
          ((9, 13)
            ∷ (28, 32)
            ∷ (0x85, 0x85)
            ∷ (0xa0, 0xa0)
            ∷ (0x1680, 0x1680)
            ∷ (0x2000, 0x200a)
            ∷ (0x2028, 0x2029)
            ∷ (0x202f, 0x202f)
            ∷ (0x205f, 0x205f)
            ∷ (0x3000, 0x3000)
            ∷ [])
          c
        ≡ true)
      ↔ (is_space (fold c) ≡ true)
unfolding in_class is_space
space-kind c = ground arith

joint-kind :
    (c : ℕ)
    → (in_class ((b'_', b'_') ∷ (b'-', b'-') ∷ []) c ≡ true) ↔ ((fold c ≡ b'_') ⊎ (fold c ≡ b'-'))
unfolding in_class
joint-kind c = ground arith

letter-kind : (c : ℕ) → (in_class ((b'a', b'z') ∷ (32, 32) ∷ []) c ≡ true) ↔ IsKeyLetter (fold c)
unfolding in_class
letter-kind c = ground arith

token-kind :
    (c : ℕ)
    → (in_class ((b'0', b'9') ∷ (b'a', b'z') ∷ (b'_', b'_') ∷ (b'-', b'-') ∷ []) c ≡ true)
      ↔ IsTokenLetter (fold c)
unfolding in_class
token-kind c = ground arith

spaces-Denotes : (n : ℕ) → Denotes (at_least n spaces) (Spaces n)
spaces-Denotes n = at_least-Denotes _ (λ x. is_space x ≡ true) space-kind n

joint-Denotes : Denotes joint Joint
joint-Denotes = optional-Denotes _ _ (class-Denotes _ (λ x. (x ≡ b'_') ⊎ (x ≡ b'-')) joint-kind)

joined-Denotes :
    (r q : Regex) (P Q : List ℕ → Type 0)
    → Denotes r P
    → Denotes q Q
    → Denotes (joined r q) (Joined P Q)
joined-Denotes r q P Q p q' =
    sequence-Denotes (r ∷ joint ∷ q ∷ []) (P ∷ Joint ∷ Q ∷ []) (p, (joint-Denotes, (q', tt)))

words-Denotes : (a b : String) → Denotes (joined (literal a) (literal b)) (Joined (Word a) (Word b))
words-Denotes a b =
    joined-Denotes (literal a) (literal b) (Word a) (Word b) (literal-Denotes a) (literal-Denotes b)

then_colon-Denotes :
    (r : Regex) (P : List ℕ → Type 0) → Denotes r P → Denotes (then_colon r) (ThenColon P)
then_colon-Denotes r P p =
    sequence-Denotes (r ∷ star spaces ∷ char b':' ∷ []) (P ∷ Spaces 0 ∷ Word ":" ∷ [])
      (p, (spaces-Denotes 0, (char-Denotes b':', tt)))

title-Denotes :
    (a b c : String)
    → Denotes
        (sequence (literal a ∷ some_of spaces ∷ literal b ∷ some_of spaces ∷ literal c ∷ []))
        (InOrder (Word a ∷ Spaces 1 ∷ Word b ∷ Spaces 1 ∷ Word c ∷ []))
title-Denotes a b c =
    sequence-Denotes (literal a ∷ some_of spaces ∷ literal b ∷ some_of spaces ∷ literal c ∷ [])
      (Word a ∷ Spaces 1 ∷ Word b ∷ Spaces 1 ∷ Word c ∷ [])
      (
        literal-Denotes a,
        (spaces-Denotes 1, (literal-Denotes b, (spaces-Denotes 1, (literal-Denotes c, tt)))),
      )

pub forbidden_field-Denotes : Denotes forbidden_field RawName
forbidden_field-Denotes = any_of-Denotes forbidden_fields raw_names (
  joined-Denotes _ _ _ _ (literal-Denotes "raw")
      (any_text-Denotes ("photo" ∷ "image" ∷ "qr" ∷ "snapshot" ∷ "trust" ∷ [])),
  (
    joined-Denotes _ _ _ _ (any_text-Denotes ("photo" ∷ "image" ∷ []))
        (any_text-Denotes ("b64" ∷ "bytes" ∷ "data" ∷ [])),
    (
      words-Denotes "trust" "bundle",
      (
        words-Denotes "trust" "pub",
        (
          literal-Denotes "snapshot",
          (
            words-Denotes "sync" "bundle",
            (
              words-Denotes "identity" "bundle",
              (
                joined-Denotes _ _ _ _ (literal-Denotes "qr")
                    (any_text-Denotes ("payload" ∷ "string" ∷ [])),
                (
                  words-Denotes "private" "key",
                  (
                    words-Denotes "secret" "key",
                    (
                      literal-Denotes "seed",
                      (literal-Denotes "mnemonic", (words-Denotes "cose" "b64", tt)),
                    ),
                  ),
                ),
              ),
            ),
          ),
        ),
      ),
    ),
  ),
)

KeyHead-Denotes :
    Denotes
      (sequence (
        literal "-----begin "
        ∷ star (class ((b'a', b'z') ∷ (32, 32) ∷ []))
        ∷ literal "private key-----"
        ∷ []))
      KeyHead
KeyHead-Denotes =
    sequence-Denotes
      (literal "-----begin "
        ∷ star (class ((b'a', b'z') ∷ (32, 32) ∷ []))
        ∷ literal "private key-----"
        ∷ [])
      (Word "-----begin " ∷ AtLeast 0 IsKeyLetter ∷ Word "private key-----" ∷ [])
      (
        literal-Denotes "-----begin ",
        (at_least-Denotes _ IsKeyLetter letter-kind 0, (literal-Denotes "private key-----", tt)),
      )

pub forbidden_content-Denotes : Denotes forbidden_content RawTitle
forbidden_content-Denotes = any_of-Denotes forbidden_contents raw_titles (
  KeyHead-Denotes,
  (
    then_colon-Denotes _ _ (title-Denotes "raw" "qr" "payload"),
    (
      then_colon-Denotes _ _
          (joined-Denotes _ _ _ _ (words-Denotes "trust" "pub") (literal-Denotes "b64")),
      (
        then_colon-Denotes _ _ (words-Denotes "identity" "bundle"),
        (
          then_colon-Denotes _ _ (words-Denotes "sync" "bundle"),
          (
            then_colon-Denotes _ _ (words-Denotes "snapshot" "b64"),
            (then_colon-Denotes _ _ (title-Denotes "raw" "trust" "bundle"), tt),
          ),
        ),
      ),
    ),
  ),
)

pub forbidden_token-Denotes : Denotes forbidden_token RawToken
forbidden_token-Denotes =
    sequence-Denotes
      (literal "gr1"
        ∷ at_least 8 (class ((b'0', b'9') ∷ (b'a', b'z') ∷ (b'_', b'_') ∷ (b'-', b'-') ∷ []))
        ∷ [])
      token_parts (literal-Denotes "gr1", (at_least-Denotes _ IsTokenLetter token-kind 8, tt))
