-- ===== src/Denom/Format.antt =====
-- The native denominations that are accepted.
use dao_contracts.Prelude.{
  ℕ, ◌+◌, ◌≤◌, ◌≡◌, ◌↔◌, ◌⊎◌, inl, inr, Bool-cases, refl, Bool, true, false, [], ◌∷◌, length, All,
  arith, Outcome, ok, err, not, if◌then◌else◌, ltb, ◌||◌, >>=-eq-ok, ◌>>=◌, ◌∙◌,
}
use dao_contracts.Denom.{
  Text, utf8_len, non_alphabetic_ascii, native_denom_length, DenomError, CheckedDenom, len,
  is_ascii_alphabetic, is_denom_character, check_characters, check_first, validate_native_denom,
}

-- ASCII letters and digits, and the other characters of a denomination
abbrev pub IsLetter : ℕ → Type 0
IsLetter c = ((b'A' ≤ c) × (c ≤ b'Z')) ⊎ ((b'a' ≤ c) × (c ≤ b'z'))

abbrev pub IsDigit : ℕ → Type 0
IsDigit c = (b'0' ≤ c) × (c ≤ b'9')

abbrev pub IsPunctuation : ℕ → Type 0
IsPunctuation c = (c ≡ b'/') ⊎ (c ≡ b':') ⊎ (c ≡ b'.') ⊎ (c ≡ b'_') ⊎ (c ≡ b'-')

abbrev pub IsDenomCharacter : ℕ → Type 0
IsDenomCharacter c = IsLetter c ⊎ IsDigit c ⊎ IsPunctuation c

-- The format in the comment of `validate_native_denom`, `[a-zA-Z][a-zA-Z0-9/:._-]{2,127}`: a
-- letter, then letters, digits and a few other characters, 3 to 128 in all
abbrev pub HasFormat : Text → Type 0
HasFormat [] = ⊥
HasFormat (c ∷ s) = IsLetter c × All IsDenomCharacter s × (2 ≤ length s) × (length s ≤ 127)

is_ascii_alphabetic-IsLetter : (c : ℕ) → (is_ascii_alphabetic c ≡ true) ↔ IsLetter c
is_ascii_alphabetic-IsLetter c = ground arith

is_denom_character-IsDenomCharacter : (c : ℕ) → (is_denom_character c ≡ true) ↔ IsDenomCharacter c
is_denom_character-IsDenomCharacter c = ground arith

characters_iff : (s : Text) → (check_characters s ≡ ok tt) ↔ All IsDenomCharacter s
unfolding check_characters
characters_iff [] = ground arith
characters_iff (c ∷ s) = elim (Bool-cases (is_denom_character c)) [
  | inl good ↦ rw good (
    (λ h. ((is_denom_character-IsDenomCharacter c).0 good, (characters_iff s).0 h)),
    (λ h. (characters_iff s).1 h.1),
  )
  | inr bad ↦
      rw bad ((λ h. cc), (λ h. absurd (cc (bad, (is_denom_character-IsDenomCharacter c).1 h.0))))
]

denom_character_byte : (c : ℕ) → IsDenomCharacter c → utf8_len c ≡ 1
denom_character_byte c h = ground arith

letter_byte : (c : ℕ) → IsLetter c → utf8_len c ≡ 1
letter_byte c h = ground arith

characters_len : (s : Text) → All IsDenomCharacter s → len s ≡ length s
unfolding len
characters_len [] h = refl
characters_len (c ∷ s) (h, t) = omega (arith, denom_character_byte c h, characters_len s t)

allowed :
    {A : Type 0} (test : Bool) (e : DenomError) (k : Outcome DenomError A) {a : A}
    → (if not test then err e else k) ≡ ok a
    → (test ≡ true) × (k ≡ ok a)
allowed true e k h = (refl, h)
allowed false e k h = cc

in_bounds :
    {A : Type 0} (n : ℕ) (e : DenomError) (k : Outcome DenomError A) {a : A}
    → (if ltb n 3 || ltb 128 n then err e else k) ≡ ok a
    → ((3 ≤ n) × (n ≤ 128)) × (k ≡ ok a)
in_bounds n e k h = ground arith

bounds_in :
    {A : Type 0} (n : ℕ) (e : DenomError) (k : Outcome DenomError A)
    → 3 ≤ n
    → n ≤ 128
    → (if ltb n 3 || ltb 128 n then err e else k) ≡ k
bounds_in n e k low high = ground arith

first_parts :
    (c : ℕ) (s : Text)
    → check_first (c ∷ s) ≡ ok tt
    → (is_ascii_alphabetic c ≡ true) × (check_characters s ≡ ok tt)
unfolding check_first
first_parts c s h = allowed (is_ascii_alphabetic c) non_alphabetic_ascii (check_characters s) h

accepted_parts :
    (c : ℕ) (s : Text)
    → validate_native_denom (c ∷ s) ≡ ok (CheckedDenom.native (c ∷ s))
    → ((3 ≤ utf8_len c + len s) × (utf8_len c + len s ≤ 128)) × (check_first (c ∷ s) ≡ ok tt)
unfolding validate_native_denom len
accepted_parts c s h =
    let (bounded, rest) =
      in_bounds (utf8_len c + len s) (native_denom_length (utf8_len c + len s)) _ h in
    let (u, checked, last) = >>=-eq-ok (check_first (c ∷ s)) _ rest in (bounded, checked)

accept :
    (c : ℕ) (s : Text)
    → 3 ≤ utf8_len c + len s
    → utf8_len c + len s ≤ 128
    → is_ascii_alphabetic c ≡ true
    → check_characters s ≡ ok tt
    → validate_native_denom (c ∷ s) ≡ ok (CheckedDenom.native (c ∷ s))
unfolding validate_native_denom check_first len
accept c s low high letter chars =
    bounds_in (utf8_len c + len s) (native_denom_length (utf8_len c + len s))
      (check_first (c ∷ s) >>= λ _. ok (CheckedDenom.native (c ∷ s))) low high
    ∙ rw letter (rw chars refl)

-- `validate_native_denom` accepts exactly the texts of that format.
pub validate_native_denom_iff :
    (d : Text) → (validate_native_denom d ≡ ok (CheckedDenom.native d)) ↔ HasFormat d
unfolding validate_native_denom
validate_native_denom_iff [] = ground arith
validate_native_denom_iff (c ∷ s) = (
  (λ accepted.
      let (bounded, checked) = accepted_parts c s accepted in
      let (first, rest) = first_parts c s checked in
      let letter = (is_ascii_alphabetic-IsLetter c).0 first in
      let chars = (characters_iff s).0 rest in
      (
        letter,
        chars,
        omega (arith, bounded, letter_byte c letter, characters_len s chars),
        omega (arith, bounded, letter_byte c letter, characters_len s chars),
      )),
  (λ format.
      let (letter, chars, low, high) = format in
      accept c s (omega (arith, letter_byte c letter, characters_len s chars))
        (omega (arith, letter_byte c letter, characters_len s chars))
        ((is_ascii_alphabetic-IsLetter c).1 letter) ((characters_iff s).1 chars)),
)
