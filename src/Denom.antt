-- ===== src/Denom.antt =====
-- packages/cw-denom/src/lib.rs: native and cw20 denominations. A text is the list of the code points
-- of its characters; `len` of the source counts their bytes in UTF-8.
pub mod Format
mod Tests
use dao_contracts.Prelude.{
  ℕ, ◌+◌, Bool, true, false, not, ◌&&◌, ◌||◌, List, [], ◌∷◌, ltb, leb, ◌==◌, if◌then◌else◌, Outcome,
  ok, err, ◌>>=◌, ◌>>◌, map_err,
}
use dao_contracts.Cosmwasm.{Addr, StdError}

abbrev pub Text : Type 0
Text = List ℕ

unfoldable pub same_text : Text → Text → Bool
same_text [] [] = true
same_text (c ∷ s) (d ∷ t) = c == d && same_text s t
same_text _ _ = false

pub data DenomError : Type 0 where
  std : StdError → DenomError
  invalid_cw20 : StdError → DenomError
  native_denom_length : ℕ → DenomError
  non_alphabetic_ascii : DenomError
  invalid_character : ℕ → DenomError

pub data CheckedDenom : Type 0 where
  native : Text → CheckedDenom
  cw20 : Addr → CheckedDenom

pub data UncheckedDenom : Type 0 where
  native : Text → UncheckedDenom
  cw20 : Addr → UncheckedDenom

-- The number of bytes of a character, and of a text
abbrev pub utf8_len : ℕ → ℕ
utf8_len c = if ltb c 0x80 then 1 else if ltb c 0x800 then 2 else if ltb c 0x10000 then 3 else 4

unfoldable pub len : Text → ℕ
len [] = 0
len (c ∷ s) = utf8_len c + len s

abbrev pub is_ascii_alphabetic : ℕ → Bool
is_ascii_alphabetic c = leb b'A' c && leb c b'Z' || leb b'a' c && leb c b'z'

abbrev pub is_ascii_alphanumeric : ℕ → Bool
is_ascii_alphanumeric c = is_ascii_alphabetic c || leb b'0' c && leb c b'9'

abbrev pub is_denom_character : ℕ → Bool
is_denom_character c =
    is_ascii_alphanumeric c || c == b'/' || c == b':' || c == b'.' || c == b'_' || c == b'-'

-- The loop over the characters after the first one
unfoldable pub check_characters : Text → Outcome DenomError (Unit {0})
check_characters [] = ok tt
check_characters (c ∷ s) =
    if not (is_denom_character c) then err (invalid_character c) else check_characters s

unfoldable pub check_first : Text → Outcome DenomError (Unit {0})
unfolding check_characters
check_first [] = err non_alphabetic_ascii
check_first (first ∷ chars) =
    if not (is_ascii_alphabetic first) then err non_alphabetic_ascii else check_characters chars

unfoldable pub validate_native_denom : Text → Outcome DenomError CheckedDenom
unfolding check_first len
validate_native_denom denom =
    if ltb (len denom) 3 || ltb 128 (len denom)
    then err (native_denom_length (len denom))
    else (do check_first denom; ok (CheckedDenom.native denom))

-- `into_checked`, by the validation of addresses and the query of the token
unfoldable pub into_checked :
    (Addr → Outcome StdError Addr)
    → (Addr → Outcome StdError (Unit {0}))
    → UncheckedDenom
    → Outcome DenomError CheckedDenom
into_checked addr_validate token_info (UncheckedDenom.native denom) = validate_native_denom denom
into_checked addr_validate token_info (UncheckedDenom.cw20 a) = do
  addr ← map_err std (addr_validate a)
  map_err invalid_cw20 (token_info addr)
  ok (CheckedDenom.cw20 addr)

unfoldable pub is_cw20 : CheckedDenom → Addr → Bool
is_cw20 (CheckedDenom.native _) addr = false
is_cw20 (CheckedDenom.cw20 a) addr = a == addr

unfoldable pub is_native : CheckedDenom → Text → Bool
unfolding same_text
is_native (CheckedDenom.native n) denom = same_text n denom
is_native (CheckedDenom.cw20 _) denom = false
