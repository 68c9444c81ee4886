-- ===== src/Denom/Tests.antt =====
-- Native denominations at concrete inputs.
use dao_contracts.Prelude.{◌≡◌, ◌↔◌, refl, [], ◌∷◌, ok, err}
use dao_contracts.Denom.{Text, native, invalid_character, validate_native_denom}
use dao_contracts.Denom.Format.{HasFormat, validate_native_denom_iff}

abbrev ujuno : Text
ujuno = b'u' ∷ b'j' ∷ b'u' ∷ b'n' ∷ b'o' ∷ []

abbrev with_space : Text
with_space = b'u' ∷ b'j' ∷ b' ' ∷ b'n' ∷ b'o' ∷ []

space_refused : validate_native_denom with_space ≡ err (invalid_character b' ')
unfolding validate_native_denom
space_refused = refl

validate_native_denom_iff_example :
    (validate_native_denom ujuno ≡ ok (native ujuno)) ↔ HasFormat ujuno
validate_native_denom_iff_example = validate_native_denom_iff ujuno
