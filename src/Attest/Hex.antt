-- ===== src/Attest/Hex.antt =====
-- encoding/hex, as the attestation uses it.
use bytedesk_sdk_dependencie.Prelude.{
  ℕ, ◌+◌, ◌-◌, ◌*◌, ◌/◌, ◌%◌, ltb, leb, if◌then◌else◌, ◌&&◌, Option, none, some, [], ◌∷◌, Text,
  ◌>>=◌,
}

unfoldable pub hex_digit : ℕ → ℕ
hex_digit n = if ltb n 10 then b'0' + n else b'a' + (n - 10)

-- hex.EncodeToString
unfoldable pub hex : Text → Text
hex [] = []
hex (x ∷ xs) = hex_digit (x / 16) ∷ hex_digit (x % 16) ∷ hex xs

unfoldable pub hex_value : ℕ → Option ℕ
hex_value x =
    if leb b'0' x && leb x b'9'
    then some (x - b'0')
    else if leb b'a' x && leb x b'f'
    then some (x - b'a' + 10)
    else if leb b'A' x && leb x b'F'
    then some (x - b'A' + 10)
    else none

-- hex.DecodeString: an odd number of digits is an error.
unfoldable pub unhex : Text → Option Text
unhex [] = some []
unhex (x ∷ []) = none
unhex (x ∷ y ∷ t) = do
  high ← hex_value x
  low ← hex_value y
  rest ← unhex t
  some ((high * 16 + low) ∷ rest)
