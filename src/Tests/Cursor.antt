-- ===== src/Tests/Cursor.antt =====
-- Cursors at concrete inputs: an encoding that shifts each byte by one letter's place.
use bytedesk_sdk_dependencie.Prelude.{
  ◌≢◌, ◌+◌, ◌-◌, ◌≡◌, refl, false, Option, some, [], ◌∷◌, map, Text, bytes, arith, contains_byte,
}
use bytedesk_sdk_dependencie.Bus.Fault.{Fault, ok, err, denied}
use bytedesk_sdk_dependencie.Memory.Cursor.{mint_cursor, read_cursor}
use bytedesk_sdk_dependencie.Memory.Cursor.Roundtrip.{
  read_cursor-mint_cursor, mint_cursor-elsewhere,
}

abbrev pub shift : Text → Text
shift t = map (λ c. c + 47) t

abbrev pub unshift : Text → Option Text
unshift t = some (map (λ c. c - 47) t)

abbrev pub seal : Text → Text
seal body = bytes "k"

abbrev pub quoted : Text → Text
quoted t = t

pub unshift-shift : (t : Text) → unshift (shift t) ≡ some t
unshift-shift [] = refl
unshift-shift (c ∷ t) = ground (arith, unshift-shift t)

pub shift_no_dot : (t : Text) → contains_byte b'.' (shift t) ≡ false
unfolding contains_byte
shift_no_dot [] = refl
shift_no_dot (c ∷ t) = ground (arith, shift_no_dot t)

orders : contains_byte b'|' (bytes "orders") ≡ false
unfolding contains_byte bytes
orders = refl

audit : contains_byte b'|' (bytes "audit") ≡ false
unfolding contains_byte bytes
audit = refl

read_cursor-mint_cursor_example :
    read_cursor shift unshift seal quoted
      (mint_cursor shift unshift seal quoted (bytes "orders") (bytes "audit") 42)
      (bytes "orders")
    ≡ ok 42
read_cursor-mint_cursor_example =
    read_cursor-mint_cursor shift unshift seal quoted unshift-shift shift_no_dot (bytes "orders")
      (bytes "audit") 42 (omega arith) orders audit

orders_apart : bytes "returns" ≢ bytes "orders"
unfolding bytes
orders_apart e = cc

mint_cursor-elsewhere_example :
    (f : Fault) × ((read_cursor shift unshift seal quoted
          (mint_cursor shift unshift seal quoted (bytes "orders") (bytes "audit") 42)
          (bytes "returns")
        ≡ err f)
      × (f.code ≡ denied))
mint_cursor-elsewhere_example =
    mint_cursor-elsewhere shift unshift seal quoted unshift-shift shift_no_dot (bytes "orders")
      (bytes "returns") (bytes "audit") 42 orders orders_apart
