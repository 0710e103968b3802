-- ===== src/Memory/Cursor.antt =====
-- v2/bus/memory/cursor.go: signed replay positions. HMAC-SHA256 under the store's key and
-- base64.RawURLEncoding are parameters.
pub mod Roundtrip
use bytedesk_sdk_dependencie.Prelude.{
  ℕ, ◌-◌, ◌==◌, ltb, leb, word, if◌then◌else◌, Bool, true, false, not, ◌&&◌, ◌||◌, Option, none,
  some, List, [], ◌∷◌, ◌++◌, is_empty, Text, text_eq, bytes, split, format_uint, decimal_value,
}
use bytedesk_sdk_dependencie.Bus.Fault.{Fault, Result, ok, err, denied}

-- strings.Cut at a dot: what stands before it and after it.
unfoldable pub cut : Text → Option (Text × Text)
cut [] = none
cut (c ∷ t) =
    if c == b'.'
    then some ([], t)
    else elim (cut t) [ none ↦ none | some (before, after) ↦ some (c ∷ before, after) ]

unfoldable pub all_digits : Text → Bool
all_digits [] = true
all_digits (c ∷ t) = (leb b'0' c && leb c b'9') && all_digits t

-- strconv.ParseUint(s, 10, 64)
unfoldable pub parse_uint : Text → Option ℕ
parse_uint s =
    if is_empty s || not (all_digits s)
    then none
    else if ltb (decimal_value 0 s) word
    then some (decimal_value 0 s)
    else none

-- cursorBody
unfoldable pub cursor_body : Text → Text → ℕ → Text
cursor_body stream consumer seq = stream ++ (b'|' ∷ (consumer ++ (b'|' ∷ format_uint seq)))

-- The refusal of readCursor.
unfoldable pub cursor_fault : Text → Text → Fault
cursor_fault stream why = record {
  code = denied;
  op = bytes "cursor:" ++ stream;
  message = bytes "cursor refused: " ++ why;
}

abbrev pub refuse : Text → Text → Result ℕ
refuse stream why = err (cursor_fault stream why)

-- The part of readCursor on the parts of a body whose signature verifies; `quote` is strconv.Quote.
unfoldable pub read_parts : (Text → Text) → Text → List Text → Result ℕ
read_parts quote stream [] = refuse stream (bytes "malformed")
read_parts quote stream (a ∷ []) = refuse stream (bytes "malformed")
read_parts quote stream (a ∷ b ∷ []) = refuse stream (bytes "malformed")
read_parts quote stream (a ∷ b ∷ c ∷ []) =
    if text_eq a stream
    then elim (parse_uint c) [ some seq ↦ ok seq | none ↦ refuse stream (bytes "malformed") ]
    else refuse stream (bytes "belongs to stream " ++ quote a)
read_parts quote stream (a ∷ b ∷ c ∷ d ∷ rest) = refuse stream (bytes "malformed")

module _ (encode : Text → Text) (decode : Text → Option Text) (sign quote : Text → Text) where
  -- Store.mintCursor, as the token of the cursor
  unfoldable pub mint_cursor : Text → Text → ℕ → Text
  mint_cursor stream consumer seq =
      let body = cursor_body stream consumer seq in encode body ++ (b'.' ∷ encode (sign body))

  -- readCursor from the decoding on.
  unfoldable pub read_signed : Text → Text × Text → Result ℕ
  read_signed stream (raw, sig) = elim (decode raw) [
    | none ↦ refuse stream (bytes "malformed")
    | some body ↦ elim (decode sig) [
      | none ↦ refuse stream (bytes "malformed")
      | some mac ↦
          if text_eq mac (sign body)
          then read_parts quote stream (split b'|' body)
          else refuse stream (bytes "signature does not verify")
    ]
  ]

  -- Store.readCursor
  unfoldable pub read_cursor : Text → Text → Result ℕ
  read_cursor token stream =
      if is_empty token then refuse stream (bytes "empty") else elim (cut token) [
        | none ↦ refuse stream (bytes "malformed")
        | some parts ↦ read_signed stream parts
      ]
