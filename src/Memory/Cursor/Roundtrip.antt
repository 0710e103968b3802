-- ===== src/Memory/Cursor/Roundtrip.antt =====
-- A minted cursor on its own stream and on others.
use bytedesk_sdk_dependencie.Prelude.{
  heads_eq, ◌≢◌, ℕ, zero, suc, ◌+◌, ◌/◌, ◌%◌, digits_loop, ◌<◌, ◌==◌, word, ◌≡◌, refl, sym, ap, ◌∙◌,
  true, false, Option, some, List, [], ◌∷◌, ◌++◌, is_empty, Text, text_eq_refl, text_eq_iff, split,
  split-part, split-whole, contains_byte, format_uint, decimal_value, decimal_value-format_uint,
  arith, Bool-cases, inl, inr,
}
use bytedesk_sdk_dependencie.Bus.Fault.{Fault, ok, err, denied, Result-cases}
use bytedesk_sdk_dependencie.Memory.Cursor.{
  cursor_fault, cut, all_digits, parse_uint, cursor_body, read_parts, mint_cursor, read_signed,
  read_cursor,
}

cut-append : (t u : Text) → contains_byte b'.' t ≡ false → cut (t ++ (b'.' ∷ u)) ≡ some (t, u)
unfolding cut contains_byte
cut-append [] u h = ground arith
cut-append (c ∷ t) u h = ground (arith, cut-append t u)

pub is_empty-append : (t u : Text) (c : ℕ) → is_empty (t ++ (c ∷ u)) ≡ false
is_empty-append [] u c = refl
is_empty-append (x ∷ t) u c = refl

all_digits-digits_loop :
    (places n : ℕ) (b : Text) → all_digits b ≡ true → all_digits (digits_loop places n b) ≡ true
unfolding all_digits digits_loop
all_digits-digits_loop zero n b h = h
all_digits-digits_loop (suc places) n b h =
    ground (arith, all_digits-digits_loop places (n / 10) ((b'0' + n % 10) ∷ b))

all_digits-format_uint : (n : ℕ) → all_digits (format_uint n) ≡ true
unfolding format_uint
all_digits-format_uint n = elim (Bool-cases (n == 0)) [
  | inl e ↦ rw e (unfold all_digits in refl)
  | inr e ↦ rw e (all_digits-digits_loop 20 n [] (unfold all_digits in refl))
]

all_digits-lacks_bar : (t : Text) → all_digits t ≡ true → contains_byte b'|' t ≡ false
unfolding all_digits contains_byte
all_digits-lacks_bar [] h = refl
all_digits-lacks_bar (c ∷ t) h = ground (arith, all_digits-lacks_bar t)

decimal_value-empty : (t : Text) → is_empty t ≡ true → decimal_value 0 t ≡ 0
unfolding decimal_value
decimal_value-empty [] h = refl
decimal_value-empty (c ∷ t) h = cc

format_uint-nonempty : (n : ℕ) → n < word → is_empty (format_uint n) ≡ false
format_uint-nonempty n h = elim (Bool-cases (is_empty (format_uint n))) [
  | inr e ↦ e
  | inl e ↦
      let zero_of : n ≡ 0 =
        sym (decimal_value-format_uint n h) ∙ decimal_value-empty (format_uint n) e in
      rw zero_of (unfold format_uint in refl)
]

-- ParseUint reads what FormatUint prints.
pub parse_uint-format_uint : (n : ℕ) → n < word → parse_uint (format_uint n) ≡ some n
unfolding parse_uint
parse_uint-format_uint n h =
    rw (format_uint-nonempty n h, all_digits-format_uint n, decimal_value-format_uint n h)
      (ground arith)

split-cursor_body :
    (stream consumer : Text) (seq : ℕ)
    → contains_byte b'|' stream ≡ false
    → contains_byte b'|' consumer ≡ false
    → split b'|' (cursor_body stream consumer seq) ≡ stream ∷ consumer ∷ format_uint seq ∷ []
unfolding cursor_body
split-cursor_body stream consumer seq a b =
    split-part b'|' stream _ a
    ∙ ap (λ r. stream ∷ r)
        (split-part b'|' consumer _ b
          ∙ ap (λ r. consumer ∷ r)
              (split-whole b'|' (format_uint seq)
                (all_digits-lacks_bar (format_uint seq) (all_digits-format_uint seq))))

module _ (encode : Text → Text) (decode : Text → Option Text) (sign quote : Text → Text)
    (decode-encode : (t : Text) → decode (encode t) ≡ some t)
    (encode-no_dot : (t : Text) → contains_byte b'.' (encode t) ≡ false) where
  read_signed_lem :
      (body stream : Text) {consumer : Text} {seq : ℕ}
      → split b'|' body ≡ stream ∷ consumer ∷ format_uint seq ∷ []
      → seq < word
      → read_signed encode decode sign quote stream (encode body, encode (sign body)) ≡ ok seq
  unfolding read_signed
  read_signed_lem body stream {consumer} {seq} e h =
      rw (read_signed, decode-encode body, decode-encode (sign body), text_eq_refl (sign body), e)
        (unfold read_parts in rw (text_eq_refl stream, parse_uint-format_uint seq h) refl)

  -- A cursor minted for a stream and a consumer whose names have no bar in them is read back on that
  -- stream as the sequence number that it was minted for.
  pub read_cursor-mint_cursor :
      (stream consumer : Text) (seq : ℕ)
      → seq < word
      → contains_byte b'|' stream ≡ false
      → contains_byte b'|' consumer ≡ false
      → read_cursor encode decode sign quote
          (mint_cursor encode decode sign quote stream consumer seq)
          stream
        ≡ ok seq
  unfolding read_cursor mint_cursor
  read_cursor-mint_cursor stream consumer seq h a b =
      let body = cursor_body stream consumer seq in
      rw
        (
          is_empty-append (encode body) (encode (sign body)) b'.',
          cut-append (encode body) (encode (sign body)) (encode-no_dot body),
        )
        (read_signed_lem body stream (split-cursor_body stream consumer seq a b) h)

read_parts_lem :
    (quote : Text → Text) (stream : Text) (parts : List Text) (seq : ℕ)
    → read_parts quote stream parts ≡ ok seq
    → (consumer : Text) × ((digits : Text) × ((parts ≡ stream ∷ consumer ∷ digits ∷ [])
          × (parse_uint digits ≡ some seq)))
unfolding read_parts
read_parts_lem quote stream [] seq h = absurd (ground arith)
read_parts_lem quote stream (a ∷ []) seq h = absurd (ground arith)
read_parts_lem quote stream (a ∷ b ∷ []) seq h = absurd (ground arith)
read_parts_lem quote stream (a ∷ b ∷ c ∷ []) seq h =
    (b, (c, (ground (arith, text_eq_iff a stream), ground arith)))
read_parts_lem quote stream (a ∷ b ∷ c ∷ d ∷ rest) seq h = absurd (ground arith)

read_parts-denied :
    (quote : Text → Text) (stream : Text) (parts : List Text) (f : Fault)
    → read_parts quote stream parts ≡ err f
    → f.code ≡ denied
unfolding read_parts cursor_fault
read_parts-denied quote stream [] f h = ground arith
read_parts-denied quote stream (a ∷ []) f h = ground arith
read_parts-denied quote stream (a ∷ b ∷ []) f h = ground arith
read_parts-denied quote stream (a ∷ b ∷ c ∷ []) f h = ground arith
read_parts-denied quote stream (a ∷ b ∷ c ∷ d ∷ rest) f h = ground arith

-- The first part of a cursor's body is the name of its stream.
cursor_body_first :
    (stream consumer stream' consumer' digits : Text) (seq : ℕ)
    → contains_byte b'|' stream ≡ false
    → split b'|' (cursor_body stream consumer seq) ≡ stream' ∷ consumer' ∷ digits ∷ []
    → stream' ≡ stream
unfolding cursor_body
cursor_body_first stream consumer stream' consumer' digits seq a h =
    let e : stream ∷ split b'|' (consumer ++ (b'|' ∷ format_uint seq))
        ≡ stream' ∷ consumer' ∷ digits ∷ [] =
      sym (split-part b'|' stream _ a) ∙ h in
    sym (heads_eq stream stream' _ _ e).0

module _ (encode : Text → Text) (decode : Text → Option Text) (sign quote : Text → Text)
    (decode-encode : (t : Text) → decode (encode t) ≡ some t)
    (encode-no_dot : (t : Text) → contains_byte b'.' (encode t) ≡ false) where
  read_cursor-parts :
      (stream stream' consumer : Text) (seq : ℕ)
      → read_cursor encode decode sign quote
          (mint_cursor encode decode sign quote stream consumer seq)
          stream'
        ≡ read_parts quote stream' (split b'|' (cursor_body stream consumer seq))
  unfolding read_cursor mint_cursor read_signed
  read_cursor-parts stream stream' consumer seq =
      let body = cursor_body stream consumer seq in
      rw
        (
          is_empty-append (encode body) (encode (sign body)) b'.',
          cut-append (encode body) (encode (sign body)) (encode-no_dot body),
          read_signed,
          decode-encode body,
          decode-encode (sign body),
          text_eq_refl (sign body),
        )
        refl

  -- A cursor minted for a stream whose name has no bar in it is refused as denied on every other
  -- stream, whatever the consumer and the sequence number.
  pub mint_cursor-elsewhere :
      (stream stream' consumer : Text) (seq : ℕ)
      → contains_byte b'|' stream ≡ false
      → stream' ≢ stream
      → (f : Fault) × ((read_cursor encode decode sign quote
              (mint_cursor encode decode sign quote stream consumer seq)
              stream'
            ≡ err f)
          × (f.code ≡ denied))
  mint_cursor-elsewhere stream stream' consumer seq a apart =
      let parts = split b'|' (cursor_body stream consumer seq) in
      let same = read_cursor-parts stream stream' consumer seq in
      elim (Result-cases (read_parts quote stream' parts)) [
        | inr (f, e) ↦ (f, (same ∙ e, read_parts-denied quote stream' parts f e))
        | inl (n, e) ↦
            let (consumer', (digits, (shape, _))) = read_parts_lem quote stream' parts n e in
            absurd (apart (cursor_body_first stream consumer stream' consumer' digits seq a shape))
      ]
