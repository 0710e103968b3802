-- ===== src/Memory/Consuming/Resume.antt =====
-- A consumer that resumes from the cursor of another: it goes on right behind what that one had
-- acknowledged.
use bytedesk_sdk_dependencie.Prelude.{
  ℕ, ◌+◌, ◌<◌, ◌≡◌, refl, ap, ◌∙◌, true, false, Option, some, Text, arith, contains_byte, is_empty,
  word, add64, if◌then◌else◌,
}
use bytedesk_sdk_dependencie.Prelude.Int.{is_pos}
use bytedesk_sdk_dependencie.Bus.Fault.{ok}
use bytedesk_sdk_dependencie.Memory.Stream.{Stream, expire}
use bytedesk_sdk_dependencie.Memory.Append.Validity.{IsValid}
use bytedesk_sdk_dependencie.Memory.Cursor.{mint_cursor, read_cursor}
use bytedesk_sdk_dependencie.Memory.Cursor.Roundtrip.{is_empty-append, read_cursor-mint_cursor}
use bytedesk_sdk_dependencie.Memory.Consumer.{
  start_cursor, ConsumerSpec, ConsumerState, new_consumer_state,
}
use bytedesk_sdk_dependencie.Memory.StreamCalls.{Account}
use bytedesk_sdk_dependencie.Memory.Consuming.{
  Shelf, explicit_cursor, start_seq, state_locked, consumer_cursor, fetch_loop,
}
use bytedesk_sdk_dependencie.Memory.Consuming.Batches.{FirstOf, fetch_loop-FirstOf}

explicit_cursor_lem :
    (spec : ConsumerSpec)
    → spec.start ≡ start_cursor
    → is_empty spec.cursor ≡ false
    → explicit_cursor spec ≡ true
unfolding explicit_cursor
explicit_cursor_lem spec e n = ground arith

module _ (encode : Text → Text) (decode : Text → Option Text) (sign quote : Text → Text) where
  start_seq-read_cursor :
      (a : Account) (st : Stream) (spec : ConsumerSpec) (n : ℕ)
      → spec.start ≡ start_cursor
      → read_cursor encode decode sign quote spec.cursor st.spec.name ≡ ok n
      → start_seq encode decode sign quote a st spec ≡ ok (add64 n 1)
  unfolding start_seq
  start_seq-read_cursor a st spec n e r = ground arith

  -- A spec with a cursor of its own takes no state that is held.
  state_locked-start_seq :
      (a : Account) (st : Stream) (spec : ConsumerSpec) (key fresh : Text) (shelf : Shelf) (n : ℕ)
      → explicit_cursor spec ≡ true
      → start_seq encode decode sign quote a st spec ≡ ok n
      → (state_locked encode decode sign quote a st spec key fresh shelf).0
        ≡ ok (
            new_consumer_state
              (if is_empty spec.name then fresh else spec.name)
              st.spec.name
              spec
              n)
  unfolding state_locked
  state_locked-start_seq a st spec key fresh shelf n e s = rw (state_locked, e, s) refl

module _ (encode : Text → Text) (decode : Text → Option Text) (sign quote : Text → Text)
    (decode-encode : (t : Text) → decode (encode t) ≡ some t)
    (encode-no_dot : (t : Text) → contains_byte b'.' (encode t) ≡ false) where
  -- A cursor of the consumer can be minted, and the spec asks for it.
  pub record AsksFor (cs : ConsumerState) (st : Stream) (spec : ConsumerSpec) : Type 0 where
    pub floor : cs.ack_floor < word
    pub stream_plain : contains_byte b'|' st.spec.name ≡ false
    pub name_plain : contains_byte b'|' cs.name ≡ false
    pub starts : spec.start ≡ start_cursor
    pub cursor_of : spec.cursor ≡ consumer_cursor encode decode sign quote st.spec.name cs

  explicit_cursor-true :
      (cs : ConsumerState) (st : Stream) (spec : ConsumerSpec)
      → AsksFor cs st spec
      → explicit_cursor spec ≡ true
  unfolding consumer_cursor mint_cursor
  explicit_cursor-true cs st spec h =
      let minted : is_empty (consumer_cursor encode decode sign quote st.spec.name cs) ≡ false =
        is_empty-append _ _ b'.' in
      explicit_cursor_lem spec h.starts (ap is_empty h.cursor_of ∙ minted)

  start_seq_lem :
      (a : Account) (cs : ConsumerState) (st : Stream) (spec : ConsumerSpec)
      → AsksFor cs st spec
      → start_seq encode decode sign quote a st spec ≡ ok (add64 cs.ack_floor 1)
  unfolding consumer_cursor
  start_seq_lem a cs st spec h =
      start_seq-read_cursor encode decode sign quote a st spec cs.ack_floor h.starts (
        ap (λ t. read_cursor encode decode sign quote t st.spec.name) h.cursor_of
        ∙ read_cursor-mint_cursor encode decode sign quote decode-encode encode-no_dot st.spec.name
            cs.name cs.ack_floor h.floor h.stream_plain h.name_plain)

  -- Whatever states are held, the spec gets a fresh one that starts right behind the floor.
  pub state_locked-consumer_cursor :
      (a : Account) (cs : ConsumerState) (st : Stream) (spec : ConsumerSpec) (key fresh : Text)
      (shelf : Shelf)
      → AsksFor cs st spec
      → (state_locked encode decode sign quote a st spec key fresh shelf).0
        ≡ ok (
            new_consumer_state
              (if is_empty spec.name then fresh else spec.name)
              st.spec.name
              spec
              (add64 cs.ack_floor 1))
  state_locked-consumer_cursor a cs st spec key fresh shelf h =
      state_locked-start_seq encode decode sign quote a st spec key fresh shelf _
        (explicit_cursor-true cs st spec h) (start_seq_lem a cs st spec h)

  -- A fetch that resumes from a cursor of a consumer gets the first messages behind the number up to
  -- which that consumer had acknowledged, without a gap and without a repetition.
  pub fetch_loop-consumer_cursor :
      (a : Account) (cs : ConsumerState) (st : Stream) (spec : ConsumerSpec) (key fresh : Text)
      (shelf : Shelf) (n now tick : ℕ)
      → AsksFor cs st spec
      → IsValid st
      → st.last_seq + 1 < word
      → is_pos spec.max_ack_pending ≡ false
      → (begun : ConsumerState) × ((state_locked encode decode sign quote a st spec key fresh
            shelf).0
          ≡ ok begun)
        × FirstOf n spec.filter
            (expire now st).msgs
            st.last_seq
            (add64 cs.ack_floor 1)
            (fetch_loop (λ t. now) tick n st begun).0
  unfolding expire new_consumer_state
  fetch_loop-consumer_cursor a cs st spec key fresh shelf n now tick h valid room unlimited = (
    _,
    state_locked-consumer_cursor a cs st spec key fresh shelf h,
    fetch_loop-FirstOf n now tick st _ valid room unlimited tt,
  )
