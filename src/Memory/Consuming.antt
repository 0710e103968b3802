-- ===== src/Memory/Consuming.antt =====
-- The consuming side of bus.Streams in v2/bus/memory/streams.go: where a consumer starts, which state
-- it uses, Fetch, and Cursor, Reset and Info. A state that Go shares by a pointer stands in a map and
-- is found by its name.
pub mod Resume
pub mod Rounds
pub mod Batches
use bytedesk_sdk_dependencie.Prelude.{
  ℕ, zero, suc, ◌+◌, ◌==◌, leb, ltb, if◌then◌else◌, Bool, true, false, not, ◌&&◌, Option, none,
  some, List, [], ◌∷◌, ◌++◌, is_empty, length, Text, bytes, add64, sub64, Dict, lookup, insert,
}
use bytedesk_sdk_dependencie.Prelude.Int.{ℤ, is_pos, pos_part}
use bytedesk_sdk_dependencie.Bus.Fault.{Fault, Result, ok, err, timeout, attributed}
use bytedesk_sdk_dependencie.Bus.Identity.{identity_string}
use bytedesk_sdk_dependencie.Memory.Stream.{StoredMsg, Stream, first_seq, expire}
use bytedesk_sdk_dependencie.Memory.Cursor.{mint_cursor, read_cursor}
use bytedesk_sdk_dependencie.Memory.Consumer.{
  AckPolicy, ack_none, ack_all, ack_explicit, StartPolicy, start_default, start_all, start_new,
  start_cursor, start_time, start_other, ConsumerSpec, ConsumerState, new_consumer_state,
  next_locked, build_locked,
}
use bytedesk_sdk_dependencie.Memory.StreamCalls.{
  Account, Streams, off, stream_op, refusal_fault, lookup_stream, absent_stream,
}

-- The durable consumers of each stream, and the states that Fetch keeps on its connection.
pub record Shelf : Type 0 where
  pub durables : Dict (Dict ConsumerState)
  pub fetchers : Dict ConsumerState

-- Where a state stands.
pub data Slot : Type 0 where
  durable_slot fetch_slot : Text → Slot
  loose : Slot

unfoldable pub durables_of : Text → Shelf → Dict ConsumerState
durables_of stream shelf = elim (lookup stream shelf.durables) [ some d ↦ d | none ↦ [] ]

unfoldable pub put_state : Text → Slot → ConsumerState → Shelf → Shelf
put_state stream (durable_slot name) cs shelf = record shelf {
  durables = insert stream (insert name cs (durables_of stream shelf)) shelf.durables;
}
put_state stream (fetch_slot key) cs shelf = record shelf {
  fetchers = insert key cs shelf.fetchers;
}
put_state stream loose cs shelf = shelf

-- The first message that is not older than the time, or the number behind the last.
unfoldable pub seq_since : ℕ → ℕ → List StoredMsg → ℕ
seq_since time last [] = add64 last 1
seq_since time last (m ∷ msgs) = if leb time m.at then m.seq else seq_since time last msgs

-- The text of a start policy.
unfoldable pub start_text : StartPolicy → Text
start_text start_default = []
start_text start_all = bytes "all"
start_text start_new = bytes "new"
start_text start_cursor = bytes "cursor"
start_text start_time = bytes "time"
start_text (start_other t) = t

unfoldable pub ack_text : Option AckPolicy → Text
ack_text none = []
ack_text (some ack_none) = bytes "none"
ack_text (some ack_all) = bytes "all"
ack_text (some ack_explicit) = bytes "explicit"

-- spec.Start == StartCursor && !spec.Cursor.IsZero()
unfoldable pub explicit_cursor : ConsumerSpec → Bool
explicit_cursor spec = elim spec.start [ start_cursor ↦ not (is_empty spec.cursor) | _ ↦ false ]

-- The key under which Fetch keeps the state of a consumer without a name.
unfoldable pub fetch_key : Text → ConsumerSpec → Text
fetch_key name spec =
    name
    ++ (0
        ∷ (spec.filter
            ++ (0 ∷ (start_text spec.start ++ (0 ∷ (ack_text spec.ack ++ (0 ∷ spec.cursor)))))))

unfoldable pub slot_of : ConsumerSpec → Text → Slot
slot_of spec key =
    if not (is_empty spec.name)
    then durable_slot spec.name
    else if is_empty key
    then loose
    else fetch_slot key

unfoldable pub held_at : Text → Slot → Shelf → Option ConsumerState
held_at stream (durable_slot name) shelf = lookup name (durables_of stream shelf)
held_at stream (fetch_slot key) shelf = lookup key shelf.fetchers
held_at stream loose shelf = none

-- The loop of Fetch that fills a batch; each look at the clock is the next instant of `clock`.
unfoldable pub fetch_loop :
    (ℕ → ℕ) → ℕ → ℕ → Stream → ConsumerState → List (StoredMsg × ℕ) × Stream × ConsumerState
fetch_loop clock tick zero st cs = ([], st, cs)
fetch_loop clock tick (suc n) st cs =
    let (m, st', cs') = next_locked (clock tick) st cs in
    elim m [
      | none ↦ ([], st', cs')
      | some m ↦
          let (count, built) = build_locked (clock (suc tick)) m cs' in
          let (rest, st'', cs'') = fetch_loop clock (suc (suc tick)) n st' built in
          ((m, count) ∷ rest, st'', cs'')
    ]

module _ (encode : Text → Text) (decode : Text → Option Text) (sign quote : Text → Text) where
  -- streams.startSeqLocked
  unfoldable pub start_seq : Account → Stream → ConsumerSpec → Result ℕ
  start_seq a st spec = elim spec.start [
    | start_default ↦ ok (first_seq st)
    | start_all ↦ ok (first_seq st)
    | start_new ↦ ok (add64 st.last_seq 1)
    | start_cursor ↦ elim (read_cursor encode decode sign quote spec.cursor st.spec.name) [
      | err f ↦ err f
      | ok seq ↦ ok (add64 seq 1)
    ]
    | start_time ↦ ok (seq_since spec.start_time st.last_seq st.msgs)
    | start_other t ↦
        err (refusal_fault a (stream_op st.spec.name) (bytes "unknown start policy " ++ t))
  ]

  -- streams.stateLocked; `fresh` is the id that would be minted.
  unfoldable pub state_locked :
      Account → Stream → ConsumerSpec → Text → Text → Shelf → Result ConsumerState × Shelf
  state_locked a st spec key fresh shelf =
      let slot = slot_of spec key in
      let name = if is_empty spec.name then fresh else spec.name in
      let held = if explicit_cursor spec then none else held_at st.spec.name slot shelf in
      elim held [
        | some cs ↦
            let again : ConsumerState = record cs { spec = spec } in
            (ok again, put_state st.spec.name slot again shelf)
        | none ↦ elim (start_seq a st spec) [
          | err f ↦ (err f, shelf)
          | ok start ↦
              let cs = new_consumer_state name st.spec.name spec start in
              (ok cs, put_state st.spec.name slot cs shelf)
        ]
      ]

  -- One round of the outer loop of Fetch, under the lock: what it hands out, the store and the shelf.
  unfoldable pub fetch_round :
      Account
      → (ℕ → ℕ)
      → Text
      → ConsumerSpec
      → ℕ
      → Text
      → Streams
      → Shelf
      → Result (List (StoredMsg × ℕ)) × Streams × Shelf
  fetch_round a clock name spec n fresh streams shelf = elim (lookup_stream a name streams) [
    | err f ↦ (err f, streams, shelf)
    | ok st ↦
        let (state, shelf') = state_locked a st spec (fetch_key name spec) fresh shelf in
        elim state [
          | err f ↦ (err f, streams, shelf')
          | ok cs ↦
              let (out, st', cs') = fetch_loop clock 0 n st cs in
              (
                ok out,
                insert name st' streams,
                put_state st.spec.name (slot_of spec (fetch_key name spec)) cs' shelf',
              )
        ]
  ]

  -- consumer.Cursor
  unfoldable pub consumer_cursor : Text → ConsumerState → Text
  consumer_cursor stream cs = mint_cursor encode decode sign quote stream cs.name cs.ack_floor

  -- consumer.Reset on the stream that is there.
  unfoldable pub reset : Account → Stream → ConsumerState → Option Fault × ConsumerState
  reset a st cs = elim (start_seq a st cs.spec) [
    | err f ↦ (some f, cs)
    | ok start ↦ (
      none,
      record cs {
        next = start;
        started = start;
        ack_floor = sub64 start 1;
        acked = [];
        pending = [];
        deliveries = [];
      },
    )
  ]

-- What a call of Fetch comes to: an answer, or another round after two milliseconds.
pub data FetchAnswer : Type 0 where
  answered : Result (List (StoredMsg × ℕ)) → FetchAnswer
  again : FetchAnswer

unfoldable pub fetch_answer : Result (List (StoredMsg × ℕ)) → FetchAnswer
fetch_answer (ok []) = again
fetch_answer (ok (m ∷ ms)) = answered (ok (m ∷ ms))
fetch_answer (err f) = answered (err f)

-- The refusal of Fetch when its context ends first; `why` is the error of the context.
unfoldable pub fetch_timeout : Account → Text → Text → Fault
fetch_timeout a name why = record {
  code = timeout;
  op = stream_op name;
  message = attributed (identity_string a.owner) why;
}

module _ (encode : Text → Text) (decode : Text → Option Text) (sign quote : Text → Text) where
  -- streams.Fetch up to the end of its first round.
  unfoldable pub fetch :
      Account
      → (ℕ → ℕ)
      → Text
      → ConsumerSpec
      → ℤ
      → Text
      → Streams
      → Shelf
      → FetchAnswer × Streams × Shelf
  fetch a clock name spec n fresh streams shelf = elim (off a (stream_op name)) [
    | some f ↦ (answered (err f), streams, shelf)
    | none ↦
        if not (is_pos n)
        then (answered (ok []), streams, shelf)
        else let (out, streams', shelf') =
            fetch_round encode decode sign quote a clock name spec (pos_part n) fresh streams
              shelf in
          (fetch_answer out, streams', shelf')
  ]

-- bus.StreamInfo
pub record StreamInfo : Type 0 where
  pub name : Text
  pub subjects : List Text
  pub msgs : ℕ
  pub bytes : ℕ
  pub first_seq : ℕ
  pub last_seq : ℕ
  pub created : ℕ

-- streams.Info
unfoldable pub info : Account → ℕ → Text → Streams → Result StreamInfo × Streams
info a now name streams = elim (off a (stream_op name)) [
  | some f ↦ (err f, streams)
  | none ↦ elim (lookup_stream a name streams) [
    | err f ↦ (err f, streams)
    | ok st ↦
        let live = expire now st in
        (
          ok (record {
            name = live.spec.name;
            subjects = live.spec.subjects;
            msgs = length live.msgs;
            bytes = live.bytes;
            first_seq = first_seq live;
            last_seq = live.last_seq;
            created = live.created;
          }),
          insert name live streams,
        )
  ]
]

-- The loop of consumerState.numPending.
unfoldable pub unread : ℕ → List StoredMsg → ℕ
unread next [] = 0
unread next (m ∷ msgs) = let rest = unread next msgs in if leb next m.seq then suc rest else rest

-- consumerState.numPending
unfoldable pub num_pending : Stream → ConsumerState → ℕ
num_pending st cs = unread cs.next st.msgs + length cs.pending

-- bus.ConsumerInfo
pub record ConsumerInfo : Type 0 where
  pub stream : Text
  pub name : Text
  pub delivered : ℕ
  pub ack_floor : ℕ
  pub num_pending : ℕ
  pub num_ack_pending : ℕ

-- consumer.Info, of the consumer of the stream with this name
unfoldable pub consumer_info : Account → Text → ConsumerState → Streams → Result ConsumerInfo
consumer_info a stream cs streams = elim (lookup stream streams) [
  | none ↦ err (absent_stream a stream)
  | some st ↦ ok (record {
    stream = stream;
    name = cs.name;
    delivered = sub64 cs.next 1;
    ack_floor = cs.ack_floor;
    num_pending = num_pending st cs;
    num_ack_pending = length cs.pending;
  })
]
