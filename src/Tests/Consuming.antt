-- ===== src/Tests/Consuming.antt =====
-- Fetching and resuming at concrete inputs.
use bytedesk_sdk_dependencie.Prelude.{
  ◌≡◌, refl, true, false, none, [], suc, bytes, arith, contains_byte, add64,
}
use bytedesk_sdk_dependencie.Prelude.Int.{pos}
use bytedesk_sdk_dependencie.Bus.Fault.{ok}
use bytedesk_sdk_dependencie.Memory.Stream.{expire}
use bytedesk_sdk_dependencie.Memory.Consumer.{ConsumerSpec, ConsumerState, StartPolicy, advance}
use bytedesk_sdk_dependencie.Memory.Consumer.Stops.{Runs, advance-Runs}
use bytedesk_sdk_dependencie.Memory.StreamCalls.{Account}
use bytedesk_sdk_dependencie.Memory.Consuming.{Shelf, state_locked, consumer_cursor, fetch_loop}
use bytedesk_sdk_dependencie.Memory.Consuming.Batches.{FirstOf, fetch_loop-FirstOf}
use bytedesk_sdk_dependencie.Memory.Consuming.Resume.{AsksFor, fetch_loop-consumer_cursor}
use bytedesk_sdk_dependencie.Tests.Memory.{alice, three, three-IsValid, consumer, consumer_spec}
use bytedesk_sdk_dependencie.Tests.Cursor.{
  shift, unshift, seal, quoted, unshift-shift, shift_no_dot,
}

fetch_loop-FirstOf_example :
    FirstOf 2 [] (expire 9 three).msgs 4 3 (fetch_loop (λ t. 9) 0 2 three consumer).0
fetch_loop-FirstOf_example =
    fetch_loop-FirstOf 2 9 0 three consumer three-IsValid (omega arith) refl tt

advance-Runs_example : Runs three.msgs 4 consumer (advance (suc 3) three.msgs 4 consumer)
advance-Runs_example = advance-Runs 3 three.msgs 4 consumer (omega arith) (omega arith)

abbrev account : Account
account = record {
  owner = alice;
  alive = none;
  durable = true;
  batch = false;
  counting = false;
  deny = [];
  max_payload = pos 0;
}

abbrev shelf : Shelf
shelf = record { durables = []; fetchers = [] }

abbrev resuming : ConsumerSpec
resuming = record consumer_spec {
  name = [];
  start = StartPolicy.start_cursor;
  cursor = consumer_cursor shift unshift seal quoted three.spec.name consumer;
}

stream_bar : contains_byte b'|' three.spec.name ≡ false
unfolding contains_byte bytes
stream_bar = refl

name_bar : contains_byte b'|' consumer.name ≡ false
unfolding contains_byte bytes
name_bar = refl

resuming-AsksFor :
    AsksFor shift unshift seal quoted unshift-shift shift_no_dot consumer three resuming
resuming-AsksFor = record {
  floor = omega arith;
  stream_plain = stream_bar;
  name_plain = name_bar;
  starts = refl;
  cursor_of = refl;
}

fetch_loop-consumer_cursor_example :
    (begun : ConsumerState) × ((state_locked shift unshift seal quoted account three resuming []
        (bytes "eph1")
        shelf).0
      ≡ ok begun)
    × FirstOf 3 [] (expire 9 three).msgs 4 (add64 0 1) (fetch_loop (λ t. 9) 0 3 three begun).0
fetch_loop-consumer_cursor_example =
    fetch_loop-consumer_cursor shift unshift seal quoted unshift-shift shift_no_dot account consumer
      three resuming [] (bytes "eph1") shelf 3 9 0 resuming-AsksFor three-IsValid (omega arith) refl
