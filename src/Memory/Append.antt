-- ===== src/Memory/Append.antt =====
-- appendLocked of v2/bus/memory/streams.go: one message onto one stream, and a batch of them.
pub mod Validity
pub mod Outcomes
use bytedesk_sdk_dependencie.Prelude.{
  ℕ, ◌+◌, ◌==◌, leb, if◌then◌else◌, Bool, true, false, ◌&&◌, not, Option, none, some, List, [], ◌∷◌,
  ◌++◌, is_empty, Text, bytes, Dict, lookup, insert, add64, format_uint,
}
use bytedesk_sdk_dependencie.Prelude.Int.{ℤ, pos, negsuc, is_pos}
use bytedesk_sdk_dependencie.Bus.Fault.{Fault, Result, ok, err, conflict, attributed}
use bytedesk_sdk_dependencie.Bus.Identity.{Identity, identity_string}
use bytedesk_sdk_dependencie.Bus.Msg.{Headers, header_msg_id}
use bytedesk_sdk_dependencie.Memory.Stamp.{Context, stamp_with}
use bytedesk_sdk_dependencie.Memory.Stream.{StoredMsg, DedupeEntry, Stream, size, expire}

-- bus.PublishOptions
pub record PublishOptions : Type 0 where
  pub headers : Headers
  pub msg_id : Text
  pub expect_last_seq : ℕ
  pub ttl : ℤ

-- now.Sub(at) <= window
abbrev pub inside : ℤ → ℕ → ℕ → Bool
inside (pos window) at now = leb now (at + window)
inside (negsuc window) at now = leb (now + (window + 1)) at

-- The sequence that a repeat inside the dedupe window answers with, if the publish is one.
unfoldable pub repeat_of : Stream → ℕ → Text → Option ℕ
repeat_of st now msg_id =
    if not (is_empty msg_id) && is_pos st.spec.dedupe
    then elim (lookup msg_id st.dedupe) [
      | some prev ↦ if inside st.spec.dedupe prev.at now then some prev.seq else none
      | none ↦ none
    ]
    else none

abbrev pub ttl_end : ℤ → ℕ → Option ℕ
ttl_end (pos n) now = if leb n 0 then none else some (now + n)
ttl_end (negsuc n) now = none

-- The message as it is stored, under the sequence number `seq`.
unfoldable pub stored : Context → Identity → ℕ → ℕ → Text → Text → PublishOptions → StoredMsg
stored ctx id seq now subject body o =
    let headers = stamp_with ctx id o.headers in
    record {
      seq = seq;
      subject = subject;
      headers = if is_empty o.msg_id then headers else insert header_msg_id o.msg_id headers;
      body = body;
      at = now;
      expires = ttl_end o.ttl now;
    }

-- The part of `appendLocked` that stores.
unfoldable pub store_msg : Context → Identity → ℕ → Text → Text → PublishOptions → Stream → Stream
store_msg ctx id now subject body o st =
    let seq = add64 st.last_seq 1 in
    let m = stored ctx id seq now subject body o in
    record st {
      last_seq = seq;
      msgs = st.msgs ++ m ∷ [];
      bytes = add64 st.bytes (size m);
      dedupe =
          if is_empty o.msg_id
          then st.dedupe
          else insert o.msg_id (record { seq = seq; at = now }) st.dedupe;
    }

unfoldable pub conflict_fault : Identity → Text → ℕ → Stream → ℕ → Fault
conflict_fault id subject expected st last = record {
  code = conflict;
  op = subject;
  message = attributed (identity_string id) (
      bytes "expected last sequence "
      ++ (format_uint expected
          ++ (bytes " but stream " ++ (st.spec.name ++ (bytes " is at " ++ format_uint last)))));
}

-- appendLocked after `expire`: the answer, and the stream that it leaves.
unfoldable pub append_live :
    Context → Identity → ℕ → Text → Text → PublishOptions → Stream → Result ℕ × Stream
append_live ctx id now subject body o st = elim (repeat_of st now o.msg_id) [
  | some seq ↦ (ok seq, st)
  | none ↦
      if not (o.expect_last_seq == 0) && not (o.expect_last_seq == st.last_seq)
      then (err (conflict_fault id subject o.expect_last_seq st st.last_seq), st)
      else (ok (add64 st.last_seq 1), store_msg ctx id now subject body o st)
]

unfoldable pub append_locked :
    Context → Identity → ℕ → Text → Text → PublishOptions → Stream → Result ℕ × Stream
append_locked ctx id now subject body o st = append_live ctx id now subject body o (expire now st)
