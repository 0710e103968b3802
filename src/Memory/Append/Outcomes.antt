-- ===== src/Memory/Append/Outcomes.antt =====
-- What a publish onto a stream answers, and what the stream then holds.
use bytedesk_sdk_dependencie.Prelude.{
  if_cases, is_empty, ℕ, ◌+◌, ◌≤◌, ◌<◌, ◌≡◌, ◌≢◌, refl, List, [], ◌∷◌, ◌++◌, Text, word, arith,
  some, none, ◌⊎◌, add64, is_empty_iff, lookup-insert, text_eq_refl, ap, sym, ◌∙◌,
}
use bytedesk_sdk_dependencie.Prelude.Int.{pos}
use bytedesk_sdk_dependencie.Bus.Fault.{ok, err}
use bytedesk_sdk_dependencie.Bus.Identity.{Identity}
use bytedesk_sdk_dependencie.Memory.Stamp.{Context}
use bytedesk_sdk_dependencie.Memory.Stamp.Unforgeable.{
  IsStampedBy, stamp_with-IsStampedBy, insert-IsStampedBy,
}
use bytedesk_sdk_dependencie.Memory.Stream.{StoredMsg, Stream, expire, find}
use bytedesk_sdk_dependencie.Memory.Append.{
  PublishOptions, repeat_of, stored, store_msg, append_live, append_locked, conflict_fault,
}
use bytedesk_sdk_dependencie.Memory.Append.Validity.{Ascending, IsValid, expire-IsValid}

-- The last sequence number bounds every one that is stored.
Ascending-le : (lo hi : ℕ) (msgs : List StoredMsg) → Ascending lo msgs hi → lo ≤ hi
Ascending-le lo hi [] a = a
Ascending-le lo hi (m ∷ msgs) a = omega (arith, Ascending-le m.seq hi msgs a.1)

pub last_seq-expire : (now : ℕ) (st : Stream) → (expire now st).last_seq ≡ st.last_seq
unfolding expire
last_seq-expire now st = refl

pub spec-expire : (now : ℕ) (st : Stream) → (expire now st).spec ≡ st.spec
unfolding expire
spec-expire now st = refl

find-snoc :
    (lo hi : ℕ) (msgs : List StoredMsg) (m : StoredMsg)
    → Ascending lo msgs hi
    → hi < m.seq
    → find m.seq (msgs ++ m ∷ []) ≡ some m
unfolding find
find-snoc lo hi [] m a h = ground arith
find-snoc lo hi (x ∷ msgs) m a h =
    ground (arith, find-snoc x.seq hi msgs m a.1 h, Ascending-le x.seq hi msgs a.1)

store_msg-find :
    (ctx : Context) (id : Identity) (now : ℕ) (subject body : Text) (o : PublishOptions)
    (st : Stream)
    → IsValid st
    → st.last_seq + 1 < word
    → find (st.last_seq + 1) (store_msg ctx id now subject body o st).msgs
      ≡ some (stored ctx id (st.last_seq + 1) now subject body o)
unfolding store_msg stored
store_msg-find ctx id now subject body o st v room =
    let e : add64 st.last_seq 1 ≡ st.last_seq + 1 = omega arith in
    rw e (
      find-snoc 0 st.last_seq st.msgs (stored ctx id (st.last_seq + 1) now subject body o)
        v.ascending (omega arith))

append_live_stores :
    (ctx : Context) (id : Identity) (now : ℕ) (subject body : Text) (o : PublishOptions)
    (st : Stream)
    → repeat_of st now o.msg_id ≡ none
    → (o.expect_last_seq ≡ 0) ⊎ (o.expect_last_seq ≡ st.last_seq)
    → append_live ctx id now subject body o st
      ≡ (ok (add64 st.last_seq 1), store_msg ctx id now subject body o st)
unfolding append_live
append_live_stores ctx id now subject body o st fresh expected = ground arith

-- What a message holds that was stored for a publish: the subject, the body and the time as they were
-- given, headers from which a handler reads the publisher, and the expiry that its TTL sets.
pub record IsStoredFor (id : Identity) (seq now : ℕ) (subject body : Text) (o : PublishOptions)
    (m : StoredMsg) : Type 0 where
  pub seq_eq : m.seq ≡ seq
  pub subject_eq : m.subject ≡ subject
  pub body_eq : m.body ≡ body
  pub at_eq : m.at ≡ now
  pub stamped : IsStampedBy id m.headers
  pub kept_for_good : o.ttl ≡ pos 0 → m.expires ≡ none
  pub expiring : (t : ℕ) → o.ttl ≡ pos (t + 1) → m.expires ≡ some (now + (t + 1))

pub stored-IsStoredFor :
    (ctx : Context) (id : Identity) (seq now : ℕ) (subject body : Text) (o : PublishOptions)
    → IsStoredFor id seq now subject body o (stored ctx id seq now subject body o)
unfolding stored
stored-IsStoredFor ctx id seq now subject body o = record {
  seq_eq = refl;
  subject_eq = refl;
  body_eq = refl;
  at_eq = refl;
  stamped =
      if_cases (IsStampedBy id) (is_empty o.msg_id) _ _
        (λ _. stamp_with-IsStampedBy ctx id o.headers)
        (λ _. insert-IsStampedBy ctx id o.headers o.msg_id);
  kept_for_good = λ e. rw e refl;
  expiring = λ t e. ground arith;
}

-- appendLocked onto a well-formed stream with room below 2^64, of a publish that is no repeat and
-- whose expected sequence, if it names one, is the last: it answers the next sequence number, under
-- which the stream then finds a message with the given subject, body and time, the headers of which
-- give the plugin id, the generation and the lease of the publisher, and with the expiry of the TTL.
pub append_locked-stored :
    (ctx : Context) (id : Identity) (now : ℕ) (subject body : Text) (o : PublishOptions)
    (st : Stream)
    → IsValid st
    → st.last_seq + 1 < word
    → repeat_of (expire now st) now o.msg_id ≡ none
    → (o.expect_last_seq ≡ 0) ⊎ (o.expect_last_seq ≡ st.last_seq)
    → ((append_locked ctx id now subject body o st).0 ≡ ok (st.last_seq + 1))
      × ((m : StoredMsg) × ((find
                (st.last_seq + 1)
                (append_locked ctx id now subject body o st).1.msgs
              ≡ some m)
            × IsStoredFor id (st.last_seq + 1) now subject body o m))
unfolding append_locked expire
append_locked-stored ctx id now subject body o st v room fresh expected =
    let e = last_seq-expire now st in
    let w = append_live_stores ctx id now subject body o (expire now st) fresh (rw e expected) in
    let f =
      store_msg-find ctx id now subject body o (expire now st) (expire-IsValid now st v)
        (rw e room) in
    (
      rw (w, e) (ap ok (omega arith)),
      (
        stored ctx id (st.last_seq + 1) now subject body o,
        (rw w (rw e at f), stored-IsStoredFor ctx id (st.last_seq + 1) now subject body o),
      ),
    )

-- A publish that is no repeat and expects another last sequence is refused as a conflict, and the
-- stream is left as `expire` left it.
append_locked_conflict :
    (ctx : Context) (id : Identity) (now : ℕ) (subject body : Text) (o : PublishOptions)
    (st : Stream)
    → repeat_of (expire now st) now o.msg_id ≡ none
    → o.expect_last_seq ≢ 0
    → o.expect_last_seq ≢ st.last_seq
    → append_locked ctx id now subject body o st ≡ (
      err (conflict_fault id subject o.expect_last_seq (expire now st) st.last_seq),
      expire now st,
    )
unfolding append_locked append_live
append_locked_conflict ctx id now subject body o st fresh nz ne =
    ground (arith, last_seq-expire now st)

-- What was stored under a message id is a repeat inside the window.
repeat_of-store_msg :
    (ctx : Context) (id : Identity) (now now' window : ℕ) (subject body : Text) (o : PublishOptions)
    (st : Stream)
    → st.spec.dedupe ≡ pos window
    → 0 < window
    → o.msg_id ≢ []
    → now' ≤ now + window
    → repeat_of (expire now' (store_msg ctx id now subject body o st)) now' o.msg_id
      ≡ some (add64 st.last_seq 1)
unfolding repeat_of expire store_msg
repeat_of-store_msg ctx id now now' window subject body o st ew w nm near = ground (
  arith,
  lookup-insert o.msg_id o.msg_id (record { seq = add64 st.last_seq 1; at = now }) st.dedupe,
  text_eq_refl o.msg_id,
  is_empty_iff o.msg_id,
)

-- A publish that answered with a sequence number and was no repeat has stored.
pub append_live_ok :
    (ctx : Context) (id : Identity) (now seq : ℕ) (subject body : Text) (o : PublishOptions)
    (st : Stream)
    → repeat_of st now o.msg_id ≡ none
    → (append_live ctx id now subject body o st).0 ≡ ok seq
    → (seq ≡ add64 st.last_seq 1)
      × ((append_live ctx id now subject body o st).1 ≡ store_msg ctx id now subject body o st)
unfolding append_live
append_live_ok ctx id now seq subject body o st fresh first = ground arith

pub append_live_repeat :
    (ctx : Context) (id : Identity) (now seq : ℕ) (subject body : Text) (o : PublishOptions)
    (st : Stream)
    → repeat_of st now o.msg_id ≡ some seq
    → append_live ctx id now subject body o st ≡ (ok seq, st)
unfolding append_live
append_live_repeat ctx id now seq subject body o st again = ground arith

-- A second publish under the same message id, inside the dedupe window, answers the sequence number
-- of the first and stores nothing.
append_locked_dedupe :
    (ctx ctx' : Context) (id id' : Identity) (now now' window seq : ℕ)
    (subject subject' body body' : Text) (o o' : PublishOptions) (st : Stream)
    → st.spec.dedupe ≡ pos window
    → 0 < window
    → o.msg_id ≢ []
    → o'.msg_id ≡ o.msg_id
    → now' ≤ now + window
    → repeat_of (expire now st) now o.msg_id ≡ none
    → (append_locked ctx id now subject body o st).0 ≡ ok seq
    → append_locked ctx' id' now' subject' body' o' (append_locked ctx id now subject body o st).1
      ≡ (ok seq, expire now' (append_locked ctx id now subject body o st).1)
unfolding append_locked
append_locked_dedupe ctx ctx' id id' now now' window seq subject subject' body body' o o' st ew w nm
      em near fresh first =
    let (es, stores) = append_live_ok ctx id now seq subject body o (expire now st) fresh first in
    let again =
      repeat_of-store_msg ctx id now now' window subject body o (expire now st)
        (unfold expire in ew) w nm near in
    rw stores
      (append_live_repeat ctx' id' now' seq subject' body' o' _ (rw em again ∙ ap some (sym es)))
