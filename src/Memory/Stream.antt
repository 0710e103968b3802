-- ===== src/Memory/Stream.antt =====
-- The stored stream of v2/bus/memory/streams.go: its messages, limits, expiry and trimming, and the
-- specifications of v2/bus/streams.go.
pub mod Shrink
pub mod Limits
use bytedesk_sdk_dependencie.Prelude.{
  ℕ, suc, ◌+◌, ◌-◌, ◌==◌, ltb, leb, if◌then◌else◌, Bool, true, false, ◌&&◌, ◌||◌, Option, none,
  some, List, [], ◌∷◌, ◌++◌, length, any, Text, text_eq, Dict, add64, sub64, to_int64, exceeds,
  older,
}
use bytedesk_sdk_dependencie.Prelude.Int.{ℤ, pos, negsuc}
use bytedesk_sdk_dependencie.Bus.Subject.{matches}
use bytedesk_sdk_dependencie.Bus.Msg.{Headers}

-- storedMsg; `expires` is none for the zero time.
pub record StoredMsg : Type 0 where
  pub seq : ℕ
  pub subject : Text
  pub headers : Headers
  pub body : Text
  pub at : ℕ
  pub expires : Option ℕ

abbrev pub size : StoredMsg → ℕ
size m = length m.body

pub record DedupeEntry : Type 0 where
  pub seq : ℕ
  pub at : ℕ

pub data Retention : Type 0 where
  limits interest work_queue : Retention

pub record StreamSpec : Type 0 where
  pub name : Text
  pub subjects : List Text
  pub retention : Option Retention
  pub max_age : ℤ
  pub max_bytes : ℤ
  pub max_msgs : ℤ
  pub max_msgs_per_subject : ℤ
  pub dedupe : ℤ

-- stream, without its durable consumers.
pub record Stream : Type 0 where
  pub spec : StreamSpec
  pub created : ℕ
  pub msgs : List StoredMsg
  pub last_seq : ℕ
  pub bytes : ℕ
  pub counters : Dict ℤ
  pub dedupe : Dict DedupeEntry

abbrev pub head_seq : ℕ → List StoredMsg → ℕ
head_seq last [] = add64 last 1
head_seq last (m ∷ msgs) = m.seq

unfoldable pub first_seq : Stream → ℕ
first_seq st = head_seq st.last_seq st.msgs

-- stream.covers
unfoldable pub covers_subject : Stream → Text → Bool
unfolding any
covers_subject st subject = any (λ p. matches p subject) st.spec.subjects

abbrev pub past : Option ℕ → ℕ → Bool
past none now = false
past (some e) now = ltb e now

-- The test in the loop of `expire`.
unfoldable pub is_dead : StreamSpec → ℕ → StoredMsg → Bool
is_dead spec now m = older spec.max_age m.at now || past m.expires now

-- The loop that keeps what is not dropped and takes the size of what is off the byte count.
unfoldable pub drop_where : (StoredMsg → Bool) → List StoredMsg → ℕ → List StoredMsg × ℕ
drop_where dead [] b = ([], b)
drop_where dead (m ∷ msgs) b =
    let (kept, b') = drop_where dead msgs (if dead m then sub64 b (size m) else b) in
    (if dead m then kept else m ∷ kept, b')

unfoldable pub expire : ℕ → Stream → Stream
expire now st =
    let (kept, b) = drop_where (is_dead st.spec now) st.msgs st.bytes in
    record st { msgs = kept; bytes = b }

-- counts[subject]
unfoldable pub count_subject : Text → List StoredMsg → ℕ
count_subject s [] = 0
count_subject s (m ∷ msgs) =
    let rest = count_subject s msgs in if text_eq m.subject s then suc rest else rest

-- over[subject]; a missing key reads as 0.
unfoldable pub over_by : ℤ → List StoredMsg → Text → ℕ
unfolding count_subject
over_by (pos limit) msgs s = let n = count_subject s msgs in if ltb limit n then n - limit else 0
over_by (negsuc limit) msgs s = 0

abbrev pub less_one : Text → (Text → ℕ) → Text → ℕ
less_one s over t = if text_eq s t then over t - 1 else over t

-- The loop of `trim` over the messages while `over` lasts. With nothing over it keeps them all.
unfoldable pub trim_over : (Text → ℕ) → List StoredMsg → ℕ → List StoredMsg × ℕ
trim_over over [] b = ([], b)
trim_over over (m ∷ msgs) b =
    let drop = ltb 0 (over m.subject) in
    let (kept, b') =
      trim_over (if drop then less_one m.subject over else over) msgs
        (if drop then sub64 b (size m) else b) in
    (if drop then kept else m ∷ kept, b')

unfoldable pub trim_subjects : ℤ → List StoredMsg → ℕ → List StoredMsg × ℕ
unfolding trim_over over_by
trim_subjects (pos limit) msgs b =
    if ltb 0 limit then trim_over (over_by (pos limit) msgs) msgs b else (msgs, b)
trim_subjects (negsuc limit) msgs b = (msgs, b)

-- for MaxMsgs > 0 && len(msgs) > MaxMsgs { drop the oldest }
unfoldable pub trim_count : ℤ → List StoredMsg → ℕ → List StoredMsg × ℕ
trim_count limit [] b = ([], b)
trim_count limit (m ∷ msgs) b =
    let rest = trim_count limit msgs (sub64 b (size m)) in
    if exceeds limit (pos (suc (length msgs))) then rest else (m ∷ msgs, b)

-- for MaxBytes > 0 && int64(bytes) > MaxBytes && len(msgs) > 0 { drop the oldest }
unfoldable pub trim_bytes : ℤ → List StoredMsg → ℕ → List StoredMsg × ℕ
trim_bytes limit [] b = ([], b)
trim_bytes limit (m ∷ msgs) b =
    let rest = trim_bytes limit msgs (sub64 b (size m)) in
    if exceeds limit (to_int64 b) then rest else (m ∷ msgs, b)

unfoldable pub trim : Stream → Stream
trim st =
    let (m1, b1) = trim_subjects st.spec.max_msgs_per_subject st.msgs st.bytes in
    let (m2, b2) = trim_count st.spec.max_msgs m1 b1 in
    let (m3, b3) = trim_bytes st.spec.max_bytes m2 b2 in record st { msgs = m3; bytes = b3 }

-- stream.find
unfoldable pub find : ℕ → List StoredMsg → Option StoredMsg
find seq [] = none
find seq (m ∷ msgs) = if m.seq == seq then some m else find seq msgs

-- Purge of the messages that a filter matches; the empty filter takes them all.
unfoldable pub purge_all : Stream → Stream
purge_all st = record st { msgs = []; bytes = 0 }

unfoldable pub purge_matching : Text → Stream → Stream
purge_matching filter st =
    let (kept, b) = drop_where (λ m. matches filter m.subject) st.msgs st.bytes in
    record st { msgs = kept; bytes = b }
