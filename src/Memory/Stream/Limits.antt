-- ===== src/Memory/Stream/Limits.antt =====
-- After `trim` the stream is inside each of its limits.
use bytedesk_sdk_dependencie.Prelude.{
  ℕ, zero, suc, ◌-◌, ◌≤◌, ◌<◌, ◌≡◌, List, [], ◌∷◌, length, Text, text_eq_iff, sub64, half_word,
  arith,
}
use bytedesk_sdk_dependencie.Prelude.Int.{ℤ, pos, negsuc}
use bytedesk_sdk_dependencie.Memory.Stream.{
  StoredMsg, Stream, size, count_subject, over_by, less_one, trim_over, trim_subjects, trim_count,
  trim_bytes, trim,
}
use bytedesk_sdk_dependencie.Memory.Stream.Shrink.{
  total, Kept, Kept-trans, none_left, keep, leave, Shrinks-trans, Shrinks-exact, trim-Shrinks,
  total-Kept, trim_subjects-Shrinks, trim_count-Shrinks, trim_bytes-Shrinks,
}

-- A positive limit holds; zero and a negative one set none.
abbrev pub Within : ℤ → ℕ → Type 0
Within (pos zero) n = Unit
Within (pos (suc k)) n = n ≤ suc k
Within (negsuc k) n = Unit

count-trim_over :
    (over : Text → ℕ) (s : Text) (msgs : List StoredMsg) (b : ℕ)
    → count_subject s (trim_over over msgs b).0 ≡ count_subject s msgs - over s
unfolding count_subject trim_over
count-trim_over over s [] b = omega arith
count-trim_over over s (m ∷ msgs) b = ground (
  arith,
  text_eq_iff m.subject s,
  count-trim_over over s msgs b,
  count-trim_over (less_one m.subject over) s msgs (sub64 b (size m)),
)

count-trim_subjects :
    (limit : ℤ) (s : Text) (msgs : List StoredMsg) (b : ℕ)
    → Within limit (count_subject s (trim_subjects limit msgs b).0)
unfolding trim_subjects over_by
count-trim_subjects (pos zero) s msgs b = tt
count-trim_subjects (pos (suc k)) s msgs b =
    ground (arith, count-trim_over (over_by (pos (suc k)) msgs) s msgs b)
count-trim_subjects (negsuc k) s msgs b = tt

length-trim_count :
    (limit : ℤ) (msgs : List StoredMsg) (b : ℕ) → Within limit (length (trim_count limit msgs b).0)
unfolding trim_count
length-trim_count (pos zero) msgs b = tt
length-trim_count (pos (suc k)) [] b = omega arith
length-trim_count (pos (suc k)) (m ∷ msgs) b =
    ground (arith, length-trim_count (pos (suc k)) msgs (sub64 b (size m)))
length-trim_count (negsuc k) msgs b = tt

total-trim_bytes :
    (limit : ℤ) (msgs : List StoredMsg) (b : ℕ)
    → b ≡ total msgs
    → b < half_word
    → Within limit (total (trim_bytes limit msgs b).0)
unfolding trim_bytes total
total-trim_bytes (pos zero) msgs b e h = tt
total-trim_bytes (pos (suc k)) [] b e h = omega arith
total-trim_bytes (pos (suc k)) (m ∷ msgs) b e h =
    ground (arith, total-trim_bytes (pos (suc k)) msgs (sub64 b (size m)))
total-trim_bytes (negsuc k) msgs b e h = tt

count-Kept :
    {xs ys : List StoredMsg} (s : Text) → Kept xs ys → count_subject s xs ≤ count_subject s ys
unfolding count_subject
count-Kept s none_left = omega arith
count-Kept s (keep k) = ground (arith, count-Kept s k)
count-Kept s (leave k) = ground (arith, count-Kept s k)

length-Kept : {xs ys : List StoredMsg} → Kept xs ys → length xs ≤ length ys
length-Kept none_left = omega arith
length-Kept (keep k) = omega (arith, length-Kept k)
length-Kept (leave k) = omega (arith, length-Kept k)

Within-le : (limit : ℤ) (m n : ℕ) → m ≤ n → Within limit n → Within limit m
Within-le (pos zero) m n h w = tt
Within-le (pos (suc k)) m n h w = omega arith
Within-le (negsuc k) m n h w = tt

-- A stream whose byte count is exact, and below 2^63, is after `trim` within MaxMsgsPerSubject for
-- every subject, within MaxMsgs, and within MaxBytes, for those of the limits that are positive; what
-- is left is a selection of the messages in their order, and the byte count is exact.
pub trim-Within :
    (st : Stream)
    → st.bytes ≡ total st.msgs
    → st.bytes < half_word
    → ((s : Text) → Within st.spec.max_msgs_per_subject (count_subject s (trim st).msgs))
      × Within st.spec.max_msgs (length (trim st).msgs)
      × Within st.spec.max_bytes (total (trim st).msgs)
      × Kept (trim st).msgs st.msgs
      × ((trim st).bytes ≡ total (trim st).msgs)
unfolding trim
trim-Within st e h =
    let r1 = trim_subjects st.spec.max_msgs_per_subject st.msgs st.bytes in
    let r2 = trim_count st.spec.max_msgs r1.0 r1.1 in
    let s1 = trim_subjects-Shrinks st.spec.max_msgs_per_subject st.msgs st.bytes in
    let s2 = trim_count-Shrinks st.spec.max_msgs r1.0 r1.1 in
    let s3 = trim_bytes-Shrinks st.spec.max_bytes r2.0 r2.1 in
    let s12 = Shrinks-trans st.msgs st.bytes r1 r2 s1 s2 in
    let e2 = Shrinks-exact st.msgs st.bytes r2 s12 e (omega arith) in
    (
      λ s.
          Within-le st.spec.max_msgs_per_subject _ _ (count-Kept s (Kept-trans s3.kept s2.kept))
            (count-trim_subjects st.spec.max_msgs_per_subject s st.msgs st.bytes),
      Within-le st.spec.max_msgs _ _ (length-Kept s3.kept)
          (length-trim_count st.spec.max_msgs r1.0 r1.1),
      total-trim_bytes st.spec.max_bytes r2.0 r2.1 e2 (omega (arith, total-Kept s12.kept)),
      (trim-Shrinks st).kept,
      Shrinks-exact st.msgs st.bytes _ (trim-Shrinks st) e (omega arith),
    )
