-- ===== src/Memory/Stream/Shrink.antt =====
-- Expiry, purge and trimming drop messages, keep the rest in order, and keep the byte count exact.
use bytedesk_sdk_dependencie.Prelude.{
  ℕ, suc, ◌+◌, ◌≤◌, ◌<◌, ltb, ◌≡◌, Bool, List, [], ◌∷◌, length, Text, sub64, word, to_int64,
  exceeds, arith, Bool-cases, inl, inr, if_cases,
}
use bytedesk_sdk_dependencie.Prelude.Int.{ℤ, pos, negsuc}
use bytedesk_sdk_dependencie.Memory.Stream.{
  StoredMsg, size, drop_where, over_by, less_one, trim_over, trim_subjects, trim_count, trim_bytes,
  trim, Stream,
}

unfoldable pub total : List StoredMsg → ℕ
total [] = 0
total (m ∷ msgs) = size m + total msgs

-- The first list is the second with messages left out.
pub data Kept : List StoredMsg → List StoredMsg → Type 0 where
  none_left : Kept [] []
  keep : {m : StoredMsg} {xs ys : List StoredMsg} → Kept xs ys → Kept (m ∷ xs) (m ∷ ys)
  leave : {m : StoredMsg} {xs ys : List StoredMsg} → Kept xs ys → Kept xs (m ∷ ys)

pub Kept-refl : (xs : List StoredMsg) → Kept xs xs
Kept-refl [] = none_left
Kept-refl (x ∷ xs) = keep (Kept-refl xs)

pub Kept-trans : {xs ys zs : List StoredMsg} → Kept xs ys → Kept ys zs → Kept xs zs
Kept-trans k none_left = k
Kept-trans (keep k) (keep l) = keep (Kept-trans k l)
Kept-trans (leave k) (keep l) = leave (Kept-trans k l)
Kept-trans k (leave l) = leave (Kept-trans k l)

pub total-Kept : {xs ys : List StoredMsg} → Kept xs ys → total xs ≤ total ys
unfolding total
total-Kept none_left = omega arith
total-Kept (keep k) = omega (arith, total-Kept k)
total-Kept (leave k) = omega (arith, total-Kept k)

-- A list shrinks with its byte count: messages go, and where the count was exact, next to `extra`
-- bytes of other messages, it stays exact.
pub record Shrinks (msgs : List StoredMsg) (b : ℕ) (r : List StoredMsg × ℕ) : Type 0 where
  pub kept : Kept r.0 msgs
  pub exact : (extra : ℕ) → b ≡ extra + total msgs → b < word → r.1 ≡ extra + total r.0

Shrinks-refl : (msgs : List StoredMsg) (b : ℕ) → Shrinks msgs b (msgs, b)
Shrinks-refl msgs b = record { kept = Kept-refl msgs; exact = λ extra e f. e }

Shrinks-drop :
    (m : StoredMsg) (msgs : List StoredMsg) (b : ℕ) (r : List StoredMsg × ℕ)
    → Shrinks msgs (sub64 b (size m)) r
    → Shrinks (m ∷ msgs) b r
unfolding total
Shrinks-drop m msgs b r s = record {
  kept = leave s.kept;
  exact = λ extra e f. s.exact extra (omega arith) (omega arith);
}

Shrinks-keep :
    (m : StoredMsg) (msgs : List StoredMsg) (b : ℕ) (r : List StoredMsg × ℕ)
    → Shrinks msgs b r
    → Shrinks (m ∷ msgs) b (m ∷ r.0, r.1)
unfolding total
Shrinks-keep m msgs b r s = record {
  kept = keep s.kept;
  exact = λ extra e f. omega (arith, s.exact (extra + size m) (omega arith) f);
}

pub Shrinks-trans :
    (msgs : List StoredMsg) (b : ℕ) (r q : List StoredMsg × ℕ)
    → Shrinks msgs b r
    → Shrinks r.0 r.1 q
    → Shrinks msgs b q
Shrinks-trans msgs b r q s t = record {
  kept = Kept-trans t.kept s.kept;
  exact =
      λ extra e f. let g = s.exact extra e f in t.exact extra g (omega (arith, total-Kept s.kept));
}

pub drop_where-Shrinks :
    (dead : StoredMsg → Bool) (msgs : List StoredMsg) (b : ℕ)
    → Shrinks msgs b (drop_where dead msgs b)
unfolding drop_where
drop_where-Shrinks dead [] b = Shrinks-refl [] b
drop_where-Shrinks dead (m ∷ msgs) b = elim (Bool-cases (dead m)) [
  | inl e ↦ rw e (Shrinks-drop m msgs b _ (drop_where-Shrinks dead msgs (sub64 b (size m))))
  | inr e ↦ rw e (Shrinks-keep m msgs b _ (drop_where-Shrinks dead msgs b))
]

pub trim_over-Shrinks :
    (over : Text → ℕ) (msgs : List StoredMsg) (b : ℕ) → Shrinks msgs b (trim_over over msgs b)
unfolding trim_over
trim_over-Shrinks over [] b = Shrinks-refl [] b
trim_over-Shrinks over (m ∷ msgs) b = elim (Bool-cases (ltb 0 (over m.subject))) [
  | inl e ↦ rw e (
      Shrinks-drop m msgs b _ (trim_over-Shrinks (less_one m.subject over) msgs (sub64 b (size m))))
  | inr e ↦ rw e (Shrinks-keep m msgs b _ (trim_over-Shrinks over msgs b))
]

pub trim_subjects-Shrinks :
    (limit : ℤ) (msgs : List StoredMsg) (b : ℕ) → Shrinks msgs b (trim_subjects limit msgs b)
unfolding trim_subjects
trim_subjects-Shrinks (pos limit) msgs b =
    if_cases (Shrinks msgs b) (ltb 0 limit) _ _
      (λ _. trim_over-Shrinks (over_by (pos limit) msgs) msgs b) (λ _. Shrinks-refl msgs b)
trim_subjects-Shrinks (negsuc limit) msgs b = Shrinks-refl msgs b

pub trim_count-Shrinks :
    (limit : ℤ) (msgs : List StoredMsg) (b : ℕ) → Shrinks msgs b (trim_count limit msgs b)
unfolding trim_count
trim_count-Shrinks limit [] b = Shrinks-refl [] b
trim_count-Shrinks limit (m ∷ msgs) b =
    if_cases (Shrinks (m ∷ msgs) b) (exceeds limit (pos (suc (length msgs)))) _ _
      (λ _. Shrinks-drop m msgs b _ (trim_count-Shrinks limit msgs (sub64 b (size m))))
      (λ _. Shrinks-refl (m ∷ msgs) b)

pub trim_bytes-Shrinks :
    (limit : ℤ) (msgs : List StoredMsg) (b : ℕ) → Shrinks msgs b (trim_bytes limit msgs b)
unfolding trim_bytes
trim_bytes-Shrinks limit [] b = Shrinks-refl [] b
trim_bytes-Shrinks limit (m ∷ msgs) b =
    if_cases (Shrinks (m ∷ msgs) b) (exceeds limit (to_int64 b)) _ _
      (λ _. Shrinks-drop m msgs b _ (trim_bytes-Shrinks limit msgs (sub64 b (size m))))
      (λ _. Shrinks-refl (m ∷ msgs) b)

pub Shrinks-exact :
    (msgs : List StoredMsg) (b : ℕ) (r : List StoredMsg × ℕ)
    → Shrinks msgs b r
    → b ≡ total msgs
    → b < word
    → r.1 ≡ total r.0
Shrinks-exact msgs b r s e h = omega (arith, s.exact 0 (omega arith) h)

-- `trim` is the three trimmings in turn.
pub trim-Shrinks : (st : Stream) → Shrinks st.msgs st.bytes ((trim st).msgs, (trim st).bytes)
unfolding trim
trim-Shrinks st =
    let r1 = trim_subjects st.spec.max_msgs_per_subject st.msgs st.bytes in
    let r2 = trim_count st.spec.max_msgs r1.0 r1.1 in
    Shrinks-trans st.msgs st.bytes r2 _
      (Shrinks-trans st.msgs st.bytes r1 r2
        (trim_subjects-Shrinks st.spec.max_msgs_per_subject st.msgs st.bytes)
        (trim_count-Shrinks st.spec.max_msgs r1.0 r1.1))
      (trim_bytes-Shrinks st.spec.max_bytes r2.0 r2.1)
