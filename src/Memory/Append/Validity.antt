-- ===== src/Memory/Append/Validity.antt =====
-- A stream stays well formed: sequence numbers ascend up to the last one given, and the byte count is
-- the sum of the sizes.
use bytedesk_sdk_dependencie.Prelude.{
  ℕ, ◌+◌, ◌≤◌, ◌<◌, ◌≡◌, refl, List, [], ◌∷◌, ◌++◌, Text, word, half_word, arith, Option-cases, inl,
  inr, if_cases, ◌==◌, not, ◌&&◌, length, add64,
}
use bytedesk_sdk_dependencie.Bus.Fault.{Result}
use bytedesk_sdk_dependencie.Bus.Identity.{Identity}
use bytedesk_sdk_dependencie.Memory.Stamp.{Context}
use bytedesk_sdk_dependencie.Memory.Stream.{
  StoredMsg, Stream, size, expire, is_dead, trim, purge_all, purge_matching,
}
use bytedesk_sdk_dependencie.Memory.Stream.Shrink.{
  total, Kept, none_left, keep, leave, total-Kept, Shrinks-exact, drop_where-Shrinks, trim-Shrinks,
  Shrinks,
}
use bytedesk_sdk_dependencie.Memory.Append.{
  PublishOptions, repeat_of, stored, store_msg, append_live, append_locked,
}

-- lo < the sequence numbers, ascending, ≤ hi
abbrev pub Ascending : ℕ → List StoredMsg → ℕ → Type 0
Ascending lo [] hi = lo ≤ hi
Ascending lo (m ∷ msgs) hi = (lo < m.seq) × Ascending m.seq msgs hi

pub record IsValid (st : Stream) : Type 0 where
  pub ascending : Ascending 0 st.msgs st.last_seq
  pub counted : st.bytes ≡ total st.msgs
  pub fits : total st.msgs < half_word

Ascending-weaken :
    (lo lo' hi : ℕ) (msgs : List StoredMsg)
    → lo' ≤ lo
    → Ascending lo msgs hi
    → Ascending lo' msgs hi
Ascending-weaken lo lo' hi [] h a = omega arith
Ascending-weaken lo lo' hi (m ∷ msgs) h a = (omega arith, a.1)

Ascending-Kept :
    {xs ys : List StoredMsg} (lo hi : ℕ) → Kept xs ys → Ascending lo ys hi → Ascending lo xs hi
Ascending-Kept lo hi none_left a = a
Ascending-Kept lo hi (keep {m} k) a = (a.0, Ascending-Kept m.seq hi k a.1)
Ascending-Kept {xs} lo hi (leave {m} k) a =
    Ascending-weaken m.seq lo hi xs (omega arith) (Ascending-Kept m.seq hi k a.1)

Ascending-snoc :
    (lo hi : ℕ) (msgs : List StoredMsg) (m : StoredMsg)
    → Ascending lo msgs hi
    → hi < m.seq
    → Ascending lo (msgs ++ m ∷ []) m.seq
Ascending-snoc lo hi [] m a h = (omega arith, omega arith)
Ascending-snoc lo hi (x ∷ msgs) m a h = (a.0, Ascending-snoc x.seq hi msgs m a.1 h)

total-snoc : (msgs : List StoredMsg) (m : StoredMsg) → total (msgs ++ m ∷ []) ≡ total msgs + size m
unfolding total
total-snoc [] m = omega arith
total-snoc (x ∷ msgs) m = omega (arith, total-snoc msgs m)

-- A shrunken stream is valid.
Shrinks-IsValid :
    (st : Stream) (r : List StoredMsg × ℕ)
    → Shrinks st.msgs st.bytes r
    → IsValid st
    → IsValid (record st { msgs = r.0; bytes = r.1 })
Shrinks-IsValid st r s v = record {
  ascending = Ascending-Kept 0 st.last_seq s.kept v.ascending;
  counted = Shrinks-exact st.msgs st.bytes r s v.counted (omega arith);
  fits = omega (arith, total-Kept s.kept);
}

pub expire-IsValid : (now : ℕ) (st : Stream) → IsValid st → IsValid (expire now st)
unfolding expire
expire-IsValid now st v =
    Shrinks-IsValid st _ (drop_where-Shrinks (is_dead st.spec now) st.msgs st.bytes) v

pub trim-IsValid : (st : Stream) → IsValid st → IsValid (trim st)
unfolding trim
trim-IsValid st v = Shrinks-IsValid st _ (trim-Shrinks st) v

pub purge_matching-IsValid :
    (filter : Text) (st : Stream) → IsValid st → IsValid (purge_matching filter st)
unfolding purge_matching
purge_matching-IsValid filter st v = Shrinks-IsValid st _ (drop_where-Shrinks _ st.msgs st.bytes) v

pub purge_all-IsValid : (st : Stream) → IsValid (purge_all st)
unfolding purge_all total
purge_all-IsValid st = record { ascending = omega arith; counted = refl; fits = omega arith }

store_msg-IsValid :
    (ctx : Context) (id : Identity) (now : ℕ) (subject body : Text) (o : PublishOptions)
    (st : Stream)
    → IsValid st
    → st.last_seq + 1 < word
    → total st.msgs + length body < half_word
    → IsValid (store_msg ctx id now subject body o st)
unfolding store_msg stored
store_msg-IsValid ctx id now subject body o st v room fits = record {
  ascending =
      Ascending-snoc 0 st.last_seq st.msgs (stored ctx id (add64 st.last_seq 1) now subject body o)
        v.ascending (omega arith);
  counted =
      omega (arith, total-snoc st.msgs (stored ctx id (add64 st.last_seq 1) now subject body o));
  fits = omega (arith, total-snoc st.msgs (stored ctx id (add64 st.last_seq 1) now subject body o));
}

append_live-IsValid :
    (ctx : Context) (id : Identity) (now : ℕ) (subject body : Text) (o : PublishOptions)
    (st : Stream)
    → IsValid st
    → st.last_seq + 1 < word
    → total st.msgs + length body < half_word
    → IsValid (append_live ctx id now subject body o st).1
unfolding append_live
append_live-IsValid ctx id now subject body o st v room fits =
    elim (Option-cases (repeat_of st now o.msg_id)) [
      | inr (seq, e) ↦ rw (e, append_live) v
      | inl e ↦
          rw (e, append_live)
            (if_cases (λ (r : Result ℕ × Stream). IsValid r.1)
              (not (o.expect_last_seq == 0) && not (o.expect_last_seq == st.last_seq)) _ _ (λ _. v)
              (λ _. store_msg-IsValid ctx id now subject body o st v room fits))
    ]

-- Whatever `appendLocked` answers, the stream stays well formed, as long as its sequence and its byte
-- count do not pass what their words hold.
pub append_locked-IsValid :
    (ctx : Context) (id : Identity) (now : ℕ) (subject body : Text) (o : PublishOptions)
    (st : Stream)
    → IsValid st
    → st.last_seq + 1 < word
    → total st.msgs + length body < half_word
    → IsValid (append_locked ctx id now subject body o st).1
unfolding append_locked
append_locked-IsValid ctx id now subject body o st v room fits =
    append_live-IsValid ctx id now subject body o (expire now st) (expire-IsValid now st v)
      (unfold expire in room)
      (let le = total-Kept (drop_where-Shrinks (is_dead st.spec now) st.msgs st.bytes).kept in
        unfold expire in omega arith)
