-- ===== src/Memory/Consuming/Batches.antt =====
-- What one round of Fetch hands out: the first messages that the filter lets through, in order.
use bytedesk_sdk_dependencie.Prelude.{
  ℕ, zero, suc, ◌+◌, ◌≤◌, ◌<◌, ◌≡◌, refl, sym, ap, ◌∙◌, subst, true, false, Option-cases, inl, inr,
  Option, none, some, List, [], ◌∷◌, word, Text, arith,
}
use mathlib.Core.Path.{subst₂}
use bytedesk_sdk_dependencie.Prelude.Int.{is_pos}
use bytedesk_sdk_dependencie.Memory.Stream.{StoredMsg, Stream, find, expire}
use bytedesk_sdk_dependencie.Memory.Append.Validity.{Ascending, IsValid, expire-IsValid}
use bytedesk_sdk_dependencie.Memory.Consumer.{
  ConsumerState, ConsumerSpec, passes, advance, next_locked, build_locked,
}
use bytedesk_sdk_dependencie.Memory.Consumer.Delivery.{Unwanted, Fetched, advance-Fetched}
use bytedesk_sdk_dependencie.Memory.Consuming.{fetch_loop}
use bytedesk_sdk_dependencie.Memory.Consuming.Rounds.{
  Quiet, IsSame, advance-IsSame, next_live-advance, build_locked-IsSame, expire-expire,
}

-- The first n messages from `next` on that the filter lets through, or all that there are.
abbrev pub FirstOf : ℕ → Text → List StoredMsg → ℕ → ℕ → List (StoredMsg × ℕ) → Type 0
FirstOf zero filter msgs last next [] = Unit
FirstOf zero filter msgs last next (x ∷ out) = ⊥
FirstOf (suc n) filter msgs last next [] = Unwanted filter msgs next (last + 1)
FirstOf (suc n) filter msgs last next ((m, count) ∷ out) =
    (find m.seq msgs ≡ some m)
    × (passes filter m ≡ true)
    × (next ≤ m.seq)
    × Unwanted filter msgs next m.seq
    × FirstOf n filter msgs last (m.seq + 1) out

-- One look at a stream without anything that has expired.
look : Stream → ConsumerState → Option StoredMsg × ConsumerState
look st cs = advance (suc (suc st.last_seq)) st.msgs st.last_seq cs

module _ (now tick n : ℕ) (st : Stream) (cs : ConsumerState) (live : expire now st ≡ st)
    (quiet : Quiet now cs.pending) (unlimited : is_pos cs.spec.max_ack_pending ≡ false) where
  next_locked-look : next_locked now st cs ≡ ((look st cs).0, st, (look st cs).1)
  unfolding next_locked look
  next_locked-look = rw (next_locked, live, next_live-advance now st cs quiet unlimited) refl

  fetch_loop-none : (look st cs).0 ≡ none → (fetch_loop (λ t. now) tick (suc n) st cs).0 ≡ []
  unfolding fetch_loop
  fetch_loop-none e = rw (fetch_loop, next_locked-look, e) refl

  -- What the loop makes of an answer of nextLocked.
  onward : StoredMsg → Option StoredMsg × Stream × ConsumerState → List (StoredMsg × ℕ)
  onward m r =
      (m, (build_locked now m r.2).0)
      ∷ (fetch_loop (λ t. now) (suc (suc tick)) n r.1 (build_locked now m r.2).1).0

  fetch_loop-found :
      (m : StoredMsg)
      → (next_locked now st cs).0 ≡ some m
      → (fetch_loop (λ t. now) tick (suc n) st cs).0 ≡ onward m (next_locked now st cs)
  unfolding fetch_loop onward
  fetch_loop-found m e = rw (fetch_loop, e) refl

  fetch_loop-some :
      (m : StoredMsg)
      → (look st cs).0 ≡ some m
      → (fetch_loop (λ t. now) tick (suc n) st cs).0
        ≡ (m, (build_locked now m (look st cs).1).0)
          ∷ (fetch_loop (λ t. now) (suc (suc tick)) n st (build_locked now m (look st cs).1).1).0
  unfolding onward
  fetch_loop-some m e =
      fetch_loop-found m (ap (λ r. r.0) next_locked-look ∙ e) ∙ ap (onward m) next_locked-look

look-Fetched :
    (st : Stream) (cs : ConsumerState)
    → Ascending 0 st.msgs st.last_seq
    → st.last_seq + 1 < word
    → Fetched cs.spec.filter st.msgs st.last_seq cs.next (look st cs)
unfolding look
look-Fetched st cs a w = advance-Fetched _ st.msgs st.last_seq cs a w (omega arith)

look-IsSame :
    (now : ℕ) (st : Stream) (cs : ConsumerState)
    → Quiet now cs.pending
    → IsSame now cs (look st cs).1
unfolding look
look-IsSame now st cs q = advance-IsSame now _ st.msgs st.last_seq cs q

live_loop-FirstOf :
    (n now tick : ℕ) (st : Stream) (cs : ConsumerState)
    → expire now st ≡ st
    → Ascending 0 st.msgs st.last_seq
    → st.last_seq + 1 < word
    → is_pos cs.spec.max_ack_pending ≡ false
    → Quiet now cs.pending
    → FirstOf n cs.spec.filter st.msgs st.last_seq cs.next (fetch_loop (λ t. now) tick n st cs).0
live_loop-FirstOf zero now tick st cs live a w u q = unfold fetch_loop in tt
live_loop-FirstOf (suc n) now tick st cs live a w u q = elim (Option-cases (look st cs).0) [
  | inl e ↦
      let stop = fetch_loop-none now tick n st cs live q u e in
      let nothing : Fetched cs.spec.filter st.msgs st.last_seq cs.next (none, (look st cs).1) =
        subst (λ o. Fetched cs.spec.filter st.msgs st.last_seq cs.next (o, (look st cs).1)) e
          (look-Fetched st cs a w) in
      subst (FirstOf (suc n) cs.spec.filter st.msgs st.last_seq cs.next) (sym stop) nothing
  | inr (m, e) ↦
      let step = fetch_loop-some now tick n st cs live q u m e in
      let (found, pass, ge, up, between) : Fetched cs.spec.filter st.msgs st.last_seq cs.next
          (some m, (look st cs).1) =
        subst (λ o. Fetched cs.spec.filter st.msgs st.last_seq cs.next (o, (look st cs).1)) e
          (look-Fetched st cs a w) in
      let looked = look-IsSame now st cs q in
      let (built, next_of) = build_locked-IsSame now m (look st cs).1 looked.quiet in
      let cs' = (build_locked now m (look st cs).1).1 in
      let spec_of : cs'.spec ≡ cs.spec = built.spec ∙ looked.spec in
      let free : is_pos cs'.spec.max_ack_pending ≡ false =
        ap (λ (k : ConsumerSpec). is_pos k.max_ack_pending) spec_of ∙ u in
      let rest = live_loop-FirstOf n now (suc (suc tick)) st cs' live a w free built.quiet in
      let rest' =
        subst₂
          (λ f k.
            FirstOf n f st.msgs st.last_seq k (fetch_loop (λ t. now) (suc (suc tick)) n st cs').0)
          (ap (λ (k : ConsumerSpec). k.filter) spec_of) (next_of ∙ up) rest in
      subst (FirstOf (suc n) cs.spec.filter st.msgs st.last_seq cs.next) (sym step)
        (found, pass, ge, between, rest')
]

next_locked-expire :
    (now : ℕ) (st : Stream) (cs : ConsumerState)
    → next_locked now st cs ≡ next_locked now (expire now st) cs
unfolding next_locked
next_locked-expire now st cs = rw (next_locked, expire-expire now st) refl

-- The loop hangs on the first answer of nextLocked alone.
fetch_loop-expire :
    (now tick n : ℕ) (st : Stream) (cs : ConsumerState)
    → (fetch_loop (λ t. now) tick (suc n) st cs).0
      ≡ (fetch_loop (λ t. now) tick (suc n) (expire now st) cs).0
unfolding fetch_loop
fetch_loop-expire now tick n st cs = ap whole (next_locked-expire now st cs)
  where
    whole : Option StoredMsg × Stream × ConsumerState → List (StoredMsg × ℕ)
    whole r =
        let answer : List (StoredMsg × ℕ) × Stream × ConsumerState = elim r.0 [
          | none ↦ ([], r.1, r.2)
          | some m ↦
              let (count, built) = build_locked now m r.2 in
              let (rest, st'', cs'') = fetch_loop (λ t. now) (suc (suc tick)) n r.1 built in
              ((m, count) ∷ rest, st'', cs'')
        ] in
        answer.0

-- One round of Fetch, at one time, of a consumer without a limit on what is unacknowledged and with
-- nothing to redeliver: it hands out the first n messages that have not expired, from `next` on, that
-- pass the filter, in order, or all of them where there are fewer.
pub fetch_loop-FirstOf :
    (n now tick : ℕ) (st : Stream) (cs : ConsumerState)
    → IsValid st
    → st.last_seq + 1 < word
    → is_pos cs.spec.max_ack_pending ≡ false
    → Quiet now cs.pending
    → FirstOf n cs.spec.filter
        (expire now st).msgs
        st.last_seq
        cs.next
        (fetch_loop (λ t. now) tick n st cs).0
unfolding expire
fetch_loop-FirstOf zero now tick st cs v w u q = unfold fetch_loop in tt
fetch_loop-FirstOf (suc n) now tick st cs v w u q =
    subst (FirstOf (suc n) cs.spec.filter (expire now st).msgs st.last_seq cs.next)
      (sym (fetch_loop-expire now tick n st cs))
      (live_loop-FirstOf (suc n) now tick (expire now st) cs (expire-expire now st)
        (expire-IsValid now st v).ascending w u q)
