-- ===== src/Memory/Consumer/Stops.antt =====
-- The last loop of nextLocked comes to an end.
use bytedesk_sdk_dependencie.Prelude.{
  ◌⊎◌, ◌↔◌, inl, inr, some, none, [], subst, is_empty, is_empty_iff, if_cases, Bool-cases, ℕ, zero,
  suc, ◌+◌, ◌≤◌, ◌<◌, ◌≡◌, refl, sym, ap, ◌∙◌, leb, ltb, if◌then◌else◌, Bool, true, false,
  false≢true, Option, none, some, List, word, add64, arith,
}
use bytedesk_sdk_dependencie.Bus.Subject.{matches}
use bytedesk_sdk_dependencie.Memory.Stream.{StoredMsg, head_seq, find}
use bytedesk_sdk_dependencie.Memory.Consumer.{ConsumerState, mark_acked, passes, advance}
use bytedesk_sdk_dependencie.Memory.Consumer.Delivery.{mark_acked_keeps}

-- The number that a round looks at: `next`, or the first that is stored where `next` lies before it.
abbrev pub LooksAt : List StoredMsg → ℕ → ConsumerState → ℕ → Type 0
LooksAt msgs last cs at =
    ((head_seq last msgs ≤ cs.next) × (at ≡ cs.next))
    ⊎ ((cs.next < head_seq last msgs) × (at ≡ head_seq last msgs))

-- The filter of the consumer lets a message through: it is empty, or it matches the subject.
abbrev pub Wants : ConsumerState → StoredMsg → Type 0
Wants cs m = (cs.spec.filter ≡ []) ⊎ (matches cs.spec.filter m.subject ≡ true)

-- A whole run of the loop, from a state to what it returns: there are no rounds to run out of, and a
-- loop that goes on for ever has no run.
pub data Runs (msgs : List StoredMsg) (last : ℕ)
    : ConsumerState → Option StoredMsg × ConsumerState → Type 0 where
  stops :
      {cs : ConsumerState} (at : ℕ)
      → LooksAt msgs last cs at
      → last < at
      → Runs msgs last cs (none, record cs { next = at })
  hands_out :
      {cs : ConsumerState} (at : ℕ) (m : StoredMsg)
      → LooksAt msgs last cs at
      → at ≤ last
      → find at msgs ≡ some m
      → Wants cs m
      → Runs msgs last cs (some m, record cs { next = at + 1 })
  skips :
      {cs : ConsumerState} {r : Option StoredMsg × ConsumerState} (at : ℕ)
      → LooksAt msgs last cs at
      → at ≤ last
      → find at msgs ≡ none
      → Runs msgs last (record cs { next = at + 1 }) r
      → Runs msgs last cs r
  rejects :
      {cs : ConsumerState} {r : Option StoredMsg × ConsumerState} (at : ℕ) (m : StoredMsg)
      → LooksAt msgs last cs at
      → at ≤ last
      → find at msgs ≡ some m
      → ¬ Wants cs m
      → Runs msgs last (mark_acked at (record cs { next = at + 1 })) r
      → Runs msgs last cs r

-- What holds of each way through a round holds of the round.
round_cases {ℓ κ} :
    {A : Type ℓ} (P : A → Type κ) (stop : Bool) (o : Option StoredMsg) (test : StoredMsg → Bool)
    (here skip rejected : A) (hit : StoredMsg → A)
    → (stop ≡ true → P here)
    → (stop ≡ false → o ≡ none → P skip)
    → ((m : StoredMsg) → stop ≡ false → o ≡ some m → test m ≡ true → P (hit m))
    → ((m : StoredMsg) → stop ≡ false → o ≡ some m → test m ≡ false → P rejected)
    → P (
        if stop then here else elim o [ none ↦ skip | some m ↦ if test m then hit m else rejected ])
round_cases P true o test here skip rejected hit p q r s = p refl
round_cases P false none test here skip rejected hit p q r s = q refl refl
round_cases P false (some m) test here skip rejected hit p q r s =
    if_cases P (test m) _ _ (r m refl refl) (s m refl refl)

passes_iff : (cs : ConsumerState) (m : StoredMsg) → (passes cs.spec.filter m ≡ true) ↔ Wants cs m
passes_iff cs m = elim (Bool-cases (is_empty cs.spec.filter)) [
  | inl e ↦ rw e (λ _. inl ((is_empty_iff cs.spec.filter).0 e), λ _. refl)
  | inr e ↦ rw e (
    λ h. inr h,
    λ w. elim w [
      | inl n ↦ absurd (false≢true (sym e ∙ (is_empty_iff cs.spec.filter).1 n))
      | inr h ↦ h
    ],
  )
]

look :
    (msgs : List StoredMsg) (last : ℕ) (cs : ConsumerState)
    → LooksAt msgs last cs
        (if leb cs.next (head_seq last msgs) then head_seq last msgs else cs.next)
look msgs last cs = elim (Bool-cases (ltb cs.next (head_seq last msgs))) [
  | inl e ↦ inr (ground arith, ground arith)
  | inr e ↦ inl (ground arith, ground arith)
]

-- Below 2^64 the last loop of nextLocked runs to its end: with rounds for the numbers from `next` up
-- to the last it gives what a whole run of the loop returns.
pub advance-Runs :
    (fuel : ℕ) (msgs : List StoredMsg) (last : ℕ) (cs : ConsumerState)
    → last + 1 < word
    → last < fuel + cs.next
    → Runs msgs last cs (advance (suc fuel) msgs last cs)
unfolding advance
advance-Runs zero msgs last cs w h =
    let at = if leb cs.next (head_seq last msgs) then head_seq last msgs else cs.next in
    let le : cs.next ≤ at = ground arith in
    let past : ltb last at ≡ true = ground arith in
    round_cases (Runs msgs last cs) (ltb last at) (find at msgs) (passes cs.spec.filter)
      (none, record cs { next = at }) _ _ (λ m. (some m, record cs { next = add64 at 1 }))
      (λ e. stops at (look msgs last cs) (omega arith)) (λ e. absurd (false≢true (sym e ∙ past)))
      (λ m e. absurd (false≢true (sym e ∙ past))) (λ m e. absurd (false≢true (sym e ∙ past)))
advance-Runs (suc fuel) msgs last cs w h =
    let at = if leb cs.next (head_seq last msgs) then head_seq last msgs else cs.next in
    let le : cs.next ≤ at = ground arith in
    let up : ltb last at ≡ false → add64 at 1 ≡ at + 1 = λ e. ground arith in
    let step : ConsumerState = record cs { next = at + 1 } in
    let onward : ConsumerState = record cs { next = add64 at 1 } in
    let next_of = (mark_acked_keeps at step).1 in
    let from : ℕ → ConsumerState = λ n. record cs { next = n } in
    let turn : ltb last at ≡ false → onward ≡ step = λ e. ap from (up e) in
    round_cases (Runs msgs last cs) (ltb last at) (find at msgs) (passes cs.spec.filter)
      (none, record cs { next = at }) (advance (suc fuel) msgs last onward)
      (advance (suc fuel) msgs last (mark_acked at onward)) (λ m. (some m, onward))
      (λ e. stops at (look msgs last cs) (ground arith))
      (λ e n. skips at (look msgs last cs) (ground arith) n (
        subst (λ k. Runs msgs last step (advance (suc fuel) msgs last k)) (sym (turn e))
          (advance-Runs fuel msgs last step w (omega arith))))
      (λ m e f p.
        subst (λ k. Runs msgs last cs (some m, k)) (sym (turn e))
          (hands_out at m (look msgs last cs) (ground arith) f ((passes_iff cs m).0 p)))
      (λ m e f p.
        rejects at m (look msgs last cs) (ground arith) f
          (λ wants. false≢true (sym p ∙ (passes_iff cs m).1 wants))
          (subst
            (λ k.
              Runs msgs last (mark_acked at step) (advance (suc fuel) msgs last (mark_acked at k)))
            (sym (turn e))
            (advance-Runs fuel msgs last (mark_acked at step) w (omega (arith, next_of)))))
