-- ===== src/Memory/StreamCalls/Atomic.antt =====
-- A batch is stored whole or not at all.
use bytedesk_sdk_dependencie.Prelude.{
  ℕ, ◌≡◌, ◌≢◌, refl, none, some, List, [], ◌∷◌, length, is_empty, is_empty_iff, Text, text_eq_refl,
  bytes, Dict, lookup, insert, lookup-insert, add64, arith, Option-cases, Bool-cases, inl, inr, ◌⊎◌,
  ap, ◌∙◌, subst, sym, suc,
}
use bytedesk_sdk_dependencie.Bus.Fault.{Fault, Result-cases, ok, err, unsupported_fault}
use bytedesk_sdk_dependencie.Bus.Subject.{Refusal}
use bytedesk_sdk_dependencie.Bus.Identity.{Identity}
use bytedesk_sdk_dependencie.Memory.Stamp.{Context}
use bytedesk_sdk_dependencie.Memory.Stream.{Stream, expire}
use bytedesk_sdk_dependencie.Memory.Append.{PublishOptions, append_locked, append_live, repeat_of}
use bytedesk_sdk_dependencie.Memory.StreamCalls.{Account, Streams, off, find_route}
use bytedesk_sdk_dependencie.Memory.StreamCalls.Batch.{
  BatchMsg, unconditional, check_batch, plan_batch, apply_batch, projected_of, carry_out,
  publish_batch,
}

-- Without an expected sequence appendLocked always answers.
append_locked-unconditional :
    (ctx : Context) (id : Identity) (now : ℕ) (subject body : Text) (o : PublishOptions)
    (st : Stream)
    → (seq : ℕ) × ((append_locked ctx id now subject body (unconditional o) st).0 ≡ ok seq)
unfolding append_locked append_live
append_locked-unconditional ctx id now subject body o st =
    elim (Option-cases (repeat_of (expire now st) now o.msg_id)) [
      | inl e ↦ (add64 (expire now st).last_seq 1, ground arith)
      | inr (seq, e) ↦ (seq, ground arith)
    ]

-- Each plan names a stream of the store.
unfoldable ArePresent : Streams → List (Text × BatchMsg) → Type 0
ArePresent streams [] = Unit
ArePresent streams ((name, m) ∷ plans) = (lookup name streams ≢ none) × ArePresent streams plans

find_route-Present :
    (a : Account) (subject name : Text) (st : Stream) (streams : Streams)
    → find_route a subject streams ≡ some (name, st)
    → lookup name streams ≢ none
unfolding find_route lookup
find_route-Present a subject name st [] h = absurd (ground arith)
find_route-Present a subject name st ((at, held) ∷ streams) h =
    λ gone. ground (arith, find_route-Present a subject name st streams, text_eq_refl name)

plan_batch-Present :
    (a : Account) (streams : Streams) (projected : Dict ℕ) (ms : List BatchMsg)
    (plans : List (Text × BatchMsg))
    → plan_batch a streams projected ms ≡ ok plans
    → ArePresent streams plans × (length plans ≡ length ms)
unfolding plan_batch ArePresent
plan_batch-Present a streams projected [] plans h =
    let same : [] ≡ plans = ground arith in
    subst (λ ps. ArePresent streams ps × (length ps ≡ 0)) same (tt, refl)
plan_batch-Present a streams projected (m ∷ ms) plans h =
    elim (Option-cases (find_route a m.subject streams)) [
      | inl e ↦ absurd (ground arith)
      | inr ((name, st), e) ↦
          let last = projected_of projected (name, st) in
          elim (Result-cases (plan_batch a streams (insert name (add64 last 1) projected) ms)) [
            | inr (f, e') ↦ absurd (ground arith)
            | inl (rest, e') ↦
                let (there, same) =
                  plan_batch-Present a streams (insert name (add64 last 1) projected) ms rest e' in
                let whole : (name, m) ∷ rest ≡ plans = ground arith in
                subst (λ ps. ArePresent streams ps × (length ps ≡ suc (length ms))) whole
                  ((find_route-Present a m.subject name st streams e, there), ap suc same)
          ]
    ]

-- Storing under a name takes no other name away.
insert-ArePresent :
    (name : Text) (st : Stream) (streams : Streams) (plans : List (Text × BatchMsg))
    → ArePresent streams plans
    → ArePresent (insert name st streams) plans
unfolding ArePresent
insert-ArePresent name st streams [] h = tt
insert-ArePresent name st streams ((at, m) ∷ plans) (there, rest) = (
  λ gone. ground (arith, lookup-insert name at st streams),
  insert-ArePresent name st streams plans rest,
)

-- On streams that are there the second loop always answers, once for each message.
apply_batch-ok :
    (a : Account) (ctx : Context) (now : ℕ) (plans : List (Text × BatchMsg)) (streams : Streams)
    → ArePresent streams plans
    → (seqs : List ℕ) × ((apply_batch a ctx now plans streams).0 ≡ ok seqs)
      × (length seqs ≡ length plans)
unfolding apply_batch ArePresent
apply_batch-ok a ctx now [] streams h = ([], refl, refl)
apply_batch-ok a ctx now ((name, m) ∷ plans) streams (there, rest) =
    elim (Option-cases (lookup name streams)) [
      | inl e ↦ absurd (there e)
      | inr (st, e) ↦
          let (seq, answered) =
            append_locked-unconditional ctx a.owner now m.subject m.body m.options st in
          let after =
            (append_locked ctx a.owner now m.subject m.body (unconditional m.options) st).1 in
          let (seqs, same, long) =
            apply_batch-ok a ctx now plans (insert name after streams)
              (insert-ArePresent name after streams plans rest) in
          (seq ∷ seqs, rw (apply_batch, e, answered, same) refl, ap suc long)
    ]

-- A batch that is refused leaves every stream as it was, and one that is taken answers with one
-- sequence number for each message: none of it is stored by halves.
pub publish_batch_atomic :
    (error_text : Refusal → Text) (a : Account) (ctx : Context) (now : ℕ) (msgs : List BatchMsg)
    (streams : Streams)
    → ((f : Fault) × (publish_batch error_text a ctx now msgs streams ≡ (err f, streams)))
      ⊎ ((seqs : List ℕ) × ((publish_batch error_text a ctx now msgs streams).0 ≡ ok seqs)
          × (length seqs ≡ length msgs))
unfolding publish_batch carry_out
publish_batch_atomic error_text a ctx now msgs streams =
    elim (Option-cases (off a (bytes "stream:batch"))) [
      | inr (f, e) ↦ inl (f, ground arith)
      | inl e ↦ elim (Bool-cases a.batch) [
        | inr e' ↦ inl (unsupported_fault (bytes "stream:batch") (bytes "batch"), ground arith)
        | inl e' ↦ elim (Bool-cases (is_empty msgs)) [
          | inl e'' ↦ inr ([], ground arith, ap length (sym ((is_empty_iff msgs).0 e'')))
          | inr e'' ↦ elim (Option-cases (check_batch error_text a msgs)) [
            | inr (f, c) ↦ inl (f, ground arith)
            | inl c ↦ elim (Result-cases (plan_batch a streams [] msgs)) [
              | inr (f, p) ↦ inl (f, ground arith)
              | inl (plans, p) ↦
                  let (there, planned) = plan_batch-Present a streams [] msgs plans p in
                  let (seqs, same, long) = apply_batch-ok a ctx now plans streams there in
                  inr (seqs, ground (arith, same), long ∙ planned)
            ]
          ]
        ]
      ]
    ]
