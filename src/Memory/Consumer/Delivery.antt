-- ===== src/Memory/Consumer/Delivery.antt =====
-- Delivery is in order and skips only what the filter refuses.
use bytedesk_sdk_dependencie.Prelude.{
  ℕ, zero, suc, ◌+◌, ◌-◌, ◌≤◌, ◌<◌, ◌≡◌, refl, leb, ltb, if◌then◌else◌, true, false, Option, none,
  some, List, [], ◌∷◌, word, add64, Text, arith, Bool-cases, Option-cases, if_cases, ltb→lt, inl,
  inr, member, subst, ap, sym, ◌∙◌,
}
use mathlib.Core.Path.{subst₂}
use bytedesk_sdk_dependencie.Memory.Stream.{StoredMsg, head_seq, find}
use bytedesk_sdk_dependencie.Memory.Append.Validity.{Ascending}
use bytedesk_sdk_dependencie.Memory.Consumer.{
  ConsumerSpec, ConsumerState, raise_floor, mark_acked, passes, advance,
}

raise_floor_keeps :
    (fuel : ℕ) (cs : ConsumerState)
    → ((raise_floor fuel cs).spec ≡ cs.spec) × ((raise_floor fuel cs).next ≡ cs.next)
unfolding raise_floor
raise_floor_keeps zero cs = (refl, refl)
raise_floor_keeps (suc fuel) cs = elim (Bool-cases (member (add64 cs.ack_floor 1) cs.acked)) [
  | inl m ↦ rw m (raise_floor_keeps fuel _)
  | inr m ↦ rw m (refl, refl)
]

pub mark_acked_keeps :
    (seq : ℕ) (cs : ConsumerState)
    → ((mark_acked seq cs).spec ≡ cs.spec) × ((mark_acked seq cs).next ≡ cs.next)
unfolding mark_acked
mark_acked_keeps seq cs = raise_floor_keeps _ _

find_below :
    (s lo hi : ℕ) (msgs : List StoredMsg) → Ascending lo msgs hi → s ≤ lo → find s msgs ≡ none
unfolding find
find_below s lo hi [] a h = refl
find_below s lo hi (m ∷ msgs) a h = ground (arith, find_below s m.seq hi msgs a.1)

-- Nothing is stored before the first sequence number.
find_before_head :
    (s lo hi : ℕ) (msgs : List StoredMsg)
    → Ascending lo msgs hi
    → s < head_seq hi msgs
    → find s msgs ≡ none
unfolding find
find_before_head s lo hi [] a h = refl
find_before_head s lo hi (m ∷ msgs) a h = ground (arith, find_below s m.seq hi msgs a.1)

pub find-seq : (s : ℕ) (msgs : List StoredMsg) (m : StoredMsg) → find s msgs ≡ some m → m.seq ≡ s
unfolding find
find-seq s [] m h = cc
find-seq s (x ∷ msgs) m h = ground (arith, find-seq s msgs m)

same_msg :
    (s : ℕ) (msgs : List StoredMsg) (m k : StoredMsg)
    → find s msgs ≡ some m
    → find s msgs ≡ some k
    → m ≡ k
same_msg s msgs m k f g = cc

-- From `lo` up to and without `hi` nothing is stored that the filter lets through.
abbrev pub Unwanted : Text → List StoredMsg → ℕ → ℕ → Type 0
Unwanted filter msgs lo hi =
    (s : ℕ) (m : StoredMsg) → lo ≤ s → s < hi → find s msgs ≡ some m → passes filter m ≡ false

-- `next` moved up to the first sequence number.
abbrev clamp : List StoredMsg → ℕ → ConsumerState → ℕ
clamp msgs last cs = if leb cs.next (head_seq last msgs) then head_seq last msgs else cs.next

clamp-Unwanted :
    (msgs : List StoredMsg) (last : ℕ) (cs : ConsumerState)
    → Ascending 0 msgs last
    → Unwanted cs.spec.filter msgs cs.next (clamp msgs last cs)
clamp-Unwanted msgs last cs a s m lo hi f = ground (arith, find_before_head s 0 last msgs a)

-- One number further, when what is stored there is not wanted.
Unwanted-step :
    (filter : Text) (msgs : List StoredMsg) (lo at hi : ℕ)
    → Unwanted filter msgs lo at
    → ((m : StoredMsg) → find at msgs ≡ some m → passes filter m ≡ false)
    → Unwanted filter msgs (at + 1) hi
    → Unwanted filter msgs lo hi
Unwanted-step filter msgs lo at hi below here above s m l h f =
    ground (arith, below s m, here m, above s m)

-- What `advance` promises of its answer, for the position that it started from.
abbrev pub Fetched : Text → List StoredMsg → ℕ → ℕ → Option StoredMsg × ConsumerState → Type 0
Fetched filter msgs last next (none, cs) = Unwanted filter msgs next (last + 1)
Fetched filter msgs last next (some m, cs) =
    (find m.seq msgs ≡ some m)
    × (passes filter m ≡ true)
    × (next ≤ m.seq)
    × (cs.next ≡ m.seq + 1)
    × Unwanted filter msgs next m.seq

Fetched-step :
    (filter : Text) (msgs : List StoredMsg) (last next at : ℕ)
    (r : Option StoredMsg × ConsumerState)
    → next ≤ at
    → Unwanted filter msgs next at
    → ((m : StoredMsg) → find at msgs ≡ some m → passes filter m ≡ false)
    → Fetched filter msgs last (at + 1) r
    → Fetched filter msgs last next r
Fetched-step filter msgs last next at (none, cs) le below here f =
    Unwanted-step filter msgs next at (last + 1) below here f
Fetched-step filter msgs last next at (some m, cs) le below here (found, pass, ge, up, between) =
    (found, pass, omega arith, up, Unwanted-step filter msgs next at m.seq below here between)

-- A consumer past the last sequence number has nothing left.
Unwanted-end :
    (filter : Text) (msgs : List StoredMsg) (last next at : ℕ)
    → last < at
    → Unwanted filter msgs next at
    → Unwanted filter msgs next (last + 1)
Unwanted-end filter msgs last next at h below s m l g f = below s m l (omega arith) f

-- The one round of `advance`, for the position `at`, with what the rest of the run promises.
round-Fetched :
    (msgs : List StoredMsg) (last next at : ℕ) (filter : Text) (here : ConsumerState)
    (onward : ConsumerState) (skip rejected : Option StoredMsg × ConsumerState)
    → next ≤ at
    → Unwanted filter msgs next at
    → (ltb last at ≡ false → onward.next ≡ at + 1)
    → (ltb last at ≡ false → Fetched filter msgs last (at + 1) skip)
    → (ltb last at ≡ false → Fetched filter msgs last (at + 1) rejected)
    → Fetched filter msgs last next (
        if ltb last at then (none, here) else elim (find at msgs) [
          | none ↦ skip
          | some m ↦ if passes filter m then (some m, onward) else rejected
        ])
round-Fetched msgs last next at filter here onward skip rejected le below up fs fr =
    if_cases (Fetched filter msgs last next) (ltb last at) _ _
      (λ e. Unwanted-end filter msgs last next at (ltb→lt last at e) below)
      (λ e. elim (Option-cases (find at msgs)) [
        | inl gone ↦
            rw gone (Fetched-step filter msgs last next at skip le below (λ m f. cc gone) (fs e))
        | inr (m, found) ↦ rw found (
            if_cases (Fetched filter msgs last next) (passes filter m) _ _
              (λ pass. fetched_here m (up e) found pass)
              (λ refused.
                Fetched-step filter msgs last next at rejected le below
                  (λ k f.
                    subst (λ x. passes filter x ≡ false) (same_msg at msgs m k found f) refused)
                  (fr e)))
      ])
  where
    fetched_here :
        (m : StoredMsg)
        → onward.next ≡ at + 1
        → find at msgs ≡ some m
        → passes filter m ≡ true
        → Fetched filter msgs last next (some m, onward)
    fetched_here m behind found pass =
        let e = sym (find-seq at msgs m found) in
        (
          subst (λ k. find k msgs ≡ some m) e found,
          pass,
          subst (λ k. next ≤ k) e le,
          behind ∙ ap (λ k. k + 1) e,
          subst (λ k. Unwanted filter msgs next k) e below,
        )

-- The last loop of nextLocked, on a well formed stream and with fuel for the numbers that are left:
-- what it hands out is stored, passes the filter, and has the first such number from `next` on, and
-- `next` moves right behind it; where it hands out nothing, nothing is left.
pub advance-Fetched :
    (fuel : ℕ) (msgs : List StoredMsg) (last : ℕ) (cs : ConsumerState)
    → Ascending 0 msgs last
    → last + 1 < word
    → last + 1 - cs.next < fuel
    → Fetched cs.spec.filter msgs last cs.next (advance fuel msgs last cs)
unfolding advance
advance-Fetched zero msgs last cs a w h = absurd (omega arith)
advance-Fetched (suc fuel) msgs last cs a w h =
    let at = clamp msgs last cs in
    let onward = record cs { next = add64 at 1 } in
    let le : cs.next ≤ at = ground arith in
    let up : ltb last at ≡ false → add64 at 1 ≡ at + 1 = λ e. ground arith in
    round-Fetched msgs last cs.next at cs.spec.filter (record cs { next = at }) onward
      (advance fuel msgs last onward) (advance fuel msgs last (mark_acked at onward)) le
      (clamp-Unwanted msgs last cs a) up
      (λ e.
        subst (λ k. Fetched cs.spec.filter msgs last k (advance fuel msgs last onward)) (up e)
          (advance-Fetched fuel msgs last onward a w (ground arith)))
      (λ e.
        let (es, en) = mark_acked_keeps at onward in
        subst₂ (λ f k. Fetched f msgs last k (advance fuel msgs last (mark_acked at onward)))
          (ap (λ (s : ConsumerSpec). s.filter) es) (en ∙ up e)
          (advance-Fetched fuel msgs last (mark_acked at onward) a w (ground (arith, en))))
