-- ===== src/Memory/Consuming/Rounds.antt =====
-- The rounds of nextLocked and buildLocked while no delivery is due again.
use bytedesk_sdk_dependencie.Prelude.{
  ℕ, zero, suc, ◌<◌, ◌≡◌, refl, ap, ◌∙◌, ◌==◌, ltb, leb, if◌then◌else◌, Bool, true, false,
  Bool-cases, inl, inr, if_cases, Option, none, some, List, [], ◌∷◌, All, length, add64, sub64,
  member, seq_set, seq_delete, arith,
}
use bytedesk_sdk_dependencie.Prelude.Int.{ℤ, pos, negsuc, is_pos}
use bytedesk_sdk_dependencie.Memory.Stream.{
  StoredMsg, Stream, find, head_seq, expire, is_dead, drop_where, size,
}
use bytedesk_sdk_dependencie.Memory.Consumer.{
  AckPolicy, ack_none, ack_all, ack_explicit, settle, policy, delivered, ConsumerState, raise_floor,
  mark_acked, redeliver, reached, passes, advance, next_live, build_locked, deadline,
}
use bytedesk_sdk_dependencie.Memory.Consumer.Delivery.{mark_acked_keeps}

-- No delivery of the consumer is to be made again yet.
abbrev pub Quiet : ℕ → List (ℕ × ℕ) → Type 0
Quiet now pending = All (λ e. now < e.1) pending

redeliver-Quiet :
    (now : ℕ) (pending : List (ℕ × ℕ)) (msgs : List StoredMsg) (cs : ConsumerState)
    → Quiet now pending
    → redeliver now pending msgs cs ≡ (none, cs)
unfolding redeliver
redeliver-Quiet now [] msgs cs q = refl
redeliver-Quiet now ((seq, due) ∷ pending) msgs cs (h, q) =
    ground (arith, redeliver-Quiet now pending msgs cs q)

seq_delete-Quiet :
    (now seq : ℕ) (pending : List (ℕ × ℕ)) → Quiet now pending → Quiet now (seq_delete seq pending)
unfolding seq_delete
seq_delete-Quiet now seq [] q = tt
seq_delete-Quiet now seq ((x, due) ∷ pending) (h, q) =
    let rest = seq_delete-Quiet now seq pending q in
    if_cases (Quiet now) (x == seq) _ _ (λ e. rest) (λ e. (h, rest))

seq_set-Quiet :
    (now seq due : ℕ) (pending : List (ℕ × ℕ))
    → now < due
    → Quiet now pending
    → Quiet now (seq_set seq due pending)
unfolding seq_set
seq_set-Quiet now seq due [] l q = (l, tt)
seq_set-Quiet now seq due ((x, d) ∷ pending) l (h, q) =
    if_cases (Quiet now) (x == seq) _ _ (λ e. (l, q))
      (λ e. (h, seq_set-Quiet now seq due pending l q))

raise_floor-pending : (fuel : ℕ) (cs : ConsumerState) → (raise_floor fuel cs).pending ≡ cs.pending
unfolding raise_floor
raise_floor-pending zero cs = refl
raise_floor-pending (suc fuel) cs = elim (Bool-cases (member (add64 cs.ack_floor 1) cs.acked)) [
  | inl m ↦ rw m (raise_floor-pending fuel _)
  | inr m ↦ rw m refl
]

mark_acked-Quiet :
    (now seq : ℕ) (cs : ConsumerState)
    → Quiet now cs.pending
    → Quiet now (mark_acked seq cs).pending
unfolding mark_acked
mark_acked-Quiet now seq cs q = rw (raise_floor-pending _ _) (seq_delete-Quiet now seq cs.pending q)

-- A property of each of the ends of a round of advance.
round_cases {κ} :
    (P : Option StoredMsg × ConsumerState → Type κ) (stop : Bool) (o : Option StoredMsg)
    (test : StoredMsg → Bool) (here skip rejected : Option StoredMsg × ConsumerState)
    (hit : StoredMsg → Option StoredMsg × ConsumerState)
    → P here
    → P skip
    → P rejected
    → ((m : StoredMsg) → P (hit m))
    → P (
        if stop then here else elim o [ none ↦ skip | some m ↦ if test m then hit m else rejected ])
round_cases P true o test here skip rejected hit p q r h = p
round_cases P false none test here skip rejected hit p q r h = q
round_cases P false (some m) test here skip rejected hit p q r h =
    if_cases P (test m) _ _ (λ e. h m) (λ e. r)

-- What advance leaves of the consumer.
pub record IsSame (now : ℕ) (cs cs' : ConsumerState) : Type 0 where
  pub spec : cs'.spec ≡ cs.spec
  pub quiet : Quiet now cs'.pending

pub advance-IsSame :
    (now fuel : ℕ) (msgs : List StoredMsg) (last : ℕ) (cs : ConsumerState)
    → Quiet now cs.pending
    → IsSame now cs (advance fuel msgs last cs).1
unfolding advance
advance-IsSame now zero msgs last cs q = record { spec = refl; quiet = q }
advance-IsSame now (suc fuel) msgs last cs q =
    let at = if leb cs.next (head_seq last msgs) then head_seq last msgs else cs.next in
    let onward : ConsumerState = record cs { next = add64 at 1 } in
    let later = mark_acked at onward in
    let (spec_of, _) = mark_acked_keeps at onward in
    let deeper = advance-IsSame now fuel msgs last later (mark_acked-Quiet now at onward q) in
    round_cases (λ r. IsSame now cs r.1) (ltb last at) (find at msgs) (passes cs.spec.filter)
      (none, record cs { next = at }) (advance fuel msgs last onward) (advance fuel msgs last later)
      (λ m. (some m, onward)) (record { spec = refl; quiet = q })
      (record {
        spec = (advance-IsSame now fuel msgs last onward q).spec;
        quiet = (advance-IsSame now fuel msgs last onward q).quiet;
      })
      (record { spec = deeper.spec ∙ spec_of; quiet = deeper.quiet })
      (λ m. record { spec = refl; quiet = q })

reached_unlimited : (limit : ℤ) (n : ℕ) → is_pos limit ≡ false → reached limit n ≡ false
reached_unlimited (pos limit) n h = ground arith
reached_unlimited (negsuc limit) n h = refl

-- Without a limit on the unacknowledged and with nothing to redeliver, the last loop answers.
pub next_live-advance :
    (now : ℕ) (st : Stream) (cs : ConsumerState)
    → Quiet now cs.pending
    → is_pos cs.spec.max_ack_pending ≡ false
    → next_live now st cs ≡ advance (suc (suc st.last_seq)) st.msgs st.last_seq cs
unfolding next_live
next_live-advance now st cs q limit =
    let idle : reached cs.spec.max_ack_pending (length cs.pending) ≡ false =
      reached_unlimited cs.spec.max_ack_pending (length cs.pending) limit in
    let calm = redeliver-Quiet now cs.pending st.msgs cs q in ground arith

deadline-later : (wait : ℤ) (now : ℕ) → now < deadline wait now
unfolding deadline
deadline-later (pos wait) now = ground arith
deadline-later (negsuc wait) now = omega arith

settle-IsSame :
    (p : AckPolicy) (now seq : ℕ) (cs : ConsumerState)
    → Quiet now cs.pending
    → IsSame now cs (settle p now seq cs) × ((settle p now seq cs).next ≡ cs.next)
settle-IsSame ack_none now seq cs q =
    let (spec_of, next_of) = mark_acked_keeps seq cs in
    (record { spec = spec_of; quiet = mark_acked-Quiet now seq cs q }, next_of)
settle-IsSame ack_all now seq cs q =
    let later = seq_set-Quiet now seq _ cs.pending (deadline-later cs.spec.ack_wait now) q in
    (record { spec = refl; quiet = later }, refl)
settle-IsSame ack_explicit now seq cs q =
    let later = seq_set-Quiet now seq _ cs.pending (deadline-later cs.spec.ack_wait now) q in
    (record { spec = refl; quiet = later }, refl)

pub build_locked-IsSame :
    (now : ℕ) (m : StoredMsg) (cs : ConsumerState)
    → Quiet now cs.pending
    → IsSame now cs (build_locked now m cs).1 × ((build_locked now m cs).1.next ≡ cs.next)
unfolding build_locked
build_locked-IsSame now m cs q =
    let counted : ConsumerState = record cs {
      deliveries = seq_set m.seq (suc (delivered cs m.seq)) cs.deliveries;
    } in
    let (same, next_of) = settle-IsSame (policy cs.spec) now m.seq counted q in
    (record { spec = same.spec; quiet = same.quiet }, next_of)

-- A kept list is not cut down again.
drop_where-none :
    (dead : StoredMsg → Bool) (msgs : List StoredMsg) (b : ℕ)
    → All (λ m. dead m ≡ false) msgs
    → drop_where dead msgs b ≡ (msgs, b)
unfolding drop_where
drop_where-none dead [] b a = refl
drop_where-none dead (m ∷ msgs) b (h, a) = rw (h, drop_where-none dead msgs b a) refl

drop_where-All :
    (dead : StoredMsg → Bool) (msgs : List StoredMsg) (b : ℕ)
    → All (λ m. dead m ≡ false) (drop_where dead msgs b).0
unfolding drop_where
drop_where-All dead [] b = tt
drop_where-All dead (m ∷ msgs) b =
    let rest = drop_where-All dead msgs (if dead m then sub64 b (size m) else b) in
    if_cases (All (λ x. dead x ≡ false)) (dead m) _ _ (λ e. rest) (λ e. (e, rest))

pub expire-expire : (now : ℕ) (st : Stream) → expire now (expire now st) ≡ expire now st
unfolding expire
expire-expire now st =
    ap (λ (r : List StoredMsg × ℕ). record st { msgs = r.0; bytes = r.1 })
      (drop_where-none (is_dead st.spec now) _ _
        (drop_where-All (is_dead st.spec now) st.msgs st.bytes))
