-- ===== src/Memory/Consumer.antt =====
-- The consumer of v2/bus/memory/streams.go: delivery, redelivery and acknowledgement.
pub mod Floor
pub mod Delivery
pub mod Stops
use bytedesk_sdk_dependencie.Prelude.{
  ℕ, zero, suc, ◌+◌, ◌-◌, ◌==◌, ltb, leb, if◌then◌else◌, Bool, true, false, ◌&&◌, not, Option, none,
  some, List, [], ◌∷◌, length, is_empty, ◌*◌, Text, add64, sub64, member, delete_seq, seq_get,
  seq_set, seq_delete,
}
use bytedesk_sdk_dependencie.Prelude.Int.{ℤ, pos, negsuc, is_pos}
use bytedesk_sdk_dependencie.Bus.Subject.{matches}
use bytedesk_sdk_dependencie.Memory.Stream.{StoredMsg, Stream, head_seq, first_seq, find, expire}

pub data AckPolicy : Type 0 where
  ack_none ack_all ack_explicit : AckPolicy

-- start_default is the empty policy, start_other one that is not known.
pub data StartPolicy : Type 0 where
  start_default start_all start_new start_cursor start_time : StartPolicy
  start_other : Text → StartPolicy

-- bus.ConsumerSpec, the fields that this substrate reads; an absent ack policy is ack_explicit.
pub record ConsumerSpec : Type 0 where
  pub name : Text
  pub filter : Text
  pub ack : Option AckPolicy
  pub ack_wait : ℤ
  pub max_deliver : ℤ
  pub max_ack_pending : ℤ
  pub start : StartPolicy
  pub cursor : Text
  pub start_time : ℕ

pub record ConsumerState : Type 0 where
  pub name : Text
  pub stream : Text
  pub spec : ConsumerSpec
  pub next : ℕ
  pub ack_floor : ℕ
  pub acked : List ℕ
  pub pending : List (ℕ × ℕ)
  pub deliveries : List (ℕ × ℕ)
  pub started : ℕ

-- newConsumerState
unfoldable pub new_consumer_state : Text → Text → ConsumerSpec → ℕ → ConsumerState
new_consumer_state name stream spec start = record {
  name = name;
  stream = stream;
  spec = spec;
  next = start;
  ack_floor = sub64 start 1;
  acked = [];
  pending = [];
  deliveries = [];
  started = start;
}

-- The loop of `markAcked`. Each round takes one number out of `acked`, so its length is fuel enough.
unfoldable pub raise_floor : ℕ → ConsumerState → ConsumerState
raise_floor zero cs = cs
raise_floor (suc fuel) cs =
    let up = add64 cs.ack_floor 1 in
    let higher = raise_floor fuel (record cs {
      ack_floor = up;
      acked = delete_seq up cs.acked;
      deliveries = seq_delete up cs.deliveries;
    }) in
    if member up cs.acked then higher else cs

unfoldable pub mark_acked : ℕ → ConsumerState → ConsumerState
mark_acked seq cs =
    raise_floor (suc (suc (length cs.acked)))
      (record cs { pending = seq_delete seq cs.pending; acked = seq ∷ delete_seq seq cs.acked })

-- ackAllThrough: for s := floor + 1; s <= seq; s++, on the rounds that are left.
unfoldable pub ack_run : ℕ → ℕ → ConsumerState → ConsumerState
ack_run zero s cs = cs
ack_run (suc rounds) s cs = ack_run rounds (suc s) (mark_acked s cs)

unfoldable pub ack_all_through : ℕ → ConsumerState → ConsumerState
ack_all_through seq cs = ack_run (seq - cs.ack_floor) (add64 cs.ack_floor 1) cs

-- limit > 0 && n >= limit
abbrev pub reached : ℤ → ℕ → Bool
reached (pos limit) n = ltb 0 limit && leb limit n
reached (negsuc limit) n = false

abbrev pub delivered : ConsumerState → ℕ → ℕ
delivered cs seq = elim (seq_get seq cs.deliveries) [ some n ↦ n | none ↦ 0 ]

-- The loop of `nextLocked` over the pending deliveries, in whatever order the map gives them.
unfoldable pub redeliver :
    ℕ → List (ℕ × ℕ) → List StoredMsg → ConsumerState → Option StoredMsg × ConsumerState
redeliver now [] msgs cs = (none, cs)
redeliver now ((seq, deadline) ∷ pending) msgs cs =
    let spent = reached cs.spec.max_deliver (delivered cs seq) in
    let gone = if spent then none else find seq msgs in
    let rest = redeliver now pending msgs (if ltb now deadline then cs else mark_acked seq cs) in
    if ltb now deadline then rest else elim gone [ some m ↦ (some m, cs) | none ↦ rest ]

abbrev pub passes : Text → StoredMsg → Bool
passes filter m = if is_empty filter then true else matches filter m.subject

-- The last loop of `nextLocked`. Each round raises `next`, so the numbers up to the last sequence are
-- fuel enough.
unfoldable pub advance : ℕ → List StoredMsg → ℕ → ConsumerState → Option StoredMsg × ConsumerState
advance zero msgs last cs = (none, cs)
advance (suc fuel) msgs last cs =
    let first = head_seq last msgs in
    let at = if leb cs.next first then first else cs.next in
    let here = record cs { next = at } in
    let onward = record cs { next = add64 at 1 } in
    let skip = advance fuel msgs last onward in
    let rejected = advance fuel msgs last (mark_acked at onward) in
    if ltb last at then (none, here) else elim (find at msgs) [
      | none ↦ skip
      | some m ↦ if passes cs.spec.filter m then (some m, onward) else rejected
    ]

-- nextLocked after `expire`.
unfoldable pub next_live : ℕ → Stream → ConsumerState → Option StoredMsg × ConsumerState
next_live now st cs =
    let (again, cs') = redeliver now cs.pending st.msgs cs in
    elim again [
      | some m ↦ (some m, cs')
      | none ↦
          if reached cs'.spec.max_ack_pending (length cs'.pending)
          then (none, cs')
          else advance (suc (suc st.last_seq)) st.msgs st.last_seq cs'
    ]

unfoldable pub next_locked : ℕ → Stream → ConsumerState → Option StoredMsg × Stream × ConsumerState
next_locked now st cs =
    let live = expire now st in let (m, cs') = next_live now live cs in (m, live, cs')

abbrev pub default_ack_wait : ℕ
default_ack_wait = 30 * 1000000000

-- The redelivery deadline: AckWait if it is positive, else 30 seconds.
unfoldable pub deadline : ℤ → ℕ → ℕ
deadline (pos wait) now = if leb wait 0 then now + default_ack_wait else now + wait
deadline (negsuc wait) now = now + default_ack_wait

abbrev pub policy : ConsumerSpec → AckPolicy
policy spec = elim spec.ack [ some p ↦ p | none ↦ ack_explicit ]

abbrev pub settle : AckPolicy → ℕ → ℕ → ConsumerState → ConsumerState
settle ack_none now seq cs = mark_acked seq cs
settle ack_all now seq cs = record cs {
  pending = seq_set seq (deadline cs.spec.ack_wait now) cs.pending;
}
settle ack_explicit now seq cs = record cs {
  pending = seq_set seq (deadline cs.spec.ack_wait now) cs.pending;
}

-- buildLocked: the delivery count that the handler sees, and the state.
unfoldable pub build_locked : ℕ → StoredMsg → ConsumerState → ℕ × ConsumerState
build_locked now m cs =
    let n = suc (delivered cs m.seq) in
    (
      n,
      settle (policy cs.spec) now m.seq (record cs { deliveries = seq_set m.seq n cs.deliveries }),
    )

pub data AckKind : Type 0 where
  ack term progress : AckKind
  nak : ℕ → AckKind

abbrev ack_as : AckPolicy → ℕ → ConsumerState → ConsumerState
ack_as ack_all seq cs = ack_all_through seq cs
ack_as ack_none seq cs = mark_acked seq cs
ack_as ack_explicit seq cs = mark_acked seq cs

-- The acknowledgement that buildLocked wires to a delivery; `p` is the policy at that time.
unfoldable pub acknowledge : AckPolicy → ℕ → AckKind → ℕ → ConsumerState → ConsumerState
acknowledge p now ack seq cs = ack_as p seq cs
acknowledge p now (nak delay) seq cs = record cs { pending = seq_set seq (now + delay) cs.pending }
acknowledge p now term seq cs = mark_acked seq cs
acknowledge p now progress seq cs = record cs {
  pending = seq_set seq (deadline cs.spec.ack_wait now) cs.pending;
}
