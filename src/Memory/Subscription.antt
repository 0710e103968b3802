-- ===== src/Memory/Subscription.antt =====
-- v2/bus/memory/sub.go: the bounded delivery queue of one subscription.
pub mod Order
use bytedesk_sdk_dependencie.Prelude.{
  ℕ, zero, suc, ltb, if◌then◌else◌, Bool, true, false, ◌&&◌, ◌||◌, Option, none, some, List, [],
  ◌∷◌, ◌++◌, length, is_empty, Text, bytes, add64, format_uint,
}
use bytedesk_sdk_dependencie.Prelude.Int.{ℤ, pos, negsuc}
use bytedesk_sdk_dependencie.Bus.Fault.{Fault, slow_consumer, timeout, unhandled, attributed}
use bytedesk_sdk_dependencie.Bus.Identity.{Identity, identity_string}
use bytedesk_sdk_dependencie.Bus.Msg.{Msg}

-- bus.SubOptions
pub record SubOptions : Type 0 where
  pub queue_group : Text
  pub pending_limit : ℤ

-- bus.DefaultPendingLimit
abbrev pub default_pending_limit : ℕ
default_pending_limit = 64

-- subscription. The closed channels doneCh and drained are the flags finished and drained.
pub record Subscription : Type 0 where
  pub owner : Identity
  pub pattern : Text
  pub group : Text
  pub limit : ℕ
  pub queue : List Msg
  pub draining : Bool
  pub stop : Bool
  pub failure : Option Fault
  pub drops : ℕ
  pub finished : Bool
  pub drained : Bool

-- limit <= 0 takes the default.
unfoldable pub pending_limit : ℤ → ℕ
pending_limit (pos n) = if ltb 0 n then n else default_pending_limit
pending_limit (negsuc n) = default_pending_limit

unfoldable pub new_subscription : Identity → Text → SubOptions → Subscription
new_subscription owner pattern o = record {
  owner = owner;
  pattern = pattern;
  group = o.queue_group;
  limit = pending_limit o.pending_limit;
  queue = [];
  draining = false;
  stop = false;
  failure = none;
  drops = 0;
  finished = false;
  drained = false;
}

-- subscription.finish
unfoldable pub finish : Option Fault → Subscription → Subscription
finish failure s = if s.finished then s else record s {
  finished = true;
  stop = true;
  failure = elim failure [ some f ↦ some f | none ↦ s.failure ];
  queue = [];
  drained = true;
}

-- The fault of subscription.enqueue, when n messages have been dropped.
unfoldable pub slow_fault : Subscription → ℕ → Fault
slow_fault s n = record {
  code = slow_consumer;
  op = s.pattern;
  message = attributed (identity_string s.owner) (
      bytes "pending limit "
      ++ (format_uint s.limit
          ++ (bytes " exceeded, " ++ (format_uint n ++ bytes " message(s) dropped"))));
}

-- subscription.enqueue
unfoldable pub enqueue : Msg → Subscription → Subscription
enqueue m s =
    if s.finished || (s.stop || s.draining)
    then s
    else if ltb (length s.queue) s.limit
    then record s { queue = s.queue ++ m ∷ [] }
    else (let n = add64 s.drops 1 in finish (some (slow_fault s n)) (record s { drops = n }))

-- The head of the loop of subscription.run: what is taken off the queue.
unfoldable pub take_first : List Msg → List Msg × List Msg
take_first [] = ([], [])
take_first (m ∷ ms) = (m ∷ [], ms)

unfoldable pub taken : Subscription → List Msg × List Msg
taken s = if s.stop then ([], s.queue) else take_first s.queue

-- One turn of subscription.run: the message that it calls the handler with, if there is one; a turn
-- without one that finds the queue empty under a drain closes drained.
unfoldable pub turn : Subscription → List Msg × Subscription
turn s = if s.finished then ([], s) else (
  (taken s).0,
  record s {
    queue = (taken s).1;
    drained = s.drained || (s.draining && (is_empty (taken s).0 && is_empty (taken s).1));
  },
)

-- The fault of subscription.call when the handler panics.
unfoldable pub panic_fault : Subscription → Msg → Fault
panic_fault s m = record {
  code = unhandled;
  op = m.subject;
  message = attributed (identity_string s.owner) (bytes "handler panicked");
}

-- subscription.call, its handler panicking on the message that the turn took
unfoldable pub panicked : List Msg × Subscription → List Msg × Subscription
panicked ([], s) = ([], s)
panicked (m ∷ ms, s) = (m ∷ ms, finish (some (panic_fault s m)) s)

-- subscription.Drain up to its wait
unfoldable pub drain : Subscription → Subscription
drain s =
    if s.finished
    then s
    else record s { draining = true; drained = if is_empty s.queue then true else s.drained }

-- The end of the wait of subscription.Drain: by drained, by doneCh, or by the context with its text.
pub data DrainEnd : Type 0 where
  by_drained : DrainEnd
  by_done : DrainEnd
  by_context : Text → DrainEnd

unfoldable pub drain_end : DrainEnd → Subscription → Option Fault × Subscription
drain_end by_drained s = (none, finish none s)
drain_end by_done s = (s.failure, s)
drain_end (by_context why) s = (
  some (record {
    code = timeout;
    op = s.pattern;
    message = attributed (identity_string s.owner) (bytes "drain did not finish: " ++ why);
  }),
  finish none s,
)

-- What may happen to a subscription, in any order.
pub data Event : Type 0 where
  arrive : Msg → Event
  work : Event
  panic : Event
  start_drain : Event
  end_drain : DrainEnd → Event
  cancel : Event

unfoldable pub step : Event → Subscription → List Msg × Subscription
step (arrive m) s = ([], enqueue m s)
step work s = turn s
step panic s = panicked (turn s)
step start_drain s = ([], drain s)
step (end_drain e) s = ([], (drain_end e s).1)
step cancel s = ([], finish none s)

-- The messages that the handler was called with, and the subscription in the end.
unfoldable pub run : List Event → Subscription → List Msg × Subscription
run [] s = ([], s)
run (e ∷ es) s = let called = step e s in let rest = run es called.1 in (called.0 ++ rest.0, rest.1)
