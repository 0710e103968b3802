-- ===== src/Memory/Subscription/Order.antt =====
-- Delivery is in order and loses nothing silently.
use bytedesk_sdk_dependencie.Prelude.{
  ◌≤◌, ◌≡◌, refl, true, false, Option, none, some, List, [], ◌∷◌, ◌++◌, length, length-append,
  if◌then◌else◌, arith, Bool-cases, inl, inr, append_assoc, append-nil,
}
use bytedesk_sdk_dependencie.Bus.Msg.{Msg}
use bytedesk_sdk_dependencie.Bus.Fault.{Fault}
use bytedesk_sdk_dependencie.Memory.Subscription.{
  Subscription, Event, arrive, work, panic, start_drain, end_drain, cancel, by_drained, by_done,
  by_context, finish, enqueue, take_first, taken, turn, panicked, panic_fault, drain, drain_end,
  step, run,
}

-- The messages that arrive before a drain starts.
abbrev pub offered : List Event → List Msg
offered [] = []
offered (arrive m ∷ es) = m ∷ offered es
offered (work ∷ es) = offered es
offered (panic ∷ es) = offered es
offered (start_drain ∷ es) = []
offered (end_drain e ∷ es) = offered es
offered (cancel ∷ es) = offered es

-- The stop flag is raised with finished, and then the queue is empty; it is never above its limit.
pub record IsSound (s : Subscription) : Type 0 where
  pub stops : s.stop ≡ s.finished
  pub emptied : s.finished ≡ true → s.queue ≡ []
  pub bounded : length s.queue ≤ s.limit

finish-IsSound : (f : Option Fault) (s : Subscription) → IsSound s → IsSound (finish f s)
unfolding finish
finish-IsSound f s h = record {
  stops = ground (arith, h.stops);
  emptied = λ e. ground (arith, h.emptied);
  bounded = ground (arith, h.bounded);
}

enqueue-IsSound : (m : Msg) (s : Subscription) → IsSound s → IsSound (enqueue m s)
unfolding enqueue finish
enqueue-IsSound m s h = record {
  stops = ground (arith, h.stops);
  emptied = λ e. ground (arith, h.emptied);
  bounded = ground (arith, h.bounded, length-append s.queue (m ∷ []));
}

taken_lem :
    (s : Subscription)
    → ((taken s).0 ++ (taken s).1 ≡ s.queue) × (length (taken s).1 ≤ length s.queue)
unfolding taken take_first
taken_lem s = ground arith

taken-empty : (s : Subscription) → s.queue ≡ [] → (taken s).1 ≡ []
unfolding taken take_first
taken-empty s h = ground arith

turn-IsSound : (s : Subscription) → IsSound s → IsSound (turn s).1
unfolding turn
turn-IsSound s h = record {
  stops = ground (arith, h.stops);
  emptied = λ e. ground (arith, h.emptied, taken-empty s);
  bounded = ground (arith, h.bounded, taken_lem s);
}

panicked-IsSound : (r : List Msg × Subscription) → IsSound r.1 → IsSound (panicked r).1
unfolding panicked
panicked-IsSound ([], s) h = h
panicked-IsSound (m ∷ ms, s) h = finish-IsSound _ s h

step-IsSound : (e : Event) (s : Subscription) → IsSound s → IsSound (step e s).1
unfolding step drain_end drain
step-IsSound (arrive m) s h = enqueue-IsSound m s h
step-IsSound work s h = turn-IsSound s h
step-IsSound panic s h = panicked-IsSound (turn s) (turn-IsSound s h)
step-IsSound start_drain s h = record {
  stops = ground (arith, h.stops);
  emptied = λ e. ground (arith, h.emptied);
  bounded = ground (arith, h.bounded);
}
step-IsSound (end_drain by_drained) s h = finish-IsSound none s h
step-IsSound (end_drain by_done) s h = h
step-IsSound (end_drain (by_context why)) s h = finish-IsSound none s h
step-IsSound cancel s h = finish-IsSound none s h

-- Whatever happens, in whatever order: a subscription that is finished has an empty queue and is
-- stopped, and no queue is ever longer than its limit.
run-IsSound : (es : List Event) (s : Subscription) → IsSound s → IsSound (run es s).1
unfolding run
run-IsSound [] s h = h
run-IsSound (e ∷ es) s h = run-IsSound es (step e s).1 (step-IsSound e s h)

-- Once finished, for good.
step_finished : (e : Event) (s : Subscription) → s.finished ≡ true → (step e s).1 ≡ s
unfolding step enqueue turn drain finish drain_end panicked
step_finished (arrive m) s h = ground arith
step_finished work s h = ground arith
step_finished panic s h = ground arith
step_finished start_drain s h = ground arith
step_finished (end_drain by_drained) s h = ground arith
step_finished (end_drain by_done) s h = refl
step_finished (end_drain (by_context why)) s h = ground arith
step_finished cancel s h = ground arith

run_finished : (es : List Event) (s : Subscription) → s.finished ≡ true → (run es s).1 ≡ s
unfolding run
run_finished [] s h = refl
run_finished (e ∷ es) s h = ground (arith, step_finished e s h, run_finished es s h)

abbrev waiting : Subscription → List Event → List Msg
waiting s es = if s.draining then [] else offered es

pub finish_finished : (f : Option Fault) (s : Subscription) → (finish f s).finished ≡ true
unfolding finish
finish_finished f s = ground arith

turn-queue :
    (s : Subscription)
    → ((turn s).0 ++ (turn s).1.queue ≡ s.queue) × ((turn s).1.draining ≡ s.draining)
unfolding turn
turn-queue s = ground (arith, taken_lem s)

panicked_live : (r : List Msg × Subscription) → (panicked r).1.finished ≡ false → panicked r ≡ r
unfolding panicked
panicked_live ([], s) n = refl
panicked_live (m ∷ ms, s) n = absurd (ground (arith, finish_finished (some (panic_fault s m)) s))

turn-waiting :
    (es : List Event) (s : Subscription) (r : List Msg × Subscription)
    → r ≡ turn s
    → r.0 ++ (r.1.queue ++ waiting r.1 es) ≡ s.queue ++ (if s.draining then [] else offered es)
turn-waiting es s r e =
    ground (arith, turn-queue s, append_assoc (turn s).0 (turn s).1.queue (waiting s es))

arrive-waiting :
    (m : Msg) (es : List Event) (s : Subscription)
    → s.stop ≡ s.finished
    → (enqueue m s).finished ≡ false
    → (enqueue m s).queue ++ waiting (enqueue m s) es ≡ s.queue ++ waiting s (arrive m ∷ es)
unfolding enqueue finish
arrive-waiting m es s h n = ground (arith, append_assoc s.queue (m ∷ []) (offered es))

-- One step keeps what was called, what is queued and what is still to come together.
step-waiting :
    (e : Event) (es : List Event) (s : Subscription)
    → s.stop ≡ s.finished
    → (step e s).1.finished ≡ false
    → (step e s).0 ++ ((step e s).1.queue ++ waiting (step e s).1 es)
      ≡ s.queue ++ waiting s (e ∷ es)
unfolding step
step-waiting (arrive m) es s h n = arrive-waiting m es s h n
step-waiting work es s h n = turn-waiting es s (turn s) refl
step-waiting panic es s h n = turn-waiting es s (panicked (turn s)) (panicked_live (turn s) n)
step-waiting start_drain es s h n = unfold drain in ground arith
step-waiting (end_drain by_drained) es s h n =
    absurd (unfold drain_end in ground (arith, finish_finished none s))
step-waiting (end_drain by_done) es s h n = unfold drain_end in refl
step-waiting (end_drain (by_context why)) es s h n =
    absurd (unfold drain_end in ground (arith, finish_finished none s))
step-waiting cancel es s h n = absurd (ground (arith, finish_finished none s))

-- What the handler was called with, in that order, followed by what is still queued, is what was
-- queued at first and what has arrived since before any drain: until the subscription is finished no
-- message is lost, doubled or overtaken.
pub run-offered :
    (es : List Event) (s : Subscription)
    → IsSound s
    → (run es s).1.finished ≡ false
    → (run es s).0 ++ (run es s).1.queue ≡ s.queue ++ waiting s es
unfolding run
run-offered [] s h n = ground (arith, append-nil s.queue)
run-offered (e ∷ es) s h n =
    let running : (step e s).1.finished ≡ false = elim (Bool-cases (step e s).1.finished) [
      | inl t ↦ absurd (ground (arith, run_finished es (step e s).1 t))
      | inr f ↦ f
    ] in
    ground (
      arith,
      run-offered es (step e s).1 (step-IsSound e s h) n,
      step-waiting e es s h.stops running,
      append_assoc (step e s).0 (run es (step e s).1).0 (run es (step e s).1).1.queue,
    )
