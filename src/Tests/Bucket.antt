-- ===== src/Tests/Bucket.antt =====
-- v2/bus/memory/kv.go and sub.go at concrete inputs.
use bytedesk_sdk_dependencie.Prelude.{
  ℕ, ◌≡◌, ◌≢◌, refl, false, none, some, [], ◌∷◌, ◌++◌, Text, bytes, text_eq, lookup, if◌then◌else◌,
  arith, List,
}
use bytedesk_sdk_dependencie.Prelude.Int.{pos}
use bytedesk_sdk_dependencie.Bus.Fault.{ok}
use bytedesk_sdk_dependencie.Bus.Identity.{Identity, Role}
use bytedesk_sdk_dependencie.Bus.Msg.{Msg}
use bytedesk_sdk_dependencie.Memory.Bucket.{
  Entry, Bucket, Handle, update, live, fresh, current, entries, last_entry, write,
}
use bytedesk_sdk_dependencie.Memory.Bucket.Swap.{update_once, IsBounded}
use bytedesk_sdk_dependencie.Memory.Bucket.Refinement.{Op, read, swap, erase, Cells}
use bytedesk_sdk_dependencie.Memory.Subscription.{
  Subscription, Event, arrive, work, start_drain, run, step, enqueue, turn, taken, take_first,
  drain, finish, new_subscription, pending_limit,
}
use bytedesk_sdk_dependencie.Memory.Subscription.Order.{IsSound, run-offered}

abbrev carol : Identity
carol = record {
  plugin_id = bytes "carol";
  generation = bytes "1";
  lease = record { token = [] };
  role = Role.plugin;
  grants = record {
    publish = [];
    subscribe = [];
    request = [];
    serves = [];
    streams = [];
    kv = [];
    objects = [];
  };
}

abbrev handle : Handle
handle = record { owner = carol; name = bytes "b"; alive = none }

abbrev first : Entry
first = record { key = bytes "k"; value = bytes "v"; revision = 1; created = 0; deleted = false }

abbrev one_key : Bucket
one_key = record {
  spec = record { name = bytes "b"; history = pos 2; ttl = pos 0; max_bytes = pos 0 };
  rev = 1;
  keys = (bytes "k", first ∷ []) ∷ [];
  watchers = [];
}

abbrev cells : Cells
cells = record { rev = 1; cell = λ key. if text_eq (bytes "k") key then some first else none }

abbrev calls : List (Op × ℕ)
calls = (swap (bytes "k") (bytes "w") 1, 5) ∷ (erase (bytes "k"), 6) ∷ (read (bytes "k"), 7) ∷ []

one_key-IsBounded : IsBounded one_key
unfolding current entries last_entry lookup
one_key-IsBounded = record { at = λ key e c. ground arith }

swapped : (update handle one_key (bytes "k") (bytes "w") 1 10).0 ≡ ok 2
unfolding update live fresh current entries last_entry lookup write text_eq bytes
swapped = refl

update_once_example :
    ((update handle
        (update handle one_key (bytes "k") (bytes "w") 1 10).1
        (bytes "k")
        (bytes "x")
        1
        11).0
      ≢ ok 3)
    × ((update handle
          (update handle one_key (bytes "k") (bytes "w") 1 10).1
          (bytes "k")
          (bytes "x")
          1
          11).1
        ≡ (update handle one_key (bytes "k") (bytes "w") 1 10).1)
update_once_example =
    update_once handle handle one_key (bytes "k") (bytes "w") (bytes "x") 1 10 11 2 3
      one_key-IsBounded (omega arith) swapped

abbrev note : Text → Msg
note t = record { subject = bytes "a"; reply = []; headers = []; body = t; respond = none }

abbrev idle : Subscription
idle = new_subscription carol (bytes "a") (record { queue_group = []; pending_limit = pos 2 })

abbrev story : List Event
story =
    arrive (note (bytes "1"))
    ∷ work
    ∷ arrive (note (bytes "2"))
    ∷ start_drain
    ∷ arrive (note (bytes "3"))
    ∷ []

idle-IsSound : IsSound idle
unfolding new_subscription
idle-IsSound = record { stops = refl; emptied = λ _. refl; bounded = omega arith }

still_there : (run story idle).1.finished ≡ false
unfolding run step enqueue turn taken take_first drain finish new_subscription pending_limit
still_there = refl

run-offered_example :
    (run story idle).0 ++ (run story idle).1.queue ≡ note (bytes "1") ∷ note (bytes "2") ∷ []
unfolding new_subscription
run-offered_example = run-offered story idle idle-IsSound still_there
