-- ===== src/Memory/Delivery.antt =====
-- Store.matchLocked, Store.deliver and dropSubsLocked of v2/bus/memory/conn.go: who receives a
-- message.
pub mod Turns
pub mod Fairness
use bytedesk_sdk_dependencie.Prelude.{
  ℕ, ◌==◌, ◌%◌, if◌then◌else◌, Bool, true, false, not, ◌&&◌, ◌||◌, Option, none, some, List, [],
  ◌∷◌, ◌++◌, length, get_elem?, is_empty, map, member, Text, text_eq, Dict, lookup, insert, add64,
}
use bytedesk_sdk_dependencie.Bus.Subject.{matches}
use bytedesk_sdk_dependencie.Bus.Msg.{Msg}
use bytedesk_sdk_dependencie.Memory.Stamp.{copy_for}
use bytedesk_sdk_dependencie.Memory.Subscription.{Subscription, enqueue}
use bytedesk_sdk_dependencie.Memory.Gate.{Store, Mounted, keep}

-- subscription.stopped
abbrev pub stopped : Subscription → Bool
stopped s = s.stop || s.draining

-- The subscription is neither done nor stopped, and its pattern matches.
unfoldable pub eligible : Text → Mounted → Bool
eligible subject m = not m.sub.finished && (matches m.sub.pattern subject && not (stopped m.sub))

-- The tests of the loop of matchLocked: on its own, or one of a queue group.
unfoldable pub alone : Text → Mounted → Bool
alone subject m = eligible subject m && is_empty m.sub.group

unfoldable pub grouped : Text → Mounted → Bool
grouped subject m = eligible subject m && not (is_empty m.sub.group)

-- groups[group]; a missing group reads as nil.
unfoldable pub members : Text → Dict (List Mounted) → List Mounted
members group groups = elim (lookup group groups) [ some ms ↦ ms | none ↦ [] ]

-- groups[sub.group] = append(groups[sub.group], sub). A group comes into `order` when it is met
-- first, which is the place where `insert` puts it.
unfoldable pub add_member : Mounted → Dict (List Mounted) → Dict (List Mounted)
add_member m groups = insert m.sub.group (members m.sub.group groups ++ m ∷ []) groups

unfoldable pub gather : Text → List Mounted → Dict (List Mounted) → Dict (List Mounted)
gather subject [] groups = groups
gather subject (m ∷ ms) groups =
    gather subject ms (if grouped subject m then add_member m groups else groups)

-- s.rr[group]; a missing key reads as 0.
unfoldable pub turn_of : Dict ℕ → Text → ℕ
turn_of rr group = elim (lookup group rr) [ some n ↦ n | none ↦ 0 ]

-- members[i]; Go would panic out of range, where this has no one.
unfoldable pub one_of : List Mounted → ℕ → List Mounted
one_of ms turn = elim (get_elem? ms (turn % length ms)) [ some m ↦ m ∷ [] | none ↦ [] ]

-- The last loop of matchLocked.
unfoldable pub pick : Dict (List Mounted) → Dict ℕ → List Mounted × Dict ℕ
pick [] rr = ([], rr)
pick ((group, ms) ∷ groups) rr =
    let rest = pick groups (insert group (add64 (turn_of rr group) 1) rr) in
    (one_of ms (turn_of rr group) ++ rest.0, rest.1)

unfoldable pub match_locked : Text → Store → List Mounted × Store
match_locked subject s =
    let picked = pick (gather subject s.subs []) s.rr in
    (
      keep (alone subject) s.subs ++ picked.0,
      record s { subs = keep (λ m. not m.sub.finished) s.subs; rr = picked.1 },
    )

abbrev pub numbers : List Mounted → List ℕ
numbers = map (λ m. m.number)

unfoldable pub enqueue_at : List ℕ → Msg → Mounted → Mounted
enqueue_at targets msg m =
    if member m.number targets then record m { sub = enqueue msg m.sub } else m

-- Store.deliver: how many receive the message, and the store.
unfoldable pub deliver : Text → Msg → Option Text → Store → ℕ × Store
deliver subject msg reply s =
    let (targets, s') = match_locked subject s in
    (
      length targets,
      record s' { subs = map (enqueue_at (numbers targets) (copy_for msg reply)) s'.subs },
    )

-- Store.dropSubsLocked
unfoldable pub drop_subs : List ℕ → Store → Store
drop_subs gone s = record s { subs = keep (λ m. not (member m.number gone)) s.subs }
