-- ===== src/Memory/Delivery/Fairness.antt =====
-- No member of a queue group is passed over.
use native.Mathlib.Nat.{add-mod_right, mod-eq_of_lt}
use bytedesk_sdk_dependencie.Prelude.{
  ℕ, zero, suc, ◌+◌, ◌-◌, ◌%◌, ◌<◌, ◌≡◌, refl, ap, ◌∙◌, if◌then◌else◌, false, not, some, List, [],
  ◌∷◌, length, get_elem?, is_empty, Text, add64, add64_lem, word, arith,
}
use bytedesk_sdk_dependencie.Memory.Gate.{Store, Mounted, keep}
use bytedesk_sdk_dependencie.Memory.Delivery.{
  eligible, grouped, gather, turn_of, one_of, match_locked,
}
use bytedesk_sdk_dependencie.Memory.Delivery.Turns.{
  in_group, group_of, match_locked_lem, pick-turn_of, members-gather, members-nil, gather-Parted,
}

-- So many messages of one subject, one after the other, and nothing else in between.
unfoldable pub again : ℕ → Text → Store → Store
again zero subject s = s
again (suc k) subject s = again k subject (match_locked subject s).1

next_place :
    (n i turn k : ℕ) → k < n → (turn + k) % n ≡ i → (j : ℕ) × ((j < n) × ((suc turn + j) % n ≡ i))
next_place n i turn zero l e =
    let around : suc turn + (n - 1) ≡ turn + n = omega arith in
    (n - 1, (omega arith, rw around (add-mod_right turn n ∙ ap (λ t. t % n) (omega arith) ∙ e)))
next_place n i turn (suc k) l e =
    let on : suc turn + k ≡ turn + suc k = omega arith in (k, (omega arith, rw on e))

-- From any turn on, each place comes up within one round.
round_trip : (n i turn : ℕ) → i < n → (k : ℕ) × ((k < n) × ((turn + k) % n ≡ i))
round_trip n i zero h = (i, (h, grind (arith, mod-eq_of_lt)))
round_trip n i (suc turn) h = let (k, (l, e)) = round_trip n i turn h in next_place n i turn k l e

group_of-keep :
    (subject g : Text) (ms : List Mounted)
    → group_of subject g (keep (λ m. not m.sub.finished) ms) ≡ group_of subject g ms
unfolding group_of keep grouped eligible
group_of-keep subject g [] = refl
group_of-keep subject g (m ∷ ms) = ground (arith, group_of-keep subject g ms)

match_locked-group_of :
    (subject g : Text) (s : Store)
    → (group_of subject g (match_locked subject s).1.subs ≡ group_of subject g s.subs)
      × (turn_of (match_locked subject s).1.rr g ≡ (
          if is_empty (group_of subject g s.subs)
          then turn_of s.rr g
          else add64 (turn_of s.rr g) 1))
unfolding match_locked
match_locked-group_of subject g s = (
  group_of-keep subject g s.subs,
  ground (
    arith,
    pick-turn_of g (gather subject s.subs []) s.rr (gather-Parted subject s.subs [] tt),
    members-gather subject g s.subs [],
    members-nil g,
  ),
)

-- After so many messages the turn has gone on by as many.
turn_of-again :
    (k : ℕ) (subject g : Text) (s : Store)
    → is_empty (group_of subject g s.subs) ≡ false
    → turn_of s.rr g + k < word
    → (group_of subject g (again k subject s).subs ≡ group_of subject g s.subs)
      × (turn_of (again k subject s).rr g ≡ turn_of s.rr g + k)
unfolding again
turn_of-again zero subject g s some_in room = (refl, omega arith)
turn_of-again (suc k) subject g s some_in room =
    let (same, turned) = match_locked-group_of subject g s in
    let one : turn_of (match_locked subject s).1.rr g ≡ turn_of s.rr g + 1 =
      turned ∙ rw some_in (add64_lem (turn_of s.rr g) (omega arith)) in
    let (rest, on) =
      turn_of-again k subject g (match_locked subject s).1 (rw same some_in) (omega arith) in
    (rest ∙ same, omega arith)

get_elem?_lt : (ms : List Mounted) (i : ℕ) (m : Mounted) → get_elem? ms i ≡ some m → i < length ms
get_elem?_lt [] i m e = absurd (ground arith)
get_elem?_lt (x ∷ ms) zero m e = omega arith
get_elem?_lt (x ∷ ms) (suc i) m e = omega (arith, get_elem?_lt ms i m e)

get_elem?_full :
    (ms : List Mounted) (i : ℕ) (m : Mounted) → get_elem? ms i ≡ some m → is_empty ms ≡ false
get_elem?_full [] i m e = absurd (ground arith)
get_elem?_full (x ∷ ms) i m e = refl

one_of_at :
    (ms : List Mounted) (turn i : ℕ) (m : Mounted)
    → turn % length ms ≡ i
    → get_elem? ms i ≡ some m
    → one_of ms turn ≡ m ∷ []
unfolding one_of
one_of_at ms turn i m e at = rw (one_of, e, at) refl

-- Each member of a queue group gets one of the next messages of the subject: within as many messages
-- as the group has members there is one whose only receiver in the group is that member.
pub match_locked_fair :
    (subject g : Text) (s : Store) (i : ℕ) (m : Mounted)
    → is_empty g ≡ false
    → get_elem? (group_of subject g s.subs) i ≡ some m
    → turn_of s.rr g + length (group_of subject g s.subs) < word
    → (k : ℕ) × ((k < length (group_of subject g s.subs))
        × (keep (in_group g) (match_locked subject (again k subject s)).0 ≡ m ∷ []))
match_locked_fair subject g s i m named at room =
    let n = length (group_of subject g s.subs) in
    let (k, (l, e)) =
      round_trip n i (turn_of s.rr g) (get_elem?_lt (group_of subject g s.subs) i m at) in
    let (same, on) =
      turn_of-again k subject g s (get_elem?_full (group_of subject g s.subs) i m at)
        (omega arith) in
    (
      k,
      (
        l,
        (match_locked_lem subject g (again k subject s)).1 named
            ∙ rw (same, on) (one_of_at (group_of subject g s.subs) (turn_of s.rr g + k) i m e at),
      ),
    )
