-- ===== src/Memory/Delivery/Turns.antt =====
-- The members of a queue group take turns.
use bytedesk_sdk_dependencie.Prelude.{
  ℕ, zero, suc, ◌%◌, ◌<◌, ◌≡◌, ◌≢◌, refl, sym, if◌then◌else◌, Bool, true, false, ◌&&◌, none, some,
  List, [], ◌∷◌, ◌++◌, length, get_elem?, is_empty, is_empty_iff, All, append_assoc, append-nil,
  subst, Text, text_eq, text_eq_iff, text_eq_refl, Dict, lookup, insert, lookup-insert, add64,
  arith, Bool-cases, inl, inr,
}
use bytedesk_sdk_dependencie.Memory.Gate.{Store, Mounted, keep}
use bytedesk_sdk_dependencie.Memory.Delivery.{
  alone, grouped, members, add_member, gather, turn_of, one_of, pick, match_locked,
}

abbrev pub in_group : Text → Mounted → Bool
in_group g m = text_eq m.sub.group g

-- Who is in the group and may receive the subject, in the order of subscription.
unfoldable pub group_of : Text → Text → List Mounted → List Mounted
group_of subject g ms = keep (λ m. grouped subject m && in_group g m) ms

members-add_member :
    (g : Text) (m : Mounted) (groups : Dict (List Mounted))
    → members g (add_member m groups)
      ≡ (if in_group g m then members g groups ++ m ∷ [] else members g groups)
unfolding members add_member
members-add_member g m groups = ground (
  arith,
  text_eq_iff m.sub.group g,
  lookup-insert m.sub.group g (members m.sub.group groups ++ m ∷ []) groups,
)

pub members-gather :
    (subject g : Text) (ms : List Mounted) (groups : Dict (List Mounted))
    → members g (gather subject ms groups) ≡ members g groups ++ group_of subject g ms
unfolding gather group_of keep
members-gather subject g [] groups = sym (append-nil (members g groups))
members-gather subject g (m ∷ ms) groups = ground (
  arith,
  members-add_member g m groups,
  members-gather subject g ms groups,
  members-gather subject g ms (add_member m groups),
  append_assoc (members g groups) (m ∷ []) (group_of subject g ms),
)

-- What matchLocked has gathered: each group has a name of its own and members, all of them its.
abbrev pub Parted : Dict (List Mounted) → Type 0
Parted [] = Unit {0}
Parted ((g, ms) ∷ groups) =
    (ms ≢ [])
    × ((is_empty g ≡ false)
        × (All (λ m. in_group g m ≡ true) ms × ((lookup g groups ≡ none) × Parted groups)))

members-cons :
    (g h : Text) (ms : List Mounted) (groups : Dict (List Mounted))
    → members g ((h, ms) ∷ groups) ≡ (if text_eq h g then ms else members g groups)
unfolding members lookup
members-cons g h ms groups = ground arith

members-All :
    (g : Text) (groups : Dict (List Mounted))
    → Parted groups
    → All (λ m. in_group g m ≡ true) (members g groups)
members-All g [] p = unfold members lookup in tt
members-All g ((h, ms) ∷ groups) (_, (_, (own, (_, rest)))) = elim (Bool-cases (text_eq h g)) [
  | inl e ↦
      rw (members-cons g h ms groups, e)
        (subst (λ k. All (λ m. in_group k m ≡ true) ms) ((text_eq_iff h g).0 e) own)
  | inr e ↦ rw (members-cons g h ms groups, e) (members-All g groups rest)
]

All-snoc :
    (g : Text) (m : Mounted) (ms : List Mounted)
    → All (λ x. in_group g x ≡ true) ms
    → in_group g m ≡ true
    → All (λ x. in_group g x ≡ true) (ms ++ m ∷ [])
All-snoc g m [] a h = (h, tt)
All-snoc g m (x ∷ ms) a h = (a.0, All-snoc g m ms a.1 h)

append-ne-nil : (ms : List Mounted) (m : Mounted) → ms ++ m ∷ [] ≢ []
append-ne-nil [] m e = cc
append-ne-nil (x ∷ ms) m e = cc

insert-Parted :
    (g : Text) (ms : List Mounted) (groups : Dict (List Mounted))
    → ms ≢ []
    → is_empty g ≡ false
    → All (λ m. in_group g m ≡ true) ms
    → Parted groups
    → Parted (insert g ms groups)
unfolding insert lookup
insert-Parted g ms [] full named own p = (full, (named, (own, (refl, tt))))
insert-Parted g ms ((h, old) ∷ groups) full named own (f, (n, (o, (fresh, rest)))) =
    elim (Bool-cases (text_eq h g)) [
      | inl e ↦
          let same : h ≡ g = (text_eq_iff h g).0 e in
          rw e (full, (named, (own, (subst (λ k. lookup k groups ≡ none) same fresh, rest))))
      | inr e ↦ rw e (
        f,
        (
          n,
          (
            o,
            (
              ground (arith, lookup-insert g h ms groups, text_eq_iff g h, text_eq_iff h g),
              insert-Parted g ms groups full named own rest,
            ),
          ),
        ),
      )
    ]

pub gather-Parted :
    (subject : Text) (ms : List Mounted) (groups : Dict (List Mounted))
    → Parted groups
    → Parted (gather subject ms groups)
unfolding gather add_member
gather-Parted subject [] groups p = p
gather-Parted subject (m ∷ ms) groups p = elim (Bool-cases (grouped subject m)) [
  | inl e ↦ rw e (
      gather-Parted subject ms (add_member m groups) (
        unfold add_member in
        insert-Parted m.sub.group (members m.sub.group groups ++ m ∷ []) groups
          (append-ne-nil (members m.sub.group groups) m) (unfold grouped in ground arith)
          (All-snoc m.sub.group m (members m.sub.group groups) (members-All m.sub.group groups p)
            (text_eq_refl m.sub.group))
          p))
  | inr e ↦ rw e (gather-Parted subject ms groups p)
]

module _ (p : Mounted → Bool) where
  keep-append : (xs ys : List Mounted) → keep p (xs ++ ys) ≡ keep p xs ++ keep p ys
  unfolding keep
  keep-append [] ys = refl
  keep-append (x ∷ xs) ys = ground (arith, keep-append xs ys)

get_elem?-lt :
    (ms : List Mounted) (i : ℕ) → i < length ms → (m : Mounted) × (get_elem? ms i ≡ some m)
get_elem?-lt [] i h = absurd (omega arith)
get_elem?-lt (m ∷ ms) zero h = (m, refl)
get_elem?-lt (m ∷ ms) (suc i) h = get_elem?-lt ms i (omega arith)

All-get_elem? :
    (P : Mounted → Type 0) (ms : List Mounted) (i : ℕ) (m : Mounted)
    → All P ms
    → get_elem? ms i ≡ some m
    → P m
All-get_elem? P [] i m a e = absurd (ground arith)
All-get_elem? P (x ∷ ms) zero m a e = subst P (ground arith) a.0
All-get_elem? P (x ∷ ms) (suc i) m a e = All-get_elem? P ms i m a.1 e

-- The turn of a group that has members falls on one of them.
one_of_lem :
    (ms : List Mounted) (turn : ℕ)
    → ms ≢ []
    → (m : Mounted) × ((one_of ms turn ≡ m ∷ []) × (get_elem? ms (turn % length ms) ≡ some m))
unfolding one_of
one_of_lem [] turn h = absurd (h refl)
one_of_lem (x ∷ ms) turn h =
    let (m, e) = get_elem?-lt (x ∷ ms) (turn % length (x ∷ ms)) (grind arith) in
    (m, (rw (one_of, e) refl, e))

keep-one_of :
    (g h : Text) (ms : List Mounted) (turn : ℕ)
    → ms ≢ []
    → All (λ m. in_group h m ≡ true) ms
    → keep (in_group g) (one_of ms turn) ≡ (if text_eq h g then one_of ms turn else [])
unfolding keep
keep-one_of g h ms turn full own =
    let (m, (e, at)) = one_of_lem ms turn full in
    let its : in_group h m ≡ true =
      All-get_elem? (λ x. in_group h x ≡ true) ms (turn % length ms) m own at in
    rw e (ground (arith, text_eq_iff m.sub.group h, text_eq_iff m.sub.group g, text_eq_iff h g))

one_of-nil : (turn : ℕ) → one_of [] turn ≡ []
unfolding one_of
one_of-nil turn = refl

members-none :
    (g : Text) (groups : Dict (List Mounted)) → lookup g groups ≡ none → members g groups ≡ []
unfolding members
members-none g groups h = ground arith

turn_of-insert :
    (h g : Text) (n : ℕ) (rr : Dict ℕ)
    → turn_of (insert h n rr) g ≡ (if text_eq h g then n else turn_of rr g)
unfolding turn_of
turn_of-insert h g n rr = ground (arith, lookup-insert h g n rr)

pick-cons :
    (h : Text) (ms : List Mounted) (groups : Dict (List Mounted)) (rr : Dict ℕ)
    → pick ((h, ms) ∷ groups) rr ≡ (
      one_of ms (turn_of rr h) ++ (pick groups (insert h (add64 (turn_of rr h) 1) rr)).0,
      (pick groups (insert h (add64 (turn_of rr h) 1) rr)).1,
    )
unfolding pick
pick-cons h ms groups rr = refl

pick-group :
    (g : Text) (groups : Dict (List Mounted)) (rr : Dict ℕ)
    → Parted groups
    → keep (in_group g) (pick groups rr).0 ≡ one_of (members g groups) (turn_of rr g)
pick-group g [] rr p = unfold pick keep one_of members lookup in refl
pick-group g ((h, ms) ∷ groups) rr (full, (named, (own, (fresh, rest)))) =
    let rr' : Dict ℕ = insert h (add64 (turn_of rr h) 1) rr in
    ground (
      arith,
      pick-cons h ms groups rr,
      text_eq_iff h g,
      keep-append (in_group g) (one_of ms (turn_of rr h)) (pick groups rr').0,
      keep-one_of g h ms (turn_of rr h) full own,
      pick-group g groups rr' rest,
      members-cons g h ms groups,
      members-none h groups fresh,
      turn_of-insert h g (add64 (turn_of rr h) 1) rr,
      one_of-nil (turn_of rr' g),
      append-nil (one_of ms (turn_of rr h)),
    )

-- A group that has members has its turn counted; the others are left alone.
pub pick-turn_of :
    (g : Text) (groups : Dict (List Mounted)) (rr : Dict ℕ)
    → Parted groups
    → turn_of (pick groups rr).1 g
      ≡ (if is_empty (members g groups) then turn_of rr g else add64 (turn_of rr g) 1)
pick-turn_of g [] rr p = unfold pick members lookup in refl
pick-turn_of g ((h, ms) ∷ groups) rr (full, (named, (own, (fresh, rest)))) = ground (
  arith,
  text_eq_iff h g,
  pick-cons h ms groups rr,
  pick-turn_of g groups (insert h (add64 (turn_of rr h) 1) rr) rest,
  members-cons g h ms groups,
  members-none h groups fresh,
  turn_of-insert h g (add64 (turn_of rr h) 1) rr,
  is_empty_iff ms,
)

keep-alone :
    (subject g : Text) (ms : List Mounted)
    → keep (in_group g) (keep (alone subject) ms)
      ≡ (if is_empty g then keep (alone subject) ms else [])
unfolding keep alone
keep-alone subject g [] = ground arith
keep-alone subject g (m ∷ ms) = ground (
  arith,
  keep-alone subject g ms,
  text_eq_iff m.sub.group g,
  is_empty_iff m.sub.group,
  is_empty_iff g,
)

group_of-nil : (subject : Text) (ms : List Mounted) → group_of subject [] ms ≡ []
unfolding group_of keep grouped
group_of-nil subject [] = refl
group_of-nil subject (m ∷ ms) =
    ground (arith, group_of-nil subject ms, text_eq_iff m.sub.group [], is_empty_iff m.sub.group)

pub members-nil : (g : Text) → members g [] ≡ []
unfolding members lookup
members-nil g = refl

-- Whom a message goes to. Every subscription without a group that is live, not stopped and matches
-- gets it; of each queue group exactly the member whose turn it is, and nobody where no member is
-- live, not stopped and matching.
pub match_locked_lem :
    (subject g : Text) (s : Store)
    → (keep (in_group []) (match_locked subject s).0 ≡ keep (alone subject) s.subs)
      × (is_empty g ≡ false
          → keep (in_group g) (match_locked subject s).0
            ≡ one_of (group_of subject g s.subs) (turn_of s.rr g))
unfolding match_locked
match_locked_lem subject g s =
    let parted = gather-Parted subject s.subs [] tt in
    let picked = (pick (gather subject s.subs []) s.rr).0 in
    (
      ground (
        arith,
        keep-append (in_group []) (keep (alone subject) s.subs) picked,
        keep-alone subject [] s.subs,
        pick-group [] (gather subject s.subs []) s.rr parted,
        members-gather subject [] s.subs [],
        group_of-nil subject s.subs,
        one_of-nil (turn_of s.rr []),
        members-nil [],
        append-nil (keep (alone subject) s.subs),
      ),
      λ named. ground (
        arith,
        keep-append (in_group g) (keep (alone subject) s.subs) picked,
        keep-alone subject g s.subs,
        pick-group g (gather subject s.subs []) s.rr parted,
        members-gather subject g s.subs [],
        members-nil g,
      ),
    )
