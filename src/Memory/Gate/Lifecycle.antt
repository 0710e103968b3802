-- ===== src/Memory/Gate/Lifecycle.antt =====
-- What Restart, Close and Revoke end and what they leave.
use bytedesk_sdk_dependencie.Prelude.{
  ◌↔◌, ◌⊎◌, ◌++◌, sym, subst, false≢true, text_eq_iff, bytes, ℕ, ◌+◌, ◌<◌, ◌≡◌, ◌≢◌, refl, Bool,
  true, false, not, none, some, List, [], ◌∷◌, In, here, there, Text, word, arith, Bool-cases, inl,
  inr, map,
}
use bytedesk_sdk_dependencie.Bus.Fault.{Fault}
use bytedesk_sdk_dependencie.Bus.Identity.{Identity}
use bytedesk_sdk_dependencie.Memory.Subscription.{Subscription, finish}
use bytedesk_sdk_dependencie.Memory.Subscription.Order.{finish_finished}
use bytedesk_sdk_dependencie.Memory.Gate.{
  Store, Conn, Mounted, alive, connect, restart, revoke, take_ephemeral, keep, is_sub_of,
  finish_mounted, finish_all, withdrawn_fault,
}

-- After Restart each connection of the generation before is dead, whatever it is asked, nothing is
-- mounted, and a new connection is alive.
alive-restart :
    (s : Store) (c : Conn) (number : ℕ) (id : Identity)
    → s.closed ≡ false
    → s.gen + 1 < word
    → c.gen ≡ s.gen
    → (alive (restart s).1 c ≢ none)
      × (((restart s).1.subs ≡ [])
          × (alive (connect number id (restart s).1).1 (connect number id (restart s).1).0 ≡ none))
unfolding alive restart take_ephemeral connect
alive-restart s c number id up room same = (λ e. ground arith, (ground arith, ground arith))

In-cases {ℓ} : {A : Type ℓ} (y x : A) (xs : List A) → In y (x ∷ xs) → (y ≡ x) ⊎ In y xs
In-cases y _ xs here = inl refl
In-cases y x xs (there i) = inr i

module _ {ℓ} {A : Type ℓ} (p : A → Bool) where
  keep-In : (y : A) (xs : List A) → In y (keep p xs) → In y xs × (p y ≡ true)
  unfolding keep
  keep-In y [] i = elim i [ ]
  keep-In y (x ∷ xs) i = elim (Bool-cases (p x)) [
    | inl e ↦
        let j : In y (x ∷ keep p xs) = rw e at i in
        elim (In-cases y x (keep p xs) j) [
          | inl same ↦ rw same (here, e)
          | inr k ↦ let (l, h) = keep-In y xs k in (there l, h)
        ]
    | inr e ↦ let j : In y (keep p xs) = rw e at i in let (l, h) = keep-In y xs j in (there l, h)
  ]

  In-keep : (y : A) (xs : List A) → In y xs → p y ≡ true → In y (keep p xs)
  unfolding keep
  In-keep y [] i h = elim i [ ]
  In-keep y (_ ∷ xs) here h = rw h here
  In-keep y (x ∷ xs) (there i) h = elim (Bool-cases (p x)) [
    | inl e ↦ rw e (there (In-keep y xs i h))
    | inr e ↦ rw e (In-keep y xs i h)
  ]

In-map {ℓ κ} :
    {A : Type ℓ} {B : Type κ} (f : A → B) (x : A) (xs : List A) → In x xs → In (f x) (map f xs)
In-map f x [] i = elim i [ ]
In-map f x (_ ∷ xs) here = here
In-map f x (y ∷ xs) (there i) = there (In-map f x xs i)

map-In {ℓ κ} :
    {A : Type ℓ} {B : Type κ} (f : A → B) (y : B) (xs : List A)
    → In y (map f xs)
    → (x : A) × (In x xs × (y ≡ f x))
map-In f y [] i = elim i [ ]
map-In f y (x ∷ xs) here = (x, (here, refl))
map-In f y (x ∷ xs) (there i) = let (z, (j, e)) = map-In f y xs i in (z, (there j, e))

-- The subscription `n` is `m`, under its number, connection and owner, and is finished.
pub record IsEndOf (m n : Mounted) : Type 0 where
  pub number : n.number ≡ m.number
  pub conn : n.conn ≡ m.conn
  pub owner : n.sub.owner ≡ m.sub.owner
  pub finished : n.sub.finished ≡ true

owner-finish : (f : Fault) (s : Subscription) → (finish (some f) s).owner ≡ s.owner
unfolding finish
owner-finish f s = elim (Bool-cases s.finished) [ inl e ↦ rw e refl | inr e ↦ rw e refl ]

finish_mounted-IsEndOf : (f : Fault) (m : Mounted) → IsEndOf m (finish_mounted f m)
finish_mounted-IsEndOf f m = record {
  number = refl;
  conn = refl;
  owner = owner-finish f m.sub;
  finished = finish_finished (some f) m.sub;
}

is_sub_of_iff :
    (plugin_id : Text) (m : Mounted)
    → (is_sub_of plugin_id m ≡ true) ↔ (m.sub.owner.plugin_id ≡ plugin_id)
is_sub_of_iff plugin_id m = text_eq_iff m.sub.owner.plugin_id plugin_id

-- Revoke hands back an ended one of each subscription that the plugin owns, and of no other. The
-- store keeps exactly the subscriptions of other plugins, each as it was.
pub revoke_lem :
    (plugin_id : Text) (s : Store)
    → ((m : Mounted)
        → In m s.subs
        → m.sub.owner.plugin_id ≡ plugin_id
        → (n : Mounted) × (In n (revoke plugin_id s).0.subs × IsEndOf m n))
      × (((n : Mounted)
            → In n (revoke plugin_id s).0.subs
            → (m : Mounted) × (In m s.subs × ((m.sub.owner.plugin_id ≡ plugin_id) × IsEndOf m n)))
          × ((m : Mounted)
              → In m (revoke plugin_id s).1.subs
                ↔ (In m s.subs × (m.sub.owner.plugin_id ≢ plugin_id))))
unfolding revoke finish_all
revoke_lem plugin_id s =
    let why = withdrawn_fault (bytes "principal " ++ (plugin_id ++ bytes " revoked")) in
    (
      λ m i e. (
        finish_mounted why m,
        (
          In-map (finish_mounted why) m _
              (In-keep (is_sub_of plugin_id) m s.subs i ((is_sub_of_iff plugin_id m).1 e)),
          finish_mounted-IsEndOf why m,
        ),
      ),
      (
        λ n i.
            let (m, (j, e)) = map-In (finish_mounted why) n _ i in
            let (k, h) = keep-In (is_sub_of plugin_id) m s.subs j in
            (
              m,
              (
                k,
                (
                  (is_sub_of_iff plugin_id m).0 h,
                  subst (IsEndOf m) (sym e) (finish_mounted-IsEndOf why m),
                ),
              ),
            ),
        λ m. (
          λ i.
              let (k, h) = keep-In (λ m. not (is_sub_of plugin_id m)) m s.subs i in
              (k, λ e. let own = (is_sub_of_iff plugin_id m).1 e in false≢true (ground arith)),
          λ (i, h).
              In-keep (λ m. not (is_sub_of plugin_id m)) m s.subs i
                (elim (Bool-cases (is_sub_of plugin_id m)) [
                  | inl e ↦ absurd (h ((is_sub_of_iff plugin_id m).0 e))
                  | inr e ↦ rw e refl
                ]),
        ),
      ),
    )
