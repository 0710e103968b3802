-- ===== src/Memory/Consumer/Floor.antt =====
-- The ack floor: how far everything is settled, and that it never passes what is not.
use bytedesk_sdk_dependencie.Prelude.{
  ℕ, zero, suc, ◌+◌, ◌<◌, ◌≡◌, refl, ◌==◌, leb, Bool, true, false, ◌||◌, List, [], ◌∷◌, length, All,
  word, add64, member, delete_seq, member-delete_seq, length-delete_seq, length-delete_seq_le,
  All-delete_seq, seq_delete, subst, ◌∙◌, ◌≢◌, arith, Bool-cases, inl, inr,
}
use bytedesk_sdk_dependencie.Memory.Consumer.{ConsumerState, raise_floor, mark_acked}

-- A sequence number at or below the floor, or acknowledged above it.
unfoldable pub settled : ConsumerState → ℕ → Bool
settled cs s = leb s cs.ack_floor || member s cs.acked

-- No number in play is the last of its word, so that a floor never wraps.
pub record InRange (cs : ConsumerState) : Type 0 where
  pub floor : cs.ack_floor + 1 < word
  pub above : All (λ s. s + 1 < word) cs.acked

All-member : (P : ℕ → Type 0) (s : ℕ) (xs : List ℕ) → All P xs → member s xs ≡ true → P s
unfolding member
All-member P s [] a m = cc
All-member P s (x ∷ xs) a m = elim (Bool-cases (x == s)) [
  | inl e ↦ subst P (ground arith) a.0
  | inr e ↦ All-member P s xs a.1 (ground arith)
]

-- One round of the loop: the floor goes up over a number that was acknowledged.
abbrev up_one : ConsumerState → ConsumerState
up_one cs = record cs {
  ack_floor = add64 cs.ack_floor 1;
  acked = delete_seq (add64 cs.ack_floor 1) cs.acked;
  deliveries = seq_delete (add64 cs.ack_floor 1) cs.deliveries;
}

up_one-InRange :
    (cs : ConsumerState)
    → InRange cs
    → member (add64 cs.ack_floor 1) cs.acked ≡ true
    → InRange (up_one cs)
up_one-InRange cs r m = record {
  floor = All-member (λ s. s + 1 < word) (add64 cs.ack_floor 1) cs.acked r.above m;
  above = All-delete_seq (λ s. s + 1 < word) (add64 cs.ack_floor 1) cs.acked r.above;
}

up_one-settled :
    (cs : ConsumerState) (s : ℕ)
    → InRange cs
    → member (add64 cs.ack_floor 1) cs.acked ≡ true
    → settled (up_one cs) s ≡ settled cs s
unfolding settled
up_one-settled cs s r m =
    let e : add64 cs.ack_floor 1 ≡ cs.ack_floor + 1 = omega (arith, r.floor) in
    ground (arith, e, member-delete_seq s (add64 cs.ack_floor 1) cs.acked)

raise_floor-settled :
    (fuel : ℕ) (cs : ConsumerState) (s : ℕ)
    → InRange cs
    → settled (raise_floor fuel cs) s ≡ settled cs s
unfolding raise_floor
raise_floor-settled zero cs s r = refl
raise_floor-settled (suc fuel) cs s r = elim (Bool-cases (member (add64 cs.ack_floor 1) cs.acked)) [
  | inl m ↦
      rw m
        (raise_floor-settled fuel (up_one cs) s (up_one-InRange cs r m) ∙ up_one-settled cs s r m)
  | inr m ↦ rw m refl
]

raise_floor-InRange : (fuel : ℕ) (cs : ConsumerState) → InRange cs → InRange (raise_floor fuel cs)
unfolding raise_floor
raise_floor-InRange zero cs r = r
raise_floor-InRange (suc fuel) cs r = elim (Bool-cases (member (add64 cs.ack_floor 1) cs.acked)) [
  | inl m ↦ rw m (raise_floor-InRange fuel (up_one cs) (up_one-InRange cs r m))
  | inr m ↦ rw m r
]

-- With more fuel than acknowledged numbers the loop ends by its test.
raise_floor_ends :
    (fuel : ℕ) (cs : ConsumerState)
    → length cs.acked < fuel
    → let cs' = raise_floor fuel cs in member (add64 cs'.ack_floor 1) cs'.acked ≡ false
unfolding raise_floor
raise_floor_ends zero cs h = absurd (omega arith)
raise_floor_ends (suc fuel) cs h = elim (Bool-cases (member (add64 cs.ack_floor 1) cs.acked)) [
  | inl m ↦ rw m (
      raise_floor_ends fuel (up_one cs)
        (omega (arith, length-delete_seq (add64 cs.ack_floor 1) cs.acked m)))
  | inr m ↦ rw m m
]

abbrev noted : ℕ → ConsumerState → ConsumerState
noted seq cs = record cs {
  pending = seq_delete seq cs.pending;
  acked = seq ∷ delete_seq seq cs.acked;
}

noted-InRange :
    (seq : ℕ) (cs : ConsumerState) → InRange cs → seq + 1 < word → InRange (noted seq cs)
noted-InRange seq cs r h = record {
  floor = r.floor;
  above = (h, All-delete_seq (λ s. s + 1 < word) seq cs.acked r.above);
}

pub mark_acked-InRange :
    (seq : ℕ) (cs : ConsumerState) → InRange cs → seq + 1 < word → InRange (mark_acked seq cs)
unfolding mark_acked
mark_acked-InRange seq cs r h = raise_floor-InRange _ (noted seq cs) (noted-InRange seq cs r h)

noted-settled :
    (seq : ℕ) (cs : ConsumerState) (s : ℕ) → settled (noted seq cs) s ≡ (seq == s || settled cs s)
unfolding settled member
noted-settled seq cs s = ground (arith, member-delete_seq s seq cs.acked)

add64_small : (n : ℕ) → n + 1 < word → add64 n 1 ≡ n + 1
add64_small n h = omega arith

-- markAcked settles exactly the number that it is given, whatever was settled before; and the loop
-- leaves the floor as high as it goes, with the number above it not settled.
pub mark_acked_lem :
    (seq : ℕ) (cs : ConsumerState)
    → InRange cs
    → seq + 1 < word
    → ((s : ℕ) → settled (mark_acked seq cs) s ≡ (seq == s || settled cs s))
      × (settled (mark_acked seq cs) ((mark_acked seq cs).ack_floor + 1) ≡ false)
unfolding mark_acked
mark_acked_lem seq cs r h =
    let fuel = suc (suc (length cs.acked)) in
    let r' = noted-InRange seq cs r h in
    let ends =
      raise_floor_ends fuel (noted seq cs) (omega (arith, length-delete_seq_le seq cs.acked)) in
    let top = (raise_floor-InRange fuel (noted seq cs) r').floor in
    (
      λ s. raise_floor-settled fuel (noted seq cs) s r' ∙ noted-settled seq cs s,
      unfold settled in ground (arith, add64_small _ top),
    )

-- A number that is not settled holds the floor below it, whatever else is acknowledged.
floor-lt-unsettled :
    (seq gap : ℕ) (cs : ConsumerState)
    → InRange cs
    → seq + 1 < word
    → seq ≢ gap
    → settled cs gap ≡ false
    → (mark_acked seq cs).ack_floor < gap
floor-lt-unsettled seq gap cs r h n g =
    let e = (mark_acked_lem seq cs r h).0 gap in unfold settled in ground (arith, e, g)
