-- ===== src/Prelude/Seqs.antt =====
-- Go's map[Seq]bool as a list of sequence numbers, and map[Seq]V as an association list.
use Prim.Native.Nat.{ℕ, ◌≤◌, ◌<◌}
use mathlib.Core.Path.{◌≡◌}
use mathlib.Core.Bool.{Bool, true, false, ◌||◌}
use mathlib.Core.Option.{Option, none, some}
use mathlib.Core.List.{List, [], ◌∷◌}
use native.Mathlib.Omega.{arith}
use bytedesk_sdk_dependencie.Prelude.Tests.{◌==◌, if◌then◌else◌, Bool-cases}
use mathlib.Core.Logic.{inl, inr}
use bytedesk_sdk_dependencie.Prelude.Lists.{length, All}

unfoldable pub member : ℕ → List ℕ → Bool
member s [] = false
member s (x ∷ xs) = x == s || member s xs

unfoldable pub delete_seq : ℕ → List ℕ → List ℕ
delete_seq s [] = []
delete_seq s (x ∷ xs) = let rest = delete_seq s xs in if x == s then rest else x ∷ rest

pub member-delete_seq :
    (s x : ℕ) (xs : List ℕ) → member s (delete_seq x xs) ≡ (if x == s then false else member s xs)
unfolding member delete_seq
member-delete_seq s x [] = ground arith
member-delete_seq s x (y ∷ xs) = ground (arith, member-delete_seq s x xs)

pub length-delete_seq_le : (x : ℕ) (xs : List ℕ) → length (delete_seq x xs) ≤ length xs
unfolding delete_seq
length-delete_seq_le x [] = omega arith
length-delete_seq_le x (y ∷ xs) = ground (arith, length-delete_seq_le x xs)

pub length-delete_seq :
    (x : ℕ) (xs : List ℕ) → member x xs ≡ true → length (delete_seq x xs) < length xs
unfolding member delete_seq
length-delete_seq x [] h = cc
length-delete_seq x (y ∷ xs) h = ground (arith, length-delete_seq x xs, length-delete_seq_le x xs)

pub All-delete_seq {κ} : (P : ℕ → Type κ) (x : ℕ) (xs : List ℕ) → All P xs → All P (delete_seq x xs)
unfolding delete_seq
All-delete_seq P x [] a = tt
All-delete_seq P x (y ∷ xs) a = elim (Bool-cases (y == x)) [
  | inl e ↦ rw e (All-delete_seq P x xs a.1)
  | inr e ↦ rw e (a.0, All-delete_seq P x xs a.1)
]

module _ {ℓ} {V : Type ℓ} where
  unfoldable pub seq_get : ℕ → List (ℕ × V) → Option V
  seq_get s [] = none
  seq_get s ((x, v) ∷ m) = if x == s then some v else seq_get s m

  unfoldable pub seq_delete : ℕ → List (ℕ × V) → List (ℕ × V)
  seq_delete s [] = []
  seq_delete s ((x, v) ∷ m) = let rest = seq_delete s m in if x == s then rest else (x, v) ∷ rest

  unfoldable pub seq_set : ℕ → V → List (ℕ × V) → List (ℕ × V)
  seq_set s v [] = (s, v) ∷ []
  seq_set s v ((x, w) ∷ m) = if x == s then (s, v) ∷ m else (x, w) ∷ seq_set s v m

  pub seq_get-seq_delete :
      (s x : ℕ) (m : List (ℕ × V))
      → seq_get s (seq_delete x m) ≡ (if x == s then none else seq_get s m)
  unfolding seq_get seq_delete
  seq_get-seq_delete s x [] = ground arith
  seq_get-seq_delete s x ((y, v) ∷ m) = ground (arith, seq_get-seq_delete s x m)

  pub seq_get-seq_set :
      (s x : ℕ) (v : V) (m : List (ℕ × V))
      → seq_get s (seq_set x v m) ≡ (if x == s then some v else seq_get s m)
  unfolding seq_get seq_set
  seq_get-seq_set s x v [] = ground arith
  seq_get-seq_set s x v ((y, w) ∷ m) = ground (arith, seq_get-seq_set s x v m)
