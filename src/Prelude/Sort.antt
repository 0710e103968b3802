-- ===== src/Prelude/Sort.antt =====
-- Go's order on strings, and sort.Strings as what it answers: the ascending rearrangement.
use Prim.Native.Nat.{suc}
use mathlib.Core.Path.{◌≡◌, refl, sym, ap, ◌∙◌}
use mathlib.Core.Logic.{inl, inr}
use mathlib.Core.Bool.{Bool, true, false, ◌&&◌, ◌||◌}
use mathlib.Core.List.{List, [], ◌∷◌, Perm, foldr}
use mathlib.Core.List.Perm
use native.Mathlib.Omega.{arith}
use bytedesk_sdk_dependencie.Prelude.Tests.{◌==◌, ltb, if◌then◌else◌, if_cases, Bool-cases}
use bytedesk_sdk_dependencie.Prelude.Lists.{All, length}
use bytedesk_sdk_dependencie.Prelude.Bytes.{Text}

-- a <= b on strings, byte by byte
unfoldable pub text_leb : Text → Text → Bool
text_leb [] b = true
text_leb (x ∷ a) [] = false
text_leb (x ∷ a) (y ∷ b) = ltb x y || ((x == y) && text_leb a b)

pub text_leb_refl : (a : Text) → text_leb a a ≡ true
unfolding text_leb
text_leb_refl [] = refl
text_leb_refl (x ∷ a) = ground (arith, text_leb_refl a)

pub text_leb_total : (a b : Text) → text_leb a b ≡ false → text_leb b a ≡ true
unfolding text_leb
text_leb_total [] b h = ground arith
text_leb_total (x ∷ a) [] h = refl
text_leb_total (x ∷ a) (y ∷ b) h = ground (arith, text_leb_total a b)

pub text_leb_trans :
    (a b c : Text) → text_leb a b ≡ true → text_leb b c ≡ true → text_leb a c ≡ true
unfolding text_leb
text_leb_trans [] b c h g = refl
text_leb_trans (x ∷ a) [] c h g = absurd (ground arith)
text_leb_trans (x ∷ a) (y ∷ b) [] h g = absurd (ground arith)
text_leb_trans (x ∷ a) (y ∷ b) (z ∷ c) h g = ground (arith, text_leb_trans a b c)

pub text_leb_antisymm : (a b : Text) → text_leb a b ≡ true → text_leb b a ≡ true → a ≡ b
unfolding text_leb
text_leb_antisymm [] [] h g = refl
text_leb_antisymm [] (y ∷ b) h g = absurd (ground arith)
text_leb_antisymm (x ∷ a) [] h g = absurd (ground arith)
text_leb_antisymm (x ∷ a) (y ∷ b) h g =
    let heads : x ≡ y = ground arith in
    let left : text_leb a b ≡ true = ground arith in
    let right : text_leb b a ≡ true = ground arith in
    let tails = text_leb_antisymm a b left right in cc

unfoldable pub insert_text : Text → List Text → List Text
insert_text t [] = t ∷ []
insert_text t (u ∷ us) =
    let rest = insert_text t us in if text_leb t u then t ∷ u ∷ us else u ∷ rest

-- sort.Strings and slices.Sort of strings
unfoldable pub sort_texts : List Text → List Text
sort_texts ts = foldr insert_text [] ts

insert_text_before :
    (s t : Text) (us : List Text)
    → text_leb s t ≡ true
    → text_leb t s ≡ false
    → insert_text s (insert_text t us) ≡ insert_text t (insert_text s us)
unfolding insert_text
insert_text_before s t [] h g = rw (h, g) refl
insert_text_before s t (u ∷ us) h g =
    let rest = insert_text_before s t us h g in
    ground (
      arith,
      rest,
      text_leb_trans s t u h,
      text_leb_total s u,
      text_leb_total t u,
      text_leb_trans t u s,
    )

insert_text_comm :
    (s t : Text) (us : List Text)
    → insert_text s (insert_text t us) ≡ insert_text t (insert_text s us)
insert_text_comm s t us = elim (Bool-cases (text_leb s t)) [
  | inr n ↦ sym (insert_text_before t s us (text_leb_total s t n) n)
  | inl h ↦ elim (Bool-cases (text_leb t s)) [
    | inr n ↦ insert_text_before s t us h n
    | inl g ↦
        let same = text_leb_antisymm s t h g in
        ap (λ r. insert_text r (insert_text t us)) same
        ∙ ap (λ r. insert_text t (insert_text r us)) (sym same)
  ]
]

texts_set : IsSet (List Text)
texts_set = hlevel

-- Sorting forgets the order: rearranged lists are sorted to the same list.
pub sort_texts-eq : {ts us : List Text} → Perm ts us → sort_texts ts ≡ sort_texts us
unfolding sort_texts
sort_texts-eq p = Perm.foldr-eq texts_set insert_text insert_text_comm p []

pub Perm-insert_text : (t : Text) (us : List Text) → Perm (insert_text t us) (t ∷ us)
unfolding insert_text
Perm-insert_text t [] = Perm.rfl
Perm-insert_text t (u ∷ us) = elim (Bool-cases (text_leb t u)) [
  | inl h ↦ rw h Perm.rfl
  | inr h ↦ rw h (Perm.trans (Perm.cons u (Perm-insert_text t us)) (Perm.swap t u us))
]

-- What is sorted is a rearrangement of what was given.
pub Perm-sort_texts : (ts : List Text) → Perm (sort_texts ts) ts
unfolding sort_texts
Perm-sort_texts [] = Perm.rfl
Perm-sort_texts (t ∷ ts) = Perm.trans (Perm-insert_text t _) (Perm.cons t (Perm-sort_texts ts))

pub length-insert_text : (t : Text) (us : List Text) → length (insert_text t us) ≡ suc (length us)
unfolding insert_text
length-insert_text t [] = refl
length-insert_text t (u ∷ us) = ground (arith, length-insert_text t us)

pub length-sort_texts : (ts : List Text) → length (sort_texts ts) ≡ length ts
unfolding sort_texts
length-sort_texts [] = refl
length-sort_texts (t ∷ ts) = length-insert_text t _ ∙ ap suc (length-sort_texts ts)

module _ {κ} (P : Text → Type κ) where
  insert_text-All : (t : Text) (us : List Text) → P t → All P us → All P (insert_text t us)
  unfolding insert_text
  insert_text-All t [] p a = (p, tt)
  insert_text-All t (u ∷ us) p a =
      let rest = insert_text-All t us p a.1 in
      if_cases (All P) (text_leb t u) _ _ (λ e. (p, a)) (λ e. (a.0, rest))

  pub sort_texts-All : (ts : List Text) → All P ts → All P (sort_texts ts)
  unfolding sort_texts
  sort_texts-All [] a = tt
  sort_texts-All (t ∷ ts) a = insert_text-All t _ a.0 (sort_texts-All ts a.1)
