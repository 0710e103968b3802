-- ===== src/Prelude/Bytes.antt =====
-- Go strings as lists of bytes: comparison, prefix test, splitting and joining.
use Prim.Native.Nat.{ℕ}
use Prim.Native.Char.{code}
use Prim.Native.String.{String}
use mathlib.Core.Path.{◌≡◌, refl, sym, ap, ◌∙◌}
use mathlib.Core.Logic.{◌↔◌, ◌≢◌, ◌⊎◌, inl, inr}
use mathlib.Core.Bool.{Bool, true, false, ◌&&◌, ◌||◌}
use mathlib.Core.List.{List, [], ◌∷◌, ◌++◌}
use native.Mathlib.Omega.{arith}
use bytedesk_sdk_dependencie.Prelude.Tests.{◌==◌, if◌then◌else◌, Bool-cases}
use bytedesk_sdk_dependencie.Prelude.Lists.{All, length}

abbrev pub Text : Type 0
Text = List ℕ

-- The bytes of an ASCII literal. It is shut, so that a literal stands in a goal as one word.
unfoldable pub bytes : String → Text
bytes String.[] = []
bytes (String.◌∷◌ c s) = code c ∷ bytes s

unfoldable pub text_eq : Text → Text → Bool
text_eq [] [] = true
text_eq [] (y ∷ ys) = false
text_eq (x ∷ xs) [] = false
text_eq (x ∷ xs) (y ∷ ys) = (x == y) && text_eq xs ys

pub text_eq_iff : (a b : Text) → (text_eq a b ≡ true) ↔ (a ≡ b)
unfolding text_eq
text_eq_iff [] [] = ground arith
text_eq_iff [] (y ∷ ys) = ground arith
text_eq_iff (x ∷ xs) [] = ground arith
text_eq_iff (x ∷ xs) (y ∷ ys) = ground (arith, text_eq_iff xs ys)

pub text_eq_refl : (a : Text) → text_eq a a ≡ true
text_eq_refl a = (text_eq_iff a a).1 refl

-- strings.HasPrefix
unfoldable pub has_prefix : Text → Text → Bool
has_prefix s [] = true
has_prefix [] (p ∷ ps) = false
has_prefix (c ∷ s) (p ∷ ps) = (c == p) && has_prefix s ps

abbrev push : ℕ → List Text → List Text
push c [] = (c ∷ []) ∷ []
push c (t ∷ ts) = (c ∷ t) ∷ ts

-- strings.Split by a one-byte separator: never empty, and "" gives one empty part.
unfoldable pub split : ℕ → Text → List Text
split sep [] = [] ∷ []
split sep (c ∷ s) = let rest = split sep s in if c == sep then [] ∷ rest else push c rest

-- strings.Join by a one-byte separator
unfoldable pub join : ℕ → List Text → Text
join sep [] = []
join sep (t ∷ []) = t
join sep (t ∷ u ∷ ts) = t ++ sep ∷ join sep (u ∷ ts)

-- Two texts are equal, or the comparison says that they differ.
pub Text-cases : (a b : Text) → (a ≡ b) ⊎ (text_eq a b ≡ false)
Text-cases a b = elim (Bool-cases (text_eq a b)) [
  | inl e ↦ inl ((text_eq_iff a b).0 e)
  | inr e ↦ inr e
]

unfoldable pub contains_byte : ℕ → Text → Bool
contains_byte c [] = false
contains_byte c (x ∷ xs) = x == c || contains_byte c xs

abbrev pub Lacks : ℕ → Text → Type 0
Lacks c t = contains_byte c t ≡ false

pub split-ne-nil : (sep : ℕ) (s : Text) → split sep s ≢ []
unfolding split
split-ne-nil sep [] e = cc
split-ne-nil sep (c ∷ s) e = ground (arith, split-ne-nil sep s)

push-Lacks :
    (sep c : ℕ) (ts : List Text)
    → (c == sep) ≡ false
    → All (Lacks sep) ts
    → All (Lacks sep) (push c ts)
unfolding contains_byte
push-Lacks sep c [] n h = (ground arith, tt)
push-Lacks sep c (t ∷ ts) n h = (ground (arith, h.0), h.1)

-- No part of a split holds the separator.
pub split-Lacks : (sep : ℕ) (s : Text) → All (Lacks sep) (split sep s)
unfolding split contains_byte
split-Lacks sep [] = (refl, tt)
split-Lacks sep (c ∷ s) = elim (Bool-cases (c == sep)) [
  | inl e ↦ rw e (refl, split-Lacks sep s)
  | inr n ↦ rw n (push-Lacks sep c (split sep s) n (split-Lacks sep s))
]

pub split-part :
    (sep : ℕ) (t s : Text)
    → contains_byte sep t ≡ false
    → split sep (t ++ sep ∷ s) ≡ t ∷ split sep s
unfolding split contains_byte
split-part sep [] s h = ground arith
split-part sep (c ∷ t) s h = ground (arith, split-part sep t s)

pub split-whole : (sep : ℕ) (t : Text) → contains_byte sep t ≡ false → split sep t ≡ t ∷ []
unfolding split contains_byte
split-whole sep [] h = refl
split-whole sep (c ∷ t) h = ground (arith, split-whole sep t)

-- Splitting what was joined gives the parts back, if none of them holds the separator.
pub split-join :
    (sep : ℕ) (t : Text) (ts : List Text)
    → All (Lacks sep) (t ∷ ts)
    → split sep (join sep (t ∷ ts)) ≡ t ∷ ts
unfolding join
split-join sep t [] h = split-whole sep t h.0
split-join sep t (u ∷ ts) h = split-part sep t _ h.0 ∙ ap (λ r. t ∷ r) (split-join sep u ts h.1)

pub heads_eq {ℓ} : {A : Type ℓ} (a b : A) (ts us : List A) → a ∷ ts ≡ b ∷ us → (a ≡ b) × (ts ≡ us)
heads_eq a b ts us h = (cc, cc)

join-push :
    (sep c : ℕ) (t : Text) (ts : List Text) → join sep ((c ∷ t) ∷ ts) ≡ c ∷ join sep (t ∷ ts)
unfolding join
join-push sep c t [] = refl
join-push sep c t (u ∷ ts) = refl

join-push_all : (sep c : ℕ) (ts : List Text) → ts ≢ [] → join sep (push c ts) ≡ c ∷ join sep ts
join-push_all sep c [] h = absurd (h refl)
join-push_all sep c (t ∷ ts) h = join-push sep c t ts

join-sep : (sep : ℕ) (ts : List Text) → ts ≢ [] → join sep ([] ∷ ts) ≡ sep ∷ join sep ts
unfolding join
join-sep sep [] h = absurd (h refl)
join-sep sep (t ∷ ts) h = refl

-- Joining the parts of a split gives the text back.
pub join-split : (sep : ℕ) (s : Text) → join sep (split sep s) ≡ s
unfolding split
join-split sep [] = unfold join in refl
join-split sep (c ∷ s) = ground (
  arith,
  join-sep sep (split sep s) (split-ne-nil sep s),
  join-push_all sep c (split sep s) (split-ne-nil sep s),
  join-split sep s,
)

-- A first part without the separator, and what follows it, can be told apart.
pub part_injective :
    (sep : ℕ) (a b s t : Text)
    → Lacks sep a
    → Lacks sep b
    → a ++ sep ∷ s ≡ b ++ sep ∷ t
    → (a ≡ b) × (s ≡ t)
part_injective sep a b s t la lb h =
    let parts : a ∷ split sep s ≡ b ∷ split sep t =
      sym (split-part sep a s la) ∙ (ap (split sep) h ∙ split-part sep b t lb) in
    let (head, tail) = heads_eq a b _ _ parts in
    (head, sym (join-split sep s) ∙ (ap (join sep) tail ∙ join-split sep t))

-- Parts without the separator are told apart by what is joined of them.
pub join_injective :
    (sep : ℕ) (t u : Text) (ts us : List Text)
    → All (Lacks sep) (t ∷ ts)
    → All (Lacks sep) (u ∷ us)
    → join sep (t ∷ ts) ≡ join sep (u ∷ us)
    → t ∷ ts ≡ u ∷ us
join_injective sep t u ts us lt lu h =
    sym (split-join sep t ts lt) ∙ (ap (split sep) h ∙ split-join sep u us lu)

-- Texts of one length, and what follows them, can be told apart.
pub append_injective : (a b s t : Text) → length a ≡ length b → a ++ s ≡ b ++ t → (a ≡ b) × (s ≡ t)
append_injective [] [] s t l h = (refl, h)
append_injective [] (y ∷ b) s t l h = absurd (omega arith)
append_injective (x ∷ a) [] s t l h = absurd (omega arith)
append_injective (x ∷ a) (y ∷ b) s t l h =
    let (tails, rest) = append_injective a b s t (omega arith) cc in (cc, rest)
