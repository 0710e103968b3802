-- ===== src/Attest/Digests.antt =====
-- Trimming and lower-casing: what is trimmed or normalized stays as it is.
use bytedesk_sdk_dependencie.Prelude.{
  ℕ, ◌≡◌, refl, sym, ap, ◌∙◌, if◌then◌else◌, Bool-cases, inl, inr, [], ◌∷◌, Text, arith,
}
use bytedesk_sdk_dependencie.Bus.Msg.{lower_byte, lower}
use bytedesk_sdk_dependencie.Bus.Msg.Stamping.{lower-lower}
use bytedesk_sdk_dependencie.Manifest.Words.{is_space, trim_left, trim_right, trim_space}
use bytedesk_sdk_dependencie.Attest.Sign.{normalize_digest}

is_space-lower_byte : (x : ℕ) → is_space (lower_byte x) ≡ is_space x
unfolding lower_byte
is_space-lower_byte x = ground arith

trim_left-lower : (t : Text) → trim_left (lower t) ≡ lower (trim_left t)
unfolding trim_left lower
trim_left-lower [] = refl
trim_left-lower (x ∷ t) = elim (Bool-cases (is_space x)) [
  | inl e ↦ rw (is_space-lower_byte x, e) (trim_left-lower t)
  | inr e ↦ rw (is_space-lower_byte x, e) refl
]

-- What trim_right makes of a byte in front of a trimmed text.
keep : ℕ → Text → Text
keep x [] = if is_space x then [] else x ∷ []
keep x (d ∷ u) = x ∷ d ∷ u

trim_right-keep : (x : ℕ) (t : Text) → trim_right (x ∷ t) ≡ keep x (trim_right t)
unfolding trim_right keep
trim_right-keep x t = elim (trim_right t) [ [] ↦ refl | d ∷ u ↦ refl ]

keep-lower : (x : ℕ) (u : Text) → keep (lower_byte x) (lower u) ≡ lower (keep x u)
unfolding keep lower
keep-lower x [] = ground (arith, is_space-lower_byte x)
keep-lower x (d ∷ u) = refl

trim_left-keep :
    (x : ℕ) (u : Text) → trim_left (keep x u) ≡ (if is_space x then trim_left u else keep x u)
unfolding keep trim_left
trim_left-keep x [] = ground arith
trim_left-keep x (d ∷ u) = ground arith

trim_right-of_keep : (x : ℕ) (u : Text) → trim_right (keep x u) ≡ keep x (trim_right u)
unfolding keep
trim_right-of_keep x [] = unfold trim_right in ground arith
trim_right-of_keep x (d ∷ u) = trim_right-keep x (d ∷ u)

trim_right-lower : (t : Text) → trim_right (lower t) ≡ lower (trim_right t)
unfolding trim_right lower
trim_right-lower [] = refl
trim_right-lower (x ∷ t) =
    trim_right-keep (lower_byte x) (lower t)
    ∙ (ap (keep (lower_byte x)) (trim_right-lower t)
        ∙ (keep-lower x (trim_right t) ∙ ap lower (sym (trim_right-keep x t))))

pub trim_space-lower : (t : Text) → trim_space (lower t) ≡ lower (trim_space t)
unfolding trim_space
trim_space-lower t = ap trim_left (trim_right-lower t) ∙ trim_left-lower (trim_right t)

trim_right-trim_left : (t : Text) → trim_right (trim_left t) ≡ trim_left (trim_right t)
unfolding trim_right trim_left
trim_right-trim_left [] = refl
trim_right-trim_left (x ∷ t) = elim (Bool-cases (is_space x)) [
  | inl e ↦ rw (e, trim_right-keep x t, trim_left-keep x (trim_right t), e) (trim_right-trim_left t)
  | inr e ↦ rw (e, trim_right-keep x t, trim_left-keep x (trim_right t), e) refl
]

trim_left-trim_left : (t : Text) → trim_left (trim_left t) ≡ trim_left t
unfolding trim_left
trim_left-trim_left [] = refl
trim_left-trim_left (x ∷ t) = elim (Bool-cases (is_space x)) [
  | inl e ↦ rw e (trim_left-trim_left t)
  | inr e ↦ rw (e, trim_left, e) refl
]

trim_right-trim_right : (t : Text) → trim_right (trim_right t) ≡ trim_right t
unfolding trim_right
trim_right-trim_right [] = refl
trim_right-trim_right (x ∷ t) =
    ap trim_right (trim_right-keep x t)
    ∙ (trim_right-of_keep x (trim_right t)
        ∙ (ap (keep x) (trim_right-trim_right t) ∙ sym (trim_right-keep x t)))

pub trim_space-trim_space : (t : Text) → trim_space (trim_space t) ≡ trim_space t
unfolding trim_space
trim_space-trim_space t =
    ap trim_left (trim_right-trim_left (trim_right t))
    ∙ (trim_left-trim_left (trim_right (trim_right t)) ∙ ap trim_left (trim_right-trim_right t))

pub normalize_digest-normalize_digest :
    (t : Text) → normalize_digest (normalize_digest t) ≡ normalize_digest t
unfolding normalize_digest
normalize_digest-normalize_digest t =
    ap lower (trim_space-lower (trim_space t))
    ∙ (lower-lower (trim_space (trim_space t)) ∙ ap lower (trim_space-trim_space t))
