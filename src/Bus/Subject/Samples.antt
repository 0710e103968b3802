-- ===== src/Bus/Subject/Samples.antt =====
-- Concrete subjects: tokens without wildcards, and an example for each pattern.
use bytedesk_sdk_dependencie.Prelude.{
  ◌≡◌, refl, ◌≢◌, true, false, List, [], ◌∷◌, All, Text, text_eq, text_eq_refl, inl, inr, arith,
  if◌then◌else◌, Bool-cases, Lacks, contains_byte, split, join, split-join, any,
}
use bytedesk_sdk_dependencie.Bus.Subject.{is_wildcard, has_wildcard, match_tokens, tokens}

-- A token of a concrete subject: no wildcard, and no dot in it.
pub record IsConcrete (t : Text) : Type 0 where
  pub plain : is_wildcard t ≡ false
  pub one_token : Lacks b'.' t

abbrev pub letter_a : Text
letter_a = b'a' ∷ []

abbrev pub letter_b : Text
letter_b = b'b' ∷ []

pub letter_a-IsConcrete : IsConcrete letter_a
unfolding text_eq contains_byte
letter_a-IsConcrete = record { plain = refl; one_token = refl }

pub letter_b-IsConcrete : IsConcrete letter_b
unfolding text_eq contains_byte
letter_b-IsConcrete = record { plain = refl; one_token = refl }

-- A token that the pattern token addresses.
unfoldable pub sample_token : Text → Text
sample_token t = if is_wildcard t then letter_a else t

pub sample_token-IsConcrete : (t : Text) → Lacks b'.' t → IsConcrete (sample_token t)
unfolding sample_token
sample_token-IsConcrete t h = elim (Bool-cases (is_wildcard t)) [
  | inl e ↦ rw e letter_a-IsConcrete
  | inr e ↦ rw e (record { plain = e; one_token = h })
]

unfoldable pub sample : List Text → List Text
sample [] = []
sample (t ∷ ts) = sample_token t ∷ sample ts

pub sample-IsConcrete : (ts : List Text) → All (Lacks b'.') ts → All IsConcrete (sample ts)
unfolding sample
sample-IsConcrete [] h = tt
sample-IsConcrete (t ∷ ts) h = (sample_token-IsConcrete t h.0, sample-IsConcrete ts h.1)

pub match_tokens-sample : (ts : List Text) → match_tokens ts (sample ts) ≡ true
unfolding match_tokens sample sample_token
match_tokens-sample [] = refl
match_tokens-sample (t ∷ ts) = ground (arith, match_tokens-sample ts, text_eq_refl t)

pub match_tokens-nil : (pt : List Text) → pt ≢ [] → match_tokens pt [] ≡ false
unfolding match_tokens
match_tokens-nil [] h = absurd (h refl)
match_tokens-nil (t ∷ pt) h = refl

pub any_wildcard-IsConcrete : (st : List Text) → All IsConcrete st → any is_wildcard st ≡ false
unfolding any
any_wildcard-IsConcrete [] h = refl
any_wildcard-IsConcrete (t ∷ st) h = ground (arith, any_wildcard-IsConcrete st h.1, h.0.plain)

pub All-Lacks : (st : List Text) → All IsConcrete st → All (Lacks b'.') st
All-Lacks [] h = tt
All-Lacks (t ∷ st) h = (h.0.one_token, All-Lacks st h.1)

-- Concrete tokens are those of a text without wildcards.
pub concrete_text :
    (t : Text) (st : List Text)
    → All IsConcrete (t ∷ st)
    → (s : Text) × ((tokens s ≡ t ∷ st) × (has_wildcard s ≡ false))
unfolding tokens has_wildcard
concrete_text t st c =
    let e : split b'.' (join b'.' (t ∷ st)) ≡ t ∷ st =
      split-join b'.' t st (All-Lacks (t ∷ st) c) in
    (join b'.' (t ∷ st), (e, rw e (any_wildcard-IsConcrete (t ∷ st) c)))
