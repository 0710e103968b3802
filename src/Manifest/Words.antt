-- ===== src/Manifest/Words.antt =====
-- The functions of package strings that the validation uses, on ASCII texts.
use bytedesk_sdk_dependencie.Prelude.{
  ℕ, ◌==◌, leb, if◌then◌else◌, Bool, false, ◌&&◌, ◌||◌, List, [], ◌∷◌, Text, text_eq, has_prefix,
  contains_byte,
}

abbrev pub is_space : ℕ → Bool
is_space c = (leb 9 c && leb c 13) || c == b' '

unfoldable pub trim_left : Text → Text
trim_left [] = []
trim_left (c ∷ t) = let rest = trim_left t in if is_space c then rest else c ∷ t

unfoldable pub trim_right : Text → Text
trim_right [] = []
trim_right (c ∷ t) = elim (trim_right t) [
  | [] ↦ (if is_space c then [] else c ∷ [])
  | d ∷ u ↦ c ∷ d ∷ u
]

-- strings.TrimSpace
unfoldable pub trim_space : Text → Text
trim_space t = trim_left (trim_right t)

-- strings.ContainsAny
unfoldable pub contains_any : Text → Text → Bool
contains_any [] chars = false
contains_any (c ∷ t) chars = contains_byte c chars || contains_any t chars

-- strings.Contains
unfoldable pub contains_text : Text → Text → Bool
contains_text [] part = has_prefix [] part
contains_text (c ∷ t) part = has_prefix (c ∷ t) part || contains_text t part

-- slices.Contains, and a map[string]bool that is used as a set
unfoldable pub listed : Text → List Text → Bool
listed name [] = false
listed name (x ∷ xs) = text_eq x name || listed name xs
