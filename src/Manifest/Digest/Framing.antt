-- ===== src/Manifest/Digest/Framing.antt =====
-- The framing of digest.go can be read back: equal texts were written from equal values.
use mathlib.Core.List.{Perm}
use mathlib.Core.List.Perm
use bytedesk_sdk_dependencie.Prelude.{
  ◌<◌, ◌≡◌, refl, sym, ap, ◌∙◌, subst, List, [], ◌∷◌, ◌++◌, append_assoc, All, length, Text,
  append_injective, part_injective, heads_eq, format_uint, format_uint-Lacks, format_uint_injective,
  word, sort_texts, sort_texts-eq, Perm-sort_texts, length-sort_texts, sort_texts-All,
  length-format_uint, arith,
}
use bytedesk_sdk_dependencie.Manifest.Digest.{framed, framed_all, section}

-- The lengths that are printed are numbers of 64 bits.
abbrev pub Fits : Text → Type 0
Fits t = length t < word

framed-append : (a s : Text) → framed a ++ s ≡ format_uint (length a) ++ (b':' ∷ (a ++ (b':' ∷ s)))
unfolding framed
framed-append a s =
    append_assoc (format_uint (length a)) (b':' ∷ (a ++ (b':' ∷ []))) s
    ∙ ap (λ r. format_uint (length a) ++ (b':' ∷ r)) (append_assoc a (b':' ∷ []) s)

-- A framed value, and what follows it, can be told apart.
pub framed_injective :
    (a b s t : Text) → Fits a → Fits b → framed a ++ s ≡ framed b ++ t → (a ≡ b) × (s ≡ t)
framed_injective a b s t fa fb h =
    let lacks_a = format_uint-Lacks b':' (length a) (omega arith) in
    let lacks_b = format_uint-Lacks b':' (length b) (omega arith) in
    let (printed, bodies) =
      part_injective b':' _ _ _ _ lacks_a lacks_b
        (sym (framed-append a s) ∙ (h ∙ framed-append b t)) in
    let lengths = format_uint_injective (length a) (length b) fa fb printed in
    let (values, tails) = append_injective a b _ _ lengths bodies in
    (values, (heads_eq b':' b':' s t tails).1)

framed_all_injective :
    (ts us : List Text) (s t : Text)
    → length ts ≡ length us
    → All Fits ts
    → All Fits us
    → framed_all ts ++ s ≡ framed_all us ++ t
    → (ts ≡ us) × (s ≡ t)
unfolding framed_all
framed_all_injective [] [] s t l ft fu h = (refl, h)
framed_all_injective [] (u ∷ us) s t l ft fu h = absurd (omega arith)
framed_all_injective (x ∷ ts) [] s t l ft fu h = absurd (omega arith)
framed_all_injective (x ∷ ts) (u ∷ us) s t l ft fu h =
    let whole : framed x ++ (framed_all ts ++ s) ≡ framed u ++ (framed_all us ++ t) =
      sym (append_assoc (framed x) (framed_all ts) s)
      ∙ (h ∙ append_assoc (framed u) (framed_all us) t) in
    let (first, others) = framed_injective x u _ _ ft.0 fu.0 whole in
    let (rest, tail) = framed_all_injective ts us s t (omega arith) ft.1 fu.1 others in (cc, tail)

section-append :
    (label : Text) (vs : List Text) (s : Text)
    → section label vs ++ s
      ≡ framed label ++ (framed (format_uint (length vs)) ++ (framed_all (sort_texts vs) ++ s))
unfolding section
section-append label vs s =
    append_assoc (framed label) (framed (format_uint (length vs)) ++ framed_all (sort_texts vs)) s
    ∙ ap (λ r. framed label ++ r)
        (append_assoc (framed (format_uint (length vs))) (framed_all (sort_texts vs)) s)

pub sort_texts-Perm : (vs ws : List Text) → sort_texts vs ≡ sort_texts ws → Perm vs ws
sort_texts-Perm vs ws h =
    Perm.trans (Perm.symm (Perm-sort_texts vs))
      (subst (λ l. Perm l ws) (sym h) (Perm-sort_texts ws))

-- A section, and what follows it, can be told apart, up to the order of its values.
pub section_injective :
    (label : Text) (vs ws : List Text) (s t : Text)
    → Fits label
    → length vs < word
    → length ws < word
    → All Fits vs
    → All Fits ws
    → section label vs ++ s ≡ section label ws ++ t
    → Perm vs ws × (s ≡ t)
section_injective label vs ws s t fl lv lw fv fw h =
    let (_, h1) =
      framed_injective label label _ _ fl fl
        (sym (section-append label vs s) ∙ (h ∙ section-append label ws t)) in
    let (counts, h2) =
      framed_injective (format_uint (length vs)) (format_uint (length ws)) _ _
        (omega (arith, length-format_uint (length vs)))
        (omega (arith, length-format_uint (length ws))) h1 in
    let same = format_uint_injective (length vs) (length ws) lv lw counts in
    let (sorted, tails) =
      framed_all_injective (sort_texts vs) (sort_texts ws) s t
        (length-sort_texts vs ∙ (same ∙ sym (length-sort_texts ws))) (sort_texts-All Fits vs fv)
        (sort_texts-All Fits ws fw) h2 in
    (sort_texts-Perm vs ws sorted, tails)

-- Rearranged values make the same section.
pub section-eq :
    (label : Text) (vs ws : List Text) → Perm vs ws → section label vs ≡ section label ws
unfolding section
section-eq label vs ws p =
    let counts : length vs ≡ length ws =
      sym (length-sort_texts vs) ∙ (ap length (sort_texts-eq p) ∙ length-sort_texts ws) in
    rw (section, counts, sort_texts-eq p) refl
