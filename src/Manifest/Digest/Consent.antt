-- ===== src/Manifest/Digest/Consent.antt =====
-- When GrantsDigest hashes one text of two manifests: exactly when the lists of texts that it frames are
-- the same up to order. The texts of records are those of join; they tell records apart where no
-- field holds a separator (the module Records).
use mathlib.Core.List.{Perm}
use bytedesk_sdk_dependencie.Prelude.{
  ◌<◌, ◌≡◌, ◌↔◌, refl, sym, ap, ◌∙◌, List, [], ◌∷◌, ◌++◌, map, All, length, Text, bytes, word,
  ltb→lt,
}
use bytedesk_sdk_dependencie.Manifest.{Manifest}
use bytedesk_sdk_dependencie.Manifest.Digest.{
  framed, section, sections, all_sections, grants_digest_algorithm, grants_text, service_text,
  stream_text, kv_text, object_text,
}
use bytedesk_sdk_dependencie.Manifest.Digest.Framing.{
  Fits, framed_injective, section_injective, section-eq,
}

-- The sizes of a list and of its texts are numbers of 64 bits.
abbrev pub AreSized : List Text → Type 0
AreSized ts = (length ts < word) × All Fits ts

pub record IsSized (m : Manifest) : Type 0 where
  pub publish : AreSized (m.permissions.publish)
  pub request : AreSized (m.permissions.request)
  pub subscribe : AreSized (m.permissions.subscribe)
  pub serves : AreSized (map service_text m.serves)
  pub streams : AreSized (map stream_text m.streams)
  pub kv : AreSized (map kv_text m.kv)
  pub objects : AreSized (map object_text m.objects)
  pub needs : AreSized (m.needs)
  pub capabilities : AreSized (m.capabilities)

-- The nine lists of texts of the two manifests are the same, in whatever order.
pub record HaveSameTexts (m n : Manifest) : Type 0 where
  pub publish : Perm (m.permissions.publish) (n.permissions.publish)
  pub request : Perm (m.permissions.request) (n.permissions.request)
  pub subscribe : Perm (m.permissions.subscribe) (n.permissions.subscribe)
  pub serves : Perm (map service_text m.serves) (map service_text n.serves)
  pub streams : Perm (map stream_text m.streams) (map stream_text n.streams)
  pub kv : Perm (map kv_text m.kv) (map kv_text n.kv)
  pub objects : Perm (map object_text m.objects) (map object_text n.objects)
  pub needs : Perm (m.needs) (n.needs)
  pub capabilities : Perm (m.capabilities) (n.capabilities)

algorithm-Fits : Fits grants_digest_algorithm
unfolding grants_digest_algorithm bytes
algorithm-Fits = ltb→lt (length grants_digest_algorithm) word refl

-- Sections of fitting labels and sizes.
abbrev SectionFits : Text × List Text → Type 0
SectionFits (label, values) = Fits label × AreSized values

-- Lists of sections under the same labels, with the same values in whatever order.
abbrev SameSections : List (Text × List Text) → List (Text × List Text) → Type 0
SameSections [] [] = Unit
SameSections [] (y ∷ ys) = ⊥
SameSections (x ∷ xs) [] = ⊥
SameSections ((label, vs) ∷ xs) ((label', ws) ∷ ys) =
    (label ≡ label') × Perm vs ws × SameSections xs ys

-- The same labels stand in both lists.
abbrev SameLabels : List (Text × List Text) → List (Text × List Text) → Type 0
SameLabels [] [] = Unit
SameLabels [] (y ∷ ys) = ⊥
SameLabels (x ∷ xs) [] = ⊥
SameLabels ((label, vs) ∷ xs) ((label', ws) ∷ ys) = (label ≡ label') × SameLabels xs ys

all_sections_injective :
    (xs ys : List (Text × List Text))
    → SameLabels xs ys
    → All SectionFits xs
    → All SectionFits ys
    → all_sections xs ≡ all_sections ys
    → SameSections xs ys
unfolding all_sections
all_sections_injective [] [] l fx fy h = tt
all_sections_injective [] (y ∷ ys) l fx fy h = l
all_sections_injective (x ∷ xs) [] l fx fy h = l
all_sections_injective ((label, vs) ∷ xs) ((label', ws) ∷ ys) (same, l) ((fl, (lv, fv)), fx)
      ((_, (lw, fw)), fy) h =
    let there : section label vs ++ all_sections xs ≡ section label ws ++ all_sections ys =
      h ∙ ap (λ k. section k ws ++ all_sections ys) (sym same) in
    let (p, rest) = section_injective label vs ws _ _ fl lv lw fv fw there in
    (same, p, all_sections_injective xs ys l fx fy rest)

all_sections-eq :
    (xs ys : List (Text × List Text)) → SameSections xs ys → all_sections xs ≡ all_sections ys
unfolding all_sections
all_sections-eq [] [] s = refl
all_sections-eq [] (y ∷ ys) s = absurd s
all_sections-eq (x ∷ xs) [] s = absurd s
all_sections-eq ((label, vs) ∷ xs) ((label', ws) ∷ ys) (same, p, s) =
    let first : section label vs ≡ section label' ws =
      ap (λ k. section k vs) same ∙ section-eq label' vs ws p in
    rw (first, all_sections-eq xs ys s) refl

sections-SameLabels : (m n : Manifest) → SameLabels (sections m) (sections n)
unfolding sections
sections-SameLabels m n = (refl, (refl, (refl, (refl, (refl, (refl, (refl, (refl, (refl, tt)))))))))

sections_fit : (m : Manifest) → IsSized m → All SectionFits (sections m)
unfolding sections bytes
sections_fit m s = (
  (ltb→lt (length (bytes "publish")) word refl, s.publish),
  (
    (ltb→lt (length (bytes "request")) word refl, s.request),
    (
      (ltb→lt (length (bytes "subscribe")) word refl, s.subscribe),
      (
        (ltb→lt (length (bytes "serves")) word refl, s.serves),
        (
          (ltb→lt (length (bytes "streams")) word refl, s.streams),
          (
            (ltb→lt (length (bytes "kv")) word refl, s.kv),
            (
              (ltb→lt (length (bytes "objects")) word refl, s.objects),
              (
                (ltb→lt (length (bytes "needs")) word refl, s.needs),
                ((ltb→lt (length (bytes "capabilities")) word refl, s.capabilities), tt),
              ),
            ),
          ),
        ),
      ),
    ),
  ),
)

HaveSameTexts-iff : (m n : Manifest) → SameSections (sections m) (sections n) ↔ HaveSameTexts m n
unfolding sections
HaveSameTexts-iff m n = (
  λ s. record {
    publish = s.1;
    request = s.2.1;
    subscribe = s.2.2.1;
    serves = s.2.2.2.1;
    streams = s.2.2.2.2.1;
    kv = s.2.2.2.2.2.1;
    objects = s.2.2.2.2.2.2.1;
    needs = s.2.2.2.2.2.2.2.1;
    capabilities = s.2.2.2.2.2.2.2.2.1;
  },
  λ a. (
    refl,
    a.publish,
    (
      refl,
      a.request,
      (
        refl,
        a.subscribe,
        (
          refl,
          a.serves,
          (
            refl,
            a.streams,
            (refl, a.kv, (refl, a.objects, (refl, a.needs, (refl, a.capabilities, tt)))),
          ),
        ),
      ),
    ),
  ),
)

-- The hashed texts of two manifests whose lists and texts have sizes of 64 bits are equal exactly when
-- each of the nine lists of texts is the same up to order: permissions, needs and capabilities as they
-- are, and services, streams, buckets and object stores as the joined texts of their records.
pub grants_text_iff :
    (m n : Manifest) → IsSized m → IsSized n → (grants_text m ≡ grants_text n) ↔ HaveSameTexts m n
unfolding grants_text
grants_text_iff m n sm sn = (
  λ h.
      let (_, rest) =
        framed_injective grants_digest_algorithm grants_digest_algorithm _ _ algorithm-Fits
          algorithm-Fits h in
      (HaveSameTexts-iff m n).0 (
        all_sections_injective (sections m) (sections n) (sections-SameLabels m n)
          (sections_fit m sm) (sections_fit n sn) rest),
  λ a.
      ap (λ r. framed grants_digest_algorithm ++ r)
        (all_sections-eq (sections m) (sections n) ((HaveSameTexts-iff m n).1 a)),
)
