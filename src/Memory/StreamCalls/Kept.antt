-- ===== src/Memory/StreamCalls/Kept.antt =====
-- What stays true of each stream of a store: it is well formed and held under its own name.
use bytedesk_sdk_dependencie.Prelude.{
  ℕ, ◌+◌, ◌<◌, ◌≡◌, refl, some, [], ◌∷◌, length, Text, text_eq, text_eq_iff, lookup, insert, remove,
  arith, Bool-cases, inl, inr, word, half_word, subst, In, here, there, if_cases,
}
use bytedesk_sdk_dependencie.Bus.Identity.{Identity}
use bytedesk_sdk_dependencie.Memory.Stamp.{Context}
use bytedesk_sdk_dependencie.Memory.Stream.{Stream, expire, trim}
use bytedesk_sdk_dependencie.Memory.Stream.Shrink.{total}
use bytedesk_sdk_dependencie.Memory.Append.{PublishOptions, append_locked, append_live, store_msg}
use bytedesk_sdk_dependencie.Memory.Append.Validity.{IsValid}
use bytedesk_sdk_dependencie.Memory.StreamCalls.{Streams}

-- A stream is well formed and has the name it is held under.
pub record IsKept (name : Text) (st : Stream) : Type 0 where
  pub valid : IsValid st
  pub named : st.spec.name ≡ name

abbrev pub AreKept : Streams → Type 0
AreKept streams = (name : Text) (st : Stream) → In (name, st) streams → IsKept name st

-- Room in every stream for one more message with the body.
abbrev pub HasRoom : Text → Streams → Type 0
HasRoom body streams =
    (name : Text) (st : Stream)
    → In (name, st) streams
    → (st.last_seq + 1 < word) × (total st.msgs + length body < half_word)

pub lookup-In :
    (name : Text) (st : Stream) (streams : Streams)
    → lookup name streams ≡ some st
    → In (name, st) streams
unfolding lookup
lookup-In name st [] h = absurd (ground arith)
lookup-In name st ((at, held) ∷ streams) h = elim (Bool-cases (text_eq at name)) [
  | inl e ↦
      let same : (at, held) ≡ (name, st) = ground (arith, text_eq_iff at name) in
      subst (λ (x : Text × Stream). In x ((at, held) ∷ streams)) same here
  | inr e ↦ there (lookup-In name st streams (ground arith))
]

AreKept-tail : (x : Text × Stream) (streams : Streams) → AreKept (x ∷ streams) → AreKept streams
AreKept-tail x streams kept name st i = kept name st (there i)

pub AreKept-cons :
    (name : Text) (st : Stream) (streams : Streams)
    → IsKept name st
    → AreKept streams
    → AreKept ((name, st) ∷ streams)
AreKept-cons name st streams new kept at held (here) = new
AreKept-cons name st streams new kept at held (there i) = kept at held i

pub insert-AreKept :
    (name : Text) (st : Stream) (streams : Streams)
    → AreKept streams
    → IsKept name st
    → AreKept (insert name st streams)
unfolding insert
insert-AreKept name st [] kept new = AreKept-cons name st [] new kept
insert-AreKept name st ((at, held) ∷ streams) kept new =
    if_cases (λ (s : Streams). AreKept s) (text_eq at name) _ _
      (λ e. AreKept-cons name st streams new (AreKept-tail (at, held) streams kept))
      (λ e.
        AreKept-cons at held (insert name st streams) (kept at held here)
          (insert-AreKept name st streams (AreKept-tail (at, held) streams kept) new))

pub remove-AreKept :
    (name : Text) (streams : Streams) → AreKept streams → AreKept (remove name streams)
unfolding remove
remove-AreKept name [] kept = kept
remove-AreKept name ((at, held) ∷ streams) kept =
    let rest = remove-AreKept name streams (AreKept-tail (at, held) streams kept) in
    if_cases (λ (s : Streams). AreKept s) (text_eq at name) _ _ (λ e. rest)
      (λ e. AreKept-cons at held (remove name streams) (kept at held here) rest)

pub append_locked-spec :
    (ctx : Context) (id : Identity) (now : ℕ) (subject body : Text) (o : PublishOptions)
    (st : Stream)
    → (append_locked ctx id now subject body o st).1.spec ≡ st.spec
unfolding append_locked append_live store_msg expire
append_locked-spec ctx id now subject body o st = ground arith

trim-spec : (st : Stream) → (trim st).spec ≡ st.spec
unfolding trim
trim-spec st = refl
