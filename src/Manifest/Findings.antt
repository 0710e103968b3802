-- ===== src/Manifest/Findings.antt =====
-- Lists of findings without an error.
use bytedesk_sdk_dependencie.Prelude.{
  ◌≡◌, refl, Bool, false, none, List, [], ◌∷◌, ◌++◌, Text, arith,
}
use bytedesk_sdk_dependencie.Manifest.{Diagnostic, finding, is_warning, first_error}
use bytedesk_sdk_dependencie.Manifest.Subjects.{report}

-- No error among the findings.
abbrev pub Clean : List Diagnostic → Type 0
Clean ds = first_error ds ≡ none

pub Clean-append : (xs ys : List Diagnostic) → Clean (xs ++ ys) → Clean xs × Clean ys
unfolding first_error
Clean-append [] ys h = (refl, h)
Clean-append (d ∷ xs) ys h = ground (arith, Clean-append xs ys)

pub Clean-report :
    (test : Bool) (code path : Text)
    → is_warning code ≡ false
    → Clean (report test code path)
    → test ≡ false
unfolding first_error
Clean-report test code path e h = ground arith

pub Clean-finding :
    (code path : Text) (ds : List Diagnostic)
    → is_warning code ≡ false
    → first_error (finding code path ∷ ds) ≡ none
    → ⊥
unfolding first_error
Clean-finding code path ds e h = ground arith
