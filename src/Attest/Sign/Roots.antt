-- ===== src/Attest/Sign/Roots.antt =====
-- LoadRoots: every root is found under the hash of its own key.
use bytedesk_sdk_dependencie.Prelude.{
  ◌≡◌, ◌≢◌, sym, subst, Option, none, some, List, [], ◌∷◌, true, Text, text_eq_iff, Dict, lookup,
  insert, insert-All, lookup-All, All, arith, Option-cases, inl, inr,
}
use bytedesk_sdk_dependencie.Bus.Msg.{lower}
use bytedesk_sdk_dependencie.Attest.{passed, Crypto, kid, equal_fold}
use bytedesk_sdk_dependencie.Attest.Sign.{RootEntry, decode_public_key, load_entries, load_roots}

module _ (c : Crypto) where
  -- The entry stands under the hash of its key.
  abbrev pub IsKeyed : Text × Text → Type 0
  IsKeyed (k, pub_key) = k ≡ lower (kid c pub_key)

  load_entries-undecoded :
      (out done : Dict Text) (root : RootEntry) (rest : List RootEntry)
      → decode_public_key c root.public_key ≡ none
      → load_entries c out (root ∷ rest) ≢ passed done
  unfolding load_entries
  load_entries-undecoded out done root rest e h = ground arith

  load_entries-decoded :
      (out done : Dict Text) (root : RootEntry) (rest : List RootEntry) (pub_key : Text)
      → decode_public_key c root.public_key ≡ some pub_key
      → load_entries c out (root ∷ rest) ≡ passed done
      → (equal_fold (kid c pub_key) root.kid ≡ true)
        × (load_entries c (insert (lower root.kid) pub_key out) rest ≡ passed done)
  unfolding load_entries
  load_entries-decoded out done root rest pub_key e h = (ground arith, ground arith)

  load_entries-empty : (out done : Dict Text) → load_entries c out [] ≡ passed done → out ≡ done
  unfolding load_entries
  load_entries-empty out done h = ground arith

  load_entries-IsKeyed :
      (out done : Dict Text) (entries : List RootEntry)
      → All IsKeyed out
      → load_entries c out entries ≡ passed done
      → All IsKeyed done
  load_entries-IsKeyed out done [] a h =
      let same : out ≡ done = load_entries-empty out done h in subst (All IsKeyed) same a
  load_entries-IsKeyed out done (root ∷ rest) a h =
      elim (Option-cases (decode_public_key c root.public_key)) [
        | inl e ↦ absurd (load_entries-undecoded out done root rest e h)
        | inr (pub_key, e) ↦
            let (fold, next) = load_entries-decoded out done root rest pub_key e h in
            let keyed = sym ((text_eq_iff (lower (kid c pub_key)) (lower root.kid)).0 fold) in
            load_entries-IsKeyed (insert (lower root.kid) pub_key out) done rest
              (insert-All IsKeyed (lower root.kid) pub_key out a keyed) next
      ]

  load_roots-unread :
      (read : Text → Option (List RootEntry)) (input : Text) (roots : Dict Text)
      → read input ≡ none
      → load_roots c read input ≢ passed roots
  unfolding load_roots
  load_roots-unread read input roots e h = ground arith

  load_roots-read :
      (read : Text → Option (List RootEntry)) (input : Text) (roots : Dict Text)
      (entries : List RootEntry)
      → read input ≡ some entries
      → load_roots c read input ≡ passed roots
      → load_entries c [] entries ≡ passed roots
  unfolding load_roots
  load_roots-read read input roots entries e h = ground arith

  -- A root that is found under a kid in loaded roots is the key that the kid is the hash of.
  pub load_roots-IsKeyed :
      (read : Text → Option (List RootEntry)) (input : Text) (roots : Dict Text) (k pub_key : Text)
      → load_roots c read input ≡ passed roots
      → lookup k roots ≡ some pub_key
      → k ≡ lower (kid c pub_key)
  load_roots-IsKeyed read input roots k pub_key h g = elim (Option-cases (read input)) [
    | inl e ↦ absurd (load_roots-unread read input roots e h)
    | inr (entries, e) ↦
        let all =
          load_entries-IsKeyed [] roots entries tt (load_roots-read read input roots entries e h) in
        lookup-All IsKeyed k pub_key roots all g
  ]
