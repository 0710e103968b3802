-- ===== src/Prelude/Maps.antt =====
-- Go's map[string]V as an association list; what a loop over it sees is the list's order, and no
-- theorem depends on that order.
use mathlib.Core.Path.{◌≡◌, refl, subst}
use mathlib.Core.Logic.{inl, inr}
use mathlib.Core.Option.{Option, none, some}
use mathlib.Core.List.{List, [], ◌∷◌}
use native.Mathlib.Omega.{arith}
use bytedesk_sdk_dependencie.Prelude.Tests.{if◌then◌else◌, if_cases, Bool-cases}
use bytedesk_sdk_dependencie.Prelude.Lists.{All}
use bytedesk_sdk_dependencie.Prelude.Bytes.{Text, text_eq, text_eq_iff}

abbrev pub Dict {ℓ} : Type ℓ → Type ℓ
Dict V = List (Text × V)

module _ {ℓ} {V : Type ℓ} where
  -- v, ok := m[key]
  unfoldable pub lookup : Text → Dict V → Option V
  lookup key [] = none
  lookup key ((at, held) ∷ rest) = if text_eq at key then some held else lookup key rest

  -- m[key] = new
  unfoldable pub insert : Text → V → Dict V → Dict V
  insert key new [] = (key, new) ∷ []
  insert key new ((at, held) ∷ rest) =
      if text_eq at key then (key, new) ∷ rest else (at, held) ∷ insert key new rest

  -- delete(m, key): every entry of the key goes, so that none is left to be found.
  unfoldable pub remove : Text → Dict V → Dict V
  remove key [] = []
  remove key ((at, held) ∷ rest) =
      let others = remove key rest in if text_eq at key then others else (at, held) ∷ others

  pub lookup-insert :
      (key j : Text) (new : V) (entries : Dict V)
      → lookup j (insert key new entries) ≡ (if text_eq key j then some new else lookup j entries)
  unfolding lookup insert
  lookup-insert key j new [] = refl
  lookup-insert key j new ((at, held) ∷ rest) =
      let one = text_eq_iff at key in
      let two = text_eq_iff at j in
      ground (arith, text_eq_iff key j, one, two, lookup-insert key j new rest)

  pub lookup-remove :
      (key j : Text) (entries : Dict V)
      → lookup j (remove key entries) ≡ (if text_eq key j then none else lookup j entries)
  unfolding lookup remove
  lookup-remove key j [] = ground arith
  lookup-remove key j ((at, held) ∷ rest) =
      let one = text_eq_iff at key in
      let two = text_eq_iff at j in
      ground (arith, text_eq_iff key j, one, two, lookup-remove key j rest)

module _ {ℓ κ} {V : Type ℓ} (P : Text × V → Type κ) where
  pub insert-All :
      (key : Text) (new : V) (entries : Dict V)
      → All P entries
      → P (key, new)
      → All P (insert key new entries)
  unfolding insert
  insert-All key new [] all one = (one, tt)
  insert-All key new ((at, held) ∷ rest) (first, others) one =
      if_cases (λ (d : Dict V). All P d) (text_eq at key) _ _ (λ e. (one, others))
        (λ e. (first, insert-All key new rest others one))

  pub remove-All : (key : Text) (entries : Dict V) → All P entries → All P (remove key entries)
  unfolding remove
  remove-All key [] all = tt
  remove-All key ((at, held) ∷ rest) (first, others) =
      let kept = remove-All key rest others in
      if_cases (λ (d : Dict V). All P d) (text_eq at key) _ _ (λ e. kept) (λ e. (first, kept))

  pub lookup-All :
      (key : Text) (held : V) (entries : Dict V)
      → All P entries
      → lookup key entries ≡ some held
      → P (key, held)
  unfolding lookup
  lookup-All key held [] all h = absurd (ground arith)
  lookup-All key held ((at, first) ∷ rest) (one, others) h = elim (Bool-cases (text_eq at key)) [
    | inl e ↦
        let here : at ≡ key = (text_eq_iff at key).0 e in
        let same : first ≡ held = ground arith in
        subst (λ k. P (k, held)) here (subst (λ v. P (at, v)) same one)
    | inr e ↦ lookup-All key held rest others (ground arith)
  ]

pub ruleset dict_laws = (lookup-insert, lookup-remove)
