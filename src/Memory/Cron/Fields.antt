-- ===== src/Memory/Cron/Fields.antt =====
-- How the loops of fillField in v2/bus/memory/cron.go mark the numbers of the items that are read.
use native.Mathlib.Nat.{mod-eq-sub-mod, mod-eq_of_lt}
use bytedesk_sdk_dependencie.Prelude.{
  ℕ, zero, suc, ◌+◌, ◌-◌, ◌%◌, ◌≤◌, ◌<◌, ◌≡◌, sym, ap, subst, ◌∙◌, ◌==◌, ltb, leb, Bool, true,
  false, ◌&&◌, ◌||◌, none, some, List, [], ◌∷◌, Text, split, text_eq, bytes, is_empty, arith,
  Option-cases, Bool-cases, leb→le, inl, inr,
}
use bytedesk_sdk_dependencie.Prelude.Int.{ℤ, pos, negsuc}
use bytedesk_sdk_dependencie.Memory.Cron.{
  Field, Marks, unmarked, fold, mark, fill_run, Item, read_item, fill_item, fill_parts, fill_field,
  in_order, read_base, cut_at, atoi,
}

-- Every step-th number from lo to hi.
unfoldable pub on_run : ℕ → ℕ → ℕ → ℕ → Bool
on_run lo hi step k = (leb lo k && leb k hi) && ((k - lo) % step == 0)

unfoldable pub says_item : Field → Item → ℕ → Bool
says_item f (Item.one n) k = k == fold f n
says_item f (Item.span lo hi step) k = on_run lo hi step k

-- A part that does not parse says nothing.
unfoldable pub says_part : Field → Text → ℕ → Bool
says_part f part k = elim (read_item f part) [ none ↦ false | some item ↦ says_item f item k ]

says_parts : Field → List Text → ℕ → Bool
says_parts f [] k = false
says_parts f (part ∷ parts) k = says_part f part k || says_parts f parts k

-- A field whose range lies in its set, and where a number that is folded lies outside of it.
pub record IsField (f : Field) : Type 0 where
  pub inside : f.max < f.len
  pub folded : f.folds ≡ true → f.max < 7

mark_lem :
    (f : Field) (n k : ℕ) (s s' : Marks) → mark f n s ≡ some s' → s' k ≡ (k == fold f n || s k)
unfolding mark
mark_lem f n k s s' h =
    elim (Bool-cases ((ltb (fold f n) f.min || ltb f.max (fold f n)) || leb f.len (fold f n))) [
      | inl e ↦ absurd (ground arith)
      | inr e ↦
          let same : (λ (j : ℕ). j == fold f n || s j) ≡ s' = ground arith in
          ap (λ (m : Marks). m k) (sym same)
    ]

on_run-next :
    (n hi step k : ℕ)
    → n ≤ hi
    → (on_run (n + suc step) hi (suc step) k || k == n) ≡ on_run n hi (suc step) k
unfolding on_run
on_run-next n hi step k le = elim (Bool-cases (leb (n + suc step) k)) [
  | inl e ↦
      let less : k - n - suc step ≡ k - (n + suc step) = omega arith in
      let past : (k - n) % suc step ≡ (k - (n + suc step)) % suc step =
        mod-eq-sub-mod (omega (arith, leb→le (n + suc step) k e)) ∙ ap (λ m. m % suc step) less in
      ground (arith, past)
  | inr e ↦ elim (Bool-cases (leb n k)) [
    | inl f ↦
        let near : (k - n) % suc step ≡ k - n = mod-eq_of_lt (ground arith) in ground (arith, near)
    | inr f ↦ ground arith
  ]
]

fill_run_lem :
    (fuel : ℕ) (f : Field) (n hi step k : ℕ) (s s' : Marks)
    → IsField f
    → hi ≤ f.max
    → hi < n + fuel
    → fill_run fuel f n hi (suc step) s ≡ some s'
    → s' k ≡ (on_run n hi (suc step) k || s k)
unfolding fill_run
fill_run_lem zero f n hi step k s s' w top enough h =
    let same : s ≡ s' = ground arith in
    let none_left : on_run n hi (suc step) k ≡ false = unfold on_run in ground arith in
    rw (none_left) (ap (λ (m : Marks). m k) (sym same))
fill_run_lem (suc fuel) f n hi step k s s' w top enough h = elim (Bool-cases (leb n hi)) [
  | inr e ↦
      let same : s ≡ s' = ground arith in
      let none_left : on_run n hi (suc step) k ≡ false = unfold on_run in ground arith in
      rw (none_left) (ap (λ (m : Marks). m k) (sym same))
  | inl e ↦ elim (Option-cases (mark f n s)) [
    | inl m ↦ absurd (ground arith)
    | inr (t, m) ↦
        let rest : fill_run fuel f (n + suc step) hi (suc step) t ≡ some s' = ground arith in
        let self : fold f n ≡ n = unfold fold in ground (arith, w.folded) in
        ground (
          arith,
          fill_run_lem fuel f (n + suc step) hi step k t s' w top (omega arith) rest,
          mark_lem f n k s t m,
          on_run-next n hi step k (leb→le n hi e),
        )
  ]
]

-- A range that is read has a step of one at least.
abbrev Stepped : Item → Type 0
Stepped (Item.one n) = Unit
Stepped (Item.span lo hi step) = 1 ≤ step

in_order-Stepped :
    (f : Field) (step : ℕ) (x y : ℤ) (item : Item)
    → in_order f (suc step) x y ≡ some item
    → Stepped item
unfolding in_order
in_order-Stepped f step (pos x) (pos y) (Item.one n) h = tt
in_order-Stepped f step (pos x) (pos y) (Item.span lo hi s) h = ground arith
in_order-Stepped f step (pos x) (negsuc y) item h = absurd (ground arith)
in_order-Stepped f step (negsuc x) y item h = absurd (ground arith)

read_base-Stepped :
    (f : Field) (part : Text) (step : ℕ) (item : Item)
    → read_base f part (suc step) ≡ some item
    → Stepped item
unfolding read_base
read_base-Stepped f part step (Item.one n) h = tt
read_base-Stepped f part step (Item.span lo hi s) h = elim (Bool-cases (text_eq part (bytes "*"))) [
  | inl e ↦ ground arith
  | inr e ↦ elim (Option-cases (cut_at b'-' part)) [
    | inl c ↦ elim (Option-cases (atoi part)) [
      | inl n ↦ absurd (ground arith)
      | inr (pos n, r) ↦ absurd (ground arith)
      | inr (negsuc n, r) ↦ absurd (ground arith)
    ]
    | inr ((a, b), c) ↦ elim (Option-cases (atoi a)) [
      | inl n ↦ absurd (ground arith)
      | inr (x, r) ↦ elim (Option-cases (atoi b)) [
        | inl n ↦ absurd (ground arith)
        | inr (y, q) ↦ in_order-Stepped f step x y (Item.span lo hi s) (ground arith)
      ]
    ]
  ]
]

read_item-Stepped :
    (f : Field) (part : Text) (item : Item) → read_item f part ≡ some item → Stepped item
unfolding read_item
read_item-Stepped f part item h = elim (Bool-cases (is_empty part)) [
  | inl e ↦ absurd (ground arith)
  | inr e ↦ elim (Option-cases (cut_at b'/' part)) [
    | inl c ↦ read_base-Stepped f part 0 item (ground arith)
    | inr ((base, t), c) ↦ elim (Option-cases (atoi t)) [
      | inl r ↦ absurd (ground arith)
      | inr (negsuc n, r) ↦ absurd (ground arith)
      | inr (pos zero, r) ↦ absurd (ground arith)
      | inr (pos (suc n), r) ↦ read_base-Stepped f base n item (ground arith)
    ]
  ]
]

fill_item-says_item :
    (f : Field) (item : Item) (k : ℕ) (s s' : Marks)
    → IsField f
    → Stepped item
    → fill_item f item s ≡ some s'
    → s' k ≡ (says_item f item k || s k)
unfolding fill_item says_item
fill_item-says_item f (Item.one n) k s s' w p h = mark_lem f n k s s' h
fill_item-says_item f (Item.span lo hi zero) k s s' w p h = absurd (omega arith)
fill_item-says_item f (Item.span lo hi (suc step)) k s s' w p h =
    elim (Bool-cases (ltb lo f.min || ltb f.max hi)) [
      | inl e ↦ absurd (ground arith)
      | inr e ↦
          fill_run_lem (suc hi - lo) f lo hi step k s s' w (ground arith) (omega arith)
            (ground arith)
    ]

fill_parts-says_parts :
    (f : Field) (parts : List Text) (k : ℕ) (s s' : Marks)
    → IsField f
    → fill_parts f parts s ≡ some s'
    → s' k ≡ (says_parts f parts k || s k)
unfolding fill_parts says_parts says_part
fill_parts-says_parts f [] k s s' w h =
    let same : s ≡ s' = ground arith in ap (λ (m : Marks). m k) (sym same)
fill_parts-says_parts f (part ∷ parts) k s s' w h = elim (Option-cases (read_item f part)) [
  | inl e ↦ absurd (ground arith)
  | inr (item, e) ↦ elim (Option-cases (fill_item f item s)) [
    | inl g ↦ absurd (ground arith)
    | inr (t, g) ↦ ground (
      arith,
      fill_parts-says_parts f parts k t s' w (ground arith),
      fill_item-says_item f item k s t w (read_item-Stepped f part item e) g,
    )
  ]
]

-- All that is marked lies in the range.
abbrev Within : Field → Marks → Type 0
Within f s = (k : ℕ) → s k ≡ true → (f.min ≤ k) × (k ≤ f.max)

mark-Within : (f : Field) (n : ℕ) (s s' : Marks) → Within f s → mark f n s ≡ some s' → Within f s'
unfolding mark
mark-Within f n s s' v h k marked = ground (arith, v k, mark_lem f n k s s' h)

fill_run-Within :
    (fuel : ℕ) (f : Field) (n hi step : ℕ) (s s' : Marks)
    → Within f s
    → fill_run fuel f n hi step s ≡ some s'
    → Within f s'
unfolding fill_run
fill_run-Within zero f n hi step s s' v h =
    let same : s ≡ s' = ground arith in subst (Within f) same v
fill_run-Within (suc fuel) f n hi step s s' v h = elim (Bool-cases (leb n hi)) [
  | inr e ↦ let same : s ≡ s' = ground arith in subst (Within f) same v
  | inl e ↦ elim (Option-cases (mark f n s)) [
    | inl m ↦ absurd (ground arith)
    | inr (t, m) ↦
        fill_run-Within fuel f (n + step) hi step t s' (mark-Within f n s t v m) (ground arith)
  ]
]

fill_parts-Within :
    (f : Field) (parts : List Text) (s s' : Marks)
    → Within f s
    → fill_parts f parts s ≡ some s'
    → Within f s'
unfolding fill_parts fill_item
fill_parts-Within f [] s s' v h = let same : s ≡ s' = ground arith in subst (Within f) same v
fill_parts-Within f (part ∷ parts) s s' v h = elim (Option-cases (read_item f part)) [
  | inl e ↦ absurd (ground arith)
  | inr (Item.one n, e) ↦ elim (Option-cases (mark f n s)) [
    | inl m ↦ absurd (ground arith)
    | inr (t, m) ↦ fill_parts-Within f parts t s' (mark-Within f n s t v m) (ground arith)
  ]
  | inr (Item.span lo hi step, e) ↦ elim (Option-cases (fill_item f (Item.span lo hi step) s)) [
    | inl m ↦ absurd (ground arith)
    | inr (t, m) ↦
        fill_parts-Within f parts t s'
          (fill_run-Within (suc hi - lo) f lo hi step s t v (ground arith)) (ground arith)
  ]
]

-- A field that is accepted marks exactly the numbers that its parts say as the code reads them, the
-- ends of a range folded before it is taken: by it 0-7 of the days of the week says Sunday alone.
fill_field-says_parts :
    (f : Field) (field : Text) (s : Marks)
    → IsField f
    → fill_field f field ≡ some s
    → (k : ℕ) → (s k ≡ says_parts f (split b',' field) k) × (s k ≡ true → (f.min ≤ k) × (k ≤ f.max))
unfolding fill_field
fill_field-says_parts f field s w h k =
    elim (Option-cases (fill_parts f (split b',' field) unmarked)) [
      | inl e ↦ absurd (ground arith)
      | inr (t, e) ↦
          let same : t ≡ s = ground arith in
          (
            ground (
              arith,
              fill_parts-says_parts f (split b',' field) k unmarked t w e,
              ap (λ (m : Marks). m k) same,
            ),
            subst (Within f) same
                (fill_parts-Within f (split b',' field) unmarked t
                  (λ j marked. absurd (ground arith)) e)
                k,
          )
    ]
