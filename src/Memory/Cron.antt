-- ===== src/Memory/Cron.antt =====
-- v2/bus/memory/cron.go: the fields of a cron expression. An array of booleans is its
-- characteristic function, and every refusal is the one error text of its field.
pub mod Fields
pub mod Next
use bytedesk_sdk_dependencie.Prelude.{
  ℕ, zero, suc, ◌+◌, ◌-◌, ◌==◌, ltb, leb, half_word, if◌then◌else◌, Bool, true, false, not, ◌&&◌,
  ◌||◌, Option, none, some, List, [], ◌∷◌, ◌++◌, is_empty, Text, text_eq, bytes, split,
  contains_byte, decimal_value,
}
use bytedesk_sdk_dependencie.Prelude.Int.{ℤ, pos, negsuc}
use bytedesk_sdk_dependencie.Memory.Cursor.{all_digits}
use bytedesk_sdk_dependencie.Manifest.Words.{is_space}

-- strings.Fields, with the word read so far
unfoldable pub field_loop : Text → Text → List Text
field_loop word [] = if is_empty word then [] else word ∷ []
field_loop word (c ∷ t) =
    let ended = field_loop [] t in
    let longer = field_loop (word ++ c ∷ []) t in
    if is_space c then (if is_empty word then ended else word ∷ ended) else longer

-- strings.Cut at a separator
unfoldable pub cut_at : ℕ → Text → Option (Text × Text)
cut_at sep [] = none
cut_at sep (c ∷ t) =
    if c == sep
    then some ([], t)
    else elim (cut_at sep t) [ none ↦ none | some (before, after) ↦ some (c ∷ before, after) ]

-- The digits of strconv.Atoi, at most 2^63 - 1.
unfoldable pub magnitude : Text → Option ℕ
magnitude t =
    if is_empty t || not (all_digits t)
    then none
    else if ltb (decimal_value 0 t) half_word
    then some (decimal_value 0 t)
    else none

-- strconv.Atoi. Of the numbers below zero only that they are so is read, which is all that the
-- parser asks of them.
unfoldable pub atoi : Text → Option ℤ
atoi [] = none
atoi (c ∷ t) =
    if c == b'+'
    then elim (magnitude t) [ some n ↦ some (pos n) | none ↦ none ]
    else if c == b'-'
    then elim (magnitude t) [
      | some zero ↦ some (pos 0)
      | some (suc n) ↦ some (negsuc n)
      | none ↦ none
    ]
    else elim (magnitude (c ∷ t)) [ some n ↦ some (pos n) | none ↦ none ]

-- What fillField is called with: the range, the length of its set, and whether 7 is folded onto 0.
pub record Field : Type 0 where
  pub min : ℕ
  pub max : ℕ
  pub len : ℕ
  pub folds : Bool

abbrev pub Marks : Type 0
Marks = ℕ → Bool

abbrev pub unmarked : Marks
unmarked k = false

unfoldable pub fold : Field → ℕ → ℕ
fold f n = if f.folds && n == 7 then 0 else n

-- mark
unfoldable pub mark : Field → ℕ → Marks → Option Marks
mark f n s =
    let n' = fold f n in
    if (ltb n' f.min || ltb f.max n') || leb f.len n' then none else some (λ k. k == n' || s k)

-- for n := lo; n <= hi; n += step { mark }. A sum past 2^63 - 1 wraps to a number below zero, which
-- the next mark refuses.
unfoldable pub fill_run : ℕ → Field → ℕ → ℕ → ℕ → Marks → Option Marks
fill_run zero f n hi step s = some s
fill_run (suc fuel) f n hi step s =
    if leb n hi
    then elim (mark f n s) [
      | none ↦ none
      | some s' ↦
          let rest = fill_run fuel f (n + step) hi step s' in
          if leb half_word (n + step) then none else rest
    ]
    else some s

-- What a part of a field says: one number, or a range with a step.
pub data Item : Type 0 where
  one : ℕ → Item
  span : ℕ → ℕ → ℕ → Item

-- The two ends of a range, folded. Where an end is below zero, x > y or lo < min refuses it.
unfoldable pub in_order : Field → ℕ → ℤ → ℤ → Option Item
in_order f step (pos x) (pos y) =
    if ltb (fold f y) (fold f x) then none else some (Item.span (fold f x) (fold f y) step)
in_order f step (pos x) (negsuc y) = none
in_order f step (negsuc x) y = none

-- The switch over a part without its step. A number below zero is refused by mark.
unfoldable pub read_base : Field → Text → ℕ → Option Item
read_base f part step =
    if text_eq part (bytes "*")
    then some (Item.span f.min f.max step)
    else elim (cut_at b'-' part) [
      | some (a, b) ↦ elim (atoi a) [
        | none ↦ none
        | some x ↦ elim (atoi b) [ none ↦ none | some y ↦ in_order f step x y ]
      ]
      | none ↦ elim (atoi part) [
        | none ↦ none
        | some (negsuc n) ↦ none
        | some (pos n) ↦ if step == 1 then some (Item.one n) else none
      ]
    ]

-- A part of a field.
unfoldable pub read_item : Field → Text → Option Item
read_item f part = if is_empty part then none else elim (cut_at b'/' part) [
  | none ↦ read_base f part 1
  | some (base, s) ↦ elim (atoi s) [
    | none ↦ none
    | some (negsuc n) ↦ none
    | some (pos zero) ↦ none
    | some (pos (suc n)) ↦ read_base f base (suc n)
  ]
]

unfoldable pub fill_item : Field → Item → Marks → Option Marks
fill_item f (Item.one n) s = mark f n s
fill_item f (Item.span lo hi step) s =
    if ltb lo f.min || ltb f.max hi then none else fill_run (suc hi - lo) f lo hi step s

-- The loop over the parts.
unfoldable pub fill_parts : Field → List Text → Marks → Option Marks
fill_parts f [] s = some s
fill_parts f (part ∷ parts) s = elim (read_item f part) [
  | none ↦ none
  | some item ↦ elim (fill_item f item s) [ none ↦ none | some s' ↦ fill_parts f parts s' ]
]

-- Whether one of the first places is marked.
unfoldable pub any_marked : ℕ → Marks → Bool
any_marked zero s = false
any_marked (suc n) s = s n || any_marked n s

-- fillField on an empty set
unfoldable pub fill_field : Field → Text → Option Marks
fill_field f field = elim (fill_parts f (split b',' field) unmarked) [
  | none ↦ none
  | some s ↦ if any_marked f.len s then some s else none
]

-- cronExpr
pub record CronExpr : Type 0 where
  pub minute : Marks
  pub hour : Marks
  pub dom : Marks
  pub month : Marks
  pub dow : Marks
  pub dom_restricted : Bool
  pub dow_restricted : Bool

abbrev pub field_of : ℕ → ℕ → ℕ → Field
field_of min max len = record { min = min; max = max; len = len; folds = false }

abbrev pub week : Field
week = record { min = 0; max = 6; len = 7; folds = true }

-- parseCron on the five fields
unfoldable pub parse_fields : List Text → Option CronExpr
parse_fields (a ∷ b ∷ c ∷ d ∷ e ∷ []) = elim (fill_field (field_of 0 59 60) a) [
  | none ↦ none
  | some minute ↦ elim (fill_field (field_of 0 23 24) b) [
    | none ↦ none
    | some hour ↦ elim (fill_field (field_of 1 31 32) c) [
      | none ↦ none
      | some dom ↦ elim (fill_field (field_of 1 12 13) d) [
        | none ↦ none
        | some month ↦ elim (fill_field week e) [
          | none ↦ none
          | some dow ↦ some (record {
            minute = minute;
            hour = hour;
            dom = dom;
            month = month;
            dow = dow;
            dom_restricted = not (text_eq c (bytes "*"));
            dow_restricted = not (text_eq e (bytes "*"));
          })
        ]
      ]
    ]
  ]
]
parse_fields other = none

-- parseCron
unfoldable pub parse_cron : Text → Option CronExpr
parse_cron expr = parse_fields (field_loop [] expr)
