-- ===== src/Memory/Cron/Next/First.antt =====
-- The time that cronExpr.next gives is the first one that matches.
use bytedesk_sdk_dependencie.Prelude.{
  ℕ, zero, suc, ◌+◌, ◌*◌, ◌%◌, ◌/◌, ◌≤◌, ◌<◌, ◌≡◌, refl, ltb, ltb→lt, Bool, true, false, ◌&&◌,
  Option, none, some, arith, Option-cases, Bool-cases, inl, inr, subst,
}
use bytedesk_sdk_dependencie.Memory.Cron.{CronExpr}
use bytedesk_sdk_dependencie.Memory.Cron.Next.{
  Calendar, a_minute, matches_day, skip, next_loop, minute_after, next,
}

abbrev pub Whole : ℕ → Type 0
Whole t = t % a_minute ≡ 0

-- A jump goes on to a later whole minute, and on the way there the part stays what it is.
pub record Jumps (part next : ℕ → ℕ) : Type 0 where
  pub onward : (t : ℕ) → Whole t → t < next t
  pub whole : (t : ℕ) → Whole t → Whole (next t)
  pub same : (t u : ℕ) → Whole t → t ≤ u → u < next t → part u ≡ part t

-- What is documented of time.Date and AddDate on UTC times.
pub record IsCalendar (cal : Calendar) : Type 0 where
  pub months : Jumps cal.month cal.next_month
  pub days : Jumps cal.day cal.next_day
  pub weekdays : Jumps cal.weekday cal.next_day
  pub hours : Jumps cal.hour cal.next_hour

-- The instants at which an expression fires.
unfoldable pub fires : Calendar → CronExpr → ℕ → Bool
fires cal c t =
    (c.month (cal.month t) && matches_day cal c t)
    && (c.hour (cal.hour t) && c.minute (cal.minute t))

-- No whole minute from `t` up to `u` fires.
abbrev pub Silent : Calendar → CronExpr → ℕ → ℕ → Type 0
Silent cal c t u = (v : ℕ) → Whole v → t ≤ v → v < u → fires cal c v ≡ false

skip-none : (cal : Calendar) (c : CronExpr) (t : ℕ) → skip cal c t ≡ none → fires cal c t ≡ true
unfolding skip fires
skip-none cal c t h = ground arith

matches_day-same :
    (cal : Calendar) (c : CronExpr) (t u : ℕ)
    → cal.day u ≡ cal.day t
    → cal.weekday u ≡ cal.weekday t
    → matches_day cal c u ≡ matches_day cal c t
unfolding matches_day
matches_day-same cal c t u d k = rw (d, k) refl

-- A skip leaps over nothing that fires.
skip-Silent :
    (cal : Calendar) (c : CronExpr) (t t' : ℕ)
    → IsCalendar cal
    → Whole t
    → skip cal c t ≡ some t'
    → Silent cal c t t'
unfolding skip fires
skip-Silent cal c t t' w e h v whole le lt = elim (Bool-cases (c.month (cal.month t))) [
  | inr m ↦
      let to : cal.next_month t ≡ t' = ground arith in
      let same : cal.month v ≡ cal.month t = w.months.same t v e le (omega arith) in
      rw (same, m) refl
  | inl m ↦ elim (Bool-cases (matches_day cal c t)) [
    | inr d ↦
        let to : cal.next_day t ≡ t' = ground arith in
        let same =
          matches_day-same cal c t v (w.days.same t v e le (omega arith))
            (w.weekdays.same t v e le (omega arith)) in
        ground (arith, same)
    | inl d ↦ elim (Bool-cases (c.hour (cal.hour t))) [
      | inr r ↦
          let to : cal.next_hour t ≡ t' = ground arith in
          let same : cal.hour v ≡ cal.hour t = w.hours.same t v e le (omega arith) in
          let silent : c.hour (cal.hour v) ≡ false = rw same r in ground arith
      | inl r ↦ elim (Bool-cases (c.minute (cal.minute t))) [
        | inl n ↦ absurd (ground arith)
        | inr n ↦
            let to : t + a_minute ≡ t' = ground arith in
            let here : v ≡ t = omega arith in
            let silent : c.minute (cal.minute v) ≡ false = rw here n in ground arith
      ]
    ]
  ]
]

skip-Whole :
    (cal : Calendar) (c : CronExpr) (t t' : ℕ)
    → IsCalendar cal
    → Whole t
    → skip cal c t ≡ some t'
    → (t < t') × Whole t'
unfolding skip
skip-Whole cal c t t' w e h = elim (Bool-cases (c.month (cal.month t))) [
  | inr m ↦
      let to : cal.next_month t ≡ t' = ground arith in
      subst (λ u. (t < u) × Whole u) to (w.months.onward t e, w.months.whole t e)
  | inl m ↦ elim (Bool-cases (matches_day cal c t)) [
    | inr d ↦
        let to : cal.next_day t ≡ t' = ground arith in
        subst (λ u. (t < u) × Whole u) to (w.days.onward t e, w.days.whole t e)
    | inl d ↦ elim (Bool-cases (c.hour (cal.hour t))) [
      | inr r ↦
          let to : cal.next_hour t ≡ t' = ground arith in
          subst (λ u. (t < u) × Whole u) to (w.hours.onward t e, w.hours.whole t e)
      | inl r ↦ elim (Bool-cases (c.minute (cal.minute t))) [
        | inl n ↦ absurd (ground arith)
        | inr n ↦ (
          let to : t + a_minute ≡ t' = ground arith in omega arith,
          let to : t + a_minute ≡ t' = ground arith in omega arith,
        )
      ]
    ]
  ]
]

-- The first whole minute from `t` on that fires before the limit, or that there is none.
pub data First (cal : Calendar) (c : CronExpr) (t limit : ℕ) : Option ℕ → Type 0 where
  never : Silent cal c t limit → First cal c t limit none
  at :
      (u : ℕ)
      → Whole u
      → t ≤ u
      → u < limit
      → fires cal c u ≡ true
      → Silent cal c t u
      → First cal c t limit (some u)

Silent-join :
    (cal : Calendar) (c : CronExpr) (t t' u : ℕ)
    → Silent cal c t t'
    → Silent cal c t' u
    → Silent cal c t u
Silent-join cal c t t' u quiet silent v whole from to = elim (Bool-cases (ltb v t')) [
  | inl e ↦ quiet v whole from (ltb→lt v t' e)
  | inr e ↦ silent v whole (ground arith) to
]

First-after :
    (cal : Calendar) (c : CronExpr) (t t' limit : ℕ) (o : Option ℕ)
    → t ≤ t'
    → Silent cal c t t'
    → First cal c t' limit o
    → First cal c t limit o
First-after cal c t t' limit o le quiet (First.never silent) =
    First.never (Silent-join cal c t t' limit quiet silent)
First-after cal c t t' limit o le quiet (First.at u whole after before fired silent) =
    First.at u whole (omega arith) before fired (Silent-join cal c t t' u quiet silent)

next_loop-First :
    (fuel : ℕ) (cal : Calendar) (c : CronExpr) (t limit : ℕ)
    → IsCalendar cal
    → Whole t
    → limit ≤ t + fuel * a_minute
    → First cal c t limit (next_loop fuel cal c t limit)
unfolding next_loop
next_loop-First zero cal c t limit w e enough = First.never (λ v whole le lt. absurd (omega arith))
next_loop-First (suc fuel) cal c t limit w e enough = elim (Bool-cases (ltb t limit)) [
  | inr late ↦ rw (next_loop, late) (First.never (λ v whole le lt. absurd (ground arith)))
  | inl early ↦ elim (Option-cases (skip cal c t)) [
    | inl stop ↦
        rw (next_loop, early, stop)
          (First.at t e (omega arith) (ltb→lt t limit early) (skip-none cal c t stop)
            (λ v whole le lt. absurd (omega arith)))
    | inr (t', go) ↦
        let (later, e') = skip-Whole cal c t t' w e go in
        let rest = next_loop-First fuel cal c t' limit w e' (omega arith) in
        rw (next_loop, early, go)
          (First-after cal c t t' limit (next_loop fuel cal c t' limit) (omega arith)
            (skip-Silent cal c t t' w e go) rest)
  ]
]

-- next gives the first whole minute after `from` and before five years later that fires, and gives
-- none where there is none.
pub next-First :
    (cal : Calendar) (c : CronExpr) (from : ℕ)
    → IsCalendar cal
    → First cal c (minute_after from) (cal.five_years_on from) (next cal c from)
unfolding next
next-First cal c from w =
    next_loop-First (suc (cal.five_years_on from / a_minute)) cal c (minute_after from)
      (cal.five_years_on from) w (omega arith) (omega arith)

pub First-le :
    {cal : Calendar} {c : CronExpr} {t limit : ℕ} {o : Option ℕ}
    → First cal c t limit o
    → (u : ℕ) → o ≡ some u
    → t ≤ u
First-le (First.never silent) u e = absurd (ground arith)
First-le (First.at v whole after before fired silent) u e = ground arith
