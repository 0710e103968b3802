-- ===== src/Memory/Cron/Next.antt =====
-- cronExpr.next and matchesDay of v2/bus/memory/cron.go. An instant counts nanoseconds from a whole
-- minute; its parts in UTC and the jumps of time.Date and AddDate are those of package time, a
-- parameter.
pub mod First
use bytedesk_sdk_dependencie.Prelude.{
  ℕ, zero, suc, ◌+◌, ◌-◌, ◌%◌, ◌/◌, ltb, if◌then◌else◌, Bool, true, false, not, ◌&&◌, ◌||◌, Option,
  none, some,
}
use bytedesk_sdk_dependencie.Memory.Cron.{CronExpr, Marks}

pub record Calendar : Type 0 where
  pub month : ℕ → ℕ
  pub day : ℕ → ℕ
  pub weekday : ℕ → ℕ
  pub hour : ℕ → ℕ
  pub minute : ℕ → ℕ
  pub next_month : ℕ → ℕ
  pub next_day : ℕ → ℕ
  pub next_hour : ℕ → ℕ
  pub five_years_on : ℕ → ℕ

-- time.Minute
abbrev pub a_minute : ℕ
a_minute = 60000000000

-- matchesDay
unfoldable pub matches_day : Calendar → CronExpr → ℕ → Bool
matches_day cal c t =
    let dom = c.dom (cal.day t) in
    let dow = c.dow (cal.weekday t) in
    if c.dom_restricted && c.dow_restricted
    then dom || dow
    else if c.dom_restricted
    then dom
    else if c.dow_restricted
    then dow
    else true

-- Where the loop of next goes on from a time that does not match; none for one that does.
unfoldable pub skip : Calendar → CronExpr → ℕ → Option ℕ
skip cal c t =
    if not (c.month (cal.month t))
    then some (cal.next_month t)
    else if not (matches_day cal c t)
    then some (cal.next_day t)
    else if not (c.hour (cal.hour t))
    then some (cal.next_hour t)
    else if not (c.minute (cal.minute t))
    then some (t + a_minute)
    else none

-- The loop of next, on fuel.
unfoldable pub next_loop : ℕ → Calendar → CronExpr → ℕ → ℕ → Option ℕ
next_loop zero cal c t limit = none
next_loop (suc fuel) cal c t limit =
    if ltb t limit
    then elim (skip cal c t) [ none ↦ some t | some t' ↦ next_loop fuel cal c t' limit ]
    else none

-- from.Truncate(time.Minute).Add(time.Minute)
abbrev pub minute_after : ℕ → ℕ
minute_after from = from - from % a_minute + a_minute

-- cronExpr.next, with a round for each minute up to the limit.
unfoldable pub next : Calendar → CronExpr → ℕ → Option ℕ
next cal c from =
    let limit = cal.five_years_on from in
    next_loop (suc (limit / a_minute)) cal c (minute_after from) limit
