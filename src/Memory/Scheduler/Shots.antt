-- ===== src/Memory/Scheduler/Shots.antt =====
-- What the timer of the store fires and what it leaves.
use bytedesk_sdk_dependencie.Prelude.{
  true, ◌≤◌, map, ℕ, ◌+◌, ◌<◌, ◌≡◌, refl, ltb, false, some, List, [], ◌∷◌, ◌++◌, is_empty, Text,
  Dict, In, here, there, All, arith, Option-cases, Bool-cases, inl, inr, if_cases,
}
use bytedesk_sdk_dependencie.Memory.Cron.{CronExpr}
use bytedesk_sdk_dependencie.Memory.Cron.Next.{Calendar, next}
use bytedesk_sdk_dependencie.Memory.Cron.Next.First.{IsCalendar, First-le, next-First}
use bytedesk_sdk_dependencie.Memory.Scheduler.{
  Kind, at, every, cron, ScheduleEntry, Schedules, due, after_interval, rearm, fire_names,
  fire_plugins,
}

-- The next time of an entry has come, or is still to come.
abbrev pub IsDue : ℕ → ScheduleEntry → Type 0
IsDue now e = (t : ℕ) × ((e.next ≡ some t) × (t ≤ now))

abbrev pub IsAhead : ℕ → ScheduleEntry → Type 0
IsAhead now e = (t : ℕ) × ((e.next ≡ some t) × (now < t))

-- The shots are the entries whose time has come, each once and in order; all others are ahead.
pub data Fired (now : ℕ) : List ScheduleEntry → List ScheduleEntry → Type 0 where
  none_fired : Fired now [] []
  fires :
      {e : ScheduleEntry} {entries shots : List ScheduleEntry}
      → IsDue now e
      → Fired now entries shots
      → Fired now (e ∷ entries) (e ∷ shots)
  waits :
      {e : ScheduleEntry} {entries shots : List ScheduleEntry}
      → IsAhead now e
      → Fired now entries shots
      → Fired now (e ∷ entries) shots

Fired-append :
    {now : ℕ} {es shots es' shots' : List ScheduleEntry}
    → Fired now es shots
    → Fired now es' shots'
    → Fired now (es ++ es') (shots ++ shots')
Fired-append none_fired g = g
Fired-append (fires d f) g = fires d (Fired-append f g)
Fired-append (waits a f) g = waits a (Fired-append f g)

abbrev entries_of : Dict ScheduleEntry → List ScheduleEntry
entries_of entries = map (λ x. x.1) entries

-- The entries of all plugins, in the order of the maps.
abbrev pub all_entries : Schedules → List ScheduleEntry
all_entries [] = []
all_entries ((plugin, entries) ∷ schedules) = entries_of entries ++ all_entries schedules

-- An entry with a next time.
abbrev pub IsArmed : ScheduleEntry → Type 0
IsArmed e = (t : ℕ) × (e.next ≡ some t)

abbrev pub ArmedAll : Dict ScheduleEntry → Type 0
ArmedAll entries = All (λ (x : Text × ScheduleEntry). IsArmed x.1) entries

abbrev pub AreArmed : Schedules → Type 0
AreArmed schedules = All (λ (p : Text × Dict ScheduleEntry). ArmedAll p.1) schedules

-- An interval is positive.
abbrev pub IsTimely : Kind → Type 0
IsTimely at = Unit
IsTimely (every d) = 0 < d
IsTimely (cron c) = Unit

abbrev pub AreTimely : Schedules → Type 0
AreTimely schedules = All (λ p. All (λ (x : Text × ScheduleEntry). IsTimely x.1.kind) p.1) schedules

-- Every entry is ahead.
abbrev pub Idle : ℕ → Dict ScheduleEntry → Type 0
Idle now entries = All (λ (x : Text × ScheduleEntry). IsAhead now x.1) entries

-- A plugin has an entry under a name.
abbrev pub Holds : Schedules → Text → Text → ScheduleEntry → Type 0
Holds schedules plugin name e =
    (entries : Dict ScheduleEntry) × (In (plugin, entries) schedules × In (name, e) entries)

next-later :
    (cal : Calendar) (expr : CronExpr) (now t : ℕ)
    → IsCalendar cal
    → next cal expr now ≡ some t
    → now < t
next-later cal expr now t w h =
    let le = First-le (next-First cal expr now w) t h in omega (arith, le)

due-IsDue : (now : ℕ) (e : ScheduleEntry) → due now e ≡ true → IsDue now e
unfolding due
due-IsDue now e d = elim (Option-cases e.next) [
  | inl n ↦ absurd (ground arith)
  | inr (t, n) ↦ (t, (n, ground arith))
]

due-IsAhead : (now : ℕ) (e : ScheduleEntry) → IsArmed e → due now e ≡ false → IsAhead now e
unfolding due
due-IsAhead now e (t, n) d = (t, (n, ground arith))

IsAhead-due : (now : ℕ) (e : ScheduleEntry) → IsAhead now e → due now e ≡ false
unfolding due
IsAhead-due now e (t, (n, lt)) = ground arith

rearm_kind :
    (cal : Calendar) (now : ℕ) (e e' : ScheduleEntry) (k : Kind)
    → IsCalendar cal
    → IsTimely k
    → e.kind ≡ k
    → rearm cal now e ≡ some e'
    → IsAhead now e'
unfolding rearm after_interval
rearm_kind cal now e e' at w timely is h = absurd (ground arith)
rearm_kind cal now e e' (every d) w timely is h = elim (Option-cases e.next) [
  | inl n ↦ (now + d, (ground arith, omega arith))
  | inr (t, n) ↦ elim (Bool-cases (ltb now (t + d))) [
    | inl l ↦ (t + d, (ground arith, ground arith))
    | inr l ↦ (now + d, (ground arith, omega arith))
  ]
]
rearm_kind cal now e e' (cron c) w timely is h = elim (Option-cases (next cal c now)) [
  | inl n ↦ absurd (ground arith)
  | inr (t, n) ↦ (t, (ground arith, next-later cal c now t w n))
]

-- An entry that fires is not due again at once.
rearm-IsAhead :
    (cal : Calendar) (now : ℕ) (e e' : ScheduleEntry)
    → IsCalendar cal
    → IsTimely e.kind
    → rearm cal now e ≡ some e'
    → IsAhead now e'
rearm-IsAhead cal now e e' w timely h = rearm_kind cal now e e' e.kind w timely refl h

fire_names-Fired :
    (cal : Calendar) (now : ℕ) (entries : Dict ScheduleEntry)
    → ArmedAll entries
    → Fired now (entries_of entries) (fire_names cal now entries).0
unfolding fire_names
fire_names-Fired cal now [] armed = none_fired
fire_names-Fired cal now ((name, e) ∷ entries) (one, armed) =
    let rest = fire_names-Fired cal now entries armed in
    elim (Bool-cases (due now e)) [
      | inl d ↦ rw (fire_names, d) (fires (due-IsDue now e d) rest)
      | inr d ↦ rw (fire_names, d) (waits (due-IsAhead now e one d) rest)
    ]

fire_names-Idle :
    (cal : Calendar) (now : ℕ) (entries : Dict ScheduleEntry)
    → IsCalendar cal
    → All (λ (x : Text × ScheduleEntry). IsTimely x.1.kind) entries
    → ArmedAll entries
    → Idle now (fire_names cal now entries).1
unfolding fire_names
fire_names-Idle cal now [] w timely armed = tt
fire_names-Idle cal now ((name, e) ∷ entries) w (one, rest) (next, armed) =
    let idle = fire_names-Idle cal now entries w rest armed in
    elim (Bool-cases (due now e)) [
      | inr d ↦ rw (fire_names, d) (due-IsAhead now e next d, idle)
      | inl d ↦ elim (Option-cases (rearm cal now e)) [
        | inl r ↦ rw (fire_names, d, r) idle
        | inr (e', r) ↦ rw (fire_names, d, r) (rearm-IsAhead cal now e e' w one r, idle)
      ]
    ]

fire_names-waiting :
    (cal : Calendar) (now : ℕ) (entries : Dict ScheduleEntry) (name : Text) (e : ScheduleEntry)
    → In (name, e) entries
    → due now e ≡ false
    → In (name, e) (fire_names cal now entries).1
unfolding fire_names
fire_names-waiting cal now [] name e i d = elim i [ ]
fire_names-waiting cal now ((n, x) ∷ entries) name e here d = rw (fire_names, d) here
fire_names-waiting cal now ((n, x) ∷ entries) name e (there i) d =
    let rest = fire_names-waiting cal now entries name e i d in
    elim (Bool-cases (due now x)) [
      | inr l ↦ rw (fire_names, l) (there rest)
      | inl l ↦ elim (Option-cases (rearm cal now x)) [
        | inl r ↦ rw (fire_names, l, r) rest
        | inr (e', r) ↦ rw (fire_names, l, r) (there rest)
      ]
    ]

fire_plugins-Fired :
    (cal : Calendar) (now : ℕ) (schedules : Schedules)
    → AreArmed schedules
    → Fired now (all_entries schedules) (fire_plugins cal now schedules).0
unfolding fire_plugins
fire_plugins-Fired cal now [] armed = none_fired
fire_plugins-Fired cal now ((plugin, entries) ∷ schedules) (one, armed) =
    Fired-append (fire_names-Fired cal now entries one) (fire_plugins-Fired cal now schedules armed)

fire_plugins-Idle :
    (cal : Calendar) (now : ℕ) (schedules : Schedules)
    → IsCalendar cal
    → AreTimely schedules
    → AreArmed schedules
    → All (λ (p : Text × Dict ScheduleEntry). Idle now p.1) (fire_plugins cal now schedules).1
unfolding fire_plugins
fire_plugins-Idle cal now [] w timely armed = tt
fire_plugins-Idle cal now ((plugin, entries) ∷ schedules) w (one, rest) (here_armed, armed) =
    let left = (fire_names cal now entries).1 in
    let idle = fire_plugins-Idle cal now schedules w rest armed in
    if_cases (λ (s : Schedules). All (λ (p : Text × Dict ScheduleEntry). Idle now p.1) s)
      (is_empty left) _ _ (λ e. idle)
      (λ e. (fire_names-Idle cal now entries w one here_armed, idle))

In-is_empty : (x : Text × ScheduleEntry) (xs : Dict ScheduleEntry) → In x xs → is_empty xs ≡ false
In-is_empty x [] i = elim i [ ]
In-is_empty x (y ∷ xs) i = refl

fire_plugins-waiting :
    (cal : Calendar) (now : ℕ) (schedules : Schedules) (plugin name : Text) (e : ScheduleEntry)
    → Holds schedules plugin name e
    → due now e ≡ false
    → Holds (fire_plugins cal now schedules).1 plugin name e
unfolding fire_plugins
fire_plugins-waiting cal now [] plugin name e (entries, (i, j)) d = elim i [ ]
fire_plugins-waiting cal now ((p, xs) ∷ schedules) plugin name e (entries, (here, j)) d =
    let kept = fire_names-waiting cal now xs name e j d in
    if_cases (λ (s : Schedules). Holds s plugin name e) (is_empty (fire_names cal now xs).1) _ _
      (λ empty. absurd (ground (arith, In-is_empty (name, e) (fire_names cal now xs).1 kept)))
      (λ full. ((fire_names cal now xs).1, (here, kept)))
fire_plugins-waiting cal now ((p, xs) ∷ schedules) plugin name e (entries, (there i, j)) d =
    let (left, (at_plugin, at_name)) =
      fire_plugins-waiting cal now schedules plugin name e (entries, (i, j)) d in
    if_cases (λ (s : Schedules). Holds s plugin name e) (is_empty (fire_names cal now xs).1) _ _
      (λ empty. (left, (at_plugin, at_name))) (λ full. (left, (there at_plugin, at_name)))

-- Where every entry has a next time and every interval is positive, the timer fires exactly the entries
-- whose next time has come, each once and in the order of the maps. After it each entry that is left
-- has its next time ahead, and an entry that was ahead before is there as it was.
pub fire_plugins_lem :
    (cal : Calendar) (now : ℕ) (schedules : Schedules)
    → IsCalendar cal
    → AreTimely schedules
    → AreArmed schedules
    → Fired now (all_entries schedules) (fire_plugins cal now schedules).0
      × (All (λ (p : Text × Dict ScheduleEntry). Idle now p.1) (fire_plugins cal now schedules).1
          × ((plugin name : Text) (e : ScheduleEntry)
              → Holds schedules plugin name e
              → IsAhead now e
              → Holds (fire_plugins cal now schedules).1 plugin name e))
fire_plugins_lem cal now schedules w timely armed = (
  fire_plugins-Fired cal now schedules armed,
  (
    fire_plugins-Idle cal now schedules w timely armed,
    λ plugin name e i a.
        fire_plugins-waiting cal now schedules plugin name e i (IsAhead-due now e a),
  ),
)
