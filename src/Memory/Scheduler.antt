-- ===== src/Memory/Scheduler.antt =====
-- v2/bus/memory/scheduler.go: the schedules of the store, by the plugin that owns them and by their
-- names, the calls of bus.Scheduler, and the shots of the store's timer.
pub mod Shots
pub mod Registry
pub mod Ownership
use bytedesk_sdk_dependencie.Prelude.{
  ℕ, zero, suc, ◌+◌, ltb, leb, if◌then◌else◌, Bool, true, false, not, ◌&&◌, ◌||◌, Option, none,
  some, List, [], ◌∷◌, ◌++◌, is_empty, Text, bytes, Dict, lookup, insert, remove,
}
use bytedesk_sdk_dependencie.Prelude.Int.{ℤ, pos, negsuc}
use bytedesk_sdk_dependencie.Bus.Fault.{Fault, schema, attributed, unsupported_fault}
use bytedesk_sdk_dependencie.Bus.Subject.{Refusal}
use bytedesk_sdk_dependencie.Bus.Identity.{Identity, GrantKind, can, identity_string}
use bytedesk_sdk_dependencie.Bus.Msg.{Headers, strip_reserved}
use bytedesk_sdk_dependencie.Memory.Stamp.{Context, stamp_with, new_msg}
use bytedesk_sdk_dependencie.Memory.Gate.{
  Store, Conn, alive, check_publish, deny_subject, withdrawn_fault,
}
use bytedesk_sdk_dependencie.Memory.Delivery.{deliver}
use bytedesk_sdk_dependencie.Memory.Cron.{CronExpr, parse_cron}
use bytedesk_sdk_dependencie.Memory.Cron.Next.{Calendar, next}

-- The kind of a schedule with what belongs to it.
pub data Kind : Type 0 where
  at : Kind
  every : ℕ → Kind
  cron : CronExpr → Kind

-- scheduleEntry. The next time of fire is absent where it is the zero time.
pub record ScheduleEntry : Type 0 where
  pub owner : Identity
  pub name : Text
  pub subject : Text
  pub body : Text
  pub headers : Headers
  pub kind : Kind
  pub next : Option ℕ

abbrev pub Schedules : Type 0
Schedules = Dict (Dict ScheduleEntry)

-- !e.next.IsZero() && !now.Before(e.next)
unfoldable pub due : ℕ → ScheduleEntry → Bool
due now e = elim e.next [ none ↦ false | some t ↦ leb t now ]

-- e.next.Add(e.every), or from now on where that has passed already
unfoldable pub after_interval : ℕ → ℕ → Option ℕ → ℕ
after_interval now d none = now + d
after_interval now d (some t) = if ltb now (t + d) then t + d else now + d

-- What is left of an entry that fires.
unfoldable pub rearm : Calendar → ℕ → ScheduleEntry → Option ScheduleEntry
rearm cal now e = elim e.kind [
  | at ↦ none
  | every d ↦ some (record e { next = some (after_interval now d e.next) })
  | cron expr ↦ elim (next cal expr now) [
    | some t ↦ some (record e { next = some t })
    | none ↦ none
  ]
]

-- The inner loop of fireDue: the entries that fire, and what is left of all.
unfoldable pub fire_names :
    Calendar → ℕ → Dict ScheduleEntry → List ScheduleEntry × Dict ScheduleEntry
fire_names cal now [] = ([], [])
fire_names cal now ((name, e) ∷ entries) =
    let (shots, left) = fire_names cal now entries in
    if due now e
    then (e ∷ shots, elim (rearm cal now e) [ some e' ↦ (name, e') ∷ left | none ↦ left ])
    else (shots, (name, e) ∷ left)

-- The outer loop: a plugin with no schedule left goes.
unfoldable pub fire_plugins : Calendar → ℕ → Schedules → List ScheduleEntry × Schedules
fire_plugins cal now [] = ([], [])
fire_plugins cal now ((plugin, entries) ∷ schedules) =
    let (shots, left) = fire_names cal now entries in
    let (others, rest) = fire_plugins cal now schedules in
    (shots ++ others, if is_empty left then rest else (plugin, left) ∷ rest)

-- One round of the last loop; `ctx` is context.Background with the correlation id that it mints.
unfoldable pub shoot : Context → ScheduleEntry → Store → Store
shoot ctx e s =
    if deny_subject s e.subject || not (can e.owner.grants GrantKind.publish e.subject)
    then s
    else (deliver e.subject (new_msg e.subject [] (stamp_with ctx e.owner e.headers) e.body none)
        none s).1

unfoldable pub shoot_all : (ℕ → Context) → List ScheduleEntry → Store → Store
shoot_all ctxs [] s = s
shoot_all ctxs (e ∷ shots) s = shoot_all (λ i. ctxs (suc i)) shots (shoot (ctxs 0) e s)

-- Store.fireDue
unfoldable pub fire_due : Calendar → ℕ → (ℕ → Context) → Schedules → Store → Schedules × Store
fire_due cal now ctxs schedules s =
    let (shots, left) = fire_plugins cal now schedules in (left, shoot_all ctxs shots s)

-- st.schedules[pluginID]; a missing plugin has none.
unfoldable pub schedules_of : Text → Schedules → Dict ScheduleEntry
schedules_of plugin schedules = elim (lookup plugin schedules) [
  | some entries ↦ entries
  | none ↦ []
]

-- scheduler.register
unfoldable pub register : Conn → ScheduleEntry → Store → Schedules → Option Fault × Schedules
register c e s schedules =
    if s.closed then (some (withdrawn_fault (bytes "substrate closed")), schedules) else (
      none,
      insert c.id.plugin_id (insert e.name e (schedules_of c.id.plugin_id schedules)) schedules,
    )

-- scheduler.off; `capable` is caps.Schedule.
unfoldable pub schedule_off : Bool → Store → Conn → Text → Option Fault
schedule_off capable s c op =
    if capable then alive s c else some (unsupported_fault op (bytes "schedule"))

abbrev pub schedule_fault : Conn → Text → Text → Fault
schedule_fault c subject why = record {
  code = schema;
  op = subject;
  message = attributed (identity_string c.id) why;
}

-- What a schedule publishes, and under which name.
pub record Order : Type 0 where
  pub name : Text
  pub subject : Text
  pub body : Text
  pub headers : Headers

abbrev pub entry_for : Conn → Order → Kind → Option ℕ → ScheduleEntry
entry_for c o kind next = record {
  owner = c.id;
  name = o.name;
  subject = o.subject;
  body = o.body;
  headers = strip_reserved o.headers;
  kind = kind;
  next = next;
}

module _ (error_text : Refusal → Text) (cron_error : Text → Text) (capable : Bool) where
  -- scheduler.off and scheduler.check
  unfoldable pub check_order : Store → Conn → Order → Option Fault
  check_order s c o = elim (schedule_off capable s c o.subject) [
    | some f ↦ some f
    | none ↦
        if is_empty o.name
        then some (schedule_fault c o.subject (bytes "schedule name is empty"))
        else check_publish error_text s c GrantKind.publish o.subject o.body
  ]

  -- scheduler.At
  unfoldable pub schedule_at :
      Conn → Order → Option ℕ → Store → Schedules → Option Fault × Schedules
  schedule_at c o t s schedules = elim (check_order s c o) [
    | some f ↦ (some f, schedules)
    | none ↦ register c (entry_for c o Kind.at t) s schedules
  ]

  -- scheduler.Every
  unfoldable pub schedule_every :
      Conn → Order → ℤ → ℕ → Store → Schedules → Option Fault × Schedules
  schedule_every c o d now s schedules = elim (check_order s c o) [
    | some f ↦ (some f, schedules)
    | none ↦ elim d [
      | pos (suc n) ↦
          register c (entry_for c o (Kind.every (suc n)) (some (now + suc n))) s schedules
      | pos zero ↦
          (some (schedule_fault c o.subject (bytes "interval must be positive")), schedules)
      | negsuc n ↦
          (some (schedule_fault c o.subject (bytes "interval must be positive")), schedules)
    ]
  ]

  -- scheduler.Cron; `cron_error` is the text of a refusal of the parser.
  unfoldable pub schedule_cron :
      Calendar → Conn → Order → Text → ℕ → Store → Schedules → Option Fault × Schedules
  schedule_cron cal c o expr now s schedules = elim (check_order s c o) [
    | some f ↦ (some f, schedules)
    | none ↦ elim (parse_cron expr) [
      | none ↦ (some (schedule_fault c o.subject (cron_error expr)), schedules)
      | some parsed ↦ elim (next cal parsed now) [
        | none ↦ (
          some (
              schedule_fault c o.subject
                (bytes "cron expression " ++ (expr ++ bytes " never fires"))),
          schedules,
        )
        | some t ↦ register c (entry_for c o (Kind.cron parsed) (some t)) s schedules
      ]
    ]
  ]

-- scheduler.Cancel
unfoldable pub cancel : Bool → Conn → Text → Store → Schedules → Option Fault × Schedules
cancel capable c name s schedules = elim (schedule_off capable s c (bytes "schedule:" ++ name)) [
  | some f ↦ (some f, schedules)
  | none ↦ elim (lookup c.id.plugin_id schedules) [
    | none ↦ (none, schedules)
    | some entries ↦
        let left = remove name entries in
        if is_empty left
        then (none, remove c.id.plugin_id schedules)
        else (none, insert c.id.plugin_id left schedules)
  ]
]
