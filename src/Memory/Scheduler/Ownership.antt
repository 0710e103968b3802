-- ===== src/Memory/Scheduler/Ownership.antt =====
-- Through any sequence of calls and shots, each schedule stands under the name and the plugin of the
-- principal that it publishes for.
use bytedesk_sdk_dependencie.Prelude.{
  ℕ, zero, suc, ◌+◌, ◌≡◌, refl, ap, subst, Bool, Option, some, [], ◌∷◌, ◌++◌, is_empty, Text, bytes,
  Dict, lookup, insert, remove, All, insert-All, remove-All, lookup-All, arith, Option-cases,
  Bool-cases, inl, inr, if_cases, sym, ◌∙◌,
}
use bytedesk_sdk_dependencie.Prelude.Int.{ℤ, pos, negsuc}
use bytedesk_sdk_dependencie.Bus.Fault.{Fault}
use bytedesk_sdk_dependencie.Bus.Subject.{Refusal}
use bytedesk_sdk_dependencie.Bus.Identity.{Identity}
use bytedesk_sdk_dependencie.Memory.Stamp.{Context}
use bytedesk_sdk_dependencie.Memory.Gate.{Store, Conn}
use bytedesk_sdk_dependencie.Memory.Cron.{parse_cron}
use bytedesk_sdk_dependencie.Memory.Cron.Next.{Calendar, next}
use bytedesk_sdk_dependencie.Memory.Scheduler.{
  Kind, at, every, cron, ScheduleEntry, Schedules, Order, entry_for, schedules_of, due, rearm,
  fire_names, fire_plugins, register, check_order, schedule_at, schedule_every, schedule_cron,
  cancel, schedule_off, fire_due,
}
use bytedesk_sdk_dependencie.Memory.Scheduler.Shots.{IsTimely}

-- An entry of a plugin, under its name.
pub record IsOwned (plugin name : Text) (e : ScheduleEntry) : Type 0 where
  pub timely : IsTimely e.kind
  pub owned : e.owner.plugin_id ≡ plugin
  pub named : e.name ≡ name

abbrev pub AllOwned : Text → Dict ScheduleEntry → Type 0
AllOwned plugin entries = All (λ (x : Text × ScheduleEntry). IsOwned plugin x.0 x.1) entries

abbrev pub AreOwned : Schedules → Type 0
AreOwned schedules = All (λ (p : Text × Dict ScheduleEntry). AllOwned p.0 p.1) schedules

schedules_of-AllOwned :
    (plugin : Text) (schedules : Schedules)
    → AreOwned schedules
    → AllOwned plugin (schedules_of plugin schedules)
unfolding schedules_of
schedules_of-AllOwned plugin schedules owned = elim (Option-cases (lookup plugin schedules)) [
  | inl l ↦ rw (schedules_of, l) tt
  | inr (entries, l) ↦
      rw (schedules_of, l)
        (lookup-All (λ (p : Text × Dict ScheduleEntry). AllOwned p.0 p.1) plugin entries schedules
          owned l)
]

register-AreOwned :
    (c : Conn) (e : ScheduleEntry) (s : Store) (schedules : Schedules)
    → IsTimely e.kind
    → e.owner.plugin_id ≡ c.id.plugin_id
    → AreOwned schedules
    → AreOwned (register c e s schedules).1
unfolding register
register-AreOwned c e s schedules timely own owned =
    let entries = schedules_of c.id.plugin_id schedules in
    if_cases (λ (r : Option Fault × Schedules). AreOwned r.1) s.closed _ _ (λ closed. owned)
      (λ opened.
        insert-All (λ (p : Text × Dict ScheduleEntry). AllOwned p.0 p.1) c.id.plugin_id
          (insert e.name e entries) schedules owned
          (insert-All (λ (x : Text × ScheduleEntry). IsOwned c.id.plugin_id x.0 x.1) e.name e
            entries (schedules_of-AllOwned c.id.plugin_id schedules owned)
            (record { timely = timely; owned = own; named = refl })))

cancel-AreOwned :
    (capable : Bool) (c : Conn) (name : Text) (s : Store) (schedules : Schedules)
    → AreOwned schedules
    → AreOwned (cancel capable c name s schedules).1
unfolding cancel
cancel-AreOwned capable c name s schedules owned =
    elim (Option-cases (schedule_off capable s c (bytes "schedule:" ++ name))) [
      | inr (f, o) ↦ rw (cancel, o) owned
      | inl o ↦ elim (Option-cases (lookup c.id.plugin_id schedules)) [
        | inl l ↦ rw (cancel, o, l) owned
        | inr (entries, l) ↦
            let own =
              lookup-All (λ (p : Text × Dict ScheduleEntry). AllOwned p.0 p.1) c.id.plugin_id
                entries schedules owned l in
            rw (cancel, o, l)
              (if_cases (λ (r : Option Fault × Schedules). AreOwned r.1)
                (is_empty (remove name entries)) _ _
                (λ e.
                  remove-All (λ (p : Text × Dict ScheduleEntry). AllOwned p.0 p.1) c.id.plugin_id
                    schedules owned)
                (λ e.
                  insert-All (λ (p : Text × Dict ScheduleEntry). AllOwned p.0 p.1) c.id.plugin_id
                    (remove name entries) schedules owned
                    (remove-All (λ (x : Text × ScheduleEntry). IsOwned c.id.plugin_id x.0 x.1) name
                      entries own)))
      ]
    ]

rearm_kept :
    (cal : Calendar) (now : ℕ) (e e' : ScheduleEntry) (k : Kind)
    → e.kind ≡ k
    → rearm cal now e ≡ some e'
    → (e'.kind ≡ e.kind) × ((e'.owner ≡ e.owner) × (e'.name ≡ e.name))
unfolding rearm
rearm_kept cal now e e' at is h = absurd (ground arith)
rearm_kept cal now e e' (every d) is h = (ground arith, (ground arith, ground arith))
rearm_kept cal now e e' (cron c) is h = elim (Option-cases (next cal c now)) [
  | inl n ↦ absurd (ground arith)
  | inr (t, n) ↦ (ground arith, (ground arith, ground arith))
]

rearm-IsOwned :
    (cal : Calendar) (now : ℕ) (plugin name : Text) (e e' : ScheduleEntry)
    → IsOwned plugin name e
    → rearm cal now e ≡ some e'
    → IsOwned plugin name e'
rearm-IsOwned cal now plugin name e e' own h =
    let (kind, (owner, called)) = rearm_kept cal now e e' e.kind refl h in
    record {
      timely = subst IsTimely (sym kind) own.timely;
      owned = ap (λ (i : Identity). i.plugin_id) owner ∙ own.owned;
      named = called ∙ own.named;
    }

fire_names-AllOwned :
    (cal : Calendar) (now : ℕ) (plugin : Text) (entries : Dict ScheduleEntry)
    → AllOwned plugin entries
    → AllOwned plugin (fire_names cal now entries).1
unfolding fire_names
fire_names-AllOwned cal now plugin [] owned = tt
fire_names-AllOwned cal now plugin ((name, e) ∷ entries) (one, rest) =
    let left = fire_names-AllOwned cal now plugin entries rest in
    elim (Bool-cases (due now e)) [
      | inr d ↦ rw (fire_names, d) (one, left)
      | inl d ↦ elim (Option-cases (rearm cal now e)) [
        | inl r ↦ rw (fire_names, d, r) left
        | inr (e', r) ↦ rw (fire_names, d, r) (rearm-IsOwned cal now plugin name e e' one r, left)
      ]
    ]

fire_plugins-AreOwned :
    (cal : Calendar) (now : ℕ) (schedules : Schedules)
    → AreOwned schedules
    → AreOwned (fire_plugins cal now schedules).1
unfolding fire_plugins
fire_plugins-AreOwned cal now [] owned = tt
fire_plugins-AreOwned cal now ((plugin, entries) ∷ schedules) (one, rest) =
    let left = fire_plugins-AreOwned cal now schedules rest in
    if_cases AreOwned (is_empty (fire_names cal now entries).1) _ _ (λ e. left)
      (λ e. (fire_names-AllOwned cal now plugin entries one, left))

module _ (error_text : Refusal → Text) (cron_error : Text → Text) (capable : Bool)
    (cal : Calendar) where
  -- What changes the schedules of a store: the calls of a connection, and the timer.
  pub data Change : Schedules → Schedules → Type 0 where
    once :
        (c : Conn) (o : Order) (t : Option ℕ) (s : Store) {schedules : Schedules}
        → Change schedules (schedule_at error_text cron_error capable c o t s schedules).1
    repeated :
        (c : Conn) (o : Order) (d : ℤ) (now : ℕ) (s : Store) {schedules : Schedules}
        → Change schedules (schedule_every error_text cron_error capable c o d now s schedules).1
    by_cron :
        (c : Conn) (o : Order) (expr : Text) (now : ℕ) (s : Store) {schedules : Schedules}
        → Change schedules
            (schedule_cron error_text cron_error capable cal c o expr now s schedules).1
    cancelled :
        (c : Conn) (name : Text) (s : Store) {schedules : Schedules}
        → Change schedules (cancel capable c name s schedules).1
    fired :
        (now : ℕ) (ctxs : ℕ → Context) (s : Store) {schedules : Schedules}
        → Change schedules (fire_due cal now ctxs schedules s).0

  -- Sequences of changes of an empty store, the last one outermost.
  pub data Reach : Schedules → Type 0 where
    none_yet : Reach []
    then_change : {before after : Schedules} → Reach before → Change before after → Reach after

  schedule_at-AreOwned :
      (c : Conn) (o : Order) (t : Option ℕ) (s : Store) (schedules : Schedules)
      → AreOwned schedules
      → AreOwned (schedule_at error_text cron_error capable c o t s schedules).1
  unfolding schedule_at
  schedule_at-AreOwned c o t s schedules owned =
      elim (Option-cases (check_order error_text cron_error capable s c o)) [
        | inr (f, e) ↦ rw (schedule_at, e) owned
        | inl e ↦
            rw (schedule_at, e)
              (register-AreOwned c (entry_for c o Kind.at t) s schedules tt refl owned)
      ]

  schedule_every-AreOwned :
      (c : Conn) (o : Order) (d : ℤ) (now : ℕ) (s : Store) (schedules : Schedules)
      → AreOwned schedules
      → AreOwned (schedule_every error_text cron_error capable c o d now s schedules).1
  unfolding schedule_every
  schedule_every-AreOwned c o (pos (suc n)) now s schedules owned =
      elim (Option-cases (check_order error_text cron_error capable s c o)) [
        | inr (f, e) ↦ rw (schedule_every, e) owned
        | inl e ↦
            rw (schedule_every, e)
              (register-AreOwned c (entry_for c o (Kind.every (suc n)) (some (now + suc n))) s
                schedules (omega arith) refl owned)
      ]
  schedule_every-AreOwned c o (pos zero) now s schedules owned =
      elim (Option-cases (check_order error_text cron_error capable s c o)) [
        | inr (f, e) ↦ rw (schedule_every, e) owned
        | inl e ↦ rw (schedule_every, e) owned
      ]
  schedule_every-AreOwned c o (negsuc n) now s schedules owned =
      elim (Option-cases (check_order error_text cron_error capable s c o)) [
        | inr (f, e) ↦ rw (schedule_every, e) owned
        | inl e ↦ rw (schedule_every, e) owned
      ]

  schedule_cron-AreOwned :
      (c : Conn) (o : Order) (expr : Text) (now : ℕ) (s : Store) (schedules : Schedules)
      → AreOwned schedules
      → AreOwned (schedule_cron error_text cron_error capable cal c o expr now s schedules).1
  unfolding schedule_cron
  schedule_cron-AreOwned c o expr now s schedules owned =
      elim (Option-cases (check_order error_text cron_error capable s c o)) [
        | inr (f, e) ↦ rw (schedule_cron, e) owned
        | inl e ↦ elim (Option-cases (parse_cron expr)) [
          | inl p ↦ rw (schedule_cron, e, p) owned
          | inr (parsed, p) ↦ elim (Option-cases (next cal parsed now)) [
            | inl n ↦ rw (schedule_cron, e, p, n) owned
            | inr (t, n) ↦
                rw (schedule_cron, e, p, n)
                  (register-AreOwned c (entry_for c o (Kind.cron parsed) (some t)) s schedules tt
                    refl owned)
          ]
        ]
      ]

  Change-AreOwned :
      {before after : Schedules} → Change before after → AreOwned before → AreOwned after
  unfolding fire_due
  Change-AreOwned {before} (once c o t s) owned = schedule_at-AreOwned c o t s before owned
  Change-AreOwned {before} (repeated c o d now s) owned =
      schedule_every-AreOwned c o d now s before owned
  Change-AreOwned {before} (by_cron c o expr now s) owned =
      schedule_cron-AreOwned c o expr now s before owned
  Change-AreOwned {before} (cancelled c name s) owned =
      cancel-AreOwned capable c name s before owned
  Change-AreOwned {before} (fired now ctxs s) owned = fire_plugins-AreOwned cal now before owned

  -- After any sequence of scheduler calls and timer rounds on an empty store, each schedule stands
  -- under its own name with the plugin that it publishes for, and every interval is positive.
  pub Reach-AreOwned : {schedules : Schedules} → Reach schedules → AreOwned schedules
  Reach-AreOwned none_yet = tt
  Reach-AreOwned (then_change reached change) = Change-AreOwned change (Reach-AreOwned reached)
