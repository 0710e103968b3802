-- ===== src/Memory/Scheduler/Registry.antt =====
-- What a registered schedule and a cancelled one leave in the store.
use bytedesk_sdk_dependencie.Prelude.{
  ◌≡◌, refl, if◌then◌else◌, Bool, false, ◌&&◌, Option, none, some, [], ◌++◌, is_empty, is_empty_iff,
  Text, text_eq, text_eq_iff, bytes, Dict, lookup, insert, remove, lookup-insert, lookup-remove,
  arith, Option-cases, Bool-cases, inl, inr,
}
use bytedesk_sdk_dependencie.Memory.Gate.{Store, Conn}
use bytedesk_sdk_dependencie.Memory.Scheduler.{
  ScheduleEntry, Schedules, schedules_of, register, cancel, schedule_off,
}

-- The schedule of a plugin under a name.
unfoldable pub schedule_at_name : Text → Text → Schedules → Option ScheduleEntry
schedule_at_name plugin name schedules = lookup name (schedules_of plugin schedules)

insert-schedules_of :
    (plugin p : Text) (entries : Dict ScheduleEntry) (schedules : Schedules)
    → schedules_of p (insert plugin entries schedules)
      ≡ (if text_eq plugin p then entries else schedules_of p schedules)
unfolding schedules_of
insert-schedules_of plugin p entries schedules =
    ground (arith, lookup-insert plugin p entries schedules)

remove-schedules_of :
    (plugin p : Text) (schedules : Schedules)
    → schedules_of p (remove plugin schedules)
      ≡ (if text_eq plugin p then [] else schedules_of p schedules)
unfolding schedules_of
remove-schedules_of plugin p schedules = ground (arith, lookup-remove plugin p schedules)

register_lem :
    (c : Conn) (e : ScheduleEntry) (s : Store) (schedules : Schedules) (plugin name : Text)
    → s.closed ≡ false
    → schedule_at_name plugin name (register c e s schedules).1 ≡ (
        if text_eq c.id.plugin_id plugin && text_eq e.name name
        then some e
        else schedule_at_name plugin name schedules)
unfolding register schedule_at_name
register_lem c e s schedules plugin name opened =
    let own = schedules_of c.id.plugin_id schedules in
    ground (
      arith,
      insert-schedules_of c.id.plugin_id plugin (insert e.name e own) schedules,
      lookup-insert e.name name e own,
      text_eq_iff c.id.plugin_id plugin,
    )

schedules_of-none :
    (plugin : Text) (schedules : Schedules)
    → lookup plugin schedules ≡ none
    → schedules_of plugin schedules ≡ []
unfolding schedules_of
schedules_of-none plugin schedules h = ground arith

schedules_of-some :
    (plugin : Text) (schedules : Schedules) (entries : Dict ScheduleEntry)
    → lookup plugin schedules ≡ some entries
    → schedules_of plugin schedules ≡ entries
unfolding schedules_of
schedules_of-some plugin schedules entries h = ground arith

lookup_nothing : (name : Text) → lookup {V = ScheduleEntry} name [] ≡ none
unfolding lookup
lookup_nothing name = refl

cancel_lem :
    (capable : Bool) (c : Conn) (name : Text) (s : Store) (schedules : Schedules)
    (plugin other : Text)
    → (cancel capable c name s schedules).0 ≡ none
    → schedule_at_name plugin other (cancel capable c name s schedules).1 ≡ (
        if text_eq c.id.plugin_id plugin && text_eq name other
        then none
        else schedule_at_name plugin other schedules)
unfolding cancel schedule_at_name
cancel_lem capable c name s schedules plugin other h =
    elim (Option-cases (schedule_off capable s c (bytes "schedule:" ++ name))) [
      | inr (f, o) ↦ absurd (ground arith)
      | inl o ↦ elim (Option-cases (lookup c.id.plugin_id schedules)) [
        | inl l ↦
            let own : schedules_of c.id.plugin_id schedules ≡ [] =
              schedules_of-none c.id.plugin_id schedules l in
            rw (cancel, o, l)
              (ground (arith, text_eq_iff c.id.plugin_id plugin, own, lookup_nothing other))
        | inr (entries, l) ↦
            let own : schedules_of c.id.plugin_id schedules ≡ entries =
              schedules_of-some c.id.plugin_id schedules entries l in
            elim (Bool-cases (is_empty (remove name entries))) [
              | inl e ↦
                  rw (cancel, o, l, e)
                    (ground (
                      arith,
                      remove-schedules_of c.id.plugin_id plugin schedules,
                      lookup-remove name other entries,
                      (is_empty_iff (remove name entries)).0 e,
                      text_eq_iff c.id.plugin_id plugin,
                      own,
                      lookup_nothing other,
                    ))
              | inr e ↦
                  rw (cancel, o, l, e)
                    (ground (
                      arith,
                      insert-schedules_of c.id.plugin_id plugin (remove name entries) schedules,
                      lookup-remove name other entries,
                      text_eq_iff c.id.plugin_id plugin,
                      own,
                    ))
            ]
      ]
    ]

-- A schedule that an open store takes and that its plugin then cancels by its name is gone, and every
-- other schedule is as before both.
cancel-register :
    (capable : Bool) (c : Conn) (e : ScheduleEntry) (s : Store) (schedules : Schedules)
    (plugin name : Text)
    → s.closed ≡ false
    → (cancel capable c e.name s (register c e s schedules).1).0 ≡ none
    → schedule_at_name plugin name (cancel capable c e.name s (register c e s schedules).1).1 ≡ (
        if text_eq c.id.plugin_id plugin && text_eq e.name name
        then none
        else schedule_at_name plugin name schedules)
cancel-register capable c e s schedules plugin name opened done = ground (
  arith,
  register_lem c e s schedules plugin name opened,
  cancel_lem capable c e.name s (register c e s schedules).1 plugin name done,
)
