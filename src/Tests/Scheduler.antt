-- ===== src/Tests/Scheduler.antt =====
-- Cron expressions and schedules at concrete inputs, in a calendar whose months have thirty days.
use bytedesk_sdk_dependencie.Prelude.{
  ℕ, ◌+◌, ◌*◌, ◌%◌, ◌/◌, ◌≡◌, refl, ap, true, false, none, some, [], ◌∷◌, Text, Dict, bytes,
  text_eq, lookup, All, split, arith, decimal_value, insert, remove,
}
use bytedesk_sdk_dependencie.Prelude.Int.{pos}
use bytedesk_sdk_dependencie.Bus.Identity.{Identity, Role, can, list}
use bytedesk_sdk_dependencie.Bus.Subject.{
  Refusal, parse_subject, parse, is_reserved_token, token, token_ok, matched_by_any, matches,
  match_tokens,
}
use bytedesk_sdk_dependencie.Memory.Gate.{Store, Conn, alive, check_publish, deny_subject}
use bytedesk_sdk_dependencie.Memory.Cron.{
  CronExpr, Marks, week, fill_field, fill_parts, read_item, cut_at, read_base, atoi, magnitude,
  in_order, fold, fill_item, fill_run, mark, any_marked,
}
use bytedesk_sdk_dependencie.Memory.Cron.Fields.{IsField}
use bytedesk_sdk_dependencie.Memory.Cron.Next.{Calendar, next, minute_after, a_minute}
use bytedesk_sdk_dependencie.Memory.Cron.Next.First.{IsCalendar, First, next-First}
use bytedesk_sdk_dependencie.Memory.Scheduler.{
  Kind, ScheduleEntry, Schedules, Order, fire_plugins, schedule_every, cancel, register,
  check_order, schedule_off, register, schedules_of,
}
use bytedesk_sdk_dependencie.Memory.Scheduler.Shots.{
  Idle, Holds, IsAhead, Fired, all_entries, fire_plugins_lem,
}
use bytedesk_sdk_dependencie.Memory.Scheduler.Ownership.{AreOwned, Change, Reach, Reach-AreOwned}
use bytedesk_sdk_dependencie.Memory.Cursor.{all_digits}
use bytedesk_sdk_dependencie.Bus.Msg.{strip_reserved, strip_loop}

abbrev an_hour : ℕ
an_hour = 3600000000000

abbrev a_day : ℕ
a_day = 86400000000000

abbrev a_month : ℕ
a_month = 2592000000000000

abbrev even_months : Calendar
even_months = record {
  month = λ t. (t / a_month) % 12 + 1;
  day = λ t. (t / a_day) % 30 + 1;
  weekday = λ t. (t / a_day) % 7;
  hour = λ t. (t / an_hour) % 24;
  minute = λ t. (t / a_minute) % 60;
  next_month = λ t. (t / a_month + 1) * a_month;
  next_day = λ t. (t / a_day + 1) * a_day;
  next_hour = λ t. (t / an_hour + 1) * an_hour;
  five_years_on = λ t. t + 60 * a_month;
}

even_months-IsCalendar : IsCalendar even_months
even_months-IsCalendar = record {
  months = record {
    onward = λ t e. omega arith;
    whole = λ t e. omega arith;
    same = λ t u e le lt.
        let in_one : u / a_month ≡ t / a_month = omega arith in ap (λ m. m % 12 + 1) in_one;
  };
  days = record {
    onward = λ t e. omega arith;
    whole = λ t e. omega arith;
    same = λ t u e le lt.
        let in_one : u / a_day ≡ t / a_day = omega arith in ap (λ m. m % 30 + 1) in_one;
  };
  weekdays = record {
    onward = λ t e. omega arith;
    whole = λ t e. omega arith;
    same =
        λ t u e le lt. let in_one : u / a_day ≡ t / a_day = omega arith in ap (λ m. m % 7) in_one;
  };
  hours = record {
    onward = λ t e. omega arith;
    whole = λ t e. omega arith;
    same = λ t u e le lt.
        let in_one : u / an_hour ≡ t / an_hour = omega arith in ap (λ m. m % 24) in_one;
  };
}

-- "30 12 * * *"
abbrev half_past_noon : CronExpr
half_past_noon = record {
  minute = λ k. text_eq (k ∷ []) (30 ∷ []);
  hour = λ k. text_eq (k ∷ []) (12 ∷ []);
  dom = λ k. true;
  month = λ k. true;
  dow = λ k. true;
  dom_restricted = false;
  dow_restricted = false;
}

next-First_example :
    First even_months half_past_noon
      (minute_after 5)
      (even_months.five_years_on 5)
      (next even_months half_past_noon 5)
next-First_example = next-First even_months half_past_noon 5 even_months-IsCalendar

week-IsField : IsField week
week-IsField = record { inside = omega arith; folded = λ e. omega arith }

workdays : (s : Marks) × (fill_field week (bytes "1-5,7") ≡ some s)
unfolding bytes fill_field fill_parts split read_item cut_at read_base text_eq atoi magnitude
    all_digits decimal_value in_order fold fill_item fill_run mark any_marked
workdays = (_, refl)

abbrev reason : Refusal → Text
reason r = bytes "malformed"

abbrev frank : Identity
frank = record {
  plugin_id = bytes "frank";
  generation = bytes "1";
  lease = record { token = [] };
  role = Role.plugin;
  grants = record {
    publish = bytes "tick.frank.>" ∷ [];
    subscribe = [];
    request = [];
    serves = [];
    streams = [];
    kv = [];
    objects = [];
  };
}

abbrev link : Conn
link = record { number = 1; id = frank; gen = 0; closed = false }

abbrev bare : Store
bare = record {
  deny = [];
  max_payload = pos 0;
  closed = false;
  gen = 0;
  conns = link ∷ [];
  subs = [];
  rr = [];
  inboxes = [];
}

abbrev beat : Order
beat = record { name = bytes "beat"; subject = bytes "tick.frank.beat"; body = []; headers = [] }

-- Every five nanoseconds from the time 10 on.
abbrev booked : Schedules
booked = (schedule_every reason (λ e. e) true link beat (pos 5) 10 bare []).1

abbrev beating : ScheduleEntry
beating = record {
  owner = frank;
  name = bytes "beat";
  subject = bytes "tick.frank.beat";
  body = [];
  headers = [];
  kind = Kind.every 5;
  next = some 15;
}

abbrev table : Schedules
table = (bytes "frank", (bytes "beat", beating) ∷ []) ∷ []

booked_at : booked ≡ table
unfolding schedule_every check_order schedule_off alive bytes check_publish parse_subject parse
    split text_eq is_reserved_token token token_ok deny_subject matched_by_any can list matches
    match_tokens register insert schedules_of lookup strip_reserved strip_loop
booked_at = refl

Reach-AreOwned_example : AreOwned booked
Reach-AreOwned_example =
    Reach-AreOwned reason (λ e. e) true even_months
      (Reach.then_change Reach.none_yet (Change.repeated link beat (pos 5) 10 bare))

fire_plugins_lem_example :
    Fired 22 (all_entries table) (fire_plugins even_months 22 table).0
    × (All (λ (p : Text × Dict ScheduleEntry). Idle 22 p.1) (fire_plugins even_months 22 table).1
        × ((plugin name : Text) (e : ScheduleEntry)
            → Holds table plugin name e
            → IsAhead 22 e
            → Holds (fire_plugins even_months 22 table).1 plugin name e))
fire_plugins_lem_example =
    fire_plugins_lem even_months 22 table even_months-IsCalendar ((omega arith, tt), tt)
      (((_, refl), tt), tt)

cancelled : (cancel true link (bytes "beat") bare (register link beating bare []).1).0 ≡ none
unfolding cancel schedule_off alive lookup register insert text_eq bytes remove schedules_of
cancelled = refl

-- The range from Sunday to the seventh day is Sunday alone.
whole_week :
    (s : Marks) × ((fill_field week (bytes "0-7") ≡ some s) × ((s 0 ≡ true) × (s 1 ≡ false)))
unfolding bytes fill_field fill_parts split read_item cut_at read_base text_eq atoi magnitude
    all_digits decimal_value in_order fold fill_item fill_run mark any_marked
whole_week = (_, (refl, (refl, refl)))

late_week : fill_field week (bytes "5-7") ≡ none
unfolding fill_field fill_parts split bytes read_item cut_at read_base text_eq atoi magnitude
    all_digits decimal_value in_order fold
late_week = refl
