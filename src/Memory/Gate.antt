-- ===== src/Memory/Gate.antt =====
-- v2/bus/memory: the gate of a connection (conn.alive, checkPublish, subscribe) and the lifecycle
-- of the store (Connect, Restart, Revoke, Close, dropSub) in store.go and conn.go.
pub mod Safety
pub mod Lifecycle
use bytedesk_sdk_dependencie.Prelude.{
  ℕ, ◌==◌, if◌then◌else◌, Bool, true, false, not, ◌&&◌, ◌||◌, Option, none, some, List, [], ◌∷◌,
  ◌++◌, length, map, Text, text_eq, bytes, exceeds, add64, format_uint, any, Dict,
}
use bytedesk_sdk_dependencie.Prelude.Int.{ℤ, pos, pos_part}
use bytedesk_sdk_dependencie.Bus.Fault.{
  Fault, Result, ok, err, schema, budget, withdrawn, denied_fault, attributed,
}
use bytedesk_sdk_dependencie.Bus.Subject.{
  covers, matched_by_any, parse_subject, parse_pattern, Refusal,
}
use bytedesk_sdk_dependencie.Bus.Identity.{Identity, GrantKind, can, can_pattern, identity_string}
use bytedesk_sdk_dependencie.Bus.Msg.{Msg}
use bytedesk_sdk_dependencie.Memory.Subscription.{
  Subscription, SubOptions, new_subscription, finish,
}

-- conn, less the lists of what it owns. A connection is told from the others by its number.
pub record Conn : Type 0 where
  pub number : ℕ
  pub id : Identity
  pub gen : ℕ
  pub closed : Bool

-- A subscription under a number that tells it from the others, with that of its connection.
pub record Mounted : Type 0 where
  pub number : ℕ
  pub conn : ℕ
  pub sub : Subscription

-- Store, less its durable state and services. `rr` counts the turns of each queue group; an inbox is
-- a channel of one reply.
pub record Store : Type 0 where
  pub deny : List Text
  pub max_payload : ℤ
  pub closed : Bool
  pub gen : ℕ
  pub conns : List Conn
  pub subs : List Mounted
  pub rr : Dict ℕ
  pub inboxes : Dict (Option Msg)

-- withdrawn
unfoldable pub withdrawn_fault : Text → Fault
withdrawn_fault why = record { code = withdrawn; op = bytes "connection"; message = why }

-- conn.alive
unfoldable pub alive : Store → Conn → Option Fault
alive s c =
    if c.closed
    then some (withdrawn_fault (bytes "connection closed"))
    else if s.closed || not (c.gen == s.gen)
    then some (withdrawn_fault (bytes "connection belongs to a previous generation"))
    else none

-- Store.denySubject
unfoldable pub deny_subject : Store → Text → Bool
deny_subject s subject = matched_by_any s.deny subject

-- Store.denyPattern
unfoldable pub deny_pattern : Store → Text → Bool
deny_pattern s p = any (λ d. covers d p || covers p d) s.deny

unfoldable pub kind_text : GrantKind → Text
kind_text GrantKind.publish = bytes "publish"
kind_text GrantKind.subscribe = bytes "subscribe"
kind_text GrantKind.request = bytes "request"
kind_text GrantKind.serve = bytes "serve"

-- What ParseSubject and ParsePattern refuse, with the text of their error given by the argument.
abbrev pub schema_fault : Text → Text → Fault
schema_fault op why = record { code = schema; op = op; message = why }

module _ (error_text : Refusal → Text) where
  -- conn.checkPublish
  unfoldable pub check_publish : Store → Conn → GrantKind → Text → Text → Option Fault
  check_publish s c kind subject payload = elim (alive s c) [
    | some dead ↦ some dead
    | none ↦ elim (parse_subject subject) [
      | some why ↦ some (schema_fault subject (error_text why))
      | none ↦
          if deny_subject s subject
          then some (
              denied_fault subject (identity_string c.id)
                (bytes "subject is permanently ineligible"))
          else if not (can c.id.grants kind subject)
          then some (
              denied_fault subject (identity_string c.id)
                (bytes "no " ++ (kind_text kind ++ bytes " grant covers this subject")))
          else if exceeds s.max_payload (pos (length payload))
          then some (record {
            code = budget;
            op = subject;
            message = attributed (identity_string c.id) (
                bytes "payload "
                ++ (format_uint (length payload)
                    ++ (bytes " bytes exceeds MaxPayload "
                        ++ format_uint (pos_part s.max_payload))));
          })
          else none
    ]
  ]

  -- The refusals of conn.subscribe; has_handler says that the handler is not nil.
  unfoldable pub check_subscribe : Store → Conn → Text → Bool → Bool → Option Fault
  check_subscribe s c pattern has_handler check_grant = elim (alive s c) [
    | some dead ↦ some dead
    | none ↦
        if not has_handler
        then some
            (schema_fault pattern (attributed (identity_string c.id) (bytes "handler is nil")))
        else elim (parse_pattern pattern) [
          | some why ↦ some (schema_fault pattern (error_text why))
          | none ↦
              if deny_pattern s pattern
              then some (
                  denied_fault pattern (identity_string c.id)
                    (bytes "pattern reaches a permanently ineligible subject family"))
              else if check_grant && not (can_pattern c.id.grants GrantKind.subscribe pattern)
              then some (
                  denied_fault pattern (identity_string c.id)
                    (bytes "no subscribe grant covers this pattern"))
              else none
        ]
  ]

  -- conn.subscribe under a number that is not in use, run without another call in between its two
  -- looks at the generation
  unfoldable pub subscribe :
      ℕ → Store → Conn → Text → Bool → SubOptions → Bool → Result Subscription × Store
  subscribe number s c pattern has_handler o check_grant =
      elim (check_subscribe s c pattern has_handler check_grant) [
        | some f ↦ (err f, s)
        | none ↦
            let sub = new_subscription c.id pattern o in
            (
              ok sub,
              record s {
                subs = s.subs ++ (record { number = number; conn = c.number; sub = sub }) ∷ [];
              },
            )
      ]

-- Store.Connect, with a number that is not in use
unfoldable pub connect : ℕ → Identity → Store → Conn × Store
connect number id s =
    let c : Conn = record { number = number; id = id; gen = s.gen; closed = s.closed } in
    (c, if s.closed then s else record s { conns = c ∷ s.conns })

-- conn.markDead, less the consumers and watchers of the connection
abbrev pub mark_dead : Conn → Conn
mark_dead c = record c { closed = true }

abbrev pub finish_mounted : Fault → Mounted → Mounted
finish_mounted f m = record m { sub = finish (some f) m.sub }

-- What a call takes out of the store, each ended for one reason: finishAll.
pub record Ended : Type 0 where
  pub conns : List Conn
  pub subs : List Mounted

unfoldable pub finish_all : List Conn → List Mounted → Fault → Ended
finish_all conns subs f = record { conns = map mark_dead conns; subs = map (finish_mounted f) subs }

-- Store.takeEphemeralLocked
unfoldable pub take_ephemeral : Store → Store
take_ephemeral s = record s { conns = []; subs = []; inboxes = [] }

abbrev pub nothing_ended : Ended
nothing_ended = record { conns = []; subs = [] }

-- Store.Restart
unfoldable pub restart : Store → Ended × Store
restart s = if s.closed then (nothing_ended, s) else (
  finish_all s.conns s.subs (withdrawn_fault (bytes "substrate restarted")),
  take_ephemeral (record s { gen = add64 s.gen 1 }),
)

-- Store.Close
unfoldable pub close : Store → Ended × Store
close s = if s.closed then (nothing_ended, s) else (
  finish_all s.conns s.subs (withdrawn_fault (bytes "substrate closed")),
  take_ephemeral (record s { closed = true }),
)

module _ {ℓ} {A : Type ℓ} where
  -- The loop that keeps one part of a list and gives out the other.
  unfoldable pub keep : (A → Bool) → List A → List A
  keep p [] = []
  keep p (x ∷ xs) = let rest = keep p xs in if p x then x ∷ rest else rest

abbrev pub is_conn_of : Text → Conn → Bool
is_conn_of plugin_id c = text_eq c.id.plugin_id plugin_id

abbrev pub is_sub_of : Text → Mounted → Bool
is_sub_of plugin_id m = text_eq m.sub.owner.plugin_id plugin_id

-- Store.Revoke
unfoldable pub revoke : Text → Store → Ended × Store
revoke plugin_id s = (
  finish_all (keep (is_conn_of plugin_id) s.conns) (keep (is_sub_of plugin_id) s.subs)
      (withdrawn_fault (bytes "principal " ++ (plugin_id ++ bytes " revoked"))),
  record s {
    conns = keep (λ c. not (is_conn_of plugin_id c)) s.conns;
    subs = keep (λ m. not (is_sub_of plugin_id m)) s.subs;
  },
)

-- conn.Close
unfoldable pub close_conn : Conn → Store → Ended × Store
close_conn c s = (
  finish_all (c ∷ []) (keep (λ m. m.conn == c.number) s.subs)
      (withdrawn_fault (bytes "connection closed")),
  record s {
    conns = keep (λ d. not (d.number == c.number)) s.conns;
    subs = keep (λ m. not (m.conn == c.number)) s.subs;
  },
)
