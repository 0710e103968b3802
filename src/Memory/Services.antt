-- ===== src/Memory/Services.antt =====
-- v2/bus/memory/services.go: services as queue subscriptions of the store. Call, which is a Request,
-- and the counters of time are left out.
pub mod Mounting
pub mod Atomic
pub mod Granted
use bytedesk_sdk_dependencie.Prelude.{
  ℕ, suc, if◌then◌else◌, Bool, true, false, not, Option, none, some, List, [], ◌∷◌, ◌++◌, is_empty,
  Text, bytes, text_eq, text_leb, add64, Dict, insert, remove,
}
use bytedesk_sdk_dependencie.Prelude.Int.{pos}
use bytedesk_sdk_dependencie.Bus.Fault.{
  Fault, Result, ok, err, denied_fault, unsupported_fault, attributed,
}
use bytedesk_sdk_dependencie.Bus.Subject.{parse_subject, Refusal}
use bytedesk_sdk_dependencie.Bus.Identity.{GrantKind, can, identity_string}
use bytedesk_sdk_dependencie.Bus.Msg.{Headers, get, header_fault}
use bytedesk_sdk_dependencie.Memory.Subscription.{SubOptions, default_pending_limit}
use bytedesk_sdk_dependencie.Memory.Gate.{Store, Conn, alive, deny_subject, schema_fault, subscribe}
use bytedesk_sdk_dependencie.Memory.Delivery.{drop_subs}

-- bus.EndpointSpec; has_handler says that the handler is not nil.
pub record EndpointSpec : Type 0 where
  pub name : Text
  pub subject : Text
  pub queue_group : Text
  pub has_handler : Bool
  pub point : Text

-- bus.ServiceSpec, less the description and the metadata.
pub record ServiceSpec : Type 0 where
  pub name : Text
  pub version : Text
  pub queue_group : Text
  pub endpoints : List EndpointSpec

pub record EndpointInfo : Type 0 where
  pub name : Text
  pub subject : Text
  pub queue_group : Text
  pub point : Text

pub record ServiceInfo : Type 0 where
  pub id : Text
  pub name : Text
  pub version : Text
  pub endpoints : List EndpointInfo

-- service; its subscriptions are those of the store under these numbers.
pub record Service : Type 0 where
  pub conn : ℕ
  pub info : ServiceInfo
  pub subs : List ℕ
  pub requests : ℕ
  pub errors : ℕ
  pub started : ℕ
  pub finished : Bool
  pub failure : Option Fault

-- Store.services
abbrev pub Services : Type 0
Services = Dict Service

-- servicesAPI.off; `offered` is caps.Services.
unfoldable pub services_off : Bool → Store → Conn → Text → Option Fault
services_off offered s c op =
    if offered then alive s c else some (unsupported_fault op (bytes "services"))

-- The group of an endpoint: its own, else that of the service, else the name of the service.
unfoldable pub group_of : ServiceSpec → EndpointSpec → Text
group_of spec ep =
    if not (is_empty ep.queue_group)
    then ep.queue_group
    else if not (is_empty spec.queue_group)
    then spec.queue_group
    else spec.name

unfoldable pub options_of : ServiceSpec → EndpointSpec → SubOptions
options_of spec ep = record {
  queue_group = group_of spec ep;
  pending_limit = pos default_pending_limit;
}

unfoldable pub endpoint_info : ServiceSpec → EndpointSpec → EndpointInfo
endpoint_info spec ep = record {
  name = ep.name;
  subject = ep.subject;
  queue_group = group_of spec ep;
  point = ep.point;
}

unfoldable pub endpoint_infos : ServiceSpec → List EndpointSpec → List EndpointInfo
endpoint_infos spec [] = []
endpoint_infos spec (ep ∷ eps) = endpoint_info spec ep ∷ endpoint_infos spec eps

module _ (error_text : Refusal → Text) where
  -- What Serve refuses of one endpoint.
  unfoldable pub check_endpoint : Store → Conn → EndpointSpec → Option Fault
  check_endpoint s c ep = elim (parse_subject ep.subject) [
    | some why ↦ some (schema_fault ep.subject (error_text why))
    | none ↦
        if not ep.has_handler
        then some (
            schema_fault ep.subject (
              attributed (identity_string c.id)
                (bytes "endpoint " ++ (ep.name ++ bytes " has no handler"))))
        else if deny_subject s ep.subject
        then some (
            denied_fault ep.subject (identity_string c.id)
              (bytes "subject is permanently ineligible"))
        else if not (can c.id.grants GrantKind.serve ep.subject)
        then some (
            denied_fault ep.subject (identity_string c.id)
              (bytes "no serve grant covers this subject"))
        else none
  ]

  -- The first loop of Serve.
  unfoldable pub check_endpoints : Store → Conn → List EndpointSpec → Option Fault
  check_endpoints s c [] = none
  check_endpoints s c (ep ∷ eps) =
      let rest = check_endpoints s c eps in
      elim (check_endpoint s c ep) [ some f ↦ some f | none ↦ rest ]

  -- What Serve refuses before it mounts anything.
  unfoldable pub check_serve : Bool → Store → Conn → ServiceSpec → Option Fault
  check_serve offered s c spec = elim (services_off offered s c (bytes "svc:" ++ spec.name)) [
    | some f ↦ some f
    | none ↦
        if is_empty spec.name
        then some (
            schema_fault (bytes "svc:")
              (attributed (identity_string c.id) (bytes "service name is empty")))
        else if is_empty spec.endpoints
        then some (
            schema_fault (bytes "svc:" ++ spec.name)
              (attributed (identity_string c.id) (bytes "service declares no endpoints")))
        else check_endpoints s c spec.endpoints
  ]

  -- The second loop of Serve, under the numbers from `number` on: the refusal that ends it, the
  -- subscriptions that were mounted, and the store with them.
  unfoldable pub mount_endpoints :
      ℕ → Store → Conn → ServiceSpec → List EndpointSpec → Option Fault × List ℕ × Store
  mount_endpoints number s c spec [] = (none, [], s)
  mount_endpoints number s c spec (ep ∷ eps) =
      let (answer, s') =
        subscribe error_text number s c ep.subject ep.has_handler (options_of spec ep) false in
      let (stop, mounted, s'') = mount_endpoints (suc number) s' c spec eps in
      elim answer [ err f ↦ (some f, [], s') | ok sub ↦ (stop, number ∷ mounted, s'') ]

  -- Serve, with an id and numbers that are not in use.
  unfoldable pub serve :
      Bool
      → ℕ
      → Text
      → ℕ
      → Store
      → Conn
      → ServiceSpec
      → Services
      → Result Service × Store × Services
  serve offered number id now s c spec services = elim (check_serve offered s c spec) [
    | some f ↦ (err f, s, services)
    | none ↦
        let (stop, mounted, s') = mount_endpoints number s c spec spec.endpoints in
        elim stop [
          | some f ↦ (err f, drop_subs mounted s', services)
          | none ↦
              let svc : Service = record {
                conn = c.number;
                info = record {
                  id = id;
                  name = spec.name;
                  version = spec.version;
                  endpoints = endpoint_infos spec spec.endpoints;
                };
                subs = mounted;
                requests = 0;
                errors = 0;
                started = now;
                finished = false;
                failure = none;
              } in
              (ok svc, s', insert id svc services)
        ]
  ]

-- service.finish, less its subscriptions, which the store ends
unfoldable pub finish_service : Option Fault → Service → Service
finish_service why svc =
    if svc.finished
    then svc
    else record svc { finished = true; failure = elim why [ some f ↦ some f | none ↦ svc.failure ] }

-- service.Stop: the service that it leaves, the store and its services.
unfoldable pub stop_service : Service → Store → Services → Service × Store × Services
stop_service svc s services =
    (finish_service none svc, drop_subs svc.subs s, remove svc.info.id services)

-- The count of a request before its handler runs, and of a reply that carries a fault.
unfoldable pub count_request : Service → Service
count_request svc = record svc { requests = add64 svc.requests 1 }

unfoldable pub count_reply : Headers → Service → Service
count_reply h svc =
    if is_empty (get h header_fault) then svc else record svc { errors = add64 svc.errors 1 }

-- sort.Slice by the id, one at a time
unfoldable pub insert_info : ServiceInfo → List ServiceInfo → List ServiceInfo
insert_info i [] = i ∷ []
insert_info i (j ∷ js) =
    let rest = insert_info i js in if text_leb i.id j.id then i ∷ j ∷ js else j ∷ rest

-- The loop of Discover over the services, with the sort behind it.
unfoldable pub live_infos : Text → Services → List ServiceInfo
live_infos name [] = []
live_infos name ((id, svc) ∷ services) =
    let rest = live_infos name services in
    if is_empty name
    then insert_info svc.info rest
    else if text_eq svc.info.name name
    then insert_info svc.info rest
    else rest

-- Discover
unfoldable pub discover : Bool → Store → Conn → Text → Services → Result (List ServiceInfo)
discover offered s c name services = elim (services_off offered s c (bytes "svc:discover")) [
  | some f ↦ err f
  | none ↦ ok (live_infos name services)
]
