-- ===== src/Manifest/Digest/Records.antt =====
-- The records of digest.go: where no field holds a separator, equal texts are of equal fields.
use mathlib.Core.List.{Perm}
use bytedesk_sdk_dependencie.Prelude.{
  ◌≡◌, ◌≢◌, refl, sym, ◌∙◌, List, [], ◌∷◌, ◌++◌, map, All, Lacks, contains_byte, Text,
  part_injective, join_injective, heads_eq, join, sort_texts, sort_texts-All, arith, ℕ,
}
use bytedesk_sdk_dependencie.Manifest.{EndpointDecl, ServiceDecl}
use bytedesk_sdk_dependencie.Manifest.Digest.{
  join_fields, join_records, endpoint_text, service_text,
}
use bytedesk_sdk_dependencie.Manifest.Digest.Framing.{sort_texts-Perm}

-- Neither separator stands in the text.
abbrev pub IsPlain : Text → Type 0
IsPlain t = Lacks 31 t × Lacks 30 t

-- The fields of an endpoint, and of a service with its endpoints, are plain.
abbrev pub IsPlainEndpoint : EndpointDecl → Type 0
IsPlainEndpoint ep = IsPlain ep.name × IsPlain ep.subject × IsPlain ep.point

pub record IsPlainService (svc : ServiceDecl) : Type 0 where
  pub name : IsPlain svc.name
  pub version : IsPlain svc.version
  pub queue_group : IsPlain svc.queue_group
  pub endpoints : All IsPlainEndpoint svc.endpoints

-- Plain endpoints with one text are one endpoint.
pub endpoint_text_injective :
    (e f : EndpointDecl)
    → IsPlainEndpoint e
    → IsPlainEndpoint f
    → endpoint_text e ≡ endpoint_text f
    → e ≡ f
unfolding endpoint_text join_fields
endpoint_text_injective e f (en, es, ep) (fn, fs, fp) h =
    let parts =
      join_injective 31 e.name f.name (e.subject ∷ e.point ∷ []) (f.subject ∷ f.point ∷ [])
        (en.0, (es.0, (ep.0, tt))) (fn.0, (fs.0, (fp.0, tt))) h in
    let (names, rest) = heads_eq e.name f.name _ _ parts in
    let (subjects, last) = heads_eq e.subject f.subject _ _ rest in
    let (points, _) = heads_eq e.point f.point _ _ last in
    λ i. record { name = names i; subject = subjects i; point = points i }

contains_byte-append : (c : ℕ) (s t : Text) → Lacks c s → Lacks c t → Lacks c (s ++ t)
unfolding contains_byte
contains_byte-append c [] t hs ht = ht
contains_byte-append c (x ∷ s) t hs ht = ground (arith, contains_byte-append c s t)

-- The text of a plain endpoint holds no record separator.
endpoint_text-Lacks : (ep : EndpointDecl) → IsPlainEndpoint ep → Lacks 30 (endpoint_text ep)
unfolding endpoint_text join_fields join contains_byte
endpoint_text-Lacks ep (n, s, p) =
    contains_byte-append 30 ep.name _ n.1 (contains_byte-append 30 ep.subject _ s.1 p.1)

endpoint_texts-Lacks :
    (eps : List EndpointDecl) → All IsPlainEndpoint eps → All (Lacks 30) (map endpoint_text eps)
endpoint_texts-Lacks [] a = tt
endpoint_texts-Lacks (ep ∷ eps) a = (endpoint_text-Lacks ep a.0, endpoint_texts-Lacks eps a.1)

append-ne : (s t : Text) (c : ℕ) → s ++ c ∷ t ≢ []
append-ne [] t c h = cc
append-ne (x ∷ s) t c h = cc

-- An endpoint has a text.
endpoint_text-ne : (ep : EndpointDecl) → endpoint_text ep ≢ []
unfolding endpoint_text join_fields join
endpoint_text-ne ep h = append-ne ep.name _ 31 h

endpoint_texts-ne : (eps : List EndpointDecl) → All (λ t. t ≢ []) (map endpoint_text eps)
endpoint_texts-ne [] = tt
endpoint_texts-ne (ep ∷ eps) = (endpoint_text-ne ep, endpoint_texts-ne eps)

join_records-ne : (t : Text) (ts : List Text) → t ≢ [] → join_records (t ∷ ts) ≢ []
unfolding join_records join
join_records-ne t [] n h = n h
join_records-ne t (u ∷ us) n h = append-ne t _ 30 h

-- Records without the separator, none of them empty, are told apart by what is joined of them.
join_records_injective :
    (ts us : List Text)
    → All (Lacks 30) ts
    → All (Lacks 30) us
    → All (λ t. t ≢ []) ts
    → All (λ t. t ≢ []) us
    → join_records ts ≡ join_records us
    → ts ≡ us
join_records_injective [] [] lt lu nt nu h = refl
join_records_injective [] (u ∷ us) lt lu nt nu h =
    absurd (join_records-ne u us nu.0 (sym h ∙ (unfold join_records join in refl)))
join_records_injective (t ∷ ts) [] lt lu nt nu h =
    absurd (join_records-ne t ts nt.0 (h ∙ (unfold join_records join in refl)))
join_records_injective (t ∷ ts) (u ∷ us) lt lu nt nu h =
    join_injective 30 t u ts us lt lu (unfold join_records in h)

-- Plain services with one text have one name, version and queue group, and the texts of their
-- endpoints are the same in some order.
pub service_text_injective :
    (s t : ServiceDecl)
    → IsPlainService s
    → IsPlainService t
    → service_text s ≡ service_text t
    → (s.name ≡ t.name)
      × (s.version ≡ t.version)
      × (s.queue_group ≡ t.queue_group)
      × Perm (map endpoint_text s.endpoints) (map endpoint_text t.endpoints)
unfolding service_text join_fields join
service_text_injective s t ps pt h =
    let (names, h1) = part_injective 31 s.name t.name _ _ ps.name.0 pt.name.0 h in
    let (versions, h2) = part_injective 31 s.version t.version _ _ ps.version.0 pt.version.0 h1 in
    let (groups, h3) =
      part_injective 31 s.queue_group t.queue_group _ _ ps.queue_group.0 pt.queue_group.0 h2 in
    let ss = map endpoint_text s.endpoints in
    let ts = map endpoint_text t.endpoints in
    let sorted =
      join_records_injective (sort_texts ss) (sort_texts ts)
        (sort_texts-All (Lacks 30) ss (endpoint_texts-Lacks s.endpoints ps.endpoints))
        (sort_texts-All (Lacks 30) ts (endpoint_texts-Lacks t.endpoints pt.endpoints))
        (sort_texts-All _ ss (endpoint_texts-ne s.endpoints))
        (sort_texts-All _ ts (endpoint_texts-ne t.endpoints)) h3 in
    (names, versions, groups, sort_texts-Perm ss ts sorted)
