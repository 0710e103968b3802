-- ===== src/Memory/Gate/Safety.antt =====
-- What may pass the gate of a connection.
use bytedesk_sdk_dependencie.Prelude.{
  ℕ, ◌≤◌, ◌<◌, ◌≢◌, In, here, there, refl, Bool-cases, ltb, ◌≡◌, ◌↔◌, true, false, none, Text,
  arith, length, Option-cases, inl, inr, All, [], ◌∷◌, List, exceeds, Bool,
}
use bytedesk_sdk_dependencie.Prelude.Int.{ℤ, pos, negsuc}
use bytedesk_sdk_dependencie.Bus.Subject.{
  matches, matched_by_any, parse_subject, parse_pattern, Refusal,
}
use bytedesk_sdk_dependencie.Bus.Identity.{
  Grants, GrantKind, publish, subscribe, request, serve, list, can, can_pattern, can_pattern-can,
}
use bytedesk_sdk_dependencie.Memory.Gate.{
  Store, Conn, alive, deny_subject, check_publish, check_subscribe,
}

deny_subject-All :
    (deny : List Text) (s : Text)
    → matched_by_any deny s ≡ false
    → All (λ d. matches d s ≡ false) deny
unfolding matched_by_any
deny_subject-All [] s h = tt
deny_subject-All (d ∷ deny) s h = (ground arith, deny_subject-All deny s (ground arith))

All-deny_subject :
    (deny : List Text) (s : Text)
    → All (λ d. matches d s ≡ false) deny
    → matched_by_any deny s ≡ false
unfolding matched_by_any
All-deny_subject [] s h = refl
All-deny_subject (d ∷ deny) s (one, h) = ground (arith, All-deny_subject deny s h)

-- A pattern stands among those granted for a kind of call.
abbrev pub IsGranted : Grants → GrantKind → Text → Type 0
IsGranted g publish p = In p g.publish
IsGranted g subscribe p = In p g.subscribe
IsGranted g request p = In p g.request
IsGranted g serve p = In p g.serves

matched_by_any-In :
    (ps : List Text) (s p : Text) → In p ps → matches p s ≡ true → matched_by_any ps s ≡ true
unfolding matched_by_any
matched_by_any-In [] s p i m = elim i [ ]
matched_by_any-In (_ ∷ ps) s p here m = rw (matched_by_any, m) refl
matched_by_any-In (q ∷ ps) s p (there i) m = ground (arith, matched_by_any-In ps s p i m)

In-matched_by_any :
    (ps : List Text) (s : Text)
    → matched_by_any ps s ≡ true
    → (p : Text) × (In p ps × (matches p s ≡ true))
unfolding matched_by_any
In-matched_by_any [] s h = absurd (ground arith)
In-matched_by_any (q ∷ ps) s h = elim (Bool-cases (matches q s)) [
  | inl e ↦ (q, (here, e))
  | inr e ↦ let (p, (i, m)) = In-matched_by_any ps s (ground arith) in (p, (there i, m))
]

matched_by_any_iff :
    (ps : List Text) (s : Text)
    → (matched_by_any ps s ≡ true) ↔ ((p : Text) × (In p ps × (matches p s ≡ true)))
matched_by_any_iff ps s = (In-matched_by_any ps s, λ (p, (i, m)). matched_by_any-In ps s p i m)

can_iff :
    (g : Grants) (kind : GrantKind) (s : Text)
    → (can g kind s ≡ true) ↔ ((p : Text) × (IsGranted g kind p × (matches p s ≡ true)))
unfolding can list
can_iff g publish s = matched_by_any_iff g.publish s
can_iff g subscribe s = matched_by_any_iff g.subscribe s
can_iff g request s = matched_by_any_iff g.request s
can_iff g serve s = matched_by_any_iff g.serves s

-- What a call has to be: its connection is open, of this generation of a running store, the subject
-- is one of the grammar, no deny pattern matches it, a grant of the kind does, and a positive ceiling
-- is not passed by the payload.
pub record MayPass (s : Store) (c : Conn) (kind : GrantKind) (subject payload : Text) : Type 0 where
  pub open_conn : c.closed ≡ false
  pub running : s.closed ≡ false
  pub generation : c.gen ≡ s.gen
  pub parsed : parse_subject subject ≡ none
  pub allowed : All (λ d. matches d subject ≡ false) s.deny
  pub granted : (p : Text) × (IsGranted c.id.grants kind p × (matches p subject ≡ true))
  pub fits : (limit : ℕ) → s.max_payload ≡ pos limit → 0 < limit → length payload ≤ limit

alive_iff :
    (s : Store) (c : Conn)
    → (alive s c ≡ none) ↔ ((c.closed ≡ false) × ((s.closed ≡ false) × (c.gen ≡ s.gen)))
unfolding alive
alive_iff s c = ground arith

negsuc-ne : (m n : ℕ) → negsuc m ≢ pos n
negsuc-ne m n e = cc

exceeds_iff :
    (ceiling : ℤ) (n : ℕ)
    → (exceeds ceiling (pos n) ≡ false)
      ↔ ((limit : ℕ) → ceiling ≡ pos limit → 0 < limit → n ≤ limit)
exceeds_iff (pos m) n = (
  λ h limit e p. let same : m ≡ limit = cc in ground arith,
  λ h. elim (Bool-cases (ltb 0 m)) [
    | inl e ↦ let k = h m refl (ground arith) in ground arith
    | inr e ↦ rw e refl
  ],
)
exceeds_iff (negsuc m) n = (λ h limit e p. absurd (negsuc-ne m limit e), λ h. refl)

module _ (error_text : Refusal → Text) where
  check_publish_lem :
      (s : Store) (c : Conn) (kind : GrantKind) (subject payload : Text)
      → (check_publish error_text s c kind subject payload ≡ none) ↔ (
          (alive s c ≡ none)
          × ((parse_subject subject ≡ none)
              × ((deny_subject s subject ≡ false)
                  × ((can c.id.grants kind subject ≡ true)
                      × (exceeds s.max_payload (pos (length payload)) ≡ false)))))
  unfolding check_publish
  check_publish_lem s c kind subject payload = elim (Option-cases (alive s c)) [
    | inl a ↦ elim (Option-cases (parse_subject subject)) [
      | inl p ↦ ground arith
      | inr (w, p) ↦ ground arith
    ]
    | inr (f, a) ↦ ground arith
  ]

  -- The gate lets a call pass exactly when the connection is open and of the present generation, the
  -- store is not closed, the subject parses, no deny pattern matches it, a pattern granted for the
  -- kind of call does, and the payload is within MaxPayload where that is positive.
  pub check_publish_iff :
      (s : Store) (c : Conn) (kind : GrantKind) (subject payload : Text)
      → (check_publish error_text s c kind subject payload ≡ none)
        ↔ MayPass s c kind subject payload
  unfolding deny_subject
  check_publish_iff s c kind subject payload = (
    λ h.
        let (a, (p, (d, (g, x)))) = (check_publish_lem s c kind subject payload).0 h in
        let (open_conn, (running, generation)) = (alive_iff s c).0 a in
        record {
          open_conn = open_conn;
          running = running;
          generation = generation;
          parsed = p;
          allowed = deny_subject-All s.deny subject d;
          granted = (can_iff c.id.grants kind subject).0 g;
          fits = (exceeds_iff s.max_payload (length payload)).0 x;
        },
    λ m. (check_publish_lem s c kind subject payload).1 (
      (alive_iff s c).1 (m.open_conn, (m.running, m.generation)),
      (
        m.parsed,
        (
          All-deny_subject s.deny subject m.allowed,
          (
            (can_iff c.id.grants kind subject).1 m.granted,
            (exceeds_iff s.max_payload (length payload)).1 m.fits,
          ),
        ),
      ),
    ),
  )

  check_subscribe_granted :
      (s : Store) (c : Conn) (pattern : Text) (has_handler : Bool)
      → check_subscribe error_text s c pattern has_handler true ≡ none
      → can_pattern c.id.grants GrantKind.subscribe pattern ≡ true
  unfolding check_subscribe
  check_subscribe_granted s c pattern has_handler h = elim (Option-cases (alive s c)) [
    | inl a ↦ elim (Option-cases (parse_pattern pattern)) [
      | inl p ↦ ground arith
      | inr (w, p) ↦ ground arith
    ]
    | inr (f, a) ↦ ground arith
  ]

  -- A message that passed its publisher's gate and that a pattern matches which passed a
  -- subscriber's gate has a subject that the subscriber may read and that no deny pattern matches,
  -- although the test of patterns against the deny list looks for containment only.
  pub check_publish-check_subscribe :
      (s s' : Store) (sender receiver : Conn) (kind : GrantKind) (subject payload pattern : Text)
      (has_handler : Bool)
      → check_publish error_text s sender kind subject payload ≡ none
      → check_subscribe error_text s' receiver pattern has_handler true ≡ none
      → matches pattern subject ≡ true
      → (can receiver.id.grants GrantKind.subscribe subject ≡ true)
        × All (λ d. matches d subject ≡ false) s.deny
  check_publish-check_subscribe s s' sender receiver kind subject payload pattern hh p q m =
      let (_, (_, (d, _))) = (check_publish_lem s sender kind subject payload).0 p in
      (
        can_pattern-can receiver.id.grants GrantKind.subscribe pattern subject
            (check_subscribe_granted s' receiver pattern hh q) m,
        deny_subject-All s.deny subject (unfold deny_subject in d),
      )
