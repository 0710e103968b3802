-- ===== src/Memory/StreamCalls/Routing.antt =====
-- Where a publish goes in v2/bus/memory/streams.go: what checkPublish and routeLocked let pass.
use bytedesk_sdk_dependencie.Prelude.{
  ◌⊎◌, ◌++◌, add64, refl, sym, ap, ◌∙◌, is_empty_iff, text_eq_refl, ℕ, ◌≡◌, ◌≢◌, true, false, ◌&&◌,
  none, some, [], ◌∷◌, length, Text, text_eq_iff, lookup, lookup-insert, exceeds, arith,
  Option-cases, Bool-cases, inl, inr, In, here, there, subst,
}
use bytedesk_sdk_dependencie.Prelude.Int.{pos}
use bytedesk_sdk_dependencie.Bus.Fault.{Result-cases, ok}
use bytedesk_sdk_dependencie.Bus.Subject.{Refusal, parse_subject, matched_by_any}
use bytedesk_sdk_dependencie.Bus.Identity.{Identity, AssetKind, can_use}
use bytedesk_sdk_dependencie.Memory.Stamp.{Context}
use bytedesk_sdk_dependencie.Memory.Stream.{
  StoredMsg, DedupeEntry, Stream, covers_subject, trim, expire,
}
use bytedesk_sdk_dependencie.Memory.Append.{
  PublishOptions, append_locked, repeat_of, store_msg, stored,
}
use bytedesk_sdk_dependencie.Memory.Append.Outcomes.{
  IsStoredFor, stored-IsStoredFor, last_seq-expire, append_live_ok, append_live_repeat,
}
use bytedesk_sdk_dependencie.Memory.StreamCalls.{
  Account, Streams, off, find_route, check_stream_publish, publish_on, publish,
}

-- A stream that the principal may use and that covers the subject.
pub record IsRoute (a : Account) (subject : Text) (streams : Streams) (route : Text × Stream)
    : Type 0 where
  pub held : In route streams
  pub granted : can_use a.owner.grants AssetKind.stream route.0 ≡ true
  pub covering : covers_subject route.1 subject ≡ true

pub find_route-IsRoute :
    (a : Account) (subject : Text) (streams : Streams) (route : Text × Stream)
    → find_route a subject streams ≡ some route
    → IsRoute a subject streams route
unfolding find_route
find_route-IsRoute a subject [] route h = absurd (ground arith)
find_route-IsRoute a subject ((name, st) ∷ streams) route h =
    elim (Bool-cases (can_use a.owner.grants AssetKind.stream name && covers_subject st subject)) [
      | inl e ↦
          let same : (name, st) ≡ route = ground arith in
          subst (IsRoute a subject ((name, st) ∷ streams)) same
            (record { held = here; granted = ground arith; covering = ground arith })
      | inr e ↦
          let r = find_route-IsRoute a subject streams route (ground arith) in
          record { held = there r.held; granted = r.granted; covering = r.covering }
    ]

-- What a published message has passed.
pub record IsCleared (a : Account) (subject body : Text) : Type 0 where
  pub alive : a.alive ≡ none
  pub parsed : parse_subject subject ≡ none
  pub allowed : matched_by_any a.deny subject ≡ false
  pub fits : exceeds a.max_payload (pos (length body)) ≡ false

check_stream_publish-IsCleared :
    (error_text : Refusal → Text) (a : Account) (subject body : Text)
    → off a subject ≡ none
    → check_stream_publish error_text a subject body ≡ none
    → IsCleared a subject body
unfolding check_stream_publish off
check_stream_publish-IsCleared error_text a subject body o c = record {
  alive = ground arith;
  parsed = ground arith;
  allowed = ground arith;
  fits = ground arith;
}

publish_on-other :
    (a : Account) (ctx : Context) (now : ℕ) (subject body : Text) (o : PublishOptions)
    (route : Text × Stream) (streams : Streams) (other : Text)
    → other ≢ route.0
    → lookup other (publish_on a ctx now subject body o route streams).1 ≡ lookup other streams
unfolding publish_on
publish_on-other a ctx now subject body o (name, st) streams other h =
    elim (Result-cases (append_locked ctx a.owner now subject body o st).0) [
      | inl (seq, e) ↦ ground (
        arith,
        lookup-insert name other (trim (append_locked ctx a.owner now subject body o st).1) streams,
        text_eq_iff name other,
      )
      | inr (f, e) ↦ ground (
        arith,
        lookup-insert name other (append_locked ctx a.owner now subject body o st).1 streams,
        text_eq_iff name other,
      )
    ]

-- What the stream holds before it is trimmed: one message more, with the next sequence number, and
-- stored for the publish.
pub record IsGrown (id : Identity) (seq now : ℕ) (subject body : Text) (o : PublishOptions)
    (st st' : Stream) : Type 0 where
  pub next_seq : seq ≡ add64 st.last_seq 1
  pub last : st'.last_seq ≡ seq
  pub added :
      (m : StoredMsg) × ((st'.msgs ≡ (expire now st).msgs ++ m ∷ [])
        × IsStoredFor id seq now subject body o m)

-- The message id stands among the remembered ones with the number that is answered.
pub record IsRepeat (seq now : ℕ) (o : PublishOptions) (st : Stream) : Type 0 where
  pub named : o.msg_id ≢ []
  pub remembered :
      (prev : DedupeEntry) × ((lookup o.msg_id (expire now st).dedupe ≡ some prev)
        × (prev.seq ≡ seq))

-- What becomes of the stream under a name.
abbrev pub Lands :
    Identity → ℕ → ℕ → Text → Text → PublishOptions → Text × Stream → Streams → Type 0
Lands id seq now subject body o (name, st) after =
    ((st' : Stream) × (IsGrown id seq now subject body o st st'
        × (lookup name after ≡ some (trim st'))))
    ⊎ (IsRepeat seq now o st × (lookup name after ≡ some (trim (expire now st))))

repeat_of-IsRepeat :
    (seq now : ℕ) (o : PublishOptions) (st : Stream)
    → repeat_of (expire now st) now o.msg_id ≡ some seq
    → IsRepeat seq now o st
unfolding repeat_of
repeat_of-IsRepeat seq now o st h = elim (Option-cases (lookup o.msg_id (expire now st).dedupe)) [
  | inl e ↦ absurd (ground arith)
  | inr (prev, e) ↦ record {
    named = λ n. ground (arith, is_empty_iff o.msg_id);
    remembered = (prev, (e, ground arith));
  }
]

store_msg-IsGrown :
    (ctx : Context) (id : Identity) (now : ℕ) (subject body : Text) (o : PublishOptions)
    (st : Stream)
    → IsGrown id
        (add64 st.last_seq 1)
        now
        subject
        body
        o
        st
        (store_msg ctx id now subject body o (expire now st))
unfolding store_msg
store_msg-IsGrown ctx id now subject body o st =
    let seq = add64 st.last_seq 1 in
    let e = last_seq-expire now st in
    record {
      next_seq = refl;
      last = ap (λ n. add64 n 1) e;
      added = (
        stored ctx id (add64 (expire now st).last_seq 1) now subject body o,
        (refl, rw e (stored-IsStoredFor ctx id seq now subject body o)),
      );
    }

publish_on-same :
    (a : Account) (ctx : Context) (now : ℕ) (subject body : Text) (o : PublishOptions) (name : Text)
    (st : Stream) (streams : Streams) (seq : ℕ)
    → (append_locked ctx a.owner now subject body o st).0 ≡ ok seq
    → lookup name (publish_on a ctx now subject body o (name, st) streams).1
      ≡ some (trim (append_locked ctx a.owner now subject body o st).1)
unfolding publish_on
publish_on-same a ctx now subject body o name st streams seq e = ground (
  arith,
  lookup-insert name name (trim (append_locked ctx a.owner now subject body o st).1) streams,
  text_eq_refl name,
)

publish_on-answer :
    (a : Account) (ctx : Context) (now : ℕ) (subject body : Text) (o : PublishOptions) (name : Text)
    (st : Stream) (streams : Streams) (seq : ℕ)
    → (publish_on a ctx now subject body o (name, st) streams).0 ≡ ok seq
    → (append_locked ctx a.owner now subject body o st).0 ≡ ok seq
unfolding publish_on
publish_on-answer a ctx now subject body o name st streams seq h =
    elim (Result-cases (append_locked ctx a.owner now subject body o st).0) [
      | inl (n, e) ↦ ground arith
      | inr (f, e) ↦ absurd (ground arith)
    ]

publish_on-Lands :
    (a : Account) (ctx : Context) (now : ℕ) (subject body : Text) (o : PublishOptions) (name : Text)
    (st : Stream) (streams : Streams) (seq : ℕ)
    → (publish_on a ctx now subject body o (name, st) streams).0 ≡ ok seq
    → Lands a.owner seq now subject body o
        (name, st)
        (publish_on a ctx now subject body o (name, st) streams).1
unfolding append_locked expire
publish_on-Lands a ctx now subject body o name st streams seq h =
    let answer = publish_on-answer a ctx now subject body o name st streams seq h in
    let held = publish_on-same a ctx now subject body o name st streams seq answer in
    elim (Option-cases (repeat_of (expire now st) now o.msg_id)) [
      | inr (n, e) ↦
          let w = append_live_repeat ctx a.owner now n subject body o (expire now st) e in
          let same : n ≡ seq = ground arith in
          inr (repeat_of-IsRepeat seq now o st (rw same at e), held ∙ ap (λ r. some (trim r.1)) w)
      | inl e ↦
          let (es, w) =
            append_live_ok ctx a.owner now seq subject body o (expire now st) e answer in
          inl (
            store_msg ctx a.owner now subject body o (expire now st),
            (
              rw es (store_msg-IsGrown ctx a.owner now subject body o st),
              held ∙ ap (λ k. some (trim k)) w,
            ),
          )
    ]

-- A publish that answers a sequence number has passed every test, and goes to a stream that the
-- principal may use and that covers the subject. After it that stream is the trimmed one of what it
-- was with one message more, under that next number and stored for the publish, or the message id is
-- remembered under that number and nothing is added. Every other stream is left as it was.
pub publish_sound :
    (error_text : Refusal → Text) (a : Account) (ctx : Context) (now : ℕ) (subject body : Text)
    (o : PublishOptions) (streams : Streams) (seq : ℕ)
    → (publish error_text a ctx now subject body o streams).0 ≡ ok seq
    → IsCleared a subject body
      × ((route : Text × Stream) × IsRoute a subject streams route
          × (Lands a.owner seq now subject body o route
                (publish error_text a ctx now subject body o streams).1
              × ((other : Text)
                  → other ≢ route.0
                  → lookup other (publish error_text a ctx now subject body o streams).1
                    ≡ lookup other streams)))
unfolding publish
publish_sound error_text a ctx now subject body o streams seq h =
    elim (Option-cases (off a subject)) [
      | inr (f, e) ↦ absurd (ground arith)
      | inl e ↦ elim (Option-cases (check_stream_publish error_text a subject body)) [
        | inr (f, c) ↦ absurd (ground arith)
        | inl c ↦ elim (Option-cases (find_route a subject streams)) [
          | inl r ↦ absurd (ground arith)
          | inr ((name, st), r) ↦
              let done : publish error_text a ctx now subject body o streams
                  ≡ publish_on a ctx now subject body o (name, st) streams =
                ground arith in
              (
                check_stream_publish-IsCleared error_text a subject body e c,
                (
                  (name, st),
                  find_route-IsRoute a subject streams (name, st) r,
                  (
                    subst (λ k. Lands a.owner seq now subject body o (name, st) k.1) (sym done)
                        (publish_on-Lands a ctx now subject body o name st streams seq
                          (ap (λ k. k.0) (sym done) ∙ h)),
                    λ other apart.
                        ap (λ k. lookup other k.1) done
                        ∙ publish_on-other a ctx now subject body o (name, st) streams other apart,
                  ),
                ),
              )
        ]
      ]
    ]
