-- ===== src/Memory/Stamp/Unforgeable.antt =====
-- Whatever headers a caller supplies, a handler reads the identity of the connection.
use bytedesk_sdk_dependencie.Prelude.{
  is_empty, is_empty_iff, ◌≡◌, refl, true, false, Option, none, [], Text, bytes, text_eq, insert,
  inl, inr, ◌⊎◌, ◌∙◌, sym, if_cases,
}
use bytedesk_sdk_dependencie.Bus.Identity.{Identity, lease_is_zero}
use bytedesk_sdk_dependencie.Bus.Msg.{
  Headers, header_msg_id, header_caller, header_generation, header_subject, header_correlation,
  header_traceparent, lower, clone, strip_reserved, is_identity_header, caller_of, get,
}
use bytedesk_sdk_dependencie.Bus.Msg.Stamping.{
  Free, Holds, clone-Holds, clone-Free, get-Holds, get-Free, insert-Holds_self, insert-Holds_other,
  insert-Free, strip_reserved-Free,
}
use bytedesk_sdk_dependencie.Memory.Stamp.{
  Context, correlation, inject, stamp_with, new_msg, copy_for,
}

-- A name of the identity triple, against the names that are written after it.
record IsIdentityName (j : Text) : Type 0 where
  lower_case : lower j ≡ j
  stripped : is_identity_header j ≡ true
  not_corr : text_eq header_correlation j ≡ false
  not_trace : text_eq header_traceparent j ≡ false

caller-IsIdentityName : IsIdentityName header_caller
unfolding lower header_caller header_generation header_subject header_correlation header_traceparent
    bytes is_identity_header text_eq
caller-IsIdentityName = record {
  lower_case = refl;
  stripped = refl;
  not_corr = refl;
  not_trace = refl;
}

generation-IsIdentityName : IsIdentityName header_generation
unfolding lower header_caller header_generation header_subject header_correlation header_traceparent
    bytes is_identity_header text_eq
generation-IsIdentityName = record {
  lower_case = refl;
  stripped = refl;
  not_corr = refl;
  not_trace = refl;
}

subject-IsIdentityName : IsIdentityName header_subject
unfolding lower header_caller header_generation header_subject header_correlation header_traceparent
    bytes is_identity_header text_eq
subject-IsIdentityName = record {
  lower_case = refl;
  stripped = refl;
  not_corr = refl;
  not_trace = refl;
}

other_names_are_lower :
    (lower header_correlation ≡ header_correlation)
    × (lower header_traceparent ≡ header_traceparent)
unfolding lower header_correlation header_traceparent bytes
other_names_are_lower = (refl, refl)

triple_differs :
    (text_eq header_caller header_generation ≡ false)
    × (text_eq header_caller header_subject ≡ false)
    × (text_eq header_generation header_caller ≡ false)
    × (text_eq header_generation header_subject ≡ false)
    × (text_eq header_subject header_caller ≡ false)
    × (text_eq header_subject header_generation ≡ false)
unfolding header_caller header_generation header_subject bytes text_eq
triple_differs = (refl, refl, refl, refl, refl, refl)

-- What a handler reads under `j` is `x`: it was written, or `x` is empty and nothing was.
abbrev Reads : Text → Text → Headers → Type 0
Reads j x h = Holds j x h ⊎ ((x ≡ []) × Free j h)

clone-Reads : (j x : Text) (h : Headers) → lower j ≡ j → Reads j x h → Reads j x (clone h)
clone-Reads j x h l (inl s) = inl (clone-Holds j x h l s)
clone-Reads j x h l (inr (e, f)) = inr (e, clone-Free j h f)

insert-Reads_other :
    (j x k v : Text) (h : Headers)
    → lower k ≡ k
    → text_eq k j ≡ false
    → Reads j x h
    → Reads j x (insert k v h)
insert-Reads_other j x k v h l n (inl s) = inl (insert-Holds_other j x k v h l n s)
insert-Reads_other j x k v h l n (inr (e, f)) = inr (e, insert-Free j k v h l n f)

get-Reads : (j x : Text) (h : Headers) → lower j ≡ j → Reads j x h → get h j ≡ x
get-Reads j x h l (inl s) = get-Holds j x h s
get-Reads j x h l (inr (e, f)) = get-Free j h l f ∙ sym e

inject-Reads :
    (ctx : Context) (j x : Text) (h : Headers)
    → IsIdentityName j
    → Reads j x h
    → Reads j x (inject ctx h)
unfolding inject
inject-Reads ctx j x h n s =
    let (lc, lt) = other_names_are_lower in
    let c =
      insert-Reads_other j x header_correlation (correlation ctx) (clone h) lc n.not_corr
        (clone-Reads j x h n.lower_case s) in
    if_cases (Reads j x) (is_empty ctx.traceparent) _ _ (λ _. c)
      (λ _. insert-Reads_other j x header_traceparent ctx.traceparent _ lt n.not_trace c)

stripped-Free : (j : Text) (h : Headers) → IsIdentityName j → Free j (strip_reserved h)
stripped-Free j h n = strip_reserved-Free j h n.stripped n.lower_case

module _ (ctx : Context) (id : Identity) (h : Headers) where
  stamp_with-caller : Reads header_caller id.plugin_id (stamp_with ctx id h)
  unfolding stamp_with
  stamp_with-caller =
      let (_, _, gc, _, sc, _) = triple_differs in
      let c =
        insert-Reads_other header_caller id.plugin_id header_generation id.generation _
          generation-IsIdentityName.lower_case gc
          (inl (
            insert-Holds_self header_caller id.plugin_id (strip_reserved h)
              (stripped-Free header_caller h caller-IsIdentityName))) in
      inject-Reads ctx header_caller id.plugin_id _ caller-IsIdentityName (
        if_cases (Reads header_caller id.plugin_id) (lease_is_zero id.lease) _ _ (λ _. c)
          (λ _.
            insert-Reads_other header_caller id.plugin_id header_subject id.lease.token _
              subject-IsIdentityName.lower_case sc c))

  stamp_with-generation : Reads header_generation id.generation (stamp_with ctx id h)
  unfolding stamp_with
  stamp_with-generation =
      let (cg, _, _, _, _, sg) = triple_differs in
      let c = inl (
        insert-Holds_self header_generation id.generation _ (
          insert-Free header_generation header_caller id.plugin_id (strip_reserved h)
            caller-IsIdentityName.lower_case cg
            (stripped-Free header_generation h generation-IsIdentityName))) in
      inject-Reads ctx header_generation id.generation _ generation-IsIdentityName (
        if_cases (Reads header_generation id.generation) (lease_is_zero id.lease) _ _ (λ _. c)
          (λ _.
            insert-Reads_other header_generation id.generation header_subject id.lease.token _
              subject-IsIdentityName.lower_case sg c))

  stamp_with-subject : Reads header_subject id.lease.token (stamp_with ctx id h)
  unfolding stamp_with
  stamp_with-subject =
      let (_, cs, _, gs, _, _) = triple_differs in
      let f =
        insert-Free header_subject header_generation id.generation _
          generation-IsIdentityName.lower_case gs
          (insert-Free header_subject header_caller id.plugin_id (strip_reserved h)
            caller-IsIdentityName.lower_case cs
            (stripped-Free header_subject h subject-IsIdentityName)) in
      inject-Reads ctx header_subject id.lease.token _ subject-IsIdentityName (
        if_cases (Reads header_subject id.lease.token) (lease_is_zero id.lease) _ _
          (λ e. inr ((is_empty_iff id.lease.token).0 e, f))
          (λ _. inl (insert-Holds_self header_subject id.lease.token _ f)))

-- A handler reads the plugin id, the generation and the lease of an identity.
pub record IsStampedBy (id : Identity) (h : Headers) : Type 0 where
  pub caller : get h header_caller ≡ id.plugin_id
  pub generation : get h header_generation ≡ id.generation
  pub lease : get h header_subject ≡ id.lease.token

pub stamp_with-IsStampedBy :
    (ctx : Context) (id : Identity) (h : Headers) → IsStampedBy id (stamp_with ctx id h)
stamp_with-IsStampedBy ctx id h = record {
  caller =
      get-Reads header_caller id.plugin_id _ caller-IsIdentityName.lower_case
        (stamp_with-caller ctx id h);
  generation =
      get-Reads header_generation id.generation _ generation-IsIdentityName.lower_case
        (stamp_with-generation ctx id h);
  lease =
      get-Reads header_subject id.lease.token _ subject-IsIdentityName.lower_case
        (stamp_with-subject ctx id h);
}

msg_id_differs :
    (lower header_msg_id ≡ header_msg_id)
    × (text_eq header_msg_id header_caller ≡ false)
    × (text_eq header_msg_id header_generation ≡ false)
    × (text_eq header_msg_id header_subject ≡ false)
unfolding lower header_msg_id header_caller header_generation header_subject bytes text_eq
msg_id_differs = (refl, refl, refl, refl)

-- A message id that is written besides does not disturb the stamp.
pub insert-IsStampedBy :
    (ctx : Context) (id : Identity) (h : Headers) (msg_id : Text)
    → IsStampedBy id (insert header_msg_id msg_id (stamp_with ctx id h))
insert-IsStampedBy ctx id h msg_id =
    let (l, c, g, s) = msg_id_differs in
    record {
      caller = get-Reads header_caller id.plugin_id _ caller-IsIdentityName.lower_case (
          insert-Reads_other header_caller id.plugin_id header_msg_id msg_id _ l c
            (stamp_with-caller ctx id h));
      generation =
          get-Reads header_generation id.generation _ generation-IsIdentityName.lower_case (
            insert-Reads_other header_generation id.generation header_msg_id msg_id _ l g
              (stamp_with-generation ctx id h));
      lease = get-Reads header_subject id.lease.token _ subject-IsIdentityName.lower_case (
          insert-Reads_other header_subject id.lease.token header_msg_id msg_id _ l s
            (stamp_with-subject ctx id h));
    }

delivered-Reads :
    (j x subject : Text) (reply : Text) (body : Text) (h : Headers) (to : Option Text)
    → lower j ≡ j
    → Reads j x h
    → get (copy_for (new_msg subject reply h body none) to).headers j ≡ x
unfolding copy_for new_msg
delivered-Reads j x subject reply body h to l r =
    get-Reads j x _ l (clone-Reads j x _ l (clone-Reads j x _ l (clone-Reads j x h l r)))

-- Whatever headers the sender wrote, the handler of a delivered message reads the plugin id, the
-- generation and the lease of the sending connection, and an empty lease if it has none.
pub caller_of-delivered :
    (ctx : Context) (id : Identity) (h : Headers) (subject reply body : Text) (to : Option Text)
    → caller_of (copy_for (new_msg subject reply (stamp_with ctx id h) body none) to) ≡ record {
      plugin_id = id.plugin_id;
      generation = id.generation;
      subject_lease = id.lease.token;
    }
unfolding caller_of
caller_of-delivered ctx id h subject reply body to = cc (
  delivered-Reads header_caller id.plugin_id subject reply body (stamp_with ctx id h) to
      caller-IsIdentityName.lower_case (stamp_with-caller ctx id h),
  delivered-Reads header_generation id.generation subject reply body (stamp_with ctx id h) to
      generation-IsIdentityName.lower_case (stamp_with-generation ctx id h),
  delivered-Reads header_subject id.lease.token subject reply body (stamp_with ctx id h) to
      subject-IsIdentityName.lower_case (stamp_with-subject ctx id h),
)
