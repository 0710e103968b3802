-- ===== src/Memory/Stamp.antt =====
-- Identity stamping: stampWith and copyFor of v2/bus/memory/conn.go, Inject of
-- v2/bus/memory/trace.go, NewMsg of v2/bus/msg.go.
pub mod Unforgeable
use bytedesk_sdk_dependencie.Prelude.{
  is_empty, is_empty_iff, ◌≡◌, refl, Bool, true, false, Option, none, some, List, [], ◌∷◌,
  if◌then◌else◌, Text, bytes, text_eq, insert, Bool-cases, inl, inr, arith,
}
use bytedesk_sdk_dependencie.Bus.Identity.{Identity, lease_is_zero}
use bytedesk_sdk_dependencie.Bus.Msg.{
  Headers, Msg, Caller, header_caller, header_generation, header_subject, header_correlation,
  header_traceparent, lower, clone, strip_reserved, is_identity_header, caller_of, get,
}
use bytedesk_sdk_dependencie.Bus.Msg.Stamping.{
  Free, Holds, clone-Holds, clone-Free, get-Holds, get-Free, insert-Holds_self, insert-Holds_other,
  insert-Free, strip_reserved-Free,
}

-- What the context carries, and the correlation id that newCorrelation would mint.
pub record Context : Type 0 where
  pub corr : Text
  pub traceparent : Text
  pub minted : Text

-- trace.Correlation: an absent value and an empty one both make it mint.
unfoldable pub correlation : Context → Text
correlation ctx = if is_empty ctx.corr then ctx.minted else ctx.corr

-- trace.Inject
unfoldable pub inject : Context → Headers → Headers
inject ctx h =
    let out = insert header_correlation (correlation ctx) (clone h) in
    if is_empty ctx.traceparent then out else insert header_traceparent ctx.traceparent out

-- stampWith
unfoldable pub stamp_with : Context → Identity → Headers → Headers
stamp_with ctx id h =
    let out =
      insert header_generation id.generation
        (insert header_caller id.plugin_id (strip_reserved h)) in
    inject ctx (if lease_is_zero id.lease then out else insert header_subject id.lease.token out)

-- NewMsg
unfoldable pub new_msg : Text → Text → Headers → Text → Option Text → Msg
new_msg subject reply h body respond = record {
  subject = subject;
  reply = reply;
  headers = clone h;
  body = body;
  respond = respond;
}

-- copyFor: each subscriber has a message of its own.
unfoldable pub copy_for : Msg → Option Text → Msg
copy_for m reply = new_msg m.subject m.reply (clone m.headers) m.body reply
