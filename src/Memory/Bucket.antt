-- ===== src/Memory/Bucket.antt =====
-- One key/value bucket of v2/bus/memory/kv.go, with the calls of a handle on it.
pub mod Swap
pub mod Refinement
use bytedesk_sdk_dependencie.Prelude.{
  ℕ, zero, suc, ◌+◌, ◌-◌, ◌==◌, ltb, if◌then◌else◌, Bool, true, false, ◌&&◌, ◌||◌, not, Option,
  none, some, List, [], ◌∷◌, ◌++◌, map, length, Text, bytes, Dict, lookup, insert, remove, add64,
  older, format_uint,
}
use bytedesk_sdk_dependencie.Prelude.Int.{ℤ, pos, negsuc}
use bytedesk_sdk_dependencie.Bus.Fault.{Fault, Result, ok, err, not_found, conflict, attributed}
use bytedesk_sdk_dependencie.Bus.Identity.{Identity, identity_string}
use bytedesk_sdk_dependencie.Bus.Subject.{matches}

-- bus.Entry
pub record Entry : Type 0 where
  pub key : Text
  pub value : Text
  pub revision : ℕ
  pub created : ℕ
  pub deleted : Bool

-- bus.BucketSpec, without the metadata.
pub record BucketSpec : Type 0 where
  pub name : Text
  pub history : ℤ
  pub ttl : ℤ
  pub max_bytes : ℤ

-- kvWatcher: what is queued for its reader, and why it stopped.
pub record Watcher : Type 0 where
  pub filter : Text
  pub queue : List Entry
  pub failure : Option Fault
  pub stopped : Bool

-- kvBucket
pub record Bucket : Type 0 where
  pub spec : BucketSpec
  pub rev : ℕ
  pub keys : Dict (List Entry)
  pub watchers : List Watcher

-- kvBucket.history
unfoldable pub history_cap : BucketSpec → ℕ
history_cap spec = elim spec.history [ pos n ↦ if ltb 0 n then n else 1 | negsuc n ↦ 1 ]

unfoldable pub last_entry : List Entry → Option Entry
last_entry [] = none
last_entry (e ∷ []) = some e
last_entry (e ∷ f ∷ h) = last_entry (f ∷ h)

-- b.keys[key]; a missing key reads as nil.
unfoldable pub entries : Bucket → Text → List Entry
entries b key = elim (lookup key b.keys) [ some h ↦ h | none ↦ [] ]

-- kvBucket.current
unfoldable pub current : Bucket → Text → Option Entry
current b key = last_entry (entries b key)

-- kvWatcher.offer
unfoldable pub offer : Entry → Watcher → Watcher
offer e w =
    if matches w.filter e.key
    then (if w.stopped then w else record w { queue = w.queue ++ e ∷ [] })
    else w

-- kvWatcher.stopWith
unfoldable pub stop_with : Option Fault → Watcher → Watcher
stop_with failure w =
    if w.stopped
    then w
    else record w { stopped = true; failure = elim failure [ some f ↦ some f | none ↦ w.failure ] }

-- h[len(h)-max:] where the history is longer than max
unfoldable pub newest : ℕ → List Entry → List Entry
newest max [] = []
newest max (e ∷ h) = let rest = newest max h in if ltb max (suc (length h)) then rest else e ∷ h

-- kvBucket.append
unfoldable pub append_entry : Text → Entry → Bucket → Bucket
append_entry key e b = record b {
  keys = insert key (newest (history_cap b.spec) (entries b key ++ e ∷ [])) b.keys;
  watchers = map (offer e) b.watchers;
}

-- bucket: the handle of a principal, with what conn.alive answers for it now.
pub record Handle : Type 0 where
  pub owner : Identity
  pub name : Text
  pub alive : Option Fault

abbrev pub kv_op : Handle → Text → Text
kv_op bk key = bytes "kv:" ++ (bk.name ++ (bytes "/" ++ key))

-- bucket.notFound
unfoldable pub not_found_fault : Handle → Text → Fault
not_found_fault bk key = record {
  code = not_found;
  op = kv_op bk key;
  message = attributed (identity_string bk.owner) (bytes "no such key");
}

-- bucket.conflict
unfoldable pub conflict_at : Handle → Text → Text → Fault
conflict_at bk key why = record {
  code = conflict;
  op = kv_op bk key;
  message = attributed (identity_string bk.owner) why;
}

-- An entry that is neither a tombstone nor expired.
unfoldable pub fresh : BucketSpec → Option Entry → ℕ → Option Entry
fresh spec none now = none
fresh spec (some e) now =
    if e.deleted then none else if older spec.ttl e.created now then none else some e

-- e, ok := b.current(key); !ok || e.Deleted || b.expired(e, now)
unfoldable pub live : Bucket → Text → ℕ → Option Entry
live b key now = fresh b.spec (current b key) now

-- bucket.Get
unfoldable pub get : Handle → Bucket → Text → ℕ → Result Entry
get bk b key now = elim bk.alive [
  | some dead ↦ err dead
  | none ↦ elim (live b key now) [ some e ↦ ok e | none ↦ err (not_found_fault bk key) ]
]

-- bucket.put
unfoldable pub write : Bucket → Text → Text → Bool → ℕ → ℕ × Bucket
write b key value deleted now =
    let rev = add64 b.rev 1 in
    let e : Entry = record {
      key = key;
      value = value;
      revision = rev;
      created = now;
      deleted = deleted;
    } in
    (rev, append_entry key e (record b { rev = rev }))

abbrev pub written : ℕ × Bucket → Result ℕ × Bucket
written (rev, b) = (ok rev, b)

-- bucket.Put
unfoldable pub put : Handle → Bucket → Text → Text → ℕ → Result ℕ × Bucket
put bk b key value now = elim bk.alive [
  | some dead ↦ (err dead, b)
  | none ↦ written (write b key value false now)
]

-- bucket.Create
unfoldable pub create : Handle → Bucket → Text → Text → ℕ → Result ℕ × Bucket
create bk b key value now = elim bk.alive [
  | some dead ↦ (err dead, b)
  | none ↦ elim (live b key now) [
    | some e ↦ (
      err (conflict_at bk key (bytes "key already exists at revision " ++ format_uint e.revision)),
      b,
    )
    | none ↦ written (write b key value false now)
  ]
]

-- bucket.Update
unfoldable pub update : Handle → Bucket → Text → Text → ℕ → ℕ → Result ℕ × Bucket
update bk b key value expect now = elim bk.alive [
  | some dead ↦ (err dead, b)
  | none ↦ elim (live b key now) [
    | none ↦ (err (not_found_fault bk key), b)
    | some e ↦ if e.revision == expect then written (write b key value false now) else (
      err (
          conflict_at bk key (
            bytes "expected revision "
            ++ (format_uint expect ++ (bytes " but key is at " ++ format_uint e.revision)))),
      b,
    )
  ]
]

-- The test of bucket.Delete: an expired entry still counts as there.
abbrev standing : Bucket → Text → Bool
standing b key = elim (current b key) [ none ↦ false | some e ↦ not e.deleted ]

-- bucket.Delete
unfoldable pub delete : Handle → Bucket → Text → ℕ → Option Fault × Bucket
delete bk b key now = elim bk.alive [
  | some dead ↦ (some dead, b)
  | none ↦
      if standing b key
      then (none, (write b key [] true now).1)
      else (some (not_found_fault bk key), b)
]

-- bucket.Purge
unfoldable pub purge : Handle → Bucket → Text → ℕ → Option Fault × Bucket
purge bk b key now = elim bk.alive [
  | some dead ↦ (some dead, b)
  | none ↦ elim (lookup key b.keys) [
    | none ↦ (some (not_found_fault bk key), b)
    | some h ↦
        let rev = add64 b.rev 1 in
        let e : Entry = record {
          key = key;
          value = [];
          revision = rev;
          created = now;
          deleted = true;
        } in
        (
          none,
          record b { rev = rev; keys = remove key b.keys; watchers = map (offer e) b.watchers },
        )
  ]
]

-- bucket.History
unfoldable pub history : Handle → Bucket → Text → Result (List Entry)
history bk b key = elim bk.alive [
  | some dead ↦ err dead
  | none ↦ elim (lookup key b.keys) [ some h ↦ ok h | none ↦ err (not_found_fault bk key) ]
]
