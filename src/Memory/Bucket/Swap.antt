-- ===== src/Memory/Bucket/Swap.antt =====
-- Compare and swap: who wins, and that no update is lost.
use bytedesk_sdk_dependencie.Prelude.{
  ℕ, ◌+◌, ◌≤◌, ◌<◌, if◌then◌else◌, ◌≡◌, ◌≢◌, refl, Bool, false, none, some, List, [], ◌∷◌, ◌++◌,
  length, Text, text_eq, text_eq_refl, lookup-insert, add64, add64_lem, word, arith, Option-cases,
  Bool-cases, inl, inr, older, ◌∙◌,
}
use bytedesk_sdk_dependencie.Bus.Fault.{ok, err}
use bytedesk_sdk_dependencie.Memory.Bucket.{
  Entry, Bucket, BucketSpec, Handle, history_cap, last_entry, entries, current, newest,
  append_entry, fresh, live, get, write, put, update, not_found_fault,
}

last_entry-append : (h : List Entry) (e : Entry) → last_entry (h ++ e ∷ []) ≡ some e
unfolding last_entry
last_entry-append [] e = refl
last_entry-append (x ∷ []) e = refl
last_entry-append (x ∷ y ∷ h) e = last_entry-append (y ∷ h) e

length-newest : (max : ℕ) (h : List Entry) → length (newest max h) ≤ max
unfolding newest
length-newest max [] = omega arith
length-newest max (e ∷ h) = ground (arith, length-newest max h)

-- The cap is at least one, so the newest entry always stays.
last_entry-newest : (max : ℕ) (h : List Entry) → 0 < max → last_entry (newest max h) ≡ last_entry h
unfolding newest last_entry
last_entry-newest max [] p = refl
last_entry-newest max (e ∷ []) p = ground arith
last_entry-newest max (e ∷ f ∷ h) p = ground (arith, last_entry-newest max (f ∷ h) p)

history_cap_pos : (spec : BucketSpec) → 0 < history_cap spec
unfolding history_cap
history_cap_pos spec = ground arith

entries-append_entry :
    (key j : Text) (e : Entry) (b : Bucket)
    → entries (append_entry key e b) j ≡ (
        if text_eq key j
        then newest (history_cap b.spec) (entries b key ++ e ∷ [])
        else entries b j)
unfolding append_entry entries
entries-append_entry key j e b =
    ground
      (arith, lookup-insert key j (newest (history_cap b.spec) (entries b key ++ e ∷ [])) b.keys)

-- What was written last is current, and the other keys are as they were.
pub current-append_entry :
    (key j : Text) (e : Entry) (b : Bucket)
    → current (append_entry key e b) j ≡ (if text_eq key j then some e else current b j)
unfolding current
current-append_entry key j e b = ground (
  arith,
  entries-append_entry key j e b,
  last_entry-newest (history_cap b.spec) (entries b key ++ e ∷ []) (history_cap_pos b.spec),
  last_entry-append (entries b key) e,
)

abbrev pub entry_of : Bucket → Text → Text → Bool → ℕ → Entry
entry_of b key value deleted now = record {
  key = key;
  value = value;
  revision = add64 b.rev 1;
  created = now;
  deleted = deleted;
}

pub current-write :
    (b : Bucket) (key j value : Text) (deleted : Bool) (now : ℕ)
    → current (write b key value deleted now).1 j
      ≡ (if text_eq key j then some (entry_of b key value deleted now) else current b j)
unfolding write
current-write b key j value deleted now =
    current-append_entry key j (entry_of b key value deleted now) (record b { rev = add64 b.rev 1 })
    ∙ unfold current entries in refl

pub spec-write :
    (b : Bucket) (key value : Text) (deleted : Bool) (now : ℕ)
    → ((write b key value deleted now).1.spec ≡ b.spec)
      × ((write b key value deleted now).1.rev ≡ add64 b.rev 1)
      × ((write b key value deleted now).0 ≡ add64 b.rev 1)
unfolding write append_entry
spec-write b key value deleted now = (refl, refl, refl)

live-write :
    (b : Bucket) (key j value : Text) (now now' : ℕ)
    → live (write b key value false now).1 j now' ≡ (
        if text_eq key j
        then (if older b.spec.ttl now now' then none else some (entry_of b key value false now))
        else live b j now')
unfolding live fresh
live-write b key j value now now' =
    let c = current-write b key j value false now in
    let (s, _, _) = spec-write b key value false now in
    elim (Bool-cases (text_eq key j)) [ inl e ↦ rw (c, s, e) refl | inr e ↦ rw (c, s, e) refl ]

-- After Put of one key, Get of that key gives the value, under the next revision, until the TTL of
-- the bucket has passed, and then not-found; Get of any other key answers as before.
pub get-put :
    (bk : Handle) (b : Bucket) (key j value : Text) (now now' : ℕ)
    → bk.alive ≡ none
    → get bk (put bk b key value now).1 j now' ≡ (
        if text_eq key j
        then (if older b.spec.ttl now now'
            then err (not_found_fault bk j)
            else ok (entry_of b key value false now))
        else get bk b j now')
unfolding get put
get-put bk b key j value now now' a = ground (arith, live-write b key j value now now')

-- Every current entry has a revision that the bucket has already given.
pub record IsBounded (b : Bucket) : Type 0 where
  pub at : (key : Text) (e : Entry) → current b key ≡ some e → e.revision ≤ b.rev

write-IsBounded :
    (b : Bucket) (key value : Text) (deleted : Bool) (now : ℕ)
    → b.rev + 1 < word
    → IsBounded b
    → IsBounded (write b key value deleted now).1
write-IsBounded b key value deleted now room h = record {
  at = λ j e c. ground (
    arith,
    current-write b key j value deleted now,
    spec-write b key value deleted now,
    h.at j e,
  );
}

live-current :
    (b : Bucket) (key : Text) (now : ℕ) (e : Entry)
    → live b key now ≡ some e
    → current b key ≡ some e
unfolding live fresh
live-current b key now e h = ground arith

-- What an update that answered has done.
update-write :
    (bk : Handle) (b : Bucket) (key value : Text) (expect now r : ℕ)
    → (update bk b key value expect now).0 ≡ ok r
    → ((update bk b key value expect now).1 ≡ (write b key value false now).1)
      × ((e : Entry) × (live b key now ≡ some e) × (e.revision ≡ expect))
unfolding update
update-write bk b key value expect now r h = elim (Option-cases (live b key now)) [
  | inl gone ↦ absurd (ground arith)
  | inr (e, found) ↦ (ground arith, (e, found, ground arith))
]

-- An update that meets no live entry of the revision that it expects is refused and writes nothing.
update_refused :
    (bk : Handle) (b : Bucket) (key value : Text) (expect now r : ℕ)
    → ((e : Entry) → live b key now ≡ some e → e.revision ≢ expect)
    → ((update bk b key value expect now).0 ≢ ok r) × ((update bk b key value expect now).1 ≡ b)
unfolding update
update_refused bk b key value expect now r h = elim (Option-cases (live b key now)) [
  | inl gone ↦ (ground arith, ground arith)
  | inr (e, found) ↦ (ground (arith, h e), ground (arith, h e))
]

-- Of two updates that expect the same revision of a key, at most one is made: after one has answered,
-- the other is refused, whenever it comes, and the bucket is left as the first made it.
pub update_once :
    (bk bk' : Handle) (b : Bucket) (key value value' : Text) (expect now now' r r' : ℕ)
    → IsBounded b
    → b.rev + 1 < word
    → (update bk b key value expect now).0 ≡ ok r
    → ((update bk' (update bk b key value expect now).1 key value' expect now').0 ≢ ok r')
      × ((update bk' (update bk b key value expect now).1 key value' expect now').1
          ≡ (update bk b key value expect now).1)
update_once bk bk' b key value value' expect now now' r r' h room first =
    let (made, (e, found, same)) = update-write bk b key value expect now r first in
    let bound = h.at key e (live-current b key now e found) in
    rw made (
      update_refused bk' (write b key value false now).1 key value' expect now' r' (λ f g.
        ground
          (arith, live-write b key key value now now', text_eq_refl key, add64_lem b.rev room)))
