-- ===== src/Memory/Bucket/Refinement.antt =====
-- What bus.Bucket promises of a bucket without a TTL, without its histories, its tombstones and its
-- watchers: a map from keys to values under revisions.
use bytedesk_sdk_dependencie.Prelude.{
  ℕ, ◌==◌, ◌≡◌, if◌then◌else◌, false, Option, none, some, List, [], ◌∷◌, Text, text_eq, add64,
}
use bytedesk_sdk_dependencie.Prelude.Int.{pos}
use bytedesk_sdk_dependencie.Bus.Fault.{FaultCode, conflict, not_found, Result, ok, err}
use bytedesk_sdk_dependencie.Memory.Bucket.{
  Entry, Bucket, Handle, current, get, put, create, update, delete,
}

-- The calls of a connection on one bucket.
pub data Op : Type 0 where
  read : Text → Op
  store : Text → Text → Op
  add : Text → Text → Op
  swap : Text → Text → ℕ → Op
  erase : Text → Op

pub data Outcome : Type 0 where
  got : Entry → Outcome
  wrote : ℕ → Outcome
  erased : Outcome
  refused : FaultCode → Outcome

abbrev of_write : Result ℕ × Bucket → Outcome × Bucket
of_write (ok n, b) = (wrote n, b)
of_write (err f, b) = (refused f.code, b)

-- A call on the bucket.
unfoldable pub perform : Handle → Bucket → Op → ℕ → Outcome × Bucket
perform bk b (read key) now = (elim (get bk b key now) [ ok e ↦ got e | err f ↦ refused f.code ], b)
perform bk b (store key value) now = of_write (put bk b key value now)
perform bk b (add key value) now = of_write (create bk b key value now)
perform bk b (swap key value expect) now = of_write (update bk b key value expect now)
perform bk b (erase key) now =
    let (answer, b') = delete bk b key now in
    (elim answer [ none ↦ erased | some f ↦ refused f.code ], b')

-- The map: for each key the entry that was stored last, unless it was erased.
pub record Cells : Type 0 where
  pub rev : ℕ
  pub cell : Text → Option Entry

abbrev pub stored_as : Cells → Text → Text → ℕ → Entry
stored_as c key value now = record {
  key = key;
  value = value;
  revision = add64 c.rev 1;
  created = now;
  deleted = false;
}

abbrev pub set_cell : Cells → Text → Option Entry → Cells
set_cell c key held = record {
  rev = add64 c.rev 1;
  cell = λ j. if text_eq key j then held else c.cell j;
}

abbrev pub store_in : Cells → Text → Text → ℕ → Outcome × Cells
store_in c key value now =
    (wrote (add64 c.rev 1), set_cell c key (some (stored_as c key value now)))

-- A call on the map, as bus.Bucket documents it.
unfoldable pub perform_on : Cells → Op → ℕ → Outcome × Cells
perform_on c (read key) now = (elim (c.cell key) [ some e ↦ got e | none ↦ refused not_found ], c)
perform_on c (store key value) now = store_in c key value now
perform_on c (add key value) now = elim (c.cell key) [
  | some e ↦ (refused conflict, c)
  | none ↦ store_in c key value now
]
perform_on c (swap key value expect) now = elim (c.cell key) [
  | none ↦ (refused conflict, c)
  | some e ↦ if e.revision == expect then store_in c key value now else (refused conflict, c)
]
perform_on c (erase key) now = elim (c.cell key) [
  | none ↦ (refused not_found, c)
  | some e ↦ (erased, set_cell c key none)
]

-- An Update is of a key that is there: of a missing one the implementation answers not_found.
abbrev pub Finds : Cells → Op → Type 0
Finds c (read key) = Unit
Finds c (store key value) = Unit
Finds c (add key value) = Unit
Finds c (swap key value expect) = (e : Entry) × (c.cell key ≡ some e)
Finds c (erase key) = Unit

abbrev pub AllFind : Cells → List (Op × ℕ) → Type 0
AllFind c [] = Unit
AllFind c ((op, now) ∷ ops) = Finds c op × AllFind (perform_on c op now).1 ops

-- A tombstone is no entry.
unfoldable pub visible : Option Entry → Option Entry
visible none = none
visible (some e) = if e.deleted then none else some e

pub record Refines (b : Bucket) (c : Cells) : Type 0 where
  pub lasting : (d : ℕ) → b.spec.ttl ≡ pos d → d ≡ 0
  pub rev : b.rev ≡ c.rev
  pub cells : (key : Text) → visible (current b key) ≡ c.cell key

-- A call answers the same on both, and leaves both in step.
abbrev Agree : Outcome × Bucket → Outcome × Cells → Type 0
Agree x y = (x.0 ≡ y.0) × Refines x.1 y.1

-- The outcomes of a sequence of calls, each at its time.
unfoldable pub outcomes : Handle → Bucket → List (Op × ℕ) → List Outcome
outcomes bk b [] = []
outcomes bk b ((op, now) ∷ ops) =
    let (outcome, b') = perform bk b op now in outcome ∷ outcomes bk b' ops

unfoldable pub outcomes_on : Cells → List (Op × ℕ) → List Outcome
outcomes_on c [] = []
outcomes_on c ((op, now) ∷ ops) =
    let (outcome, c') = perform_on c op now in outcome ∷ outcomes_on c' ops
