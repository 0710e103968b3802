-- ===== src/Lib.antt =====
-- Verification of the ByteDesk SDK dependencies (Go).
--
-- The program is the common plugin contract of the ByteDesk hosts. Its core is the message bus of
-- v2/bus: an addressing grammar with one matcher (subject.go), identities with effective grants
-- (identity.go), typed faults (fault.go) and messages with stamped headers (msg.go), and the in-memory
-- substrate v2/bus/memory, which enforces grants and carries streams and consumers.
--
--   Prelude    shared helpers: Boolean tests, lists, byte texts, sorting, maps, integers, words, and formatUint
--              of v2/bus/memory/store.go (Prelude/Decimal)
--   Bus        v2/bus: Subject (ParseSubject, ParsePattern, Matches, Covers), Fault, Identity (Grants,
--              Can, CanPattern, CanUse), Msg (Headers, StripReserved, CallerOf)
--   Memory     v2/bus/memory: Stamp (stampWith, Inject, copyFor), Stream (expire, trim, find, Purge),
--              Append (appendLocked), Consumer (markAcked, nextLocked, buildLocked), Bucket (one
--              key/value bucket of kv.go), Subscription (the queue of sub.go), Gate (checkPublish,
--              subscribe and the lifecycle of the store in conn.go and store.go), Delivery (matchLocked,
--              deliver), StreamCalls (the calls of bus.Streams in streams.go: Declare, Publish,
--              PublishBatch, Counter, Purge, Delete), Consuming (Fetch, Info, and a consumer's Cursor,
--              Reset and Info), Cursor (cursor.go), Cron (cron.go), Services (services.go: Serve, Stop,
--              Discover), Scheduler (scheduler.go: the calls, and the shots of the store's timer)
--   Manifest   v2/plugin: the manifest (manifest.go), its findings (diagnostic.go), the namespace of a
--              plugin and the ineligible families (Namespace), patternsOverlap (Overlap),
--              validateSubjectPatterns (Subjects), the extension points (Points, with points.go),
--              validateServes (Serves) and validateAssets (Assets), GrantsDigest (Digest, with
--              digest.go); Findings has the lemmas on findings without an error
--   Attest     v2/attest: the envelope (envelope.go), SignPublisher, Countersign, Verify and LoadRoots
--              (Sign, with sign.go), the publisher registry (Registry, with registry.go)
--   Plugin     plugin: DocumentPaths (document_paths.go), ContributionRoles (contribution_roles.go)
--   Tests      runs of the definitions, and the theorems at concrete inputs
--
-- Modelling. A Go string is its list of bytes (Text); strings.ToLower is the one of ASCII texts. A Go
-- map is an association list, whose order stands for the order in which a loop sees it. A uint64 keeps
-- its wrap-around (add64, sub64), an int64 is a signed integer, an instant counts nanoseconds, and the
-- zero time is an absent value. An error is the Fault that it carries, without the wrapped cause, or
-- for the parser the reason that it gives. A method that holds the store's lock is a function of the
-- state; time, the correlation id that would be minted and the values of a context are arguments.
--
-- Fuel. markAcked has one round for each acknowledged number and one to stop; nextLocked has one for
-- each sequence number up to the last; formatUint has the 20 places of its array; a cron range has one
-- for each number in it, and cronExpr.next one for each minute up to its limit. That this is enough
-- is part of the theorems about them.
--
-- Fetch is modelled one round at a time, since other calls may come between its rounds; its looks at
-- the clock are the instants of a function. A consumer state that Go shares by a pointer stands in a map
-- (the durable ones by stream and name, those of Fetch by their key).
--
-- A subscription is the sequence of the events that befall it, one at a time as its mutex has it: its
-- goroutine is the event of one turn of its loop, its closed channels are flags. The store and its
-- connections refer to each other by number. url.PathUnescape, utf8.ValidString, unicode.IsControl,
-- HMAC, SHA-256, Ed25519, base64, the JSON decoder, strconv.Quote and the calendar of package time are
-- parameters, as is the text of a parse error. An error of v2/attest is the one that errors.Is finds.
-- strings.TrimSpace is the one of ASCII texts. A finding has its code and its path, not its wording.
--
-- Serve runs without another call in between the subscriptions that it makes.
--
-- Not modelled: the scheduler of goroutines, that is when an event happens; Consume, whose goroutine
-- repeats a round of Fetch; the objects of the substrate, Request and Call; JSON and files; the schema
-- generators, the v1 module and the payload contracts; of a manifest, the validators of its kind,
-- identity, static mounts, aliases, routes, configuration and user interface.
pub mod Prelude
pub mod Bus
pub mod Memory
pub mod Plugin
pub mod Manifest
pub mod Attest
mod Tests
