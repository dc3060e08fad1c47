-- ===== src/Lib.antt =====
-- AuthStunt hands test runs the one-time codes and links that arrive by mail. A run leases an
-- identity (an address of the project); mail that arrives for the address is bound to the lease
-- that covers its arrival; a claim hands the secret of a bound message over once and records it.
-- Every step writes a redacted event to the ledger. All of it is one database with one writer.
-- Streams of events tell the clients what arrived.
--
-- The parts, with the files of the repository that they follow:
--   Store/Models    the rows and enumerations           internal/store/models.go
--   Store/Monad     clock, ids, transactions            internal/store/store.go, tx.go, ids.go
--   Store/Address   addresses and allowlists            internal/store/address.go, domain.go
--   Store/Trail     rows of the ledger                  internal/store/ledger.go
--   Store/Identities, Leases, Runs, Bindings, Claims, Messages
--                   the operations on each table        internal/store/<the same name>.go
--   Ledger/Events   the events and their redaction      internal/ledger/events.go
--   Personas/Config, Address, Acquire
--                   the lease service                   internal/personas/lease.go
--   Personas/Claim  the claim service                   internal/personas/claim.go
--   Smtp/Ingest     the delivery of a message           internal/smtp/ingest.go
--   Store/Listing   reads and listings of messages      internal/store/messages.go, cursor.go
--   Store/Projects  bearers and allowlists              internal/store/projects.go, events.go
--   Sse/Id, Ring, Bus, Hub
--                   the event bus and its streams       internal/sse/id.go, ring.go, bus.go,
--                                                       waiters.go, hub.go
--   Extract/Spans, Otp
--                   codes in the text of a mail         internal/extract/extract.go, otp.go
--   History/Calls   the calls that a server makes, in any order, and the stores they reach
--
-- A Go function has the name of its definition in snake case, and a method on a transaction has
-- the prefix `tx_` where the store has a method of the same name. A call is a function from the
-- store to an outcome, a result or an error, with the store that it leaves. A transaction that
-- fails puts the tables back, and not the clock nor the drawn ids. A table is a list with its
-- newest row first; an INSERT fails where a row clashes on a primary key or a unique index, an
-- UPDATE maps the rows that its WHERE selects, and a SELECT filters, sorts and takes.
--
-- Ids and times are numbers; times count nanoseconds and 0 is Go's zero time. Numbers are
-- unbounded: a time or a lifetime that overflows an int64 is not modelled. Loops run over lists,
-- but for four that run on fuel: the digits of a number, at most 19; the search by halving, a
-- round for each index; and the runs of digits and the places of a word, a round for each byte. An
-- int64 has no more digits, a range of n indices is empty after n halvings, and a round of the
-- last two takes a byte at least. The waiting loop of a claim runs over the list of what other
-- calls do before each of its wakeups, and ends with the deadline.
--
-- The bus is the goroutine that owns its state: each case of its select is a function on the
-- state, where `none` is a panic, and a relation takes these steps in any order. A channel is what
-- was sent on it and how much of that was received.
--
-- Parameters stand for the wall clock, the random bytes, the digest, base64, the IDNA profile, the
-- sealing of payloads, the JSON decoder of an extraction (Store.Monad.Outside), the runes of a
-- text (Extract.Otp.Runes) and the seed adapter (Personas.Config.Seeder), which may use the store
-- while it runs.
--
-- Not modelled: the text form of a cursor, MIME parsing, the extraction of links, the folding of
-- text, the workers of extraction, blobs, the queue in front of the bus, the sinks of its streams,
-- personas and migrations, the HTTP API, the MCP server, the command line, key files, and the
-- relay comparison. White space is trimmed as ASCII, and the case of addresses and roles is folded
-- as ASCII. The waiting time that a claim reports is left out. The foreign keys of the schema are
-- not checked, so the tables of the model may hold rows that the database refuses.
--
-- The proofs: Sse/Bus/Streams and Steps are the invariant of the bus, Promise and Wakeups what
-- follows from it; Sse/Hub/Receiver is the reader of frames that Sse/Hub/Receipt is about;
-- Extract/Merge, Search and Cover are the merged ranges and the search by halving in them;
-- Store/Intervals is the timeline of an identity; Store/Sound is the invariant of the tables;
-- Store/Keeps and Store/Triple are the rules for what a call keeps and returns, and Store/Evidence
-- those for what it writes and for what it leaves when it fails; Store/Exclusive, Store/Writes,
-- Personas/Invariant, Personas/ClaimInvariant and Smtp/Invariant apply them to each operation,
-- Smtp/Writes and Arrival to a delivery, Personas/Writes and Reservation to a reservation, and
-- Personas/Seeding to the settling of a seed.
-- Runs on concrete inputs are under Tests.
pub mod Prelude
pub mod Store
pub mod Ledger
pub mod Personas
pub mod Smtp
pub mod Sse
pub mod History
pub mod Tests
pub mod Extract
