-- ===== src/Lib.antt =====
-- AnB: a secret store of two programs. Bob keeps the master keys in memory and answers requests over
-- mutual TLS; alice keeps the ciphertexts in a local vault and asks Bob to open them. This library
-- models the logic of both in Go's terms and states what makes it correct.
--
-- The parts, the code they model (paths from the repository's root), and how they interact:
--   Base        what the parts share: Boolean tests, lists, byte strings with the functions of package
--               strings, association lists for Go's maps, results, Go's signed integers. A Go string
--               is a list of bytes; a map is a list of pairs, whose order stands for the order in
--               which a `range` meets the entries.
--   Authz       internal/authz/authz.go: Policy, OpenOrDefault, Limit, Allowed.
--   Crypto      internal/crypto/crypto.go (SealAAD, OpenAAD, Wrap, Unwrap) and envelope.go
--               (PackVersion, ParseVersion, EnvelopeFile with FindKey, NextID, RemoveKey). AES-GCM is
--               the record Aead, Argon2id and base64 the record Kdf, each with its documented laws;
--               what rand.Read gives is an argument, `none` where it fails. An EnvelopeFile is what
--               encoding/json decodes.
--   Keystore    internal/keystore/keystore.go: Store with Hold, HoldMulti, AddKey, RemoveKey, Encrypt,
--               Decrypt, Zeroize and the idle timer. Each method holds the mutex, so it is a step of a
--               state; the timer is two steps, it fires and its callback gets the mutex, with other
--               steps between them in any number. The state holds the armed deadline, the callbacks
--               that wait and the calls of onLock.
--   Server      internal/server/server.go and ratelimit.go, with the messages of
--               internal/proto/proto.go: dispatch with its rate limit, its authorization, its calls of
--               the key store, and the audit log as a list of events. The clock and the randomness of
--               a request are sequences that its calls read in turn.
--   Rotate      cmd/bob/rotate.go: rotate-master-password, rotate-master-key and its --finalize, on the
--               decoded envelope file.
--   Rules       internal/aclrules/aclrules.go: the canonical text of an invocation, rules and their
--               surfaces, Parse, LoadFile and LiteralRule. A compiled regular expression is a function,
--               and regexp.Compile an argument.
--               Lint is internal/aclrules/lint.go, Migrate is migrate.go with its steps on the files.
--   Redact      internal/redact/redact.go: placeholders, Restore, ExtractPlaceholders,
--               FindSuspiciousPlaceholders; in Words, Candidates and Engine also Redact and
--               RestoreUnvaulted. The patterns of placeholders and of lines are matchers on bytes, and a
--               search finds the leftmost matches; the patterns of secrets, the test of the entropy and
--               SHA-256 are the record Detector.
--   Exec        cmd/alice/exec.go: the command line of `alice exec`, the --env entries, the gate, and
--               the run behind it. What the handler asks of the world is a list of actions; what the
--               world answers (the rules that LoadFile returned, the vault, Bob) is a record.
--   Vault       internal/localvault/localvault.go, and applyRewraps of cmd/alice/main.go.
--   Pwgen       internal/pwgen/pwgen.go: the styles of Generate. randIndex is a function of the count of
--               its calls and of the bound.
--   Client      internal/client/client.go: the calls, over a connection that is a function from a
--               request and the state of the peer. Server.Exchange puts Bob's server there: requests
--               and answers pass as lines of JSON, which is the record Json with the law that valid
--               UTF-8 comes back, and Server.Wire refuses a line of more than 1 MiB, as handleConn does.
--   Commands    cmd/alice: a command is a function from a session (the vault file, what is printed, the
--               peer) to a session and a result, in a monad of state and errors. Local has the commands
--               that ask nothing of Bob, Secret set and get, Import import, Batch rekey and
--               backfill-meta, Files read, redact, scan, write and template, Main the table of the
--               commands. What the process finds (terminal, environment, files) is a record World.
--               Of the output only the values and answers that read, redact, get and has print are
--               kept, in their text form; messages and the forms of --json and -l are left out.
--               Refinement gives the abstract vault, a map from names to entries.
--   Pairing     internal/ca/pairing.go, SignCSR and SignCSRWithPairing of internal/ca/ca.go, `bob sign-csr`
--               and `alice install-cert`. X.509, ASN.1 and SHA-256 are the record Encoding.
--   Bob         cmd/bob/main.go: `bob init` and `bob serve` up to the first request; Migrate is
--               cmd/bob/migrate.go.
--   Examples    the theorems at concrete inputs, with a cipher and a key derivation that compute.
--
-- All functions are total. Loops are structural recursions on the list or the text they read, with
-- two exceptions. The decimal digits of a number n take fuel n + 1, and there are no more of them.
-- The rejection sampling of Pwgen takes its number of rounds as fuel, and any that reaches the first
-- round that succeeds is enough. Times are nanoseconds and numbers are unbounded, but where Go parses
-- an int (the version of a ciphertext), in NextID and for the time to live the bound of 64 bits or the
-- wrap-around is written out; the tokens of the rate
-- limit are counted in units of 1 / 60_000_000_000, in place of float64, so rounding is left out.
--
-- Not modelled: TLS and the accept loop of Server.Serve, the text of JSON, the parsing of flags, file
-- modes and owners, memory locking and wiping, the making of certificates, terminal input, daemonize,
-- strength estimates (float64), Ethereum addresses, and the commands enroll, status, gen, completion,
-- audit, shell, allowlist-check and eth of alice, ca init of bob: input and output around libraries.
pub mod Authz
pub mod Base
pub mod Bob
pub mod Client
pub mod Commands
pub mod Crypto
pub mod Examples
pub mod Exec
pub mod Keystore
pub mod Pairing
pub mod Pwgen
pub mod Redact
pub mod Rotate
pub mod Rules
pub mod Server
pub mod Vault
