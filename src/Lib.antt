-- ===== src/Lib.antt =====
-- Daxie: the policy guardrails, the journal of transactions and the unit arithmetic, modelled and
-- verified.
--
-- Daxie is an Ethereum wallet for the command line and for agents. Before it signs, its policy engine
-- (internal/policy) checks the request against a sealed policy, counts the rolling spend of the last
-- 24 hours over every account of the network, and reserves the worst case durably; a broadcast
-- commits the reservation, a failure releases it, and a receipt settles the gas. The policy is sealed by
-- a key that an administrator's passphrase derives, and an anchor outside the file pins that key and
-- the lowest acceptable nonce. internal/journal records every transaction and gives out its nonce.
-- internal/erc builds token calldata and internal/abi recognises it, so that raw calldata meets the
-- same policy; internal/service/sign.go sends typed messages through it, and internal/service/tx.go takes
-- a transaction from its nonce and reservation to the broadcast. Amounts are typed and shown by internal/ethunit. The other packages (chain, keys,
-- cli, mcpserver and the rest of service) call these and are not modelled.
--
-- The files and the code they model:
--   Decimal               the decimal text of big integers: what the code uses of math/big
--   Ethunit               internal/ethunit/units.go and ethunit.go
--   Policy/Types          internal/policy/file.go (the policy body) and check.go (the request)
--   Policy/Limits         resolveLimits, parseLimit, overrideLimit of internal/policy/evaluate.go
--   Policy/Stages         the stages of the pipeline of evaluate.go: Destination (denylist,
--                         allowlist, token gate, pin drift), Messages (typed data, calldata),
--                         Amounts (per-transaction, unlimited approvals, daily window, gas cap)
--   Policy/Evaluate       Evaluate, composeDenial and rank of evaluate.go
--   Policy/Counter        internal/policy/counter.go, and the writes of debitCounter and
--                         primaryCandidate of policy.go to one counter file
--   Policy/Reservation    internal/policy/reservation.go and orphan.go, and what Commit, Release and
--                         SettleActual of policy.go do to one record
--   Policy/Candidates     what the same three do to one candidate of a counter entry
--   Policy/Retry          refineRetryAfter of policy.go
--   Policy/Store          loadCounter, writeCounter, loadAll, appendAndCompact, transition, as
--                         operations on a store
--   Policy/Engine         networkAccounts, aggregateWindow, windowFor of policy.go
--   Policy/Reserve        Evaluate and Reserve of policy.go
--   Policy/Seal           loadPolicy and verifyUnderAnchor of file.go, Verify of
--                         internal/policyseal/seal.go, decodeKey of internal/policyseal/anchor.go
--   Policy/Body           what the mutations of internal/policy/admin.go, typed_admin.go and
--                         contract_admin.go do to the body of the policy
--   Policy/Writer         writeBody, marshalEnvelope and jsonString of file.go
--   Policy/Keys           internal/policyseal/seal.go and rotation.go
--   Policy/Admin          mutate, authenticate and writeEnvelope of admin.go; Operations has Allow,
--                         Deny, TypedAllow, ContractAllow and AllowlistPin, and Seals has InitSeal,
--                         Set, ResetForce and ChangeAdminPassphrase
--   Policy/Transitions    Commit, Release, SettleActual, counterTransition of policy.go, Orphans
--   Journal/Record        internal/journal/record.go
--   Journal/Store         Append and SetState of internal/journal/store.go, with store_jsonl.go; Fold
--                         and Sort are foldLatest and the order of compact
--   Journal/Queries       the reads of store.go
--   Journal/Nonce         internal/journal/nonce.go
--   Journal/Ulid          internal/journal/id.go
--   Calldata              internal/abi/classify.go and internal/policy/calldata.go
--   Calldata/Erc          the builders of internal/erc/erc.go
--   Policy/Message        values of typed data and their coercions, of internal/policy/recognizers.go
--   Policy/TypedData      the classes, and Policy/Recognizers the recognisers of recognizers.go
--   Signing               authorizeSignature of internal/service/sign.go
--   Send/Outcome          settle, abort and the switch of runSend, of internal/service/tx.go
--   Send/Pipeline         authorize and runSend; Send has the state they share
--
-- State and steps. A `Store` is the reservation file as a list of lines and the counter file of each
-- network and account. An operation is an `Action`, a function from the store to a result and the
-- store it leaves, so what was written before a failure stays written. An `Env` says which locks and
-- writes fail, so a theorem about every `Env` covers each order in which an operation may be cut
-- short by an error. Clock readings, fresh ids and the accounts of the keystore hook are arguments.
-- An operation runs under the lock of its network, so operations are steps, one after the other.
--
-- The journal has a `File` of its own, lines and what follows the last newline, and steps of the same
-- form; its `Env` also says how far a write came. A typed message asks the engine one question for each
-- token, each with an `Env` and a `Call` of its own. A message is a tree of values, an object a list of
-- fields in which each key stands once. An `Account` is the journal, the nonce cache and the
-- lock that a lease holds. A `Vault` is the policy file and the anchor that the caller keeps; the code
-- returns the new anchor, and the model takes it as kept. A `World` is the policy store, the account and
-- the lease of one send; `Answers` has an environment for each call of the send, and an `Intent` what
-- the caller, the chain and the signer say.
--
-- Representation. Text is a list of bytes; case folding is that of ASCII, in which the code's
-- addresses, names of networks and selectors are written. An address is the text that go-ethereum's
-- Hex prints for it. An instant is a number of nanoseconds since Go's zero time, and a timestamp that
-- does not parse is 0; a timestamp is kept as the instant that it parses to. Amounts, fees and chain
-- ids of a request are natural numbers, and amounts in files are decimal text, which may fail to
-- parse or be negative. A file is given by what decoding it yields: a line of the log is blank,
-- garbled or a record, and a counter file is missing, corrupt or a document. The sentences meant for
-- people (reasons and messages) are left out; each payload is one constructor of `Detail`.
--
-- Loops are recursion on their lists. Fuel is used three times: by the exchange sorts of `sort_window`
-- and `sort_snapshot`, where it is the length of the list (each round takes one entry away), and by
-- `bytes_from`, where it is the number itself. The code subtracts in two places, where subtraction on natural numbers would stop at 0: `window_with` takes the debit from a sum with
-- the merged envelope, which has both its parts at least as large, and `first_fit` takes from a total
-- the parts that it is made of.
--
-- What is outside: a `Codec` stands for base64, ed25519 and the JSON decoders of the envelope and of
-- the body, for which loading assumes nothing, and a `Crypto` adds the encoder, scrypt, HKDF and the
-- signature. Only the theorems that what was written loads or authenticates assume `IsFaithful` of it:
-- decoding undoes encoding, keys and signatures have their size, signatures verify. Keccak-256, and the
-- texts of go-ethereum's addresses, are arguments as well. `Reserve` takes the loaded policy as an
-- argument. A Go map is a list with one entry for each key, and a uint64 wraps at 2 ^ 64.
--
-- Not modelled: the scan of the raw body that tells a null limit from an absent one (a `Policy` holds
-- its outcome); the views of the policy (Show, Verify, PinPrint, PinVerify); building, quoting,
-- retrying and waiting for a transaction; parsing and marshalling of anchors; warnings on standard
-- error; JSON decoding, files, locks and clocks themselves.
pub mod Calldata
pub mod Decimal
pub mod Ethunit
pub mod Journal
pub mod Policy
pub mod Prelude
pub mod Send
pub mod Signing
