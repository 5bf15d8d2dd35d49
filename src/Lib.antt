-- ===== src/Lib.antt =====
-- Nexum, agreements between agents: a model of the agreement kernel (internal/nexum), of the
-- encrypted ledger beneath it (internal/settle, internal/he), and of the batches and the proof of
-- work that seal its receipts (internal/l2, internal/pow), of sealed messages (internal/message),
-- and of the durable store of contracts (nex/store.go), with the theorems that make it correct.
--
-- The parts and their files:
--   Receipt.antt     internal/nexum/agreement.go: Receipt, hashReceipt, VerifyReceipts, and the
--                    receipt that the four `append` methods build. Receipt/Chain: building and
--                    verifying agree. Receipt/Tamper: what a verified chain says of a rewrite.
--   Meter.antt       Status, Meter, Unit, shared by the four kinds of contract.
--   Agreement.antt   internal/nexum/agreement.go, token.go: OpenAgreement, OpenEscrow, Lock,
--                    SetDeadline, Expire, Note, append, WithUnit.
--   Room.antt        internal/nexum/room.go and the settling methods of agreement.go: Apply, sealLock,
--                    Accept, Reject, StartSealed, AcceptWithEvidence. Room/Ops: each method as a value
--                    and runs of calls; Room/Frozen, Invariant, Custody, History: their properties.
--   Delegate.antt    internal/nexum/delegate.go. Delegate/Ops: calls and their properties.
--   Council.antt     internal/nexum/council.go. Council/Consent and Council/Ops: likewise.
--   Workflow.antt    internal/nexum/workflow.go. Workflow/Walk: the walk; Workflow/Ops: Execute.
--   Checkpoint.antt  internal/nexum/checkpoint.go: PrivateCheckpoint, RestorePrivate. Checkpoint/Restored
--                    and Checkpoint/RoundTrip: what is restored.
--   Contract.antt    nex/contract.go: New, Apply, applyVerified, Execute. Contract/Run: runs of commands;
--                    Contract/Consent, Invariant, Opening, Commands, Effects, Answers: properties.
--   Identity.antt    nex/identity.go, and Public and Identity of internal/message/contract.go.
--   Settle.antt      internal/settle/encsum.go, checkpoint.go: the encrypted ledger, with Settle/RoundTrip
--                    on its private state, and Std/RoundTrip on the bytes of numbers.
--   He.antt          internal/he/paillier.go, checkpoint.go: Paillier encryption.
--   Pow.antt         internal/pow/pow.go: Header, Valid, Search. Pow/Search: the workers; Pow/Target: the
--                    difficulty as a bound on a number.
--   L2.antt          internal/l2/batch.go, verify.go: TermsDigest, Root, Seal, Verify. L2/Terms, Written and
--                    Binding: what a header binds; L2/Sealing: sealing and verifying; L2/Collision.
--                    L2/Receipts: receipts.go, ReceiptRoot, SealReceipts, VerifyReceiptBatch, with
--                    Nodes, Tree, Leaves, Binding and Total on the tree.
--   Settlement.antt  internal/settle/batch.go: Root, Commit. Settlement/Root: properties.
--   Envelope.antt    internal/message/contract.go, rekey_disabled.go: the data of Offer, Decision, Release and
--                    Record, State, and the tests of their fields.
--   Message.antt     internal/message/contract.go: the Verify methods, ApplyDecision, ApplyRelease.
--                    Message/Passing, Exchanges, Consent and Retry: properties; Message/Deciding:
--                    NewIdentity, Decide. Message/Trade: trade_protocol.go, with Message/Turns on chains.
--                    Message/Sealing, Opening: internal/message/crypto.go, Seal, WrapKey, Open;
--                    Message/Opened, Reading, Sealed, Delivered: the round trip of a text.
--   Operation.antt   nex/store.go: Operation, Result, the stored contract; Operation's tests.
--   Restore.antt     nex/store.go: restore, which accounts for the receipts by the operations.
--                    Restore/Consent, Found, Walked, Signed: what a restored contract has. Restore/Written,
--                    Settled, Did, Carried: the receipts that a command adds; Restore/Extend, Replay, Turns,
--                    Grown: the replay of a record with one more operation; Restore/Sound, with
--                    Checkpoint/Kept: the checkpoint after a command.
--   Disk.antt        nex/store.go: read, write, syncDirectory, on a disk that holds what is seen under
--                    each contract id and what a crash may leave there. Disk/ReadBack: round trip.
--   Store.antt       nex/store.go: Create, View, Prepare, Apply, withLock. Store/Rules, ApplyRule: the ways
--                    that a method ends; Store/Events: calls and crashes; Store/Kept, Recorded, Once,
--                    Retry: committed operations through events; Store/Register: the abstract store;
--                    Store/Rewritten, Written: restoring what was written.
--   Errors.antt, Std.antt, Prelude.antt: error values, Go's standard library, shared names.
--   Tests.antt       runs at concrete inputs.
--
-- How state is modelled: a struct is a record, and a method on a pointer that returns `error` is a
-- function to `Outcome`, the error if any with the receiver afterwards. An agreement calls its
-- encrypted ledger (`sealed`), which calls the Paillier key; every kind of contract appends to a
-- receipt chain. A signed contract holds an agreement and moves it by commands that carry the hash
-- of its last receipt. A store keeps the checkpoints of contracts in sealed files, restores the
-- contract in each call, and writes it back with the result of its operation; a method answers a
-- `Reply`, a value or an error with the disk afterwards. Its calls run one after another under the
-- lock, and the failures of system calls and of hooks are the argument `Faults`. A rename replaces a
-- file whole; after a crash a file is any of those that were there since the directory was last
-- synced. Methods named like Go's have its name in snake case.
--
-- Numbers: int and int64 are signed integers without a bound; the step counts grow by one for each
-- call, far below 2^63. A time.Time is its nanoseconds since Go's zero time, and UTC keeps it. A
-- float64 is its bit pattern with the order as a parameter. Texts are compared as wholes.
--
-- Parameters: `Std` holds SHA-256, hex, base64, the formats of numbers and times, the order on
-- floats, and the JSON form of equality proofs; `Crypto` holds Ed25519, X25519's checks of keys and
-- the JSON form of what is signed; `Codec` holds the digest of quarry/keccak, strconv.FormatFloat,
-- hex and the JSON form of a commitment; `Hex` holds hex; `Wire` holds the JSON forms of messages,
-- hex and the test of UTF-8; `Keys` holds the halves of key pairs;
-- `Ciphers` holds AES-GCM, HKDF, X25519's shared secrets, HPKE and the JSON forms that they bind, and
-- what a round trip needs of them is the hypothesis `Reliable`; `Persist` holds AES-GCM, the JSON
-- forms of operations and stored contracts, strings.TrimSpace, the test of UTF-8 and hex, and what a
-- store needs of it is the hypothesis `Faithful` (text in the model is UTF-8, which JSON keeps); a
-- checkpoint's JSON copy is an argument. A digest's collision is a result beside what a root binds,
-- and its width a hypothesis. Random draws are arguments, `none` for a reader that fails.
--
-- Fuel: `Walk` runs with three rounds more than there are nodes, which is proved to be enough; the
-- sealing loop makes its eight attempts; the layers of a tree have as many rounds as there are
-- nodes, which is proved to be enough; the workers of Search take the steps of any schedule, and
-- what is proved of them holds once one of them has returned: that a nonce exists is a matter of the
-- digest; math/big is plain arithmetic.
--
-- Not modelled here: OpenStore and the locks on files, which are input and output;
-- quarry/keccak, a copy of a library; the command line and the examples.
pub mod Prelude
pub mod Errors
pub mod Std
pub mod He
pub mod Settle
pub mod Receipt
pub mod Meter
pub mod Agreement
pub mod Room
pub mod Delegate
pub mod Checkpoint
pub mod Contract
pub mod Council
pub mod Identity
pub mod Pow
pub mod L2
pub mod Settlement
pub mod Envelope
pub mod Message
pub mod Workflow
pub mod Tests
pub mod Operation
pub mod Restore
pub mod Disk
pub mod Store
