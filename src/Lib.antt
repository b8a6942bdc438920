-- ===== src/Lib.antt =====
-- Verification library of clairveil-samples: the relay, batch and recovery core of the wallet.
--
-- The wallet prepares private withdrawals and batch transfers. A relayed withdrawal is prepared in the
-- browser, kept across restarts as an allowlisted snapshot, and handed to a relayer once its reservations
-- are ready and its payload has not expired; the relay server then submits it at most once for each
-- nullifier. A batch transfer spends several notes on several payments at once: it is previewed, cut into
-- atomic batches, checked against what was prepared, and settled from its reservations. What did not come
-- to its end is assessed from the records of its reservations and from included transactions, whose bytes
-- are compared with what was prepared; calls of the wallet come one after the other.
--
-- Files, by the code that they model:
--   Relay (public/relay-reservation-state.js): Snapshot reads identifiers, expiry and outcomes
--     (relayReservationIDs to strictPositiveUnixSeconds, expiredRelayReservationRecoveryTarget);
--     Sanitize keeps records, batches, snapshots and the stored state (sanitizeReservationRecord to
--     parsePersistedRelayWithdrawState); Update puts fresh records in; Readiness has the three tests
--     before a handoff, a second copy and a submission; Preflight the nullifier check. Records,
--     Submission, Nullifiers, Evidence, Restored, Expiry and Fresh hold theorems.
--   Coordinator (public/relay-submission-coordinator.js): State has entries, locks, deleteEntry and
--     trimCompleted; Run has runMany, run and has; Marks what the callbacks mark and how a submission
--     ends; Reconcile the reconciliations; Step puts all calls and callbacks together as events that come
--     in any order. Locks, Effect, Invariant, Retention and Repeat hold theorems.
--   Batch (public/batch-transfer-state.js): Amounts reads amounts and counts; Select cuts off the next
--     atomic batch; Preview is computeBatchTransferPreviewState; Settled tests reservations; Outputs and
--     Targets read the output of a prepared payment; Prepared is preparedBatchTransferFacts. Planning,
--     Next, Coverage, Identities and Facts hold theorems.
--   Status: Receipts has the kinds of EVM receipts and the block snapshot (public/transaction-status.js),
--     Cosmos the evidence of a Cosmos transaction (public/cosmos-transaction-evidence.js), Flow chain
--     time, the expiry of transfers and recovered deposits (public/cosmos-flow-state.js). Identity
--     holds theorems.
--   Server (server-relay-submission.js): Outcomes has what is learnt of a transaction and of CheckTx;
--     Serializer the turns of a signer account, with the fence of an unknown outcome; Gate joins the
--     payload's identity to the coordinator. Fence holds theorems.
--   Actions (public/value-moving-action.js): Gate has the gate of value-moving actions and its events;
--     Turns holds theorems.
--   Withdraw (public/relay-withdraw-reconciliation.js): Handoff makes and reads the hand-off, its expiry and
--     the reserved hash; Varint and Fields read protobuf messages; Message finds the one MsgWithdraw of a
--     transaction; Match compares it with what was prepared. Wire, Included and Determined hold theorems.
--   Recovery: Records, Assess, Groups and Reset (public/reservation-recovery.js), Rejected and Failed
--     (public/reservation-reconciliation.js). Marking, Replan, Unordered, Grouping and Succeeded hold
--     theorems.
--   Tasks (public/browser-task-coordinator.js): Queue has the tasks of a browser with their generations.
--     Invariant, Keeps, Serial and Drain hold theorems.
--   Fees: Cosmos (public/cosmos-fee.js), Charged (public/network-fee.js and
--     public/minimal-denom-input.js), Funding (public/deposit-funding.js), Nonce
--     (public/evm-wallet-nonce.js).
--   Pending (public/public-pending-tx-store.js): Entries has what is kept of a pending transaction, Store
--     the loading and saving. Kept, Reading, Again, RoundTrip and Saved hold theorems.
--   Js is the part of JavaScript that these files use; Prelude has tests, lists, sets and results.
--
-- How the code corresponds to the model. Objects that come from outside are dynamic values (Js.Value):
-- reading a property of null, or of no object, gives undefined, as `?.` does, also where the source
-- writes `.` and would throw. A thrown Error is `throw` with its message. Lower-casing is that of ASCII;
-- numbers are exact and -0 is 0; Number and BigInt do not read binary and octal prefixes. A `Map` of
-- records freshly read is an association list, absent where the source is given none. Amounts are natural
-- numbers of any size, as BigInts are. Async calls are split into what happens before they wait and what
-- their answer does (an event); the entry of an attempt is known by a number where the source knows it by
-- its object, so that a late answer still finds it. Sorting is by code points. The deep copies and freezes
-- of snapshots are the values themselves, as values do not change here. All loops are structural
-- recursion on the list that they walk, except for two. A protobuf message is read in as many rounds as
-- it has bytes, and every round takes one or more. The printing of numbers gets one more than the number
-- as fuel, and that is more than its digits.
--
-- Parameters: JSON.parse, JSON.stringify, atob, Date.parse, toISOString, localeCompare and TextDecoder, given
-- as functions; the decoder and the type URL of MsgWithdraw and the payload hash of ClairveilJS; the nullifier query and the
-- submission of the preflight; the name of the state ProofReady, which ClairveilJS has.
--
-- Not modelled: the pages and the server around this core (public/app.js, server.js: DOM, HTTP and
-- transports), the generated public/app.bundle.js, the encrypted stores and Web Crypto, the Go tools,
-- and the third-party libraries. `null` among the records of a batch, on which the source throws, reads
-- as a record with no field.
pub mod Prelude
pub mod Js
pub mod Relay
pub mod Coordinator
pub mod Batch
pub mod Status
pub mod Server
pub mod Actions
pub mod Withdraw
pub mod Recovery
pub mod Tasks
pub mod Fees
pub mod Pending
