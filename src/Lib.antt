-- ===== src/Lib.antt =====
-- A verification library for terrapi-vesta.
--
-- replication/recovery is the control plane that replaces the lost primary of a fixed pair of
-- nodes. A `Plan` (src/model.rs) names the recovery; a signed grant (src/grant.rs) authorizes it;
-- the decision journal (src/decision.rs) records one decision for good, with the acknowledgement of
-- each member and the completion. The transition journal (src/transition.rs) holds a chain of
-- certified checkpoint transitions of the pair, and the aborts that cancel attempts. The pair itself
-- (replication/fixed-pair) commits each operation on both nodes: the primary prepares an entry of its
-- journal, the secondary stages it, the primary decides, the secondary applies, then the primary.
-- Before each commit, recovery compares both journals and completes or takes back what stands open. Apart from
-- them, services/vesta-transport keeps operator sessions and the leases of credentials under them;
-- the broker calls its engine with the time. The vault's recovery code (src/recovery.rs) is printed in
-- base32 with a checksum and read again.
--
--   Common               numbers, results, texts, lists, pairs, maps, equality
--   Pair                 replication/fixed-pair/src: Model the data (lib.rs), Tables and Store the
--                        journal and receipts (journal/store.rs, journal.rs, receipts.rs), Checkpoints
--                        checkpoint.rs, Operations the operations of a node (lib.rs), Pages the heads
--                        and pages of the journal (journal.rs), Run the calls, Protocol `recover` and
--                        `commit` (lib.rs), Coordinator the admission of writes
--                        (coordinator.rs), Outcome what a refused client is told; Agreement
--                        what holds of both copies between the calls, Copies, Tails, Receipts, Hoare and Safety its proofs
--   Recovery/Model       replication/recovery/src/model.rs: `Model::step` is `step`, its match
--                        `advance`; `run` goes on after refused events
--   Recovery/Jws         tokens: split('.'), the signed part, canonical base64, key selection
--                        (Keys)
--   Recovery/Grant       replication/recovery/src/grant.rs: `verify`, `validate_draft`, and
--                        `check_claims` for the tests of `validate_claims`
--   Recovery/Decision    replication/recovery/src/decision.rs: Decision the values, Store `read` and
--                        `save`, Journal the operations; Journal/Moves the abstract relation
--   Recovery/Transition  replication/recovery/src/transition.rs: Transition the values, Tokens the
--                        verifiers, Store the tables, Walk `read_with_revision`, Journal and Closing
--                        the operations; AbortTokens what a token of an abort shows
--   Transport/Lease      services/vesta-transport/src/lease.rs: Lease the calls on one entry, Expiry
--                        `end_session`, `sweep` and the snapshots; Lease/Invariant the consistency
--                        of the two maps
--   Vault                src/recovery.rs: RecoveryCode `base32_encode`, `crc16`, `format` and `parse`;
--                        texts are lists of code points
--   Pair/Examples, Recovery/Examples, Transport/Examples, Vault/Examples   concrete inputs
--
-- Conventions. An `Id` of 32 bytes is one number, `[0; 32]` is 0. Machine integers are natural
-- numbers with the checks of the source written out (`checked_add`, `checked_sub`, `saturating_add`). Errors carry the
-- source's messages. An operation runs in one SQL transaction: it returns the tables that it
-- commits, and after an error the tables are as before. The loops of `recover` run on
-- fuel, which is the length of the journal that they go over; the rest is recursion on lists. A call of
-- the protocol can lose its request or its reply (`Fault`), which is also how a crash is seen.
--
-- Taken as parameters: base64, serde_json and ring (`Jws`, the parsers of claims, `Codec`), sha2,
-- the policy that a management integration implements, and the outcome of opening an encrypted file.
-- A policy value holds the answers to the calls of one operation, so that two calls may differ in
-- their answers. The tables of replication/recovery/src/transition/loss.rs are seen through the record
-- `Loss` of four questions, and the id generator of the lease engine is the sequence of its answers,
-- which the theorems on ids assume not to repeat.
-- The application schema and SQLite's session extension are the record `Adapter`, with the check of
-- schema and foreign keys (replication/fixed-pair/src/schema.rs) and what serde_json and sha2 make; the
-- other parts of a node answer through `Profile`. Not modelled: pragmas and timeouts of SQLite, zeroizing of memory, the file system.
pub mod Common
pub mod Pair
pub mod Recovery
pub mod Transport
pub mod Vault
