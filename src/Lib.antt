-- ===== src/Lib.antt =====
-- Zephyr-Chain, protocol version 2: the canonical encodings, the objects and tokens, the Merkle
-- trees, the state of objects, the transfers of coins, the consensus certificates and the durable
-- signing guard, the governance timelocks, the native lending objects and the fees. The Go packages
-- under internal/v2 are modelled; the paths below start there.
--
-- How the parts interact: every protocol value is written by codec.Writer and read by codec.Reader,
-- and is identified by a hash of its encoding under a domain. Objects carry the payloads of coins,
-- tokens and loans. A store keeps objects and a sparse Merkle tree of their hashes; a transaction
-- shows its inputs as witnesses, objects with proofs against the root of the store, and the engine
-- executes it into objects that are consumed and created. Blocks are global headers that commit to
-- shards; a validator set signs votes for the hash of a header, and votes with a quorum of the
-- power make a certificate. Before a validator signs, its signing guard records the header in a
-- journal.
--
--   Base         shared names: Boolean tests, lists, byte strings, results, text, integers
--   Codec        codec/codec.go: Writer, Reader and the framing of DomainHash; Reads and Accepts are
--                rules for what parsers read and accept
--   Types        types/types.go: identifiers, and the shards that they name
--   Object       object/object.go: Object, OutputSpec, Coin and their encodings
--   Assets       assets/token.go: token definitions, Mint, Burn and the payloads of token operations;
--                Assets/Trim is strings.TrimSpace on UTF-8
--   Merkle       merkle/merkle.go: Root, BuildProof, Verify
--   State        state/smt.go: the sparse Merkle tree, its proofs and their encoding; State/Spec is the
--                complete binary tree that its root stands for
--   World        worldstate/store.go: the store of objects in memory over a sparse Merkle tree
--   Sharding     sharding/sharding.go: routing, GlobalHeader, CrossShardReceipt
--   Consensus    consensus/consensus.go and consensus/validator_root.go: validator sets, proposers,
--                proposals, votes, certificates; consensus/transition.go: certified transitions
--   Transactions tx/transaction.go: canonical bytes, static checks, witnesses
--   Execution    execution/engine.go and execution/coin_metadata.go: transfers, the creation of tokens, the
--                checks before the dispatch
--   Signing      consensus/signing_guard.go: opening and replaying the journal, Authorize, Close
--   Governance   governance/timelock.go: proposals and timelocks
--   Lending      lending/lending.go: terms, repayment, loans
--   Fees         economics/fees.go: the split of a fee, the price of resources, the base fee
--   Tests        the theorems at concrete values, and runs of the code
--
-- Functions keep the names of the source in lower case with underscores: ParseCoin is parse_coin
-- and ValidatorSet.VerifyCertificate is verify_certificate. A Go function with an error result is a
-- function into Result, with the error variable as the error. Byte slices, strings and the [32]byte
-- types are lists of numbers; that the numbers are bytes and that there are 32 of them are
-- predicates. Unsigned integers are natural numbers; where the source can wrap around, the
-- remainder is written out. A map is a list with the newest entry first. The mutable guard, tree
-- and store are passed from call to call. A hash map that the source walks in its own order is
-- walked in the order of the list: for the updates of a sparse Merkle tree every order is treated
-- in State/Order, and for the input totals of a transfer the order decides at most which error is
-- returned.
--
-- Parameters: SHA-256 is a function on byte strings, about which at most is assumed that its
-- results are 32 bytes. P-256 and ECDSA are the fields of Crypto: whether a key is a point, whether
-- a signature verifies, and the order of the curve. What a file answers to a write and a sync is
-- the record Disk: how many bytes were written and which calls returned no error. The file of the
-- journal is what has reached stable storage and what has been written behind it; a crash keeps any
-- prefix of the second. A restart without a crash, which reads the unsynced bytes too, is no event
-- of the histories; a run in Tests/Signing.antt follows one.
--
-- Fuel: the loops of the sparse Merkle tree recurse on the depth, from 256 to 0. The loops of
-- Merkle trees take the width of the tree as fuel, which is at least its depth. The replay of the
-- journal has one step for each byte and one more, and each record takes 112 bytes. White space is
-- trimmed with the length of the string as fuel.
--
-- Not modelled: signing with private keys, the commitments of sharding.go, ParseTransaction, the
-- dispatch of Execute and the operations but transfers and token creation, the durable store, the
-- directory checks and the lock of the signing guard, the other packages of internal/v2, the
-- packages of version 1, the commands and the wallet.
pub mod Base
pub mod Codec
pub mod Types
pub mod Object
pub mod Assets
pub mod Merkle
pub mod State
pub mod World
pub mod Sharding
pub mod Consensus
pub mod Transactions
pub mod Execution
pub mod Signing
pub mod Governance
pub mod Lending
pub mod Fees
pub mod Tests
