-- ===== src/Lib.antt =====
-- bitmarkd: the property records of the bitmark block chain, their packed form with the codes, keys
-- and currency addresses that they are made of, the records of who owns what, the storage under
-- them, and the balanced trees of the peers.
--
-- A transaction of the block chain is one of ten records. Pack checks a record, writes its tag and
-- fields with variable-length numbers, and joins the signatures that the accounts' keys verify.
-- Unpack reads a packed record back from a byte slice of a block or of a peer, runs the same checks,
-- and returns the record with the number of bytes that it used.
--
-- A block that is stored moves ownership: ownership/transfer.go writes, in a transaction of the
-- storage, which owner has which record. The storage collects the writes in a batch, with a cache
-- through which the transaction reads what it wrote, and a commit hands the batch to the database.
--
-- The files, by the part of the program that they model:
--   Common, Common/*: tests, lists, int and the bit operations, over the native numbers.
--   Fault: fault/fault.go, the errors that the modelled code returns.
--   Go, Go/*: what a Go call may do (return a value or an error, or panic), slices with their
--     capacity, pointers with their identity, and the count of runes in a text.
--   Crypto: the hashes and the verification of ed25519, which are parameters.
--   Util/Varint, Util/Varint/*: util/varint.go. Encode and Decode are about one direction each,
--     RoundTrip about both.
--   Util/Base58: util/base58.go, over math/big as numbers without bounds.
--   Account: account/account.go, the two account types, their bytes, text and signature check.
--   Currency, Currency/*: currency/enumerated.go, conversion.go, validate.go, set.go and mapped.go,
--     with the bitcoin and litecoin addresses of currency/bitcoin and currency/litecoin.
--   TransactionRecord/Types, Check, Append, Pack: transactionrecord/transaction.go and pack.go. One
--     function X_check per check method, X_message for Pack up to the first signature, and X_pack.
--   TransactionRecord/Reader, Unpack: transactionrecord/unpack.go. Reader has the steps that the cases
--     of Packed.Unpack repeat, and X_unpack is the case of one record.
--   TransactionRecord/Reads, Fields, Optional, Payments, Inversion, RoundTrip: the lemmas for what is
--     read of what was written, by field and by record.
--   TransactionRecord/Signatures: what a packed record says of its signature.
--   Currency/Ends, TransactionRecord/Ends, Checks, Total: how Unpack ends, step by step.
--   TransactionRecord/Aliases: the checks on two accounts of one record.
--   BlockRecord/Header, RoundTrip, Limits, Sequence: blockrecord/header.go and validator.go, the header of a
--     block, with the packed bits of difficulty/difficulty.go. The time of the call, the hash and
--     the pool of digests are arguments.
--   Avl/Key, Node, Rotate, Insert, Delete, Search: the package avl. Key has the interface Item, Rotate
--     the rotations that Insert and Delete repeat, Search what only reads a tree.
--   Avl/Invariant, Grow, Shrink: balance and counts. Avl/Sorted, Entries, Refine, Order: the entries in
--     order, and insert and delete on them. Avl/Valid, Built, Rank, Counts, Height: the results on
--     whole trees.
--   Storage/External: leveldb and go-cache, which are parameters, and what is taken from them.
--   Storage/Access, Handle: storage/access.go, cache.go, handle.go and transaction.go.
--   Storage/View, Agree, Expiry, Final: what is read in a transaction, after it, when entries of the
--     cache expire, and what it is to leave.
--   Ownership/Data, Codec: ownership/data.go and item.go, and the packed owner data.
--   Ownership/Transfer, Owner: ownership/transfer.go, over the handles of the storage.
--   Ownership/Index: the two indexes of owned items as maps. Entries, Valid, Moves, Change: the same
--     as records of the storage, the invariant, and what create, transfer and share make of it.
--   Peer/Voting, Tally, Draw, Elected: peer/voting/voting.go, with SmallerDigestThan of
--     blockdigest/digest.go.
--   Merkle/Tree, Levels: FullMerkleTree of merkle/merkle.go, and the levels of its tree.
--   Tests: runs of the code, and the theorems at concrete inputs.
--
-- Numbers and bounds. A byte is a number below 256 and a uint64 one below 2 ^ 64; the code's shifts
-- and additions keep `% 2 ^ 64` where they can wrap. An int is a signed number of Common/Int.
-- ToVarint64 is given 9 rounds, its limit in the source. UnpackMap is given a round per byte and one
-- more; each item takes a byte at least. Base 58 conversion is given enough rounds for the number, and
-- FullMerkleTree a round per leaf and one more.
--
-- State. Unpack allocates: it takes the first free place of the heap, and each account that it
-- returns has a place of its own, since the checks compare pointers. A Go map is its list of entries
-- in the order of one iteration. A node of a tree owns the nodes below it; the pointers to the parent
-- are not stored. A transaction of the storage is the state AccessData, which each operation takes and
-- returns; one transaction runs at a time, as the locks of the source see to. That an entry of its
-- cache expires is an event between two operations. logger.Panic is a panic.
--
-- Panics. A panic of Go is an outcome of its own; Unpack's deferred recover turns it into an error. Slice
-- expressions are checked against the capacity, as in Go, not against the length.
--
-- Not modelled: the minimum merkle tree, targets of the difficulty, pending transactions, the storing of
-- blocks, cursors of the storage, the parent pointers of the balanced trees, the network and RPC
-- layers, the commands, logging, and the texts of errors.
pub mod Common
pub mod Fault
pub mod Go
pub mod Util
pub mod Crypto
pub mod Account
pub mod Currency
pub mod TransactionRecord
pub mod BlockRecord
pub mod Avl
pub mod Storage
pub mod Ownership
pub mod Peer
pub mod Merkle
pub mod Tests
