-- ===== src/Lib.antt =====
-- A verification library for railgun-indexer, a service that scrapes, checks, stores and publishes
-- the POI events and the chain data of Railgun as artifacts.
--
-- Parts and files (paths from the repository's root; C stands for crates/railgun-indexer-core/src):
--   Scrape.PageSize, Scrape.Retry   C/scrape/page_size.rs and C/scrape/retry.rs
--   Scrape.Worker                   C/scrape/worker.rs: sync_next_page with all it calls
--   Scrape.Worker.Loop              C/scrape/worker.rs: the retries and the run
--   Scrape.Worker.Blocked           C/scrape/worker.rs: the blocked shields
--   PoiStore                        the POI tables of C/store.rs, SQL written out on lists of rows
--   Merkle                          C/merkle_checkpoint.rs
--   Commitments                     C/commitments.rs
--   WalletScan                      C/wallet_scan.rs: the chunk with five sections of rows
--   PublicTxid                      C/public_txid.rs: the chunk of public TXIDs
--   MultiPinner                     C/publish/ipfs.rs: pinning with a quorum of services
--   ChainLogs                       C/chain_logs.rs: its data; Positions has the positions in the trees
--   ChainLogs.Actions               the Railgun calls behind the logs of an outer transaction
--   ChainLogs.Outputs               the rows of public transactions and the matching of their outputs
--   Ipns                            C/publish/ipns.rs: the publisher's task, its queue, the signed record
--   Audit                           C/audit.rs and its tables: what is pinned, published and swept
--   Audit.Ops                       histories of these transactions
--   Artifact, Codec                 the descriptors and the byte writers that the encoders share
--   Prelude                         numbers, lists, results, texts
--   Examples                        the theorems at concrete inputs
--
-- A method that takes `&mut self` returns the new state. `?` is the do block of a result type.
-- Integers are native numbers; what wraps, saturates or is checked is written out. The functions of
-- other crates (Poseidon, SHA-256, the chunk format, hex, signature verification, the POI cache, the
-- ABI coding) are fields of records that the definitions take as an argument: Tree, ChunkFormat, Hex,
-- Poi, Txid, Cids, IpnsLib, AuditLib, ChainLib. What the upstream node and the database answer during an attempt is the record
-- Answers; what the pinning services answer is a list. A turn of the publisher's loop has what the swarm, the
-- callers and the clock do in it as an argument. SQL is written out on lists of rows, and a transaction
-- that fails changes nothing.
--
-- Three loops run on fuel. That of retry_with_backoff has the budget: it calls the operation once per
-- round and stops at the budget. That of a page with retries has the page size times one more than the
-- budget: a page size is tried at most as often as the budget, and then it shrinks or the loop ends.
-- The runs over pages have the number of pages as an argument, since it depends on the upstream. All
-- other loops are structural. No database error but a failed commit is modelled, and no logging.
--
-- Not modelled: the decoding of raw logs, calldata and traces, the HTTP and S3 clients, the libp2p swarm
-- and the derivation of keys, which are calls of other crates; the queries that only read rows back; the
-- configuration, the step of chain indexing, the POI v4 artifacts, the sequences of publications, the
-- status, the daemon's scheduling and the maintenance programs.
pub mod Prelude
pub mod PoiStore
pub mod Scrape
pub mod ChainLogs
pub mod Codec
pub mod Artifact
pub mod Audit
pub mod Merkle
pub mod Commitments
pub mod WalletScan
pub mod Ipns
pub mod MultiPinner
pub mod PublicTxid
pub mod Examples
