-- ===== src/WalletScan/Write/RoundTrip.antt =====
-- Reading a wallet scan payload (crates/railgun-indexer-core/src/wallet_scan.rs): a reader, as a
-- wallet needs one, and that it gives back the fields that the writers write.
pub mod Rows
pub mod Payload
use railgun_indexer.Prelude.{ℕ, List, [], Option, some, map}
use railgun_indexer.Codec.{Bytes}
use railgun_indexer.Codec.Read.{Reader, ◌>>=◌, pure, read_uint, read_fixed, read_bytes, read_many}
use railgun_indexer.WalletScan.{
  StoredIndexedLogSourceRow, StoredTransactCommitmentRow, StoredShieldCommitmentRow,
  StoredNullifierRow, StoredLegacyEncryptedCommitmentRow, StoredLegacyGeneratedCommitmentRow,
  StoredWalletScanRows,
}

pub record ScannedSource : Type 0 where
  pub block_number : ℕ
  pub block_timestamp : Option ℕ
  pub transaction_hash : Bytes

-- A commitment: where it stands in the trees, its hash and its data, one or two fields.
pub record ScannedCommitment : Type 0 where
  pub source : ScannedSource
  pub tree_number : ℕ
  pub tree_position : ℕ
  pub commitment_hash : Bytes
  pub first : Bytes
  pub second : Bytes

pub record ScannedNullifier : Type 0 where
  pub source : ScannedSource
  pub tree_number : ℕ
  pub nullifier_hash : Bytes

pub record Scanned : Type 0 where
  pub transacts : List ScannedCommitment
  pub shields : List ScannedCommitment
  pub nullifiers : List ScannedNullifier
  pub encrypteds : List ScannedCommitment
  pub generateds : List ScannedCommitment

unfoldable pub read_source : Reader ScannedSource
read_source = do
  block_number ← read_uint 8
  block_timestamp ← read_uint 8
  transaction_hash ← read_fixed 32
  pure (record {
    block_number = block_number;
    block_timestamp = some block_timestamp;
    transaction_hash = transaction_hash;
  })

unfoldable pub read_commitment : Reader Bytes → Reader Bytes → Reader ScannedCommitment
read_commitment read_first read_second = do
  source ← read_source
  tree_number ← read_uint 4
  tree_position ← read_uint 8
  commitment_hash ← read_fixed 32
  first ← read_first
  second ← read_second
  pure (record {
    source = source;
    tree_number = tree_number;
    tree_position = tree_position;
    commitment_hash = commitment_hash;
    first = first;
    second = second;
  })

unfoldable pub read_nullifier : Reader ScannedNullifier
read_nullifier = do
  source ← read_source
  tree_number ← read_uint 4
  nullifier_hash ← read_fixed 32
  pure (record { source = source; tree_number = tree_number; nullifier_hash = nullifier_hash })

unfoldable pub read_records : {A : Type 0} → Reader A → Reader (List A)
read_records read = do count ← read_uint 8; read_many read count

unfoldable pub read_wallet_scan : Reader Scanned
read_wallet_scan = do
  transacts ← read_records (read_commitment read_bytes (read_fixed 0))
  shields ← read_records (read_commitment read_bytes read_bytes)
  nullifiers ← read_records read_nullifier
  encrypteds ← read_records (read_commitment read_bytes (read_fixed 0))
  generateds ← read_records (read_commitment read_bytes (read_fixed 64))
  pure (record {
    transacts = transacts;
    shields = shields;
    nullifiers = nullifiers;
    encrypteds = encrypteds;
    generateds = generateds;
  })

abbrev pub source_view : StoredIndexedLogSourceRow → ScannedSource
source_view s = record {
  block_number = s.block_number;
  block_timestamp = s.block_timestamp;
  transaction_hash = s.transaction_hash;
}

abbrev pub transact_view : StoredTransactCommitmentRow → ScannedCommitment
transact_view r = record {
  source = source_view r.source;
  tree_number = r.tree_number;
  tree_position = r.tree_position;
  commitment_hash = r.commitment_hash;
  first = r.ciphertext;
  second = [];
}

abbrev pub shield_view : StoredShieldCommitmentRow → ScannedCommitment
shield_view r = record {
  source = source_view r.source;
  tree_number = r.tree_number;
  tree_position = r.tree_position;
  commitment_hash = r.commitment_hash;
  first = r.preimage;
  second = r.shield_ciphertext;
}

abbrev pub nullifier_view : StoredNullifierRow → ScannedNullifier
nullifier_view r = record {
  source = source_view r.source;
  tree_number = r.tree_number;
  nullifier_hash = r.nullifier_hash;
}

abbrev pub encrypted_view : StoredLegacyEncryptedCommitmentRow → ScannedCommitment
encrypted_view r = record {
  source = source_view r.source;
  tree_number = r.tree_number;
  tree_position = r.tree_position;
  commitment_hash = r.commitment_hash;
  first = r.ciphertext;
  second = [];
}

abbrev pub generated_view : StoredLegacyGeneratedCommitmentRow → ScannedCommitment
generated_view r = record {
  source = source_view r.source;
  tree_number = r.tree_number;
  tree_position = r.tree_position;
  commitment_hash = r.commitment_hash;
  first = r.preimage;
  second = r.encrypted_random;
}

-- What a wallet reads of the rows.
abbrev pub scanned : StoredWalletScanRows → Scanned
scanned rows = record {
  transacts = map transact_view rows.transact_commitments;
  shields = map shield_view rows.shield_commitments;
  nullifiers = map nullifier_view rows.nullifiers;
  encrypteds = map encrypted_view rows.legacy_encrypted_commitments;
  generateds = map generated_view rows.legacy_generated_commitments;
}
