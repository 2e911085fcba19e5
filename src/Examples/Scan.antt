-- ===== src/Examples/Scan.antt =====
-- A wallet scan at concrete rows (crates/railgun-indexer-core/src/wallet_scan.rs).
use railgun_indexer.Prelude.{ℕ, ◌≡◌, refl, [], ◌∷◌, replicate, some, ok, ◌<◌, arith}
use railgun_indexer.Codec.{Bytes, to_le_bytes, write_each, write_len, write_bytes}
use railgun_indexer.Artifact.{Published}
use railgun_indexer.WalletScan.{StoredIndexedLogSourceRow, StoredWalletScanRows}
use railgun_indexer.WalletScan.Write.{
  Sectioned, write_source, write_records, write_transact_record, write_shield_record,
  write_nullifier_record, write_legacy_encrypted_record, write_legacy_generated_record,
  append_section, total_count, encode_wallet_scan_records,
}
use railgun_indexer.WalletScan.Write.RoundTrip.{read_wallet_scan, scanned}
use railgun_indexer.WalletScan.Write.RoundTrip.Rows.{SourceInRange, RowInRange}
use railgun_indexer.WalletScan.Write.RoundTrip.Payload.{InRange, encode_wallet_scan_records-read}
use railgun_indexer.WalletScan.Chunk.{
  validate_rows_in_range, validate_each, validate_source_in_range, prepare_wallet_scan_chunk,
  encode_wallet_scan_envelope,
}
use railgun_indexer.WalletScan.Chunk.Represents.{Represents, prepare_wallet_scan_chunk-Represents}
use railgun_indexer.Examples.Data.{format}

abbrev hash : Bytes
hash = replicate 32 4

abbrev source : StoredIndexedLogSourceRow
source = record {
  block_number = 7;
  block_timestamp = some 1_000;
  block_hash = hash;
  transaction_hash = hash;
  log_index = 0;
}

abbrev rows : StoredWalletScanRows
rows = record {
  transact_commitments =
      record {
        source = source;
        tree_number = 0;
        tree_position = 5;
        commitment_hash = hash;
        ciphertext = 1 ∷ 2 ∷ [];
      }
      ∷ [];
  shield_commitments =
      record {
        source = source;
        tree_number = 0;
        tree_position = 6;
        commitment_hash = hash;
        preimage = 3 ∷ [];
        shield_ciphertext = [];
      }
      ∷ [];
  nullifiers = record { source = source; tree_number = 0; nullifier_hash = hash } ∷ [];
  legacy_encrypted_commitments = [];
  legacy_generated_commitments = [];
}

encoded : (s : Sectioned) × (n : ℕ) × (encode_wallet_scan_records rows ≡ ok (s, n))
unfolding encode_wallet_scan_records append_section total_count write_records write_transact_record
    write_shield_record write_nullifier_record write_legacy_encrypted_record
    write_legacy_generated_record write_source write_each write_len write_bytes to_le_bytes
encoded = (_, _, refl)

source-InRange : SourceInRange source
source-InRange = record {
  block_number = omega arith;
  block_timestamp = λ t e. ground arith;
  transaction_hash = refl;
}

rows-InRange : InRange rows
rows-InRange = record {
  transacts = (in_range 5 (omega arith), tt);
  shields = (in_range 6 (omega arith), tt);
  nullifiers = ((source-InRange, omega arith, refl), tt);
  encrypteds = tt;
  generateds = tt;
}
  where
    in_range : (n : ℕ) → n < 10 → RowInRange source 0 n hash
    in_range n small = record {
      source = source-InRange;
      number = omega arith;
      position = omega arith;
      hash_length = refl;
    }

encode_wallet_scan_records-read_example :
    read_wallet_scan encoded.0.payload ≡ some (scanned rows, [])
encode_wallet_scan_records-read_example =
    encode_wallet_scan_records-read rows encoded.0 encoded.1 rows-InRange encoded.2

chunk :
    (p : Published (Unit {0}) (Unit {0})) × (prepare_wallet_scan_chunk format tt 5 9 rows tt ≡ ok p)
unfolding prepare_wallet_scan_chunk validate_rows_in_range validate_each validate_source_in_range
    encode_wallet_scan_envelope encode_wallet_scan_records append_section total_count write_records
    write_transact_record write_shield_record write_nullifier_record write_legacy_encrypted_record
    write_legacy_generated_record write_source write_each write_len write_bytes to_le_bytes
chunk = (_, refl)

prepare_wallet_scan_chunk-Represents_example : Represents format 5 9 rows chunk.0
prepare_wallet_scan_chunk-Represents_example =
    prepare_wallet_scan_chunk-Represents format tt 5 9 rows tt chunk.1
