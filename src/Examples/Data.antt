-- ===== src/Examples/Data.antt =====
-- Concrete functions for what the program takes from other crates: an addition in place of
-- Poseidon, a chunk format that keeps the payload, and hex decoding that changes nothing.
use railgun_indexer.Prelude.{ℕ, ◌+◌, get_or, replicate, ok, [], ◌∷◌, some}
use railgun_indexer.Artifact.{ChunkFormat}
use railgun_indexer.Merkle.{Tree}
use railgun_indexer.PoiStore.{Hex}
use railgun_indexer.Scrape.Worker.{Poi}

abbrev pub tree : Tree
tree = record {
  Word = ℕ;
  poseidon = λ a b. a + b;
  from_be_bytes = λ b. get_or b 31 0;
  to_be_bytes = λ w. w ∷ [];
  merkle_zero_value = 3;
  tree_depth = 2;
  tree_leaf_count = 4;
}

abbrev pub format : ChunkFormat
format = record {
  ChainScope = Unit {0};
  Compression = Unit {0};
  encode_chunk_bytes = λ e c. ok e.payload;
  sha256_digest = λ bytes. bytes;
  max_compressed_chunk_bytes = 1_000;
  chunk_format_version = 1;
}

abbrev pub hex : Hex
hex = record {
  decode = λ bytes. some bytes;
  encode = λ bytes. bytes;
  encode_prefixed = λ bytes. bytes;
}

abbrev pub poi : Poi
poi = record {
  Cache = ℕ;
  hex = hex;
  verify_poi_event = λ e key. ok tt;
  verify_blocked_shield = λ r key. ok tt;
  new_cache = 0;
  apply_verified_artifact_events = λ cache events. ok (cache + 1);
  current_roots = λ cache tree_number. some (replicate 32 7);
  normalize_tree_position = λ tree_number position. (tree_number, position);
}
