-- ===== src/Examples/Registry.antt =====
-- The codec registry at concrete inputs.
use pithos.Prelude.{ℕ, ◌≤◌, ◌≡◌, ◌≢◌, refl, List, [], ◌∷◌, some, arith}
use pithos.Prelude.Int.{negsuc}
use pithos.Core.{ok, err, invalid_metadata}
use pithos.Core.Bytes.{i32_bits, to_le_bytes}
use pithos.Format.Buffer.{fill, copy_from_slice}
use pithos.Format.Codec.{
  CodecRegistryRecord, CodecRegistry, store_record, encode_codec_record, validate_for_decode,
  encode_records, encode_registry, decode_registry, chain,
}
use pithos.Format.Codec.RoundTrip.{decode_registry-encode_registry, encode_registry-decode_registry}
use pithos.Format.Codec.Chain.{chain-decode_registry}
use pithos.Prelude.{length}

abbrev zstd_record : CodecRegistryRecord
zstd_record = record { chain_id = 2; codec_id = 1; codec_version = 1; level = negsuc 6; flags = 1 }

abbrev sample_registry : CodecRegistry
sample_registry = record { records = store_record 1 ∷ zstd_record ∷ [] }

abbrev sample_bytes : List ℕ
sample_bytes =
    2 ∷ 0 ∷ 0 ∷ 0 ∷ 1 ∷ 0 ∷ 0 ∷ 0 ∷ 0 ∷ 0 ∷ 1 ∷ 0 ∷ 0 ∷ 0 ∷ 0 ∷ 0 ∷ 1 ∷ 0 ∷ 0 ∷ 0 ∷ 2 ∷ 0 ∷ 0 ∷ 0
    ∷ 1 ∷ 0 ∷ 1 ∷ 0 ∷ 249 ∷ 255 ∷ 255 ∷ 255 ∷ 1 ∷ 0 ∷ 0 ∷ 0 ∷ []

encoded_sample : encode_registry sample_registry ≡ ok sample_bytes
unfolding encode_registry encode_records encode_codec_record store_record fill copy_from_slice
    to_le_bytes i32_bits
encoded_sample = refl

decode_registry-encode_registry_example : decode_registry sample_bytes 32 ≡ ok sample_registry
unfolding validate_for_decode store_record
decode_registry-encode_registry_example =
    decode_registry-encode_registry sample_registry 32 sample_bytes
      ((omega arith, refl), ((omega arith, refl), tt)) (omega arith) encoded_sample

encode_registry-decode_registry_example :
    (encode_registry sample_registry ≡ ok sample_bytes) × (length sample_registry.records ≤ 32)
encode_registry-decode_registry_example =
    encode_registry-decode_registry sample_bytes 32 sample_registry (omega arith)
      decode_registry-encode_registry_example

chain-decode_registry_example :
    (chain sample_registry 2 ≡ some zstd_record)
    × (zstd_record.chain_id ≢ 0)
    × (validate_for_decode zstd_record ≡ ok tt)
chain-decode_registry_example =
    chain-decode_registry sample_bytes 32 sample_registry 1 zstd_record
      decode_registry-encode_registry_example refl

-- Two records of one chain are refused.
duplicate_chain :
    encode_registry (record { records = store_record 1 ∷ store_record 1 ∷ [] })
    ≡ err (invalid_metadata "duplicate or reserved codec chain")
unfolding encode_registry encode_records encode_codec_record store_record
duplicate_chain = refl
