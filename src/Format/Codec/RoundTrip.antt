-- ===== src/Format/Codec/RoundTrip.antt =====
-- `CodecRegistry::encode` and `CodecRegistry::decode` invert each other.
use pithos.Prelude.{
  ℕ, ◌+◌, ◌*◌, ◌/◌, ◌≤◌, ◌<◌, ◌≡◌, refl, sym, subst, ap, ◌∙◌, inl, inr, List, [], ◌++◌, arith, All,
  length, drop, length-append, take-append, drop-append, take-append-drop, length-drop,
}
use pithos.Core.{ok, Result-cases}
use pithos.Core.Checked.{u32_end}
use pithos.Core.Bytes.{IsByte, to_le_bytes, length-to_le_bytes}
use pithos.Format.Buffer.{read_u32, slice}
use pithos.Format.Buffer.Slices.{All-drop}
use pithos.Format.Buffer.Reads.{read_u32_of, read_u32_bytes}
use pithos.Format.Codec.{
  CodecRegistryRecord, CodecRegistry, encode_records, decode_records, encode_registry,
  decode_registry, chunks,
}
use pithos.Format.Codec.Loop.{
  IsAccepted, length-encode_records, decode_records-encode_records, encode_records-decode_records,
}

encode_registry-inv :
    (reg : CodecRegistry) (bytes : List ℕ)
    → encode_registry reg ≡ ok bytes
    → (body : List ℕ) × (encode_records [] reg.records ≡ ok body)
      × (bytes ≡ to_le_bytes 4 (length reg.records) ++ body)
      × (length reg.records < u32_end)
unfolding encode_registry
encode_registry-inv reg bytes e = elim (Result-cases (encode_records [] reg.records)) [
  | inl (body, q) ↦ (body, q, ground arith, ground arith)
  | inr (x, q) ↦ absurd (ground arith)
]

encode_registry_of :
    (reg : CodecRegistry) (body : List ℕ)
    → encode_records [] reg.records ≡ ok body
    → length reg.records < u32_end
    → encode_registry reg ≡ ok (to_le_bytes 4 (length reg.records) ++ body)
unfolding encode_registry
encode_registry_of reg body q h = ground arith

decode_registry_of :
    (input : List ℕ) (max_records n : ℕ) (rs : List CodecRegistryRecord)
    → read_u32 input 0 ≡ n
    → length input ≡ 4 + 16 * n
    → n ≤ max_records
    → n < u32_end
    → decode_records [] (chunks n 16 (drop 4 input)) ≡ ok rs
    → decode_registry input max_records ≡ ok (record { records = rs })
unfolding decode_registry
decode_registry_of input max_records n rs c l m h e =
    let pieces : length (drop 4 input) / 16 ≡ n = omega (arith, length-drop 4 input) in
    let e' : decode_records [] (chunks (length (drop 4 input) / 16) 16 (drop 4 input)) ≡ ok rs =
      rw pieces e in
    ground arith

pub decode_registry-inv :
    (input : List ℕ) (max_records : ℕ) (reg : CodecRegistry)
    → decode_registry input max_records ≡ ok reg
    → (4 ≤ length input)
      × (length input ≡ 4 + 16 * read_u32 input 0)
      × (read_u32 input 0 ≤ max_records)
      × (decode_records [] (chunks (length (drop 4 input) / 16) 16 (drop 4 input)) ≡ ok reg.records)
unfolding decode_registry
decode_registry-inv input max_records reg e =
    elim (Result-cases
      (decode_records [] (chunks (length (drop 4 input) / 16) 16 (drop 4 input)))) [
        | inl (rs, q) ↦ (ground arith, ground arith, ground arith, ground arith)
        | inr (x, q) ↦ absurd (ground arith)
      ]

-- A registry of accepted records, within the decoder's limit, that encodes at all is read back.
pub decode_registry-encode_registry :
    (reg : CodecRegistry) (max_records : ℕ) (bytes : List ℕ)
    → All IsAccepted reg.records
    → length reg.records ≤ max_records
    → encode_registry reg ≡ ok bytes
    → decode_registry bytes max_records ≡ ok reg
decode_registry-encode_registry reg max_records bytes a m e =
    let (body, q, shape, h) = encode_registry-inv reg bytes e in
    let n = length reg.records in
    let le = to_le_bytes 4 n in
    subst (λ bs. decode_registry bs max_records ≡ ok reg) (sym shape)
      (decode_registry_of (le ++ body) max_records n reg.records
        (read_u32_of (le ++ body) 0 h (take-append le body 4 (length-to_le_bytes 4 n)))
        (omega (
          arith,
          length-append le body,
          length-to_le_bytes 4 n,
          length-encode_records [] reg.records body q,
        ))
        m h
        (ap (λ bs. decode_records [] (chunks n 16 bs))
            (drop-append le body 4 (length-to_le_bytes 4 n))
          ∙ decode_records-encode_records [] reg.records body a q))

-- Only the encoding of a registry decodes to it, and the number of its records is within the limit.
pub encode_registry-decode_registry :
    (input : List ℕ) (max_records : ℕ) (reg : CodecRegistry)
    → All IsByte input
    → decode_registry input max_records ≡ ok reg
    → (encode_registry reg ≡ ok input) × (length reg.records ≤ max_records)
encode_registry-decode_registry input max_records reg bs e =
    let (long, size, m, q) = decode_registry-inv input max_records reg e in
    let n : ℕ = length (drop 4 input) / 16 in
    let body_size : length (drop 4 input) ≡ 16 * n = omega (arith, length-drop 4 input) in
    let (back, count) =
      encode_records-decode_records n [] reg.records (drop 4 input) body_size (All-drop 4 input bs)
        q in
    let read : (to_le_bytes 4 (read_u32 input 0) ≡ slice 0 4 input) × (read_u32 input 0 < u32_end) =
      read_u32_bytes input bs (length input) refl 0 long refl in
    let counted : length reg.records ≡ read_u32 input 0 = omega (arith, length-drop 4 input) in
    (
      encode_registry_of reg (drop 4 input) back (omega arith)
          ∙ ap (λ front. ok (front ++ drop 4 input)) (ap (to_le_bytes 4) counted ∙ read.0)
          ∙ ap ok (take-append-drop 4 input),
      omega arith,
    )
