-- ===== src/Format/Codec/Loop.antt =====
-- The loops of `CodecRegistry::encode` and `CodecRegistry::decode` against each other.
use pithos.Prelude.{
  ℕ, zero, suc, ◌*◌, ◌≡◌, refl, sym, ap, ◌∙◌, false, List, [], ◌∷◌, ◌++◌, arith, All, ◌≢◌, inl, inr,
  subst, length, take, drop, length-append, take-append, drop-append, take-append-drop, length-take,
  length-drop, contains,
}
use pithos.Core.{ok, Result-cases}
use pithos.Core.Bytes.{IsByte}
use pithos.Format.Buffer.Slices.{All-take, All-drop}
use pithos.Format.Codec.{
  CodecRegistryRecord, IsCodecRecord, encode_codec_record, decode_codec_record, validate_for_decode,
  encode_records, decode_records, chunks,
}
use pithos.Format.Codec.Record.{
  length-encode_codec_record, decode_codec_record-encode_codec_record,
  encode_codec_record-decode_codec_record,
}

-- A record that the decoder accepts.
abbrev pub IsAccepted : CodecRegistryRecord → Type 0
IsAccepted r = IsCodecRecord r × (validate_for_decode r ≡ ok tt)

pub encode_records-inv :
    (seen : List ℕ) (r : CodecRegistryRecord) (rs : List CodecRegistryRecord) (bytes : List ℕ)
    → encode_records seen (r ∷ rs) ≡ ok bytes
    → (rest : List ℕ) × (encode_records (r.chain_id ∷ seen) rs ≡ ok rest)
      × (bytes ≡ encode_codec_record r ++ rest)
      × (contains seen r.chain_id ≡ false)
      × (r.chain_id ≢ 0)
unfolding encode_records
encode_records-inv seen r rs bytes e = elim (Result-cases (encode_records (r.chain_id ∷ seen) rs)) [
  | inl (rest, q) ↦ (rest, q, ground arith, ground arith, ground arith)
  | inr (x, q) ↦ absurd (ground arith)
]

-- One round of each loop, forwards.
encode_step :
    (seen : List ℕ) (r : CodecRegistryRecord) (rs : List CodecRegistryRecord) (rest : List ℕ)
    → r.chain_id ≢ 0
    → contains seen r.chain_id ≡ false
    → encode_records (r.chain_id ∷ seen) rs ≡ ok rest
    → encode_records seen (r ∷ rs) ≡ ok (encode_codec_record r ++ rest)
unfolding encode_records
encode_step seen r rs rest z c e = ground arith

decode_step :
    (seen : List ℕ) (r : CodecRegistryRecord) (rs : List CodecRegistryRecord) (piece : List ℕ)
    (more : List (List ℕ))
    → decode_codec_record piece ≡ r
    → validate_for_decode r ≡ ok tt
    → contains seen r.chain_id ≡ false
    → decode_records (r.chain_id ∷ seen) more ≡ ok rs
    → decode_records seen (piece ∷ more) ≡ ok (r ∷ rs)
unfolding decode_records
decode_step seen r rs piece more d v c e = rw (d, v, c, e)

pub decode_records-inv :
    (seen : List ℕ) (piece : List ℕ) (more : List (List ℕ)) (rs : List CodecRegistryRecord)
    → decode_records seen (piece ∷ more) ≡ ok rs
    → (rest : List CodecRegistryRecord) × (decode_records
          ((decode_codec_record piece).chain_id ∷ seen)
          more
        ≡ ok rest)
      × (rs ≡ decode_codec_record piece ∷ rest)
      × (contains seen (decode_codec_record piece).chain_id ≡ false)
      × (validate_for_decode (decode_codec_record piece) ≡ ok tt)
unfolding decode_records
decode_records-inv seen piece more rs e =
    elim (Result-cases (decode_records ((decode_codec_record piece).chain_id ∷ seen) more)) [
      | inl (rest, q) ↦ (rest, q, ground arith, ground arith, ground arith)
      | inr (x, q) ↦ absurd (ground arith)
    ]

pub validate_for_decode-ne-zero :
    (r : CodecRegistryRecord) → validate_for_decode r ≡ ok tt → r.chain_id ≢ 0
unfolding validate_for_decode
validate_for_decode-ne-zero r v = ground arith

pub length-encode_records :
    (seen : List ℕ) (rs : List CodecRegistryRecord) (bytes : List ℕ)
    → encode_records seen rs ≡ ok bytes
    → length bytes ≡ 16 * length rs
length-encode_records seen [] bytes e = unfold encode_records in ground arith
length-encode_records seen (r ∷ rs) bytes e =
    let (rest, q, b, c, z) = encode_records-inv seen r rs bytes e in
    ap length b
    ∙ omega (
      arith,
      length-append (encode_codec_record r) rest,
      length-encode_codec_record r,
      length-encode_records (r.chain_id ∷ seen) rs rest q,
    )

pub decode_records-encode_records :
    (seen : List ℕ) (rs : List CodecRegistryRecord) (bytes : List ℕ)
    → All IsAccepted rs
    → encode_records seen rs ≡ ok bytes
    → decode_records seen (chunks (length rs) 16 bytes) ≡ ok rs
unfolding chunks
decode_records-encode_records seen [] bytes a e = unfold decode_records in refl
decode_records-encode_records seen (r ∷ rs) bytes a e =
    let (rest, q, b, c, z) = encode_records-inv seen r rs bytes e in
    let size = length-encode_codec_record r in
    subst
      (λ bs. decode_records seen (take 16 bs ∷ chunks (length rs) 16 (drop 16 bs)) ≡ ok (r ∷ rs))
      (sym b)
      (decode_step seen r rs _ _
        (ap decode_codec_record (take-append (encode_codec_record r) rest 16 size)
          ∙ decode_codec_record-encode_codec_record r a.0.0)
        a.0.1 c
        (ap (λ bs. decode_records (r.chain_id ∷ seen) (chunks (length rs) 16 bs))
            (drop-append (encode_codec_record r) rest 16 size)
          ∙ decode_records-encode_records (r.chain_id ∷ seen) rs rest a.1 q))

pub encode_records-decode_records :
    (count : ℕ) (seen : List ℕ) (rs : List CodecRegistryRecord) (bytes : List ℕ)
    → length bytes ≡ 16 * count
    → All IsByte bytes
    → decode_records seen (chunks count 16 bytes) ≡ ok rs
    → (encode_records seen rs ≡ ok bytes) × (length rs ≡ count)
unfolding chunks
encode_records-decode_records zero seen rs [] size bs e =
    unfold encode_records decode_records in ground arith
encode_records-decode_records zero seen rs (b ∷ bytes) size bs e = absurd (omega arith)
encode_records-decode_records (suc count) seen rs bytes size bs e =
    let (rest, q, shape, c, v) =
      decode_records-inv seen (take 16 bytes) (chunks count 16 (drop 16 bytes)) rs e in
    let r : CodecRegistryRecord = decode_codec_record (take 16 bytes) in
    let ih =
      encode_records-decode_records count (r.chain_id ∷ seen) rest (drop 16 bytes)
        (omega (arith, length-drop 16 bytes)) (All-drop 16 bytes bs) q in
    let whole : encode_codec_record r ++ drop 16 bytes ≡ bytes =
      ap (λ front. front ++ drop 16 bytes)
        (encode_codec_record-decode_codec_record (take 16 bytes)
          (omega (arith, length-take 16 bytes)) (All-take 16 bytes bs))
      ∙ take-append-drop 16 bytes in
    (
      ap (encode_records seen) shape
          ∙ encode_step seen r rest (drop 16 bytes) (validate_for_decode-ne-zero r v) c ih.0
          ∙ ap ok whole,
      ap length shape ∙ ap suc ih.1,
    )
