-- ===== src/Format/Codec/Chain.antt =====
-- `CodecRegistry::chain` on a registry that `decode` returned: chain ids are not shared, so each
-- record is found under its own id.
use pithos.Prelude.{
  ℕ, zero, suc, ◌≡◌, ◌≢◌, sym, false, none, subst, some, List, [], ◌∷◌, arith, get_elem?, contains,
}
use pithos.Core.{ok}
use pithos.Format.Codec.{
  CodecRegistryRecord, CodecRegistry, decode_records, decode_registry, decode_codec_record,
  find_chain, chain, validate_for_decode,
}
use pithos.Format.Codec.Loop.{decode_records-inv, validate_for_decode-ne-zero}
use pithos.Format.Codec.RoundTrip.{decode_registry-inv}

decode_records-nil :
    (seen : List ℕ) (rs : List CodecRegistryRecord) → decode_records seen [] ≡ ok rs → [] ≡ rs
unfolding decode_records
decode_records-nil seen rs e = ground arith

-- One record in front: what the loop says of the others carries over.
chain_cons :
    (seen : List ℕ) (first : CodecRegistryRecord) (rest : List CodecRegistryRecord) (i : ℕ)
    (r : CodecRegistryRecord)
    → contains seen first.chain_id ≡ false
    → validate_for_decode first ≡ ok tt
    → ((j : ℕ)
        → get_elem? rest j ≡ some r
        → (contains (first.chain_id ∷ seen) r.chain_id ≡ false)
          × (validate_for_decode r ≡ ok tt)
          × (find_chain r.chain_id rest ≡ some r))
    → get_elem? (first ∷ rest) i ≡ some r
    → (contains seen r.chain_id ≡ false)
      × (validate_for_decode r ≡ ok tt)
      × (find_chain r.chain_id (first ∷ rest) ≡ some r)
unfolding find_chain
chain_cons seen first rest zero r c v ih g =
    let same : first ≡ r = ground arith in
    (
      subst (λ x. contains seen x.chain_id ≡ false) same c,
      subst (λ x. validate_for_decode x ≡ ok tt) same v,
      ground arith,
    )
chain_cons seen first rest (suc i) r c v ih g = ground (arith, ih i g)

-- What the loop accepts is not among the ids seen before, is valid, and is the first of its id.
decoded_chain :
    (seen : List ℕ) (pieces : List (List ℕ)) (rs : List CodecRegistryRecord) (i : ℕ)
    (r : CodecRegistryRecord)
    → decode_records seen pieces ≡ ok rs
    → get_elem? rs i ≡ some r
    → (contains seen r.chain_id ≡ false)
      × (validate_for_decode r ≡ ok tt)
      × (find_chain r.chain_id rs ≡ some r)
decoded_chain seen [] rs i r e g =
    let none_left : none ≡ some r =
      subst (λ xs. get_elem? xs i ≡ some r) (sym (decode_records-nil seen rs e)) g in
    absurd (ground arith)
decoded_chain seen (piece ∷ more) rs i r e g =
    let (rest, q, shape, c, v) = decode_records-inv seen piece more rs e in
    subst
      (λ xs.
        (contains seen r.chain_id ≡ false)
        × (validate_for_decode r ≡ ok tt)
        × (find_chain r.chain_id xs ≡ some r))
      (sym shape)
      (chain_cons seen (decode_codec_record piece) rest i r c v
        (λ j h. decoded_chain ((decode_codec_record piece).chain_id ∷ seen) more rest j r q h)
        (subst (λ xs. get_elem? xs i ≡ some r) shape g))

-- In a decoded registry every record is valid, has a chain id other than 0, and is the one that
-- its id finds.
pub chain-decode_registry :
    (input : List ℕ) (max_records : ℕ) (reg : CodecRegistry) (i : ℕ) (r : CodecRegistryRecord)
    → decode_registry input max_records ≡ ok reg
    → get_elem? reg.records i ≡ some r
    → (chain reg r.chain_id ≡ some r) × (r.chain_id ≢ 0) × (validate_for_decode r ≡ ok tt)
unfolding chain
chain-decode_registry input max_records reg i r e g =
    let (long, size, m, q) = decode_registry-inv input max_records reg e in
    let (c, v, found) = decoded_chain [] _ reg.records i r q g in
    (found, validate_for_decode-ne-zero r v, v)
