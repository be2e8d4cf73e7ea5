-- ===== src/Format/Paths/SortKey.antt =====
-- `ArchivePath::sort_key`, by which the catalog finds duplicate paths, tells all paths apart.
use pithos.Prelude.{
  ℕ, ◌<◌, ◌≡◌, refl, sym, ap, ◌∙◌, List, [], ◌∷◌, ◌++◌, arith, All, length, take, drop, take-append,
  drop-append,
}
use mathlib.Core.Path.{ap₂}
use pithos.Core.Checked.{u64_end}
use pithos.Core.Bytes.{to_le_bytes, from_le_bytes, length-to_le_bytes, from_le_bytes-to_le_bytes}
use pithos.Format.Paths.{
  PathEncoding, encoding_id, PathComponent, ArchivePath, sort_key_of, sort_key,
}

-- A component whose length is a `u64`, as every length is.
abbrev pub IsSizedComponent : PathComponent → Type 0
IsSizedComponent c = length c.bytes < u64_end

encoding_id-injective : (e f : PathEncoding) → encoding_id e ≡ encoding_id f → e ≡ f
unfolding encoding_id
encoding_id-injective e f h = ground arith

-- A block of known length in front of two equal lists.
front_eq :
    (n : ℕ) (xs ys vs ws : List ℕ)
    → length xs ≡ n
    → length vs ≡ n
    → xs ++ ys ≡ vs ++ ws
    → (xs ≡ vs) × (ys ≡ ws)
front_eq n xs ys vs ws h k e = (
  sym (take-append xs ys n h) ∙ ap (take n) e ∙ take-append vs ws n k,
  sym (drop-append xs ys n h) ∙ ap (drop n) e ∙ drop-append vs ws n k,
)

to_le_bytes-injective :
    (m n : ℕ) → m < u64_end → n < u64_end → to_le_bytes 8 m ≡ to_le_bytes 8 n → m ≡ n
to_le_bytes-injective m n h k e =
    sym (from_le_bytes-to_le_bytes 8 m h) ∙ ap from_le_bytes e ∙ from_le_bytes-to_le_bytes 8 n k

same_component : (c d : PathComponent) → c.encoding ≡ d.encoding → c.bytes ≡ d.bytes → c ≡ d
same_component c d e b = λ i. record { encoding = e i; bytes = b i }

sort_key_of-injective :
    (cs ds : List PathComponent)
    → All IsSizedComponent cs
    → All IsSizedComponent ds
    → sort_key_of cs ≡ sort_key_of ds
    → cs ≡ ds
unfolding sort_key_of
sort_key_of-injective [] [] h k e = refl
sort_key_of-injective [] (d ∷ ds) h k e = cc
sort_key_of-injective (c ∷ cs) [] h k e = cc
sort_key_of-injective (c ∷ cs) (d ∷ ds) h k e =
    let (sizes, bodies) =
      front_eq 8 (to_le_bytes 8 (length c.bytes)) (c.bytes ++ sort_key_of cs)
        (to_le_bytes 8 (length d.bytes)) (d.bytes ++ sort_key_of ds) (length-to_le_bytes 8 _)
        (length-to_le_bytes 8 _) (cc) in
    let size = to_le_bytes-injective (length c.bytes) (length d.bytes) h.0 k.0 sizes in
    let (names, rests) =
      front_eq (length c.bytes) c.bytes (sort_key_of cs) d.bytes (sort_key_of ds) refl (sym size)
        bodies in
    ap₂ ◌∷◌ (same_component c d (encoding_id-injective c.encoding d.encoding (cc)) names)
      (sort_key_of-injective cs ds h.1 k.1 rests)

-- Two archive paths with one sort key are the same path.
pub sort_key-injective :
    (p q : ArchivePath)
    → All IsSizedComponent p.components
    → All IsSizedComponent q.components
    → sort_key p ≡ sort_key q
    → p ≡ q
unfolding sort_key
sort_key-injective p q h k e =
    λ i. record { components = sort_key_of-injective p.components q.components h k e i }
