-- ===== src/Daemon/Registry/Maps/Entries.antt =====
-- Properties of all entries of a map.
use pithos.Prelude.{ℕ, ◌≡◌, refl, sym, subst, inl, inr, some, List, [], ◌∷◌, All, Bool-cases}
use pithos.Format.Same.{same_bytes, same_bytes→eq}
use pithos.Daemon.Registry.Maps.{bytes_before, get_key, set_key, insert_key}

same_entry {ℓ} :
    {V : Type ℓ} {k k' : List ℕ} {v v' : V}
    → k ≡ k'
    → some v ≡ some v'
    → ◌≡◌ {A = List ℕ × V} (k, v) (k', v')
same_entry p q = cc

-- A property of the entries that the new value has where the old one had it.
pub set_key-All {ℓ κ} :
    {V : Type ℓ} (P : List ℕ × V → Type κ) (es : List (List ℕ × V)) (key : List ℕ) (value : V)
    {old : V}
    → get_key es key ≡ some old
    → (P (key, old) → P (key, value))
    → All P es
    → All P (set_key es key value)
unfolding set_key get_key
set_key-All P [] key value there f all = cc
set_key-All P (e ∷ es) key value {old} there f all = elim (Bool-cases (same_bytes e.0 key)) [
  | inl hit ↦
      let found : some e.1 ≡ some old = rw hit at there in
      let same = same_bytes→eq e.0 key hit in
      let before : P (key, old) = subst P (same_entry same found) all.0 in
      rw hit (subst P (same_entry (sym same) refl) (f before), all.1)
  | inr miss ↦
      let left : get_key es key ≡ some old = rw miss at there in
      rw miss (all.0, set_key-All P es key value left f all.1)
]

-- A property of the entries that the new one has.
pub insert_key-All {ℓ κ} :
    {V : Type ℓ} (P : List ℕ × V → Type κ) (es : List (List ℕ × V)) (key : List ℕ) (value : V)
    → P (key, value)
    → All P es
    → All P (insert_key es key value)
unfolding insert_key
insert_key-All P [] key value p all = (p, tt)
insert_key-All P (e ∷ es) key value p all = elim (Bool-cases (same_bytes e.0 key)) [
  | inl hit ↦ rw hit (p, all.1)
  | inr miss ↦ elim (Bool-cases (bytes_before key e.0)) [
    | inl first ↦ rw (miss, first) (p, all)
    | inr later ↦ rw (miss, later) (all.0, insert_key-All P es key value p all.1)
  ]
]

-- An entry that a key finds has what all entries have.
pub All-get_key {ℓ κ} :
    {V : Type ℓ} (P : List ℕ × V → Type κ) (es : List (List ℕ × V)) (key : List ℕ) {value : V}
    → get_key es key ≡ some value
    → All P es
    → P (key, value)
unfolding get_key
All-get_key P [] key there all = cc
All-get_key P (e ∷ es) key {value} there all = elim (Bool-cases (same_bytes e.0 key)) [
  | inl hit ↦
      let found : some e.1 ≡ some value = rw hit at there in
      subst P (same_entry (same_bytes→eq e.0 key hit) found) all.0
  | inr miss ↦
      let left : get_key es key ≡ some value = rw miss at there in All-get_key P es key left all.1
]
