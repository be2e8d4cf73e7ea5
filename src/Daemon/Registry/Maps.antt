-- ===== src/Daemon/Registry/Maps.antt =====
-- `BTreeMap` with byte strings as keys: the list of its entries, in the order of the keys.
pub mod Entries
use pithos.Prelude.{
  ℕ, suc, ◌≡◌, refl, ap, sym, subst, All, inl, inr, Bool, true, false, ◌||◌, ◌&&◌, Option, none,
  some, List, [], ◌∷◌, length, ltb, ◌==◌, if◌then◌else◌, Bool-cases,
}
use pithos.Format.Same.{same_bytes, same_bytes→eq, eq→same_bytes}

-- The order of byte strings.
unfoldable pub bytes_before : List ℕ → List ℕ → Bool
bytes_before [] [] = false
bytes_before [] (b ∷ bs) = true
bytes_before (a ∷ as') [] = false
bytes_before (a ∷ as') (b ∷ bs) = ltb a b || (a == b && bytes_before as' bs)

module _ {ℓ} {V : Type ℓ} where
  -- `map.get(key)`
  unfoldable pub get_key : List (List ℕ × V) → List ℕ → Option V
  get_key [] key = none
  get_key (e ∷ es) key = if same_bytes e.0 key then some e.1 else get_key es key

  -- `*map.get_mut(key) = value`
  unfoldable pub set_key : List (List ℕ × V) → List ℕ → V → List (List ℕ × V)
  set_key [] key value = []
  set_key (e ∷ es) key value =
      let rest = set_key es key value in if same_bytes e.0 key then (e.0, value) ∷ es else e ∷ rest

  -- `map.insert(key, value)`
  unfoldable pub insert_key : List (List ℕ × V) → List ℕ → V → List (List ℕ × V)
  insert_key [] key value = (key, value) ∷ []
  insert_key (e ∷ es) key value =
      let rest = insert_key es key value in
      if same_bytes e.0 key
      then (key, value) ∷ es
      else if bytes_before key e.0
      then (key, value) ∷ e ∷ es
      else e ∷ rest

same_bytes_refl : (xs : List ℕ) → same_bytes xs xs ≡ true
same_bytes_refl xs = eq→same_bytes xs xs refl

-- Keys that one string equals are equal.
pub told_apart :
    (a b c : List ℕ) → same_bytes a b ≡ true → same_bytes b c ≡ false → same_bytes a c ≡ false
told_apart a b c hit miss = rw (same_bytes→eq a b hit) miss

module _ {ℓ} {V : Type ℓ} where
  pub insert_key-get_key :
      (es : List (List ℕ × V)) (key : List ℕ) (value : V)
      → get_key (insert_key es key value) key ≡ some value
  unfolding insert_key get_key
  insert_key-get_key [] key value = rw (same_bytes_refl key) refl
  insert_key-get_key (e ∷ es) key value = elim (Bool-cases (same_bytes e.0 key)) [
    | inl hit ↦ rw (hit, same_bytes_refl key) refl
    | inr miss ↦ elim (Bool-cases (bytes_before key e.0)) [
      | inl first ↦ rw (miss, first, same_bytes_refl key) refl
      | inr later ↦ rw (miss, later, miss) (insert_key-get_key es key value)
    ]
  ]

  pub insert_key-get_key_other :
      (es : List (List ℕ × V)) (key other : List ℕ) (value : V)
      → same_bytes key other ≡ false
      → get_key (insert_key es key value) other ≡ get_key es other
  unfolding insert_key get_key
  insert_key-get_key_other [] key other value apart = rw apart refl
  insert_key-get_key_other (e ∷ es) key other value apart = elim (Bool-cases (same_bytes e.0 key)) [
    | inl hit ↦ rw (hit, apart, told_apart e.0 key other hit apart) refl
    | inr miss ↦ elim (Bool-cases (bytes_before key e.0)) [
      | inl first ↦ rw (miss, first, apart) refl
      | inr later ↦ rw (miss, later, insert_key-get_key_other es key other value apart) refl
    ]
  ]

  pub length-insert_key :
      (es : List (List ℕ × V)) (key : List ℕ) (value : V)
      → get_key es key ≡ none
      → length (insert_key es key value) ≡ suc (length es)
  unfolding insert_key get_key
  length-insert_key [] key value fresh = refl
  length-insert_key (e ∷ es) key value fresh = elim (Bool-cases (same_bytes e.0 key)) [
    | inl hit ↦ let bad : some e.1 ≡ none = rw hit at fresh in cc
    | inr miss ↦ elim (Bool-cases (bytes_before key e.0)) [
      | inl first ↦ rw (miss, first) refl
      | inr later ↦
          let left : get_key es key ≡ none = rw miss at fresh in
          rw (miss, later) (ap suc (length-insert_key es key value left))
    ]
  ]

  pub length-set_key :
      (es : List (List ℕ × V)) (key : List ℕ) (value : V)
      → length (set_key es key value) ≡ length es
  unfolding set_key
  length-set_key [] key value = refl
  length-set_key (e ∷ es) key value = elim (Bool-cases (same_bytes e.0 key)) [
    | inl hit ↦ rw hit refl
    | inr miss ↦ rw miss (ap suc (length-set_key es key value))
  ]

  pub set_key-get_key :
      (es : List (List ℕ × V)) (key : List ℕ) (value : V) {old : V}
      → get_key es key ≡ some old
      → get_key (set_key es key value) key ≡ some value
  unfolding set_key get_key
  set_key-get_key [] key value there = cc
  set_key-get_key (e ∷ es) key value {old} there = elim (Bool-cases (same_bytes e.0 key)) [
    | inl hit ↦ rw (hit, hit) refl
    | inr miss ↦
        let left : get_key es key ≡ some old = rw miss at there in
        rw (miss, miss) (set_key-get_key es key value left)
  ]

  pub set_key-get_key_other :
      (es : List (List ℕ × V)) (key other : List ℕ) (value : V)
      → same_bytes key other ≡ false
      → get_key (set_key es key value) other ≡ get_key es other
  unfolding set_key get_key
  set_key-get_key_other [] key other value apart = refl
  set_key-get_key_other (e ∷ es) key other value apart = elim (Bool-cases (same_bytes e.0 key)) [
    | inl hit ↦ rw (hit, told_apart e.0 key other hit apart) refl
    | inr miss ↦ rw (miss, set_key-get_key_other es key other value apart) refl
  ]
