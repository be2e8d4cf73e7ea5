-- ===== src/Format/Buffer/Fill.antt =====
-- What an encoder's row of assignments leaves in each field of the buffer, and the converse: two
-- buffers that agree on every field are equal. `written` finds by computation the last assignment
-- to a field that no later one overwrites.
use pithos.Prelude.{
  subst, ==→eq, take, zero, suc, ◌+◌, ℕ, ◌-◌, ◌≤◌, ◌≡◌, refl, sym, ap, ◌∙◌, ◌⊎◌, inl, inr, Bool,
  true, ◌&&◌, ◌||◌, Option, none, some, List, [], ◌∷◌, ◌++◌, arith, length, drop, take_all, All,
  leb, ◌==◌, if◌then◌else◌, Bool-cases,
}
use mathlib.Core.Path.{ap₂}
use pithos.Format.Buffer.{slice, copy_from_slice, Patch, fill}
use pithos.Format.Buffer.Slices.{
  length-copy_from_slice, slice-copy_from_slice_self, slice-copy_from_slice_disjoint, drop-drop_add,
}

abbrev pub IsSized : ℕ → List Patch → Type 0
IsSized n = All (λ p. (p.start ≤ p.end) × (p.end ≤ n) × (length p.bytes ≡ p.end - p.start))

-- No assignment touches `start..end`.
abbrev pub untouched : ℕ → ℕ → List Patch → Bool
untouched a b [] = true
untouched a b (p ∷ ps) = (leb b p.start || leb p.end a) && untouched a b ps

abbrev pub written : ℕ → ℕ → List Patch → Option (List ℕ)
written a b [] = none
written a b (p ∷ ps) =
    if p.start == a && p.end == b && untouched a b ps then some p.bytes else written a b ps

pub length-fill :
    (n : ℕ) (buffer : List ℕ) (ps : List Patch)
    → length buffer ≡ n
    → IsSized n ps
    → length (fill buffer ps) ≡ n
unfolding fill
length-fill n buffer [] e s = e
length-fill n buffer (p ∷ ps) e s =
    length-fill n (copy_from_slice p.start p.end p.bytes buffer) ps
      (length-copy_from_slice p.start p.end p.bytes buffer s.0.0 (omega arith) s.0.2 ∙ e) s.1

apart : (a b : ℕ) (p : Patch) → (leb b p.start || leb p.end a) ≡ true → (b ≤ p.start) ⊎ (p.end ≤ a)
apart a b p h = grind arith

pub slice-fill-untouched :
    (n a b : ℕ) (buffer : List ℕ) (ps : List Patch)
    → length buffer ≡ n
    → IsSized n ps
    → a ≤ b
    → untouched a b ps ≡ true
    → slice a b (fill buffer ps) ≡ slice a b buffer
unfolding fill
slice-fill-untouched n a b buffer [] e s h u = refl
slice-fill-untouched n a b buffer (p ∷ ps) e s h u =
    slice-fill-untouched n a b (copy_from_slice p.start p.end p.bytes buffer) ps
      (length-copy_from_slice p.start p.end p.bytes buffer s.0.0 (omega arith) s.0.2 ∙ e) s.1 h
      (ground arith)
    ∙ slice-copy_from_slice_disjoint a b p.start p.end p.bytes buffer h s.0.0 (omega arith) s.0.2
        (apart a b p (ground arith))

-- A field reads back as the last assignment to it.
pub slice-fill :
    (n a b : ℕ) (buffer : List ℕ) (ps : List Patch) {bs : List ℕ}
    → length buffer ≡ n
    → IsSized n ps
    → a ≤ b
    → written a b ps ≡ some bs
    → slice a b (fill buffer ps) ≡ bs
unfolding fill
slice-fill n a b buffer [] e s h w = cc
slice-fill n a b buffer (p ∷ ps) {bs = bs} e s h w =
    elim (Bool-cases (p.start == a && p.end == b && untouched a b ps)) [
      | inl here ↦ found here (rw here at w)
      | inr on ↦
          slice-fill n a b (copy_from_slice p.start p.end p.bytes buffer) ps
            (length-copy_from_slice p.start p.end p.bytes buffer s.0.0 (omega arith) s.0.2 ∙ e) s.1
            h (rw on at w)
    ]
  where
    found :
        (p.start == a && p.end == b && untouched a b ps) ≡ true
        → some p.bytes ≡ some bs
        → slice a b (fill (copy_from_slice p.start p.end p.bytes buffer) ps) ≡ bs
    found here w' =
        slice-fill-untouched n a b (copy_from_slice p.start p.end p.bytes buffer) ps
          (length-copy_from_slice p.start p.end p.bytes buffer s.0.0 (omega arith) s.0.2 ∙ e) s.1 h
          (ground arith)
        ∙ ap (λ c. slice c b (copy_from_slice p.start p.end p.bytes buffer)) {x = a} {y = p.start}
            (ground arith)
        ∙ ap (λ d. slice p.start d (copy_from_slice p.start p.end p.bytes buffer)) {x = b}
            {y = p.end} (ground arith)
        ∙ slice-copy_from_slice_self p.start p.end p.bytes buffer s.0.0 (omega arith) s.0.2
        ∙ ground arith

take-add : (m k : ℕ) (xs : List ℕ) → take (m + k) xs ≡ take m xs ++ take k (drop m xs)
take-add zero k xs = ap (λ j. take j xs) (omega arith)
take-add (suc m) k [] = ap (λ j. take j []) {x = suc m + k} {y = suc (m + k)} (omega arith) ∙ nil k
  where
    nil : (j : ℕ) → [] ≡ take {A = ℕ} j []
    nil zero = refl
    nil (suc j) = refl
take-add (suc m) k (x ∷ xs) =
    ap (λ j. take j (x ∷ xs)) {x = suc m + k} {y = suc (m + k)} (omega arith)
    ∙ ap (◌∷◌ x) (take-add m k xs)

slice_split :
    (a c n : ℕ) (xs : List ℕ) → a ≤ c → c ≤ n → slice a n xs ≡ slice a c xs ++ slice c n xs
slice_split a c n xs h k =
    ap (λ j. take j (drop a xs)) {x = n - a} {y = c - a + (n - c)} (omega arith)
    ∙ take-add (c - a) (n - c) (drop a xs)
    ∙ ap (λ r. slice a c xs ++ take (n - c) r)
        (drop-drop_add (c - a) a xs ∙ ap (λ j. drop j xs) (omega arith))

empty_slice : (a b : ℕ) (xs : List ℕ) → a ≡ b → slice a b xs ≡ []
empty_slice a b xs e = ap (λ j. take j (drop a xs)) {x = b - a} {y = 0} (omega arith)

-- The assignments that begin at `a`, where the one before ends, and so on lay down `a..e`.
abbrev pub tiles : ℕ → ℕ → List Patch → Bool
tiles a e [] = a == e
tiles a e (p ∷ ps) =
    let next = tiles p.end e ps in
    let skipped = tiles a e ps in
    if p.start == a then leb p.end e && untouched p.start p.end ps && next else skipped

-- Each assignment writes what `target` has in that place.
abbrev pub Matches : List ℕ → List Patch → Type 0
Matches target = All (λ p. p.bytes ≡ slice p.start p.end target)

pub join_slices :
    (a c e : ℕ) (xs ys : List ℕ)
    → a ≤ c
    → c ≤ e
    → slice a c xs ≡ slice a c ys
    → slice c e xs ≡ slice c e ys
    → slice a e xs ≡ slice a e ys
join_slices a c e xs ys h k here rest =
    slice_split a c e xs h k ∙ ap₂ ◌++◌ here rest ∙ sym (slice_split a c e ys h k)

module _ (n : ℕ) (target : List ℕ) where
  -- Where assignments that match `target` lay down a range, the buffer is `target` there.
  pub fill-Matches :
      (a e : ℕ) (buffer : List ℕ) (ps : List Patch)
      → length buffer ≡ n
      → IsSized n ps
      → Matches target ps
      → tiles a e ps ≡ true
      → slice a e (fill buffer ps) ≡ slice a e target
  unfolding fill
  fill-Matches a e buffer [] l s m t =
      empty_slice a e buffer (ground arith) ∙ sym (empty_slice a e target (ground arith))
  fill-Matches a e buffer (p ∷ ps) l s m t = elim (Bool-cases (p.start == a)) [
    | inl here ↦
        subst (λ c. slice c e (fill next ps) ≡ slice c e target) (==→eq p.start a here)
          (join_slices p.start p.end e (fill next ps) target s.0.0 (ground arith)
            (slice-fill-untouched n p.start p.end next ps length-next s.1 s.0.0 (ground arith)
              ∙ slice-copy_from_slice_self p.start p.end p.bytes buffer s.0.0 (omega arith) s.0.2
              ∙ m.0)
            (fill-Matches p.end e next ps length-next s.1 m.1 (ground arith)))
    | inr on ↦ fill-Matches a e next ps length-next s.1 m.1 (ground arith)
  ]
    where
      next : List ℕ
      next = copy_from_slice p.start p.end p.bytes buffer

      length-next : length next ≡ n
      length-next =
          length-copy_from_slice p.start p.end p.bytes buffer s.0.0 (omega arith) s.0.2 ∙ l

pub eq_of_slice :
    (n : ℕ) (xs ys : List ℕ) → length xs ≡ n → length ys ≡ n → slice 0 n xs ≡ slice 0 n ys → xs ≡ ys
eq_of_slice n xs ys e f g =
    sym (take_all (n - 0) xs (omega arith)) ∙ g ∙ take_all (n - 0) ys (omega arith)
