-- ===== src/Format/Buffer/Slices.antt =====
-- How a slice of a buffer sees one `copy_from_slice`.
use pithos.Prelude.{
  ℕ, zero, suc, ◌+◌, ◌-◌, ◌≤◌, ◌≡◌, refl, sym, ap, ◌∙◌, ◌⊎◌, inl, inr, List, [], ◌∷◌, ◌++◌, arith,
  length, take, drop, length-append, length-take, length-drop, take-append, drop-append, All,
}
use pithos.Core.Bytes.{IsByte}
use pithos.Format.Buffer.{slice, copy_from_slice}

pub length-copy_from_slice :
    (a b : ℕ) (bs buffer : List ℕ)
    → a ≤ b
    → b ≤ length buffer
    → length bs ≡ b - a
    → length (copy_from_slice a b bs buffer) ≡ length buffer
unfolding copy_from_slice
length-copy_from_slice a b bs buffer h k e = omega (
  arith,
  length-append (take a buffer) (bs ++ drop b buffer),
  length-append bs (drop b buffer),
  length-take a buffer,
  length-drop b buffer,
)

pub slice-copy_from_slice_self :
    (a b : ℕ) (bs buffer : List ℕ)
    → a ≤ b
    → b ≤ length buffer
    → length bs ≡ b - a
    → slice a b (copy_from_slice a b bs buffer) ≡ bs
unfolding copy_from_slice
slice-copy_from_slice_self a b bs buffer h k e =
    ap (take (b - a))
      (drop-append (take a buffer) (bs ++ drop b buffer) a (omega (arith, length-take a buffer)))
    ∙ take-append bs (drop b buffer) (b - a) e

-- What `n` elements from `c` on read of a joined list whose first part holds them, of a prefix that
-- holds them, and what is left of a joined list behind its first part.
take-drop-append :
    (c n : ℕ) (xs ys : List ℕ) → c + n ≤ length xs → take n (drop c (xs ++ ys)) ≡ take n (drop c xs)
take-drop-append zero zero xs ys h = refl
take-drop-append zero (suc n) [] ys h = absurd (omega arith)
take-drop-append zero (suc n) (x ∷ xs) ys h =
    ap (◌∷◌ x) (take-drop-append zero n xs ys (omega arith))
take-drop-append (suc c) n [] ys h = absurd (omega arith)
take-drop-append (suc c) n (x ∷ xs) ys h = take-drop-append c n xs ys (omega arith)

take-drop-take :
    (c n a : ℕ) (xs : List ℕ) → c + n ≤ a → take n (drop c (take a xs)) ≡ take n (drop c xs)
take-drop-take zero zero a xs h = refl
take-drop-take zero (suc n) zero xs h = absurd (omega arith)
take-drop-take zero (suc n) (suc a) [] h = refl
take-drop-take zero (suc n) (suc a) (x ∷ xs) h =
    ap (◌∷◌ x) (take-drop-take zero n a xs (omega arith))
take-drop-take (suc c) n zero xs h = absurd (omega arith)
take-drop-take (suc c) n (suc a) [] h = refl
take-drop-take (suc c) n (suc a) (x ∷ xs) h = take-drop-take c n a xs (omega arith)

drop-append_right : (c k : ℕ) (xs ys : List ℕ) → c ≡ length xs + k → drop c (xs ++ ys) ≡ drop k ys
drop-append_right c k [] ys e = ap (λ j. drop j ys) (omega arith)
drop-append_right zero k (x ∷ xs) ys e = absurd (omega arith)
drop-append_right (suc c) k (x ∷ xs) ys e = drop-append_right c k xs ys (omega arith)

pub drop-drop_add : (m n : ℕ) (xs : List ℕ) → drop m (drop n xs) ≡ drop (n + m) xs
drop-drop_add m zero xs = ap (λ k. drop k xs) (omega arith)
drop-drop_add m (suc n) [] = nil m ∙ sym (nil (suc n + m))
  where
    nil : (k : ℕ) → drop {A = ℕ} k [] ≡ []
    nil zero = refl
    nil (suc k) = refl
drop-drop_add m (suc n) (x ∷ xs) =
    drop-drop_add m n xs ∙ ap (λ k. drop k (x ∷ xs)) {x = suc (n + m)} (omega arith)

-- A slice that ends before the write, or that begins behind it, does not see it.
pub slice-copy_from_slice_disjoint :
    (c d a b : ℕ) (bs buffer : List ℕ)
    → c ≤ d
    → a ≤ b
    → b ≤ length buffer
    → length bs ≡ b - a
    → (d ≤ a) ⊎ (b ≤ c)
    → slice c d (copy_from_slice a b bs buffer) ≡ slice c d buffer
unfolding copy_from_slice
slice-copy_from_slice_disjoint c d a b bs buffer h k m e (inl before) =
    take-drop-append c (d - c) (take a buffer) (bs ++ drop b buffer)
      (omega (arith, length-take a buffer))
    ∙ take-drop-take c (d - c) a buffer (omega arith)
slice-copy_from_slice_disjoint c d a b bs buffer h k m e (inr behind) = ap (take (d - c)) (
    drop-append_right c (c - a) (take a buffer) (bs ++ drop b buffer)
      (omega (arith, length-take a buffer))
    ∙ drop-append_right (c - a) (c - b) bs (drop b buffer) (omega arith)
    ∙ drop-drop_add (c - b) b buffer
    ∙ ap (λ k. drop k buffer) (omega arith))

pub length-slice : (a b : ℕ) (xs : List ℕ) → a ≤ b → b ≤ length xs → length (slice a b xs) ≡ b - a
length-slice a b xs h k = omega (arith, length-take (b - a) (drop a xs), length-drop a xs)

pub All-take : (n : ℕ) (xs : List ℕ) → All IsByte xs → All IsByte (take n xs)
All-take zero xs h = tt
All-take (suc n) [] h = tt
All-take (suc n) (x ∷ xs) h = (h.0, All-take n xs h.1)

pub All-drop : (n : ℕ) (xs : List ℕ) → All IsByte xs → All IsByte (drop n xs)
All-drop zero xs h = h
All-drop (suc n) [] h = tt
All-drop (suc n) (x ∷ xs) h = All-drop n xs h.1

pub slice-IsByte : (a b : ℕ) (xs : List ℕ) → All IsByte xs → All IsByte (slice a b xs)
slice-IsByte a b xs h = All-take (b - a) (drop a xs) (All-drop a xs h)
