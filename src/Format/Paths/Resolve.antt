-- ===== src/Format/Paths/Resolve.antt =====
-- `LinkTarget::resolves_within` counts a depth. The walk that it stands for keeps the directory
-- itself: a symbolic link's target is followed from the directory of the link.
use pithos.Prelude.{
  ℕ, zero, suc, ◌+◌, ◌-◌, ◌≡◌, ◌↔◌, refl, true, Option, none, some, List, [], ◌∷◌, arith, length,
}
use pithos.Format.Paths.{
  PathComponent, ArchivePath, LinkComponent, parent, normal, LinkTarget, stays_within,
  resolves_within,
}

-- A directory below the root, the innermost name first; `none` is a step above the root.
unfoldable pub follow : List PathComponent → List LinkComponent → Option (List PathComponent)
follow dir [] = some dir
follow [] (parent ∷ cs) = none
follow (d ∷ dir) (parent ∷ cs) = follow dir cs
follow dir (normal c ∷ cs) = follow (c ∷ dir) cs

-- The names of a path but the last, the innermost first.
abbrev pub link_dir_of : List PathComponent → List PathComponent → List PathComponent
link_dir_of outer [] = []
link_dir_of outer (c ∷ []) = outer
link_dir_of outer (c ∷ d ∷ cs) = link_dir_of (c ∷ outer) (d ∷ cs)

abbrev pub link_dir : ArchivePath → List PathComponent
link_dir path = link_dir_of [] path.components

length-link_dir_of :
    (outer : List PathComponent) (c : PathComponent) (cs : List PathComponent)
    → length (link_dir_of outer (c ∷ cs)) ≡ length outer + length cs
length-link_dir_of outer c [] = omega arith
length-link_dir_of outer c (d ∷ cs) = omega (arith, length-link_dir_of (c ∷ outer) d cs)

length-link_dir : (path : ArchivePath) → length (link_dir path) ≡ length path.components - 1
length-link_dir path = by_parts path.components
  where
    by_parts : (cs : List PathComponent) → length (link_dir_of [] cs) ≡ length cs - 1
    by_parts [] = omega arith
    by_parts (c ∷ cs) = omega (arith, length-link_dir_of [] c cs)

stays→follow :
    (dir : List PathComponent) (cs : List LinkComponent) (n : ℕ)
    → length dir ≡ n
    → stays_within n cs ≡ true
    → (end : List PathComponent) × (follow dir cs ≡ some end)
unfolding follow stays_within
stays→follow dir [] n l s = (dir, refl)
stays→follow [] (parent ∷ cs) zero l s = cc
stays→follow [] (parent ∷ cs) (suc n) l s = absurd (omega arith)
stays→follow (d ∷ dir) (parent ∷ cs) zero l s = absurd (omega arith)
stays→follow (d ∷ dir) (parent ∷ cs) (suc n) l s = stays→follow dir cs n (omega arith) s
stays→follow dir (normal c ∷ cs) zero l s = stays→follow (c ∷ dir) cs 1 (omega arith) s
stays→follow dir (normal c ∷ cs) (suc n) l s = stays→follow (c ∷ dir) cs (suc n + 1) (omega arith) s

follow→stays :
    (dir : List PathComponent) (cs : List LinkComponent) (n : ℕ) (end : List PathComponent)
    → length dir ≡ n
    → follow dir cs ≡ some end
    → stays_within n cs ≡ true
unfolding follow stays_within
follow→stays dir [] n end l f = refl
follow→stays [] (parent ∷ cs) n end l f = cc
follow→stays (d ∷ dir) (parent ∷ cs) zero end l f = absurd (omega arith)
follow→stays (d ∷ dir) (parent ∷ cs) (suc n) end l f = follow→stays dir cs n end (omega arith) f
follow→stays dir (normal c ∷ cs) zero end l f = follow→stays (c ∷ dir) cs 1 end (omega arith) f
follow→stays dir (normal c ∷ cs) (suc n) end l f =
    follow→stays (c ∷ dir) cs (suc n + 1) end (omega arith) f

-- A link resolves within the archive exactly when the walk along its target, from the directory of
-- the link, never steps above the root.
pub resolves_within_iff :
    (target : LinkTarget) (link : ArchivePath)
    → (resolves_within target link ≡ true)
      ↔ ((end : List PathComponent) × (follow (link_dir link) target.components ≡ some end))
unfolding resolves_within
resolves_within_iff target link = (
  stays→follow (link_dir link) target.components _ (length-link_dir link),
  λ r. follow→stays (link_dir link) target.components _ r.0 (length-link_dir link) r.1,
)
