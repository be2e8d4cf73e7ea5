-- ===== src/StdPath/Plain.antt =====
-- The equality of paths, and the components of a name without a separator.
use pithos.Prelude.{
  ℕ, ◌≡◌, refl, ap, subst, true, false, List, [], ◌∷◌, ◌==◌, arith, contains, &&-left, &&-right,
}
use mathlib.Core.Path.{ap₂}
use pithos.Format.Same.{same_bytes→eq, eq→same_bytes}
use pithos.StdPath.{
  slash, Component, root_dir, cur_dir, parent_dir, normal_name, prepend, split_slash, add_piece,
  components_of, has_root, path_components, equal_component, equal_components, same_path,
}

equal_component→eq : (c d : Component) → equal_component c d ≡ true → c ≡ d
unfolding equal_component
equal_component→eq root_dir root_dir h = refl
equal_component→eq cur_dir cur_dir h = refl
equal_component→eq parent_dir parent_dir h = refl
equal_component→eq (normal_name a) (normal_name b) h = ap normal_name (same_bytes→eq a b h)
equal_component→eq root_dir cur_dir h = cc
equal_component→eq root_dir parent_dir h = cc
equal_component→eq root_dir (normal_name b) h = cc
equal_component→eq cur_dir root_dir h = cc
equal_component→eq cur_dir parent_dir h = cc
equal_component→eq cur_dir (normal_name b) h = cc
equal_component→eq parent_dir root_dir h = cc
equal_component→eq parent_dir cur_dir h = cc
equal_component→eq parent_dir (normal_name b) h = cc
equal_component→eq (normal_name a) root_dir h = cc
equal_component→eq (normal_name a) cur_dir h = cc
equal_component→eq (normal_name a) parent_dir h = cc

equal_component_refl : (c : Component) → equal_component c c ≡ true
unfolding equal_component
equal_component_refl root_dir = refl
equal_component_refl cur_dir = refl
equal_component_refl parent_dir = refl
equal_component_refl (normal_name a) = eq→same_bytes a a refl

equal_components→eq : (cs ds : List Component) → equal_components cs ds ≡ true → cs ≡ ds
unfolding equal_components
equal_components→eq [] [] h = refl
equal_components→eq [] (d ∷ ds) h = cc
equal_components→eq (c ∷ cs) [] h = cc
equal_components→eq (c ∷ cs) (d ∷ ds) h =
    ap₂ ◌∷◌ (equal_component→eq c d (&&-left (equal_component c d) _ h))
      (equal_components→eq cs ds (&&-right (equal_component c d) _ h))

equal_components_refl : (cs : List Component) → equal_components cs cs ≡ true
unfolding equal_components
equal_components_refl [] = refl
equal_components_refl (c ∷ cs) = rw (equal_component_refl c) (equal_components_refl cs)

pub same_path→eq : (a b : List ℕ) → same_path a b ≡ true → path_components a ≡ path_components b
unfolding same_path
same_path→eq a b h = equal_components→eq (path_components a) (path_components b) h

pub eq→same_path : (a b : List ℕ) → path_components a ≡ path_components b → same_path a b ≡ true
unfolding same_path
eq→same_path a b e =
    subst (λ c. equal_components (path_components a) c ≡ true) e
      (equal_components_refl (path_components a))

pub split_slash_alone : (name : List ℕ) → contains name slash ≡ false → split_slash name ≡ name ∷ []
unfolding split_slash prepend
split_slash_alone [] h = refl
split_slash_alone (b ∷ bs) h =
    let other : (b == slash) ≡ false = ground arith in
    let rest : split_slash bs ≡ bs ∷ [] = split_slash_alone bs (ground arith) in
    rw (other, rest) refl

-- A name without a separator is one piece.
pub path_components_alone :
    (name : List ℕ) → contains name slash ≡ false → path_components name ≡ add_piece true name []
unfolding path_components components_of has_root
path_components_alone [] h = ap (λ ps. components_of true ps) (split_slash_alone [] h)
path_components_alone (b ∷ bs) h =
    let other : (b == slash) ≡ false = ground arith in rw (other, split_slash_alone (b ∷ bs) h) refl
