-- ===== src/StdPath.antt =====
-- `std::path` on Unix, as far as the crates use it: the components of a path, and the equality of paths,
-- which is that of their components. A path is the list of its bytes.
pub mod Plain
use pithos.Prelude.{ℕ, Bool, true, false, ◌&&◌, List, [], ◌∷◌, length, ◌==◌, if◌then◌else◌}
use pithos.Format.Same.{same_bytes}

abbrev pub slash : ℕ
slash = b'/'

abbrev pub dot : List ℕ
dot = b'.' ∷ []

abbrev pub dot_dot : List ℕ
dot_dot = b'.' ∷ b'.' ∷ []

-- `std::path::Component`; on Unix there is no prefix.
pub data Component : Type 0 where
  root_dir cur_dir parent_dir : Component
  normal_name : List ℕ → Component

unfoldable pub prepend : ℕ → List (List ℕ) → List (List ℕ)
prepend b [] = (b ∷ []) ∷ []
prepend b (piece ∷ pieces) = (b ∷ piece) ∷ pieces

-- The pieces between the separators.
unfoldable pub split_slash : List ℕ → List (List ℕ)
split_slash [] = [] ∷ []
split_slash (b ∷ bs) = let rest = split_slash bs in if b == slash then [] ∷ rest else prepend b rest

-- An empty piece is skipped, and `.` as well, except at the begin of a relative path.
unfoldable pub add_piece : Bool → List ℕ → List Component → List Component
add_piece leading piece rest =
    if length piece == 0
    then rest
    else (if same_bytes piece dot
        then (if leading then cur_dir ∷ rest else rest)
        else (if same_bytes piece dot_dot then parent_dir ∷ rest else normal_name piece ∷ rest))

unfoldable pub components_of : Bool → List (List ℕ) → List Component
components_of leading [] = []
components_of leading (piece ∷ pieces) = add_piece leading piece (components_of false pieces)

unfoldable pub has_root : List ℕ → Bool
has_root [] = false
has_root (b ∷ bs) = b == slash

-- `Path::components`. The piece before the root is empty, so that what follows a root is not leading.
unfoldable pub path_components : List ℕ → List Component
path_components path =
    let rest = components_of true (split_slash path) in
    if has_root path then root_dir ∷ rest else rest

-- `==` of components
unfoldable pub equal_component : Component → Component → Bool
equal_component root_dir root_dir = true
equal_component cur_dir cur_dir = true
equal_component parent_dir parent_dir = true
equal_component (normal_name a) (normal_name b) = same_bytes a b
equal_component _ _ = false

unfoldable pub equal_components : List Component → List Component → Bool
equal_components [] [] = true
equal_components (c ∷ cs) (d ∷ ds) = equal_component c d && equal_components cs ds
equal_components _ _ = false

-- `==` of paths
unfoldable pub same_path : List ℕ → List ℕ → Bool
same_path a b = equal_components (path_components a) (path_components b)
