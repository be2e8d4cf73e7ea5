-- ===== src/Examples/Pathnames.antt =====
-- Paths and links at concrete inputs.
use pithos.Prelude.{ℕ, ◌≡◌, ◌≢◌, ◌↔◌, refl, true, false, some, List, [], ◌∷◌, arith, All, map}
use pithos.Core.{ok, err, unsafe_path}
use pithos.Format.Paths.{
  PathComponent, utf8, unix_bytes, ArchivePath, LinkTarget, parent, normal, is_utf8,
  component_value, is_one_normal, validate_normal_component, to_os_string, os_strings, to_path_buf,
  from_os_str, stays_within, resolves_within,
}
use pithos.Format.Same.{same_bytes}
use pithos.StdPath.{
  root_dir, cur_dir, normal_name, prepend, split_slash, add_piece, components_of, has_root,
  path_components, equal_component, equal_components, same_path,
}
use pithos.Format.Paths.SortKey.{sort_key-injective}
use pithos.Format.Paths.Safe.{IsPlainName, to_path_buf-IsPlainName}
use pithos.Format.Paths.Resolve.{follow, link_dir, resolves_within_iff}

abbrev dir_name : PathComponent
dir_name = record { encoding = utf8; bytes = b'd' ∷ [] }

abbrev file_name : PathComponent
file_name = record { encoding = unix_bytes; bytes = b'f' ∷ 0xff ∷ [] }

abbrev sample_path : ArchivePath
sample_path = record { components = dir_name ∷ file_name ∷ [] }

abbrev restored_names : List (List ℕ)
restored_names = (b'd' ∷ []) ∷ (b'f' ∷ 0xff ∷ []) ∷ []

restored : to_path_buf sample_path ≡ ok restored_names
unfolding to_path_buf os_strings to_os_string component_value validate_normal_component is_utf8
    same_bytes is_one_normal path_components has_root components_of split_slash prepend add_piece
restored = refl

to_path_buf-IsPlainName_example :
    (restored_names ≢ [])
    × All IsPlainName restored_names
    × (restored_names ≡ map (λ c. c.bytes) sample_path.components)
to_path_buf-IsPlainName_example = to_path_buf-IsPlainName sample_path restored_names restored

escaping :
    to_path_buf (record { components = record { encoding = utf8; bytes = b'.' ∷ b'.' ∷ [] } ∷ [] })
    ≡ err unsafe_path
unfolding to_path_buf os_strings to_os_string component_value validate_normal_component is_utf8
    same_bytes is_one_normal path_components has_root components_of split_slash prepend add_piece
escaping = refl

-- U+00E9 is text, and 0xff is not.
kept_encoding :
    from_os_str (0xc3 ∷ 0xa9 ∷ []) ≡ record { encoding = utf8; bytes = 0xc3 ∷ 0xa9 ∷ [] }
unfolding from_os_str is_utf8
kept_encoding = refl

sort_key-injective_example : sample_path ≡ sample_path
sort_key-injective_example =
    sort_key-injective sample_path sample_path (omega arith) (omega arith) refl

abbrev sample_target : LinkTarget
sample_target = record { components = parent ∷ normal dir_name ∷ [] }

resolves_within_iff_example : (resolves_within sample_target sample_path ≡ true) ↔ (
    (end : List PathComponent) × (follow (link_dir sample_path) sample_target.components
      ≡ some end))
resolves_within_iff_example = resolves_within_iff sample_target sample_path

too_far : resolves_within (record { components = parent ∷ parent ∷ [] }) sample_path ≡ false
unfolding resolves_within stays_within
too_far = refl

-- "./a", "/a/./b" and the name "a/".
relative : path_components (b'.' ∷ b'/' ∷ b'a' ∷ []) ≡ cur_dir ∷ normal_name (b'a' ∷ []) ∷ []
unfolding path_components has_root components_of split_slash prepend add_piece same_bytes
relative = refl

rooted :
    path_components (b'/' ∷ b'a' ∷ b'/' ∷ b'.' ∷ b'/' ∷ b'b' ∷ [])
    ≡ root_dir ∷ normal_name (b'a' ∷ []) ∷ normal_name (b'b' ∷ []) ∷ []
unfolding path_components has_root components_of split_slash prepend add_piece same_bytes
rooted = refl

trailing_slash : validate_normal_component (b'a' ∷ b'/' ∷ []) ≡ ok tt
unfolding validate_normal_component is_one_normal path_components has_root components_of split_slash
    prepend add_piece same_bytes
trailing_slash = refl

-- "a//b" and "a/b"
doubled_slash : same_path (b'a' ∷ b'/' ∷ b'/' ∷ b'b' ∷ []) (b'a' ∷ b'/' ∷ b'b' ∷ []) ≡ true
unfolding same_path equal_components equal_component path_components has_root components_of
    split_slash prepend add_piece same_bytes
doubled_slash = refl
