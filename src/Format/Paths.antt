-- ===== src/Format/Paths.antt =====
-- crates/pithos-format/src/lib.rs: `PathComponent`, `ArchivePath` and `LinkTarget`, on a Unix target.
-- An `OsStr` is the list of its bytes, and a `PathBuf` the list of the names pushed to it.
mod Utf8
pub mod SortKey
pub mod Safe
pub mod Resolve
use pithos.Prelude.{
  ℕ, zero, suc, ◌+◌, ◌-◌, ◌≡◌, Bool, true, false, not, ◌||◌, ◌&&◌, List, [], ◌∷◌, ◌++◌, length,
  ◌==◌, contains, if◌then◌else◌,
}
use pithos.Core.{Result, ok, err, ◌>>=◌, ◌>>◌, bail_if, invalid_path_encoding, unsafe_path}
use pithos.Core.Bytes.{to_le_bytes}
use pithos.Format.Same.{same_bytes}
use pithos.StdPath.{slash, dot, dot_dot, Component, normal_name, path_components}
unfoldable pub use Utf8.{is_utf8}

pub data PathEncoding : Type 0 where
  utf8 unix_bytes windows_utf16_le : PathEncoding

-- `encoding as u8`
unfoldable pub encoding_id : PathEncoding → ℕ
encoding_id utf8 = 0
encoding_id unix_bytes = 1
encoding_id windows_utf16_le = 2

pub record PathComponent : Type 0 where
  pub encoding : PathEncoding
  pub bytes : List ℕ

unfoldable pub from_os_str : List ℕ → PathComponent
from_os_str value =
    if is_utf8 value
    then record { encoding = utf8; bytes = value }
    else record { encoding = unix_bytes; bytes = value }

-- `matches!(components.next(), Some(Component::Normal(_)))` with nothing behind it.
unfoldable pub is_one_normal : List Component → Bool
is_one_normal (normal_name name ∷ []) = true
is_one_normal _ = false

unfoldable pub validate_normal_component : List ℕ → Result (Unit {0})
validate_normal_component value = bail_if (not (is_one_normal (path_components value))) unsafe_path

-- The value that the `match` on the encoding yields.
unfoldable pub component_value : PathEncoding → List ℕ → Result (List ℕ)
component_value utf8 bytes = do
  bail_if (not (is_utf8 bytes)) invalid_path_encoding
  bail_if
      (length bytes == 0
        || contains bytes slash
        || contains bytes 92
        || same_bytes bytes dot
        || same_bytes bytes dot_dot)
      unsafe_path
  ok bytes
component_value unix_bytes bytes = do
  bail_if (length bytes == 0 || contains bytes slash || contains bytes 0) unsafe_path
  ok bytes
component_value windows_utf16_le bytes = err invalid_path_encoding

unfoldable pub to_os_string : PathComponent → Result (List ℕ)
to_os_string c = do
  value ← component_value c.encoding c.bytes
  validate_normal_component value
  ok value

pub record ArchivePath : Type 0 where
  pub components : List PathComponent

-- The loop of `to_path_buf`.
unfoldable pub os_strings : List PathComponent → Result (List (List ℕ))
os_strings [] = ok []
os_strings (c ∷ cs) = do name ← to_os_string c; rest ← os_strings cs; ok (name ∷ rest)

unfoldable pub to_path_buf : ArchivePath → Result (List (List ℕ))
to_path_buf path = do bail_if (length path.components == 0) unsafe_path; os_strings path.components

-- `bytes.len() as u64`: a length is below 2 ^ 63.
unfoldable pub sort_key_of : List PathComponent → List ℕ
sort_key_of [] = []
sort_key_of (c ∷ cs) =
    encoding_id c.encoding ∷ (to_le_bytes 8 (length c.bytes) ++ (c.bytes ++ sort_key_of cs))

unfoldable pub sort_key : ArchivePath → List ℕ
sort_key path = sort_key_of path.components

unfoldable pub encoded_len_of : List PathComponent → ℕ
encoded_len_of [] = 0
encoded_len_of (c ∷ cs) = length c.bytes + encoded_len_of cs

unfoldable pub encoded_len : ArchivePath → ℕ
encoded_len path = encoded_len_of path.components

pub data LinkComponent : Type 0 where
  parent : LinkComponent
  normal : PathComponent → LinkComponent

pub record LinkTarget : Type 0 where
  pub components : List LinkComponent

-- The loop of `resolves_within`, with its variable `depth`.
unfoldable pub stays_within : ℕ → List LinkComponent → Bool
stays_within depth [] = true
stays_within zero (parent ∷ cs) = false
stays_within (suc depth) (parent ∷ cs) = stays_within depth cs
stays_within depth (normal c ∷ cs) = stays_within (depth + 1) cs

-- `saturating_sub(1)` is `- 1`.
unfoldable pub resolves_within : LinkTarget → ArchivePath → Bool
resolves_within target link_path = stays_within (length link_path.components - 1) target.components

-- The loop of `LinkTarget::to_path_buf`; a parent is the name `..`.
unfoldable pub link_strings : List LinkComponent → Result (List (List ℕ))
link_strings [] = ok []
link_strings (parent ∷ cs) = do rest ← link_strings cs; ok (dot_dot ∷ rest)
link_strings (normal c ∷ cs) = do name ← to_os_string c; rest ← link_strings cs; ok (name ∷ rest)

unfoldable pub link_path_buf : LinkTarget → Result (List (List ℕ))
link_path_buf target = link_strings target.components
