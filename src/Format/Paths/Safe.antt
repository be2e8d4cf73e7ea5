-- ===== src/Format/Paths/Safe.antt =====
-- What a path that restores to a `PathBuf` can name: plain names below the destination.
use pithos.Prelude.{
  ℕ, ◌≡◌, ◌≢◌, refl, sym, subst, ap, ◌∙◌, true, false, List, [], ◌∷◌, arith, All, length, map,
  contains, ◌==◌,
}
use mathlib.Core.Path.{ap₂}
use pithos.Core.{ok, bind-inv, bail_if, unsafe_path}
use pithos.Format.Same.{eq→same_bytes}
use pithos.StdPath.{slash, dot, dot_dot, add_piece}
use pithos.StdPath.Plain.{path_components_alone}
use pithos.Format.Paths.{
  PathEncoding, utf8, unix_bytes, windows_utf16_le, PathComponent, component_value, is_one_normal,
  validate_normal_component, to_os_string, ArchivePath, os_strings, to_path_buf,
}

-- A name that is one normal component: not empty, without a separator, neither `.` nor `..`.
pub record IsPlainName (name : List ℕ) : Type 0 where
  pub not_empty : name ≢ []
  pub no_slash : contains name slash ≡ false
  pub not_dot : name ≢ dot
  pub not_dot_dot : name ≢ dot_dot

-- A name without a separator that is one normal component.
plain_name :
    (name : List ℕ)
    → contains name slash ≡ false
    → validate_normal_component name ≡ ok tt
    → IsPlainName name
unfolding validate_normal_component is_one_normal add_piece
plain_name name alone v =
    let one : is_one_normal (add_piece true name []) ≡ true =
      subst (λ cs. is_one_normal cs ≡ true) (path_components_alone name alone) (ground arith) in
    record {
      not_empty = λ e. ground (arith, ap length e);
      no_slash = alone;
      not_dot = λ e. ground (arith, eq→same_bytes name dot e);
      not_dot_dot = λ e. ground (arith, eq→same_bytes name dot_dot e);
    }

-- The value of a component is its bytes, and these have no separator.
component_value-eq :
    (e : PathEncoding) (bytes name : List ℕ)
    → component_value e bytes ≡ ok name
    → (name ≡ bytes) × (contains name slash ≡ false)
unfolding component_value
component_value-eq utf8 bytes name h =
    let same : name ≡ bytes = ground arith in
    (same, subst (λ n. contains n slash ≡ false) (sym same) (ground arith))
component_value-eq unix_bytes bytes name h =
    let same : name ≡ bytes = ground arith in
    (same, subst (λ n. contains n slash ≡ false) (sym same) (ground arith))
component_value-eq windows_utf16_le bytes name h = cc

pub to_os_string-IsPlainName :
    (c : PathComponent) (name : List ℕ)
    → to_os_string c ≡ ok name
    → IsPlainName name × (name ≡ c.bytes)
unfolding to_os_string
to_os_string-IsPlainName c name h =
    let (v, q, r) = bind-inv (component_value c.encoding c.bytes) _ h in
    let (u, w, e) = bind-inv (validate_normal_component v) _ r in
    let same : v ≡ name = cc e in
    let (bytes, alone) = component_value-eq c.encoding c.bytes v q in
    (subst IsPlainName same (plain_name v alone w), sym same ∙ bytes)

os_strings-IsPlainName :
    (cs : List PathComponent) (names : List (List ℕ))
    → os_strings cs ≡ ok names
    → All IsPlainName names × (names ≡ map (λ c. c.bytes) cs)
unfolding os_strings
os_strings-IsPlainName [] names h =
    let same : [] ≡ names = cc h in subst (λ ns. All IsPlainName ns × (ns ≡ [])) same (tt, refl)
os_strings-IsPlainName (c ∷ cs) names h =
    let (name, q, r) = bind-inv (to_os_string c) _ h in
    let (rest, q', e) = bind-inv (os_strings cs) _ r in
    let same : name ∷ rest ≡ names = cc e in
    let here = to_os_string-IsPlainName c name q in
    let ih = os_strings-IsPlainName cs rest q' in
    subst (λ ns. All IsPlainName ns × (ns ≡ map (λ c. c.bytes) (c ∷ cs))) same
      ((here.0, ih.0), ap₂ ◌∷◌ here.1 ih.1)

-- A path that restores is not empty, names the bytes of its components in order, and each name is a
-- plain one: no separator, no `.` and no `..`, so it stays below the directory it is joined to.
pub to_path_buf-IsPlainName :
    (path : ArchivePath) (names : List (List ℕ))
    → to_path_buf path ≡ ok names
    → (names ≢ []) × All IsPlainName names × (names ≡ map (λ c. c.bytes) path.components)
unfolding to_path_buf
to_path_buf-IsPlainName path names h =
    let (u, some_components, q) =
      bind-inv (bail_if (length path.components == 0) unsafe_path) _ h in
    let (plain, same) = os_strings-IsPlainName path.components names q in
    ((λ e. no_names path.components (sym same ∙ e) some_components), plain, same)
  where
    no_names :
        (cs : List PathComponent)
        → map (λ c. c.bytes) cs ≡ []
        → bail_if (length cs == 0) unsafe_path ≡ ok tt
        → ⊥
    no_names [] e s = cc
    no_names (c ∷ cs) e s = cc
