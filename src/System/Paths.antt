-- ===== src/System/Paths.antt =====
-- `NormalizePath` of internal/system/state.go.
pub mod Safe
use red_lab.Prelude.{
  ℕ, String, Bool, true, false, not, ◌||◌, ◌≡◌, refl, ap, ◌∙◌, sym, List, [], ◌∷◌, ◌==◌, eq_iff,
  Bool-cases, inl, inr, if◌then◌else◌, arith, All,
}
use red_lab.GoLib.Strings.{has_prefix, join}
use red_lab.GoLib.Path.{is_rooted, absolute, clean, join_path}
use red_lab.GoLib.Path.Canonical.{IsCanonical, IsEntry, clean-IsCanonical, clean-canonical}
use red_lab.System.{Result, ok, err, path_is_empty, path_escapes}

-- The checks at the end, on the cleaned path.
unfoldable pub check_root : String → Result String
check_root cleaned =
    let p = if cleaned == "." then "/" else cleaned in
    if not (has_prefix p "/") || p == "/.." || has_prefix p "/../" then err path_escapes else ok p

unfoldable pub normalize_path : String → String → Result String
normalize_path input cwd =
    if input == ""
    then err path_is_empty
    else check_root (clean (if has_prefix input "/" then input else join_path cwd input))
