-- ===== src/Sidecar/Tests.antt =====
-- crates/nrm-sidecar/src/lsp_rewrite.rs at concrete inputs, those of its tests among them.
use nvim_remote_mirror.Prelude.{◌≡◌, refl, none, some, codes, arith}
use nvim_remote_mirror.Sidecar.LspPath.{
  path_separators, path_style, windows_byte_eq, windows_zip_eq, windows_path_prefix_eq, get_prefix,
  prefix_matches, boundary_suffix, strip_path_prefix_with_boundary, traversal_path_style,
  path_has_no_dot_segments, separator_for, separator_of, normalize, join_rewritten_path,
  rewrite_suffix, rewrite_lsp_path,
}
use nvim_remote_mirror.Sidecar.PercentCode.{percent_encode_uri_path, strict_percent_decode}
use nvim_remote_mirror.Sidecar.PercentCode.RoundTrip.{strict_percent_decode-percent_encode_uri_path}
use nvim_remote_mirror.Sidecar.LspPath.Contained.{IsBelow, rewrite_lsp_path-IsBelow}

rewritten :
    rewrite_lsp_path (codes "b:/repo/tools/x") (codes "B:/repo") (codes "/local/mirror")
    ≡ some (codes "/local/mirror/tools/x")
unfolding path_separators path_style windows_byte_eq windows_zip_eq windows_path_prefix_eq
    get_prefix prefix_matches boundary_suffix strip_path_prefix_with_boundary traversal_path_style
    path_has_no_dot_segments separator_for separator_of normalize join_rewritten_path rewrite_suffix
    rewrite_lsp_path
rewritten = refl

other_directory :
    rewrite_lsp_path (codes "B:/repo-other/src") (codes "B:/repo") (codes "/local/mirror") ≡ none
unfolding path_separators path_style windows_byte_eq windows_zip_eq windows_path_prefix_eq
    get_prefix prefix_matches boundary_suffix strip_path_prefix_with_boundary rewrite_lsp_path
other_directory = refl

outside :
    rewrite_lsp_path (codes "/local/mirror/src\\..\\x") (codes "/local/mirror") (codes "B:/repo")
    ≡ none
unfolding path_separators path_style get_prefix prefix_matches boundary_suffix
    strip_path_prefix_with_boundary traversal_path_style path_has_no_dot_segments rewrite_suffix
    rewrite_lsp_path
outside = refl

rewrite_lsp_path-IsBelow_example :
    IsBelow (path_style (codes "B:/repo")) (codes "/local/mirror") (codes "/local/mirror/tools/x")
rewrite_lsp_path-IsBelow_example =
    rewrite_lsp_path-IsBelow (codes "b:/repo/tools/x") (codes "B:/repo") (codes "/local/mirror")
      rewritten

strict_percent_decode-percent_encode_uri_path_example :
    strict_percent_decode (percent_encode_uri_path (codes "/a b%")) ≡ some (codes "/a b%")
strict_percent_decode-percent_encode_uri_path_example =
    strict_percent_decode-percent_encode_uri_path (codes "/a b%")
      (omega arith, (omega arith, (omega arith, (omega arith, (omega arith, tt)))))
