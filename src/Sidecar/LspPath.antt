-- ===== src/Sidecar/LspPath.antt =====
-- `rewrite_lsp_path` of crates/nrm-sidecar/src/lsp_rewrite.rs and the functions it calls. A text is
-- the list of the bytes of its UTF-8 form, as every character that is tested for is ASCII.
pub mod Contained
use nvim_remote_mirror.Prelude.{
  ℕ, ◌+◌, Bool, true, false, not, ◌&&◌, ◌||◌, Option, none, some, List, [], ◌∷◌, ◌++◌, map, length,
  take, drop, is_empty, any, list_eq, codes, leb, ltb, ◌==◌, if◌then◌else◌,
}

abbrev pub Bytes : Type 0
Bytes = List ℕ

pub data PathStyle : Type 0 where
  posix : PathStyle
  windows : PathStyle

abbrev pub is_ascii_alphabetic : ℕ → Bool
is_ascii_alphabetic b = (leb b'A' b && leb b b'Z') || (leb b'a' b && leb b b'z')

-- `path_separators(style).contains(..)`
unfoldable pub path_separators : PathStyle → ℕ → Bool
path_separators posix b = b == b'/'
path_separators windows b = b == b'/' || b == 0x5c

unfoldable pub path_style : Bytes → PathStyle
unfolding path_separators
path_style (a ∷ b ∷ d ∷ _) =
    if is_ascii_alphabetic a && (b == b':' && path_separators windows d) then windows else posix
path_style _ = posix

-- `u8::to_ascii_lowercase`, and with it `eq_ignore_ascii_case`
abbrev to_ascii_lowercase : ℕ → ℕ
to_ascii_lowercase b = if leb b'A' b && leb b b'Z' then b + 32 else b

-- One pair of bytes; `drive` where it is the first one of a prefix with a colon behind it.
unfoldable pub windows_byte_eq : Bool → ℕ → ℕ → Bool
unfolding path_separators
windows_byte_eq drive left right =
    if path_separators windows left && path_separators windows right
    then true
    else if drive
    then to_ascii_lowercase left == to_ascii_lowercase right
    else left == right

unfoldable pub windows_zip_eq : Bool → Bytes → Bytes → Bool
unfolding windows_byte_eq
windows_zip_eq drive (left ∷ candidate) (right ∷ prefix) =
    windows_byte_eq drive left right && windows_zip_eq false candidate prefix
windows_zip_eq drive _ _ = true

abbrev has_drive : Bytes → Bool
has_drive (a ∷ b ∷ _) = b == b':'
has_drive _ = false

unfoldable pub windows_path_prefix_eq : Bytes → Bytes → Bool
unfolding windows_zip_eq
windows_path_prefix_eq candidate prefix = windows_zip_eq (has_drive prefix) candidate prefix

-- `is_char_boundary` in front of these bytes
abbrev is_boundary : Bytes → Bool
is_boundary [] = true
is_boundary (b ∷ _) = not (leb 0x80 b && leb b 0xbf)

-- `text.get(..n)` with what follows it
unfoldable pub get_prefix : ℕ → Bytes → Option (Bytes × Bytes)
get_prefix n text =
    if leb n (length text) && is_boundary (drop n text)
    then some (take n text, drop n text)
    else none

-- `str::ends_with` and `str::starts_with` of one of some characters
abbrev pub ends_with_any : (ℕ → Bool) → Bytes → Bool
ends_with_any p [] = false
ends_with_any p (b ∷ []) = p b
ends_with_any p (b ∷ rest) = ends_with_any p rest

abbrev pub starts_with_any : (ℕ → Bool) → Bytes → Bool
starts_with_any p [] = false
starts_with_any p (b ∷ _) = p b

unfoldable pub prefix_matches : PathStyle → Bytes → Bytes → Bool
unfolding windows_path_prefix_eq
prefix_matches posix candidate prefix = list_eq candidate prefix
prefix_matches windows candidate prefix = windows_path_prefix_eq candidate prefix

-- What follows the prefix, where it begins at a boundary between segments.
unfoldable pub boundary_suffix : PathStyle → Bytes → Bytes × Bytes → Option Bytes
unfolding prefix_matches path_separators
boundary_suffix style prefix (candidate, suffix) =
    if prefix_matches style candidate prefix
      && (is_empty suffix
          || (ends_with_any (path_separators style) prefix
              || starts_with_any (path_separators style) suffix))
    then some suffix
    else none

unfoldable pub strip_path_prefix_with_boundary : Bytes → Bytes → PathStyle → Option Bytes
unfolding get_prefix boundary_suffix
strip_path_prefix_with_boundary text prefix style = elim (get_prefix (length prefix) text) [
  | none ↦ none
  | some cut ↦ boundary_suffix style prefix cut
]

unfoldable pub traversal_path_style : PathStyle → PathStyle → PathStyle
traversal_path_style posix posix = posix
traversal_path_style _ _ = windows

-- `split` at the bytes of a test
abbrev cons_head : ℕ → List Bytes → List Bytes
cons_head b [] = (b ∷ []) ∷ []
cons_head b (piece ∷ rest) = (b ∷ piece) ∷ rest

abbrev pub segments : (ℕ → Bool) → Bytes → List Bytes
segments p [] = [] ∷ []
segments p (b ∷ rest) = let later = segments p rest in if p b then [] ∷ later else cons_head b later

abbrev pub is_dot_segment : Bytes → Bool
is_dot_segment segment = list_eq segment (codes ".") || list_eq segment (codes "..")

unfoldable pub path_has_no_dot_segments : Bytes → PathStyle → Bool
unfolding path_separators
path_has_no_dot_segments path style =
    not (any is_dot_segment (segments (path_separators style) path))

-- `trim_start_matches` and `trim_end_matches`
abbrev pub trim_start : (ℕ → Bool) → Bytes → Bytes
trim_start p [] = []
trim_start p (b ∷ rest) = if p b then trim_start p rest else b ∷ rest

abbrev snoc_trimmed : (ℕ → Bool) → ℕ → Bytes → Bytes
snoc_trimmed p b [] = if p b then [] else b ∷ []
snoc_trimmed p b (x ∷ rest) = b ∷ x ∷ rest

abbrev pub trim_end : (ℕ → Bool) → Bytes → Bytes
trim_end p [] = []
trim_end p (b ∷ rest) = snoc_trimmed p b (trim_end p rest)

-- The separator of the target: a Windows prefix says by its third byte which it is.
abbrev pub third_is_backslash : Bytes → Bool
third_is_backslash (_ ∷ _ ∷ d ∷ _) = d == 0x5c
third_is_backslash _ = false

unfoldable pub separator_for : PathStyle → Bytes → ℕ
separator_for posix to_prefix = b'/'
separator_for windows to_prefix = if third_is_backslash to_prefix then 0x5c else b'/'

unfoldable pub separator_of : Bytes → ℕ
unfolding path_style separator_for
separator_of to_prefix = separator_for (path_style to_prefix) to_prefix

-- The loop over the characters: each separator of the source becomes that of the target.
unfoldable pub normalize : PathStyle → ℕ → Bytes → Bytes
unfolding path_separators
normalize from_style separator [] = []
normalize from_style separator (b ∷ rest) =
    (if path_separators from_style b then separator else b) ∷ normalize from_style separator rest

unfoldable pub join_rewritten_path : Bytes → Bytes → PathStyle → Bytes
unfolding path_separators separator_of normalize
join_rewritten_path to_prefix [] from_style = to_prefix
join_rewritten_path to_prefix (b ∷ rest) from_style =
    let separator = separator_of to_prefix in
    let relative = trim_start (path_separators from_style) (b ∷ rest) in
    let normalized = normalize from_style separator relative in
    let base = trim_end (path_separators windows) to_prefix in
    if is_empty base && starts_with_any (λ x. x == b'/') to_prefix
    then b'/' ∷ normalized
    else base ++ (separator ∷ normalized)

-- `rewrite_lsp_path` behind the removal of the prefix
unfoldable pub rewrite_suffix : PathStyle → Bytes → Bytes → Option Bytes
unfolding path_style traversal_path_style path_has_no_dot_segments join_rewritten_path
rewrite_suffix from_style to_prefix suffix =
    if path_has_no_dot_segments suffix (traversal_path_style from_style (path_style to_prefix))
    then some (join_rewritten_path to_prefix suffix from_style)
    else none

unfoldable pub rewrite_lsp_path : Bytes → Bytes → Bytes → Option Bytes
unfolding path_style strip_path_prefix_with_boundary rewrite_suffix
rewrite_lsp_path text from_prefix to_prefix =
    let from_style = path_style from_prefix in
    elim (strip_path_prefix_with_boundary text from_prefix from_style) [
      | none ↦ none
      | some suffix ↦ rewrite_suffix from_style to_prefix suffix
    ]
