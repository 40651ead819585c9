-- ===== src/Sidecar/LspPath/Contained.antt =====
-- A rewritten path stays below the prefix that it is rewritten to.
use nvim_remote_mirror.Prelude.{
  ℕ, subst, Option-cases, ◌≡◌, refl, sym, ap, ◌⊎◌, inl, inr, Bool, true, false, not, ◌&&◌, none,
  some, [], ◌∷◌, ◌++◌, append_assoc, is_empty, any, ◌==◌, if◌then◌else◌, Bool-cases, arith,
}
use nvim_remote_mirror.Sidecar.LspPath.{
  Bytes, PathStyle, posix, windows, path_separators, path_style, traversal_path_style, segments,
  is_dot_segment, path_has_no_dot_segments, trim_start, trim_end, starts_with_any, separator_for,
  separator_of, normalize, join_rewritten_path, rewrite_suffix, rewrite_lsp_path,
  strip_path_prefix_with_boundary,
}

-- Leading separators only make empty segments.
segments-trim_start :
    (p q : ℕ → Bool)
    → ((b : ℕ) → q b ≡ true → p b ≡ true)
    → (path : Bytes) → any is_dot_segment (segments p path) ≡ false
    → any is_dot_segment (segments p (trim_start q path)) ≡ false
segments-trim_start p q k [] h = h
segments-trim_start p q k (b ∷ rest) h = elim (Bool-cases (q b)) [
  | inl e ↦ rw e (segments-trim_start p q k rest (ground (arith, k b e)))
  | inr e ↦ rw e h
]

-- Putting separators for separators keeps the segments.
segments-normalize :
    (p : ℕ → Bool) (from_style : PathStyle) (separator : ℕ)
    → p separator ≡ true
    → ((b : ℕ) → path_separators from_style b ≡ true → p b ≡ true)
    → (path : Bytes) → segments p (normalize from_style separator path) ≡ segments p path
unfolding normalize
segments-normalize p from_style separator s k [] = refl
segments-normalize p from_style separator s k (b ∷ rest) =
    elim (Bool-cases (path_separators from_style b)) [
      | inl e ↦ rw (e, s, k b e, segments-normalize p from_style separator s k rest)
      | inr e ↦ rw (e, segments-normalize p from_style separator s k rest)
    ]

separators_traversal :
    (s t : PathStyle) (b : ℕ)
    → path_separators s b ≡ true
    → path_separators (traversal_path_style s t) b ≡ true
unfolding path_separators traversal_path_style
separators_traversal posix posix b h = h
separators_traversal posix windows b h = ground arith
separators_traversal windows t b h = h

separator_for-separates :
    (s t : PathStyle) (to_prefix : Bytes)
    → path_separators (traversal_path_style s t) (separator_for t to_prefix) ≡ true
unfolding path_separators traversal_path_style separator_for
separator_for-separates posix posix to_prefix = refl
separator_for-separates posix windows to_prefix = ground arith
separator_for-separates windows posix to_prefix = refl
separator_for-separates windows windows to_prefix = ground arith

-- The prefix as the directory of what follows it: without its last separators, and one behind it.
abbrev pub directory_of : Bytes → Bytes
unfolding path_separators
directory_of to_prefix =
    let base = trim_end (path_separators windows) to_prefix in
    if is_empty base && starts_with_any (λ x. x == b'/') to_prefix
    then b'/' ∷ []
    else base ++ (separator_of to_prefix ∷ [])

-- The prefix itself, or its directory and behind it segments none of which is . or ..
abbrev pub IsBelow : PathStyle → Bytes → Bytes → Type 0
IsBelow from_style to_prefix path =
    (path ≡ to_prefix)
    ⊎ ((tail : Bytes) × (path ≡ directory_of to_prefix ++ tail)
        × (path_has_no_dot_segments tail (traversal_path_style from_style (path_style to_prefix))
            ≡ true))

join_directory :
    (from_style : PathStyle) (to_prefix : Bytes) (b : ℕ) (rest : Bytes)
    → join_rewritten_path to_prefix (b ∷ rest) from_style
      ≡ directory_of to_prefix
        ++ normalize from_style
            (separator_of to_prefix)
            (trim_start (path_separators from_style) (b ∷ rest))
unfolding join_rewritten_path
join_directory from_style to_prefix b rest =
    let base = trim_end (path_separators windows) to_prefix in
    let tail =
      normalize from_style (separator_of to_prefix)
        (trim_start (path_separators from_style) (b ∷ rest)) in
    elim (Bool-cases (is_empty base && starts_with_any (λ x. x == b'/') to_prefix)) [
      | inl e ↦ rw e refl
      | inr e ↦ rw e (sym (append_assoc base (separator_of to_prefix ∷ []) tail))
    ]

not-true : (b : Bool) → not b ≡ true → b ≡ false
not-true true h = sym h
not-true false h = refl

normalized_safe :
    (from_style : PathStyle) (to_prefix suffix : Bytes)
    → path_has_no_dot_segments suffix (traversal_path_style from_style (path_style to_prefix))
      ≡ true
    → path_has_no_dot_segments
        (normalize from_style
          (separator_of to_prefix)
          (trim_start (path_separators from_style) suffix))
        (traversal_path_style from_style (path_style to_prefix))
      ≡ true
unfolding path_has_no_dot_segments separator_of
normalized_safe from_style to_prefix suffix h =
    let style = path_style to_prefix in
    let p = path_separators (traversal_path_style from_style style) in
    let q = path_separators from_style in
    let k = separators_traversal from_style style in
    let trimmed = trim_start q suffix in
    let same =
      segments-normalize p from_style (separator_for style to_prefix)
        (separator_for-separates from_style style to_prefix) k trimmed in
    rw same (ap not (segments-trim_start p q k suffix (not-true _ h)))

if-eq-some :
    (b : Bool) (x : Bytes) {y : Bytes}
    → (if b then some x else none) ≡ some y
    → (b ≡ true) × (x ≡ y)
if-eq-some true x h = (refl, cc)
if-eq-some false x h = cc

joined-IsBelow :
    (from_style : PathStyle) (to_prefix suffix : Bytes)
    → path_has_no_dot_segments suffix (traversal_path_style from_style (path_style to_prefix))
      ≡ true
    → IsBelow from_style to_prefix (join_rewritten_path to_prefix suffix from_style)
unfolding join_rewritten_path
joined-IsBelow from_style to_prefix [] h = inl refl
joined-IsBelow from_style to_prefix (b ∷ rest) h = inr (
  _,
  join_directory from_style to_prefix b rest,
  normalized_safe from_style to_prefix (b ∷ rest) h,
)

rewrite_suffix-IsBelow :
    (from_style : PathStyle) (to_prefix suffix : Bytes) {path : Bytes}
    → rewrite_suffix from_style to_prefix suffix ≡ some path
    → IsBelow from_style to_prefix path
unfolding rewrite_suffix
rewrite_suffix-IsBelow from_style to_prefix suffix {path} h =
    let (safe, same) =
      if-eq-some
        (path_has_no_dot_segments suffix (traversal_path_style from_style (path_style to_prefix)))
        (join_rewritten_path to_prefix suffix from_style) h in
    subst (IsBelow from_style to_prefix) same (joined-IsBelow from_style to_prefix suffix safe)

-- A path that is rewritten becomes the prefix that it is rewritten to, or that prefix without its
-- last separators, one separator, and then segments of which none is . or .., where a backslash
-- counts as a separator if one of the two prefixes is a Windows path.
pub rewrite_lsp_path-IsBelow :
    (text from_prefix to_prefix : Bytes) {path : Bytes}
    → rewrite_lsp_path text from_prefix to_prefix ≡ some path
    → IsBelow (path_style from_prefix) to_prefix path
unfolding rewrite_lsp_path
rewrite_lsp_path-IsBelow text from_prefix to_prefix {path} h =
    let style = path_style from_prefix in
    elim (Option-cases (strip_path_prefix_with_boundary text from_prefix style)) [
      | inl e ↦ absurd (ground arith)
      | inr (suffix, e) ↦ rewrite_suffix-IsBelow style to_prefix suffix (ground arith)
    ]
