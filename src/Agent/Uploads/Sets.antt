-- ===== src/Agent/Uploads/Sets.antt =====
-- The set of active write targets, and the uploads that hold them.
use nvim_remote_mirror.Prelude.{
  ℕ, ◌+◌, ◌≤◌, ◌<◌, ◌≡◌, refl, sym, ap, ◌∙◌, true, not, ◌&&◌, ◌||◌, some, List, [], ◌∷◌, Text,
  length, list_eq, list_eq→eq, list_eq_comm, subst, if◌then◌else◌, u64_mod, All, Bool-cases, inl,
  inr, arith,
}
use nvim_remote_mirror.Agent.Host.{Host}
use nvim_remote_mirror.Agent.Uploads.{
  is_member, extend, remove_key, release, saturating_add, PendingUpload, get_upload, remove_upload,
  set_written, sum_sizes,
}

pub same_member :
    (key x : Text) (xs : List Text) → list_eq key x ≡ true → is_member key xs ≡ is_member x xs
same_member key x xs e = ap (λ k. is_member k xs) (list_eq→eq key x e)

same_right : (key other x : Text) → list_eq other x ≡ true → list_eq key x ≡ list_eq key other
same_right key other x e = sym (ap (list_eq key) (list_eq→eq other x e))

same_left : (key other x : Text) → list_eq key x ≡ true → list_eq key other ≡ list_eq other x
same_left key other x e = ap (λ k. list_eq k other) (list_eq→eq key x e) ∙ list_eq_comm x other

pub is_member-extend :
    (key : Text) (keys active : List Text)
    → is_member key (extend keys active) ≡ is_member key keys || is_member key active
unfolding extend
is_member-extend key [] active = refl
is_member-extend key (x ∷ keys) active =
    ground (arith, is_member-extend key keys active, same_member key x (extend keys active))

is_member-remove_key :
    (key other : Text) (active : List Text)
    → is_member key (remove_key other active) ≡ is_member key active && not (list_eq key other)
unfolding remove_key
is_member-remove_key key other [] = refl
is_member-remove_key key other (x ∷ active) =
    ground
      (arith, is_member-remove_key key other active, same_right key other x, same_left key other x)

pub is_member-release :
    (key : Text) (keys active : List Text)
    → is_member key (release keys active) ≡ is_member key active && not (is_member key keys)
unfolding release
is_member-release key [] active = ground arith
is_member-release key (x ∷ keys) active =
    ground
      (arith, is_member-release key keys (remove_key x active), is_member-remove_key key x active)

module _ {h : Host} where
  -- How many uploads hold the key.
  abbrev pub holders : Text → List (Text × PendingUpload h) → ℕ
  holders key [] = 0
  holders key ((id, upload) ∷ rest) =
      (if is_member key upload.target_keys then 1 else 0) + holders key rest

  abbrev pub total_size : List (Text × PendingUpload h) → ℕ
  total_size [] = 0
  total_size ((id, upload) ∷ rest) = upload.size + total_size rest

  abbrev pub Within : List (Text × PendingUpload h) → Type 0
  Within uploads = All (λ (entry : Text × PendingUpload h). entry.1.written ≤ entry.1.size) uploads

  -- The uploads without that of an id.
  abbrev pub Fewer : List (Text × PendingUpload h) → List (Text × PendingUpload h) → Type 0
  Fewer rest uploads =
      (length rest ≤ length uploads)
      × (total_size rest ≤ total_size uploads)
      × Within rest
      × ((key : Text) → holders key rest ≤ holders key uploads)

  pub remove_upload-Fewer :
      (id : Text) (uploads : List (Text × PendingUpload h))
      → Within uploads
      → Fewer (remove_upload id uploads) uploads
  unfolding remove_upload
  remove_upload-Fewer id [] v = (omega arith, omega arith, tt, λ key. omega arith)
  remove_upload-Fewer id ((other, upload) ∷ rest) v = elim (Bool-cases (list_eq id other)) [
    | inl e ↦ rw e (omega arith, omega arith, v.1, λ key. omega arith)
    | inr e ↦
        let f = remove_upload-Fewer id rest v.1 in
        rw e (omega (arith, f.0), omega (arith, f.1), (v.0, f.2), λ key. omega (arith, f.3 key))
  ]

  pub holders-remove_upload :
      (key id : Text) (uploads : List (Text × PendingUpload h)) (upload : PendingUpload h)
      → get_upload id uploads ≡ some upload
      → holders key (remove_upload id uploads) + (if is_member key upload.target_keys then 1 else 0)
        ≡ holders key uploads
  unfolding get_upload remove_upload
  holders-remove_upload key id [] upload e = absurd (cc)
  holders-remove_upload key id ((other, u) ∷ rest) upload e = elim (Bool-cases (list_eq id other)) [
    | inl t ↦ let same : u ≡ upload = ground (arith, t) in rw (t, same) (omega arith)
    | inr t ↦ rw t (omega (arith, holders-remove_upload key id rest upload (ground (arith, t))))
  ]

  pub set_written-Fewer :
      (id : Text) (n : ℕ) (uploads : List (Text × PendingUpload h)) (upload : PendingUpload h)
      → Within uploads
      → get_upload id uploads ≡ some upload
      → n ≤ upload.size
      → Fewer (set_written id n uploads) uploads
  unfolding get_upload set_written
  set_written-Fewer id n [] upload v e b = absurd (cc)
  set_written-Fewer id n ((other, u) ∷ rest) upload v e b = elim (Bool-cases (list_eq id other)) [
    | inl t ↦
        let same : u ≡ upload = ground (arith, t) in
        rw t (
          omega arith,
          omega arith,
          (subst (λ (v : PendingUpload h). n ≤ v.size) (sym same) b, v.1),
          λ key. omega arith,
        )
    | inr t ↦
        let f = set_written-Fewer id n rest upload v.1 (ground (arith, t)) b in
        rw t (omega (arith, f.0), omega (arith, f.1), (v.0, f.2), λ key. omega (arith, f.3 key))
  ]

  -- The saturating sum is the sum where it stays below the limit of a word.
  pub sum_sizes-total_size :
      (sum : ℕ) (uploads : List (Text × PendingUpload h))
      → sum_sizes sum uploads + 1 < u64_mod
      → sum_sizes sum uploads ≡ sum + total_size uploads
  unfolding sum_sizes
  sum_sizes-total_size sum [] h = omega arith
  sum_sizes-total_size sum ((id, upload) ∷ rest) h =
      let later = sum_sizes-total_size (saturating_add sum upload.size) rest h in
      ground (arith, later)
