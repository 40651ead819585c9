-- ===== src/Agent/Host.antt =====
-- The operating system under crates/nrm-agent/src/main.rs: the functions of that file that only open,
-- lock, read, rename or remove files, as operations on a world. An error is `none`.
use nvim_remote_mirror.Prelude.{ℕ, ◌≡◌, refl, Bool, true, false, Option, none, some, List, Text}

pub record Host : Type 1 where
  pub World : Type 0
  pub Target : Type 0
  pub Parent : Type 0
  pub TempName : Type 0
  pub TempFile : Type 0
  pub Identity : Type 0
  pub Meta : Type 0
  pub prepare_write_target : Text → World → Option Target × World
  pub write_target_keys : Target → World → Option (List Text) × World
  pub acquire_write_locks : List Text → World → Option (Unit {0}) × World
  pub open_write_parent : Target → World → Option Parent × World
  -- `current_regular_file_hash`, which is `None` where there is no regular file
  pub current_regular_file_hash : Text → Target → World → Option (Option Text) × World
  -- the time in nanoseconds and the hash of the path
  pub new_upload_id : Text → World → Text
  pub temp_file_name : Target → Text → World → Option TempName × World
  pub verify_write_parent_current : Parent → Target → World → Option (Unit {0}) × World
  pub create_temp_file : Parent → TempName → World → Option TempFile × World
  -- `seek` and `write_all`
  pub write_at : TempFile → ℕ → List ℕ → World → Option (Unit {0}) × World
  pub sync_all : TempFile → World → Option (Unit {0}) × World
  pub hash_open_file : TempFile → World → Option Text × World
  pub verify_temp_file_identity : TempFile → TempName → World → Option (Unit {0}) × World
  pub capture_temp_file_identity : TempFile → TempName → World → Option Identity × World
  pub remove_temp_file : Parent → TempName → World → World
  pub rename_temp_into_path :
      Parent → TempName → Target → Identity → World → Option (Unit {0}) × World
  pub sync_write_parent : Parent → Target → World → Option (Unit {0}) × World
  pub hash_file : Target → World → Option Text × World
  pub file_meta : Target → World → Option Meta × World

-- An action on a world, which can fail, and what goes on with its value: `?` ends with the error.
abbrev pub Act : Type 0 → Type 0 → Type 0
Act W A = W → Option A × W

abbrev continue : {W A B : Type 0} → Option A × W → (A → W → Option B × W) → Option B × W
continue (none, w) next = (none, w)
continue (some a, w) next = next a w

infixl 6 ◌>>=◌ ◌>>◌
unfoldable pub ◌>>=◌ :
    {W A B : Type 0} → (W → Option A × W) → (A → W → Option B × W) → W → Option B × W
act >>= next = λ w. continue (act w) next

unfoldable pub ◌>>◌ :
    {W B : Type 0} → (W → Option (Unit {0}) × W) → (W → Option B × W) → W → Option B × W
act >> next = λ w. continue (act w) (λ u. next)

unfoldable pub return : {W A : Type 0} → A → W → Option A × W
return a w = (some a, w)

-- `bail!` on a condition
unfoldable pub bail_if : {W : Type 0} → Bool → W → Option (Unit {0}) × W
bail_if true w = (none, w)
bail_if false w = (some tt, w)

abbrev removed :
    (h : Host) {A : Type 0} → h.Parent → h.TempName → Option A × h.World → Option A × h.World
removed h parent name (none, w) = (none, h.remove_temp_file parent name w)
removed h parent name (some a, w) = (some a, w)

-- `if let Err(error)`: the temporary file is removed before the error is returned.
unfoldable pub or_remove :
    (h : Host) {A : Type 0}
    → h.Parent
    → h.TempName
    → (h.World → Option A × h.World)
    → h.World
    → Option A × h.World
or_remove h parent name act w = removed h parent name (act w)

unfoldable pub remove_temp :
    (h : Host) → h.Parent → h.TempName → h.World → Option (Unit {0}) × h.World
remove_temp h parent name w = (some tt, h.remove_temp_file parent name w)

-- A property of what an action comes to, which every error has, goes through what is composed.
pub continue-holds :
    {W A B : Type 0} (P : Option B × W → Type 0) (r : Option A × W) (next : A → W → Option B × W)
    → ((w : W) → P (none, w))
    → ((a : A) (w : W) → P (next a w))
    → P (continue r next)
continue-holds P (none, w) next n s = n w
continue-holds P (some a, w) next n s = s a w

pub >>=-holds :
    {W A B : Type 0} (P : Option B × W → Type 0) (act : W → Option A × W)
    (next : A → W → Option B × W) (w : W)
    → ((w : W) → P (none, w))
    → ((a : A) (w : W) → P (next a w))
    → P ((act >>= next) w)
unfolding ◌>>=◌
>>=-holds P act next w n s = continue-holds P (act w) next n s

pub >>-holds :
    {W B : Type 0} (P : Option B × W → Type 0) (act : W → Option (Unit {0}) × W)
    (next : W → Option B × W) (w : W)
    → ((w : W) → P (none, w))
    → ((w : W) → P (next w))
    → P ((act >> next) w)
unfolding ◌>>◌
>>-holds P act next w n s = continue-holds P (act w) (λ u. next) n (λ u. s)

pub bail_if-holds :
    {W B : Type 0} (P : Option B × W → Type 0) (b : Bool) (next : W → Option B × W) (w : W)
    → ((w : W) → P (none, w))
    → (b ≡ false → (w : W) → P (next w))
    → P ((bail_if b >> next) w)
unfolding ◌>>◌ bail_if
bail_if-holds P true next w n s = n w
bail_if-holds P false next w n s = s refl w

removed-some :
    (h : Host) {A : Type 0} (parent : h.Parent) (name : h.TempName) (r : Option A × h.World) (a : A)
    (w : h.World)
    → removed h parent name r ≡ (some a, w)
    → r ≡ (some a, w)
removed-some h parent name (none, w') a w e = absurd (cc)
removed-some h parent name (some b, w') a w e = e

pub or_remove-some :
    (h : Host) {A : Type 0} (parent : h.Parent) (name : h.TempName)
    (act : h.World → Option A × h.World) (before after : h.World) (a : A)
    → or_remove h parent name act before ≡ (some a, after)
    → act before ≡ (some a, after)
unfolding or_remove
or_remove-some h parent name act before after a e =
    removed-some h parent name (act before) a after e

-- An action that ends well, and what comes behind it, went well one after the other.
module _ {W A B : Type 0} where
  abbrev pub Went : Option A × W → (A → W → Option B × W) → B → W → Type 0
  Went r next b after =
      (a : A) × (between : W) × (r ≡ (some a, between)) × (next a between ≡ (some b, after))

  continue-some :
      (r : Option A × W) (next : A → W → Option B × W) (b : B) (after : W)
      → continue r next ≡ (some b, after)
      → Went r next b after
  continue-some (none, w) next b after e = absurd (cc)
  continue-some (some a, w) next b after e = (a, w, refl, e)

  pub >>=-some :
      (act : W → Option A × W) (next : A → W → Option B × W) (b : B) (before after : W)
      → (act >>= next) before ≡ (some b, after)
      → Went (act before) next b after
  unfolding ◌>>=◌
  >>=-some act next b before after e = continue-some (act before) next b after e

module _ {W B : Type 0} where
  pub >>-some :
      (act : W → Option (Unit {0}) × W) (next : W → Option B × W) (b : B) (before after : W)
      → (act >> next) before ≡ (some b, after)
      → (between : W) × (act before ≡ (some tt, between)) × (next between ≡ (some b, after))
  unfolding ◌>>◌
  >>-some act next b before after e =
      let (u, between, ran, went) = continue-some (act before) (λ u. next) b after e in
      (between, ran, went)

module _ (h : Host) where
  pub >>-bail_if-some :
      {B : Type 0} (parent : h.Parent) (name : h.TempName) (wrong : Bool)
      (next : h.World → Option B × h.World) (b : B) (before after : h.World)
      → (or_remove h parent name (bail_if wrong) >> next) before ≡ (some b, after)
      → (wrong ≡ false) × (next before ≡ (some b, after))
  unfolding ◌>>◌ or_remove bail_if
  >>-bail_if-some parent name true next b before after e = absurd (cc)
  >>-bail_if-some parent name false next b before after e = (refl, e)
