-- ===== src/Registry/Target.antt =====
-- `AgentTarget` of crates/nrm-registry/src/core.rs.
use nvim_remote_mirror.Prelude.{
  ℕ, zero, suc, ◌≡◌, refl, sym, ap, ◌∙◌, ==_iff, ◌↔◌, Bool, true, false, Option, none, some, List,
  [], ◌∷◌, ◌++◌, Text, codes, list_eq, list_eq_iff, ◌==◌, if◌then◌else◌, arith,
}
use nvim_remote_mirror.Registry.Crates.{Crates}

pub data AgentTarget : Type 0 where
  aarch64_apple_darwin : AgentTarget
  aarch64_pc_windows_msvc : AgentTarget
  aarch64_unknown_linux_musl : AgentTarget
  x86_64_apple_darwin : AgentTarget
  x86_64_pc_windows_msvc : AgentTarget
  x86_64_unknown_linux_musl : AgentTarget

-- `AgentTarget::ALL`
abbrev all_targets : List AgentTarget
all_targets =
    aarch64_apple_darwin ∷ aarch64_pc_windows_msvc ∷ aarch64_unknown_linux_musl
    ∷ x86_64_apple_darwin ∷ x86_64_pc_windows_msvc ∷ x86_64_unknown_linux_musl ∷ []

unfoldable pub as_str : AgentTarget → Text
as_str x86_64_unknown_linux_musl = codes "x86_64-unknown-linux-musl"
as_str aarch64_unknown_linux_musl = codes "aarch64-unknown-linux-musl"
as_str x86_64_apple_darwin = codes "x86_64-apple-darwin"
as_str aarch64_apple_darwin = codes "aarch64-apple-darwin"
as_str x86_64_pc_windows_msvc = codes "x86_64-pc-windows-msvc"
as_str aarch64_pc_windows_msvc = codes "aarch64-pc-windows-msvc"

unfoldable pub is_windows : AgentTarget → Bool
is_windows x86_64_pc_windows_msvc = true
is_windows aarch64_pc_windows_msvc = true
is_windows _ = false

-- The derived order of `AgentTarget` compares these, and with it the `BTreeSet` of targets.
abbrev discriminant : AgentTarget → ℕ
discriminant aarch64_apple_darwin = 0
discriminant aarch64_pc_windows_msvc = 1
discriminant aarch64_unknown_linux_musl = 2
discriminant x86_64_apple_darwin = 3
discriminant x86_64_pc_windows_msvc = 4
discriminant x86_64_unknown_linux_musl = 5

unfoldable pub target_eq : AgentTarget → AgentTarget → Bool
target_eq target other = discriminant target == discriminant other

unfoldable pub artifact_filename : (c : Crates) → AgentTarget → c.Version → Text
unfolding as_str is_windows
artifact_filename c target version =
    codes "nrm-agent-"
    ++ (c.to_string version
        ++ (codes "-" ++ (as_str target ++ (if is_windows target then codes ".exe" else []))))

-- `into_iter().find(..)`
unfoldable pub find_named : Text → List AgentTarget → Option AgentTarget
find_named value [] = none
find_named value (target ∷ rest) =
    if list_eq (as_str target) value then some target else find_named value rest

unfoldable pub from_str : Text → Option AgentTarget
unfolding find_named
from_str value = find_named value all_targets

-- The target of a discriminant, for the proof that different targets have different ones.
abbrev of_discriminant : ℕ → AgentTarget
of_discriminant zero = aarch64_apple_darwin
of_discriminant (suc zero) = aarch64_pc_windows_msvc
of_discriminant (suc (suc zero)) = aarch64_unknown_linux_musl
of_discriminant (suc (suc (suc zero))) = x86_64_apple_darwin
of_discriminant (suc (suc (suc (suc zero)))) = x86_64_pc_windows_msvc
of_discriminant _ = x86_64_unknown_linux_musl

of_discriminant-discriminant : (t : AgentTarget) → of_discriminant (discriminant t) ≡ t
of_discriminant-discriminant aarch64_apple_darwin = refl
of_discriminant-discriminant aarch64_pc_windows_msvc = refl
of_discriminant-discriminant aarch64_unknown_linux_musl = refl
of_discriminant-discriminant x86_64_apple_darwin = refl
of_discriminant-discriminant x86_64_pc_windows_msvc = refl
of_discriminant-discriminant x86_64_unknown_linux_musl = refl

pub target_eq_iff : (t u : AgentTarget) → (target_eq t u ≡ true) ↔ (t ≡ u)
unfolding target_eq
target_eq_iff t u = (
  λ h.
      sym (of_discriminant-discriminant t)
      ∙ (ap of_discriminant ((==_iff (discriminant t) (discriminant u)).0 h)
          ∙ of_discriminant-discriminant u),
  λ e. (==_iff (discriminant t) (discriminant u)).1 (ap discriminant e),
)

find_named-as_str :
    (value : Text) (targets : List AgentTarget) {t : AgentTarget}
    → find_named value targets ≡ some t
    → as_str t ≡ value
unfolding find_named
find_named-as_str value [] h = cc
find_named-as_str value (target ∷ rest) {t} h =
    ground (arith, list_eq_iff (as_str target) value, find_named-as_str value rest {t = t})

-- Parsing finds the target that prints so.
pub from_str-as_str : (value : Text) {t : AgentTarget} → from_str value ≡ some t → as_str t ≡ value
unfolding from_str find_named
from_str-as_str value h = find_named-as_str value all_targets h

pub as_str-from_str : (t : AgentTarget) → from_str (as_str t) ≡ some t
unfolding from_str find_named as_str
as_str-from_str aarch64_apple_darwin = refl
as_str-from_str aarch64_pc_windows_msvc = refl
as_str-from_str aarch64_unknown_linux_musl = refl
as_str-from_str x86_64_apple_darwin = refl
as_str-from_str x86_64_pc_windows_msvc = refl
as_str-from_str x86_64_unknown_linux_musl = refl
