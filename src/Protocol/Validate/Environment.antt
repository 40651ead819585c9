-- ===== src/Protocol/Validate/Environment.antt =====
-- `validate_environment` accepts the environment changes whose names are well formed and distinct.
use nvim_remote_mirror.Prelude.{
  ℕ, ◌+◌, ◌≤◌, ◌≡◌, refl, subst, String, ◌≢◌, ◌↔◌, false, List, [], ◌∷◌, ◌++◌, Text, length,
  contains, list_eq, list_eq_iff, All, ok, >>=-eq-ok, fail_if, ltb, arith, NotIn, Distinct, Fresh,
  seen_after, NotIn-iff, Fresh-append, Fresh-Distinct, Apart-nil,
}
use nvim_remote_mirror.Protocol.Limits.{runtime_max_env_changes}
use nvim_remote_mirror.Protocol.Types.{RuntimeEnvVar, RuntimeEnvironment}
use nvim_remote_mirror.Protocol.Errors.{RuntimeValidationError}
use nvim_remote_mirror.Protocol.Validate.Fields.{reject_nul, validate_env_name}
use nvim_remote_mirror.Protocol.Validate.Spec.{
  insert_name, validate_set, validate_unset, validate_environment,
}

-- A name of a variable: not empty, with no NUL and no `=`.
pub record IsEnvName (v : Text) : Type 0 where
  pub nonempty : v ≢ []
  pub no_nul : contains 0 v ≡ false
  pub no_equals : contains b'=' v ≡ false

abbrev pub IsEnvVar : RuntimeEnvVar → Type 0
IsEnvVar variable = IsEnvName variable.name × (contains 0 variable.value ≡ false)

-- The names of variables.
abbrev pub names_of : List RuntimeEnvVar → List Text
names_of [] = []
names_of (variable ∷ rest) = variable.name ∷ names_of rest

abbrev pub set_names : RuntimeEnvironment → List Text
set_names env = names_of env.set

pub record IsWellFormed (env : RuntimeEnvironment) : Type 0 where
  pub few : length env.set + length env.unset ≤ runtime_max_env_changes
  pub set_good : All IsEnvVar env.set
  pub unset_good : All IsEnvName env.unset
  pub distinct : Distinct (set_names env ++ env.unset)

IsEnvName-iff : (v : Text) → (validate_env_name v ≡ ok tt) ↔ IsEnvName v
unfolding validate_env_name
IsEnvName-iff [] = (λ h. cc, λ v. absurd (v.nonempty refl))
IsEnvName-iff (c ∷ v) = (
  λ h. record { nonempty = λ e. cc; no_nul = ground arith; no_equals = ground arith },
  λ w. ground (arith, w.no_nul, w.no_equals),
)

-- Inserting grows the set of names seen.
insert_name_iff :
    (v : Text) (names names' : List Text)
    → (insert_name v names ≡ ok names') ↔ (NotIn v names × (names' ≡ v ∷ names))
unfolding insert_name
insert_name_iff v names names' = (
  λ h. ((NotIn-iff list_eq list_eq_iff v names).0 (ground arith), ground arith),
  λ k. ground (arith, (NotIn-iff list_eq list_eq_iff v names).1 k.0, k.1),
)

unset_ok :
    (vs seen names' : List Text)
    → validate_unset vs seen ≡ ok names'
    → All IsEnvName vs × Fresh seen vs
unfolding validate_unset
unset_ok [] seen names' h = (tt, tt)
unset_ok (v ∷ vs) seen names' h =
    let (u, good, h₁) = >>=-eq-ok (validate_env_name v) _ h in
    let (n, inserted, h₂) = >>=-eq-ok (insert_name v seen) _ h₁ in
    let (fresh, grown) = (insert_name_iff v seen n).0 inserted in
    let (goods, rest) = unset_ok vs n names' h₂ in
    (((IsEnvName-iff v).0 good, goods), (fresh, subst (λ k. Fresh k vs) grown rest))

unset_accepts :
    (vs seen : List Text)
    → All IsEnvName vs
    → Fresh seen vs
    → validate_unset vs seen ≡ ok (seen_after seen vs)
unfolding validate_unset
unset_accepts [] seen g f = refl
unset_accepts (v ∷ vs) seen g f =
    let named = (IsEnvName-iff v).1 g.0 in
    let inserted = (insert_name_iff v seen (v ∷ seen)).1 (f.0, refl) in
    rw (named, inserted) (unset_accepts vs (v ∷ seen) g.1 f.1)

reject_nul_iff : (label : String) (v : Text) → (reject_nul label v ≡ ok tt) ↔ (contains 0 v ≡ false)
unfolding reject_nul
reject_nul_iff label v = (λ h. ground arith, λ k. ground arith)

set_ok :
    (vars : List RuntimeEnvVar) (seen names' : List Text)
    → validate_set vars seen ≡ ok names'
    → All IsEnvVar vars × Fresh seen (names_of vars) × (names' ≡ seen_after seen (names_of vars))
unfolding validate_set
set_ok [] seen names' h = (tt, tt, ground arith)
set_ok (v ∷ vars) seen names' h =
    let (u, good, h₁) = >>=-eq-ok (validate_env_name v.name) _ h in
    let (w, clean, h₂) = >>=-eq-ok (reject_nul "environment value" v.value) _ h₁ in
    let (n, inserted, h₃) = >>=-eq-ok (insert_name v.name seen) _ h₂ in
    let (fresh, grown) = (insert_name_iff v.name seen n).0 inserted in
    let (goods, rest, final) = set_ok vars n names' h₃ in
    (
      (((IsEnvName-iff v.name).0 good, (reject_nul_iff _ v.value).0 clean), goods),
      (fresh, subst (λ k. Fresh k (names_of vars)) grown rest),
      subst (λ k. names' ≡ seen_after k (names_of vars)) grown final,
    )

set_accepts :
    (vars : List RuntimeEnvVar) (seen : List Text)
    → All IsEnvVar vars
    → Fresh seen (names_of vars)
    → validate_set vars seen ≡ ok (seen_after seen (names_of vars))
unfolding validate_set
set_accepts [] seen g f = refl
set_accepts (v ∷ vars) seen g f =
    let named = (IsEnvName-iff v.name).1 g.0.0 in
    let clean = (reject_nul_iff "environment value" v.value).1 g.0.1 in
    let inserted = (insert_name_iff v.name seen (v.name ∷ seen)).1 (f.0, refl) in
    rw (named, clean, inserted) (set_accepts vars (v.name ∷ seen) g.1 f.1)

few_iff :
    (n : ℕ) (e : RuntimeValidationError)
    → (fail_if (ltb runtime_max_env_changes n) e ≡ ok tt) ↔ (n ≤ runtime_max_env_changes)
few_iff n e = (λ h. ground arith, λ k. ground arith)

environment_ok : (env : RuntimeEnvironment) → validate_environment env ≡ ok tt → IsWellFormed env
unfolding validate_environment
environment_ok env h =
    let (u, few, h₁) = >>=-eq-ok (fail_if (ltb runtime_max_env_changes _) _) _ h in
    let (names, set_valid, h₂) = >>=-eq-ok (validate_set env.set []) _ h₁ in
    let (names', unset_valid, h₃) = >>=-eq-ok (validate_unset env.unset names) _ h₂ in
    let (set_good, set_fresh, seen) = set_ok env.set [] names set_valid in
    let (unset_good, unset_fresh) = unset_ok env.unset names names' unset_valid in
    let fresh =
      (Fresh-append (set_names env) env.unset []).1
        (set_fresh, subst (λ k. Fresh k env.unset) seen unset_fresh) in
    record {
      few = (few_iff _ _).0 few;
      set_good = set_good;
      unset_good = unset_good;
      distinct = ((Fresh-Distinct [] (set_names env ++ env.unset)).0 fresh).1;
    }

environment_accepts :
    (env : RuntimeEnvironment) → IsWellFormed env → validate_environment env ≡ ok tt
unfolding validate_environment
environment_accepts env v =
    let all_names = set_names env ++ env.unset in
    let fresh = (Fresh-Distinct [] all_names).1 (Apart-nil all_names, v.distinct) in
    let (set_fresh, unset_fresh) = (Fresh-append (set_names env) env.unset []).0 fresh in
    rw (
      (few_iff _ _).1 v.few,
      set_accepts env.set [] v.set_good set_fresh,
      unset_accepts env.unset (seen_after [] (set_names env)) v.unset_good unset_fresh,
    )

-- The environment changes of a process are accepted exactly when there are at most
-- `RUNTIME_MAX_ENV_CHANGES` of them, every name set or unset is well formed, no value has a NUL, and
-- all the names, those set and those unset together, are distinct.
pub validate_environment-IsWellFormed :
    (env : RuntimeEnvironment) → (validate_environment env ≡ ok tt) ↔ IsWellFormed env
validate_environment-IsWellFormed env = (environment_ok env, environment_accepts env)
