-- ===== src/Prelude/Results.antt =====
-- Rust's `Result`, with a panic as a third outcome, so that `unreachable!()` is a value of the
-- model that a theorem can exclude.
use mathlib.Core.Path.{◌≡◌, refl}
use mathlib.Core.Logic.{◌≢◌}
use mathlib.Core.Bool.{Bool, true, false}
use mathlib.Core.List.{List, [], ◌∷◌}

pub data Result {ℓ κ} (E : Type κ) (A : Type ℓ) : Type (ℓ ⊔ κ) where
  ok : A → Result E A
  err : E → Result E A
  panic : Result E A

-- `?` in front of what uses the value, and on a result whose value is `()`.
infixl 6 ◌>>=◌ ◌>>◌
abbrev pub ◌>>=◌ {μ ℓ κ} :
    {E : Type μ} {S : Type ℓ} {T : Type κ} → Result E S → (S → Result E T) → Result E T
ok value >>= next = next value
err reason >>= next = err reason
panic >>= next = panic

abbrev pub ◌>>◌ {μ κ} : {E : Type μ} {T : Type κ} → Result E (Unit {0}) → Result E T → Result E T
first >> second = first >>= λ _. second

-- `if test { return Err(e) }`
abbrev pub fail_if {μ} : {E : Type μ} → Bool → E → Result E (Unit {0})
fail_if true e = err e
fail_if false e = ok tt

-- `?` with the `From` conversion of the error
abbrev pub map_err {ℓ κ μ} :
    {E : Type κ} {F : Type μ} {A : Type ℓ} → (E → F) → Result E A → Result F A
map_err f (ok a) = ok a
map_err f (err e) = err (f e)
map_err f panic = panic

abbrev pub map_ok {ℓ κ μ} :
    {E : Type μ} {A : Type ℓ} {B : Type κ} → (A → B) → Result E A → Result E B
map_ok f (ok a) = ok (f a)
map_ok f (err e) = err e
map_ok f panic = panic

-- `for x in xs { f(x)?; }`
abbrev pub for_each {ℓ μ} :
    {E : Type μ} {A : Type ℓ} → (A → Result E (Unit {0})) → List A → Result E (Unit {0})
for_each f [] = ok tt
for_each f (x ∷ xs) = f x >>= λ _. for_each f xs

-- A chain that ends in `Ok` has a first part that does.
pub >>=-eq-ok {μ ℓ κ} :
    {E : Type μ} {S : Type ℓ} {T : Type κ} (r : Result E S) (next : S → Result E T) {t : T}
    → (r >>= next) ≡ ok t
    → (value : S) × (r ≡ ok value) × (next value ≡ ok t)
>>=-eq-ok (ok value) next h = (value, refl, h)
>>=-eq-ok (err reason) next h = cc
>>=-eq-ok panic next h = cc

pub bind-ne-panic {ℓ κ μ} :
    {E : Type μ} {A : Type ℓ} {B : Type κ} (m : Result E A) (f : A → Result E B)
    → m ≢ panic
    → ((a : A) → f a ≢ panic)
    → (m >>= f) ≢ panic
bind-ne-panic (ok a) f h k e = k a e
bind-ne-panic (err x) f h k e = cc
bind-ne-panic panic f h k e = absurd (h refl)

pub fail_if-ne-panic {μ} : {E : Type μ} (b : Bool) (e : E) → fail_if b e ≢ panic
fail_if-ne-panic true e h = cc
fail_if-ne-panic false e h = cc

-- What `map_ok` returned came from a result.
pub map_ok-eq-ok {ℓ κ μ} :
    {E : Type μ} {A : Type ℓ} {B : Type κ} (f : A → B) (r : Result E A) {b : B}
    → map_ok f r ≡ ok b
    → (a : A) × (r ≡ ok a) × (f a ≡ b)
map_ok-eq-ok f (ok a) h = (a, refl, cc)
map_ok-eq-ok f (err e) h = cc
map_ok-eq-ok f panic h = cc

pub map_err-eq-ok {ℓ κ μ} :
    {E : Type κ} {F : Type μ} {A : Type ℓ} (f : E → F) (r : Result E A) {a : A}
    → map_err f r ≡ ok a
    → r ≡ ok a
map_err-eq-ok f (ok b) h = cc
map_err-eq-ok f (err e) h = cc
map_err-eq-ok f panic h = cc

pub ok-injective {ℓ μ} :
    {E : Type μ} {A : Type ℓ} (a b : A) → ◌≡◌ {A = Result E A} (ok a) (ok b) → a ≡ b
ok-injective a b h = cc
