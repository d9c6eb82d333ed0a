-- ===== src/Prelude/Results.antt =====
-- `Result<A, E>` with `?` as bind.
use mathlib.Core.Path.{◌≡◌, refl}
use mathlib.Core.Bool.{Bool, true, false, not}
use mathlib.Core.Logic.{◌⊎◌, inl, inr}
use mathlib.Core.Option.{Option, none, some}

pub data Result {ℓ κ} (E : Type ℓ) (A : Type κ) : Type (ℓ ⊔ κ) where
  ok : A → Result E A
  err : E → Result E A

-- `?`: the error of `m` is the error of the whole.
infixl 5 ◌>>=◌
abbrev pub ◌>>=◌ {ℓ κ μ} :
    {E : Type ℓ} {A : Type κ} {B : Type μ} (m : Result E A) (f : A → Result E B) → Result E B
err e >>= f = err e
ok x >>= f = f x

-- `if test { return Err(e); }`
abbrev pub fail_if {ℓ} : {E : Type ℓ} → Bool → E → Result E (Unit {0})
fail_if true e = err e
fail_if false e = ok tt

-- `ok_or(e)?`
abbrev pub ok_or {ℓ κ} : {E : Type ℓ} {A : Type κ} → Option A → E → Result E A
ok_or none e = err e
ok_or (some a) e = ok a

abbrev pub map_err {ℓ κ μ} :
    {E : Type ℓ} {F : Type κ} {A : Type μ} → (E → F) → Result E A → Result F A
map_err f (ok a) = ok a
map_err f (err e) = err (f e)

-- `?` on a check that gives no value.
infixl 5 ◌>>◌
abbrev pub ◌>>◌ {ℓ μ} :
    {E : Type ℓ} {B : Type μ} (check : Result E (Unit {0})) (rest : Result E B) → Result E B
check >> rest = check >>= λ _. rest

-- A chain that ends well has had a value in its middle.
pub >>=-eq-ok {ℓ κ μ} :
    {E : Type ℓ} {A : Type κ} {B : Type μ} (first : Result E A) (next : A → Result E B) {y : B}
    → (first >>= next) ≡ ok y
    → (x : A) × (first ≡ ok x) × (next x ≡ ok y)
>>=-eq-ok (err e) next fine = cc
>>=-eq-ok (ok x) next fine = (x, refl, fine)

pub fail_if-eq-ok {ℓ κ} :
    {E : Type ℓ} {B : Type κ} (t : Bool) (e : E) (k : Result E B) {b : B}
    → (fail_if t e >> k) ≡ ok b
    → (t ≡ false) × (k ≡ ok b)
fail_if-eq-ok true e k h = cc
fail_if-eq-ok false e k h = (refl, h)

pub ok-injective {ℓ κ} :
    {E : Type ℓ} {A : Type κ} {a b : A} → ◌≡◌ {A = Result E A} (ok a) (ok b) → a ≡ b
ok-injective h = cc

-- A guarded value with a continuation behind it.
pub guard_result {ℓ κ μ} :
    {E : Type ℓ} {A : Type κ} {B : Type μ} (f : A → Result E B) (t : Bool) (e : E) (a : A) {b : B}
    → ((fail_if t e >> ok a) >>= f) ≡ ok b
    → (t ≡ false) × (f a ≡ ok b)
guard_result f true e a h = cc
guard_result f false e a h = (refl, h)

-- A guard on `not t`, by the value of `t`.
pub guard_not {ℓ κ} :
    {E : Type ℓ} {B : Type κ} (t : Bool) (e : E) (k : Result E B) {r : Result E B}
    → (fail_if (not t) e >> k) ≡ r
    → ((t ≡ true) × (k ≡ r)) ⊎ ((t ≡ false) × (err e ≡ r))
guard_not true e k h = inl (refl, h)
guard_not false e k h = inr (refl, h)

pub err-injective {ℓ κ} :
    {E : Type ℓ} {A : Type κ} {d e : E} → ◌≡◌ {A = Result E A} (err d) (err e) → d ≡ e
err-injective h = cc

pub Result-cases {ℓ κ} :
    {E : Type ℓ} {A : Type κ} (r : Result E A) → ((a : A) × (r ≡ ok a)) ⊎ ((e : E) × (r ≡ err e))
Result-cases (err e) = inr (e, refl)
Result-cases (ok a) = inl (a, refl)

pub ok_or-eq-ok {ℓ κ μ} :
    {E : Type ℓ} {A : Type κ} {B : Type μ} (o : Option A) (e : E) (next : A → Result E B) {y : B}
    → (ok_or o e >>= next) ≡ ok y
    → (x : A) × (o ≡ some x) × (next x ≡ ok y)
ok_or-eq-ok none e next fine = cc
ok_or-eq-ok (some x) e next fine = (x, refl, fine)

pub fail_if-ok {ℓ} : {E : Type ℓ} {t : Bool} (e : E) → t ≡ false → fail_if t e ≡ ok tt
fail_if-ok e h = rw h

pub map_err-eq-ok {ℓ κ μ} :
    {E : Type ℓ} {F : Type κ} {A : Type μ} (f : E → F) (r : Result E A) {a : A}
    → map_err f r ≡ ok a
    → r ≡ ok a
map_err-eq-ok f (ok x) h = cc
map_err-eq-ok f (err e) h = cc

-- A step that has succeeded leaves the rest of a chain.
pub >>=-ok {ℓ κ μ} :
    {E : Type ℓ} {A : Type κ} {B : Type μ} (first : Result E A) (next : A → Result E B) {x : A}
    → first ≡ ok x
    → (first >>= next) ≡ next x
>>=-ok first next h = rw h

pub map_err-ok {ℓ κ μ} :
    {E : Type ℓ} {F : Type κ} {A : Type μ} (f : E → F) {r : Result E A} {a : A}
    → r ≡ ok a
    → map_err f r ≡ ok a
map_err-ok f h = rw h
