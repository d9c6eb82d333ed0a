-- ===== src/Prelude/Loops.antt =====
-- Loops over a list that carry a state and may stop with an error, and tables of keys.
use Prim.Native.Nat.{◌+◌, suc}
use weaver.Prelude.Tests.{Bool-cases, Option-cases, is_some}
use mathlib.Core.Logic.{inl, inr}
use mathlib.Core.Bool.{true}
use native.Mathlib.Omega.{arith}
use mathlib.Core.Path.{◌≡◌, refl, subst, ap}
use mathlib.Core.Bool.{Bool, false}
use mathlib.Core.Option.{Option, none, some}
use mathlib.Core.List.{List, [], ◌∷◌, Memᴰ}
use mathlib.Core.List.Memᴰ.{head, tail}
use weaver.Prelude.Tests.{if◌then◌else◌}
use weaver.Prelude.Lists.{All, All-map, length}
use weaver.Prelude.ByteStrings.{Bytes, bytes_eq, bytes_eq_sound}
use weaver.Prelude.Results.{Result, ok, ◌>>=◌, >>=-eq-ok, ok-injective}

-- `for x in xs { step(x, &mut state)?; }`
unfoldable pub for_each : {S A E : Type 0} → (A → S → Result E S) → List A → S → Result E S
for_each step [] state = ok state
for_each step (x ∷ xs) state = step x state >>= for_each step xs

-- What holds before a loop and survives each of its steps holds after it.
pub for_each_keeps :
    {S A E : Type 0} (step : A → S → Result E S) (Inv : S → Type 0) (xs : List A) {s t : S}
    → ((x : A) (s t : S) → Memᴰ x xs → Inv s → step x s ≡ ok t → Inv t)
    → Inv s
    → for_each step xs s ≡ ok t
    → Inv t
unfolding for_each
for_each_keeps step Inv [] k i h = subst Inv (ok-injective h) i
for_each_keeps step Inv (x ∷ xs) {s} k i h =
    let (m, e, h) = >>=-eq-ok (step x s) _ h in
    for_each_keeps step Inv xs (λ x s t m. k x s t (tail m)) (k x s m (head refl) i e) h

-- Every step of a loop that ends well has succeeded, from a state that keeps the invariant.
pub for_each_steps :
    {S A E : Type 0} (step : A → S → Result E S) (Inv : S → Type 0) (xs : List A) {s t : S}
    → ((x : A) (s t : S) → Inv s → step x s ≡ ok t → Inv t)
    → Inv s
    → for_each step xs s ≡ ok t
    → All (λ x. (s : S) × (t : S) × Inv s × (step x s ≡ ok t)) xs
unfolding for_each
for_each_steps step Inv [] k i h = tt
for_each_steps step Inv (x ∷ xs) {s} k i h =
    let (m, e, h) = >>=-eq-ok (step x s) _ h in
    ((s, m, i, e), for_each_steps step Inv xs k (k x s m i e) h)

-- `HashMap` by byte keys, as the list of its entries.
abbrev pub Table : Type 0 → Type 0
Table V = List (Bytes × V)

-- `HashMap::get`
unfoldable pub get : {V : Type 0} → Bytes → Table V → Option V
get key [] = none
get key ((k, v) ∷ entries) = let rest = get key entries in if bytes_eq k key then some v else rest

-- `HashMap::contains_key`
abbrev pub contains_key : {V : Type 0} → Bytes → Table V → Bool
contains_key key entries = is_some (get key entries)

pub contains_key-get :
    {V : Type 0} (key : Bytes) (t : Table V)
    → contains_key key t ≡ true
    → (v : V) × (get key t ≡ some v)
contains_key-get key t h = elim (Option-cases (get key t)) [
  | inl e ↦ let no : false ≡ true = rw e at h in cc
  | inr r ↦ r
]

-- What holds of every entry of a table.
abbrev pub Entries : {V : Type 0} → (Bytes → V → Type 0) → Table V → Type 0
Entries {V} Good t = (key : Bytes) (v : V) → get key t ≡ some v → Good key v

pub Entries-none : {V : Type 0} (Good : Bytes → V → Type 0) → Entries Good []
unfolding get
Entries-none Good key v h = cc

pub Entries-insert :
    {V : Type 0} (Good : Bytes → V → Type 0) (k : Bytes) (v : V) (t : Table V)
    → Entries Good t
    → Good k v
    → Entries Good ((k, v) ∷ t)
unfolding get
Entries-insert Good k v t all good key w h = elim (Bool-cases (bytes_eq k key)) [
  | inl e ↦
      let found : some v ≡ some w = rw e at h in
      let same : v ≡ w = cc in
      subst (λ k'. Good k' w) (bytes_eq_sound k key e) (subst (Good k) same good)
  | inr e ↦ let found : get key t ≡ some w = rw e at h in all key w found
]

-- The keys of a list are pairwise different.
abbrev pub Distinct : {A : Type 0} → (A → Bytes) → List A → Type 0
Distinct key [] = Unit
Distinct key (x ∷ xs) = All (λ y. bytes_eq (key x) (key y) ≡ false) xs × Distinct key xs

contains_key-insert :
    {V : Type 0} (k key : Bytes) (v : V) (t : Table V)
    → contains_key k ((key, v) ∷ t) ≡ false
    → (bytes_eq key k ≡ false) × (contains_key k t ≡ false)
unfolding get
contains_key-insert k key v t h = (ground arith, ground arith)

-- A loop of which each step inserts a new key meets no key twice, and none that is there before.
module _ {A V E : Type 0} (key : A → Bytes) (step : A → Table V → Result E (Table V))
    (inserts : (x : A) (s t : Table V)
      → step x s ≡ ok t
      → (contains_key (key x) s ≡ false) × (v : V) × (t ≡ (key x, v) ∷ s)) where
  pub for_each-Distinct :
      (xs : List A) (s t : Table V)
      → for_each step xs s ≡ ok t
      → All (λ x. contains_key (key x) s ≡ false) xs × Distinct key xs
  unfolding for_each
  for_each-Distinct [] s t h = (tt, tt)
  for_each-Distinct (x ∷ xs) s t h =
      let (m, e, h) = >>=-eq-ok (step x s) _ h in
      let (new, v, f) = inserts x s m e in
      let (fresh, distinct) = for_each-Distinct xs m t h in
      (
        (new, All-map (λ y n. (apart v f y n).1) xs fresh),
        (All-map (λ y n. (apart v f y n).0) xs fresh, distinct),
      )
    where
      apart :
          {m : Table V} (v : V)
          → m ≡ (key x, v) ∷ s
          → (y : A) → contains_key (key y) m ≡ false
          → (bytes_eq (key x) (key y) ≡ false) × (contains_key (key y) s ≡ false)
      apart v f y n =
          contains_key-insert (key y) (key x) v s (subst (λ m. contains_key (key y) m ≡ false) f n)

-- Where each step adds one entry, the loop adds as many as the list has.
pub for_each-length :
    {A V E : Type 0} (step : A → Table V → Result E (Table V))
    → ((x : A) (s t : Table V) → step x s ≡ ok t → length t ≡ suc (length s))
    → (xs : List A) (s t : Table V) → for_each step xs s ≡ ok t
    → length t ≡ length xs + length s
unfolding for_each
for_each-length step grows [] s t h = omega (arith, ap length (ok-injective h))
for_each-length step grows (x ∷ xs) s t h =
    let (m, e, h) = >>=-eq-ok (step x s) _ h in
    omega (arith, for_each-length step grows xs m t h, grows x s m e)
