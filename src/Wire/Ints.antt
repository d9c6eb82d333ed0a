-- ===== src/Wire/Ints.antt =====
-- Big-endian integers: reading what was written gives the value, and the other way round.
use native.Mathlib.Nat.{pow-suc, div-add-mod, div-div-eq-div-mul, mod-eq_of_lt, div-eq_of_lt-le}
use weaver.Prelude.{
  ℕ, zero, suc, ◌+◌, ◌*◌, ◌/◌, ◌%◌, ◌^◌, ◌<◌, ◌≡◌, refl, sym, ◌∙◌, ap, ap₂, [], ◌∷◌, arith, Bytes,
  IsByte, All, length,
}
use weaver.Wire.{to_be, from_be, from_be_acc}

pub length-to_be : (n v : ℕ) → length (to_be n v) ≡ n
unfolding to_be
length-to_be zero v = refl
length-to_be (suc n) v = ap suc (length-to_be n v)

pub to_be-IsByte : (n v : ℕ) → All IsByte (to_be n v)
unfolding to_be
to_be-IsByte zero v = tt
to_be-IsByte (suc n) v = (omega arith, to_be-IsByte n v)

split_product :
    (p v q r k c m : ℕ) → p * q + r ≡ v → 256 * k + c ≡ q → p * 256 * k + m ≡ v → m ≡ c * p + r
split_product p v q r k c m e f g = omega (arith, ap (λ (t : ℕ). p * t) f)

-- The lowest digits of `v` are its next digit and the digits below that.
mod_split : (p v : ℕ) → v % (p * 256) ≡ v / p % 256 * p + v % p
mod_split p v =
    split_product p v (v / p) (v % p) (v / (p * 256)) (v / p % 256) (v % (p * 256))
      (div-add-mod v p)
      (ap (λ k. 256 * k + v / p % 256) (sym (div-div-eq-div-mul v p 256)) ∙ div-add-mod (v / p) 256)
      (div-add-mod v (p * 256))

add_scaled : (a p q c x : ℕ) → q ≡ p * 256 → (a * 256 + c) * p + x ≡ a * q + (c * p + x)
add_scaled a p q c x e = omega (arith, ap (λ (t : ℕ). a * t) e)

scaled-lt : (b r p q : ℕ) → b < 256 → r < p → q ≡ p * 256 → b * p + r < q
scaled-lt b r p q hb hr e = grind arith

from_be_acc-to_be : (n acc v : ℕ) → from_be_acc acc (to_be n v) ≡ acc * 256 ^ n + v % 256 ^ n
unfolding to_be from_be_acc
from_be_acc-to_be zero acc v = omega arith
from_be_acc-to_be (suc n) acc v =
    from_be_acc-to_be n (acc * 256 + v / 256 ^ n % 256) v
    ∙ add_scaled acc (256 ^ n) (256 ^ suc n) (v / 256 ^ n % 256) (v % 256 ^ n) (pow-suc 256 n)
    ∙ ap (◌+◌ (acc * 256 ^ suc n))
        (sym (mod_split (256 ^ n) v) ∙ ap (λ q. v % q) (sym (pow-suc 256 n)))

-- A number that fits into `n` bytes is read back.
pub from_be-to_be : (n v : ℕ) → v < 256 ^ n → from_be (to_be n v) ≡ v
unfolding from_be
from_be-to_be n v h = from_be_acc-to_be n 0 v ∙ omega (arith, mod-eq_of_lt h)

from_be_acc-split :
    (acc : ℕ) (bs : Bytes)
    → All IsByte bs
    → (r : ℕ) × (from_be_acc acc bs ≡ acc * 256 ^ length bs + r) × (r < 256 ^ length bs)
unfolding from_be_acc
from_be_acc-split acc [] h = (0, omega arith, omega arith)
from_be_acc-split acc (b ∷ bs) h =
    let (r, e, l) = from_be_acc-split (acc * 256 + b) bs h.1 in
    (
      b * 256 ^ length bs + r,
      e ∙ add_scaled acc (256 ^ length bs) (256 ^ suc (length bs)) b r (pow-suc 256 (length bs)),
      scaled-lt b r (256 ^ length bs) (256 ^ suc (length bs)) h.0 l (pow-suc 256 (length bs)),
    )

pub from_be-lt : (bs : Bytes) → All IsByte bs → from_be bs < 256 ^ length bs
unfolding from_be
from_be-lt bs h = let (r, e, l) = from_be_acc-split 0 bs h in omega arith

top_digit : (acc b r p : ℕ) → b < 256 → r < p → ((acc * 256 + b) * p + r) / p % 256 ≡ b
top_digit acc b r p hb hr =
    let e : ((acc * 256 + b) * p + r) / p ≡ acc * 256 + b =
      div-eq_of_lt-le p (omega arith) (omega arith) in
    rw e (omega arith)

to_be-from_be_acc :
    (acc : ℕ) (bs : Bytes) → All IsByte bs → to_be (length bs) (from_be_acc acc bs) ≡ bs
unfolding to_be from_be_acc
to_be-from_be_acc acc [] h = refl
to_be-from_be_acc acc (b ∷ bs) h =
    let (r, e, l) = from_be_acc-split (acc * 256 + b) bs h.1 in
    ap₂ ◌∷◌ (ap (λ v. v / 256 ^ length bs % 256) e ∙ top_digit acc b r (256 ^ length bs) h.0 l)
      (to_be-from_be_acc (acc * 256 + b) bs h.1)

-- Bytes are written back as they were read: no two byte strings of one width have one value.
pub to_be-from_be : (n : ℕ) (bs : Bytes) → length bs ≡ n → All IsByte bs → to_be n (from_be bs) ≡ bs
unfolding from_be
to_be-from_be n bs e h = rw (← e) (to_be-from_be_acc 0 bs h)
