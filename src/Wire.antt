-- ===== src/Wire.antt =====
-- The wire format: big-endian integers, and the bounds-checked `Decoder` of
-- crates/weaver-crypto/src/lib.rs, which crates/weaver-config and the other crates repeat over
-- their own error types. The error of a failed read is the instance `Malformed`.
pub mod Reads
pub mod Ints
pub mod Gives
pub mod Fails
use weaver.Prelude.{
  ℕ, zero, suc, ◌+◌, ◌*◌, ◌-◌, ◌/◌, ◌%◌, ◌^◌, ◌≡◌, refl, List, [], ◌∷◌, ◌++◌, leb, ◌==◌,
  if◌then◌else◌, Bytes, bytes_eq, length, take, drop, arith,
}
use weaver.Prelude.Results.{Result, ok, err}

-- `usize::MAX` on a 64-bit target.
abbrev pub usize_max : ℕ
usize_max = 2 ^ 64 - 1

-- The last `n` bytes of `value`, most significant first (`to_be_bytes`).
unfoldable pub to_be : ℕ → ℕ → Bytes
to_be zero value = []
to_be (suc n) value = (value / 256 ^ n) % 256 ∷ to_be n value

-- The value of big-endian bytes read behind `acc` (`from_be_bytes`).
unfoldable pub from_be_acc : ℕ → Bytes → ℕ
from_be_acc acc [] = acc
from_be_acc acc (b ∷ bs) = from_be_acc (acc * 256 + b) bs

unfoldable pub from_be : Bytes → ℕ
unfolding from_be_acc
from_be = from_be_acc 0

pub record Decoder : Type 0 where
  pub bytes : Bytes
  pub offset : ℕ

pub record Malformed (E : Type 0) : Type 0 where
  pub malformed : E

abbrev pub Parser : Type 0 → Type 0 → Type 0
Parser E A = Decoder → Result E (A × Decoder)

infixl 5 ◌>>=◌ ◌>>◌
abbrev pub ◌>>=◌ : {E A B : Type 0} → Parser E A → (A → Parser E B) → Parser E B
◌>>=◌ m f d = elim (m d) [ ok (x, d') ↦ f x d' | err e ↦ err e ]

abbrev pub ◌>>◌ : {E A B : Type 0} → Parser E A → Parser E B → Parser E B
m >> k = m >>= λ _. k

abbrev pub return : {E A : Type 0} → A → Parser E A
return x d = ok (x, d)

-- `return Err(e)` inside a decoding function.
abbrev pub fail : {E A : Type 0} → E → Parser E A
fail e d = err e

-- `?` on a result that does not read.
abbrev pub lift : {E A : Type 0} → Result E A → Parser E A
lift r d = elim r [ ok x ↦ ok (x, d) | err e ↦ err e ]

unfoldable pub start : Bytes → Decoder
start bytes = record { bytes = bytes; offset = 0 }

-- A decoding function makes its decoder and keeps the result.
unfoldable pub decode : {E A : Type 0} → Parser E A → Bytes → Result E A
unfolding start
decode p bytes = elim (p (start bytes)) [ ok (x, d) ↦ ok x | err e ↦ err e ]

module _ {E : Type 0} ⦃m : Malformed E⦄ where
  unfoldable pub take_bytes : ℕ → Parser E Bytes
  take_bytes len d =
      let end = d.offset + len in
      if leb end usize_max
      then if leb end (length d.bytes)
        then ok (take len (drop d.offset d.bytes), record d { offset = end })
        else err m.malformed
      else err m.malformed

  -- `take(N)?.try_into()`: the slice has length `N`, so the conversion succeeds.
  unfoldable pub array : ℕ → Parser E Bytes
  array n = do value ← take_bytes n; if length value == n then return value else fail m.malformed

  unfoldable pub magic : Bytes → Parser E (Unit {0})
  magic expected = do
    value ← take_bytes (length expected)
    if bytes_eq value expected then return tt else fail m.malformed

  -- `u8`, `u16`, `u32` and `u64` for widths 1, 2, 4 and 8.
  unfoldable pub uint : ℕ → Parser E ℕ
  uint width = do bytes ← array width; return (from_be bytes)

  unfoldable pub finish : Parser E (Unit {0})
  finish d = if d.offset == length d.bytes then ok (tt, d) else err m.malformed

  -- `for _ in 0..count { values.push(item()?); }`
  unfoldable pub repeat : {A : Type 0} → ℕ → Parser E A → Parser E (List A)
  repeat zero item = return []
  repeat (suc count) item = do value ← item; rest ← repeat count item; return (value ∷ rest)
