-- ===== src/Prelude/ByteStrings.antt =====
-- Byte strings: lists of numbers, their equality test, and text literals as bytes.
use Prim.Native.Nat.{ℕ, ◌<◌, ◌-◌}
use Prim.Native.Char.{code}
use Prim.Native.String.{String}
use mathlib.Core.Path.{◌≡◌, refl}
use mathlib.Core.Logic.{◌↔◌, ◌≢◌}
use mathlib.Core.Bool.{Bool, true, false, ◌&&◌}
use mathlib.Core.Option.{Option, none, some}
use mathlib.Core.List.{List, [], ◌∷◌, ◌++◌}
use native.Mathlib.Omega.{arith}
use weaver.Prelude.Tests.{◌==◌, ==_iff, ltb, leb, if◌then◌else◌}

abbrev pub Bytes : Type 0
Bytes = List ℕ

abbrev pub IsByte : ℕ → Type 0
IsByte b = b < 256

-- The code points of a literal: its bytes, if it is ASCII.
abbrev pub codes : String → Bytes
codes String.[] = []
codes (String.◌∷◌ c s) = code c ∷ codes s

abbrev pub bytes_eq : Bytes → Bytes → Bool
bytes_eq [] [] = true
bytes_eq [] (b ∷ bs) = false
bytes_eq (a ∷ as') [] = false
bytes_eq (a ∷ as') (b ∷ bs) = (a == b) && bytes_eq as' bs

pub bytes_eq_sound : (x y : Bytes) → bytes_eq x y ≡ true → x ≡ y
bytes_eq_sound [] [] h = refl
bytes_eq_sound [] (b ∷ bs) h = ground arith
bytes_eq_sound (a ∷ x) [] h = ground arith
bytes_eq_sound (a ∷ x) (b ∷ y) h = ground (arith, bytes_eq_sound x y, ==_iff a b)

pub bytes_eq_self : (x : Bytes) → bytes_eq x x ≡ true
bytes_eq_self [] = refl
bytes_eq_self (a ∷ x) = ground (arith, bytes_eq_self x, ==_iff a a)

pub bytes_eq_iff : (x y : Bytes) → (bytes_eq x y ≡ true) ↔ (x ≡ y)
bytes_eq_iff x y = (bytes_eq_sound x y, λ e. rw e (bytes_eq_self y))

pub bytes_eq_differs : (x y : Bytes) → bytes_eq x y ≡ false → x ≢ y
bytes_eq_differs x y h e = let s = bytes_eq_self y in cc

-- `starts_with` on slices
abbrev pub starts_with : Bytes → Bytes → Bool
starts_with bytes [] = true
starts_with [] (p ∷ prefix) = false
starts_with (b ∷ bytes) (p ∷ prefix) = (b == p) && starts_with bytes prefix

pub starts_with-append : (prefix rest : Bytes) → starts_with (prefix ++ rest) prefix ≡ true
starts_with-append [] rest = refl
starts_with-append (b ∷ prefix) rest = ground (arith, starts_with-append prefix rest, ==_iff b b)

-- What may follow in a well-formed UTF-8 string: how many continuation bytes are missing, and the
-- range of the next one.
abbrev pub Expected : Type 0
Expected = ℕ × ℕ × ℕ

-- The ranges of a first byte (the Unicode standard, table 3-7).
abbrev first_byte : ℕ → Option Expected
first_byte b =
    if ltb b 128
    then some (0, 128, 191)
    else if leb 194 b && leb b 223
    then some (1, 128, 191)
    else if b == 224
    then some (2, 160, 191)
    else if b == 237
    then some (2, 128, 159)
    else if leb 225 b && leb b 239
    then some (2, 128, 191)
    else if b == 240
    then some (3, 144, 191)
    else if leb 241 b && leb b 243
    then some (3, 128, 191)
    else if b == 244
    then some (3, 128, 143)
    else none

abbrev pub next_byte : Expected → ℕ → Option Expected
next_byte (missing, low, high) b =
    if missing == 0
    then first_byte b
    else if leb low b && leb b high
    then some (missing - 1, 128, 191)
    else none

unfoldable pub utf8_from : Expected → Bytes → Bool
utf8_from expected [] = expected.0 == 0
utf8_from expected (b ∷ bytes) = elim (next_byte expected b) [
  | none ↦ false
  | some e ↦ utf8_from e bytes
]

-- `str::from_utf8(bytes).is_ok()`
unfoldable pub is_utf8 : Bytes → Bool
unfolding utf8_from
is_utf8 = utf8_from (0, 128, 191)
