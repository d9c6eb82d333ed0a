-- ===== src/Core/Labels.antt =====
-- The labels of a name that crates/weaver-core/src/lib.rs accepts, by their bytes.
use weaver.Core.{bad_label, label_byte, all_bytes, starts_with_hyphen, ends_with_hyphen, last_is}
use weaver.Prelude.{
  [], Bytes, List, ℕ, All, ◌∷◌, ◌≡◌, ◌≢◌, ◌≤◌, ◌++◌, ◌↔◌, ◌⊎◌, length, arith, refl, ap, ◌∙◌, true,
  false, &&-eq-true, bytes_eq_sound, bytes_eq_self, ==_iff, Bool,
}

-- An ASCII lower-case letter, an ASCII digit or a hyphen.
abbrev pub IsLabelByte : ℕ → Type 0
IsLabelByte b = ((b'a' ≤ b) × (b ≤ b'z')) ⊎ (((b'0' ≤ b) × (b ≤ b'9')) ⊎ (b ≡ b'-'))

-- A label of a name.
pub record IsLabel (label : Bytes) : Type 0 where
  pub some_bytes : 1 ≤ length label
  pub short : length label ≤ 63
  pub no_first_hyphen : (rest : Bytes) → label ≢ b'-' ∷ rest
  pub no_last_hyphen : (rest : Bytes) → label ≢ rest ++ b'-' ∷ []
  pub bytes : All IsLabelByte label

label_byte_iff : (b : ℕ) → (label_byte b ≡ true) ↔ IsLabelByte b
label_byte_iff b = ground arith

all_label_bytes : (label : Bytes) → all_bytes label_byte label ≡ true → All IsLabelByte label
all_label_bytes [] h = tt
all_label_bytes (b ∷ label) h =
    let (p, q) = &&-eq-true (label_byte b) (all_bytes label_byte label) h in
    ((label_byte_iff b).0 p, all_label_bytes label q)

label_bytes_all : (label : Bytes) → All IsLabelByte label → all_bytes label_byte label ≡ true
label_bytes_all [] a = refl
label_bytes_all (b ∷ label) a = rw ((label_byte_iff b).1 a.0, label_bytes_all label a.1) refl

starts-hyphen : (rest : Bytes) → starts_with_hyphen (b'-' ∷ rest) ≡ true
starts-hyphen rest = refl

hyphen_starts :
    (label : Bytes) → starts_with_hyphen label ≡ true → (rest : Bytes) × (label ≡ b'-' ∷ rest)
hyphen_starts [] h = absurd (cc)
hyphen_starts (b ∷ label) h = (label, ap (λ x. x ∷ label) ((==_iff b b'-').0 h))

ends-hyphen : (rest : Bytes) → ends_with_hyphen (rest ++ b'-' ∷ []) ≡ true
ends-hyphen [] = refl
ends-hyphen (b ∷ []) = refl
ends-hyphen (b ∷ next ∷ rest) = ends-hyphen (next ∷ rest)

hyphen_ends :
    (label : Bytes) → ends_with_hyphen label ≡ true → (rest : Bytes) × (label ≡ rest ++ b'-' ∷ [])
hyphen_ends [] h = absurd (cc)
hyphen_ends (b ∷ []) h = ([], ap (λ x. x ∷ []) ((==_iff b b'-').0 h))
hyphen_ends (b ∷ next ∷ label) h =
    let (rest, e) = hyphen_ends (next ∷ label) h in (b ∷ rest, ap (◌∷◌ b) e)

-- The five tests of a label, one by one.
tests :
    (label : Bytes)
    → (bad_label label ≡ false) ↔ (
        (1 ≤ length label)
        × (length label ≤ 63)
        × (starts_with_hyphen label ≡ false)
        × (ends_with_hyphen label ≡ false)
        × (all_bytes label_byte label ≡ true))
tests label = ground arith

differs_true : {t : Bool} → t ≡ false → t ≡ true → ⊥
differs_true h k = cc

is_false : (t : Bool) → ¬ (t ≡ true) → t ≡ false
is_false true h = absurd (h refl)
is_false false h = refl

pub bad_label_iff : (label : Bytes) → (bad_label label ≡ false) ↔ IsLabel label
bad_label_iff label = (accepted, refused)
  where
    accepted : bad_label label ≡ false → IsLabel label
    accepted h =
        let (l, u, s, e, a) = (tests label).0 h in
        record {
          some_bytes = l;
          short = u;
          no_first_hyphen = λ rest q. differs_true s (ap starts_with_hyphen q ∙ starts-hyphen rest);
          no_last_hyphen = λ rest q. differs_true e (ap ends_with_hyphen q ∙ ends-hyphen rest);
          bytes = all_label_bytes label a;
        }

    refused : IsLabel label → bad_label label ≡ false
    refused i = (tests label).1 (
      i.some_bytes,
      i.short,
      is_false _ (λ h. let (rest, q) = hyphen_starts label h in i.no_first_hyphen rest q),
      is_false _ (λ h. let (rest, q) = hyphen_ends label h in i.no_last_hyphen rest q),
      label_bytes_all label i.bytes,
    )

-- The last of some labels.
last_is-append :
    (expected : Bytes) (front : List Bytes) → last_is expected (front ++ expected ∷ []) ≡ true
last_is-append expected [] = bytes_eq_self expected
last_is-append expected (label ∷ []) = bytes_eq_self expected
last_is-append expected (label ∷ next ∷ front) = last_is-append expected (next ∷ front)

pub last_is_iff :
    (expected : Bytes) (labels : List Bytes)
    → (last_is expected labels ≡ true) ↔ ((front : List Bytes) × (labels ≡ front ++ expected ∷ []))
last_is_iff expected labels =
    (found labels, λ (front, e). ap (last_is expected) e ∙ last_is-append expected front)
  where
    found :
        (labels : List Bytes)
        → last_is expected labels ≡ true
        → (front : List Bytes) × (labels ≡ front ++ expected ∷ [])
    found [] h = absurd (cc)
    found (label ∷ []) h = ([], ap (λ x. x ∷ []) (bytes_eq_sound label expected h))
    found (label ∷ next ∷ labels) h =
        let (front, e) = found (next ∷ labels) h in (label ∷ front, ap (◌∷◌ label) e)
