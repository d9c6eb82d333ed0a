-- ===== src/Core.antt =====
-- `VirtualName` of crates/weaver-core/src/lib.rs: names under `.virtual`. A string is its UTF-8
-- bytes, and `split` cuts at the byte of the ASCII character '.'.
pub mod Labels
pub mod Names
use weaver.Prelude.Results.{Result, ok, ◌>>◌, fail_if}
use weaver.Prelude.{
  [], Bytes, List, ℕ, Bool, codes, ◌∷◌, false, if◌then◌else◌, leb, length, ltb, true, bytes_eq,
  ◌&&◌, ◌==◌, ◌||◌, not,
}

pub data VirtualNameError : Type 0 where
  invalid : VirtualNameError

abbrev pub dot : ℕ
dot = 46

abbrev pub hyphen : ℕ
hyphen = 45

abbrev pub all_bytes : (ℕ → Bool) → Bytes → Bool
all_bytes p [] = true
all_bytes p (b ∷ bytes) = p b && all_bytes p bytes

-- `str::is_ascii`
abbrev pub is_ascii : Bytes → Bool
is_ascii = all_bytes (λ b. ltb b 128)

-- A byte in front of the first of some labels.
abbrev pub prepend : ℕ → List Bytes → List Bytes
prepend b [] = (b ∷ []) ∷ []
prepend b (label ∷ labels) = (b ∷ label) ∷ labels

-- `str::split('.')`
unfoldable pub split : Bytes → List Bytes
split [] = [] ∷ []
split (b ∷ bytes) = let rest = split bytes in if b == dot then [] ∷ rest else prepend b rest

-- `labels.last() == Some(&expected)`
abbrev pub last_is : Bytes → List Bytes → Bool
last_is expected [] = false
last_is expected (label ∷ []) = bytes_eq label expected
last_is expected (label ∷ next ∷ labels) = last_is expected (next ∷ labels)

abbrev pub starts_with_hyphen : Bytes → Bool
starts_with_hyphen [] = false
starts_with_hyphen (b ∷ bytes) = b == hyphen

abbrev pub ends_with_hyphen : Bytes → Bool
ends_with_hyphen [] = false
ends_with_hyphen (b ∷ []) = b == hyphen
ends_with_hyphen (b ∷ next ∷ bytes) = ends_with_hyphen (next ∷ bytes)

-- A lower-case letter, a digit or a hyphen.
abbrev pub label_byte : ℕ → Bool
label_byte b = (leb 97 b && leb b 122) || ((leb 48 b && leb b 57) || (b == hyphen))

-- The test in the loop over the labels.
abbrev pub bad_label : Bytes → Bool
bad_label label =
    (length label == 0)
    || (ltb 63 (length label)
        || (starts_with_hyphen label
            || (ends_with_hyphen label || not (all_bytes label_byte label))))

unfoldable pub check_labels : List Bytes → Result VirtualNameError (Unit {0})
check_labels [] = ok tt
check_labels (label ∷ labels) = do fail_if (bad_label label) invalid; check_labels labels

abbrev pub virtual_suffix : Bytes
virtual_suffix = codes "virtual"

unfoldable pub validate_virtual_name : Bytes → Result VirtualNameError (Unit {0})
validate_virtual_name value = do
  fail_if ((length value == 0) || (ltb 253 (length value) || not (is_ascii value))) invalid
  let labels = split value
  fail_if (ltb (length labels) 2 || not (last_is virtual_suffix labels)) invalid
  check_labels labels
