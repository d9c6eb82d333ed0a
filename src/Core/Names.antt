-- ===== src/Core/Names.antt =====
-- The names that crates/weaver-core/src/lib.rs accepts.
use weaver.Core.{
  check_labels, split, all_bytes, bad_label, label_byte, dot, last_is, prepend, virtual_suffix,
  is_ascii, validate_virtual_name,
}
use weaver.Prelude.Results.{ok, fail_if-eq-ok}
use weaver.Core.Labels.{IsLabel, bad_label_iff, last_is_iff}
use weaver.Prelude.{
  codes, [], Bytes, List, ℕ, All, ◌∷◌, ◌≡◌, ◌≤◌, Bool-cases, false, length, ◌++◌, arith, refl, true,
  ◌==◌, &&-eq-true, inl, ◌∙◌, ap, ap₂, inr, sym, ==_iff, Bool, length-append, ltb, ◌||◌, ◌↔◌, not,
  subst,
}

-- Labels with dots between them.
unfoldable pub join : List Bytes → Bytes
join [] = []
join (label ∷ []) = label
join (label ∷ next ∷ labels) = label ++ b'.' ∷ join (next ∷ labels)

-- What makes a list of labels a name.
pub record IsName (labels : List Bytes) : Type 0 where
  pub two : 2 ≤ length labels
  pub suffix : (front : List Bytes) × (labels ≡ front ++ codes "virtual" ∷ [])
  pub good : All IsLabel labels
  pub short : length (join labels) ≤ 253

good_labels :
    (labels : List Bytes)
    → All (λ (label : Bytes). bad_label label ≡ false) labels
    → All IsLabel labels
good_labels [] a = tt
good_labels (label ∷ labels) a = ((bad_label_iff label).0 a.0, good_labels labels a.1)

labels_good :
    (labels : List Bytes)
    → All IsLabel labels
    → All (λ (label : Bytes). bad_label label ≡ false) labels
labels_good [] a = tt
labels_good (label ∷ labels) a = ((bad_label_iff label).1 a.0, labels_good labels a.1)

check_labels-All :
    (labels : List Bytes)
    → check_labels labels ≡ ok tt
    → All (λ (label : Bytes). bad_label label ≡ false) labels
unfolding check_labels
check_labels-All [] h = tt
check_labels-All (label ∷ labels) h =
    let (f, g) = fail_if-eq-ok (bad_label label) _ (check_labels labels) h in
    (f, check_labels-All labels g)

All-check_labels :
    (labels : List Bytes)
    → All (λ (label : Bytes). bad_label label ≡ false) labels
    → check_labels labels ≡ ok tt
unfolding check_labels
All-check_labels [] a = refl
All-check_labels (label ∷ labels) a = rw a.0 (All-check_labels labels a.1)

join-prepend :
    (b : ℕ) (labels : List Bytes) → 1 ≤ length labels → join (prepend b labels) ≡ b ∷ join labels
unfolding join
join-prepend b [] h = refl
join-prepend b (label ∷ []) h = refl
join-prepend b (label ∷ next ∷ labels) h = refl

join-empty : (labels : List Bytes) → 1 ≤ length labels → join ([] ∷ labels) ≡ dot ∷ join labels
unfolding join
join-empty [] h = absurd (omega arith)
join-empty (label ∷ labels) h = refl

length-prepend : (b : ℕ) (labels : List Bytes) → 1 ≤ length (prepend b labels)
length-prepend b [] = omega arith
length-prepend b (label ∷ labels) = omega arith

length-split : (bytes : Bytes) → 1 ≤ length (split bytes)
unfolding split
length-split [] = omega arith
length-split (b ∷ bytes) = elim (Bool-cases (b == dot)) [
  | inl t ↦ rw t (omega arith)
  | inr f ↦ rw f (length-prepend b (split bytes))
]

pub join-split : (bytes : Bytes) → join (split bytes) ≡ bytes
unfolding split
join-split [] = unfold join in refl
join-split (b ∷ bytes) = elim (Bool-cases (b == dot)) [
  | inl t ↦ rw t (
      join-empty (split bytes) (length-split bytes)
      ∙ ap₂ ◌∷◌ (sym ((==_iff b dot).0 t)) (join-split bytes))
  | inr f ↦ rw f (join-prepend b (split bytes) (length-split bytes) ∙ ap (◌∷◌ b) (join-split bytes))
]

-- A label of good bytes in front of a dot is what `split` cuts off.
split-label :
    (label rest : Bytes)
    → all_bytes label_byte label ≡ true
    → split (label ++ dot ∷ rest) ≡ label ∷ split rest
unfolding split
split-label [] rest h = refl
split-label (b ∷ label) rest h =
    let (p, q) = &&-eq-true (label_byte b) (all_bytes label_byte label) h in
    let n : (b == dot) ≡ false = ground arith in rw (n, split-label label rest q) refl

split-last : (label : Bytes) → all_bytes label_byte label ≡ true → split label ≡ label ∷ []
unfolding split
split-last [] h = refl
split-last (b ∷ label) h =
    let (p, q) = &&-eq-true (label_byte b) (all_bytes label_byte label) h in
    let n : (b == dot) ≡ false = ground arith in rw (n, split-last label q) refl

good_bytes : (label : Bytes) → bad_label label ≡ false → all_bytes label_byte label ≡ true
good_bytes label h = ground arith

pub split-join :
    (labels : List Bytes)
    → 1 ≤ length labels
    → All (λ (label : Bytes). bad_label label ≡ false) labels
    → split (join labels) ≡ labels
unfolding join
split-join [] h a = absurd (omega arith)
split-join (label ∷ []) h a = split-last label (good_bytes label a.0)
split-join (label ∷ next ∷ labels) h a =
    split-label label (join (next ∷ labels)) (good_bytes label a.0)
    ∙ ap (◌∷◌ label) (split-join (next ∷ labels) (omega arith) a.1)

abbrev ascii_byte : ℕ → Bool
ascii_byte b = ltb b 128

all_bytes-append :
    (p : ℕ → Bool) (x y : Bytes)
    → all_bytes p x ≡ true
    → all_bytes p y ≡ true
    → all_bytes p (x ++ y) ≡ true
all_bytes-append p [] y h k = k
all_bytes-append p (b ∷ x) y h k =
    let (u, v) = &&-eq-true (p b) (all_bytes p x) h in rw (u, all_bytes-append p x y v k) refl

ascii_label : (x : Bytes) → all_bytes label_byte x ≡ true → is_ascii x ≡ true
ascii_label [] h = refl
ascii_label (b ∷ x) h =
    let (u, v) = &&-eq-true (label_byte b) (all_bytes label_byte x) h in
    let w : ltb b 128 ≡ true = ground arith in rw (w, ascii_label x v) refl

ascii_join :
    (labels : List Bytes)
    → All (λ (label : Bytes). bad_label label ≡ false) labels
    → is_ascii (join labels) ≡ true
unfolding join
ascii_join [] a = refl
ascii_join (label ∷ []) a = ascii_label label (good_bytes label a.0)
ascii_join (label ∷ next ∷ labels) a =
    all_bytes-append ascii_byte label _ (ascii_label label (good_bytes label a.0))
      (ascii_join (next ∷ labels) a.1)

length-join : (labels : List Bytes) → 2 ≤ length labels → 1 ≤ length (join labels)
unfolding join
length-join [] h = absurd (omega arith)
length-join (label ∷ []) h = absurd (omega arith)
length-join (label ∷ next ∷ labels) h =
    omega (arith, length-append label (dot ∷ join (next ∷ labels)))

first_guard :
    (n : ℕ) (a : Bool) → 1 ≤ n → n ≤ 253 → a ≡ true → ((n == 0) || (ltb 253 n || not a)) ≡ false
first_guard n a l u h = ground arith

second_guard : (n : ℕ) (s : Bool) → 2 ≤ n → s ≡ true → (ltb n 2 || not s) ≡ false
second_guard n s l h = ground arith

passed_first : (n : ℕ) (a : Bool) → ((n == 0) || (ltb 253 n || not a)) ≡ false → n ≤ 253
passed_first n a h = ground arith

passed_second : (n : ℕ) (s : Bool) → (ltb n 2 || not s) ≡ false → (2 ≤ n) × (s ≡ true)
passed_second n s h = (ground arith, ground arith)

-- A string is a valid virtual name exactly if it is at least two labels with dots between them, the
-- last of them `virtual`, of at most 253 bytes altogether, where every label has 1 to 63 lower-case
-- letters, digits and hyphens and no hyphen at either end.
pub validate_virtual_name_iff :
    (value : Bytes)
    → (validate_virtual_name value ≡ ok tt)
      ↔ ((labels : List Bytes) × (value ≡ join labels) × IsName labels)
unfolding validate_virtual_name
validate_virtual_name_iff value = (accepted, complete)
  where
    accepted :
        validate_virtual_name value ≡ ok tt
        → (labels : List Bytes) × (value ≡ join labels) × IsName labels
    accepted h =
        let (g, h) = fail_if-eq-ok _ _ _ h in
        let (f, h) = fail_if-eq-ok _ _ _ h in
        let (t, s) = passed_second (length (split value)) _ f in
        let l = passed_first (length value) (is_ascii value) g in
        (
          split value,
          sym (join-split value),
          record {
            two = t;
            suffix = (last_is_iff virtual_suffix (split value)).0 s;
            good = good_labels (split value) (check_labels-All (split value) h);
            short = subst (λ x. length x ≤ 253) (sym (join-split value)) l;
          },
        )

    complete :
        ((labels : List Bytes) × (value ≡ join labels) × IsName labels)
        → validate_virtual_name value ≡ ok tt
    complete (labels, e, t) =
        let good = labels_good labels t.good in
        let suffix = (last_is_iff virtual_suffix labels).1 t.suffix in
        rw
          (
            e,
            first_guard (length (join labels)) (is_ascii (join labels)) (length-join labels t.two)
                t.short (ascii_join labels good),
            split-join labels (omega (arith, t.two)) good,
            second_guard (length labels) (last_is virtual_suffix labels) t.two suffix,
          )
          (All-check_labels labels good)
