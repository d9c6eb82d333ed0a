-- ===== src/Store/Batch.antt =====
-- The keys of a batch of crates/weaver-store/src/lib.rs, whatever calls built it.
use weaver.Store.{
  AtomicBatch, add_put, has_key, new_batch, BatchOperation, StoreScope, insert_unique,
  ExpectedVersion, key_of, max_value_len, duplicate_batch_key,
}
use weaver.Prelude.Results.{err, ok}
use weaver.Prelude.{
  Bytes, List, bytes_eq, length, ◌≡◌, Bool, false, ◌++◌, ◌∷◌, ◌≤◌, Bool-cases, [], refl, ◌||◌, ap,
  arith, inl, ltb, true, ||-eq-false, ◌∙◌, ap₂, sym, bytes_eq_sound, bytes_eq_self, inr,
}

unfoldable pub has_op : Bytes → List BatchOperation → Bool
has_op key [] = false
has_op key (op ∷ ops) = bytes_eq key (key_of op) || has_op key ops

-- No two operations have the same key.
unfoldable pub Distinct : List BatchOperation → Type 0
Distinct [] = Unit
Distinct (op ∷ ops) = (has_op (key_of op) ops ≡ false) × Distinct ops

-- The set of keys is the keys of the operations, and each key has one operation.
pub record IsBatch (b : AtomicBatch) : Type 0 where
  pub keys : (key : Bytes) → has_key key b.keys ≡ has_op key b.operations
  pub distinct : Distinct b.operations

has_op-snoc :
    (key : Bytes) (ops : List BatchOperation) (op : BatchOperation)
    → has_op key (ops ++ op ∷ []) ≡ bytes_eq key (key_of op) || has_op key ops
unfolding has_op
has_op-snoc key [] op = refl
has_op-snoc key (o ∷ ops) op = ground (arith, has_op-snoc key ops op)

bytes_eq_swapped : (x y : Bytes) → bytes_eq x y ≡ false → bytes_eq y x ≡ false
bytes_eq_swapped x y h = elim (Bool-cases (bytes_eq y x)) [
  | inl e ↦ let p = bytes_eq_sound y x e in let s = bytes_eq_self y in cc
  | inr e ↦ e
]

Distinct-snoc :
    (ops : List BatchOperation) (op : BatchOperation)
    → has_op (key_of op) ops ≡ false
    → Distinct ops
    → Distinct (ops ++ op ∷ [])
unfolding Distinct has_op
Distinct-snoc [] op h d = (refl, tt)
Distinct-snoc (o ∷ ops) op h d =
    let (n, h) = ||-eq-false _ _ h in
    (
      has_op-snoc (key_of o) ops op ∙ ap₂ ◌||◌ (bytes_eq_swapped (key_of op) (key_of o) n) d.0,
      Distinct-snoc ops op h d.1,
    )

snoc-IsBatch :
    (b : AtomicBatch) (op : BatchOperation)
    → IsBatch b
    → has_key (key_of op) b.keys ≡ false
    → IsBatch (record b { keys = key_of op ∷ b.keys; operations = b.operations ++ op ∷ [] })
unfolding has_key
snoc-IsBatch b op i h = record {
  keys = λ key.
      ap (◌||◌ (bytes_eq key (key_of op))) (i.keys key) ∙ sym (has_op-snoc key b.operations op);
  distinct = Distinct-snoc b.operations op (sym (i.keys (key_of op)) ∙ h) i.distinct;
}

new_batch-IsBatch : (scope : StoreScope) → IsBatch (new_batch scope)
unfolding new_batch has_key has_op Distinct
new_batch-IsBatch scope = record { keys = λ key. refl; distinct = tt }

fits : (value : Bytes) → length value ≤ max_value_len → ltb max_value_len (length value) ≡ false
fits value l = ground arith

-- A `put` with a value of at most 16 MiB succeeds exactly on a key that the batch does not have,
-- and then the batch has one operation for each of its keys, as before, the new one last.
pub add_put-IsBatch :
    (b : AtomicBatch) (key value : Bytes) (expected : ExpectedVersion)
    → IsBatch b
    → length value ≤ max_value_len
    → (has_op key b.operations ≡ true
        → add_put b key value expected ≡ err (duplicate_batch_key key))
      × (has_op key b.operations ≡ false
          → (b' : AtomicBatch) × (add_put b key value expected ≡ ok b')
            × (b'.scope ≡ b.scope)
            × (b'.operations ≡ b.operations ++ BatchOperation.put key value expected ∷ [])
            × IsBatch b')
unfolding add_put insert_unique
add_put-IsBatch b key value expected i l = (
  λ h. rw (fits value l, i.keys key, h) refl,
  λ h. (
    _,
    rw (fits value l, i.keys key, h) refl,
    refl,
    refl,
    snoc-IsBatch b (BatchOperation.put key value expected) i (i.keys key ∙ h),
  ),
)
