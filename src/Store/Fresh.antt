-- ===== src/Store/Fresh.antt =====
-- Record versions of crates/weaver-store/src/lib.rs are never given twice, so that a write that
-- expects a version it has read fails if another write came between.
use weaver.Store.Memory.{
  MemoryState, apply, apply_one, with_schema_version, read, at, version_of, commit,
}
use weaver.Store.{StoreScope, BatchOperation, VersionedBytes, ExpectedVersion, key_of, AtomicBatch}
use weaver.Store.Records.{get, key_eq, RecordKey, key_eq_sound, get-insert, key_eq_differs}
use weaver.Store.Reads.{read-apply_one, bytes_of, read-apply_one_other}
use weaver.Store.Commit.{committed, commit_cases}
use weaver.Prelude.{
  [], some, ℕ, Bytes, List, ◌+◌, ◌≡◌, Option, length, ◌<◌, ◌^◌, Bool-cases, ◌≤◌, ap, arith, inl,
  subst, ◌∷◌, sym, inr, ◌∙◌,
}

-- Every stored version is below the next one.
unfoldable pub IsFresh : MemoryState → Type 0
IsFresh st =
    (s : StoreScope) (key : Bytes) (v : VersionedBytes)
    → read st s key ≡ some v
    → v.version < st.next_record_version

pub new_store-IsFresh : (schema_version : ℕ) → IsFresh (with_schema_version schema_version)
unfolding IsFresh with_schema_version read get
new_store-IsFresh schema_version s key v h = cc

some_injective : (m n : ℕ) → ◌≡◌ {A = Option ℕ} (some m) (some n) → m ≡ n
some_injective m n h = cc

pub apply_one-next :
    (scope : StoreScope) (op : BatchOperation) (st : MemoryState)
    → st.next_record_version + 1 < 2 ^ 64
    → (st.next_record_version ≤ (apply_one scope op st).next_record_version)
      × ((apply_one scope op st).next_record_version ≤ st.next_record_version + 1)
unfolding apply_one
apply_one-next scope (BatchOperation.put key value expected) st h = (omega arith, omega arith)
apply_one-next scope (BatchOperation.delete key expected) st h = (omega arith, omega arith)

module _ (scope : StoreScope) (st : MemoryState) (fresh : IsFresh st)
    (room : st.next_record_version + 1 < 2 ^ 64) where
  put_version :
      (key value : Bytes) (expected : ExpectedVersion) {v : VersionedBytes}
      → read (apply_one scope (BatchOperation.put key value expected) st) scope key ≡ some v
      → v.version < (apply_one scope (BatchOperation.put key value expected) st).next_record_version
  unfolding apply_one read
  put_version key value expected h =
      let e = ap version_of (sym (get-insert st.records (at scope key) _) ∙ h) in
      omega (arith, some_injective _ _ e)

  same_version :
      (op : BatchOperation) (s : StoreScope) (key : Bytes) {v : VersionedBytes}
      → at s key ≡ at scope (key_of op)
      → read (apply_one scope op st) s key ≡ some v
      → v.version < (apply_one scope op st).next_record_version
  same_version (BatchOperation.put k value expected) s key {v} e h = put_version k value expected (
      subst
        (λ (q : RecordKey).
          read (apply_one scope (BatchOperation.put k value expected) st) q.scope q.key ≡ some v)
        e h)
  same_version (BatchOperation.delete k expected) s key {v} e h =
      let g = read-apply_one scope (BatchOperation.delete k expected) st in
      let f = ap bytes_of (
        subst
          (λ (q : RecordKey).
            read (apply_one scope (BatchOperation.delete k expected) st) q.scope q.key ≡ some v)
          e h) in
      cc

  apply_one-IsFresh : (op : BatchOperation) → IsFresh (apply_one scope op st)
  unfolding IsFresh
  apply_one-IsFresh op s key v h = elim (Bool-cases (key_eq (at s key) (at scope (key_of op)))) [
    | inl t ↦ same_version op s key (key_eq_sound _ _ t) h
    | inr f ↦
        let (l, u) = apply_one-next scope op st room in
        let d = key_eq_differs _ _ f in
        let o = fresh s key v (sym (read-apply_one_other scope op st s key d) ∙ h) in omega arith
  ]

pub apply-IsFresh :
    (scope : StoreScope) (ops : List BatchOperation) (st : MemoryState)
    → IsFresh st
    → st.next_record_version + length ops < 2 ^ 64
    → IsFresh (apply scope ops st)
      × (st.next_record_version ≤ (apply scope ops st).next_record_version)
unfolding apply
apply-IsFresh scope [] st f r = (f, omega arith)
apply-IsFresh scope (op ∷ ops) st f r =
    let (l, u) = apply_one-next scope op st (omega arith) in
    let (g, m) =
      apply-IsFresh scope ops (apply_one scope op st)
        (apply_one-IsFresh scope st f (omega arith) op) (omega arith) in
    (g, omega arith)

-- If every stored version is below the next one, it is so after a commit too, successful or not,
-- provided that the next version and the number of operations stay below 2^64.
pub commit-IsFresh :
    (b : AtomicBatch) (st : MemoryState)
    → IsFresh st
    → st.next_record_version + length b.operations < 2 ^ 64
    → IsFresh (commit b st).1
unfolding IsFresh committed read
commit-IsFresh b st f r = elim (commit_cases b st) [
  | inl (a, e) ↦ subst IsFresh (sym (ap (λ t. t.1) e)) (apply-IsFresh b.scope b.operations st f r).0
  | inr (e, c, h) ↦ subst IsFresh (sym (ap (λ t. t.1) h)) f
]
