-- ===== src/Store/Reads.antt =====
-- What reads see after a commit of crates/weaver-store/src/lib.rs.
use weaver.Store.Batch.{has_op, Distinct, IsBatch}
use weaver.Store.{StoreScope, BatchOperation, VersionedBytes, key_of, AtomicBatch}
use weaver.Store.Memory.{apply, apply_one, MemoryState, read, at, commit}
use weaver.Store.Records.{get-insert, get-insert_other, get-remove, get-remove_other, RecordKey}
use weaver.Store.Commit.{committed, commit-ok}
use weaver.Prelude.Results.{ok}
use weaver.Prelude.{
  bytes_eq_differs, [], none, some, Bytes, Option, List, bytes_eq, ◌∷◌, ◌≡◌, Bool-cases, false,
  if◌then◌else◌, ◌≢◌, arith, bytes_eq_self, inl, ◌⊎◌, bytes_eq_sound, refl, ◌∙◌, ap, inr,
  ||-eq-false, ℕ,
}

-- The operation of a batch on a key.
unfoldable pub find_op : Bytes → List BatchOperation → Option BatchOperation
find_op key [] = none
find_op key (op ∷ ops) = if bytes_eq key (key_of op) then some op else find_op key ops

abbrev pub bytes_of : Option VersionedBytes → Option Bytes
bytes_of none = none
bytes_of (some value) = some value.bytes

-- What a key holds after an operation on it, from what it held before.
abbrev pub outcome : Option BatchOperation → Option Bytes → Option Bytes
outcome none before = before
outcome (some (BatchOperation.put key value expected)) before = some value
outcome (some (BatchOperation.delete key expected)) before = none

find_op-none :
    (key : Bytes) (ops : List BatchOperation) → has_op key ops ≡ false → find_op key ops ≡ none
unfolding find_op has_op
find_op-none key [] h = refl
find_op-none key (op ∷ ops) h = ground (arith, find_op-none key ops)

module _ (scope : StoreScope) where
  pub read-apply_one :
      (op : BatchOperation) (st : MemoryState)
      → bytes_of (read (apply_one scope op st) scope (key_of op))
        ≡ outcome (some op) (bytes_of (read st scope (key_of op)))
  unfolding apply_one read
  read-apply_one (BatchOperation.put key value expected) st =
      rw (get-insert st.records (at scope key) _)
  read-apply_one (BatchOperation.delete key expected) st = rw (get-remove st.records (at scope key))

  pub read-apply_one_other :
      (op : BatchOperation) (st : MemoryState) (s : StoreScope) (key : Bytes)
      → at s key ≢ at scope (key_of op)
      → read (apply_one scope op st) s key ≡ read st s key
  unfolding apply_one read
  read-apply_one_other (BatchOperation.put k value expected) st s key d =
      get-insert_other st.records (at scope k) _ (at s key) d
  read-apply_one_other (BatchOperation.delete k expected) st s key d =
      get-remove_other st.records (at scope k) (at s key) d

  -- A key that no operation of the batch has, or that is in another scope, keeps its value.
  pub read-apply_other :
      (ops : List BatchOperation) (st : MemoryState) (s : StoreScope) (key : Bytes)
      → ((s ≢ scope) ⊎ (has_op key ops ≡ false))
      → read (apply scope ops st) s key ≡ read st s key
  unfolding apply has_op
  read-apply_other [] st s key h = refl
  read-apply_other (op ∷ ops) st s key (inl d) =
      read-apply_other ops (apply_one scope op st) s key (inl d)
      ∙ read-apply_one_other op st s key (λ e. d (ap (λ (k : RecordKey). k.scope) e))
  read-apply_other (op ∷ ops) st s key (inr h) =
      let (n, h) = ||-eq-false _ _ h in
      read-apply_other ops (apply_one scope op st) s key (inr h)
      ∙ read-apply_one_other op st s key
          (λ e. bytes_eq_differs key (key_of op) n (ap (λ (k : RecordKey). k.key) e))

  read-apply :
      (ops : List BatchOperation) (st : MemoryState) (key : Bytes)
      → Distinct ops
      → bytes_of (read (apply scope ops st) scope key)
        ≡ outcome (find_op key ops) (bytes_of (read st scope key))
  unfolding apply find_op Distinct
  read-apply [] st key d = refl
  read-apply (op ∷ ops) st key d = elim (Bool-cases (bytes_eq key (key_of op))) [
    | inl t ↦
        let e = bytes_eq_sound key (key_of op) t in
        rw (e, bytes_eq_self (key_of op))
          (ap bytes_of (read-apply_other ops (apply_one scope op st) scope (key_of op) (inr d.0))
            ∙ read-apply_one op st)
    | inr f ↦ rw f (
        read-apply ops (apply_one scope op st) key d.1
        ∙ ap (λ v. outcome (find_op key ops) (bytes_of v))
            (read-apply_one_other op st scope key
              (λ e. bytes_eq_differs key (key_of op) f (ap (λ (k : RecordKey). k.key) e))))
  ]

-- After a successful commit of a batch that its builder made, each key of the batch's scope holds
-- the value of the batch's `put` on it, nothing if the batch deletes it, and otherwise what it held
-- before; records of other scopes are the same, with their versions.
pub read-commit :
    (b : AtomicBatch) (st : MemoryState) (key : Bytes) {v : ℕ} {st' : MemoryState}
    → IsBatch b
    → commit b st ≡ (ok v, st')
    → (bytes_of (read st' b.scope key)
        ≡ outcome (find_op key b.operations) (bytes_of (read st b.scope key)))
      × ((s : StoreScope) → s ≢ b.scope → read st' s key ≡ read st s key)
unfolding committed read
read-commit b st key i h =
    let (a, e) = commit-ok b st h in
    rw e (
      read-apply b.scope b.operations st key i.distinct,
      λ s d. read-apply_other b.scope b.operations st s key (inl d),
    )
