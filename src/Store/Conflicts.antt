-- ===== src/Store/Conflicts.antt =====
-- Lost updates are refused by the versions of crates/weaver-store/src/lib.rs.
use weaver.Store.{
  BatchOperation, VersionedBytes, AtomicBatch, StoreScope, ExpectedVersion, expected_of, key_of,
  StoreError,
}
use weaver.Store.Memory.{apply, read, apply_one, MemoryState, at, version_at, commit, version_of}
use weaver.Store.Commit.{committed, commit_cases, commit-ok}
use weaver.Store.Applied.{AllHold, Holds, IsMet}
use weaver.Store.Fresh.{IsFresh, apply_one-next}
use weaver.Store.Reads.{find_op, read-apply_other}
use weaver.Store.Batch.{Distinct, IsBatch, has_op}
use weaver.Store.Records.{Records, get-insert}
use weaver.Prelude.Results.{ok, err}
use weaver.Prelude.{
  [], some, ℕ, ◌≡◌, Option, Bytes, List, ◌+◌, length, ◌<◌, arith, ◌^◌, ◌∷◌, Bool-cases, ◌≤◌,
  bytes_eq, inl, sym, ◌∙◌, subst, ap, inr, bytes_eq_sound, false, refl,
}

version_injective : (m n : ℕ) → ◌≡◌ {A = Option ℕ} (some m) (some n) → m ≡ n
version_injective m n h = cc

some_op : {x y : BatchOperation} → ◌≡◌ {A = Option BatchOperation} (some x) (some y) → x ≡ y
some_op h = cc

read_put :
    (scope : StoreScope) (st : MemoryState) (key value : Bytes) (expected : ExpectedVersion)
    → read (apply_one scope (BatchOperation.put key value expected) st) scope key
      ≡ some (record { version = st.next_record_version; bytes = value })
unfolding read apply_one
read_put scope st key value expected = get-insert st.records (at scope key) _

-- A precondition on a version that the record no longer has does not hold.
moved :
    (old : VersionedBytes) (now : ℕ) {actual : Option ℕ}
    → IsMet (ExpectedVersion.exact old.version) actual
    → actual ≡ some now
    → old.version < now
    → ⊥
unfolding IsMet
moved old now h e l = omega (arith, version_injective old.version now (sym h ∙ e))

version_after_put :
    (scope : StoreScope) (ops : List BatchOperation) (st : MemoryState) (key value : Bytes)
    (expected : ExpectedVersion)
    → Distinct ops
    → st.next_record_version + length ops < 2 ^ 64
    → find_op key ops ≡ some (BatchOperation.put key value expected)
    → (w : VersionedBytes) × (read (apply scope ops st) scope key ≡ some w)
      × (st.next_record_version ≤ w.version)
unfolding apply find_op Distinct
version_after_put scope [] st key value expected d r h = cc
version_after_put scope (op ∷ ops) st key value expected d r h =
    elim (Bool-cases (bytes_eq key (key_of op))) [
      | inl t ↦
          let e : op ≡ BatchOperation.put key value expected = some_op (sym (rw t refl) ∙ h) in
          (
            record { version = st.next_record_version; bytes = value },
            read-apply_other scope ops (apply_one scope op st) scope key (
                  inr (
                    subst (λ k. has_op k ops ≡ false) (sym (bytes_eq_sound key (key_of op) t)) d.0))
                ∙ ap (λ o. read (apply_one scope o st) scope key) e
                ∙ read_put scope st key value expected,
            omega arith,
          )
      | inr f ↦
          let (l, u) = apply_one-next scope op st (omega arith) in
          let (w, e, m) =
            version_after_put scope ops (apply_one scope op st) key value expected d.1 (omega arith)
              (sym (rw f refl) ∙ h) in
          (w, e, omega arith)
    ]

holds_of :
    (records : Records) (scope : StoreScope) (key : Bytes) (op : BatchOperation)
    (ops : List BatchOperation)
    → AllHold records scope ops
    → find_op key ops ≡ some op
    → IsMet (expected_of op) (version_at records scope key)
unfolding AllHold find_op
holds_of records scope key op [] a h = cc
holds_of records scope key op (o ∷ ops) a h = elim (Bool-cases (bytes_eq key (key_of o))) [
  | inl t ↦
      let e : o ≡ op = some_op (sym (rw t refl) ∙ h) in
      subst (λ k. IsMet (expected_of op) (version_at records scope k))
        (ap key_of (sym e) ∙ sym (bytes_eq_sound key (key_of o) t))
        (subst (λ x. Holds records scope x) e a.0)
  | inr f ↦ holds_of records scope key op ops a.1 (sym (rw f refl) ∙ h)
]

-- A writer has read a record's version in a state where every stored version is below the next one.
-- If another batch with one operation for each key and a `put` on that record is then committed,
-- without running out of versions below 2^64, a late batch of the same scope whose operation on
-- that key expects exactly the version read fails and changes nothing.
pub late_commit :
    (b late : AtomicBatch) (st : MemoryState) (key value : Bytes) (expected : ExpectedVersion)
    (old : VersionedBytes) (op : BatchOperation) {v : ℕ} {st' : MemoryState}
    → IsFresh st
    → st.next_record_version + length b.operations < 2 ^ 64
    → IsBatch b
    → read st b.scope key ≡ some old
    → find_op key b.operations ≡ some (BatchOperation.put key value expected)
    → commit b st ≡ (ok v, st')
    → late.scope ≡ b.scope
    → find_op key late.operations ≡ some op
    → expected_of op ≡ ExpectedVersion.exact old.version
    → (e : StoreError) × (commit late st' ≡ (err e, st'))
unfolding IsFresh committed read
late_commit b late st key value expected old op {v} {st'} fresh r i h f c same g x =
    elim (commit_cases late st') [
      | inl (a, e) ↦
          let (w, q, m) =
            version_after_put b.scope b.operations st key value expected i.distinct r f in
          let n = fresh b.scope key old h in
          let z = holds_of st'.records late.scope key op late.operations a g in
          absurd (
            moved old w.version (subst (λ o. IsMet o (version_at st'.records late.scope key)) x z)
              (ap (λ s. version_at st'.records s key) same
                ∙ ap (λ (s : MemoryState). version_at s.records b.scope key) (commit-ok b st c).1
                ∙ ap version_of q)
              (omega (arith, n, m)))
      | inr (e, k, y) ↦ (e, y)
    ]
