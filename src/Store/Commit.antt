-- ===== src/Store/Commit.antt =====
-- What a commit of crates/weaver-store/src/lib.rs does: all of a batch, or nothing.
use weaver.Store.{StoreScope, BatchOperation, StoreError, expected_of, key_of, AtomicBatch}
use weaver.Prelude.{
  [], List, Bool, ◌∷◌, ◌≡◌, inl, inr, refl, subst, ◌+◌, ◌⊎◌, ◌%◌, ◌^◌, ℕ, ap, sym, ◌∙◌,
}
use weaver.Store.Memory.{check, is_valid, version_at, commit, MemoryState, apply}
use weaver.Prelude.Results.{err, ok, guard_not, err-injective, Result-cases}
use weaver.Store.Records.{Records}
use weaver.Store.Applied.{AllHold, Conflict, is_valid_iff, Applied, apply-Applied, Applied-commits}

module _ (records : Records) (scope : StoreScope) where
  abbrev valid : BatchOperation → Bool
  valid op = is_valid (expected_of op) (version_at records scope (key_of op))

  check-AllHold :
      (ops : List BatchOperation) → check records scope ops ≡ ok tt → AllHold records scope ops
  unfolding check AllHold
  check-AllHold [] h = tt
  check-AllHold (op ∷ ops) h = elim (guard_not (valid op) _ (check records scope ops) h) [
    | inl (t, h) ↦ ((is_valid_iff _ _).0 t, check-AllHold ops h)
    | inr (f, h) ↦ cc
  ]

  AllHold-check :
      (ops : List BatchOperation) → AllHold records scope ops → check records scope ops ≡ ok tt
  unfolding check AllHold
  AllHold-check [] a = refl
  AllHold-check (op ∷ ops) a = rw ((is_valid_iff _ _).1 a.0) (AllHold-check ops a.1)

  check-Conflict :
      (ops : List BatchOperation) (e : StoreError)
      → check records scope ops ≡ err e
      → Conflict records scope ops e
  unfolding check
  check-Conflict [] e h = cc
  check-Conflict (op ∷ ops) e h = elim (guard_not (valid op) _ (check records scope ops) h) [
    | inl (t, h) ↦ Conflict.later op ops e ((is_valid_iff _ _).0 t) (check-Conflict ops e h)
    | inr (f, h) ↦
        subst (Conflict records scope (op ∷ ops)) (err-injective h)
          (Conflict.here op ops (λ m. let t = (is_valid_iff _ _).1 m in cc))
  ]

-- The state that a successful commit leaves.
unfoldable pub committed : AtomicBatch → MemoryState → MemoryState
committed b st =
    let after = apply b.scope b.operations st in
    record after { next_commit_version = (after.next_commit_version + 1) % 2 ^ 64 }

pub commit_cases :
    (b : AtomicBatch) (st : MemoryState)
    → (AllHold st.records b.scope b.operations
        × (commit b st ≡ (ok (apply b.scope b.operations st).next_commit_version, committed b st)))
      ⊎ ((e : StoreError) × Conflict st.records b.scope b.operations e
          × (commit b st ≡ (err e, st)))
unfolding commit committed
commit_cases b st = elim (Result-cases (check st.records b.scope b.operations)) [
  | inl (u, h) ↦ inl (check-AllHold _ _ _ h, rw (h, commit) refl)
  | inr (e, h) ↦ inr (e, check-Conflict _ _ _ e h, rw (h, commit) refl)
]

pub AllHold-commit :
    (b : AtomicBatch) (st : MemoryState)
    → AllHold st.records b.scope b.operations
    → commit b st ≡ (ok (apply b.scope b.operations st).next_commit_version, committed b st)
unfolding commit committed
AllHold-commit b st a = rw (AllHold-check _ _ _ a, commit) refl

-- What a successful commit has done.
pub commit-ok :
    (b : AtomicBatch) (st : MemoryState) {v : ℕ} {st' : MemoryState}
    → commit b st ≡ (ok v, st')
    → AllHold st.records b.scope b.operations × (st' ≡ committed b st)
commit-ok b st h = elim (commit_cases b st) [
  | inl (a, e) ↦ (a, ap (λ r. r.1) (sym h ∙ e))
  | inr (e, c, f) ↦ let g = ap (λ r. r.0) (sym h ∙ f) in cc
]

-- A commit succeeds exactly if the precondition of every operation holds in the state before the
-- batch. It then returns the commit version of that state and leaves the state that comes from it by
-- carrying out all operations in order, with the next commit version: a `put` sets the record under
-- its key to its value with the next record version, a `delete` removes the record, and all else
-- stays. Otherwise it leaves the state as it was, with the error of the first operation that fails.
pub commit_all_or_nothing :
    (b : AtomicBatch) (st : MemoryState)
    → (AllHold st.records b.scope b.operations
        × ((after : MemoryState) × Applied b.scope b.operations st after
            × (commit b st ≡ (
              ok st.next_commit_version,
              record after { next_commit_version = (st.next_commit_version + 1) % 2 ^ 64 },
            ))))
      ⊎ ((e : StoreError) × Conflict st.records b.scope b.operations e
          × (commit b st ≡ (err e, st)))
unfolding committed
commit_all_or_nothing b st = elim (commit_cases b st) [
  | inl (a, h) ↦
      let r = apply-Applied b.scope b.operations st in
      let same = Applied-commits b.scope b.operations st _ r in
      inl (a, (apply b.scope b.operations st, r, rw same at h))
  | inr c ↦ inr c
]
