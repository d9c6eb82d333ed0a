-- ===== src/Tests/Storing.antt =====
-- Batches on a fresh store: a first write, a second that expects its version, and a late one that
-- expects the same version.
use weaver.Prelude.{
  [], some, Bytes, ℕ, ◌∷◌, ◌≡◌, subst, true, ◌+◌, ap, arith, length, refl, ◌<◌, ◌≢◌, ◌⊎◌, false,
  ◌^◌, ◌++◌, ◌%◌,
}
use weaver.Store.Fresh
use weaver.Store.Conflicts
use weaver.Store.Reads
use weaver.Store.Commit
use weaver.Store.Batch
use weaver.Store.{
  AtomicBatch, StoreError, StoreScope, has_key, ExpectedVersion, member_scope, BatchOperation,
  add_put, duplicate_batch_key,
}
use weaver.Store.Memory.{
  commit, new_store, read, MemoryState, check, with_schema_version, apply, at, apply_one, is_valid,
}
use weaver.Store.Fresh.{IsFresh, new_store-IsFresh}
use weaver.Store.Reads.{bytes_of, outcome, find_op}
use weaver.Store.Applied.{AllHold, Conflict, Applied}
use weaver.Store.Batch.{has_op, Distinct, IsBatch}
use weaver.Store.Secrets.{Secrets, seal, open_secret, already_exists_different, not_found}
use weaver.Store.Records.{get, key_eq, scope_eq, insert}
use weaver.Prelude.Results.{err, ok}
use weaver.Store.Secrets

-- A store that has another secret under the identifier.
abbrev held_secrets : Secrets
held_secrets = (1 ∷ [], 9 ∷ []) ∷ []

abbrev scope : StoreScope
scope = member_scope (7 ∷ [])

abbrev key : Bytes
key = 104 ∷ 101 ∷ []

abbrev write : Bytes → ExpectedVersion → AtomicBatch
write value expected = record {
  scope = scope;
  operations = BatchOperation.put key value expected ∷ [];
  keys = key ∷ [];
}

abbrev first : AtomicBatch
first = write (1 ∷ []) ExpectedVersion.missing

abbrev second : AtomicBatch
second = write (2 ∷ []) (ExpectedVersion.exact 1)

abbrev late : AtomicBatch
late = write (3 ∷ []) (ExpectedVersion.exact 1)

abbrev holding : ℕ → ℕ → Bytes → MemoryState
holding next version value = record {
  schema_version = 1;
  next_record_version = next;
  next_commit_version = next;
  records = (at scope key, record { version = version; bytes = value }) ∷ [];
}

first_committed : commit first new_store ≡ (ok 1, holding 2 1 (1 ∷ []))
unfolding commit check apply apply_one insert get is_valid new_store with_schema_version
first_committed = refl

second_committed : commit second (holding 2 1 (1 ∷ [])) ≡ (ok 2, holding 3 2 (2 ∷ []))
unfolding commit check apply apply_one insert get is_valid key_eq scope_eq
second_committed = refl

write-IsBatch : (value : Bytes) (expected : ExpectedVersion) → IsBatch (write value expected)
unfolding has_key has_op Distinct
write-IsBatch value expected = record { keys = λ k. refl; distinct = (refl, tt) }

new-IsFresh : IsFresh new_store
unfolding new_store
new-IsFresh = new_store-IsFresh 1

new_room : new_store.next_record_version + length first.operations < 2 ^ 64
unfolding new_store with_schema_version
new_room = omega arith

commit-IsFresh_example : IsFresh (commit first new_store).1
commit-IsFresh_example = Fresh.commit-IsFresh first new_store new-IsFresh new_room

held-IsFresh : IsFresh (holding 2 1 (1 ∷ []))
held-IsFresh =
    subst IsFresh (ap (λ r. r.1) first_committed)
      (Fresh.commit-IsFresh first new_store new-IsFresh new_room)

held : read (holding 2 1 (1 ∷ [])) scope key ≡ some (record { version = 1; bytes = 1 ∷ [] })
unfolding read get key_eq scope_eq
held = refl

late_commit_example :
    (e : StoreError) × (commit late (holding 3 2 (2 ∷ [])) ≡ (err e, holding 3 2 (2 ∷ [])))
late_commit_example =
    Conflicts.late_commit second late (holding 2 1 (1 ∷ [])) key (2 ∷ []) (ExpectedVersion.exact 1)
      (record { version = 1; bytes = 1 ∷ [] })
      (BatchOperation.put key (3 ∷ []) (ExpectedVersion.exact 1)) held-IsFresh (omega arith)
      (write-IsBatch (2 ∷ []) (ExpectedVersion.exact 1)) held (unfold find_op in refl)
      second_committed refl (unfold find_op in refl) refl

read-commit_example :
    (bytes_of (read (holding 2 1 (1 ∷ [])) scope key)
      ≡ outcome (find_op key first.operations) (bytes_of (read new_store scope key)))
    × ((s : StoreScope) → s ≢ scope → read (holding 2 1 (1 ∷ [])) s key ≡ read new_store s key)
read-commit_example =
    Reads.read-commit first new_store key (write-IsBatch (1 ∷ []) ExpectedVersion.missing)
      first_committed

commit_all_or_nothing_example :
    (AllHold (holding 2 1 (1 ∷ [])).records scope second.operations
      × ((after : MemoryState) × Applied scope second.operations (holding 2 1 (1 ∷ [])) after
          × (commit second (holding 2 1 (1 ∷ []))
              ≡ (ok 2, record after { next_commit_version = (2 + 1) % 2 ^ 64 }))))
    ⊎ ((e : StoreError) × Conflict (holding 2 1 (1 ∷ [])).records scope second.operations e
        × (commit second (holding 2 1 (1 ∷ [])) ≡ (err e, holding 2 1 (1 ∷ []))))
commit_all_or_nothing_example = Commit.commit_all_or_nothing second (holding 2 1 (1 ∷ []))

add_put-IsBatch_example :
    (has_op key first.operations ≡ true
      → add_put first key (5 ∷ []) ExpectedVersion.any ≡ err (duplicate_batch_key key))
    × (has_op key first.operations ≡ false
        → (b' : AtomicBatch) × (add_put first key (5 ∷ []) ExpectedVersion.any ≡ ok b')
          × (b'.scope ≡ scope)
          × (b'.operations
              ≡ first.operations ++ BatchOperation.put key (5 ∷ []) ExpectedVersion.any ∷ [])
          × IsBatch b')
add_put-IsBatch_example =
    Batch.add_put-IsBatch first key (5 ∷ []) ExpectedVersion.any
      (write-IsBatch (1 ∷ []) ExpectedVersion.missing) (omega arith)

open_secret-seal_example :
    ((open_secret held_secrets (1 ∷ []) ≡ err not_found)
      × ((seal (1 ∷ []) (8 ∷ []) held_secrets).0 ≡ ok tt)
      × (open_secret (seal (1 ∷ []) (8 ∷ []) held_secrets).1 (1 ∷ []) ≡ ok (8 ∷ []))
      × (seal (1 ∷ []) (8 ∷ []) (seal (1 ∷ []) (8 ∷ []) held_secrets).1
          ≡ (ok tt, (seal (1 ∷ []) (8 ∷ []) held_secrets).1))
      × ((other : Bytes)
          → other ≢ 1 ∷ []
          → open_secret (seal (1 ∷ []) (8 ∷ []) held_secrets).1 other
            ≡ open_secret held_secrets other))
    ⊎ (((open_secret held_secrets (1 ∷ []) ≡ ok (8 ∷ []))
          × (seal (1 ∷ []) (8 ∷ []) held_secrets ≡ (ok tt, held_secrets)))
        ⊎ ((existing : Bytes) × (open_secret held_secrets (1 ∷ []) ≡ ok existing)
            × (existing ≢ 8 ∷ [])
            × (seal (1 ∷ []) (8 ∷ []) held_secrets ≡ (err already_exists_different, held_secrets))))
open_secret-seal_example = Secrets.open_secret-seal (1 ∷ []) (8 ∷ []) held_secrets
