-- ===== src/Store/Memory.antt =====
-- `MemoryStateStore` of crates/weaver-store/src/lib.rs. The mutex around `MemoryState` makes each
-- operation one step of the state.
use weaver.Store.{
  AtomicBatch, ExpectedVersion, StoreScope, current_schema_version, BatchOperation, StoreError,
  StoredEntry, VersionedBytes, expected_of, schema_too_new, key_of, version_conflict,
}
use weaver.Store.Records.{Records, scope_eq, RecordKey, get, insert, remove}
use weaver.Prelude.Results.{Result, ok, ◌>>◌, fail_if, err}
use weaver.Prelude.{
  none, Bytes, ℕ, Bool, List, Option, [], true, ◌+◌, ◌∷◌, false, if◌then◌else◌, some, ◌%◌, ltb, not,
  ◌&&◌, ◌==◌, ◌^◌, starts_with,
}

pub record MemoryState : Type 0 where
  pub schema_version : ℕ
  pub next_record_version : ℕ
  pub next_commit_version : ℕ
  pub records : Records

-- `MemoryStateStore::with_schema_version`
unfoldable pub with_schema_version : ℕ → MemoryState
with_schema_version schema_version = record {
  schema_version = schema_version;
  next_record_version = 1;
  next_commit_version = 1;
  records = [];
}

unfoldable pub new_store : MemoryState
new_store = with_schema_version current_schema_version

-- The key of a record in its scope.
abbrev pub at : StoreScope → Bytes → RecordKey
at scope key = record { scope = scope; key = key }

unfoldable pub read : MemoryState → StoreScope → Bytes → Option VersionedBytes
read state scope key = get state.records (at scope key)

scan_records : Records → StoreScope → Bytes → List StoredEntry
unfolding scope_eq
scan_records [] scope prefix = []
scan_records ((k, v) ∷ records) scope prefix =
    let rest = scan_records records scope prefix in
    if scope_eq k.scope scope && starts_with k.key prefix
    then record { key = k.key; value = v } ∷ rest
    else rest

unfoldable pub scan_prefix : MemoryState → StoreScope → Bytes → List StoredEntry
unfolding scan_records
scan_prefix state scope prefix = scan_records state.records scope prefix

-- `match expected { .. }` in `commit`.
unfoldable pub is_valid : ExpectedVersion → Option ℕ → Bool
is_valid ExpectedVersion.any actual = true
is_valid ExpectedVersion.missing none = true
is_valid ExpectedVersion.missing (some version) = false
is_valid (ExpectedVersion.exact version) none = false
is_valid (ExpectedVersion.exact version) (some actual) = actual == version

-- `.map(|value| value.version)`
abbrev pub version_of : Option VersionedBytes → Option ℕ
version_of none = none
version_of (some value) = some value.version

abbrev pub version_at : Records → StoreScope → Bytes → Option ℕ
version_at records scope key = version_of (get records (at scope key))

-- The first loop of `commit`: every precondition, against the state before the batch.
unfoldable pub check : Records → StoreScope → List BatchOperation → Result StoreError (Unit {0})
unfolding is_valid
check records scope [] = ok tt
check records scope (op ∷ ops) = do
  fail_if (not (is_valid (expected_of op) (version_at records scope (key_of op))))
      (version_conflict (key_of op) (expected_of op) (version_at records scope (key_of op)))
  check records scope ops

-- The body of the second loop.
unfoldable pub apply_one : StoreScope → BatchOperation → MemoryState → MemoryState
apply_one scope (BatchOperation.put key value expected) state = record state {
  next_record_version = (state.next_record_version + 1) % 2 ^ 64;
  records =
      insert state.records (at scope key)
        (record { version = state.next_record_version; bytes = value });
}
apply_one scope (BatchOperation.delete key expected) state = record state {
  records = remove state.records (at scope key);
}

unfoldable pub apply : StoreScope → List BatchOperation → MemoryState → MemoryState
apply scope [] state = state
apply scope (op ∷ ops) state = apply scope ops (apply_one scope op state)

unfoldable pub commit : AtomicBatch → MemoryState → Result StoreError ℕ × MemoryState
commit batch state =
    let after = apply batch.scope batch.operations state in
    elim (check state.records batch.scope batch.operations) [
      | ok done ↦ (
        ok after.next_commit_version,
        record after { next_commit_version = (after.next_commit_version + 1) % 2 ^ 64 },
      )
      | err e ↦ (err e, state)
    ]

-- `ensure_supported_schema`
unfoldable pub ensure_supported_schema : MemoryState → Result StoreError (Unit {0})
ensure_supported_schema store = do
  fail_if (ltb current_schema_version store.schema_version)
      (schema_too_new store.schema_version current_schema_version)
  ok tt
