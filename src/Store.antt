-- ===== src/Store.antt =====
-- crates/weaver-store/src/lib.rs: scopes, keys, versions, and the batches that a store commits as a
-- whole. A `StoreKey` is its bytes.
pub mod Records
pub mod Batch
pub mod Applied
pub mod Memory
pub mod Commit
pub mod Reads
pub mod Fresh
pub mod Conflicts
pub mod Secrets
use weaver.Prelude.Results.{Result, ◌>>=◌, ◌>>◌, fail_if, ok}
use weaver.Prelude.{
  Bool, Bytes, List, [], ℕ, Option, false, length, ◌*◌, ◌==◌, ◌∷◌, bytes_eq, ltb, ◌++◌, ◌||◌,
}

abbrev pub current_schema_version : ℕ
current_schema_version = 1

abbrev pub max_key_len : ℕ
max_key_len = 1024

abbrev pub max_value_len : ℕ
max_value_len = 16 * 1024 * 1024

pub data ScopeKind : Type 0 where
  member authority : ScopeKind

pub record StoreScope : Type 0 where
  pub kind : ScopeKind
  pub network_id : Bytes

-- `StoreScope::member`
abbrev pub member_scope : Bytes → StoreScope
member_scope network_id = record { kind = ScopeKind.member; network_id = network_id }

-- `StoreScope::authority`
abbrev pub authority_scope : Bytes → StoreScope
authority_scope network_id = record { kind = ScopeKind.authority; network_id = network_id }

pub record VersionedBytes : Type 0 where
  pub version : ℕ
  pub bytes : Bytes

pub record StoredEntry : Type 0 where
  pub key : Bytes
  pub value : VersionedBytes

pub data ExpectedVersion : Type 0 where
  any missing : ExpectedVersion
  exact : ℕ → ExpectedVersion

pub data BatchOperation : Type 0 where
  put : (key value : Bytes) → (expected : ExpectedVersion) → BatchOperation
  delete : (key : Bytes) → (expected : ExpectedVersion) → BatchOperation

pub data StoreError : Type 0 where
  invalid_key_length value_too_large : ℕ → StoreError
  duplicate_batch_key : Bytes → StoreError
  version_conflict : Bytes → ExpectedVersion → Option ℕ → StoreError
  schema_too_new : ℕ → ℕ → StoreError
  backend : Bytes → StoreError

-- `StoreKey::new`
unfoldable pub store_key : Bytes → Result StoreError Bytes
store_key bytes = do
  fail_if ((length bytes == 0) || ltb max_key_len (length bytes))
      (invalid_key_length (length bytes))
  ok bytes

abbrev pub key_of : BatchOperation → Bytes
key_of (BatchOperation.put key value expected) = key
key_of (BatchOperation.delete key expected) = key

abbrev pub expected_of : BatchOperation → ExpectedVersion
expected_of (BatchOperation.put key value expected) = expected
expected_of (BatchOperation.delete key expected) = expected

pub record AtomicBatch : Type 0 where
  pub scope : StoreScope
  pub operations : List BatchOperation
  pub keys : List Bytes

-- `HashSet::contains`
unfoldable pub has_key : Bytes → List Bytes → Bool
has_key key [] = false
has_key key (k ∷ keys) = bytes_eq key k || has_key key keys

-- `AtomicBatch::new`
unfoldable pub new_batch : StoreScope → AtomicBatch
new_batch scope = record { scope = scope; operations = []; keys = [] }

unfoldable pub insert_unique : AtomicBatch → Bytes → Result StoreError AtomicBatch
unfolding has_key
insert_unique self key = do
  fail_if (has_key key self.keys) (duplicate_batch_key key)
  ok record self { keys = key ∷ self.keys }

-- `AtomicBatch::put`
unfoldable pub add_put :
    AtomicBatch → Bytes → Bytes → ExpectedVersion → Result StoreError AtomicBatch
add_put self key value expected = do
  fail_if (ltb max_value_len (length value)) (value_too_large (length value))
  self ← insert_unique self key
  ok record self { operations = self.operations ++ BatchOperation.put key value expected ∷ [] }

-- `AtomicBatch::delete`
unfoldable pub add_delete : AtomicBatch → Bytes → ExpectedVersion → Result StoreError AtomicBatch
add_delete self key expected = do
  self ← insert_unique self key
  ok record self { operations = self.operations ++ BatchOperation.delete key expected ∷ [] }

unfoldable pub is_empty : AtomicBatch → Bool
is_empty self = length self.operations == 0
