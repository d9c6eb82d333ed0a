-- ===== src/Store/Applied.antt =====
-- What the two loops of `commit` in crates/weaver-store/src/lib.rs promise: which preconditions hold,
-- and how the records and the counters move from one operation to the next. A record is looked up by
-- `get`, the map's own look-up.
use weaver.Store.{
  ExpectedVersion, BatchOperation, StoreScope, StoreError, expected_of, key_of, version_conflict,
  VersionedBytes,
}
use weaver.Store.Memory.{MemoryState, is_valid, version_at, apply, apply_one, at}
use weaver.Store.Records.{
  Records, RecordKey, get, get-insert, get-insert_other, get-remove, get-remove_other,
}
use weaver.Prelude.{
  [], none, some, List, Option, ℕ, ◌∷◌, ◌≡◌, ◌≢◌, ◌↔◌, ◌+◌, ◌%◌, ◌^◌, true, refl, ==_iff, ap, arith,
}

-- A precondition on the version that a record has, if there is a record.
unfoldable pub IsMet : ExpectedVersion → Option ℕ → Type 0
IsMet ExpectedVersion.any actual = Unit
IsMet ExpectedVersion.missing actual = actual ≡ none
IsMet (ExpectedVersion.exact version) actual = actual ≡ some version

pub is_valid_iff :
    (expected : ExpectedVersion) (actual : Option ℕ)
    → (is_valid expected actual ≡ true) ↔ IsMet expected actual
unfolding is_valid IsMet
is_valid_iff ExpectedVersion.any actual = (λ h. tt, λ m. refl)
is_valid_iff ExpectedVersion.missing none = (λ h. refl, λ m. refl)
is_valid_iff ExpectedVersion.missing (some version) = (λ h. absurd (cc), λ m. cc)
is_valid_iff (ExpectedVersion.exact version) none = (λ h. cc, λ m. cc)
is_valid_iff (ExpectedVersion.exact version) (some actual) = (
  λ h. ap some ((==_iff actual version).0 h),
  λ m. (==_iff actual version).1 (some_version actual version m),
)
  where
    some_version : (m n : ℕ) → ◌≡◌ {A = Option ℕ} (some m) (some n) → m ≡ n
    some_version m n h = cc

module _ (records : Records) (scope : StoreScope) where
  -- The precondition of one operation, against the given records.
  abbrev pub Holds : BatchOperation → Type 0
  Holds op = IsMet (expected_of op) (version_at records scope (key_of op))

  unfoldable pub AllHold : List BatchOperation → Type 0
  AllHold [] = Unit
  AllHold (op ∷ ops) = Holds op × AllHold ops

  -- The first operation whose precondition fails, with the error that names it.
  pub data Conflict : List BatchOperation → StoreError → Type 0 where
    here :
        (op : BatchOperation) (ops : List BatchOperation)
        → ¬ Holds op
        → Conflict
            (op ∷ ops)
            (version_conflict (key_of op) (expected_of op) (version_at records scope (key_of op)))
    later :
        (op : BatchOperation) (ops : List BatchOperation) (e : StoreError)
        → Holds op
        → Conflict ops e
        → Conflict (op ∷ ops) e

-- What an operation leaves under its key: a `put` its value under the version, a `delete` nothing.
abbrev pub left_by : BatchOperation → ℕ → Option VersionedBytes
left_by (BatchOperation.put key value expected) version =
    some (record { version = version; bytes = value })
left_by (BatchOperation.delete key expected) version = none

-- The version counter after an operation: a `put` uses one version up.
abbrev pub counter_after : BatchOperation → ℕ → ℕ
counter_after (BatchOperation.put key value expected) version = (version + 1) % 2 ^ 64
counter_after (BatchOperation.delete key expected) version = version

module _ (scope : StoreScope) where
  -- One operation has been carried out, and nothing else.
  pub record IsStep (op : BatchOperation) (st st' : MemoryState) : Type 0 where
    pub own : get st'.records (at scope (key_of op)) ≡ left_by op st.next_record_version
    pub others : (k : RecordKey) → k ≢ at scope (key_of op) → get st'.records k ≡ get st.records k
    pub counter : st'.next_record_version ≡ counter_after op st.next_record_version
    pub commits : st'.next_commit_version ≡ st.next_commit_version
    pub schema : st'.schema_version ≡ st.schema_version

  -- All operations have been carried out, in their order.
  pub data Applied : List BatchOperation → MemoryState → MemoryState → Type 0 where
    done : (st : MemoryState) → Applied [] st st
    step :
        (op : BatchOperation) (ops : List BatchOperation) (st st' st'' : MemoryState)
        → IsStep op st st'
        → Applied ops st' st''
        → Applied (op ∷ ops) st st''

  apply_one-IsStep : (op : BatchOperation) (st : MemoryState) → IsStep op st (apply_one scope op st)
  unfolding apply_one
  apply_one-IsStep (BatchOperation.put key value expected) st = record {
    own = get-insert st.records (at scope key) _;
    others = λ k d. get-insert_other st.records (at scope key) _ k d;
    counter = refl;
    commits = refl;
    schema = refl;
  }
  apply_one-IsStep (BatchOperation.delete key expected) st = record {
    own = get-remove st.records (at scope key);
    others = λ k d. get-remove_other st.records (at scope key) k d;
    counter = refl;
    commits = refl;
    schema = refl;
  }

  pub apply-Applied :
      (ops : List BatchOperation) (st : MemoryState) → Applied ops st (apply scope ops st)
  unfolding apply
  apply-Applied [] st = Applied.done st
  apply-Applied (op ∷ ops) st =
      Applied.step op ops st (apply_one scope op st) _ (apply_one-IsStep op st)
        (apply-Applied ops (apply_one scope op st))

  -- The commit counter is not an operation's to move.
  pub Applied-commits :
      (ops : List BatchOperation) (st st' : MemoryState)
      → Applied ops st st'
      → st'.next_commit_version ≡ st.next_commit_version
  Applied-commits [] st st' (Applied.done s) = refl
  Applied-commits (op ∷ ops) st st'' (Applied.step o os s st' s'' i r) =
      omega (arith, Applied-commits ops st' st'' r, i.commits)
