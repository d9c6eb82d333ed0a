-- ===== src/Store/Records.antt =====
-- The ordered map of `MemoryState` in crates/weaver-store/src/lib.rs, a `BTreeMap` by scope and
-- key: an association list in the order of its keys.
use weaver.Prelude.{
  [], Bool, Bytes, List, Option, ◌≡◌, ◌≢◌, false, ltb, none, some, true, ℕ, ◌&&◌, ◌==◌, ◌∷◌,
  &&-eq-true, ==_self, Bool-cases, bytes_eq, if◌then◌else◌, refl, ◌||◌, ==_iff, bytes_eq_self,
  bytes_eq_sound, inl, inr, arith, subst,
}
use weaver.Store.{ScopeKind, StoreScope, VersionedBytes}

pub record RecordKey : Type 0 where
  pub scope : StoreScope
  pub key : Bytes

abbrev pub Records : Type 0
Records = List (RecordKey × VersionedBytes)

abbrev kind_rank : ScopeKind → ℕ
kind_rank ScopeKind.member = 0
kind_rank ScopeKind.authority = 1

unfoldable pub scope_eq : StoreScope → StoreScope → Bool
scope_eq a b = (kind_rank a.kind == kind_rank b.kind) && bytes_eq a.network_id b.network_id

unfoldable pub key_eq : RecordKey → RecordKey → Bool
key_eq a b = scope_eq a.scope b.scope && bytes_eq a.key b.key

-- The lexicographic order of byte strings.
pub bytes_lt : Bytes → Bytes → Bool
bytes_lt xs [] = false
bytes_lt [] (y ∷ ys) = true
bytes_lt (x ∷ xs) (y ∷ ys) = ltb x y || ((x == y) && bytes_lt xs ys)

-- The order that `StoreScope` and `StoreKey` derive: by kind, by network, then by key.
pub key_lt : RecordKey → RecordKey → Bool
unfolding bytes_lt
key_lt a b =
    ltb (kind_rank a.scope.kind) (kind_rank b.scope.kind)
    || ((kind_rank a.scope.kind == kind_rank b.scope.kind)
        && (bytes_lt a.scope.network_id b.scope.network_id
            || (bytes_eq a.scope.network_id b.scope.network_id && bytes_lt a.key b.key)))

-- `BTreeMap::get`
unfoldable pub get : Records → RecordKey → Option VersionedBytes
get [] k = none
get ((k', v) ∷ records) k = if key_eq k k' then some v else get records k

-- `BTreeMap::insert`
unfoldable pub insert : Records → RecordKey → VersionedBytes → Records
unfolding key_lt
insert [] k v = (k, v) ∷ []
insert ((k', v') ∷ records) k v =
    let rest = insert records k v in
    if key_eq k k'
    then (k, v) ∷ records
    else if key_lt k k'
    then (k, v) ∷ (k', v') ∷ records
    else (k', v') ∷ rest

-- `BTreeMap::remove`
unfoldable pub remove : Records → RecordKey → Records
remove [] k = []
remove ((k', v') ∷ records) k =
    let rest = remove records k in if key_eq k k' then rest else (k', v') ∷ rest

kind_rank_injective : (a b : ScopeKind) → kind_rank a ≡ kind_rank b → a ≡ b
kind_rank_injective ScopeKind.member ScopeKind.member e = refl
kind_rank_injective ScopeKind.authority ScopeKind.authority e = refl
kind_rank_injective ScopeKind.member ScopeKind.authority e = cc
kind_rank_injective ScopeKind.authority ScopeKind.member e = cc

pub scope_eq_sound : (a b : StoreScope) → scope_eq a b ≡ true → a ≡ b
unfolding scope_eq
scope_eq_sound a b h =
    let (k, n) = &&-eq-true _ _ h in
    let e = kind_rank_injective a.kind b.kind ((==_iff _ _).0 k) in
    let f = bytes_eq_sound a.network_id b.network_id n in cc

pub key_eq_sound : (a b : RecordKey) → key_eq a b ≡ true → a ≡ b
unfolding key_eq
key_eq_sound a b h =
    let (s, n) = &&-eq-true _ _ h in
    let e = scope_eq_sound a.scope b.scope s in let f = bytes_eq_sound a.key b.key n in cc

pub key_eq_self : (a : RecordKey) → key_eq a a ≡ true
unfolding key_eq scope_eq
key_eq_self a =
    rw (==_self (kind_rank a.scope.kind), bytes_eq_self a.scope.network_id, bytes_eq_self a.key)

pub key_eq_other : (a b : RecordKey) → a ≢ b → key_eq a b ≡ false
key_eq_other a b d = elim (Bool-cases (key_eq a b)) [
  | inl h ↦ absurd (d (key_eq_sound a b h))
  | inr h ↦ h
]

-- What differs from a key differs from its equals.
same_key : (k k' other : RecordKey) → other ≢ k → key_eq k k' ≡ true → key_eq other k' ≡ false
same_key k k' other d h =
    subst (λ x. key_eq other x ≡ false) (key_eq_sound k k' h) (key_eq_other other k d)

pub get-insert :
    (records : Records) (k : RecordKey) (v : VersionedBytes) → get (insert records k v) k ≡ some v
unfolding get insert
get-insert [] k v = rw (key_eq_self k)
get-insert ((k', v') ∷ records) k v = ground (arith, get-insert records k v, key_eq_self k)

pub get-insert_other :
    (records : Records) (k : RecordKey) (v : VersionedBytes) (other : RecordKey)
    → other ≢ k
    → get (insert records k v) other ≡ get records other
unfolding get insert
get-insert_other [] k v other d = rw (key_eq_other other k d)
get-insert_other ((k', v') ∷ records) k v other d =
    ground
      (arith, get-insert_other records k v other d, same_key k k' other d, key_eq_other other k d)

pub get-remove : (records : Records) (k : RecordKey) → get (remove records k) k ≡ none
unfolding get remove
get-remove [] k = refl
get-remove ((k', v') ∷ records) k = ground (arith, get-remove records k)

pub get-remove_other :
    (records : Records) (k other : RecordKey)
    → other ≢ k
    → get (remove records k) other ≡ get records other
unfolding get remove
get-remove_other [] k other d = refl
get-remove_other ((k', v') ∷ records) k other d =
    ground
      (arith, get-remove_other records k other d, same_key k k' other d, key_eq_other other k d)

pub key_eq_differs : (a b : RecordKey) → key_eq a b ≡ false → a ≢ b
key_eq_differs a b h e = let s = key_eq_self b in cc
