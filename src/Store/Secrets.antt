-- ===== src/Store/Secrets.antt =====
-- `MemorySecretStore` of crates/weaver-store/src/lib.rs: secrets by identifier, a `HashMap` as an
-- association list with one entry for each identifier.
use weaver.Prelude.Results.{Result, ok, ok_or, err}
use weaver.Prelude.{
  bytes_eq_differs, [], none, some, Bytes, List, Option, ◌∷◌, ◌≡◌, bytes_eq, bytes_eq_self,
  if◌then◌else◌, false, ◌⊎◌, ◌≢◌, Option-cases, inl, inr, Bool-cases, ◌∙◌, ap, bytes_eq_sound, refl,
}

pub data SecretStoreError : Type 0 where
  not_found already_exists_different authentication_failed : SecretStoreError
  backend : Bytes → SecretStoreError

abbrev pub Secrets : Type 0
Secrets = List (Bytes × Bytes)

-- `HashMap::get`
unfoldable pub get_secret : Secrets → Bytes → Option Bytes
get_secret [] id = none
get_secret ((i, secret) ∷ secrets) id = if bytes_eq id i then some secret else get_secret secrets id

-- `HashMap::remove`
unfoldable pub remove_secret : Secrets → Bytes → Secrets
remove_secret [] id = []
remove_secret ((i, secret) ∷ secrets) id =
    let rest = remove_secret secrets id in if bytes_eq id i then rest else (i, secret) ∷ rest

-- `SecretStore::seal` of `MemorySecretStore`.
unfoldable pub seal : Bytes → Bytes → Secrets → Result SecretStoreError (Unit {0}) × Secrets
seal id plaintext secrets = elim (get_secret secrets id) [
  | some existing ↦
      if bytes_eq existing plaintext
      then (ok tt, secrets)
      else (err already_exists_different, secrets)
  | none ↦ (ok tt, (id, plaintext) ∷ secrets)
]

-- `SecretStore::open`
unfoldable pub open_secret : Secrets → Bytes → Result SecretStoreError Bytes
open_secret secrets id = ok_or (get_secret secrets id) not_found

-- `SecretStore::delete`
unfoldable pub delete_secret : Bytes → Secrets → Result SecretStoreError (Unit {0}) × Secrets
delete_secret id secrets = (ok tt, remove_secret secrets id)

module _ (id plaintext : Bytes) (secrets : Secrets) where
  seal_new :
      get_secret secrets id ≡ none → seal id plaintext secrets ≡ (ok tt, (id, plaintext) ∷ secrets)
  unfolding seal
  seal_new h = rw (h, seal) refl

  seal_same : get_secret secrets id ≡ some plaintext → seal id plaintext secrets ≡ (ok tt, secrets)
  unfolding seal
  seal_same h = rw (h, seal, bytes_eq_self plaintext) refl

  seal_different :
      (existing : Bytes)
      → get_secret secrets id ≡ some existing
      → bytes_eq existing plaintext ≡ false
      → seal id plaintext secrets ≡ (err already_exists_different, secrets)
  unfolding seal
  seal_different existing h f = rw (h, seal, f) refl

  sealed : get_secret ((id, plaintext) ∷ secrets) id ≡ some plaintext
  unfolding get_secret
  sealed = rw (bytes_eq_self id)

  -- A secret under another identifier is looked up behind a new one.
  sealed_other :
      (other : Bytes)
      → other ≢ id
      → get_secret ((id, plaintext) ∷ secrets) other ≡ get_secret secrets other
  unfolding get_secret
  sealed_other other d = elim (Bool-cases (bytes_eq other id)) [
    | inl t ↦ absurd (d (bytes_eq_sound other id t))
    | inr f ↦ rw f refl
  ]

-- `seal` does one of three things, each on its own condition. Where the identifier has no secret, it
-- succeeds; then opening gives the plaintext, sealing the same again succeeds and changes nothing,
-- and every other identifier opens as before. Where the identifier has this very secret, it succeeds
-- and changes nothing. Where it has a different one, it fails and changes nothing: a secret is never
-- overwritten.
pub open_secret-seal :
    (id plaintext : Bytes) (secrets : Secrets)
    → ((open_secret secrets id ≡ err not_found)
        × ((seal id plaintext secrets).0 ≡ ok tt)
        × (open_secret (seal id plaintext secrets).1 id ≡ ok plaintext)
        × (seal id plaintext (seal id plaintext secrets).1 ≡ (ok tt, (seal id plaintext secrets).1))
        × ((other : Bytes)
            → other ≢ id
            → open_secret (seal id plaintext secrets).1 other ≡ open_secret secrets other))
      ⊎ (((open_secret secrets id ≡ ok plaintext) × (seal id plaintext secrets ≡ (ok tt, secrets)))
          ⊎ ((existing : Bytes) × (open_secret secrets id ≡ ok existing)
              × (existing ≢ plaintext)
              × (seal id plaintext secrets ≡ (err already_exists_different, secrets))))
unfolding open_secret
open_secret-seal id plaintext secrets = elim (Option-cases (get_secret secrets id)) [
  | inl n ↦ inl (
      rw (seal_new id plaintext secrets n) (
        rw n refl,
        refl,
        rw (sealed id plaintext secrets),
        seal_same id plaintext _ (sealed id plaintext secrets),
        λ other d. rw (sealed_other id plaintext secrets other d) refl,
      ))
  | inr (existing, h) ↦ elim (Bool-cases (bytes_eq existing plaintext)) [
    | inl t ↦
        let g = h ∙ ap some (bytes_eq_sound existing plaintext t) in
        inr (inl (rw g refl, seal_same id plaintext secrets g))
    | inr f ↦ inr (
        inr (
          existing,
          rw h,
          λ e. bytes_eq_differs existing plaintext f e,
          seal_different id plaintext secrets existing h f,
        ))
  ]
]
