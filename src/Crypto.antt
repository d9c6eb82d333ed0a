-- ===== src/Crypto.antt =====
-- crates/weaver-crypto/src/lib.rs: keys, derived identifiers, and the checks that every
-- certificate shares. Ed25519 and BLAKE3 are other packages: they are the record `Primitives`,
-- and `IsSound` states what their documentation promises.
pub mod Laws
pub mod Admin
pub mod Member
pub mod Endpoint
pub mod App
pub mod Binding
pub mod Join
pub mod Delegation
pub mod Exact
use Prim.Native.Nat.{bit_and}
use weaver.Prelude.{
  ℕ, ◌+◌, ◌<◌, ◌^◌, ◌≡◌, ◌≢◌, List, [], ◌∷◌, ◌++◌, Bool, true, false, ◌||◌, not, Option, none, some,
  ltb, leb, ◌==◌, if◌then◌else◌, Bytes, codes, bytes_eq, length, take,
}
use weaver.Prelude.Results.{Result, ok, err, ◌>>=◌, ◌>>◌, fail_if}
use weaver.Wire.{Malformed}

pub data CertificateError : Type 0 where
  randomness_unavailable malformed_key malformed_wire invalid_signature : CertificateError
  wrong_network wrong_issuer not_yet_valid expired revoked : CertificateError
  derived_identity_mismatch key_mismatch binding_mismatch invalid_validity_window : CertificateError
  invalid_app_role too_many_services permission_denied : CertificateError

instance abbrev pub certificate_malformed : Malformed CertificateError
certificate_malformed = record { malformed = malformed_wire }

-- What the crate takes from ed25519-dalek and blake3.
pub record Primitives : Type 0 where
  -- `SigningKey::from_bytes(secret).verifying_key().to_bytes()`
  pub public_key : Bytes → Bytes
  -- `SigningKey::sign(payload).to_bytes()`
  pub sign : Bytes → Bytes → Bytes
  -- `VerifyingKey::from_bytes(key).is_ok()`
  pub is_key : Bytes → Bool
  -- `VerifyingKey::verify(payload, signature).is_ok()`
  pub signed_by : Bytes → Bytes → Bytes → Bool
  -- `blake3::derive_key(context, material)`; a hasher fed in pieces hashes their concatenation.
  pub derive_key : Bytes → Bytes → Bytes

-- A signature made with a key is accepted under its public key, which is a key; sizes are fixed.
pub record IsSound (c : Primitives) : Type 0 where
  pub accepts :
      (secret payload : Bytes)
      → c.signed_by (c.public_key secret) payload (c.sign secret payload) ≡ true
  pub public_is_key : (secret : Bytes) → c.is_key (c.public_key secret) ≡ true
  pub length_public : (secret : Bytes) → length (c.public_key secret) ≡ 32
  pub length_sign : (secret payload : Bytes) → length (c.sign secret payload) ≡ 64
  pub length_derived : (context material : Bytes) → length (c.derive_key context material) ≡ 32

abbrev pub signature_len : ℕ
signature_len = 64

abbrev pub permission_config_write : ℕ
permission_config_write = 1

abbrev pub permission_issue_member : ℕ
permission_issue_member = 2

abbrev pub permission_revoke : ℕ
permission_revoke = 4

abbrev pub permission_register_app : ℕ
permission_register_app = 8

-- `permissions & flag == 0`
abbrev pub lacks : ℕ → ℕ → Bool
lacks permissions flag = bit_and permissions flag == 0

abbrev pub zeroes_32 : Bytes
zeroes_32 =
    0 ∷ 0 ∷ 0 ∷ 0 ∷ 0 ∷ 0 ∷ 0 ∷ 0 ∷ 0 ∷ 0 ∷ 0 ∷ 0 ∷ 0 ∷ 0 ∷ 0 ∷ 0 ∷ 0 ∷ 0 ∷ 0 ∷ 0 ∷ 0 ∷ 0 ∷ 0 ∷ 0
    ∷ 0 ∷ 0 ∷ 0 ∷ 0 ∷ 0 ∷ 0 ∷ 0 ∷ 0 ∷ []

-- `revoked_serials.contains(&serial)`
unfoldable pub contains : List ℕ → ℕ → Bool
contains [] serial = false
contains (x ∷ xs) serial = (x == serial) || contains xs serial

unfoldable pub validate_time : ℕ → ℕ → ℕ → Result CertificateError (Unit {0})
validate_time not_before expires now =
    if ltb now not_before then err not_yet_valid else if leb expires now then err expired else ok tt

unfoldable pub append_signature : Bytes → Bytes → Bytes
append_signature payload signature = payload ++ signature

module _ ⦃c : Primitives⦄ where
  unfoldable pub derive_network_id : Bytes → Bytes
  derive_network_id root_public_key = c.derive_key (codes "weaver.network.v1") root_public_key

  unfoldable pub derive_member_id : Bytes → Bytes → Bytes
  derive_member_id network_id signing_public_key =
      c.derive_key (codes "weaver.member.v1") (network_id ++ signing_public_key)

  unfoldable pub derive_app_addr : Bytes → Bytes
  derive_app_addr app_root_public_key = c.derive_key (codes "weaver.app.v1") app_root_public_key

  unfoldable pub derive_device_id : Bytes → Bytes → Bytes → Bytes
  derive_device_id network_id app_addr member_signing_public_key =
      c.derive_key (codes "weaver.device.v1")
        (network_id ++ (app_addr ++ member_signing_public_key))

  unfoldable pub derive_key_id : Bytes → Bytes → Bytes
  derive_key_id context key = take 16 (c.derive_key context key)

  unfoldable pub verify_signature : Bytes → Bytes → Bytes → Result CertificateError (Unit {0})
  verify_signature key payload signature =
      if c.signed_by key payload signature then ok tt else err invalid_signature

  -- `VerifyingKey::from_bytes(key).map_err(|_| MalformedKey)?`
  unfoldable pub verifying_key_of : Bytes → Result CertificateError Bytes
  verifying_key_of key = if c.is_key key then ok key else err malformed_key

abbrev pub root_key_context : Bytes
root_key_context = codes "weaver.network-root-key-id.v1"

abbrev pub admin_key_context : Bytes
admin_key_context = codes "weaver.online-admin-key-id.v1"

pub record NetworkRootPublic : Type 0 where
  pub verifying_key : Bytes
  pub network_id : Bytes
  pub key_id : Bytes

module _ ⦃c : Primitives⦄ where
  unfoldable pub root_public_of : Bytes → NetworkRootPublic
  root_public_of bytes = record {
    verifying_key = bytes;
    network_id = derive_network_id bytes;
    key_id = derive_key_id root_key_context bytes;
  }

  -- `NetworkRootPublic::from_bytes`
  pub root_public_from_bytes : Bytes → Result CertificateError NetworkRootPublic
  root_public_from_bytes bytes = do key ← verifying_key_of bytes; ok (root_public_of key)

  -- `NetworkRootKey::public`: its `expect` cannot fail, by `root_public_from_bytes-public`.
  unfoldable pub root_public : Bytes → NetworkRootPublic
  root_public secret = root_public_of (c.public_key secret)

  -- `OnlineAdminKey::key_id`, of its public key.
  unfoldable pub admin_key_id : Bytes → Bytes
  admin_key_id public = derive_key_id admin_key_context public
