-- ===== src/Config/Snapshot/Admins.antt =====
-- Administrators of a validated snapshot of crates/weaver-config/src/snapshot.rs.
use weaver.Prelude.{refl}
use weaver.Prelude.{
  [], ◌∷◌, Bytes, List, ℕ, ◌≡◌, Bool-cases, if◌then◌else◌, bytes_eq, inl, bytes_eq_sound, inr,
}
use weaver.Crypto.Admin
use weaver.Config.Snapshot.Validate.{ValidatedNetworkConfig, collect_serials, certified}
use weaver.Crypto.{Primitives, NetworkRootPublic}
use weaver.Config.Snapshot.{AdminKey, NetworkConfigV1}
use weaver.Prelude.Results.{Result, ok, err, ◌>>=◌, >>=-eq-ok, map_err-eq-ok}
use mathlib.Core.List.{Memᴰ}
use weaver.Config.{SnapshotError, unknown_admin}
use weaver.Crypto.Admin.{VerifiedAdmin, AdminCertificate}
use mathlib.Core.List.Memᴰ.{head, tail}

module _ ⦃c : Primitives⦄ where
  -- The loop of `verified_admin`.
  unfoldable pub find_admin :
      List AdminKey
      → NetworkRootPublic
      → Bytes
      → Bytes
      → ℕ
      → List ℕ
      → Result SnapshotError VerifiedAdmin
  find_admin [] root network_id key_id now_ms revoked = err unknown_admin
  find_admin (key ∷ keys) root network_id key_id now_ms revoked =
      let rest = find_admin keys root network_id key_id now_ms revoked in
      certified (Admin.from_bytes key.certificate) >>= λ certificate.
      if bytes_eq certificate.payload.key_id key_id
      then certified (Admin.verify certificate root network_id now_ms revoked)
      else rest

  -- `ValidatedNetworkConfig::verified_admin`
  unfoldable pub verified_admin :
      ValidatedNetworkConfig → NetworkRootPublic → Bytes → ℕ → Result SnapshotError VerifiedAdmin
  verified_admin self root key_id now_ms =
      find_admin self.inner.admin_keys root self.inner.network_id key_id now_ms
        (collect_serials self.inner.revoked_serials)

-- The administrator `key_id` of a snapshot at `now_ms`.
pub record IsAdminAt ⦃c : Primitives⦄ (self : NetworkConfigV1) (root : NetworkRootPublic)
    (key_id : Bytes) (now_ms : ℕ) (admin : VerifiedAdmin) : Type 0 where
  pub key : AdminKey
  pub listed : Memᴰ key self.admin_keys
  pub certificate : AdminCertificate
  pub decoded : Admin.from_bytes key.certificate ≡ ok certificate
  pub named : certificate.payload.key_id ≡ key_id
  pub verified :
      Admin.verify certificate root self.network_id now_ms (collect_serials self.revoked_serials)
      ≡ ok admin

find_admin-IsAdminAt :
    ⦃c : Primitives⦄ (keys : List AdminKey) (root : NetworkRootPublic) (network key_id : Bytes)
    (now_ms : ℕ) (revoked : List ℕ) {admin : VerifiedAdmin}
    → find_admin keys root network key_id now_ms revoked ≡ ok admin
    → (key : AdminKey) × Memᴰ key keys
      × (certificate : AdminCertificate) × (Admin.from_bytes key.certificate ≡ ok certificate)
      × (certificate.payload.key_id ≡ key_id)
      × (Admin.verify certificate root network now_ms revoked ≡ ok admin)
unfolding find_admin
find_admin-IsAdminAt [] root network key_id now_ms revoked h = cc
find_admin-IsAdminAt (key ∷ keys) root network key_id now_ms revoked {admin} h =
    let (certificate, d, h) = >>=-eq-ok (certified (Admin.from_bytes key.certificate)) _ h in
    elim (Bool-cases (bytes_eq certificate.payload.key_id key_id)) [
      | inl e ↦
          let v : certified (Admin.verify certificate root network now_ms revoked) ≡ ok admin =
            rw e at h in
          (
            key,
            head refl,
            certificate,
            map_err-eq-ok _ _ d,
            bytes_eq_sound _ _ e,
            map_err-eq-ok _ _ v,
          )
      | inr e ↦
          let v : find_admin keys root network key_id now_ms revoked ≡ ok admin = rw e at h in
          let (key, m, certificate, d, n, v) =
            find_admin-IsAdminAt keys root network key_id now_ms revoked v in
          (key, tail m, certificate, d, n, v)
    ]

-- `verified_admin` returns only an administrator of that key that the snapshot lists and whose
-- certificate the root vouches for at that moment, its serial not among the revoked ones.
pub verified_admin-IsAdminAt :
    ⦃c : Primitives⦄ (self : ValidatedNetworkConfig) (root : NetworkRootPublic) (key_id : Bytes)
    (now_ms : ℕ) (admin : VerifiedAdmin)
    → verified_admin self root key_id now_ms ≡ ok admin
    → IsAdminAt self.inner root key_id now_ms admin
unfolding verified_admin
verified_admin-IsAdminAt self root key_id now_ms admin h =
    let (key, m, certificate, d, n, v) =
      find_admin-IsAdminAt self.inner.admin_keys root self.inner.network_id key_id now_ms _ h in
    record {
      key = key;
      listed = m;
      certificate = certificate;
      decoded = d;
      named = n;
      verified = v;
    }
