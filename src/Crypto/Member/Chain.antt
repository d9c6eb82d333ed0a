-- ===== src/Crypto/Member/Chain.antt =====
-- From issuing a member's certificate, over the wire, to the check of the root or administrator.
use weaver.Crypto.Member.{
  from_bytes, issue, sign_payload, to_bytes, MemberCertificate, issued_payload, IsWellFormed,
  verify, issue_by_admin, verify_with_admin,
}
use weaver.Prelude.{Bytes, ℕ, List, length, ◌≡◌, ◌≤◌, ◌<◌, ap, ◌^◌, false, refl, ◌∙◌, leb, sym}
use weaver.Crypto.{
  Primitives, IsSound, derive_member_id, contains, root_public, lacks, permission_issue_member,
  admin_key_id,
}
use weaver.Crypto.Member.Codec.{
  MemberCertificatePayload, length-encode_member_payload, member_payload_len, decode_member_payload,
  decode-encode_member_payload,
}
use weaver.Prelude.Results.{ok, ok-injective}
use weaver.Crypto.Laws.{
  contains_iff, guard_false, length-append_signature, length-root_network, length-root_key,
  take-append_signature, drop-append_signature, root_accepts, guard_eq_two, guard_issued_window,
}
use weaver.Crypto.Member.Verify.{
  IsCurrent, verified, IsTrusted-verify, IsDelegated-verify_with_admin,
}
use weaver.Crypto.Admin.{VerifiedAdmin}
use weaver.Crypto.Admin.Codec.{AdminCertificatePayload}

pub from_bytes-to_bytes :
    (self : MemberCertificate) → IsWellFormed self → from_bytes (to_bytes self) ≡ ok self
unfolding from_bytes to_bytes
from_bytes-to_bytes self w =
    let l = ap length w.signed ∙ length-encode_member_payload self.payload w.fits in
    rw (
      length-append_signature member_payload_len self.signed_payload self.signature l
          w.signature_length,
      take-append_signature member_payload_len self.signed_payload self.signature l,
      drop-append_signature member_payload_len self.signed_payload self.signature l,
      ap decode_member_payload w.signed ∙ decode-encode_member_payload self.payload w.fits,
    )

-- The subject of a certificate and the numbers that its issuer chooses, within their sizes.
pub record Request : Type 0 where
  pub signing_public : Bytes
  pub encryption_public : Bytes
  pub roles : ℕ
  pub serial : ℕ
  pub not_before : ℕ
  pub expires : ℕ
  pub signing_length : length signing_public ≡ 32
  pub encryption_length : length encryption_public ≡ 32
  pub roles_fit : roles < 256 ^ 4
  pub serial_fits : serial < 256 ^ 8
  pub not_before_fits : not_before < 256 ^ 8
  pub expires_fits : expires < 256 ^ 8

module _ ⦃c : Primitives⦄ (r : Request) where
  unfoldable pub payload_for : Bytes → Bytes → MemberCertificatePayload
  payload_for network key_id =
      issued_payload network key_id r.signing_public r.encryption_public r.roles r.serial
        r.not_before r.expires

  issued-IsWellFormed :
      (s : IsSound c) (secret network key_id : Bytes)
      → length network ≡ 32
      → length key_id ≡ 16
      → IsWellFormed (sign_payload secret (payload_for network key_id))
  unfolding sign_payload payload_for issued_payload derive_member_id
  issued-IsWellFormed s secret network key_id n k = record {
    fits = record {
      network_id = n;
      member_id = s.length_derived _ _;
      signing_public_key = r.signing_length;
      encryption_public_key = r.encryption_length;
      roles = r.roles_fit;
      serial = r.serial_fits;
      not_before_ms = r.not_before_fits;
      expires_at_ms = r.expires_fits;
      issuer_key_id = k;
    };
    signed = refl;
    signature_length = s.length_sign _ _;
  }

  issued-IsCurrent :
      (secret network key_id : Bytes) (now : ℕ) (revoked : List ℕ)
      → r.not_before ≤ now
      → now < r.expires
      → contains revoked r.serial ≡ false
      → IsCurrent (sign_payload secret (payload_for network key_id)) network now revoked
  unfolding sign_payload payload_for issued_payload
  issued-IsCurrent secret network key_id now revoked a b u = record {
    network = refl;
    derived = refl;
    begun = a;
    unexpired = b;
    unrevoked = (contains_iff _ _).0 u;
  }

  issue-eq-ok :
      (root : Bytes) {cert : MemberCertificate}
      → issue root r.signing_public r.encryption_public r.roles r.serial r.not_before r.expires
        ≡ ok cert
      → cert
        ≡ sign_payload root (payload_for (root_public root).network_id (root_public root).key_id)
  unfolding issue payload_for
  issue-eq-ok root h = let (w, h) = guard_false _ (leb r.expires r.not_before) _ h in cc

  -- With sound primitives, a certificate that the root issues for keys of 32 bytes, from numbers
  -- that fit their fields, is read back from its bytes, and the root's check accepts it in the
  -- root's network at every moment of its window, if its serial is not revoked.
  pub verify-issue_member :
      (s : IsSound c) (root : Bytes) (now : ℕ) (revoked : List ℕ)
      → r.not_before ≤ now
      → now < r.expires
      → contains revoked r.serial ≡ false
      → {cert : MemberCertificate}
      → issue root r.signing_public r.encryption_public r.roles r.serial r.not_before r.expires
        ≡ ok cert
      → (from_bytes (to_bytes cert) ≡ ok cert)
        × (verify cert (root_public root) (root_public root).network_id now revoked
            ≡ ok (verified cert))
  verify-issue_member s root now revoked a b u h = rw (issue-eq-ok root h) (
    from_bytes-to_bytes _
        (issued-IsWellFormed s root _ _ (length-root_network s root) (length-root_key s root)),
    IsTrusted-verify _ _ _ _ _ (record {
      root_network = refl;
      current = issued-IsCurrent root _ _ now revoked a b u;
      issuer = unfold sign_payload payload_for issued_payload in refl;
      signed = unfold sign_payload in root_accepts s root _;
    }),
  )

  issue_by_admin-eq-ok :
      (admin : Bytes) (a : AdminCertificatePayload) {cert : MemberCertificate}
      → issue_by_admin admin a r.signing_public r.encryption_public r.roles r.serial r.not_before
          r.expires
        ≡ ok cert
      → (c.public_key admin ≡ a.public_key)
        × (lacks a.permissions permission_issue_member ≡ false)
        × (a.not_before_ms ≤ r.not_before)
        × (r.expires ≤ a.expires_at_ms)
        × (cert ≡ sign_payload admin (payload_for a.network_id a.key_id))
  unfolding issue_by_admin payload_for
  issue_by_admin-eq-ok admin a h =
      let (k, i, h) =
        guard_eq_two _ (c.public_key admin) a.public_key (admin_key_id (c.public_key admin))
          a.key_id _ h in
      let (p, h) = guard_false _ (lacks a.permissions permission_issue_member) _ h in
      let (w, x, h) =
        guard_issued_window _ a.not_before_ms r.not_before r.expires a.expires_at_ms _ h in
      (k, p, w, x, sym (ok-injective h))

  -- With sound primitives, a certificate that an administrator issues passes `verify_with_admin`
  -- for that administrator, with the verifying key of its own certificate, in its network at every
  -- moment of the issued window, if the serial is not revoked.
  pub verify_with_admin-issue_by_admin :
      (s : IsSound c) (admin : Bytes) (v : VerifiedAdmin) (now : ℕ) (revoked : List ℕ)
      → v.verifying_key ≡ v.payload.public_key
      → r.not_before ≤ now
      → now < r.expires
      → contains revoked r.serial ≡ false
      → {cert : MemberCertificate}
      → issue_by_admin admin v.payload r.signing_public r.encryption_public r.roles r.serial
          r.not_before r.expires
        ≡ ok cert
      → verify_with_admin cert v v.payload.network_id now revoked ≡ ok (verified cert)
  verify_with_admin-issue_by_admin s admin v now revoked same a b u h =
      let (k, p, w, x, e) = issue_by_admin-eq-ok admin v.payload h in
      rw e (
        IsDelegated-verify_with_admin _ _ _ _ _ (record {
          admin_network = refl;
          current = issued-IsCurrent admin _ _ now revoked a b u;
          issuer = unfold sign_payload payload_for issued_payload in refl;
          permitted = p;
          starts_within = unfold sign_payload payload_for issued_payload in w;
          ends_within = unfold sign_payload payload_for issued_payload in x;
          signed = unfold sign_payload in rw (same, ← k) (s.accepts admin _);
        }))
