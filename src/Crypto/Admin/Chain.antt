-- ===== src/Crypto/Admin/Chain.antt =====
-- From issuing an administrator's certificate, over the wire, to the root's check.
use weaver.Prelude.{
  ◌≡◌, ap, ◌∙◌, length, Bytes, ℕ, ◌<◌, true, arith, leb, List, ◌^◌, ◌≤◌, false, refl,
}
use weaver.Prelude.Results.{ok}
use weaver.Crypto.Laws.{
  contains_iff, take-append_signature, drop-append_signature, length-append_signature, guard_false,
  guard_key, length-derive_key_id,
}
use weaver.Crypto.Admin.Codec.{
  decode_admin_payload, decode-encode_admin_payload, length-encode_admin_payload, admin_payload_len,
  Fits,
}
use weaver.Crypto.{
  IsSound, root_public_of, derive_network_id, admin_key_id, contains, Primitives, root_public,
}
use weaver.Crypto.Admin.Verify.{IsTrusted, verified, IsTrusted-verify}
use weaver.Crypto.Admin.{
  AdminCertificate, IsWellFormed, from_bytes, to_bytes, issue, issued_payload, sign_payload, verify,
}

pub from_bytes-to_bytes :
    (self : AdminCertificate) → IsWellFormed self → from_bytes (to_bytes self) ≡ ok self
unfolding from_bytes to_bytes
from_bytes-to_bytes self w =
    let l = ap length w.signed ∙ length-encode_admin_payload self.payload w.fits in
    rw (
      length-append_signature admin_payload_len self.signed_payload self.signature l
          w.signature_length,
      take-append_signature admin_payload_len self.signed_payload self.signature l,
      drop-append_signature admin_payload_len self.signed_payload self.signature l,
      ap decode_admin_payload w.signed ∙ decode-encode_admin_payload self.payload w.fits,
    )

module _ ⦃c : Primitives⦄ (root admin_public : Bytes)
    (permissions serial not_before expires : ℕ) where
  -- What `issue` has checked, and the certificate that it makes.
  pub issue-eq-ok :
      {cert : AdminCertificate}
      → issue root admin_public permissions serial not_before expires ≡ ok cert
      → (not_before < expires)
        × (c.is_key admin_public ≡ true)
        × (cert
            ≡ sign_payload root
                (issued_payload root admin_public permissions serial not_before expires))
  unfolding issue
  issue-eq-ok {cert} h =
      let (w, h) = guard_false _ (leb expires not_before) _ h in
      let (k, h) = guard_key _ _ h in (ground arith, k, cc)

  issued-Fits :
      IsSound c
      → length admin_public ≡ 32
      → permissions < 256 ^ 4
      → serial < 256 ^ 8
      → not_before < 256 ^ 8
      → expires < 256 ^ 8
      → Fits (issued_payload root admin_public permissions serial not_before expires)
  unfolding issued_payload root_public root_public_of derive_network_id admin_key_id
  issued-Fits s l p q n e = record {
    network_id = s.length_derived _ _;
    key_id = length-derive_key_id s _ _;
    public_key = l;
    permissions = p;
    serial = q;
    not_before_ms = n;
    expires_at_ms = e;
    issuer_key_id = length-derive_key_id s _ _;
  }

  issued-IsTrusted :
      IsSound c
      → (now : ℕ) (revoked : List ℕ) → c.is_key admin_public ≡ true
      → not_before ≤ now
      → now < expires
      → contains revoked serial ≡ false
      → IsTrusted
          (sign_payload root
            (issued_payload root admin_public permissions serial not_before expires))
          (root_public root)
          (root_public root).network_id
          now
          revoked
  unfolding issued_payload sign_payload root_public root_public_of
  issued-IsTrusted s now revoked k a b u = record {
    root_network = refl;
    network = refl;
    issuer = refl;
    derived = refl;
    begun = a;
    unexpired = b;
    unrevoked = (contains_iff _ _).0 u;
    signed = s.accepts root _;
    keyed = k;
  }

  issued-IsWellFormed :
      IsSound c
      → Fits (issued_payload root admin_public permissions serial not_before expires)
      → IsWellFormed (
          sign_payload root
            (issued_payload root admin_public permissions serial not_before expires))
  unfolding sign_payload
  issued-IsWellFormed s f = record { fits = f; signed = refl; signature_length = s.length_sign _ _ }

  -- With sound primitives, a certificate that `issue` makes for a key of 32 bytes, from numbers
  -- that fit their fields, is read back from its bytes, and the root's check accepts it in the
  -- root's network at every moment of its window, if its serial is not revoked.
  pub verify-issue_admin :
      IsSound c
      → length admin_public ≡ 32
      → permissions < 256 ^ 4
      → serial < 256 ^ 8
      → not_before < 256 ^ 8
      → expires < 256 ^ 8
      → (now : ℕ) (revoked : List ℕ) → not_before ≤ now
      → now < expires
      → contains revoked serial ≡ false
      → {cert : AdminCertificate}
      → issue root admin_public permissions serial not_before expires ≡ ok cert
      → (from_bytes (to_bytes cert) ≡ ok cert)
        × (verify cert (root_public root) (root_public root).network_id now revoked
            ≡ ok (verified cert))
  verify-issue_admin s l p q n e now revoked a b u h =
      let (w, k, i) = issue-eq-ok h in
      rw i (
        from_bytes-to_bytes _ (issued-IsWellFormed s (issued-Fits s l p q n e)),
        IsTrusted-verify _ _ _ _ _ (issued-IsTrusted s now revoked k a b u),
      )
