-- ===== src/Crypto/Delegation.antt =====
-- The chain of trust of crates/weaver-crypto/src/lib.rs: what the root's check of an administrator
use weaver.Crypto.Admin
use weaver.Crypto.{Primitives, NetworkRootPublic, lacks, permission_issue_member, derive_member_id}
use weaver.Crypto.Admin.{AdminCertificate, VerifiedAdmin}
use weaver.Prelude.{Bytes, ℕ, List, ◌≡◌, true, false, ◌≤◌, ◌<◌, subst, arith, ap, sym}
use weaver.Crypto.Member.{MemberCertificate, VerifiedMember}
use weaver.Prelude.Results.{ok}
use weaver.Crypto.Member

-- and the administrator's check of a member say together.
module _ ⦃c : Primitives⦄ where
  -- A member that `verify_with_admin` accepts at `now`, for an administrator that the root's check
  -- accepted at some moment `then`, is backed by the root's signature on the administrator's
  -- certificate, by the signature of the key in it on the member's, and by the permission to issue
  -- members; `now` lies in the administrator's window too, whatever `then` was, and the member's
  -- identifier is derived from its key.
  pub delegation_chain :
      (cert : AdminCertificate) (root : NetworkRootPublic) (expected : Bytes) (then : ℕ)
      (revoked : List ℕ) (member : MemberCertificate) (now : ℕ) (revoked_members : List ℕ)
      {admin : VerifiedAdmin} {v : VerifiedMember}
      → Admin.verify cert root expected then revoked ≡ ok admin
      → Member.verify_with_admin member admin expected now revoked_members ≡ ok v
      → (c.signed_by root.verifying_key cert.signed_payload cert.signature ≡ true)
        × (c.signed_by cert.payload.public_key member.signed_payload member.signature ≡ true)
        × (lacks cert.payload.permissions permission_issue_member ≡ false)
        × (cert.payload.not_before_ms ≤ now)
        × (now < cert.payload.expires_at_ms)
        × (derive_member_id expected v.payload.signing_public_key ≡ v.payload.member_id)
  delegation_chain cert root expected then revoked member now revoked_members {admin} {v} a m =
      let (t, e) = Admin.Verify.verify-IsTrusted cert root expected then revoked a in
      let (d, f) =
        Member.Verify.verify_with_admin-IsDelegated member admin expected now revoked_members m in
      (
        t.signed,
        subst
            (λ (w : VerifiedAdmin).
              c.signed_by w.verifying_key member.signed_payload member.signature ≡ true)
            e d.signed,
        subst (λ (w : VerifiedAdmin). lacks w.payload.permissions permission_issue_member ≡ false) e
            d.permitted,
        omega (
          arith,
          d.current.begun,
          d.starts_within,
          ap (λ (w : VerifiedAdmin). w.payload.not_before_ms) e,
        ),
        omega (
          arith,
          d.current.unexpired,
          d.ends_within,
          ap (λ (w : VerifiedAdmin). w.payload.expires_at_ms) e,
        ),
        subst
            (λ (w : VerifiedMember).
              derive_member_id expected w.payload.signing_public_key ≡ w.payload.member_id)
            (sym f) d.current.derived,
      )
