-- ===== src/Tests/Issuing.antt =====
-- An administrator, a member and an application, issued and checked.
use weaver.Crypto.Admin
use weaver.Crypto.Admin.{AdminCertificate, VerifiedAdmin}
use weaver.Crypto.{
  validate_time, verifying_key_of, root_public, contains, admin_key_id, derive_key_id, lacks,
  permission_issue_member, derive_member_id,
}
use weaver.Prelude.{◌≡◌, ◌∷◌, [], arith, refl, true, ◌↔◌, false, ◌≤◌, ◌<◌, length, ◌+◌}
use weaver.Tests.Toy.{toy, root, admin, fit, toy-IsSound, member, network}
use weaver.Prelude.Results.{ok}
use weaver.Crypto.Member
use weaver.Crypto.Exact
use weaver.Crypto.Member.Chain.{Request}
use weaver.Crypto.Member.{MemberCertificate}
use weaver.Crypto.Admin.Codec.{decode_admin_payload, admin_payload_len}
use weaver.Crypto.Member.Codec.{decode_member_payload, member_payload_len}
use weaver.Crypto.Delegation

abbrev pub admin_certificate : AdminCertificate
admin_certificate = Admin.sign_payload root (Admin.issued_payload root admin 15 7 100 200)

admin_issued : Admin.issue root admin 15 7 100 200 ≡ ok admin_certificate
unfolding Admin.issue Admin.sign_payload Admin.issued_payload validate_time verifying_key_of
admin_issued = refl

verify-issue_admin_example :
    (Admin.from_bytes (Admin.to_bytes admin_certificate) ≡ ok admin_certificate)
    × (Admin.verify admin_certificate (root_public root) (root_public root).network_id 150 (8 ∷ [])
        ≡ ok (Admin.Verify.verified admin_certificate))
verify-issue_admin_example =
    Admin.Chain.verify-issue_admin root admin 15 7 100 200 toy-IsSound (refl) (omega arith)
      (omega arith) (omega arith) (omega arith) 150 (8 ∷ []) (omega arith) (omega arith)
      (unfold contains in refl) admin_issued

abbrev pub verified_admin : VerifiedAdmin
verified_admin = Admin.Verify.verified admin_certificate

verify_admin_iff_example :
    (Admin.verify admin_certificate (root_public root) network 150 [] ≡ ok verified_admin) ↔ (
      Admin.Verify.IsTrusted admin_certificate (root_public root) network 150 []
      × (verified_admin ≡ verified_admin))
verify_admin_iff_example =
    Admin.Verify.verify_admin_iff admin_certificate (root_public root) network 150 [] verified_admin

abbrev pub request : Request
request = record {
  signing_public = member;
  encryption_public = fit 32 (9 ∷ []);
  roles = 1;
  serial = 3;
  not_before = 120;
  expires = 180;
  signing_length = refl;
  encryption_length = refl;
  roles_fit = omega arith;
  serial_fits = omega arith;
  not_before_fits = omega arith;
  expires_fits = omega arith;
}

abbrev pub by_root : MemberCertificate
by_root =
    Member.sign_payload root (Member.Chain.payload_for request network (root_public root).key_id)

abbrev pub by_admin : MemberCertificate
by_admin = Member.sign_payload admin (
    Member.Chain.payload_for request verified_admin.payload.network_id
      verified_admin.payload.key_id)

root_issues : Member.issue root member (fit 32 (9 ∷ [])) 1 3 120 180 ≡ ok by_root
unfolding Member.issue Member.Chain.payload_for
root_issues = refl

admin_issues :
    Member.issue_by_admin admin verified_admin.payload member (fit 32 (9 ∷ [])) 1 3 120 180
    ≡ ok by_admin
unfolding Member.issue_by_admin Member.Chain.payload_for Admin.sign_payload Admin.issued_payload
    admin_key_id derive_key_id
admin_issues = refl

verify-issue_member_example :
    (Member.from_bytes (Member.to_bytes by_root) ≡ ok by_root)
    × (Member.verify by_root (root_public root) network 150 []
        ≡ ok (Member.Verify.verified by_root))
verify-issue_member_example =
    Member.Chain.verify-issue_member request toy-IsSound root 150 [] (omega arith) (omega arith)
      (unfold contains in refl) root_issues

verify_with_admin-issue_by_admin_example :
    Member.verify_with_admin by_admin verified_admin verified_admin.payload.network_id 150 []
    ≡ ok (Member.Verify.verified by_admin)
verify_with_admin-issue_by_admin_example =
    Member.Chain.verify_with_admin-issue_by_admin request toy-IsSound admin verified_admin 150 []
      refl (omega arith) (omega arith) (unfold contains in refl) admin_issues

verify_member_iff_example :
    (Member.verify by_root (root_public root) network 150 [] ≡ ok (Member.Verify.verified by_root))
    ↔ (Member.Verify.IsTrusted by_root (root_public root) network 150 []
        × (Member.Verify.verified by_root ≡ Member.Verify.verified by_root))
verify_member_iff_example =
    Member.Verify.verify_member_iff by_root (root_public root) network 150 []
      (Member.Verify.verified by_root)

verify-IsDelegated_iff_example :
    (Member.verify_with_admin by_admin verified_admin network 150 []
      ≡ ok (Member.Verify.verified by_admin))
    ↔ (Member.Verify.IsDelegated by_admin verified_admin network 150 []
        × (Member.Verify.verified by_admin ≡ Member.Verify.verified by_admin))
verify-IsDelegated_iff_example =
    Member.Verify.verify-IsDelegated_iff by_admin verified_admin network 150 []
      (Member.Verify.verified by_admin)

admin_accepted :
    Admin.verify admin_certificate (root_public root) network 150 [] ≡ ok verified_admin
admin_accepted =
    (Admin.Chain.verify-issue_admin root admin 15 7 100 200 toy-IsSound refl (omega arith)
      (omega arith) (omega arith) (omega arith) 150 [] (omega arith) (omega arith)
      (unfold contains in refl) admin_issued).1

member_accepted :
    Member.verify_with_admin by_admin verified_admin network 150 []
    ≡ ok (Member.Verify.verified by_admin)
unfolding Admin.sign_payload Admin.issued_payload
member_accepted =
    Member.Chain.verify_with_admin-issue_by_admin request toy-IsSound admin verified_admin 150 []
      refl (omega arith) (omega arith) (unfold contains in refl) admin_issues

delegation_chain_example :
    (toy.signed_by
        (root_public root).verifying_key
        admin_certificate.signed_payload
        admin_certificate.signature
      ≡ true)
    × (toy.signed_by admin_certificate.payload.public_key by_admin.signed_payload by_admin.signature
        ≡ true)
    × (lacks admin_certificate.payload.permissions permission_issue_member ≡ false)
    × (admin_certificate.payload.not_before_ms ≤ 150)
    × (150 < admin_certificate.payload.expires_at_ms)
    × (derive_member_id network (Member.Verify.verified by_admin).payload.signing_public_key
        ≡ (Member.Verify.verified by_admin).payload.member_id)
delegation_chain_example =
    Delegation.delegation_chain admin_certificate (root_public root) network 150 [] by_admin 150 []
      admin_accepted member_accepted

admin_read : Admin.from_bytes (Admin.to_bytes admin_certificate) ≡ ok admin_certificate
admin_read =
    (Admin.Chain.verify-issue_admin root admin 15 7 100 200 toy-IsSound refl (omega arith)
      (omega arith) (omega arith) (omega arith) 150 [] (omega arith) (omega arith)
      (unfold contains in refl) admin_issued).0

by_root_read : Member.from_bytes (Member.to_bytes by_root) ≡ ok by_root
by_root_read =
    (Member.Chain.verify-issue_member request toy-IsSound root 150 [] (omega arith) (omega arith)
      (unfold contains in refl) root_issues).0

to_bytes-from_bytes_admin_example :
    (Admin.to_bytes admin_certificate ≡ Admin.to_bytes admin_certificate)
    × (decode_admin_payload admin_certificate.signed_payload ≡ ok admin_certificate.payload)
    × (length (Admin.to_bytes admin_certificate) ≡ admin_payload_len + 64)
to_bytes-from_bytes_admin_example =
    Exact.to_bytes-from_bytes_admin (Admin.to_bytes admin_certificate) admin_certificate admin_read

to_bytes-from_bytes_member_example :
    (Member.to_bytes by_root ≡ Member.to_bytes by_root)
    × (decode_member_payload by_root.signed_payload ≡ ok by_root.payload)
    × (length (Member.to_bytes by_root) ≡ member_payload_len + 64)
to_bytes-from_bytes_member_example =
    Exact.to_bytes-from_bytes_member (Member.to_bytes by_root) by_root by_root_read
