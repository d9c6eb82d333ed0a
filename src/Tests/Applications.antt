-- ===== src/Tests/Applications.antt =====
-- An application, registered by an administrator, and a binding to it.
use weaver.Crypto.App
use weaver.Crypto.Binding
use weaver.Crypto.Admin
use weaver.Crypto.Member
use weaver.Prelude.{Bytes, ◌≡◌, ◌↔◌, ◌∷◌, [], refl, none, arith}
use weaver.Crypto.App.{AppRegistration, AppRegistrationRequest, VerifiedApp}
use weaver.Tests.Issuing.{by_root, verified_admin}
use weaver.Crypto.{
  admin_key_id, derive_app_addr, derive_key_id, root_public, root_public_of, derive_network_id,
}
use weaver.Crypto.Binding.{AppBinding}
use weaver.Prelude.Results.{ok}
use weaver.Crypto.Binding.Codec.{validate_app_role, AppRole}
use weaver.Crypto.Laws.{length-root_network}
use weaver.Tests.Toy.{toy, admin, fit, network, member, toy-IsSound, root}

abbrev owner : Bytes
owner = fit 32 (4 ∷ [])

abbrev asked : AppRegistrationRequest
asked = App.create_request owner verified_admin.payload.network_id 1

abbrev pub registration : AppRegistration
registration = App.sign_payload admin record {
  network_id = asked.payload.network_id;
  app_addr = asked.payload.app_addr;
  app_root_public_key = asked.payload.app_root_public_key;
  policy = asked.payload.policy;
  issuer_key_id = verified_admin.payload.key_id;
}

create_request-verify_request_example :
    App.verify_request asked verified_admin.payload.network_id
    ≡ ok (record { payload = asked.payload })
create_request-verify_request_example =
    App.Verify.create_request-verify_request toy-IsSound owner verified_admin.payload.network_id 1

request_accepted :
    App.verify_request asked verified_admin.payload.network_id
    ≡ ok (record { payload = asked.payload })
request_accepted =
    App.Verify.create_request-verify_request toy-IsSound owner verified_admin.payload.network_id 1

registered :
    App.issue_by_admin admin verified_admin.payload (record { payload = asked.payload })
    ≡ ok registration
unfolding App.issue_by_admin App.create_request Admin.sign_payload Admin.issued_payload admin_key_id
    derive_key_id root_public root_public_of derive_network_id
registered = refl

verify_registration-issue_by_admin_example :
    (App.verify_with_admin registration verified_admin verified_admin.payload.network_id
      ≡ ok (record { payload = registration.payload }))
    × (registration.payload.app_addr ≡ asked.payload.app_addr)
    × (registration.payload.app_root_public_key ≡ asked.payload.app_root_public_key)
    × (registration.payload.policy ≡ asked.payload.policy)
verify_registration-issue_by_admin_example =
    App.Verify.verify_registration-issue_by_admin toy-IsSound admin verified_admin asked
      (record { payload = asked.payload }) refl request_accepted registered

verify_registration_iff_example :
    (App.verify_with_admin registration verified_admin network
      ≡ ok (record { payload = registration.payload }))
    ↔ (App.Verify.IsRegistered registration verified_admin network
        × (◌≡◌ {A = VerifiedApp}
            (record { payload = registration.payload })
            (record { payload = registration.payload })))
verify_registration_iff_example =
    App.Verify.verify_registration_iff registration verified_admin network
      (record { payload = registration.payload })

abbrev granted : AppBinding
granted =
    Binding.sign_payload owner
      (Binding.issued_payload owner network member AppRole.server none 300 (fit 16 [] ∷ []))

verify_binding_iff_example :
    (Binding.verify granted
        (record { payload = registration.payload })
        (Member.Verify.verified by_root)
        network
        150
      ≡ ok tt)
    ↔ Binding.Verify.IsGranted granted
        (record { payload = registration.payload })
        (Member.Verify.verified by_root)
        network
        150
verify_binding_iff_example =
    Binding.Verify.verify_binding_iff granted (record { payload = registration.payload })
      (Member.Verify.verified by_root) network 150

granted-IsWellFormed : Binding.IsWellFormed granted
unfolding Binding.sign_payload Binding.issued_payload derive_app_addr validate_app_role
granted-IsWellFormed = record {
  fits = record {
    network_id = length-root_network toy-IsSound root;
    app_addr = refl;
    subject = refl;
    role = refl;
    device_id = refl;
    expires_at_ms = omega arith;
    service_count = omega arith;
    services = (refl, tt);
  };
  signed = refl;
  signature_length = toy-IsSound.length_sign owner granted.signed_payload;
}

from_bytes-to_bytes_binding_example : Binding.from_bytes (Binding.to_bytes granted) ≡ ok granted
from_bytes-to_bytes_binding_example =
    Binding.Verify.from_bytes-to_bytes_binding granted granted-IsWellFormed
