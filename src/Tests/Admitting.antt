-- ===== src/Tests/Admitting.antt =====
-- A ticket and an invitation. Addresses are their texts.
use weaver.Authority.Invitation.Signed.{push_bootstrap_relay}
use weaver.Prelude.{
  [], some, ◌∷◌, Bytes, codes, length, ◌≡◌, ◌++◌, ◌==◌, ◌↔◌, arith, ◌≤◌, if◌then◌else◌, leb→le,
  bytes_eq, refl, ltb→lt, ◌≢◌, ◌⊎◌,
}
use weaver.Prelude.ByteStrings.{is_utf8, utf8_from}
use weaver.Tests.Issuing.{verified_admin, by_admin, admin_certificate}
use weaver.Tests.Toy.{toy, fit, root, admin, network}
use weaver.Crypto.Admin
use weaver.Crypto.Member
use weaver.Authority.Ticket.Codec
use weaver.Authority.Invitation.{Addresses, InvitationBundle, invitation_magic}
use weaver.Config.{Hashing}
use weaver.Config.Chain.{ConfigHead}
use weaver.Authority.{JoinTicket, join_ticket_magic, AuthorityError}
use weaver.Authority.Ticket.{encode_signed, verify_ticket, push_ticket_blob, ticket_to_bytes}
use weaver.Authority.Invitation.Consumed.{
  encode_consumed, consumed_magic, decode_consumed, decode_consumed-encode_consumed,
}
use weaver.Authority.Invitation.Signed.{
  encode_invitation, invitation_from_bytes, invitation_to_bytes, push_addresses,
  push_invitation_blob,
}
use weaver.Crypto.{root_public, root_public_of, derive_network_id}
use weaver.Wire.{to_be, usize_max}
use weaver.Prelude.Results.{ok, err}
use weaver.Authority.Invitation.Reading.{invitation_from_bytes-invitation_to_bytes}
use weaver.Authority.Invitation.Texts.{IsRelay}
use weaver.Authority.Invitation.Issued
use weaver.Authority.Ticket.Checks.{IsTicket, verify_ticket_iff}
use weaver.Core.{validate_virtual_name, split, check_labels}

instance abbrev plain_addresses : Addresses
plain_addresses = record {
  SocketAddr = Bytes;
  to_string = λ a. a;
  from_str = λ text. some text;
  is_endpoint = λ id. length id == 32;
}

instance abbrev toy_hash : Hashing
toy_hash = record { hash = fit 32 }

abbrev head : ConfigHead
head = record { epoch = 1; revision = 3; hash = fit 32 (6 ∷ []) }

-- The four blobs, with their lengths.
abbrev blobs : Bytes
blobs = 0 ∷ 0 ∷ 0 ∷ 1 ∷ 11 ∷ 0 ∷ 0 ∷ 0 ∷ 1 ∷ 12 ∷ 0 ∷ 0 ∷ 0 ∷ 1 ∷ 13 ∷ 0 ∷ 0 ∷ 0 ∷ 2 ∷ 14 ∷ 15 ∷ []

abbrev ticket : JoinTicket
ticket = record {
  network_id = network;
  request_nonce = fit 32 (8 ∷ []);
  expires_at_ms = 190;
  config_head = head;
  admin_certificate = 11 ∷ [];
  member_certificate = 12 ∷ [];
  endpoint_binding = 13 ∷ [];
  embedded_config = 14 ∷ 15 ∷ [];
  signer_key_id = fit 16 (2 ∷ []);
  signed_bytes =
      join_ticket_magic
      ++ (network
          ++ (fit 32 (8 ∷ [])
              ++ ((0 ∷ 0 ∷ 0 ∷ 0 ∷ 0 ∷ 0 ∷ 0 ∷ 190 ∷ [])
                  ++ ((0 ∷ 0 ∷ 0 ∷ 0 ∷ 0 ∷ 0 ∷ 0 ∷ 1 ∷ [])
                      ++ ((0 ∷ 0 ∷ 0 ∷ 0 ∷ 0 ∷ 0 ∷ 0 ∷ 3 ∷ [])
                          ++ (head.hash ++ (blobs ++ fit 16 (2 ∷ []))))))));
  signature = fit 64 [];
}

ticket-IsIssued : Codec.IsIssued ticket
unfolding encode_signed push_ticket_blob to_be root_public root_public_of derive_network_id
ticket-IsIssued = record {
  network_id = refl;
  request_nonce = refl;
  expires_at_ms = omega arith;
  epoch = omega arith;
  revision = omega arith;
  hash = refl;
  admin_certificate = (omega arith, leb→le _ _ refl);
  member_certificate = (omega arith, leb→le _ _ refl);
  endpoint_binding = (omega arith, leb→le _ _ refl);
  embedded_config = (omega arith, leb→le _ _ refl);
  signer_key_id = refl;
  signed = refl;
  signature = refl;
}

abbrev consumed : Bytes
consumed =
    consumed_magic
    ++ (fit 32 (4 ∷ []) ++ ((0 ∷ 0 ∷ 0 ∷ 229 ∷ []) ++ (ticket.signed_bytes ++ fit 64 [])))

-- Another request.
decode_consumed-encode_consumed_example : decode_consumed consumed (fit 32 (5 ∷ [])) ≡ (
    if bytes_eq (fit 32 (4 ∷ [])) (fit 32 (5 ∷ []))
    then ok ticket
    else err AuthorityError.invitation_already_used)
unfolding encode_consumed ticket_to_bytes to_be root_public root_public_of derive_network_id
decode_consumed-encode_consumed_example =
    decode_consumed-encode_consumed (fit 32 (4 ∷ [])) (fit 32 (5 ∷ [])) ticket consumed refl
      ticket-IsIssued (ltb→lt _ _ refl) refl

-- With the membership that the administrator has issued.
abbrev admitting : JoinTicket
admitting = record ticket {
  admin_certificate = Admin.to_bytes admin_certificate;
  member_certificate = Member.to_bytes by_admin;
  signer_key_id = verified_admin.payload.key_id;
  signature = toy.sign admin ticket.signed_bytes;
}

verify_ticket_iff_example :
    (verify_ticket admitting (root_public root) network (fit 32 (8 ∷ [])) (fit 32 (9 ∷ [])) 150
      ≡ ok tt)
    ↔ IsTicket admitting (root_public root) network (fit 32 (8 ∷ [])) (fit 32 (9 ∷ [])) 150
verify_ticket_iff_example =
    verify_ticket_iff admitting (root_public root) network (fit 32 (8 ∷ [])) (fit 32 (9 ∷ [])) 150

abbrev relay_text : Bytes
relay_text = codes "https://r"

abbrev service : Bytes
service = codes "room.virtual"

abbrev invitation : InvitationBundle
invitation = record {
  invitation_id = fit 32 (1 ∷ []);
  network_id = network;
  root_public_key = root;
  bootstrap_endpoint_id = fit 32 (7 ∷ []);
  bootstrap_direct_addresses = codes "10.0.0.1:7" ∷ [];
  bootstrap_relay = some relay_text;
  client_app_addr = fit 32 (5 ∷ []);
  service_name = service;
  expires_at_ms = 190;
  admin_certificate = 11 ∷ [];
  signer_key_id = fit 16 (2 ∷ []);
  signed_bytes =
      invitation_magic
      ++ (fit 32 (1 ∷ [])
          ++ (network
              ++ (root
                  ++ (fit 32 (7 ∷ [])
                      ++ ((1 ∷ 0 ∷ 10 ∷ [])
                          ++ (codes "10.0.0.1:7"
                              ++ ((1 ∷ 0 ∷ 9 ∷ [])
                                  ++ (relay_text
                                      ++ (fit 32 (5 ∷ [])
                                          ++ ((0 ∷ 12 ∷ [])
                                              ++ (service
                                                  ++ ((0 ∷ 0 ∷ 0 ∷ 0 ∷ 0 ∷ 0 ∷ 0 ∷ 190 ∷ 0 ∷ 1 ∷ 11
                                                        ∷ [])
                                                      ++ fit 16 (2 ∷ [])))))))))))));
  signature = fit 64 [];
}

invitation-IsIssued : Issued.IsIssued invitation
unfolding encode_invitation push_addresses push_invitation_blob push_bootstrap_relay to_be
    root_public root_public_of derive_network_id IsRelay is_utf8 utf8_from validate_virtual_name
    split check_labels
invitation-IsIssued = record {
  invitation_id = refl;
  network_id = refl;
  root_public_key = refl;
  bootstrap_endpoint_id = refl;
  address_count = omega arith;
  addresses = (
    record {
      text = record { some_bytes = omega arith; fits = leb→le _ _ refl; utf8 = refl };
      parsed = refl;
    },
    tt,
  );
  relay = (leb→le _ _ refl, refl);
  client_app_addr = refl;
  service_text = record { some_bytes = omega arith; fits = leb→le _ _ refl; utf8 = refl };
  service_name = refl;
  expires_at_ms = omega arith;
  certificate_some = omega arith;
  certificate_fits = leb→le _ _ refl;
  signer_key_id = refl;
  signed = refl;
  signature = refl;
}

invitation_short : length (invitation_to_bytes invitation) ≤ usize_max
unfolding invitation_to_bytes root_public root_public_of derive_network_id
invitation_short = leb→le _ _ refl

invitation_from_bytes-invitation_to_bytes_example :
    ((invitation.bootstrap_relay ≢ some [])
      × (invitation_from_bytes (invitation_to_bytes invitation) ≡ ok invitation))
    ⊎ ((invitation.bootstrap_relay ≡ some [])
        × (invitation_from_bytes (invitation_to_bytes invitation)
            ≡ err AuthorityError.invalid_invitation))
invitation_from_bytes-invitation_to_bytes_example =
    invitation_from_bytes-invitation_to_bytes invitation invitation-IsIssued invitation_short
