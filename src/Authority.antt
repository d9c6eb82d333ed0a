-- ===== src/Authority.antt =====
-- crates/weaver-relay-core/src/lib.rs: the authority of a network. Its errors, its head records and
-- the tickets that admit a device.
pub mod Ticket
pub mod Invitation
pub mod Revision
pub mod Bootstrap
use weaver.Prelude.{[], ◌∷◌, Bytes, ℕ, ◌==◌, ◌||◌, ltb}
use weaver.Wire.{
  Parser, ◌>>=◌, ◌>>◌, return, lift, Malformed, magic, uint, array, finish, take_bytes,
}
use weaver.Store.{StoreError, max_value_len}
use weaver.Store.Secrets.{SecretStoreError}
use weaver.Config.Chain.{ConfigHead}
use weaver.Crypto.{CertificateError}
use weaver.Config.{ConfigError, SnapshotError}
use weaver.Prelude.Results.{fail_if}

pub data AuthorityError : Type 0 where
  already_initialized invalid_data_directory invalid_options corrupt_state : AuthorityError
  invalid_join_request invalid_join_ticket invalid_invitation : AuthorityError
  invitation_already_used invitation_revoked member_not_found : AuthorityError
  cannot_revoke_authority_member application_already_registered : AuthorityError
  application_not_found virtual_dns_record_not_found relay_not_found : AuthorityError
  unknown_config_head history_unavailable : AuthorityError
  io : Bytes → AuthorityError
  store : StoreError → AuthorityError
  secret : SecretStoreError → AuthorityError
  crypto : CertificateError → AuthorityError
  config : ConfigError → AuthorityError
  snapshot : SnapshotError → AuthorityError

pub record JoinTicket : Type 0 where
  pub network_id : Bytes
  pub request_nonce : Bytes
  pub expires_at_ms : ℕ
  pub config_head : ConfigHead
  pub admin_certificate : Bytes
  pub member_certificate : Bytes
  pub endpoint_binding : Bytes
  pub embedded_config : Bytes
  pub signer_key_id : Bytes
  pub signed_bytes : Bytes
  pub signature : Bytes

-- b"WVRTKT\0\x01"
abbrev pub join_ticket_magic : Bytes
join_ticket_magic = b'W' ∷ b'V' ∷ b'R' ∷ b'T' ∷ b'K' ∷ b'T' ∷ 0 ∷ 1 ∷ []

instance abbrev pub ticket_malformed : Malformed AuthorityError
ticket_malformed = record { malformed = AuthorityError.invalid_join_ticket }

-- `TicketDecoder::blob`
unfoldable pub ticket_blob : Parser AuthorityError Bytes
ticket_blob = do
  len ← uint 4
  lift (fail_if ((len == 0) || ltb max_value_len len) AuthorityError.invalid_join_ticket)
  take_bytes len

-- What `from_bytes` reads of the signed bytes.
unfoldable pub ticket_parser : Bytes → Bytes → Parser AuthorityError JoinTicket
ticket_parser signed_bytes signature_bytes = do
  magic join_ticket_magic
  network_id ← array 32
  request_nonce ← array 32
  expires_at_ms ← uint 8
  epoch ← uint 8
  revision ← uint 8
  hash ← array 32
  admin_certificate ← ticket_blob
  member_certificate ← ticket_blob
  endpoint_binding ← ticket_blob
  embedded_config ← ticket_blob
  signer_key_id ← array 16
  finish
  return record {
    network_id = network_id;
    request_nonce = request_nonce;
    expires_at_ms = expires_at_ms;
    config_head = record { epoch = epoch; revision = revision; hash = hash };
    admin_certificate = admin_certificate;
    member_certificate = member_certificate;
    endpoint_binding = endpoint_binding;
    embedded_config = embedded_config;
    signer_key_id = signer_key_id;
    signed_bytes = signed_bytes;
    signature = signature_bytes;
  }
