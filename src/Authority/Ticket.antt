-- ===== src/Authority/Ticket.antt =====
-- `JoinTicket` of crates/weaver-relay-core/src/lib.rs, and the record of a head.
pub mod Codec
pub mod Checks
use weaver.Prelude.{
  [], Bytes, ℕ, ◌++◌, ltb, not, bytes_eq, length, ◌==◌, ◌||◌, leb, ◌-◌, take, drop,
}
use weaver.Prelude.Results.{Result, ok, ◌>>=◌, ◌>>◌, fail_if, map_err}
use weaver.Crypto.Admin
use weaver.Crypto.Member
use weaver.Crypto.Endpoint
use weaver.Crypto.{CertificateError, Primitives, NetworkRootPublic, admin_key_id, signature_len}
use weaver.Config.{ConfigError, Hashing}
use weaver.Authority.{JoinTicket, AuthorityError, join_ticket_magic, ticket_parser}
use weaver.Config.Chain.{ConfigHead}
use weaver.Wire.{to_be, from_be, decode}
use weaver.Config.Chain

-- `?` on the errors of the other crates
abbrev pub of_crypto : {A : Type 0} → Result CertificateError A → Result AuthorityError A
of_crypto = map_err AuthorityError.crypto

abbrev pub of_config : {A : Type 0} → Result ConfigError A → Result AuthorityError A
of_config = map_err AuthorityError.config

unfoldable pub push_ticket_blob : Bytes → Result AuthorityError Bytes
push_ticket_blob blob = do
  fail_if (ltb 4294967295 (length blob)) AuthorityError.invalid_join_ticket
  ok (to_be 4 (length blob) ++ blob)

unfoldable pub encode_signed : JoinTicket → Result AuthorityError Bytes
encode_signed self = do
  admin_certificate ← push_ticket_blob self.admin_certificate
  member_certificate ← push_ticket_blob self.member_certificate
  endpoint_binding ← push_ticket_blob self.endpoint_binding
  embedded_config ← push_ticket_blob self.embedded_config
  ok (
      join_ticket_magic
      ++ (self.network_id
          ++ (self.request_nonce
              ++ (to_be 8 self.expires_at_ms
                  ++ (to_be 8 self.config_head.epoch
                      ++ (to_be 8 self.config_head.revision
                          ++ (self.config_head.hash
                              ++ (admin_certificate
                                  ++ (member_certificate
                                      ++ (endpoint_binding
                                          ++ (embedded_config ++ self.signer_key_id)))))))))))

unfoldable pub ticket_to_bytes : JoinTicket → Bytes
ticket_to_bytes self = self.signed_bytes ++ self.signature

unfoldable pub ticket_from_bytes : Bytes → Result AuthorityError JoinTicket
ticket_from_bytes bytes = do
  fail_if (ltb (length bytes) signature_len) AuthorityError.invalid_join_ticket
  let signed_len = length bytes - signature_len
  decode (ticket_parser (take signed_len bytes) (drop signed_len bytes)) (take signed_len bytes)

unfoldable pub encode_head : ConfigHead → Bytes
encode_head head = to_be 8 head.epoch ++ (to_be 8 head.revision ++ head.hash)

-- `HEAD_LEN`
abbrev head_len : ℕ
head_len = 48

unfoldable pub decode_head : Bytes → Result AuthorityError ConfigHead
decode_head bytes = do
  fail_if (not (length bytes == head_len)) AuthorityError.corrupt_state
  ok record {
    epoch = from_be (take 8 bytes);
    revision = from_be (take 8 (drop 8 bytes));
    hash = drop 16 bytes;
  }

module _ ⦃c : Primitives⦄ where
  -- `JoinTicket::issue`; `ticket` has the fields given, and no signed bytes yet.
  unfoldable pub issue_ticket : Bytes → JoinTicket → Result AuthorityError JoinTicket
  issue_ticket admin ticket = do
    let unsigned = record ticket { signer_key_id = admin_key_id (c.public_key admin) }
    signed_bytes ← encode_signed unsigned
    ok (record unsigned { signed_bytes = signed_bytes; signature = c.sign admin signed_bytes })

module _ ⦃c : Primitives⦄ ⦃h : Hashing⦄ where
  -- `JoinTicket::verify`
  unfoldable pub verify_ticket :
      JoinTicket → NetworkRootPublic → Bytes → Bytes → Bytes → ℕ → Result AuthorityError (Unit {0})
  verify_ticket self root expected_network expected_nonce expected_endpoint now_ms = do
    fail_if
        (not (bytes_eq self.network_id expected_network)
          || (not (bytes_eq root.network_id expected_network)
              || (not (bytes_eq self.request_nonce expected_nonce)
                  || leb self.expires_at_ms now_ms)))
        AuthorityError.invalid_join_ticket
    admin_certificate ← of_crypto (Admin.from_bytes self.admin_certificate)
    admin ← of_crypto (Admin.verify admin_certificate root expected_network now_ms [])
    fail_if (not (bytes_eq self.signer_key_id admin.payload.key_id))
        AuthorityError.invalid_join_ticket
    of_crypto (Admin.verify_bytes admin self.signed_bytes self.signature)
    member ← of_crypto (Member.from_bytes self.member_certificate)
    verified_member ← of_crypto (Member.verify_with_admin member admin expected_network now_ms [])
    endpoint ← of_crypto (Endpoint.from_bytes self.endpoint_binding)
    of_crypto (Endpoint.verify endpoint verified_member expected_network expected_endpoint now_ms)
    envelope ← of_config (Chain.from_bytes self.embedded_config)
    fail_if
        (not (bytes_eq envelope.network_id expected_network)
          || (not (envelope.epoch == self.config_head.epoch)
              || (not (envelope.revision == self.config_head.revision)
                  || not (bytes_eq (Chain.envelope_hash envelope) self.config_head.hash))))
        AuthorityError.invalid_join_ticket
