-- ===== src/Crypto/Member/Codec.antt =====
-- The payload of a member's certificate and its wire form. `roles` is the bit set `MemberRoles`.
use weaver.Prelude.{ℕ, ◌+◌, ◌<◌, ◌^◌, ◌≡◌, ◌++◌, Bytes, length, length-append, [], ◌∷◌, arith}
use weaver.Prelude.Results.{Result, ok}
use weaver.Wire.{Parser, to_be, array, magic, uint, finish, return, decode, ◌>>=◌, ◌>>◌}
use weaver.Wire.Ints.{length-to_be}
use weaver.Wire.Reads.{
  Ends-bind, Ends-last, Ends-return, finish-Ends, magic-Reads, array-Reads, uint-Reads, decode-Ends,
}
use weaver.Crypto.{CertificateError, certificate_malformed}

-- b"WVRMEM\0\x01"
abbrev pub member_magic : Bytes
member_magic = b'W' ∷ b'V' ∷ b'R' ∷ b'M' ∷ b'E' ∷ b'M' ∷ 0 ∷ 1 ∷ []

abbrev pub member_payload_len : ℕ
member_payload_len = 8 + 32 + 32 + 32 + 32 + 4 + 8 + 8 + 8 + 16

pub record MemberCertificatePayload : Type 0 where
  pub network_id : Bytes
  pub member_id : Bytes
  pub signing_public_key : Bytes
  pub encryption_public_key : Bytes
  pub roles : ℕ
  pub serial : ℕ
  pub not_before_ms : ℕ
  pub expires_at_ms : ℕ
  pub issuer_key_id : Bytes

unfoldable pub encode_member_payload : MemberCertificatePayload → Bytes
encode_member_payload p =
    member_magic
    ++ (p.network_id
        ++ (p.member_id
            ++ (p.signing_public_key
                ++ (p.encryption_public_key
                    ++ (to_be 4 p.roles
                        ++ (to_be 8 p.serial
                            ++ (to_be 8 p.not_before_ms
                                ++ (to_be 8 p.expires_at_ms ++ p.issuer_key_id))))))))

member_payload_parser : Parser CertificateError MemberCertificatePayload
member_payload_parser = do
  magic member_magic
  network_id ← array 32
  member_id ← array 32
  signing_public_key ← array 32
  encryption_public_key ← array 32
  roles ← uint 4
  serial ← uint 8
  not_before_ms ← uint 8
  expires_at_ms ← uint 8
  issuer_key_id ← array 16
  finish
  return record {
    network_id = network_id;
    member_id = member_id;
    signing_public_key = signing_public_key;
    encryption_public_key = encryption_public_key;
    roles = roles;
    serial = serial;
    not_before_ms = not_before_ms;
    expires_at_ms = expires_at_ms;
    issuer_key_id = issuer_key_id;
  }

unfoldable pub decode_member_payload : Bytes → Result CertificateError MemberCertificatePayload
unfolding member_payload_parser
decode_member_payload = decode member_payload_parser

-- The sizes that the Rust types of the fields give.
pub record Fits (p : MemberCertificatePayload) : Type 0 where
  pub network_id : length p.network_id ≡ 32
  pub member_id : length p.member_id ≡ 32
  pub signing_public_key : length p.signing_public_key ≡ 32
  pub encryption_public_key : length p.encryption_public_key ≡ 32
  pub roles : p.roles < 256 ^ 4
  pub serial : p.serial < 256 ^ 8
  pub not_before_ms : p.not_before_ms < 256 ^ 8
  pub expires_at_ms : p.expires_at_ms < 256 ^ 8
  pub issuer_key_id : length p.issuer_key_id ≡ 16

pub length-encode_member_payload :
    (p : MemberCertificatePayload) → Fits p → length (encode_member_payload p) ≡ member_payload_len
unfolding encode_member_payload
length-encode_member_payload p f = omega (arith, length-append {0}, length-to_be, f)

-- Every payload whose fields have their sizes is decoded from its encoding.
pub decode-encode_member_payload :
    (p : MemberCertificatePayload) → Fits p → decode_member_payload (encode_member_payload p) ≡ ok p
unfolding decode_member_payload encode_member_payload
decode-encode_member_payload p f = decode-Ends (omega (arith, length-encode_member_payload p f)) (
    Ends-bind _ magic-Reads (
      Ends-bind _ (array-Reads 32 p.network_id f.network_id) (
        Ends-bind _ (array-Reads 32 p.member_id f.member_id) (
          Ends-bind _ (array-Reads 32 p.signing_public_key f.signing_public_key) (
            Ends-bind _ (array-Reads 32 p.encryption_public_key f.encryption_public_key) (
              Ends-bind _ (uint-Reads 4 p.roles f.roles) (
                Ends-bind _ (uint-Reads 8 p.serial f.serial) (
                  Ends-bind _ (uint-Reads 8 p.not_before_ms f.not_before_ms) (
                    Ends-bind _ (uint-Reads 8 p.expires_at_ms f.expires_at_ms) (
                      Ends-last _ (array-Reads 16 p.issuer_key_id f.issuer_key_id)
                        (finish-Ends Ends-return)))))))))))
