-- ===== src/Crypto/Admin/Codec.antt =====
-- The payload of an administrator's certificate and its wire form.
use weaver.Prelude.{ℕ, ◌+◌, ◌<◌, ◌^◌, ◌≡◌, ◌++◌, Bytes, length, length-append, [], ◌∷◌, arith}
use weaver.Prelude.Results.{Result, ok}
use weaver.Wire.{Parser, to_be, array, magic, uint, finish, return, decode, ◌>>=◌, ◌>>◌}
use weaver.Wire.Ints.{length-to_be}
use weaver.Wire.Reads.{
  Ends-bind, Ends-last, Ends-return, finish-Ends, magic-Reads, array-Reads, uint-Reads, decode-Ends,
}
use weaver.Crypto.{CertificateError, certificate_malformed}

-- b"WVRADM\0\x01"
abbrev pub admin_magic : Bytes
admin_magic = b'W' ∷ b'V' ∷ b'R' ∷ b'A' ∷ b'D' ∷ b'M' ∷ 0 ∷ 1 ∷ []

abbrev pub admin_payload_len : ℕ
admin_payload_len = 8 + 32 + 16 + 32 + 4 + 8 + 8 + 8 + 16

pub record AdminCertificatePayload : Type 0 where
  pub network_id : Bytes
  pub key_id : Bytes
  pub public_key : Bytes
  pub permissions : ℕ
  pub serial : ℕ
  pub not_before_ms : ℕ
  pub expires_at_ms : ℕ
  pub issuer_key_id : Bytes

unfoldable pub encode_admin_payload : AdminCertificatePayload → Bytes
encode_admin_payload p =
    admin_magic
    ++ (p.network_id
        ++ (p.key_id
            ++ (p.public_key
                ++ (to_be 4 p.permissions
                    ++ (to_be 8 p.serial
                        ++ (to_be 8 p.not_before_ms
                            ++ (to_be 8 p.expires_at_ms ++ p.issuer_key_id)))))))

admin_payload_parser : Parser CertificateError AdminCertificatePayload
admin_payload_parser = do
  magic admin_magic
  network_id ← array 32
  key_id ← array 16
  public_key ← array 32
  permissions ← uint 4
  serial ← uint 8
  not_before_ms ← uint 8
  expires_at_ms ← uint 8
  issuer_key_id ← array 16
  finish
  return record {
    network_id = network_id;
    key_id = key_id;
    public_key = public_key;
    permissions = permissions;
    serial = serial;
    not_before_ms = not_before_ms;
    expires_at_ms = expires_at_ms;
    issuer_key_id = issuer_key_id;
  }

unfoldable pub decode_admin_payload : Bytes → Result CertificateError AdminCertificatePayload
unfolding admin_payload_parser
decode_admin_payload = decode admin_payload_parser

-- The sizes that the Rust types of the fields give.
pub record Fits (p : AdminCertificatePayload) : Type 0 where
  pub network_id : length p.network_id ≡ 32
  pub key_id : length p.key_id ≡ 16
  pub public_key : length p.public_key ≡ 32
  pub permissions : p.permissions < 256 ^ 4
  pub serial : p.serial < 256 ^ 8
  pub not_before_ms : p.not_before_ms < 256 ^ 8
  pub expires_at_ms : p.expires_at_ms < 256 ^ 8
  pub issuer_key_id : length p.issuer_key_id ≡ 16

pub length-encode_admin_payload :
    (p : AdminCertificatePayload) → Fits p → length (encode_admin_payload p) ≡ admin_payload_len
unfolding encode_admin_payload
length-encode_admin_payload p f = omega (arith, length-append {0}, length-to_be, f)

-- Every payload whose fields have their sizes is decoded from its encoding.
pub decode-encode_admin_payload :
    (p : AdminCertificatePayload) → Fits p → decode_admin_payload (encode_admin_payload p) ≡ ok p
unfolding decode_admin_payload encode_admin_payload
decode-encode_admin_payload p f = decode-Ends (omega (arith, length-encode_admin_payload p f)) (
    Ends-bind _ magic-Reads (
      Ends-bind _ (array-Reads 32 p.network_id f.network_id) (
        Ends-bind _ (array-Reads 16 p.key_id f.key_id) (
          Ends-bind _ (array-Reads 32 p.public_key f.public_key) (
            Ends-bind _ (uint-Reads 4 p.permissions f.permissions) (
              Ends-bind _ (uint-Reads 8 p.serial f.serial) (
                Ends-bind _ (uint-Reads 8 p.not_before_ms f.not_before_ms) (
                  Ends-bind _ (uint-Reads 8 p.expires_at_ms f.expires_at_ms) (
                    Ends-last _ (array-Reads 16 p.issuer_key_id f.issuer_key_id)
                      (finish-Ends Ends-return))))))))))
