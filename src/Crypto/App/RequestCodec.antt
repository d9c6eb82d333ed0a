-- ===== src/Crypto/App/RequestCodec.antt =====
-- The payload of a request for an application registration and its wire form.
use weaver.Prelude.{ℕ, ◌+◌, ◌<◌, ◌^◌, ◌≡◌, ◌++◌, Bytes, length, length-append, [], ◌∷◌, arith}
use weaver.Prelude.Results.{Result, ok}
use weaver.Wire.{Parser, to_be, array, magic, uint, finish, return, decode, ◌>>=◌, ◌>>◌}
use weaver.Wire.Ints.{length-to_be}
use weaver.Wire.Reads.{
  Ends-bind, Ends-last, Ends-return, finish-Ends, magic-Reads, array-Reads, uint-Reads, decode-Ends,
}
use weaver.Crypto.{CertificateError, certificate_malformed}

-- b"WVRAPR\0\x01"
abbrev pub app_reg_request_magic : Bytes
app_reg_request_magic = b'W' ∷ b'V' ∷ b'R' ∷ b'A' ∷ b'P' ∷ b'R' ∷ 0 ∷ 1 ∷ []

abbrev pub app_reg_request_payload_len : ℕ
app_reg_request_payload_len = 8 + 32 + 32 + 32 + 4

pub record AppRegistrationRequestPayload : Type 0 where
  pub network_id : Bytes
  pub app_addr : Bytes
  pub app_root_public_key : Bytes
  pub policy : ℕ

unfoldable pub encode_app_registration_request_payload : AppRegistrationRequestPayload → Bytes
encode_app_registration_request_payload p =
    app_reg_request_magic
    ++ (p.network_id ++ (p.app_addr ++ (p.app_root_public_key ++ to_be 4 p.policy)))

app_registration_request_payload_parser : Parser CertificateError AppRegistrationRequestPayload
app_registration_request_payload_parser = do
  magic app_reg_request_magic
  network_id ← array 32
  app_addr ← array 32
  app_root_public_key ← array 32
  policy ← uint 4
  finish
  return record {
    network_id = network_id;
    app_addr = app_addr;
    app_root_public_key = app_root_public_key;
    policy = policy;
  }

unfoldable pub decode_app_registration_request_payload :
    Bytes → Result CertificateError AppRegistrationRequestPayload
unfolding app_registration_request_payload_parser
decode_app_registration_request_payload = decode app_registration_request_payload_parser

-- The sizes that the Rust types of the fields give.
pub record Fits (p : AppRegistrationRequestPayload) : Type 0 where
  pub network_id : length p.network_id ≡ 32
  pub app_addr : length p.app_addr ≡ 32
  pub app_root_public_key : length p.app_root_public_key ≡ 32
  pub policy : p.policy < 256 ^ 4

pub length-encode_app_registration_request_payload :
    (p : AppRegistrationRequestPayload)
    → Fits p
    → length (encode_app_registration_request_payload p) ≡ app_reg_request_payload_len
unfolding encode_app_registration_request_payload
length-encode_app_registration_request_payload p f =
    omega (arith, length-append {0}, length-to_be, f)

-- Every payload whose fields have their sizes is decoded from its encoding.
pub decode-encode_app_registration_request_payload :
    (p : AppRegistrationRequestPayload)
    → Fits p
    → decode_app_registration_request_payload (encode_app_registration_request_payload p) ≡ ok p
unfolding decode_app_registration_request_payload encode_app_registration_request_payload
decode-encode_app_registration_request_payload p f =
    decode-Ends (omega (arith, length-encode_app_registration_request_payload p f)) (
      Ends-bind _ magic-Reads (
        Ends-bind _ (array-Reads 32 p.network_id f.network_id) (
          Ends-bind _ (array-Reads 32 p.app_addr f.app_addr) (
            Ends-bind _ (array-Reads 32 p.app_root_public_key f.app_root_public_key)
              (Ends-last _ (uint-Reads 4 p.policy f.policy) (finish-Ends Ends-return))))))
