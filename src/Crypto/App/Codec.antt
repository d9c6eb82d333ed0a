-- ===== src/Crypto/App/Codec.antt =====
-- The payload of an application registration and its wire form.
use weaver.Prelude.{ℕ, ◌+◌, ◌<◌, ◌^◌, ◌≡◌, ◌++◌, Bytes, length, length-append, [], ◌∷◌, arith}
use weaver.Prelude.Results.{Result, ok}
use weaver.Wire.{Parser, to_be, array, magic, uint, finish, return, decode, ◌>>=◌, ◌>>◌}
use weaver.Wire.Ints.{length-to_be}
use weaver.Wire.Reads.{
  Ends-bind, Ends-last, Ends-return, finish-Ends, magic-Reads, array-Reads, uint-Reads, decode-Ends,
}
use weaver.Crypto.{CertificateError, certificate_malformed}

-- b"WVRAPP\0\x01"
abbrev pub app_reg_magic : Bytes
app_reg_magic = b'W' ∷ b'V' ∷ b'R' ∷ b'A' ∷ b'P' ∷ b'P' ∷ 0 ∷ 1 ∷ []

abbrev pub app_reg_payload_len : ℕ
app_reg_payload_len = 8 + 32 + 32 + 32 + 4 + 16

pub record AppRegistrationPayload : Type 0 where
  pub network_id : Bytes
  pub app_addr : Bytes
  pub app_root_public_key : Bytes
  pub policy : ℕ
  pub issuer_key_id : Bytes

unfoldable pub encode_app_registration_payload : AppRegistrationPayload → Bytes
encode_app_registration_payload p =
    app_reg_magic
    ++ (p.network_id
        ++ (p.app_addr ++ (p.app_root_public_key ++ (to_be 4 p.policy ++ p.issuer_key_id))))

app_registration_payload_parser : Parser CertificateError AppRegistrationPayload
app_registration_payload_parser = do
  magic app_reg_magic
  network_id ← array 32
  app_addr ← array 32
  app_root_public_key ← array 32
  policy ← uint 4
  issuer_key_id ← array 16
  finish
  return record {
    network_id = network_id;
    app_addr = app_addr;
    app_root_public_key = app_root_public_key;
    policy = policy;
    issuer_key_id = issuer_key_id;
  }

unfoldable pub decode_app_registration_payload :
    Bytes → Result CertificateError AppRegistrationPayload
unfolding app_registration_payload_parser
decode_app_registration_payload = decode app_registration_payload_parser

-- The sizes that the Rust types of the fields give.
pub record Fits (p : AppRegistrationPayload) : Type 0 where
  pub network_id : length p.network_id ≡ 32
  pub app_addr : length p.app_addr ≡ 32
  pub app_root_public_key : length p.app_root_public_key ≡ 32
  pub policy : p.policy < 256 ^ 4
  pub issuer_key_id : length p.issuer_key_id ≡ 16

pub length-encode_app_registration_payload :
    (p : AppRegistrationPayload)
    → Fits p
    → length (encode_app_registration_payload p) ≡ app_reg_payload_len
unfolding encode_app_registration_payload
length-encode_app_registration_payload p f = omega (arith, length-append {0}, length-to_be, f)

-- Every payload whose fields have their sizes is decoded from its encoding.
pub decode-encode_app_registration_payload :
    (p : AppRegistrationPayload)
    → Fits p
    → decode_app_registration_payload (encode_app_registration_payload p) ≡ ok p
unfolding decode_app_registration_payload encode_app_registration_payload
decode-encode_app_registration_payload p f =
    decode-Ends (omega (arith, length-encode_app_registration_payload p f)) (
      Ends-bind _ magic-Reads (
        Ends-bind _ (array-Reads 32 p.network_id f.network_id) (
          Ends-bind _ (array-Reads 32 p.app_addr f.app_addr) (
            Ends-bind _ (array-Reads 32 p.app_root_public_key f.app_root_public_key) (
              Ends-bind _ (uint-Reads 4 p.policy f.policy) (
                Ends-last _ (array-Reads 16 p.issuer_key_id f.issuer_key_id)
                  (finish-Ends Ends-return)))))))
