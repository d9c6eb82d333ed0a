-- ===== src/Crypto/Binding/Codec.antt =====
-- The payload of an application binding and its wire form.
use weaver.Prelude.{
  Bytes, List, Option, length, ℕ, ◌<◌, ◌≡◌, All, arith, ◌++◌, ◌+◌, ◌∷◌, [], refl, ◌%◌, ◌*◌, ◌^◌,
  length-append, ◌≤◌, ltb, if◌then◌else◌, some, ◌==◌, ◌&&◌, bytes_eq, none,
}
use weaver.Crypto.{
  CertificateError, zeroes_32, certificate_malformed, too_many_services, invalid_app_role,
  malformed_wire,
}
use weaver.Prelude.Results.{Result, ok, fail_if, err}
use weaver.Wire.Reads.{
  Reads, array-Reads, decode-Ends, Ends-bind, magic-Reads, uint-Reads, Ends-skip, lift-Reads,
  bound_guard-Reads, Ends-last, repeat-Reads, finish-Ends, Ends-return,
}
use weaver.Wire.Ints.{length-to_be}
use mathlib.Core.List.{flat_map}
use weaver.Wire.{
  Parser, ◌>>=◌, ◌>>◌, magic, array, decode, to_be, uint, lift, repeat, finish, return,
}

-- b"WVRBND\0\x01"
abbrev pub app_bind_magic : Bytes
app_bind_magic = b'W' ∷ b'V' ∷ b'R' ∷ b'B' ∷ b'N' ∷ b'D' ∷ 0 ∷ 1 ∷ []

abbrev pub app_bind_fixed_len : ℕ
app_bind_fixed_len = 8 + 32 + 32 + 32 + 1 + 1 + 32 + 8 + 2

abbrev pub max_services_per_binding : ℕ
max_services_per_binding = 64

pub data AppRole : Type 0 where
  server client : AppRole

pub record AppBindingPayload : Type 0 where
  pub network_id : Bytes
  pub app_addr : Bytes
  pub subject : Bytes
  pub role : AppRole
  pub device_id : Option Bytes
  pub expires_at_ms : ℕ
  pub services : List Bytes

unfoldable pub validate_app_role : AppRole → Option Bytes → Result CertificateError (Unit {0})
validate_app_role AppRole.server none = ok tt
validate_app_role AppRole.server (some device) = err invalid_app_role
validate_app_role AppRole.client none = err invalid_app_role
validate_app_role AppRole.client (some device) = ok tt

abbrev role_byte : AppRole → ℕ
role_byte AppRole.server = 0
role_byte AppRole.client = 1

-- `device.unwrap_or([0; 32])`
abbrev device_bytes_of : Option Bytes → Bytes
device_bytes_of none = zeroes_32
device_bytes_of (some device) = device

abbrev device_flag : Option Bytes → ℕ
device_flag none = 0
device_flag (some device) = 1

unfoldable pub encode_app_binding_payload : AppBindingPayload → Bytes
encode_app_binding_payload p =
    app_bind_magic
    ++ (p.network_id
        ++ (p.app_addr
            ++ (p.subject
                ++ (to_be 1 (role_byte p.role)
                    ++ (to_be 1 (device_flag p.device_id)
                        ++ (device_bytes_of p.device_id
                            ++ (to_be 8 p.expires_at_ms
                                ++ (to_be 2 (length p.services % 2 ^ 16)
                                    ++ flat_map (λ service. service) p.services))))))))

role_of : ℕ → Result CertificateError AppRole
role_of byte =
    if byte == 0
    then ok AppRole.server
    else if byte == 1
    then ok AppRole.client
    else err malformed_wire

device_of : ℕ → Bytes → Result CertificateError (Option Bytes)
device_of present bytes =
    if present == 0 && bytes_eq bytes zeroes_32
    then ok none
    else if present == 1
    then ok (some bytes)
    else err malformed_wire

app_binding_payload_parser : Parser CertificateError AppBindingPayload
unfolding role_of device_of
app_binding_payload_parser = do
  magic app_bind_magic
  network_id ← array 32
  app_addr ← array 32
  subject ← array 32
  role_byte ← uint 1
  role ← lift (role_of role_byte)
  device_present ← uint 1
  device_bytes ← array 32
  device_id ← lift (device_of device_present device_bytes)
  expires_at_ms ← uint 8
  service_count ← uint 2
  lift (fail_if (ltb max_services_per_binding service_count) too_many_services)
  services ← repeat service_count (array 16)
  finish
  lift (validate_app_role role device_id)
  return record {
    network_id = network_id;
    app_addr = app_addr;
    subject = subject;
    role = role;
    device_id = device_id;
    expires_at_ms = expires_at_ms;
    services = services;
  }

unfoldable pub decode_app_binding_payload : Bytes → Result CertificateError AppBindingPayload
unfolding app_binding_payload_parser
decode_app_binding_payload = decode app_binding_payload_parser

-- The sizes that the Rust types of the fields give, at most 64 services, and a device exactly for a
-- client.
pub record Fits (p : AppBindingPayload) : Type 0 where
  pub network_id : length p.network_id ≡ 32
  pub app_addr : length p.app_addr ≡ 32
  pub subject : length p.subject ≡ 32
  pub role : validate_app_role p.role p.device_id ≡ ok tt
  pub device_id : length (device_bytes_of p.device_id) ≡ 32
  pub expires_at_ms : p.expires_at_ms < 256 ^ 8
  pub service_count : length p.services ≤ max_services_per_binding
  pub services : All (λ (s : Bytes). length s ≡ 16) p.services

role_of-role_byte : (r : AppRole) → role_of (role_byte r) ≡ ok r
unfolding role_of
role_of-role_byte AppRole.server = refl
role_of-role_byte AppRole.client = refl

device_of-device_bytes : (o : Option Bytes) → device_of (device_flag o) (device_bytes_of o) ≡ ok o
unfolding device_of
device_of-device_bytes none = refl
device_of-device_bytes (some device) = refl

flag-lt : (o : Option Bytes) → device_flag o < 256
flag-lt none = omega arith
flag-lt (some device) = omega arith

role_byte-lt : (r : AppRole) → role_byte r < 256
role_byte-lt AppRole.server = omega arith
role_byte-lt AppRole.client = omega arith

length-services :
    (xs : List Bytes)
    → All (λ (s : Bytes). length s ≡ 16) xs
    → length (flat_map (λ service. service) xs) ≡ length xs * 16
unfolding flat_map
length-services [] h = refl
length-services (x ∷ xs) h =
    omega (arith, length-append x (flat_map (λ service. service) xs), length-services xs h.1, h.0)

services-Reads :
    (xs : List Bytes)
    → All (λ (s : Bytes). length s ≡ 16) xs
    → All (λ (s : Bytes). Reads {E = CertificateError} (array 16) s s) xs
services-Reads [] h = tt
services-Reads (x ∷ xs) h = (array-Reads 16 x h.0, services-Reads xs h.1)

pub length-encode_app_binding_payload :
    (p : AppBindingPayload)
    → Fits p
    → length (encode_app_binding_payload p) ≡ app_bind_fixed_len + length p.services * 16
unfolding encode_app_binding_payload
length-encode_app_binding_payload p f =
    omega (arith, length-append {0}, length-to_be, length-services p.services f.services, f)

-- Every payload that fits is decoded from its encoding, with the services in order.
pub decode-encode_app_binding_payload :
    (p : AppBindingPayload)
    → Fits p
    → decode_app_binding_payload (encode_app_binding_payload p) ≡ ok p
unfolding decode_app_binding_payload encode_app_binding_payload
decode-encode_app_binding_payload p f =
    let count : length p.services % 2 ^ 16 ≡ length p.services = omega (arith, f.service_count) in
    decode-Ends (omega (arith, length-encode_app_binding_payload p f, f.service_count)) (
      rw count (
        Ends-bind _ magic-Reads (
          Ends-bind _ (array-Reads 32 p.network_id f.network_id) (
            Ends-bind _ (array-Reads 32 p.app_addr f.app_addr) (
              Ends-bind _ (array-Reads 32 p.subject f.subject) (
                Ends-bind _ (uint-Reads 1 (role_byte p.role) (role_byte-lt p.role)) (
                  Ends-skip _ (lift-Reads (role_of-role_byte p.role)) (
                    Ends-bind _ (uint-Reads 1 (device_flag p.device_id) (flag-lt p.device_id)) (
                      Ends-bind _ (array-Reads 32 (device_bytes_of p.device_id) f.device_id) (
                        Ends-skip _ (lift-Reads (device_of-device_bytes p.device_id)) (
                          Ends-bind _ (uint-Reads 8 p.expires_at_ms f.expires_at_ms) (
                            Ends-bind _
                              (uint-Reads 2 (length p.services) (omega (arith, f.service_count)))
                              (Ends-skip _
                                (bound_guard-Reads too_many_services 64 (length p.services)
                                  f.service_count)
                                (Ends-last _
                                  (repeat-Reads (array 16) (λ service. service) p.services
                                    (services-Reads p.services f.services))
                                  (finish-Ends
                                    (Ends-skip _ (lift-Reads f.role) Ends-return))))))))))))))))
