-- ===== src/Authority/Invitation.antt =====
-- Invitations of crates/weaver-relay-core/src/invitation.rs: their codec and their checks, and the
-- record that a redeemed invitation leaves. Texts of socket addresses are the standard library's,
-- and endpoint identifiers are iroh's.
pub mod Consumed
pub mod Signed
pub mod Accepts
pub mod Texts
pub mod Issued
pub mod Reading
use weaver.Prelude.{
  [], none, some, ◌∷◌, Bytes, ℕ, List, Option, not, Bool, if◌then◌else◌, is_utf8, ◌==◌, ltb, ◌||◌,
  ◌*◌,
}
use weaver.Wire.{
  Parser, ◌>>=◌, ◌>>◌, return, lift, Malformed, magic, uint, array, repeat, take_bytes, finish,
}
use weaver.Authority.{AuthorityError}
use weaver.Core.{validate_virtual_name}
use weaver.Prelude.Results.{fail_if, Result, map_err, ok_or, err}

-- `SocketAddr` with `to_string` and `from_str`, and `EndpointId::from_bytes(..).is_ok()`.
pub record Addresses : Type 1 where
  pub SocketAddr : Type 0
  pub to_string : SocketAddr → Bytes
  pub from_str : Bytes → Option SocketAddr
  pub is_endpoint : Bytes → Bool

-- b"WVRINV\0\x01"
abbrev pub invitation_magic : Bytes
invitation_magic = b'W' ∷ b'V' ∷ b'R' ∷ b'I' ∷ b'N' ∷ b'V' ∷ 0 ∷ 1 ∷ []

abbrev pub max_direct_addresses : ℕ
max_direct_addresses = 8

instance abbrev pub invitation_malformed : Malformed AuthorityError
invitation_malformed = record { malformed = AuthorityError.invalid_invitation }

-- `Decoder::blob`
unfoldable pub invitation_blob : ℕ → Parser AuthorityError Bytes
invitation_blob max = do
  len ← uint 2
  lift (fail_if ((len == 0) || ltb max len) AuthorityError.invalid_invitation)
  take_bytes len

-- `Decoder::string`
unfoldable pub invitation_string : ℕ → Parser AuthorityError Bytes
invitation_string max = do
  value ← invitation_blob max
  lift (fail_if (not (is_utf8 value)) AuthorityError.invalid_invitation)
  return value

-- The tag of the relay, and the relay.
unfoldable pub relay_of : ℕ → Parser AuthorityError (Option Bytes)
relay_of tag =
    if tag == 0
    then return none
    else if tag == 1
    then (do relay ← invitation_string 2048; return (some relay))
    else lift (err AuthorityError.invalid_invitation)

unfoldable pub bootstrap_relay : Parser AuthorityError (Option Bytes)
bootstrap_relay = do tag ← uint 1; relay_of tag

-- `VirtualName::from_str(..).map_err(|_| AuthorityError::InvalidInvitation)`
unfoldable pub service_name_of : Bytes → Result AuthorityError (Unit {0})
service_name_of name = map_err (λ e. AuthorityError.invalid_invitation) (validate_virtual_name name)

module _ ⦃a : Addresses⦄ where
  pub record InvitationBundle : Type 0 where
    pub invitation_id : Bytes
    pub network_id : Bytes
    pub root_public_key : Bytes
    pub bootstrap_endpoint_id : Bytes
    pub bootstrap_direct_addresses : List a.SocketAddr
    pub bootstrap_relay : Option Bytes
    pub client_app_addr : Bytes
    pub service_name : Bytes
    pub expires_at_ms : ℕ
    pub admin_certificate : Bytes
    pub signer_key_id : Bytes
    pub signed_bytes : Bytes
    pub signature : Bytes

  unfoldable pub address_of : Bytes → Result AuthorityError a.SocketAddr
  address_of text = ok_or (a.from_str text) AuthorityError.invalid_invitation

  unfoldable pub address : Parser AuthorityError a.SocketAddr
  address = do text ← invitation_string 128; lift (address_of text)

  -- What `from_bytes` reads of the signed bytes.
  unfoldable pub invitation_parser : Bytes → Bytes → Parser AuthorityError InvitationBundle
  invitation_parser signed_bytes signature_bytes = do
    magic invitation_magic
    invitation_id ← array 32
    network_id ← array 32
    root_public_key ← array 32
    bootstrap_endpoint_id ← array 32
    address_count ← uint 1
    lift (fail_if (ltb max_direct_addresses address_count) AuthorityError.invalid_invitation)
    bootstrap_direct_addresses ← repeat address_count address
    bootstrap_relay ← bootstrap_relay
    client_app_addr ← array 32
    service_name ← invitation_string 255
    lift (service_name_of service_name)
    expires_at_ms ← uint 8
    admin_certificate ← invitation_blob (16 * 1024)
    signer_key_id ← array 16
    finish
    return record {
      invitation_id = invitation_id;
      network_id = network_id;
      root_public_key = root_public_key;
      bootstrap_endpoint_id = bootstrap_endpoint_id;
      bootstrap_direct_addresses = bootstrap_direct_addresses;
      bootstrap_relay = bootstrap_relay;
      client_app_addr = client_app_addr;
      service_name = service_name;
      expires_at_ms = expires_at_ms;
      admin_certificate = admin_certificate;
      signer_key_id = signer_key_id;
      signed_bytes = signed_bytes;
      signature = signature_bytes;
    }
