-- ===== src/Tests/Opening.antt =====
-- A revision sealed by an administrator, opened by a reader of the snapshot before it. The ciphers
-- pass their text on.
use weaver.Prelude.ByteStrings.{is_utf8, utf8_from}
use weaver.Prelude.{[], ◌∷◌, Bytes, some, ◌≢◌, refl, ◌≡◌}
use weaver.Config.Snapshot.Decode
use weaver.Config.Snapshot.{
  NetworkConfigV1, push_sections, assemble, push_list, push_count, push_each, push_admin_key,
  push_blob, push_blobs, push_serial, push_dns_record, push_string, push_relay, push_presence,
  validate_url, Sections, validate_shape, check_len, check_credentials,
}
use weaver.Tests.Issuing.{verified_admin}
use weaver.Tests.Toy.{toy, fit, network, admin, root}
use weaver.Crypto.Admin
use weaver.Config.Open.{
  Ciphers, MemberEncryptionKeypair, OpenedNetworkConfig, open_next_config,
  open_config_with_verified_admin, open_after_verified_signature, decode_and_validate_opened,
  envelope_aad, find_content_key, unwrap_content_key,
}
use weaver.Config.{EncryptedConfigEnvelope, Hashing}
use weaver.Config.Chain.{ConfigHead, envelope_hash, validate_chain}
use weaver.Config.Open.Successor.{IsSuccessor, open_next_config-IsSuccessor}
use weaver.Config.Open.Updates.{
  IsAhead, Updates, Updates-IsAhead, one_more, none_yet, open_next_config_refuses_replay,
}
use weaver.Tests.Snapshots.{config}
use weaver.Crypto.{
  root_public, validate_time, verify_signature, verifying_key_of, contains, append_signature,
  root_public_of, derive_network_id, derive_key_id, admin_key_id, lacks,
}
use weaver.Prelude.Results.{ok, err}
use weaver.Config.Snapshot.Admins.{find_admin}
use weaver.Crypto.Admin.Codec.{decode_admin_payload, encode_admin_payload}
use weaver.Wire.{
  decode, start, take_bytes, to_be, array, magic, uint, finish, from_be, from_be_acc, repeat,
}
use weaver.Config.Snapshot.Validate.{
  collect_serials, validate, check_header, admit_admin, insert_new, validate_descriptors,
  check_relay,
}
use weaver.Prelude.Loops.{for_each, get}
use weaver.Config.Snapshot.Codec.{
  config_parser, count, list_of, blob, blobs, string, admin_key, relay, presence_service,
  epoch_secrets, network_policy, virtual_dns,
}
use weaver.Config.Snapshot.Admins

instance abbrev plain_ciphers : Ciphers
plain_ciphers = record {
  decrypt = λ key nonce aad text. some text;
  hpke_open = λ secret encapsulated info aad text. some (fit 32 secret);
}

instance abbrev toy_hash : Hashing
toy_hash = record { hash = fit 32 }

abbrev head : ConfigHead
head = record { epoch = 1; revision = 2; hash = fit 32 (6 ∷ []) }

abbrev next_config : NetworkConfigV1
next_config = record config { revision = 3; previous_hash = head.hash; virtual_dns = []; apps = [] }

abbrev next_sections : Sections
unfolding push_sections push_list push_count push_each push_admin_key push_blob push_blobs
    push_serial push_dns_record push_string push_relay push_presence validate_url to_be
next_sections = elim (push_sections next_config) [
  | ok s ↦ s
  | err e ↦ record {
    admin_keys = [];
    members = [];
    endpoint_bindings = [];
    revoked_serials = [];
    apps = [];
    app_bindings = [];
    virtual_dns = [];
    relays = [];
    presence_services = [];
  }
]

abbrev text : Bytes
text = assemble next_config next_sections

abbrev signed_bytes : Bytes
signed_bytes = 1 ∷ 2 ∷ 3 ∷ []

abbrev envelope : EncryptedConfigEnvelope
envelope = record {
  format_version = 1;
  network_id = network;
  epoch = 1;
  revision = 3;
  previous_hash = head.hash;
  payload_hash = fit 32 text;
  nonce = fit 24 [];
  ciphertext = text;
  member_key_wraps = record { encapsulated_key = 5 ∷ []; ciphertext = 6 ∷ [] } ∷ [];
  signer_key_id = verified_admin.payload.key_id;
  signed_bytes = signed_bytes;
  signature = toy.sign admin signed_bytes;
}

abbrev reader : MemberEncryptionKeypair
reader = record { secret = fit 32 (9 ∷ []); public = fit 32 (9 ∷ []) }

abbrev start_state : OpenedNetworkConfig
start_state = record { config = record { inner = config }; head = head }

abbrev end_state : OpenedNetworkConfig
end_state = record {
  config = record { inner = next_config };
  head = record { epoch = 1; revision = 3; hash = envelope_hash envelope };
}

opens :
    open_next_config envelope (root_public root) start_state.config reader head 150 ≡ ok end_state
unfolding open_next_config open_config_with_verified_admin open_after_verified_signature
    decode_and_validate_opened validate_chain envelope_aad find_content_key unwrap_content_key
    envelope_hash Admins.verified_admin find_admin Admin.from_bytes Admin.to_bytes Admin.verify
    decode_admin_payload decode validate_time start take_bytes array magic uint finish from_be
    from_be_acc to_be verify_signature verifying_key_of Admin.sign_payload contains
    Admin.issued_payload encode_admin_payload append_signature root_public root_public_of
    derive_network_id derive_key_id admin_key_id collect_serials validate check_header
    validate_shape check_len check_credentials for_each admit_admin insert_new get
    validate_descriptors check_relay validate_url Admin.verify_bytes lacks push_sections push_list
    push_count push_each push_admin_key push_blob push_blobs push_serial push_dns_record push_string
    push_relay push_presence Decode.from_bytes config_parser count list_of repeat blob blobs string
    admin_key relay presence_service epoch_secrets network_policy virtual_dns is_utf8 utf8_from
opens = refl

open_next_config-IsSuccessor_example :
    IsSuccessor envelope (root_public root) config head 150 end_state
open_next_config-IsSuccessor_example =
    open_next_config-IsSuccessor envelope (root_public root) start_state.config reader head 150
      end_state opens

one_update : Updates (root_public root) start_state end_state 1
one_update = one_more envelope reader 150 end_state none_yet opens

Updates-IsAhead_example : IsAhead start_state end_state 1
Updates-IsAhead_example =
    Updates-IsAhead (root_public root) start_state end_state 1
      (record { epoch = refl; revision = refl }) one_update

open_next_config_refuses_replay_example :
    open_next_config envelope (root_public root) end_state.config reader end_state.head 160
    ≢ ok end_state
open_next_config_refuses_replay_example =
    open_next_config_refuses_replay (root_public root) start_state end_state 0 envelope reader
      reader 150 160 end_state end_state (record { epoch = refl; revision = refl }) one_update opens
