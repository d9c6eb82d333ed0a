-- ===== src/Tests/Configuring.antt =====
-- A batch of one configuration revision.
use weaver.Config.Chain.Laws
use weaver.Config.Chain.Expectation
use weaver.Config.{
  Hashing, envelope_magic, max_update_envelopes, max_update_batch_bytes, EncryptedConfigEnvelope,
  envelope_parser, update_batch_too_large, key_wrap, wrap_part,
}
use weaver.Config.Chain.{
  ConfigHead, new_update_batch, ConfigUpdateBatch, validate_chain, ChainExpectation,
  check_envelopes, from_bytes, envelope_hash, to_bytes,
}
use weaver.Tests.Toy.{fit}
use weaver.Prelude.Results.{ok, err}
use weaver.Config.Chain.Laws.{total_length, Linked}
use weaver.Config.Chain.Expectation.{Meets}
use weaver.Config.Chain.Batch.{batch_header}
use weaver.Config.Chain.BatchCodec.{
  batch_to_bytes, batch_from_bytes, encode_envelopes, batch_from_bytes-batch_to_bytes,
}
use weaver.Config.Encode.{
  encode_signed_bytes, encode_wraps, encode_wrap, from_bytes-to_bytes_envelope,
}
use weaver.Wire.{
  to_be, decode, start, take_bytes, array, magic, uint, finish, repeat, from_be, from_be_acc,
}
use weaver.Prelude.{
  [], Bytes, ◌++◌, ◌∷◌, ◌≡◌, ◌↔◌, length, ◌≤◌, ◌+◌, ◌<◌, ◌^◌, refl, take, ◌*◌, ◌-◌, if◌then◌else◌,
  ltb, arith, leb→le,
}

instance abbrev toy_hash : Hashing
toy_hash = record { hash = fit 32 }

-- The magic, format 1, network, epoch 0, revision 1, two hashes, nonce, a ciphertext of one byte,
-- one key wrap, the signer and the signature.
abbrev raw : Bytes
raw =
    envelope_magic
    ++ ((0 ∷ 1 ∷ [])
        ++ (fit 32 (7 ∷ [])
            ++ (fit 8 []
                ++ (fit 7 []
                    ++ ((1 ∷ [])
                        ++ (fit 32 []
                            ++ (fit 32 []
                                ++ (fit 24 []
                                    ++ ((0 ∷ 0 ∷ 0 ∷ 1 ∷ 9 ∷ [])
                                        ++ ((0 ∷ 1 ∷ 0 ∷ 1 ∷ 5 ∷ 0 ∷ 1 ∷ 6 ∷ [])
                                            ++ (fit 16 [] ++ fit 64 [])))))))))))

abbrev head : ConfigHead
head = record { epoch = 0; revision = 0; hash = fit 32 [] }

new_update_batch_iff_example :
    (new_update_batch (fit 32 (7 ∷ [])) head (raw ∷ [])
      ≡ ok (record { network_id = fit 32 (7 ∷ []); base_head = head; envelopes = raw ∷ [] }))
    ↔ ((length (raw ∷ []) ≤ max_update_envelopes)
        × (head.revision + 1 < 2 ^ 64)
        × (total_length (raw ∷ []) ≤ max_update_batch_bytes)
        × Linked (fit 32 (7 ∷ [])) (head.revision + 1) head.hash (raw ∷ [])
        × (◌≡◌ {A = ConfigUpdateBatch}
            (record { network_id = fit 32 (7 ∷ []); base_head = head; envelopes = raw ∷ [] })
            (record { network_id = fit 32 (7 ∷ []); base_head = head; envelopes = raw ∷ [] })))
new_update_batch_iff_example =
    Laws.new_update_batch_iff (fit 32 (7 ∷ [])) head (raw ∷ [])
      (record { network_id = fit 32 (7 ∷ []); base_head = head; envelopes = raw ∷ [] })

abbrev envelope : EncryptedConfigEnvelope
envelope = record {
  format_version = 1;
  network_id = fit 32 (7 ∷ []);
  epoch = 0;
  revision = 1;
  previous_hash = fit 32 [];
  payload_hash = fit 32 [];
  nonce = fit 24 [];
  ciphertext = 9 ∷ [];
  member_key_wraps = record { encapsulated_key = 5 ∷ []; ciphertext = 6 ∷ [] } ∷ [];
  signer_key_id = fit 16 [];
  signed_bytes = [];
  signature = fit 64 [];
}

follows : validate_chain envelope (ChainExpectation.next head) ≡ ok tt
unfolding validate_chain
follows = refl

validate_chain_iff_example :
    (validate_chain envelope (ChainExpectation.next head) ≡ ok tt)
    ↔ Meets envelope (ChainExpectation.next head)
validate_chain_iff_example = Expectation.validate_chain_iff envelope (ChainExpectation.next head)

abbrev sent : ConfigUpdateBatch
sent = record { network_id = fit 32 (7 ∷ []); base_head = head; envelopes = raw ∷ [] }

abbrev sent_bytes : Bytes
sent_bytes = batch_header sent ++ (to_be 4 (length raw) ++ raw)

sent_encoded : batch_to_bytes sent ≡ ok sent_bytes
unfolding batch_to_bytes new_update_batch check_envelopes from_bytes envelope_hash encode_envelopes
    envelope_parser key_wrap wrap_part decode start take_bytes array magic uint finish repeat
    from_be from_be_acc to_be to_bytes
sent_encoded = refl

batch_from_bytes-batch_to_bytes_example :
    (length sent_bytes ≡ 92 + (4 * length sent.envelopes + total_length sent.envelopes))
    × (batch_from_bytes sent_bytes ≡ (
        if ltb max_update_batch_bytes (length sent_bytes)
        then err update_batch_too_large
        else ok sent))
batch_from_bytes-batch_to_bytes_example =
    batch_from_bytes-batch_to_bytes sent sent_bytes
      (record { network_id = refl; epoch = omega arith; revision = omega arith; hash = refl })
      sent_encoded

abbrev signed : Bytes
signed = take (length raw - 64) raw

abbrev sealed : EncryptedConfigEnvelope
sealed = record envelope { signed_bytes = signed; signature = fit 64 [] }

from_bytes-to_bytes_envelope_example : from_bytes (to_bytes sealed) ≡ ok sealed
unfolding encode_signed_bytes encode_wraps encode_wrap to_be to_bytes
from_bytes-to_bytes_envelope_example =
    from_bytes-to_bytes_envelope sealed
      (record {
        format_version = refl;
        network_id = refl;
        epoch = omega arith;
        revision = omega arith;
        previous_hash = refl;
        payload_hash = refl;
        nonce = refl;
        ciphertext = leb→le _ _ refl;
        wraps_some = omega arith;
        wraps_fit = leb→le _ _ refl;
        wraps = (
          record {
            encapsulated_some = omega arith;
            encapsulated_fits = leb→le _ _ refl;
            ciphertext_some = omega arith;
            ciphertext_fits = leb→le _ _ refl;
          },
          tt,
        );
        signer_key_id = refl;
        signed = refl;
        signature = refl;
      })
      (leb→le _ _ refl)
