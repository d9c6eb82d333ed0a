-- ===== src/Config/Chain/Batch.antt =====
-- The encoding of `ConfigUpdateBatch` of crates/weaver-config/src/lib.rs.
use weaver.Prelude.{[], ◌∷◌, Bytes, ◌++◌, ltb, length, ◌%◌, ◌^◌}
use weaver.Wire.{
  Parser, ◌>>=◌, ◌>>◌, return, lift, magic, uint, array, to_be, repeat, take_bytes, finish,
}
use weaver.Config.Chain.{ConfigUpdateBatch}
use weaver.Config.{
  config_malformed, ConfigError, max_update_batch_bytes, max_update_envelopes,
  update_batch_too_large,
}
use weaver.Prelude.Results.{fail_if}

-- b"WVRUPD\0\x01"
abbrev pub update_batch_magic : Bytes
update_batch_magic = b'W' ∷ b'V' ∷ b'R' ∷ b'U' ∷ b'P' ∷ b'D' ∷ 0 ∷ 1 ∷ []

-- What `to_bytes` writes in front of the envelopes.
abbrev pub batch_header : ConfigUpdateBatch → Bytes
batch_header self =
    update_batch_magic
    ++ (self.network_id
        ++ (to_be 8 self.base_head.epoch
            ++ (to_be 8 self.base_head.revision
                ++ (self.base_head.hash ++ to_be 4 (length self.envelopes % 2 ^ 32)))))

unfoldable pub envelope_item : Parser ConfigError Bytes
envelope_item = do
  len ← uint 4
  lift (fail_if (ltb max_update_batch_bytes len) update_batch_too_large)
  take_bytes len

-- What `from_bytes` reads before it checks the chain.
unfoldable pub batch_parser : Parser ConfigError ConfigUpdateBatch
batch_parser = do
  magic update_batch_magic
  network_id ← array 32
  epoch ← uint 8
  revision ← uint 8
  hash ← array 32
  count ← uint 4
  lift (fail_if (ltb max_update_envelopes count) update_batch_too_large)
  envelopes ← repeat count envelope_item
  finish
  return record {
    network_id = network_id;
    base_head = record { epoch = epoch; revision = revision; hash = hash };
    envelopes = envelopes;
  }
