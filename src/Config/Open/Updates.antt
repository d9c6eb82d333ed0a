-- ===== src/Config/Open/Updates.antt =====
-- A reader of crates/weaver-config/src/lib.rs that opens one envelope after the other.

-- The readers that `n` opened envelopes lead to. A reader is its snapshot and its head.
use weaver.Crypto.{Primitives, NetworkRootPublic}
use weaver.Config.Open.{OpenedNetworkConfig, Ciphers, MemberEncryptionKeypair, open_next_config}
use weaver.Config.{Hashing, EncryptedConfigEnvelope}
use weaver.Config.Chain.Expectation.{Meets}
use weaver.Prelude.Results.{ok}
use weaver.Config.Open.Successor.{open_next_config-IsSuccessor}
use weaver.Prelude.{zero, suc, ℕ, ◌≡◌, ◌+◌, ◌≤◌, arith, ◌≢◌, ◌∙◌, sym, refl}

pub data Updates ⦃c : Primitives⦄ ⦃k : Ciphers⦄ ⦃h : Hashing⦄ (root : NetworkRootPublic)
    (s : OpenedNetworkConfig) : OpenedNetworkConfig → ℕ → Type 0 where
  none_yet : Updates root s s 0
  one_more :
      {t : OpenedNetworkConfig} {n : ℕ} (envelope : EncryptedConfigEnvelope)
      (recipient : MemberEncryptionKeypair) (now_ms : ℕ) (opened : OpenedNetworkConfig)
      → Updates root s t n
      → open_next_config envelope root t.config recipient t.head now_ms ≡ ok opened
      → Updates root s opened (suc n)

-- The snapshot of a reader has the numbers of its head.
pub record InStep (s : OpenedNetworkConfig) : Type 0 where
  pub epoch : s.config.inner.epoch ≡ s.head.epoch
  pub revision : s.config.inner.revision ≡ s.head.revision

pub record IsAhead (s t : OpenedNetworkConfig) (n : ℕ) : Type 0 where
  pub in_step : InStep t
  pub network : t.config.inner.network_id ≡ s.config.inner.network_id
  pub revision : t.head.revision ≡ s.head.revision + n
  pub epoch : s.head.epoch ≤ t.head.epoch

module _ ⦃c : Primitives⦄ ⦃k : Ciphers⦄ ⦃h : Hashing⦄ (root : NetworkRootPublic)
    (s : OpenedNetworkConfig) where
  -- A reader whose snapshot has the numbers of its head keeps it so; each opened envelope takes it
  -- one revision further, it stays in its network, and its epoch never goes back.
  pub Updates-IsAhead :
      (t : OpenedNetworkConfig) (n : ℕ) → InStep s → Updates root s t n → IsAhead s t n
  unfolding Meets
  Updates-IsAhead t zero i none_yet = record {
    in_step = i;
    network = refl;
    revision = omega arith;
    epoch = omega arith;
  }
  Updates-IsAhead t (suc n) i (one_more {t = m} envelope recipient now_ms _ u q) =
      let a = Updates-IsAhead m n i u in
      let f = open_next_config-IsSuccessor envelope root m.config recipient m.head now_ms t q in
      let (room, next, previous, later) = f.follows in
      record {
        in_step = record {
          epoch = f.content.epoch ∙ sym f.content.head_epoch;
          revision = f.content.revision ∙ sym f.content.head_revision;
        };
        network = f.content.accepted.current.network ∙ f.network ∙ a.network;
        revision = omega (arith, f.content.head_revision, next, a.revision);
        epoch = omega (arith, a.epoch, later, f.content.head_epoch);
      }

  -- A reader that has opened an envelope since refuses every envelope that it could open before,
  -- whoever sends it and whenever.
  pub open_next_config_refuses_replay :
      (t : OpenedNetworkConfig) (n : ℕ) (envelope : EncryptedConfigEnvelope)
      (then now : MemberEncryptionKeypair) (then_ms now_ms : ℕ) (first again : OpenedNetworkConfig)
      → InStep s
      → Updates root s t (suc n)
      → open_next_config envelope root s.config then s.head then_ms ≡ ok first
      → open_next_config envelope root t.config now t.head now_ms ≢ ok again
  unfolding Meets
  open_next_config_refuses_replay t n envelope then now then_ms now_ms first again i u p q =
      let a = Updates-IsAhead t (suc n) i u in
      let (room, next, previous, later) =
        (open_next_config-IsSuccessor envelope root s.config then s.head then_ms first p).follows in
      let (room', next', previous', later') =
        (open_next_config-IsSuccessor envelope root t.config now t.head now_ms again q).follows in
      omega (arith, next, next', a.revision)
