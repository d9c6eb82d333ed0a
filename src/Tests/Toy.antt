-- ===== src/Tests/Toy.antt =====
-- A concrete instance of the cryptographic primitives: keys are their own public keys, a signature
-- is its key and message, a hash is its message; all are cut or padded to their sizes.
use weaver.Crypto.{IsSound, Primitives, root_public}
use weaver.Prelude.{
  zero, suc, Bytes, ℕ, [], bytes_eq_self, length, ◌++◌, ◌∷◌, ◌==◌, ◌≡◌, ap, bytes_eq, refl,
}

abbrev pub fit : ℕ → Bytes → Bytes
fit zero bytes = []
fit (suc n) [] = 0 ∷ fit n []
fit (suc n) (b ∷ bytes) = b ∷ fit n bytes

length-fit : (n : ℕ) (bytes : Bytes) → length (fit n bytes) ≡ n
length-fit zero bytes = refl
length-fit (suc n) [] = ap suc (length-fit n [])
length-fit (suc n) (b ∷ bytes) = ap suc (length-fit n bytes)

instance abbrev pub toy : Primitives
toy = record {
  public_key = fit 32;
  sign = λ secret payload. fit 64 (fit 32 secret ++ payload);
  is_key = λ key. length key == 32;
  signed_by = λ key payload signature. bytes_eq signature (fit 64 (key ++ payload));
  derive_key = λ context material. fit 32 material;
}

pub toy-IsSound : IsSound toy
toy-IsSound = record {
  accepts = λ secret payload. bytes_eq_self (fit 64 (fit 32 secret ++ payload));
  public_is_key = λ secret. rw (length-fit 32 secret);
  length_public = length-fit 32;
  length_sign = λ secret payload. length-fit 64 _;
  length_derived = λ context material. length-fit 32 material;
}

-- Three keys, and the network of the first.
abbrev pub root : Bytes
root = fit 32 (1 ∷ [])

abbrev pub admin : Bytes
admin = fit 32 (2 ∷ [])

abbrev pub member : Bytes
member = fit 32 (3 ∷ [])

abbrev pub network : Bytes
network = (root_public root).network_id
