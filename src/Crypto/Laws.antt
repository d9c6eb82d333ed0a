-- ===== src/Crypto/Laws.antt =====
-- What the shared checks of the certificates accept.
use weaver.Prelude.{
  [], ◌∷◌, List, All, ◌≢◌, ◌↔◌, ||-eq-false, ==_iff, refl, ℕ, ◌≤◌, ◌<◌, ◌≡◌, Bool, true, false,
  ◌||◌, not, Bytes, bytes_eq, bytes_eq_sound, bytes_eq_self, length, length-take, arith, drop, take,
  drop-append, take-append, ◌==◌, ◌+◌, ◌++◌, length-append, ==_self, ltb, leb,
}
use weaver.Prelude.Results.{Result, ok, ◌>>=◌, ◌>>◌, fail_if, fail_if-eq-ok}
use weaver.Crypto.{
  CertificateError, Primitives, IsSound, validate_time, verify_signature, verifying_key_of,
  derive_key_id, root_public, root_public_from_bytes, append_signature, root_public_of,
  derive_network_id, contains,
}

pub validate_time-window :
    (not_before expires now : ℕ)
    → validate_time not_before expires now ≡ ok tt
    → (not_before ≤ now) × (now < expires)
unfolding validate_time
validate_time-window not_before expires now h = ground arith

pub validate_time-accepts :
    (not_before expires now : ℕ)
    → not_before ≤ now
    → now < expires
    → validate_time not_before expires now ≡ ok tt
unfolding validate_time
validate_time-accepts not_before expires now a b = ground arith

-- No serial number of a list is the given one.
abbrev pub IsAbsent : List ℕ → ℕ → Type 0
IsAbsent serials serial = All (λ listed. listed ≢ serial) serials

pub contains_iff :
    (serials : List ℕ) (serial : ℕ) → (contains serials serial ≡ false) ↔ IsAbsent serials serial
unfolding contains
contains_iff [] serial = (λ h. tt, λ a. refl)
contains_iff (x ∷ xs) serial = (
  λ h.
      let (d, h) = ||-eq-false (x == serial) (contains xs serial) h in
      (λ e. let s = (==_iff x serial).1 e in cc, (contains_iff xs serial).0 h),
  λ (d, a).
      let n : (x == serial) ≡ false = ground (arith, d) in
      rw (n, (contains_iff xs serial).1 a) refl,
)

-- Inversions of one guard in front of the rest of a check.
module _ {B : Type 0} {b : B} (k : Result CertificateError B) where
  pub guard_eq :
      (x y : Bytes) (e : CertificateError)
      → (fail_if (not (bytes_eq x y)) e >> k) ≡ ok b
      → (x ≡ y) × (k ≡ ok b)
  guard_eq x y e h = ground (arith, bytes_eq_sound x y)

  pub guard_eq_two :
      (x y u v : Bytes) (e : CertificateError)
      → (fail_if (not (bytes_eq x y) || not (bytes_eq u v)) e >> k) ≡ ok b
      → (x ≡ y) × (u ≡ v) × (k ≡ ok b)
  guard_eq_two x y u v e h = ground (arith, bytes_eq_sound x y, bytes_eq_sound u v)

  pub guard_eq_three :
      (x y u v z w : Bytes) (e : CertificateError)
      → (fail_if (not (bytes_eq x y) || (not (bytes_eq u v) || not (bytes_eq z w))) e >> k) ≡ ok b
      → (x ≡ y) × (u ≡ v) × (z ≡ w) × (k ≡ ok b)
  guard_eq_three x y u v z w e h =
      ground (arith, bytes_eq_sound x y, bytes_eq_sound u v, bytes_eq_sound z w)

  pub guard_false :
      (t : Bool) (e : CertificateError) → (fail_if t e >> k) ≡ ok b → (t ≡ false) × (k ≡ ok b)
  guard_false t e h = fail_if-eq-ok t e k h

  pub guard_length :
      (m n : ℕ) (e : CertificateError)
      → (fail_if (not (m == n)) e >> k) ≡ ok b
      → (m ≡ n) × (k ≡ ok b)
  guard_length m n e h = ground arith

  pub guard_time :
      (not_before expires now : ℕ)
      → (validate_time not_before expires now >> k) ≡ ok b
      → (not_before ≤ now) × (now < expires) × (k ≡ ok b)
  unfolding validate_time
  guard_time not_before expires now h = ground arith

  pub guard_binding :
      (x y u v : Bytes) (m n i j : ℕ) (e : CertificateError)
      → (fail_if (not (bytes_eq x y) || (not (bytes_eq u v) || (not (m == n) || not (i == j)))) e
          >> k)
        ≡ ok b
      → (x ≡ y) × (u ≡ v) × (m ≡ n) × (i ≡ j) × (k ≡ ok b)
  guard_binding x y u v m n i j e h = ground (arith, bytes_eq_sound x y, bytes_eq_sound u v)

  pub guard_unexpired :
      (expires now : ℕ) (e : CertificateError)
      → (fail_if (leb expires now) e >> k) ≡ ok b
      → (now < expires) × (k ≡ ok b)
  guard_unexpired expires now e h = ground arith

  -- The window `[low, high)` leaves the window `[not_before, expires)`.
  pub guard_window :
      (low not_before expires high : ℕ) (e : CertificateError)
      → (fail_if (ltb not_before low || ltb high expires) e >> k) ≡ ok b
      → (low ≤ not_before) × (expires ≤ high) × (k ≡ ok b)
  guard_window low not_before expires high e h = ground arith

  -- The same with the test that the inner window is not empty.
  pub guard_issued_window :
      (low not_before expires high : ℕ) (e : CertificateError)
      → (fail_if (leb expires not_before || (ltb not_before low || ltb high expires)) e >> k) ≡ ok b
      → (low ≤ not_before) × (expires ≤ high) × (k ≡ ok b)
  guard_issued_window low not_before expires high e h = ground arith

module _ ⦃c : Primitives⦄ {B : Type 0} {b : B} where
  pub guard_signature :
      (k : Result CertificateError B) (key payload signature : Bytes)
      → (verify_signature key payload signature >> k) ≡ ok b
      → (c.signed_by key payload signature ≡ true) × (k ≡ ok b)
  unfolding verify_signature
  guard_signature k key payload signature h = ground arith

  pub guard_key :
      (f : Bytes → Result CertificateError B) (key : Bytes)
      → (verifying_key_of key >>= f) ≡ ok b
      → (c.is_key key ≡ true) × (f key ≡ ok b)
  unfolding verifying_key_of
  guard_key f key h = ground arith

-- A guard whose test passes leaves the rest of the check.
module _ {B : Type 0} (k : Result CertificateError B) where
  pub pass_eq :
      (e : CertificateError) {x y : Bytes} → x ≡ y → (fail_if (not (bytes_eq x y)) e >> k) ≡ k
  pass_eq e {x} {y} p = rw (p, bytes_eq_self y)

  pub pass_eq_two :
      (e : CertificateError) {x y u v : Bytes}
      → x ≡ y
      → u ≡ v
      → (fail_if (not (bytes_eq x y) || not (bytes_eq u v)) e >> k) ≡ k
  pass_eq_two e {x} {y} {u} {v} p q = rw (p, q, bytes_eq_self y, bytes_eq_self v)

  pub pass_eq_three :
      (e : CertificateError) {x y u v z w : Bytes}
      → x ≡ y
      → u ≡ v
      → z ≡ w
      → (fail_if (not (bytes_eq x y) || (not (bytes_eq u v) || not (bytes_eq z w))) e >> k) ≡ k
  pass_eq_three e {x} {y} {u} {v} {z} {w} p q r =
      rw (p, q, r, bytes_eq_self y, bytes_eq_self v, bytes_eq_self w)

  pub pass_false : (e : CertificateError) {t : Bool} → t ≡ false → (fail_if t e >> k) ≡ k
  pass_false e p = rw p

  pub pass_ok : {m : Result CertificateError (Unit {0})} → m ≡ ok tt → (m >> k) ≡ k
  pass_ok p = rw p

  -- The four fields that bind an endpoint to a join request.
  pub pass_binding :
      (e : CertificateError) {x y u v : Bytes} {m n i j : ℕ}
      → x ≡ y
      → u ≡ v
      → m ≡ n
      → i ≡ j
      → (fail_if (not (bytes_eq x y) || (not (bytes_eq u v) || (not (m == n) || not (i == j)))) e
          >> k)
        ≡ k
  pass_binding e {x} {y} {u} {v} {m} {n} {i} {j} p q r s =
      rw (p, q, r, s, bytes_eq_self y, bytes_eq_self v, ==_self n, ==_self j)

  pub pass_unexpired :
      (e : CertificateError) {expires now : ℕ}
      → now < expires
      → (fail_if (leb expires now) e >> k) ≡ k
  pass_unexpired e h = ground arith

  pub pass_window :
      (e : CertificateError) {low not_before expires high : ℕ}
      → low ≤ not_before
      → expires ≤ high
      → (fail_if (ltb not_before low || ltb high expires) e >> k) ≡ k
  pass_window e p q = ground arith

  pub pass_time :
      {not_before expires now : ℕ}
      → not_before ≤ now
      → now < expires
      → (validate_time not_before expires now >> k) ≡ k
  pass_time a b = rw (validate_time-accepts _ _ _ a b)

module _ ⦃c : Primitives⦄ {B : Type 0} where
  pub pass_signature :
      (k : Result CertificateError B) {key payload signature : Bytes}
      → c.signed_by key payload signature ≡ true
      → (verify_signature key payload signature >> k) ≡ k
  unfolding verify_signature
  pass_signature k h = rw h

  pub pass_key :
      (f : Bytes → Result CertificateError B) {key : Bytes}
      → c.is_key key ≡ true
      → (verifying_key_of key >>= f) ≡ f key
  unfolding verifying_key_of
  pass_key f h = rw h

module _ ⦃c : Primitives⦄ (s : IsSound c) where
  pub length-derive_key_id : (context key : Bytes) → length (derive_key_id context key) ≡ 16
  unfolding derive_key_id
  length-derive_key_id context key =
      omega (arith, length-take 16 (c.derive_key context key), s.length_derived context key)

  -- The `expect` of `NetworkRootKey::public` never panics.
  pub root_public_from_bytes-public :
      (secret : Bytes) → root_public_from_bytes (c.public_key secret) ≡ ok (root_public secret)
  unfolding root_public_from_bytes root_public verifying_key_of
  root_public_from_bytes-public secret = rw (s.public_is_key secret)

-- A signed payload of `n` bytes is cut where its signature begins.
module _ (n : ℕ) (payload signature : Bytes) (l : length payload ≡ n) where
  pub take-append_signature : take n (append_signature payload signature) ≡ payload
  unfolding append_signature
  take-append_signature = rw (← l) (take-append payload signature)

  pub drop-append_signature : drop n (append_signature payload signature) ≡ signature
  unfolding append_signature
  drop-append_signature = rw (← l) (drop-append payload signature)

  pub length-append_signature :
      length signature ≡ 64 → (length (append_signature payload signature) == n + 64) ≡ true
  unfolding append_signature
  length-append_signature h =
      let e : length (payload ++ signature) ≡ n + 64 =
        omega (arith, length-append payload signature) in
      rw e (==_self (n + 64))

module _ ⦃c : Primitives⦄ (s : IsSound c) (root : Bytes) where
  pub length-root_network : length (root_public root).network_id ≡ 32
  unfolding root_public root_public_of derive_network_id
  length-root_network = s.length_derived _ _

  pub length-root_key : length (root_public root).key_id ≡ 16
  unfolding root_public root_public_of
  length-root_key = length-derive_key_id s _ _

  -- What the root signs is accepted under its public key.
  pub root_accepts :
      (payload : Bytes)
      → c.signed_by (root_public root).verifying_key payload (c.sign root payload) ≡ true
  unfolding root_public root_public_of
  root_accepts payload = s.accepts root payload

-- A signature as the last of the checks.
module _ ⦃c : Primitives⦄ where
  pub last_signature :
      (key payload signature : Bytes)
      → verify_signature key payload signature ≡ ok tt
      → c.signed_by key payload signature ≡ true
  unfolding verify_signature
  last_signature key payload signature h = ground arith

  pub signature_ok :
      {key payload signature : Bytes}
      → c.signed_by key payload signature ≡ true
      → verify_signature key payload signature ≡ ok tt
  unfolding verify_signature
  signature_ok h = rw h
