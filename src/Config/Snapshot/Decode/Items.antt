-- ===== src/Config/Snapshot/Decode/Items.antt =====
-- What each `push` function of crates/weaver-config/src/snapshot.rs writes, its reader reads.
use weaver.Prelude.{some}
use weaver.Prelude.{◌∷◌, &&-eq-true}
use weaver.Prelude.{
  [], Bytes, ℕ, Bool, utf8_from, ◌==◌, ◌≡◌, ◌≤◌, arith, ◌||◌, ltb, subst, false, length, sym, List,
  not, All, true, ap, ◌++◌, ◌∙◌, refl,
}
use weaver.Prelude.ByteStrings.{is_utf8, utf8_from, next_byte, Expected}
use weaver.Prelude.Results.{Result, ok, fail_if-eq-ok, ok-injective, >>=-eq-ok, fail_if-ok}
use weaver.Config.{SnapshotError}
use weaver.Config.Snapshot.{
  check_len, push_blob, push_count, push_string, validate_url, push_each, push_list, max_url_bytes,
  max_credential_bytes,
}
use weaver.Wire.{Parser, to_be, repeat}
use weaver.Wire.Reads.{
  Reads, Reads-last, uint-Reads, Reads-bind, Reads-skip, lift-Reads, Reads-return, take_bytes-Reads,
  Reads-repeat_none, Reads-repeat_more,
}
use weaver.Core.{is_ascii}
use weaver.Config.Snapshot.Codec.{count, snapshot_malformed, blob, string, list_of}

pub check_len-le : (n m : ℕ) → check_len n m ≡ ok tt → n ≤ m
unfolding check_len
check_len-le n m h = ground arith

le-check_len : (n m : ℕ) → n ≤ m → check_len n m ≡ ok tt
unfolding check_len
le-check_len n m h = ground arith

push_count-ok : (n : ℕ) {b : Bytes} → push_count n ≡ ok b → (n ≤ 65535) × (b ≡ to_be 2 n)
unfolding push_count
push_count-ok n h =
    let (t, h) = fail_if-eq-ok (ltb 65535 n) _ _ h in (within n t, sym (ok-injective h))
  where
    within : (n : ℕ) → ltb 65535 n ≡ false → n ≤ 65535
    within n t = ground arith

pub count-Reads :
    (n maximum : ℕ) {b : Bytes} → n ≤ maximum → push_count n ≡ ok b → Reads (count maximum) n b
unfolding count
count-Reads n maximum l h =
    let (u, e) = push_count-ok n h in
    subst (Reads _ n) (sym e) (
      Reads-last _ (uint-Reads 2 n (omega (arith, u)))
        (Reads-skip _ (lift-Reads (le-check_len n maximum l)) Reads-return))

within_blob : (n m : ℕ) → ((n == 0) || ltb m n) ≡ false → n ≤ m
within_blob n m h = ground arith

pub blob-Reads : (v : Bytes) {b : Bytes} → push_blob v ≡ ok b → Reads blob v b
unfolding push_blob blob
blob-Reads v h =
    let (t, h) = fail_if-eq-ok ((length v == 0) || ltb max_credential_bytes (length v)) _ _ h in
    let (len, e, h) = >>=-eq-ok (push_count (length v)) _ h in
    let (u, f) = push_count-ok (length v) e in
    subst (Reads _ v) (ap (λ c. c ++ v) (sym f) ∙ ok-injective h) (
      Reads-bind _ (uint-Reads 2 (length v) (omega (arith, u)))
        (Reads-skip _ (lift-Reads (fail_if-ok _ t)) (take_bytes-Reads (length v) v refl)))

next_byte-ascii : (b : ℕ) → ltb b 128 ≡ true → next_byte (0, 128, 191) b ≡ some (0, 128, 191)
next_byte-ascii b p = rw p

utf8_from-next :
    (e : Expected) (b : ℕ) (v : Bytes) {e' : Expected}
    → next_byte e b ≡ some e'
    → utf8_from e (b ∷ v) ≡ utf8_from e' v
unfolding utf8_from
utf8_from-next e b v h = rw (h, utf8_from)

ascii_utf8 : (v : Bytes) → is_ascii v ≡ true → is_utf8 v ≡ true
unfolding is_utf8 utf8_from
ascii_utf8 [] h = refl
ascii_utf8 (b ∷ v) h =
    let (p, q) = &&-eq-true (ltb b 128) (is_ascii v) h in
    utf8_from-next (0, 128, 191) b v (next_byte-ascii b p) ∙ ascii_utf8 v q

url_ok :
    (n : ℕ) (a : Bool)
    → ((n == 0) || (ltb max_url_bytes n || not a)) ≡ false
    → (((n == 0) || ltb max_url_bytes n) ≡ false) × (n ≤ max_url_bytes) × (a ≡ true)
url_ok n a h = (ground arith, ground arith, ground arith)

pub string-Reads : (v : Bytes) {b : Bytes} → push_string v ≡ ok b → Reads string v b
unfolding push_string string validate_url
string-Reads v h =
    let (t, h) =
      fail_if-eq-ok ((length v == 0) || (ltb max_url_bytes (length v) || not (is_ascii v))) _ _ h in
    let (g, l, a) = url_ok (length v) (is_ascii v) t in
    let (len, e, h) = >>=-eq-ok (push_count (length v)) _ h in
    let (u, f) = push_count-ok (length v) e in
    subst (Reads _ v) (ap (λ c. c ++ v) (sym f) ∙ ok-injective h) (
      Reads-bind _ (uint-Reads 2 (length v) (omega (arith, u))) (
        Reads-skip _ (lift-Reads (fail_if-ok _ g)) (
          Reads-last _ (take_bytes-Reads (length v) v refl) (
            Reads-skip _ (lift-Reads (fail_if-ok _ (ap not (ascii_utf8 v a))))
              (Reads-skip _ (lift-Reads (fail_if-ok _ t)) Reads-return)))))

-- A list of values of which each is read from what `push` writes for it.
module _ {A : Type 0} (P : A → Type 0) (push : A → Result SnapshotError Bytes)
    (item : Parser SnapshotError A)
    (reads : (x : A) (b : Bytes) → P x → push x ≡ ok b → Reads item x b) where
  each-Reads :
      (xs : List A) {b : Bytes}
      → All P xs
      → push_each push xs ≡ ok b
      → Reads (repeat (length xs) item) xs b
  unfolding push_each
  each-Reads [] a h = subst (Reads _ []) (ok-injective h) (Reads-repeat_none item)
  each-Reads (x ∷ xs) a h =
      let (c, e, h) = >>=-eq-ok (push x) _ h in
      let (d, f, h) = >>=-eq-ok (push_each push xs) _ h in
      subst (Reads _ (x ∷ xs)) (ok-injective h)
        (Reads-repeat_more item (length xs) (reads x c a.0 e) (each-Reads xs a.1 f))

  pub list-Reads :
      (maximum : ℕ) (xs : List A) {b : Bytes}
      → length xs ≤ maximum
      → All P xs
      → push_list push xs ≡ ok b
      → Reads (list_of maximum item) xs b
  unfolding push_list list_of
  list-Reads maximum xs l a h =
      let (c, e, h) = >>=-eq-ok (push_count (length xs)) _ h in
      let (d, f, h) = >>=-eq-ok (push_each push xs) _ h in
      subst (Reads _ xs) (ok-injective h)
        (Reads-bind _ (count-Reads (length xs) maximum l e) (each-Reads xs a f))
