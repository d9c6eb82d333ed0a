-- ===== src/Wire/Reads.antt =====
-- What a parser reads: a relation between parsers, values and the bytes that spell them, with one
-- rule for each primitive of the decoder and one for sequencing. Round trips are derivations.
use mathlib.Core.List.{flat_map}
use weaver.Prelude.{
  ℕ, zero, suc, ◌+◌, ◌^◌, ◌≤◌, ◌<◌, ◌≡◌, refl, ◌∙◌, ap, subst, List, [], ◌∷◌, ◌++◌, append_assoc,
  append-nil, le→leb, ==_self, arith, Bytes, bytes_eq_self, All, length, drop, length-append,
  length-drop, take-append, drop-append, drop-add, not, ◌==◌, ltb, false,
}
use weaver.Prelude.Results.{ok, Result, fail_if}
use weaver.Wire.{
  usize_max, to_be, Decoder, Malformed, Parser, ◌>>=◌, return, start, decode, take_bytes, array,
  magic, uint, finish, repeat, lift,
}
use weaver.Wire.Ints.{length-to_be, from_be-to_be}

-- The decoder stands before the bytes `s`, and nothing else is left.
pub record At (d : Decoder) (s : Bytes) : Type 0 where
  pub rest : drop d.offset d.bytes ≡ s
  pub within : d.offset ≤ length d.bytes
  pub fits : length d.bytes ≤ usize_max

pub At-start : (s : Bytes) → length s ≤ usize_max → At (start s) s
unfolding start
At-start s h = record { rest = refl; within = omega arith; fits = h }

pub At-length : {d : Decoder} {s : Bytes} → At d s → d.offset + length s ≡ length d.bytes
At-length {d} {s} a = omega (arith, length-drop d.offset d.bytes, ap length a.rest, a.within)

pub At-advance :
    {d : Decoder} (v s : Bytes) → At d (v ++ s) → At (record d { offset = d.offset + length v }) s
At-advance {d} v s a = record {
  rest = drop-add d.offset (length v) d.bytes ∙ ap (drop (length v)) a.rest ∙ drop-append v s;
  within = omega (arith, At-length a, length-append v s);
  fits = a.fits;
}

bind-ok :
    {E A B : Type 0} (p : Parser E A) (f : A → Parser E B) (d : Decoder) {x : A} {e : Decoder}
    → p d ≡ ok (x, e)
    → (p >>= f) d ≡ f x e
bind-ok p f d h = rw (h, ◌>>=◌)

-- From any decoder that stands before `s`, `p` reads exactly `s` and returns `x`.
pub record Reads {E A : Type 0} (p : Parser E A) (x : A) (s : Bytes) : Type 0 where
  pub reads : (d : Decoder) (t : Bytes) → At d (s ++ t) → (e : Decoder) × (p d ≡ ok (x, e)) × At e t

-- The same where `s` is all that is left.
pub record Ends {E A : Type 0} (p : Parser E A) (x : A) (s : Bytes) : Type 0 where
  pub ends : (d : Decoder) → At d s → (e : Decoder) × (p d ≡ ok (x, e))

pub Reads-return : {E A : Type 0} {x : A} → Reads {E = E} (return x) x []
Reads-return {x} = record { reads = λ d t a. (d, refl, a) }

pub Ends-return : {E A : Type 0} {x : A} → Ends {E = E} (return x) x []
Ends-return {x} = record { ends = λ d a. (d, refl) }

pub lift-Reads : {E A : Type 0} {r : Result E A} {x : A} → r ≡ ok x → Reads (lift r) x []
lift-Reads h = record { reads = λ d t a. (d, rw h, a) }

-- `if len != expected { return Err(e); }`
pub length_guard-Reads :
    {E : Type 0} (e : E) (n k : ℕ) → n ≡ k → Reads (lift (fail_if (not (n == k)) e)) tt []
length_guard-Reads e n k h = lift-Reads (rw (h, ==_self k))

-- `if count > bound { return Err(e); }`
pub bound_guard-Reads :
    {E : Type 0} (e : E) (bound n : ℕ) → n ≤ bound → Reads (lift (fail_if (ltb bound n) e)) tt []
bound_guard-Reads e bound n h =
    let within : ltb bound n ≡ false = ground arith in lift-Reads (rw within)

-- A parser that ends on `s` decodes `s`.
pub decode-Ends :
    {E A : Type 0} {p : Parser E A} {x : A} {s : Bytes}
    → length s ≤ usize_max
    → Ends p x s
    → decode p s ≡ ok x
unfolding decode
decode-Ends {p} {s} h r = let (e, q) = r.ends (start s) (At-start s h) in rw (q, decode)

module _ {E A B : Type 0} {p : Parser E A} (f : A → Parser E B) {x : A} {y : B} where
  pub Reads-bind : {s t : Bytes} → Reads p x s → Reads (f x) y t → Reads (p >>= f) y (s ++ t)
  Reads-bind {s} {t} r q = record {
    reads = λ d u a.
        let (d', e, a') = r.reads d (t ++ u) (subst (At d) (append_assoc s t u) a) in
        let (d'', e', a'') = q.reads d' u a' in (d'', bind-ok p f d e ∙ e', a'');
  }

  -- A last step that leaves the rest of the parser nothing to read.
  pub Reads-last : {s : Bytes} → Reads p x s → Reads (f x) y [] → Reads (p >>= f) y s
  Reads-last {s} r q = subst (Reads (p >>= f) y) (append-nil s) (Reads-bind r q)

  pub Reads-skip : {s : Bytes} → Reads p x [] → Reads (f x) y s → Reads (p >>= f) y s
  Reads-skip r q = Reads-bind r q

  pub Ends-bind : {s t : Bytes} → Reads p x s → Ends (f x) y t → Ends (p >>= f) y (s ++ t)
  Ends-bind {s} {t} r q = record {
    ends = λ d a.
        let (d', e, a') = r.reads d t a in
        let (d'', e') = q.ends d' a' in (d'', bind-ok p f d e ∙ e');
  }

  -- The last field of a record, with no padding behind it.
  pub Ends-last : {s : Bytes} → Reads p x s → Ends (f x) y [] → Ends (p >>= f) y s
  Ends-last {s} r q = subst (Ends (p >>= f) y) (append-nil s) (Ends-bind r q)

  -- A step that consumes nothing.
  pub Ends-skip : {s : Bytes} → Reads p x [] → Ends (f x) y s → Ends (p >>= f) y s
  Ends-skip r q = Ends-bind r q

module _ {E : Type 0} ⦃m : Malformed E⦄ where
  pub take_bytes-Reads : (n : ℕ) (v : Bytes) → length v ≡ n → Reads (take_bytes {E = E} n) v v
  unfolding take_bytes
  take_bytes-Reads n v l = record {
    reads = λ d t a.
        let b = At-advance v t a in
        (
          record d { offset = d.offset + length v },
          rw (
            ← l,
            le→leb (d.offset + length v) (length d.bytes) b.within,
            le→leb (d.offset + length v) usize_max (omega (arith, b.within, a.fits)),
            a.rest,
            take-append v t,
          ),
          b,
        );
  }

  pub array-Reads : (n : ℕ) (v : Bytes) → length v ≡ n → Reads (array {E = E} n) v v
  unfolding array
  array-Reads n v l = record {
    reads = λ d t a.
        let (d', e, a') = (take_bytes-Reads n v l).reads d t a in
        (d', bind-ok (take_bytes n) _ d e ∙ rw (l, ==_self n), a');
  }

  pub magic-Reads : {v : Bytes} → Reads (magic {E = E} v) tt v
  unfolding magic
  magic-Reads {v} = record {
    reads = λ d t a.
        let (d', e, a') = (take_bytes-Reads (length v) v refl).reads d t a in
        (d', bind-ok (take_bytes (length v)) _ d e ∙ rw (bytes_eq_self v), a');
  }

  pub uint-Reads : (w v : ℕ) → v < 256 ^ w → Reads (uint {E = E} w) v (to_be w v)
  unfolding uint
  uint-Reads w v h = record {
    reads = λ d t a.
        let (d', e, a') = (array-Reads w (to_be w v) (length-to_be w v)).reads d t a in
        (d', bind-ok (array w) _ d e ∙ rw (from_be-to_be w v h), a');
  }

  pub finish-Ends :
      {B : Type 0} {k : Parser E B} {y : B} → Ends k y [] → Ends (finish >>= λ _. k) y []
  unfolding finish
  finish-Ends {k} r = record {
    ends = λ d a.
        let (d', e) = r.ends d a in
        let done : d.offset ≡ length d.bytes = omega (arith, At-length a) in
        (d', bind-ok finish _ d (rw (done, ==_self (length d.bytes))) ∙ e);
  }

  pub Reads-repeat_none : {A : Type 0} (item : Parser E A) → Reads (repeat zero item) [] []
  unfolding repeat
  Reads-repeat_none item = Reads-return

  pub Reads-repeat_more :
      {A : Type 0} (item : Parser E A) (n : ℕ) {x : A} {xs : List A} {s t : Bytes}
      → Reads item x s
      → Reads (repeat n item) xs t
      → Reads (repeat (suc n) item) (x ∷ xs) (s ++ t)
  unfolding repeat
  Reads-repeat_more item n r q = Reads-bind _ r (Reads-last _ q Reads-return)

  -- A counted loop reads its items one behind the other.
  pub repeat-Reads :
      {A : Type 0} (item : Parser E A) (print : A → Bytes) (xs : List A)
      → All (λ x. Reads item x (print x)) xs
      → Reads (repeat (length xs) item) xs (flat_map print xs)
  unfolding repeat flat_map
  repeat-Reads item print [] h = Reads-return
  repeat-Reads item print (x ∷ xs) h = Reads-bind _ h.0 (
      subst (Reads _ (x ∷ xs)) (append-nil (flat_map print xs))
        (Reads-bind _ (repeat-Reads item print xs h.1) Reads-return))
