-- ===== src/Wire/Fails.antt =====
-- What a parser refuses: before the bytes `s`, with nothing else left, it stops with an error.
use weaver.Prelude.Results.{Result, err}
use weaver.Prelude.{Bytes, ◌≡◌, ◌++◌, ◌≤◌, length, refl}
use weaver.Wire.{Decoder, Parser, ◌>>=◌, start, decode, usize_max, lift}
use weaver.Wire.Reads.{At, At-start, Reads}

pub record Fails {E A : Type 0} (p : Parser E A) (c : E) (s : Bytes) : Type 0 where
  pub fails : (d : Decoder) → At d s → p d ≡ err c

pub lift-Fails :
    {E A : Type 0} {r : Result E A} {c : E} {s : Bytes} → r ≡ err c → Fails (lift r) c s
lift-Fails h = record { fails = λ d a. rw h refl }

module _ {E A B : Type 0} {p : Parser E A} (f : A → Parser E B) {c : E} where
  -- The first step fails.
  pub Fails-first : {s : Bytes} → Fails p c s → Fails (p >>= f) c s
  Fails-first r = record { fails = λ d a. rw (r.fails d a, ◌>>=◌) refl }

  -- The first step reads, and what follows fails.
  pub Fails-bind :
      {x : A} {s t : Bytes} → Reads p x s → Fails (f x) c t → Fails (p >>= f) c (s ++ t)
  Fails-bind {t} r q = record {
    fails = λ d a. let (e, h, b) = r.reads d t a in rw (h, ◌>>=◌) (q.fails e b);
  }

pub decode-Fails :
    {E A : Type 0} {p : Parser E A} {c : E} {s : Bytes}
    → length s ≤ usize_max
    → Fails p c s
    → decode p s ≡ err c
unfolding decode
decode-Fails {s} h r = rw (r.fails (start s) (At-start s h), decode) refl
