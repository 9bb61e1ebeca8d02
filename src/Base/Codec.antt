-- ===== src/Base/Codec.antt =====
-- `Readable` and `Writeable` of `grin_core::ser`, as the program uses them: a writer adds to the
-- bytes written so far, and a reader takes from the bytes that are left.
use mwixnet.Base.{
  ℕ, ◌≡◌, refl, sym, ap, ◌∙◌, List, [], ◌++◌, append-nil, append_assoc, Bool, true, false, Result,
  ok, err,
}
use mwixnet.Base

abbrev pub Bytes : Type 0
Bytes = List ℕ

abbrev pub Writer : Type 0 → Type 0
Writer E = Bytes → Result E Bytes

abbrev pub Reader : Type 0 → Type 0 → Type 0
Reader E A = Bytes → Result E (A × Bytes)

-- A sequence of writes, each under `?`.
infixl 5 ◌>>◌
abbrev pub ◌>>◌ : {E : Type 0} → Writer E → Writer E → Writer E
◌>>◌ w v out = Base.◌>>=◌ (w out) v

-- A read under `?`, and the reads after it.
infixl 5 ◌>>=◌
abbrev pub ◌>>=◌ : {E A B : Type 0} → Reader E A → (A → Reader E B) → Reader E B
◌>>=◌ r f input = Base.◌>>=◌ (r input) (λ (a, rest). f a rest)

-- `Ok(a)` at the end of a reader
abbrev pub done : {E A : Type 0} → A → Reader E A
done a input = ok (a, input)

-- `return Err(e)` in a reader
abbrev pub fail : {E A : Type 0} → E → Reader E A
fail e input = err e

-- `if !test { return Err(e) }` in a reader
abbrev pub ensure : {E : Type 0} → Bool → E → Reader E (Unit {0})
ensure true e = done tt
ensure false e = fail e

-- A writer that writes nothing.
abbrev pub skip : {E : Type 0} → Writer E
skip out = ok out

-- `w` adds `e` to whatever was written before.
pub record Writes {E : Type 0} (w : Writer E) (e : Bytes) : Type 0 where
  pub run : (out : Bytes) → w out ≡ ok (out ++ e)

-- `r` takes `e` off whatever follows it, and returns `a`.
pub record Reads {E A : Type 0} (r : Reader E A) (e : Bytes) (a : A) : Type 0 where
  pub run : (rest : Bytes) → r (e ++ rest) ≡ ok (a, rest)

-- The values in `P` are written without error, and what is written is read back as it was,
-- whatever follows it.
pub record IsCodec {E A : Type 0} (P : A → Type 0) (write : A → Writer E) (read : Reader E A)
    : Type 0 where
  pub encode : A → Bytes
  pub writes : (a : A) → P a → Writes (write a) (encode a)
  pub reads : (a : A) → P a → Reads read (encode a) a

module _ {E : Type 0} where
  pub Writes-skip : Writes (skip {E = E}) []
  Writes-skip = record { run = λ out. ap ok (sym (append-nil out)) }

  pub Writes-seq :
      {w v : Writer E} {e d : Bytes} → Writes w e → Writes v d → Writes (w >> v) (e ++ d)
  Writes-seq {w} {v} {e} {d} hw hv = record {
    run = λ out. rw (hw.run out) (hv.run (out ++ e) ∙ ap ok (append_assoc out e d));
  }

  pub Reads-done : {A : Type 0} (a : A) → Reads (done {E = E} a) [] a
  Reads-done a = record { run = λ rest. refl }

  pub Reads-bind :
      {A B : Type 0} {r : Reader E A} (f : A → Reader E B) {e d : Bytes} {a : A} {b : B}
      → Reads r e a
      → Reads (f a) d b
      → Reads (r >>= f) (e ++ d) b
  Reads-bind {r} f {e} {d} hr hf = record {
    run = λ rest. rw (append_assoc e d rest, hr.run (d ++ rest)) (hf.run rest);
  }

  -- A test that passes.
  pub Reads-ensure :
      {B : Type 0} (e : E) {k : Reader E B} {d : Bytes} {b : B}
      → Reads k d b
      → Reads (ensure true e >>= λ _. k) d b
  Reads-ensure e hk = record { run = hk.run }

  -- The last read of a block, whose value goes into the result.
  pub Reads-last :
      {A B : Type 0} {r : Reader E A} {e : Bytes} {a : A} (f : A → B)
      → Reads r e a
      → Reads (r >>= λ y. done (f y)) e (f a)
  Reads-last f hr = record { run = λ rest. rw (hr.run rest) }

-- What a writer writes on an empty vector, a reader reads back, whatever follows it.
pub read-write :
    {E A : Type 0} {w : Writer E} {r : Reader E A} {e : Bytes} {a : A}
    → Writes w e
    → Reads r e a
    → (rest : Bytes) → (b : Bytes) × (w [] ≡ ok b) × (r (b ++ rest) ≡ ok (a, rest))
read-write {e = e} hw hr rest = (e, hw.run [], hr.run rest)
