-- ===== src/Protocol/Wire/Safe.antt =====
-- Reading any bytes: a call gives a value that meets `P` and leaves the reader within the buffer,
-- or it panics with a ProtocolError. It does not run out of bounds, and it ends.
use gooophira_mp.Prelude.{◌≤◌, ◌≡◌, refl, ◌∙◌, arith, length, All, Bool, true, false, if◌then◌else◌}
use gooophira_mp.Protocol.Monad.{M, Result, ok, panic, stuck, ◌>>=◌, ProtocolError, pure, fail}
use gooophira_mp.Protocol.Reader.{BinaryReader}
use gooophira_mp.Protocol.Wire.{IsByte}

module _ {ℓ} {A : Type ℓ} (P : A → Type 0) where
  abbrev pub Outcome : BinaryReader → Result (A × BinaryReader) → Type 0
  Outcome r (ok (a, s)) = P a × (s.buf ≡ r.buf) × (r.offset ≤ s.offset) × (s.offset ≤ length s.buf)
  Outcome r (panic e) = Unit {0}
  Outcome r stuck = ⊥

  pub record Safe (d : M BinaryReader A) : Type 0 where
    pub run : (r : BinaryReader) → All IsByte r.buf → r.offset ≤ length r.buf → Outcome r (d r)

module _ {ℓ} {A : Type ℓ} (P : A → Type 0) where
  pub Outcome-weaken :
      (r s : BinaryReader)
      → s.buf ≡ r.buf
      → r.offset ≤ s.offset
      → (x : Result (A × BinaryReader)) → Outcome P s x
      → Outcome P r x
  Outcome-weaken r s b o (ok (a, t)) (p, same, on, within) = (p, same ∙ b, omega arith, within)
  Outcome-weaken r s b o (panic e) h = tt
  Outcome-weaken r s b o stuck h = h

  pub Safe-pure : (a : A) → P a → Safe P (pure a)
  Safe-pure a p = record { run = λ r b h. (p, refl, omega arith, h) }

  pub Safe-fail : (e : ProtocolError) → Safe P (fail e)
  Safe-fail e = record { run = λ r b h. tt }

  pub Safe-if :
      (c : Bool) {d e : M BinaryReader A} → Safe P d → Safe P e → Safe P (if c then d else e)
  Safe-if true d e = d
  Safe-if false d e = e

  -- What follows a test that fails on `true`.
  pub Safe-unless :
      (c : Bool) (e : ProtocolError) {d : M BinaryReader A}
      → (c ≡ false → Safe P d)
      → Safe P (if c then fail e else d)
  Safe-unless true e k = Safe-fail e
  Safe-unless false e k = k refl

module _ {ℓ κ} {A : Type ℓ} {B : Type κ} (P : A → Type 0) (Q : B → Type 0) where
  Outcome-bind :
      (f : A → M BinaryReader B) (r : BinaryReader)
      → ((a : A) → P a → Safe Q (f a))
      → All IsByte r.buf
      → (x : Result (A × BinaryReader)) → Outcome P r x
      → Outcome Q r (elim x [ ok (a, s) ↦ f a s | panic e ↦ panic e | stuck ↦ stuck ])
  Outcome-bind f r k b (ok (a, s)) (p, same, on, within) =
      Outcome-weaken Q r s same on (f a s) ((k a p).run s (rw same b) within)
  Outcome-bind f r k b (panic e) h = tt
  Outcome-bind f r k b stuck h = h

  pub Safe-bind :
      (d : M BinaryReader A) (f : A → M BinaryReader B)
      → Safe P d
      → ((a : A) → P a → Safe Q (f a))
      → Safe Q (d >>= f)
  Safe-bind d f s k = record { run = λ r b h. Outcome-bind f r k b (d r) (s.run r b h) }

module _ {ℓ} {A : Type ℓ} (P Q : A → Type 0) where
  Outcome-mono :
      (r : BinaryReader) (x : Result (A × BinaryReader))
      → ((a : A) → P a → Q a)
      → Outcome P r x
      → Outcome Q r x
  Outcome-mono r (ok (a, t)) f h = (f a h.0, h.1, h.2, h.3)
  Outcome-mono r (panic e) f h = tt
  Outcome-mono r stuck f h = h

  pub Safe-mono : {d : M BinaryReader A} → ((a : A) → P a → Q a) → Safe P d → Safe Q d
  Safe-mono {d} f s = record { run = λ r b h. Outcome-mono r (d r) f (s.run r b h) }
