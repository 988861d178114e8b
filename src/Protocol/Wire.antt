-- ===== src/Protocol/Wire.antt =====
-- What it means that a writer's call and a reader's call fit together, and that reading is safe;
-- the rules for the composition of such calls. The children prove them of the primitive calls.
pub mod Bytes
pub mod Uleb
pub mod Primitives
pub mod Maps
pub mod Safe
pub mod SafePrimitives
use gooophira_mp.Prelude.{
  ℕ, ◌+◌, ◌<◌, ◌≡◌, refl, ap, ◌∙◌, List, [], ◌∷◌, ◌++◌, append_assoc, append-nil, length,
  length-append, All, All-append, arith,
}
use gooophira_mp.Protocol.Monad.{M, Result, ok, panic, stuck, ◌>>=◌, ◌>>◌, pure}
use gooophira_mp.Protocol.Reader.{BinaryReader}
use gooophira_mp.Protocol.Writer.{BinaryWriter}

abbrev pub IsByte : ℕ → Type 0
IsByte b = b < 256

-- A reader that has passed `pre` and has `post` before it.
abbrev pub at : List ℕ → List ℕ → BinaryReader
at pre post = record { buf = pre ++ post; offset = length pre }

-- The call appends `bs`, whatever stands in the buffer.
abbrev pub Writes : M BinaryWriter (Unit {0}) → List ℕ → Type 0
Writes e bs = (w : BinaryWriter) → e w ≡ ok (tt, record w { buf = w.buf ++ bs })

module _ {ℓ} {A : Type ℓ} where
  -- The call takes exactly `bs`, wherever they stand, and gives `a`.
  abbrev pub Reads : M BinaryReader A → List ℕ → A → Type ℓ
  Reads d bs a = (pre post : List ℕ) → d (at pre (bs ++ post)) ≡ ok (a, at (pre ++ bs) post)

  -- What `e` writes, `d` reads back as `a`.
  pub record Codec (e : M BinaryWriter (Unit {0})) (d : M BinaryReader A) (a : A) : Type ℓ where
    pub bytes : List ℕ
    pub are_bytes : All IsByte bytes
    pub writes : Writes e bytes
    pub reads : Reads d bytes a

pub Writes-seq :
    {e f : M BinaryWriter (Unit {0})} (bs cs : List ℕ)
    → Writes e bs
    → Writes f cs
    → Writes (e >> f) (bs ++ cs)
Writes-seq bs cs we wf w =
    rw (we w, ◌>>=◌) (wf (record w { buf = w.buf ++ bs }) ∙ rw (append_assoc w.buf bs cs) refl)

module _ {ℓ κ} {A : Type ℓ} {B : Type κ} where
  pub Reads-seq :
      (d : M BinaryReader A) (f : A → M BinaryReader B) (bs cs : List ℕ) (a : A) {b : B}
      → Reads d bs a
      → Reads (f a) cs b
      → Reads (d >>= f) (bs ++ cs) b
  Reads-seq d f bs cs a rd rf pre post =
      rw (append_assoc bs cs post, rd pre (cs ++ post), ◌>>=◌)
        (rf (pre ++ bs) post ∙ rw (append_assoc pre bs cs) refl)

  pub seq :
      {e e' : M BinaryWriter (Unit {0})} {d : M BinaryReader A} (f : A → M BinaryReader B) {a : A}
      {b : B}
      → Codec e d a
      → Codec e' (f a) b
      → Codec (e >> e') (d >>= f) b
  seq {d} f {a} x y = record {
    bytes = x.bytes ++ y.bytes;
    are_bytes = All-append IsByte x.bytes y.bytes x.are_bytes y.are_bytes;
    writes = Writes-seq x.bytes y.bytes x.writes y.writes;
    reads = Reads-seq d f x.bytes y.bytes a x.reads y.reads;
  }

  -- A value read last, and packed.
  pub last :
      {e : M BinaryWriter (Unit {0})} {d : M BinaryReader A} {a : A} (g : A → B)
      → Codec e d a
      → Codec e (d >>= λ x. pure (g x)) (g a)
  last g x = record {
    bytes = x.bytes;
    are_bytes = x.are_bytes;
    writes = x.writes;
    reads = λ pre post. rw (x.reads pre post, ◌>>=◌) refl;
  }

-- Nothing is written, and nothing read.
pub done {ℓ} : {A : Type ℓ} (a : A) → Codec (pure tt) (pure a) a
done a = record {
  bytes = [];
  are_bytes = tt;
  writes = λ w. rw (append-nil w.buf) refl;
  reads = λ pre post. rw (append-nil pre) refl;
}
