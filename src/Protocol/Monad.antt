-- ===== src/Protocol/Monad.antt =====
-- Code that panics with a ProtocolError (internal/common/protocol/binary.go) and changes a reader
-- or a writer. Go's `panic` and `recover` are a result; the reader or writer is passed on.

-- The message of each ProtocolError that the package raises.
pub data ProtocolError : Type 0 where
  binary_unexpected_eof binary_length_too_large binary_string_too_long : ProtocolError
  binary_invalid_uuid frame_reserve_head_too_small : ProtocolError
  room_id_empty room_id_too_long room_id_invalid : ProtocolError
  proto_roomstate_tag_invalid proto_message_tag_invalid : ProtocolError
  proto_clientcommand_tag_invalid proto_servercommand_tag_invalid : ProtocolError

-- `stuck` is no outcome of the Go code: a loop of the model ran out of fuel.
pub data Result {ℓ} (A : Type ℓ) : Type ℓ where
  ok : A → Result A
  panic : ProtocolError → Result A
  stuck : Result A

abbrev pub M {ℓ} : Type 0 → Type ℓ → Type ℓ
M S A = S → Result (A × S)

infixl 5 ◌>>=◌ ◌>>◌
abbrev pub ◌>>=◌ {ℓ κ} : {S : Type 0} {A : Type ℓ} {B : Type κ} → M S A → (A → M S B) → M S B
◌>>=◌ m f s = elim (m s) [ ok (a, s') ↦ f a s' | panic e ↦ panic e | stuck ↦ stuck ]

abbrev pub ◌>>◌ {ℓ} : {S : Type 0} {B : Type ℓ} → M S (Unit {0}) → M S B → M S B
m >> k = m >>= λ _. k

abbrev pub pure {ℓ} : {S : Type 0} {A : Type ℓ} → A → M S A
pure a s = ok (a, s)

abbrev pub fail {ℓ} : {S : Type 0} {A : Type ℓ} → ProtocolError → M S A
fail e s = panic e
