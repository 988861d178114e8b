-- ===== src/Protocol/RoomId.antt =====
-- internal/common/protocol/roomid.go. A room id is a string of bytes that `parse_room_id` passes.
use gooophira_mp.Prelude.{
  ℕ, ◌≡◌, refl, Bool, true, ◌&&◌, ◌||◌, List, [], ◌∷◌, ltb, leb, ◌==◌, if◌then◌else◌, length, ◌≤◌,
  All, arith, ◌<◌, ◌↔◌, ◌⊎◌,
}
use gooophira_mp.Protocol.Monad.{ProtocolError, room_id_empty, room_id_too_long, room_id_invalid}

pub data Parsed {ℓ} (A : Type ℓ) : Type ℓ where
  valid : A → Parsed A
  invalid : ProtocolError → Parsed A

unfoldable pub is_room_char : ℕ → Bool
is_room_char ch =
    ch == b'-'
    || ch == b'_'
    || (leb b'0' ch && leb ch b'9')
    || (leb b'A' ch && leb ch b'Z')
    || (leb b'a' ch && leb ch b'z')

-- The loop over the bytes.
unfoldable pub all_room_chars : List ℕ → Bool
all_room_chars [] = true
all_room_chars (ch ∷ rest) = is_room_char ch && all_room_chars rest

unfoldable pub parse_room_id : List ℕ → Parsed (List ℕ)
parse_room_id value =
    if length value == 0
    then invalid room_id_empty
    else if ltb 20 (length value)
    then invalid room_id_too_long
    else if all_room_chars value
    then valid value
    else invalid room_id_invalid

-- A dash, a digit, an underscore or an ASCII letter, by their codes.
abbrev pub IsRoomChar : ℕ → Type 0
IsRoomChar ch =
    (ch ≡ 45)
    ⊎ ((48 ≤ ch) × (ch ≤ 57))
    ⊎ (ch ≡ 95)
    ⊎ ((65 ≤ ch) × (ch ≤ 90))
    ⊎ ((97 ≤ ch) × (ch ≤ 122))

is_room_char-IsRoomChar : (ch : ℕ) → is_room_char ch ≡ true → IsRoomChar ch
unfolding is_room_char
is_room_char-IsRoomChar ch h = ground arith

IsRoomChar-is_room_char : (ch : ℕ) → IsRoomChar ch → is_room_char ch ≡ true
unfolding is_room_char
IsRoomChar-is_room_char ch h = ground arith

-- 1 to 20 letters, digits, dashes and underscores.
pub record IsRoomId (value : List ℕ) : Type 0 where
  pub nonempty : 1 ≤ length value
  pub short : length value ≤ 20
  pub chars : All IsRoomChar value

IsRoomId-chars : (value : List ℕ) → all_room_chars value ≡ true → All IsRoomChar value
unfolding all_room_chars
IsRoomId-chars [] h = tt
IsRoomId-chars (ch ∷ rest) h =
    (is_room_char-IsRoomChar ch (ground arith), IsRoomId-chars rest (ground arith))

chars-IsRoomId : (value : List ℕ) → All IsRoomChar value → all_room_chars value ≡ true
unfolding all_room_chars
chars-IsRoomId [] h = refl
chars-IsRoomId (ch ∷ rest) (h, hs) =
    ground (arith, IsRoomChar-is_room_char ch h, chars-IsRoomId rest hs)

pub parse_room_id-of_IsRoomId :
    (value : List ℕ) → IsRoomId value → parse_room_id value ≡ valid value
unfolding parse_room_id
parse_room_id-of_IsRoomId value v = ground (arith, chars-IsRoomId value v.chars)

pub IsRoomId-of_parse :
    (value id : List ℕ) → parse_room_id value ≡ valid id → (id ≡ value) × IsRoomId value
unfolding parse_room_id
IsRoomId-of_parse value id h = (
  ground arith,
  record {
    nonempty = ground arith;
    short = ground arith;
    chars = IsRoomId-chars value (ground arith);
  },
)

-- `parse_room_id` accepts exactly the room ids, and gives them back as they are.
pub parse_room_id_iff : (value : List ℕ) → (parse_room_id value ≡ valid value) ↔ IsRoomId value
parse_room_id_iff value =
    (λ h. (IsRoomId-of_parse value value h).1, parse_room_id-of_IsRoomId value)

-- Room ids are made of bytes.
pub IsRoomId-IsByte : (value : List ℕ) → All IsRoomChar value → All (λ b. b < 256) value
IsRoomId-IsByte [] h = tt
IsRoomId-IsByte (ch ∷ rest) (h, hs) = (ground arith, IsRoomId-IsByte rest hs)
