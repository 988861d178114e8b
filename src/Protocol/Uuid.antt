-- ===== src/Protocol/Uuid.antt =====
-- internal/common/protocol/uuid.go. A UUID is 16 bytes; its text is 36 bytes.
pub mod RoundTrip
use gooophira_mp.Prelude.{
  ℕ, zero, suc, ◌+◌, ◌-◌, ◌*◌, ◌/◌, ◌%◌, ◌^◌, bit_and, bit_or, Bool, ◌&&◌, ◌||◌, not, Option, none,
  some, List, [], ◌∷◌, ◌++◌, leb, ◌==◌, if◌then◌else◌, length, get_elem?, take, drop,
}
use mathlib.Core.Option.{get_or}

unfoldable pub from_hex_digit : ℕ → ℕ
from_hex_digit c =
    if leb b'0' c && leb c b'9'
    then c - b'0'
    else if leb b'a' c && leb c b'f'
    then c - b'a' + 10
    else if leb b'A' c && leb c b'F'
    then c - b'A' + 10
    else 0xff

abbrev byte_at : List ℕ → ℕ → ℕ
byte_at s p = get_or (get_elem? s p) 0

unfoldable pub hex_pair_positions : List ℕ
hex_pair_positions = 0 ∷ 2 ∷ 4 ∷ 6 ∷ 9 ∷ 11 ∷ 14 ∷ 16 ∷ 19 ∷ 21 ∷ 24 ∷ 26 ∷ 28 ∷ 30 ∷ 32 ∷ 34 ∷ []

-- The byte `hi<<4 | lo`, or `none` where one of the two is no digit.
unfoldable pub hex_pair : ℕ → ℕ → Option ℕ
unfolding from_hex_digit
hex_pair c d =
    if from_hex_digit c == 0xff || from_hex_digit d == 0xff
    then none
    else some (bit_or (from_hex_digit c * 2 ^ 4 % 256) (from_hex_digit d))

-- The loop of `parseUUID`: it stops at the first pair that is not two digits.
unfoldable pub parse_pairs : List ℕ → List ℕ → Option (List ℕ)
parse_pairs s [] = some []
parse_pairs s (p ∷ rest) =
    let more = parse_pairs s rest in
    elim (hex_pair (byte_at s p) (byte_at s (p + 1))) [
      | none ↦ none
      | some b ↦ elim more [ none ↦ none | some bs ↦ some (b ∷ bs) ]
    ]

unfoldable pub parse_uuid : List ℕ → Option (List ℕ)
unfolding parse_pairs hex_pair_positions
parse_uuid s =
    if not (length s == 36)
      || not (byte_at s 8 == b'-')
      || not (byte_at s 13 == b'-')
      || not (byte_at s 18 == b'-')
      || not (byte_at s 23 == b'-')
    then none
    else parse_pairs s hex_pair_positions

-- `hex.Encode` writes two lowercase digits a byte.
unfoldable pub hex_digit : ℕ → ℕ
hex_digit d = if leb d 9 then b'0' + d else b'a' + d - 10

unfoldable pub hex_encode : List ℕ → List ℕ
hex_encode [] = []
hex_encode (b ∷ bs) = hex_digit (b / 16) ∷ hex_digit (b % 16) ∷ hex_encode bs

unfoldable pub format_uuid : List ℕ → List ℕ
unfolding hex_encode
format_uuid b =
    hex_encode (take 4 b)
    ++ (b'-' ∷ hex_encode (take 2 (drop 4 b)))
    ++ (b'-' ∷ hex_encode (take 2 (drop 6 b)))
    ++ (b'-' ∷ hex_encode (take 2 (drop 8 b)))
    ++ (b'-' ∷ hex_encode (take 6 (drop 10 b)))

-- `binary.BigEndian`, highest byte first.
unfoldable pub big_endian_from : ℕ → List ℕ → ℕ
big_endian_from acc [] = acc
big_endian_from acc (b ∷ bs) = big_endian_from (acc * 256 + b) bs

-- The `k` lowest bytes of a number, highest first.
unfoldable pub be_bytes : ℕ → ℕ → List ℕ
be_bytes zero v = []
be_bytes (suc k) v = v / 256 ^ k % 256 ∷ be_bytes k v

unfoldable pub uuid_to_u64_pair : List ℕ → Option (ℕ × ℕ)
uuid_to_u64_pair uuid = elim (parse_uuid uuid) [
  | none ↦ none
  | some b ↦ some (big_endian_from 0 (take 8 b), big_endian_from 0 (take 8 (drop 8 b)))
]

unfoldable pub u64_pair_to_uuid : ℕ → ℕ → List ℕ
u64_pair_to_uuid high low = format_uuid (be_bytes 8 high ++ be_bytes 8 low)

-- `NewUUID`: version 4 and variant RFC 4122 are set in 16 random bytes.
unfoldable pub stamp : List ℕ → List ℕ
stamp (b0 ∷ b1 ∷ b2 ∷ b3 ∷ b4 ∷ b5 ∷ b6 ∷ b7 ∷ b8 ∷ rest) =
    b0
    ∷ b1
    ∷ b2
    ∷ b3
    ∷ b4
    ∷ b5
    ∷ bit_or (bit_and b6 0x0f) 0x40
    ∷ b7
    ∷ bit_or (bit_and b8 0x3f) 0x80
    ∷ rest
stamp b = b

unfoldable pub new_uuid : List ℕ → List ℕ
unfolding stamp format_uuid
new_uuid random = format_uuid (stamp random)
