-- ===== src/Segment/Format.antt =====
-- The eight bytes before the payload of a datagram: sequence number, last index and index of the
-- segment, all big-endian (encoding/binary). A byte string is a list of numbers.
use iscp_go.Prelude.{ℕ, ◌+◌, ◌*◌, ◌/◌, ◌%◌, ◌<◌, ◌≡◌, List, [], ◌∷◌, arith}

-- PutUint32
unfoldable pub put_uint32 : ℕ → List ℕ
put_uint32 n = (n / 16777216 % 256) ∷ (n / 65536 % 256) ∷ (n / 256 % 256) ∷ (n % 256) ∷ []

-- PutUint16
unfoldable pub put_uint16 : ℕ → List ℕ
put_uint16 n = (n / 256 % 256) ∷ (n % 256) ∷ []

-- Uint32, of its four bytes
unfoldable pub uint32 : ℕ → ℕ → ℕ → ℕ → ℕ
uint32 a b c d = a * 16777216 + b * 65536 + c * 256 + d

-- Uint16, of its two bytes
unfoldable pub uint16 : ℕ → ℕ → ℕ
uint16 a b = a * 256 + b

pub uint32-put_uint32 :
    (n : ℕ)
    → n < 4294967296
    → uint32 (n / 16777216 % 256) (n / 65536 % 256) (n / 256 % 256) (n % 256) ≡ n
unfolding uint32
uint32-put_uint32 n h = omega arith

pub uint16-put_uint16 : (n : ℕ) → n < 65536 → uint16 (n / 256 % 256) (n % 256) ≡ n
unfolding uint16
uint16-put_uint16 n h = omega arith
