-- ===== src/Host.antt =====
-- What the packets take from the machine: its byte order, which decides how memcpy lays an integer
-- out and what htonl, htons, ntohl and ntohs do, and the value of MAGIC_NUMBER.
-- marshalHashName of Marshal.cpp; MD5 belongs to OpenSSL and is a parameter.
pub mod Order
use lib_meridian.Prelude.{
  ℕ, ◌+◌, ◌*◌, ◌/◌, ◌%◌, ◌≡◌, refl, List, [], ◌∷◌, Option, none, some, take, arith,
}

pub data Endian : Type 0 where
  little big : Endian

pub record Host : Type 0 where
  pub order : Endian
  pub magic_number : ℕ

-- The bytes of an integer, most significant first: the order of the network.
unfoldable pub be16 : ℕ → List ℕ
be16 v = (v / 256 % 256) ∷ (v % 256) ∷ []

unfoldable pub be32 : ℕ → List ℕ
be32 v = (v / 16777216 % 256) ∷ (v / 65536 % 256) ∷ (v / 256 % 256) ∷ (v % 256) ∷ []

-- memcpy of a uint16_t or a uint32_t into a buffer.
unfoldable pub store16 : Endian → ℕ → List ℕ
store16 little v = (v % 256) ∷ (v / 256 % 256) ∷ []
store16 big v = (v / 256 % 256) ∷ (v % 256) ∷ []

unfoldable pub store32 : Endian → ℕ → List ℕ
store32 little v = (v % 256) ∷ (v / 256 % 256) ∷ (v / 65536 % 256) ∷ (v / 16777216 % 256) ∷ []
store32 big v = (v / 16777216 % 256) ∷ (v / 65536 % 256) ∷ (v / 256 % 256) ∷ (v % 256) ∷ []

-- memcpy of a buffer into a uint16_t or a uint32_t. Fewer bytes are never read: see BufferWrapper.
unfoldable pub load16 : Endian → List ℕ → ℕ
load16 little (a ∷ b ∷ _) = a + 256 * b
load16 big (a ∷ b ∷ _) = 256 * a + b
load16 _ _ = 0

unfoldable pub load32 : Endian → List ℕ → ℕ
load32 little (a ∷ b ∷ c ∷ d ∷ _) = a + 256 * b + 65536 * c + 16777216 * d
load32 big (a ∷ b ∷ c ∷ d ∷ _) = 16777216 * a + 65536 * b + 256 * c + d
load32 _ _ = 0

-- htons and ntohs, htonl and ntohl: each pair is one function.
unfoldable pub htons : Endian → ℕ → ℕ
htons little v = 256 * (v % 256) + v / 256 % 256
htons big v = v

unfoldable pub htonl : Endian → ℕ → ℕ
htonl little v =
    16777216 * (v % 256) + 65536 * (v / 256 % 256) + 256 * (v / 65536 % 256) + v / 16777216 % 256
htonl big v = v

-- marshalHashName: the first four bytes of the digest, as memcpy reads them on this host. The
-- static variable keeps the first answer; `none` stands for g_marshal_hash_already being false.
unfoldable pub marshal_hash_name : (List ℕ → List ℕ) → Endian → Option ℕ → List ℕ → ℕ × Option ℕ
marshal_hash_name md5 order (some g_marshal_hash_val) in_name =
    (g_marshal_hash_val, some g_marshal_hash_val)
marshal_hash_name md5 order none in_name =
    let hash_val = load32 order (take 4 (md5 in_name)) in (hash_val, some hash_val)
