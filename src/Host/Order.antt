-- ===== src/Host/Order.antt =====
-- The byte order of the host cancels out between memcpy and htonl.
use lib_meridian.Prelude.{ℕ, ◌≡◌, refl, length, [], ◌∷◌, arith}
use lib_meridian.Node.{IsU8, IsU16, IsU32}
use lib_meridian.Host.{
  Endian, little, big, be16, be32, store16, store32, load16, load32, htons, htonl,
}

-- What is written is most significant byte first, on every host.
pub store16-htons : (e : Endian) (v : ℕ) → store16 e (htons e v) ≡ be16 v
unfolding store16 htons be16 be32
store16-htons little v = ground arith
store16-htons big v = refl

pub store32-htonl : (e : Endian) (v : ℕ) → store32 e (htonl e v) ≡ be32 v
unfolding store32 htonl be16 be32
store32-htonl little v = ground arith
store32-htonl big v = refl

-- What is read back is the number that was written.
pub htons-load16 : (e : Endian) (v : ℕ) → IsU16 v → htons e (load16 e (be16 v)) ≡ v
unfolding load16 htons be16 be32
htons-load16 little v h = omega arith
htons-load16 big v h = omega arith

pub htonl-load32 : (e : Endian) (v : ℕ) → IsU32 v → htonl e (load32 e (be32 v)) ≡ v
unfolding load32 htonl be16 be32
htonl-load32 little v h = omega arith
htonl-load32 big v h = omega arith

-- Any bytes that are read are the network form of the number that they are read as.
pub be16-load16 :
    (e : Endian) (a b : ℕ) → IsU8 a → IsU8 b → be16 (htons e (load16 e (a ∷ b ∷ []))) ≡ a ∷ b ∷ []
unfolding load16 htons be16 be32
be16-load16 little a b ha hb = ground arith
be16-load16 big a b ha hb = ground arith

pub be32-load32 :
    (e : Endian) (a b c d : ℕ)
    → IsU8 a
    → IsU8 b
    → IsU8 c
    → IsU8 d
    → be32 (htonl e (load32 e (a ∷ b ∷ c ∷ d ∷ []))) ≡ a ∷ b ∷ c ∷ d ∷ []
unfolding load32 htonl be16 be32
be32-load32 little a b c d ha hb hc hd = ground arith
be32-load32 big a b c d ha hb hc hd = ground arith

pub length-be16 : (v : ℕ) → length (be16 v) ≡ 2
unfolding be16
length-be16 v = refl

pub length-be32 : (v : ℕ) → length (be32 v) ≡ 4
unfolding be32
length-be32 v = refl
