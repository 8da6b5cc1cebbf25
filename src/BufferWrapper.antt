-- ===== src/BufferWrapper.antt =====
-- class BufferWrapper of Marshal.h: a cursor over the bytes of a packet that arrived. `buf` is the
-- bufSize bytes at hand; an error is kept, and every later read fails.
pub mod Reads
pub mod Shortage
use lib_meridian.Prelude.{
  ℕ, ◌+◌, ◌-◌, ◌≤◌, Bool, true, false, not, ◌&&◌, List, [], ◌∷◌, ◌++◌, length, take, drop, leb,
  if◌then◌else◌, zero, suc,
}
use lib_meridian.Host.{Endian, Host, load16, load32, htons, htonl}

pub record BufferWrapper : Type 0 where
  pub error_flag : Bool
  pub buf : List ℕ
  pub counter : ℕ

unfoldable pub new_buffer_wrapper : List ℕ → BufferWrapper
new_buffer_wrapper in_buf = record { error_flag = false; buf = in_buf; counter = 0 }

-- A read: the value, and the cursor behind it.
abbrev pub Reader {ℓ} : Type ℓ → Type ℓ
Reader A = BufferWrapper → A × BufferWrapper

unfoldable pub pure {ℓ} : {A : Type ℓ} → A → Reader A
pure a rb = (a, rb)

infixl 5 ◌>>=◌
unfoldable pub ◌>>=◌ {ℓ κ} : {A : Type ℓ} {B : Type κ} → Reader A → (A → Reader B) → Reader B
◌>>=◌ m f rb = let (a, rb') = m rb in f a rb'

abbrev pub advance : ℕ → BufferWrapper → BufferWrapper
advance n rb = record rb { counter = rb.counter + n }

abbrev has_bytes : ℕ → BufferWrapper → Bool
has_bytes n rb = not rb.error_flag && leb (rb.counter + n) (length rb.buf)

abbrev pub head_or_zero : List ℕ → ℕ
head_or_zero [] = 0
head_or_zero (b ∷ _) = b

unfoldable pub retrieve_char : Reader ℕ
retrieve_char rb =
    if has_bytes 1 rb
    then (head_or_zero (drop rb.counter rb.buf), advance 1 rb)
    else (0, record rb { error_flag = true })

unfoldable pub retrieve_ushort : Endian → Reader ℕ
retrieve_ushort e rb =
    if has_bytes 2 rb
    then (load16 e (take 2 (drop rb.counter rb.buf)), advance 2 rb)
    else (0, record rb { error_flag = true })

unfoldable pub retrieve_uint : Endian → Reader ℕ
retrieve_uint e rb =
    if has_bytes 4 rb
    then (load32 e (take 4 (drop rb.counter rb.buf)), advance 4 rb)
    else (0, record rb { error_flag = true })

-- The bit pattern of the int32_t.
unfoldable pub retrieve_int : Endian → Reader ℕ
retrieve_int e rb =
    if has_bytes 4 rb
    then (load32 e (take 4 (drop rb.counter rb.buf)), advance 4 rb)
    else (0, record rb { error_flag = true })

unfoldable pub remain_buf_size : Reader ℕ
remain_buf_size rb = (length rb.buf - rb.counter, rb)

unfoldable pub return_pos : Reader ℕ
return_pos rb = (rb.counter, rb)

unfoldable pub error : Reader Bool
error rb = (rb.error_flag, rb)

-- `ntohl(rb.retrieve_uint())` and `ntohs(rb.retrieve_ushort())`.
unfoldable pub net_uint : Host → Reader ℕ
net_uint h = do v ← retrieve_uint h.order; pure (htonl h.order v)

unfoldable pub net_ushort : Host → Reader ℕ
net_ushort h = do v ← retrieve_ushort h.order; pure (htons h.order v)

-- `for (i = 0; !rb.error() && i < numEntry; i++)`: reads an entry and adds it to what the loop
-- builds; `n` counts the rounds left.
unfoldable pub read_entries {ℓ κ} :
    {A : Type ℓ} {S : Type κ} → Reader A → (S → A → S) → ℕ → S → Reader S
read_entries read add zero s = pure s
read_entries read add (suc n) s = do
  failed ← error
  if failed then pure s else do x ← read; read_entries read add n (add s x)

-- `push_back`.
abbrev pub push_back {ℓ} : {A : Type ℓ} → List A → A → List A
push_back xs x = xs ++ (x ∷ [])
