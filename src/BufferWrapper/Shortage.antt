-- ===== src/BufferWrapper/Shortage.antt =====
-- Reads of input that ends too early: the error is kept to the end.
use lib_meridian.Prelude.{
  ℕ, ◌+◌, ◌<◌, ◌≤◌, ◌≡◌, refl, ap, ◌∙◌, Bool, true, false, not, ◌&&◌, ◌||◌, length, leb, Option,
  none, if◌then◌else◌, Bool-cases, inl, inr, ◌⊎◌, arith,
}
use lib_meridian.Host.{Endian, Host}
use lib_meridian.BufferWrapper.{
  BufferWrapper, Reader, pure, ◌>>=◌, retrieve_char, retrieve_ushort, retrieve_uint, net_uint,
  net_ushort, error,
}

-- A read takes `n` bytes that are there, or leaves an error.
pub record Takes {ℓ} {A : Type ℓ} (m : Reader A) (n : ℕ) : Type 0 where
  pub effect :
      (rb : BufferWrapper)
      → ((m rb).1.error_flag ≡ true)
        ⊎ ((rb.error_flag ≡ false)
            × ((m rb).1.counter ≡ rb.counter + n)
            × ((m rb).1.buf ≡ rb.buf)
            × (rb.counter + n ≤ length rb.buf))

-- There is an error, or fewer than `n` bytes are ahead.
pub data Short (rb : BufferWrapper) (n : ℕ) : Type 0 where
  failed : rb.error_flag ≡ true → Short rb n
  ends : rb.counter ≤ length rb.buf → length rb.buf < rb.counter + n → Short rb n

-- A parser answers NULL where fewer than `n` bytes are ahead.
pub record Fails {ℓ} {A : Type ℓ} (m : Reader (Option A)) (n : ℕ) : Type ℓ where
  pub answer : (rb : BufferWrapper) → Short rb n → (m rb).0 ≡ none

pub retrieve_char-Takes : Takes retrieve_char 1
unfolding retrieve_char
retrieve_char-Takes = record {
  effect = λ rb. elim (Bool-cases (not rb.error_flag && leb (rb.counter + 1) (length rb.buf))) [
    | inl h ↦ rw h (inr (ground (arith, h), refl, refl, ground (arith, h)))
    | inr h ↦ rw h (inl refl)
  ];
}

retrieve_ushort-Takes : (e : Endian) → Takes (retrieve_ushort e) 2
unfolding retrieve_ushort
retrieve_ushort-Takes e = record {
  effect = λ rb. elim (Bool-cases (not rb.error_flag && leb (rb.counter + 2) (length rb.buf))) [
    | inl h ↦ rw h (inr (ground (arith, h), refl, refl, ground (arith, h)))
    | inr h ↦ rw h (inl refl)
  ];
}

pub retrieve_uint-Takes : (e : Endian) → Takes (retrieve_uint e) 4
unfolding retrieve_uint
retrieve_uint-Takes e = record {
  effect = λ rb. elim (Bool-cases (not rb.error_flag && leb (rb.counter + 4) (length rb.buf))) [
    | inl h ↦ rw h (inr (ground (arith, h), refl, refl, ground (arith, h)))
    | inr h ↦ rw h (inl refl)
  ];
}

pub net_uint-Takes : (h : Host) → Takes (net_uint h) 4
unfolding net_uint ◌>>=◌ pure
net_uint-Takes h = record { effect = λ rb. (retrieve_uint-Takes h.order).effect rb }

pub net_ushort-Takes : (h : Host) → Takes (net_ushort h) 2
unfolding net_ushort ◌>>=◌ pure
net_ushort-Takes h = record { effect = λ rb. (retrieve_ushort-Takes h.order).effect rb }

-- Two reads behind each other.
pub Takes->>= {ℓ κ} :
    {A : Type ℓ} {B : Type κ} {m : Reader A} {k n : ℕ} (f : A → Reader B)
    → Takes m k
    → ((a : A) → Takes (f a) n)
    → Takes (m >>= f) (k + n)
unfolding ◌>>=◌
Takes->>= {m = m} {k} {n} f t u = record {
  effect = λ rb. elim ((u (m rb).0).effect (m rb).1) [
    | inl e ↦ inl e
    | inr (ok, c, b, fits) ↦ elim (t.effect rb) [
      | inl e ↦ absurd (cc (ok, e))
      | inr (ok', c', b', fits') ↦
          inr (ok', omega (arith, c, c'), b ∙ b', omega (arith, c', fits, ap length b'))
    ]
  ];
}

-- What follows reads nothing more.
pub Takes-mapped {ℓ κ} :
    {A : Type ℓ} {B : Type κ} {m : Reader A} {k : ℕ} (f : A → B)
    → Takes m k
    → Takes (m >>= (λ a. pure (f a))) k
unfolding ◌>>=◌ pure
Takes-mapped f t = record { effect = t.effect }

pub Fails->>= {ℓ κ} :
    {A : Type ℓ} {B : Type κ} {m : Reader A} {k n : ℕ} (f : A → Reader (Option B))
    → Takes m k
    → ((a : A) → Fails (f a) n)
    → Fails (m >>= f) (k + n)
unfolding ◌>>=◌
Fails->>= {m = m} {k} {n} f t hf = record {
  answer = λ rb s. elim (t.effect rb) [
    | inl e ↦ (hf (m rb).0).answer (m rb).1 (failed e)
    | inr (ok, c, b, fits) ↦ elim s [
      | failed e ↦ absurd (cc (ok, e))
      | ends within over ↦
          (hf (m rb).0).answer (m rb).1
            (ends (omega (arith, c, ap length b, fits)) (omega (arith, c, ap length b, over)))
    ]
  ];
}

-- `if (rb.error() || check) return NULL;` in front of more.
pub Fails-checked {ℓ} :
    {A : Type ℓ} {n : ℕ} (check : Bool) (more : Reader (Option A))
    → Fails more n
    → Fails (error >>= (λ flag. if flag || check then pure none else more)) n
unfolding ◌>>=◌ error pure
Fails-checked check more h = record {
  answer = λ rb s. elim (Bool-cases (rb.error_flag || check)) [
    | inl e ↦ rw e refl
    | inr e ↦ rw e (h.answer rb s)
  ];
}

-- The same test behind the last read.
pub Fails-last {ℓ} :
    {A : Type ℓ} (check : Bool) (more : Reader (Option A))
    → Fails (error >>= (λ flag. if flag || check then pure none else more)) 0
unfolding ◌>>=◌ error pure
Fails-last check more = record {
  answer = λ rb s. elim s [
    | failed e ↦ rw e refl
    | ends within over ↦ absurd (omega (arith, within, over))
  ];
}
