-- ===== src/BufferWrapper/Reads.antt =====
-- Reads of well-formed input: each read takes the bytes that were written for its value.
use mathlib.Core.List.{foldl}
use lib_meridian.Prelude.{
  ℕ, ◌+◌, ◌≤◌, ◌≡◌, refl, sym, ap, subst, ◌∙◌, false, List, [], ◌∷◌, ◌++◌, not, ◌||◌, ◌==◌, nat_eq,
  true, append_assoc, append-nil, length, length-append, drop, length-drop, drop-drop, flat_map,
  drop-length-append, arith, if◌then◌else◌, All,
}
use lib_meridian.Node.{IsU16, IsU32}
use lib_meridian.Host.{Endian, Host, load32, be16, be32}
use lib_meridian.Host.Order.{htons-load16, htonl-load32}
use lib_meridian.BufferWrapper.{
  BufferWrapper, Reader, pure, ◌>>=◌, advance, retrieve_char, retrieve_ushort, retrieve_uint, error,
  net_uint, net_ushort, read_entries, push_back, new_buffer_wrapper,
}

-- The cursor stands before `rest`, without an error.
pub record At (rb : BufferWrapper) (rest : List ℕ) : Type 0 where
  pub no_error : rb.error_flag ≡ false
  pub ahead : drop rb.counter rb.buf ≡ rest
  pub within : rb.counter ≤ length rb.buf

pub new_buffer_wrapper-At : (bs : List ℕ) → At (new_buffer_wrapper bs) bs
unfolding new_buffer_wrapper
new_buffer_wrapper-At bs = record { no_error = refl; ahead = refl; within = omega arith }

At-length :
    (rb : BufferWrapper) (rest : List ℕ) → At rb rest → length rb.buf ≡ rb.counter + length rest
At-length rb rest at = omega (arith, at.within, length-drop rb.counter rb.buf, ap length at.ahead)

pub At-advance :
    (rb : BufferWrapper) (bs rest : List ℕ) → At rb (bs ++ rest) → At (advance (length bs) rb) rest
At-advance rb bs rest at = record {
  no_error = at.no_error;
  ahead =
      sym (drop-drop (length bs) rb.counter rb.buf)
      ∙ ap (drop (length bs)) at.ahead
      ∙ drop-length-append bs rest;
  within = omega (arith, At-length rb (bs ++ rest) at, length-append bs rest);
}

-- In front of `bs` the read answers `a` and goes behind them.
pub record Reads {ℓ} {A : Type ℓ} (m : Reader A) (bs : List ℕ) (a : A) : Type ℓ where
  pub run :
      (rb : BufferWrapper) (rest : List ℕ) → At rb (bs ++ rest) → m rb ≡ (a, advance (length bs) rb)

advance_zero : (rb : BufferWrapper) → rb ≡ advance 0 rb
advance_zero rb = ground arith

advance-advance :
    (m n : ℕ) (rb : BufferWrapper) {k : ℕ} → k ≡ m + n → advance n (advance m rb) ≡ advance k rb
advance-advance m n rb e = ground arith

pub Reads-pure {ℓ} : {A : Type ℓ} (a : A) → Reads (pure a) [] a
unfolding pure
Reads-pure a = record { run = λ rb rest at. ap (λ r. (a, r)) (advance_zero rb) }

module _ {ℓ κ} {A : Type ℓ} {B : Type κ} where
  pub Reads->>= :
      {m : Reader A} {bs cs : List ℕ} {a : A} {b : B} (f : A → Reader B)
      → Reads m bs a
      → Reads (f a) cs b
      → Reads (m >>= f) (bs ++ cs) b
  unfolding ◌>>=◌
  Reads->>= {bs = bs} {cs} {a} {b} f hm hf = record {
    run = λ rb rest at.
        let at' : At rb (bs ++ (cs ++ rest)) = rw (append_assoc bs cs rest) at at in
        rw (hm.run rb (cs ++ rest) at') (
          hf.run (advance (length bs) rb) rest (At-advance rb bs (cs ++ rest) at')
          ∙ ap (λ r. (b, r)) (advance-advance (length bs) (length cs) rb (length-append bs cs)));
  }

  -- What follows reads nothing more.
  pub Reads->>=_last :
      {m : Reader A} {bs : List ℕ} {a : A} {b : B} (f : A → Reader B)
      → Reads m bs a
      → Reads (f a) [] b
      → Reads (m >>= f) bs b
  Reads->>=_last {m} {bs} {a} {b} f hm hf =
      subst (λ cs. Reads (m >>= f) cs b) (append-nil bs) (Reads->>= f hm hf)

-- The check of a field that holds the value wanted does not fire.
pub Reads-same {ℓ} :
    {A : Type ℓ} {y : Reader A} {bs : List ℕ} {a : A} (v : ℕ) (x : Reader A)
    → Reads y bs a
    → Reads (if false || not (v == v) then x else y) bs a
Reads-same {y = y} {bs} {a} v x h = let e : (v == v) ≡ true = ground arith in rw e h

pub Reads-check {ℓ} :
    {A : Type ℓ} {y : Reader A} {bs : List ℕ} {a : A} (v : ℕ) (x : Reader A)
    → Reads y bs a
    → Reads (if not (v == v) then x else y) bs a
Reads-check {y = y} {bs} {a} v x h = Reads-same v x h

pub retrieve_char-Reads : (c : ℕ) → Reads retrieve_char (c ∷ []) c
unfolding retrieve_char
retrieve_char-Reads c = record {
  run = λ rb rest at. ground (arith, at.no_error, at.ahead, At-length rb (c ∷ rest) at);
}

pub retrieve_uint-Reads :
    (e : Endian) (v : ℕ) → Reads (retrieve_uint e) (be32 v) (load32 e (be32 v))
unfolding retrieve_uint be32
retrieve_uint-Reads e v = record {
  run = λ rb rest at. ground (arith, at.no_error, at.ahead, At-length rb (be32 v ++ rest) at);
}

pub net_uint-Reads : (h : Host) (v : ℕ) → IsU32 v → Reads (net_uint h) (be32 v) v
unfolding net_uint retrieve_uint ◌>>=◌ pure be32
net_uint-Reads h v hv = record {
  run = λ rb rest at.
      ground
        (arith, at.no_error, at.ahead, At-length rb (be32 v ++ rest) at, htonl-load32 h.order v hv);
}

pub net_ushort-Reads : (h : Host) (v : ℕ) → IsU16 v → Reads (net_ushort h) (be16 v) v
unfolding net_ushort retrieve_ushort ◌>>=◌ pure be16
net_ushort-Reads h v hv = record {
  run = λ rb rest at.
      ground
        (arith, at.no_error, at.ahead, At-length rb (be16 v ++ rest) at, htons-load16 h.order v hv);
}

pub error-Reads : Reads error [] false
unfolding error
error-Reads = record { run = λ rb rest at. ground (arith, at.no_error) }

pub read_entries-Reads {ℓ κ} :
    {A : Type ℓ} {S : Type κ} (read : Reader A) (add : S → A → S) (enc : A → List ℕ)
    (P : A → Type 0)
    → ((x : A) → P x → Reads read (enc x) x)
    → (xs : List A) (s : S) → All P xs
    → Reads (read_entries read add (length xs) s) (flat_map enc xs) (foldl add s xs)
unfolding read_entries
read_entries-Reads read add enc P h [] s p = Reads-pure s
read_entries-Reads read add enc P h (x ∷ xs) s p =
    Reads->>= _ error-Reads
      (Reads->>= _ (h x p.0) (read_entries-Reads read add enc P h xs (add s x) p.1))

foldl-push_back {ℓ} : {A : Type ℓ} (xs acc : List A) → foldl push_back acc xs ≡ acc ++ xs
foldl-push_back [] acc = sym (append-nil acc)
foldl-push_back (x ∷ xs) acc = foldl-push_back xs (acc ++ (x ∷ [])) ∙ append_assoc acc (x ∷ []) xs

-- The loop that fills a vector.
pub read_vector-Reads {ℓ} :
    {A : Type ℓ} (read : Reader A) (enc : A → List ℕ) (P : A → Type 0)
    → ((x : A) → P x → Reads read (enc x) x)
    → (xs : List A) → All P xs
    → Reads (read_entries read push_back (length xs) []) (flat_map enc xs) xs
read_vector-Reads read enc P h xs p =
    subst (Reads _ _) (foldl-push_back xs []) (read_entries-Reads read push_back enc P h xs [] p)

-- A parse of what was written, whatever follows it.
pub Reads-result {ℓ} :
    {A : Type ℓ} {m : Reader A} {bs : List ℕ} {a : A} (rest : List ℕ)
    → Reads m bs a
    → (m (new_buffer_wrapper (bs ++ rest))).0 ≡ a
Reads-result {bs = bs} rest h =
    ap (λ r. r.0)
      (h.run (new_buffer_wrapper (bs ++ rest)) rest (new_buffer_wrapper-At (bs ++ rest)))
