-- ===== src/Node.antt =====
-- Node identities (NodeIdent_t and its relatives in Marshal.h) and the orders on them.
use lib_meridian.Prelude.{
  ℕ, ◌^◌, ◌<◌, ◌≡◌, ◌↔◌, Bool, true, false, ◌&&◌, ◌||◌, Eq, ◌==◌, nat_eq, ltb, arith,
}
use lib_meridian.OrdMap.{Key}

-- The ranges of the machine integers.
abbrev pub IsU8 : ℕ → Type 0
IsU8 n = n < 256

abbrev pub IsU16 : ℕ → Type 0
IsU16 n = n < 65536

abbrev pub IsU32 : ℕ → Type 0
IsU32 n = n < 4294967296

abbrev pub IsU64 : ℕ → Type 0
IsU64 n = n < 2 ^ 64

pub record NodeIdent : Type 0 where
  pub addr : ℕ
  pub port : ℕ

pub record NodeIdentRendv : Type 0 where
  pub addr : ℕ
  pub port : ℕ
  pub addr_rendv : ℕ
  pub port_rendv : ℕ

pub record NodeIdentConst : Type 0 where
  pub addr : ℕ
  pub port : ℕ
  pub latency_const_ms : ℕ

pub record NodeIdentLat : Type 0 where
  pub addr : ℕ
  pub port : ℕ
  pub latency_us : ℕ

-- ltNodeIdent.
unfoldable pub lt_node_ident : NodeIdent → NodeIdent → Bool
lt_node_ident s1 s2 = ltb s1.addr s2.addr || (s1.addr == s2.addr && ltb s1.port s2.port)

-- ltNodeIdentRendv: the rendezvous fields take no part in the order.
unfoldable pub lt_node_ident_rendv : NodeIdentRendv → NodeIdentRendv → Bool
lt_node_ident_rendv s1 s2 = ltb s1.addr s2.addr || (s1.addr == s2.addr && ltb s1.port s2.port)

-- The test that the loops of the source write out: same address and same port.
unfoldable pub same_node : NodeIdent → NodeIdent → Bool
same_node a b = a.addr == b.addr && a.port == b.port

pub same_node_iff : (a b : NodeIdent) → (same_node a b ≡ true) ↔ (a ≡ b)
unfolding same_node
same_node_iff a b = ground arith

instance abbrev pub node_eq : Eq NodeIdent
node_eq = record { test = same_node; test_iff = same_node_iff }

pub lt_node_ident_trans :
    (a b c : NodeIdent)
    → lt_node_ident a b ≡ true
    → lt_node_ident b c ≡ true
    → lt_node_ident a c ≡ true
unfolding lt_node_ident
lt_node_ident_trans a b c h k = ground arith

pub lt_node_ident_irrefl : (a : NodeIdent) → lt_node_ident a a ≡ false
unfolding lt_node_ident
lt_node_ident_irrefl a = ground arith

pub lt_node_ident_total :
    (a b : NodeIdent) → lt_node_ident a b ≡ false → same_node a b ≡ false → lt_node_ident b a ≡ true
unfolding lt_node_ident same_node
lt_node_ident_total a b h k = ground arith

-- The key of the maps over ltNodeIdent.
instance abbrev pub node_key : Key NodeIdent
node_key = record {
  eq = node_eq;
  lt = lt_node_ident;
  lt_trans = lt_node_ident_trans;
  lt_irrefl = lt_node_ident_irrefl;
  lt_total = lt_node_ident_total;
}

-- Each field in the range of its machine type.
pub record InRange (n : NodeIdent) : Type 0 where
  pub addr_range : IsU32 n.addr
  pub port_range : IsU16 n.port
