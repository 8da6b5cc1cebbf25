-- ===== src/QueryTable/Order.antt =====
-- queryLT of QueryTable.h: queries are in the order of their ids.
use lib_meridian.Prelude.{ℕ, ◌≡◌, Bool, true, false, nat_eq, ltb, arith}
use lib_meridian.OrdMap.{Key}

unfoldable pub query_lt : ℕ → ℕ → Bool
query_lt a b = ltb a b

pub query_lt_trans : (a b c : ℕ) → query_lt a b ≡ true → query_lt b c ≡ true → query_lt a c ≡ true
unfolding query_lt
query_lt_trans a b c h k = ground (arith, h, k)

pub query_lt_irrefl : (a : ℕ) → query_lt a a ≡ false
unfolding query_lt
query_lt_irrefl a = ground arith

pub query_lt_total :
    (a b : ℕ) → query_lt a b ≡ false → nat_eq.test a b ≡ false → query_lt b a ≡ true
unfolding query_lt
query_lt_total a b h k = ground (arith, h, k)

instance abbrev pub id_key : Key ℕ
id_key = record {
  eq = nat_eq;
  lt = query_lt;
  lt_trans = query_lt_trans;
  lt_irrefl = query_lt_irrefl;
  lt_total = query_lt_total;
}
