-- ===== src/Queries/HandleReq/Learning.antt =====
-- What a measurement for another node knows, and what a notice tells it.
use lib_meridian.Prelude.{
  ℕ, ◌≡◌, refl, ap, sym, ◌∙◌, Bool, true, false, ◌==◌, ◌&&◌, nat_eq, nat_beq_iff, Option, none,
  some, length, if◌then◌else◌, if_true, if_false, Bool-cases, inl, inr, arith, ◌↔◌,
}
use lib_meridian.Node.{NodeIdent, NodeIdentLat, node_eq, node_key, same_node_iff}
use lib_meridian.OrdMap.{OrdMap, find, insert, Sorted}
use lib_meridian.OrdMap.Laws.{find-insert, insert-Sorted}
use lib_meridian.OrdMap.Subsets.{Within, length-Within, same_keys}
use lib_meridian.RingSet.Queries.{NodeSet, has}
use lib_meridian.Queries.{node_of}
use lib_meridian.Queries.HandleReq.{HandleReq, complete, finish, store_latency}

-- Only targets are measured, and the query is finished when it is complete.
pub record IsValid (q : HandleReq) : Type 0 where
  pub asked : Within q.remote_latencies q.remote_nodes
  pub latencies_ordered : Sorted q.remote_latencies
  pub nodes_ordered : Sorted q.remote_nodes
  pub ended : q.finished ≡ complete q

-- The targets that a query has, and the latency that it knows of a node.
abbrev pub known : HandleReq → NodeIdent → Option ℕ
known q n = find n q.remote_latencies

-- Every target has its latency.
abbrev pub AllKnown : HandleReq → Type 0
AllKnown q = (n : NodeIdent) → known q n ≡ none → find n q.remote_nodes ≡ none

pub complete_lem : (q : HandleReq) → IsValid q → (complete q ≡ true) ↔ AllKnown q
complete_lem q v = (
  (λ e.
      same_keys q.remote_latencies q.remote_nodes v.latencies_ordered v.asked
        ((nat_beq_iff (length q.remote_latencies) (length q.remote_nodes)).0 e)),
  λ a. (nat_beq_iff (length q.remote_latencies) (length q.remote_nodes)).1 (
      omega (
        arith,
        length-Within q.remote_latencies q.remote_nodes v.latencies_ordered v.asked,
        length-Within q.remote_nodes q.remote_latencies v.nodes_ordered a,
      )),
)

abbrev pub or_else : Option ℕ → ℕ → ℕ
or_else none l = l
or_else (some v) l = v

-- A notice as the protocol means it: the first latency of a target counts.
abbrev pub learn : NodeSet → NodeIdentLat → (NodeIdent → Option ℕ) → NodeIdent → Option ℕ
learn targets l f n =
    if node_of l == n && has n targets then some (or_else (f n) l.latency_us) else f n

-- A step that does what the protocol means.
pub record Learnt (l : NodeIdentLat) (q r : HandleReq) : Type 0 where
  pub valid : IsValid r
  pub targets : r.remote_nodes ≡ q.remote_nodes
  pub latencies : (n : NodeIdent) → known r n ≡ learn q.remote_nodes l (known q) n

pub has-none :
    {V : Type 0} (n : NodeIdent) (m : OrdMap NodeIdent V) → has n m ≡ false → find n m ≡ none
unfolding has
has-none n m h = ground (arith, h)

pub none-has :
    {V : Type 0} (n : NodeIdent) (m : OrdMap NodeIdent V) → find n m ≡ none → has n m ≡ false
unfolding has
none-has n m h = ground (arith, h)

and_left : (a b : Bool) → (a && b) ≡ true → a ≡ true
and_left true b h = refl
and_left false b h = h

and_right : (a b : Bool) → (a && b) ≡ true → b ≡ true
and_right true b h = h
and_right false b h = absurd (cc (h))

known-learn :
    (targets : NodeSet) (l : NodeIdentLat) (f : NodeIdent → Option ℕ) (n : NodeIdent)
    → (has n targets ≡ true → f n ≡ none → node_of l ≡ n → ⊥)
    → f n ≡ learn targets l f n
known-learn targets l f n h = go (f n) refl
  where
    go : (o : Option ℕ) → f n ≡ o → f n ≡ learn targets l f n
    go (some v) e = elim (Bool-cases (node_of l == n && has n targets)) [
      | inl g ↦ e ∙ sym (if_true _ _ g ∙ ap (λ o. some (or_else o l.latency_us)) e)
      | inr g ↦ sym (if_false _ _ g)
    ]
    go none e = elim (Bool-cases (node_of l == n && has n targets)) [
      | inl g ↦ absurd (
          h (and_right (node_of l == n) (has n targets) g) e
            ((same_node_iff (node_of l) n).0 (and_left (node_of l == n) (has n targets) g)))
      | inr g ↦ sym (if_false _ _ g)
    ]

pub complete-Learnt :
    (l : NodeIdentLat) (q : HandleReq) → IsValid q → complete q ≡ true → Learnt l q (finish q)
complete-Learnt l q v c = record {
  valid = record {
    asked = v.asked;
    latencies_ordered = v.latencies_ordered;
    nodes_ordered = v.nodes_ordered;
    ended = sym c;
  };
  targets = refl;
  latencies = λ n.
      known-learn q.remote_nodes l (known q) n
        (λ h g e. absurd (cc (none-has n q.remote_nodes ((complete_lem q v).0 c n g), h)));
}

pub refuse-Learnt :
    (l : NodeIdentLat) (q : HandleReq)
    → IsValid q
    → (has (node_of l) q.remote_nodes ≡ true → known q (node_of l) ≡ none → ⊥)
    → Learnt l q q
refuse-Learnt l q v h = record {
  valid = v;
  targets = refl;
  latencies = λ n.
      known-learn q.remote_nodes l (known q) n
        (λ t g e. h (ap (λ x. has x q.remote_nodes) e ∙ t) (ap (known q) e ∙ g));
}

store-latencies :
    (l : NodeIdentLat) (q : HandleReq) (n : NodeIdent)
    → has (node_of l) q.remote_nodes ≡ true
    → known q (node_of l) ≡ none
    → find n (insert (node_of l) l.latency_us q.remote_latencies)
      ≡ learn q.remote_nodes l (known q) n
store-latencies l q n t g =
    find-insert n (node_of l) l.latency_us q.remote_latencies ∙ elim (Bool-cases (n == node_of l)) [
      | inl e ↦
          let same : n ≡ node_of l = (same_node_iff n (node_of l)).0 e in
          if_true _ _ e
          ∙ sym (
              if_true _ _ (
                and_both (node_of l == n) (has n q.remote_nodes)
                  ((same_node_iff (node_of l) n).1 (sym same))
                  (ap (λ x. has x q.remote_nodes) same ∙ t))
              ∙ ap (λ o. some (or_else o l.latency_us)) (ap (known q) same ∙ g))
      | inr e ↦ if_false _ _ e ∙ sym (if_false _ _ (apart (has n q.remote_nodes) e))
    ]
  where
    and_both : (a b : Bool) → a ≡ true → b ≡ true → (a && b) ≡ true
    and_both a b x y = rw (x, y) refl

    apart : (b : Bool) → (n == node_of l) ≡ false → (node_of l == n && b) ≡ false
    apart b x = ground (arith, x, same_node_iff n (node_of l), same_node_iff (node_of l) n)

stored-Within :
    (l : NodeIdentLat) (q : HandleReq)
    → IsValid q
    → has (node_of l) q.remote_nodes ≡ true
    → Within (insert (node_of l) l.latency_us q.remote_latencies) q.remote_nodes
stored-Within l q v t n g =
    find-insert n (node_of l) l.latency_us q.remote_latencies ∙ elim (Bool-cases (n == node_of l)) [
      | inl e ↦ absurd (
          cc (
            none-has n q.remote_nodes g,
            ap (λ x. has x q.remote_nodes) ((same_node_iff n (node_of l)).0 e),
            t,
          ))
      | inr e ↦ if_false _ _ e ∙ v.asked n g
    ]

pub store-Learnt :
    (l : NodeIdentLat) (q : HandleReq) (f : Bool)
    → IsValid q
    → has (node_of l) q.remote_nodes ≡ true
    → known q (node_of l) ≡ none
    → f ≡ complete (store_latency (node_of l) l.latency_us q)
    → Learnt l q (record (store_latency (node_of l) l.latency_us q) { finished = f })
unfolding store_latency
store-Learnt l q f v t g e = record {
  valid = record {
    asked = stored-Within l q v t;
    latencies_ordered =
        insert-Sorted (node_of l) l.latency_us q.remote_latencies v.latencies_ordered;
    nodes_ordered = v.nodes_ordered;
    ended = e;
  };
  targets = refl;
  latencies = λ n. store-latencies l q n t g;
}
