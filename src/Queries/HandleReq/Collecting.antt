-- ===== src/Queries/HandleReq/Collecting.antt =====
-- A measurement for another node is over when every target has been measured.
use lib_meridian.Prelude.{
  ℕ, ◌≡◌, refl, ap, sym, subst, ◌∙◌, Bool, true, false, ◌==◌, ◌&&◌, ◌||◌, not, nat_eq, List, [],
  ◌∷◌, Option, none, some, if◌then◌else◌, if_true, if_false, Bool-cases, inl, inr, ◌↔◌,
}
use lib_meridian.Node.{NodeIdent, NodeIdentLat, node_eq, node_key}
use lib_meridian.Host.{Host}
use lib_meridian.OrdMap.{find}
use lib_meridian.RealPacket.{RealPacket, Status, success, failure}
use lib_meridian.RingSet.Queries.{NodeSet, has}
use lib_meridian.Queries.{Outcome, send_or_refuse, node_of}
use lib_meridian.Queries.HandleReq.{
  HandleReq, handle_latency, handle_one, send_return_packet, complete, finish, store_latency,
}
use lib_meridian.Queries.HandleReq.Learning.{
  IsValid, known, complete_lem, or_else, learn, Learnt, has-none, none-has, complete-Learnt,
  refuse-Learnt, store-Learnt,
}

send_or_refuse-state : (q : HandleReq) (r : Status × RealPacket) → (send_or_refuse q r).state ≡ q
unfolding send_or_refuse
send_or_refuse-state q (success, p) = refl
send_or_refuse-state q (failure, p) = refl

send_return_packet-state : (h : Host) (q : HandleReq) → (send_return_packet h q).state ≡ q
unfolding send_return_packet
send_return_packet-state h q = send_or_refuse-state q _

handle_one-refused :
    (h : Host) (l : NodeIdentLat) (q : HandleReq)
    → (not (has (node_of l) q.remote_nodes) || has (node_of l) q.remote_latencies) ≡ true
    → (handle_one h l q).state ≡ q
unfolding handle_one
handle_one-refused h l q g = ap (λ (o : Outcome HandleReq). o.state) (if_true _ _ g)

handle_one-stored :
    (h : Host) (l : NodeIdentLat) (q : HandleReq) (b : Bool)
    → (not (has (node_of l) q.remote_nodes) || has (node_of l) q.remote_latencies) ≡ false
    → complete (store_latency (node_of l) l.latency_us q) ≡ b
    → q.finished ≡ false
    → (handle_one h l q).state ≡ record (store_latency (node_of l) l.latency_us q) { finished = b }
unfolding handle_one store_latency
handle_one-stored h l q true g e f =
    ap (λ (o : Outcome HandleReq). o.state) (if_false _ _ g ∙ if_true _ _ e)
    ∙ send_return_packet-state h (finish (store_latency (node_of l) l.latency_us q))
handle_one-stored h l q false g e f =
    ap (λ (o : Outcome HandleReq). o.state) (if_false _ _ g ∙ if_false _ _ e)
    ∙ ap (λ b. record (store_latency (node_of l) l.latency_us q) { finished = b }) f

handle_one-Learnt :
    (h : Host) (l : NodeIdentLat) (q : HandleReq)
    → IsValid q
    → complete q ≡ false
    → Learnt l q (handle_one h l q).state
handle_one-Learnt h l q v c = elim (Bool-cases (has (node_of l) q.remote_nodes)) [
  | inr t ↦
      subst (Learnt l q) (sym (handle_one-refused h l q (rw t refl)))
        (refuse-Learnt l q v (λ x y. cc (x, t)))
  | inl t ↦ elim (Bool-cases (has (node_of l) q.remote_latencies)) [
    | inl k ↦
        subst (Learnt l q) (sym (handle_one-refused h l q (rw (t, k) refl)))
          (refuse-Learnt l q v (λ x y. cc (none-has (node_of l) q.remote_latencies y, k)))
    | inr k ↦
        let b = complete (store_latency (node_of l) l.latency_us q) in
        subst (Learnt l q) (sym (handle_one-stored h l q b (rw (t, k) refl) refl (v.ended ∙ c)))
          (store-Learnt l q b v t (has-none (node_of l) q.remote_latencies k) refl)
  ]
]

handle_latency-Learnt :
    (h : Host) (l : NodeIdentLat) (q : HandleReq)
    → IsValid q
    → Learnt l q (handle_latency h (l ∷ []) q).state
unfolding handle_latency
handle_latency-Learnt h l q v = elim (Bool-cases (complete q)) [
  | inl c ↦
      subst (Learnt l q)
        (sym (
          ap (λ (o : Outcome HandleReq). o.state) (if_true _ _ c)
          ∙ send_return_packet-state h (finish q)))
        (complete-Learnt l q v c)
  | inr c ↦
      subst (Learnt l q) (sym (ap (λ (o : Outcome HandleReq). o.state) (if_false _ _ c)))
        (handle_one-Learnt h l q v c)
]

-- The query after the notices of single latencies.
abbrev pub notices : Host → List NodeIdentLat → HandleReq → HandleReq
notices h [] q = q
notices h (l ∷ ls) q = notices h ls (handle_latency h (l ∷ []) q).state

-- What the protocol means the notices to tell.
abbrev pub learn_all : NodeSet → List NodeIdentLat → (NodeIdent → Option ℕ) → NodeIdent → Option ℕ
learn_all targets [] f = f
learn_all targets (l ∷ ls) f = learn_all targets ls (learn targets l f)

learn_all-same :
    (targets : NodeSet) (ls : List NodeIdentLat) (f g : NodeIdent → Option ℕ)
    → ((n : NodeIdent) → f n ≡ g n)
    → (n : NodeIdent) → learn_all targets ls f n ≡ learn_all targets ls g n
learn_all-same targets [] f g e n = e n
learn_all-same targets (l ∷ ls) f g e n =
    learn_all-same targets ls (learn targets l f) (learn targets l g)
      (λ m.
        ap (λ o. if node_of l == m && has m targets then some (or_else o l.latency_us) else o)
          (e m))
      n

-- After any sequence of notices of single latencies, a valid query knows of each node what the notices
-- tell, where the first latency of a target counts and other nodes do not; and it is finished exactly
-- when every target has its latency.
pub notices-learn_all :
    (h : Host) (ls : List NodeIdentLat) (q : HandleReq)
    → IsValid q
    → ((n : NodeIdent) → known (notices h ls q) n ≡ learn_all q.remote_nodes ls (known q) n)
      × ((notices h ls q).finished ≡ true ↔ (
          (n : NodeIdent)
          → learn_all q.remote_nodes ls (known q) n ≡ none
          → find n q.remote_nodes ≡ none))
notices-learn_all h [] q v = (
  (λ n. refl),
  ((λ e. (complete_lem q v).0 (sym v.ended ∙ e)), λ a. v.ended ∙ (complete_lem q v).1 a),
)
notices-learn_all h (l ∷ ls) q v =
    let s = handle_latency-Learnt h l q v in
    let r = (handle_latency h (l ∷ []) q).state in
    let (told, ended) = notices-learn_all h ls r s.valid in
    let same : (n : NodeIdent)
        → learn_all r.remote_nodes ls (known r) n
          ≡ learn_all q.remote_nodes ls (learn q.remote_nodes l (known q)) n =
      λ n.
        ap (λ t. learn_all t ls (known r) n) s.targets
        ∙ learn_all-same q.remote_nodes ls (known r) (learn q.remote_nodes l (known q)) s.latencies
            n in
    (
      (λ n. told n ∙ same n),
      (
        (λ e n g. ap (find n) (sym s.targets) ∙ ended.0 e n (same n ∙ g)),
        λ a. ended.1 (λ n g. ap (find n) s.targets ∙ a n (sym (same n) ∙ g)),
      ),
    )
