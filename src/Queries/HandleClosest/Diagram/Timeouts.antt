-- ===== src/Queries/HandleClosest/Diagram/Timeouts.antt =====
-- handleTimeout of HandleClosestGeneric, and how many time-outs a search can still wait for.
use lib_meridian.Prelude.{
  ℕ, suc, ◌≤◌, ◌≡◌, refl, subst, false, nat_eq, List, [], some, if◌then◌else◌, arith,
}
use lib_meridian.Node.{NodeIdent, node_key}
use lib_meridian.RealPacket.{RealPacket, Status, success, failure}
use lib_meridian.Queries.{Outcome, Action}
use lib_meridian.Queries.{zero_node}
use lib_meridian.Queries.HandleClosest.{
  Phase, hc_init, hc_wait_for_direct_ping, hc_indirect_ping, hc_wait_for_fin, HandleClosest, Env,
}
use lib_meridian.Queries.HandleClosest.Steps.{
  handle_forward, respond, forward, sent_forward, finish,
}
use lib_meridian.Queries.HandleClosest.Handlers.{handle_timeout, timeout_in}
use lib_meridian.Queries.HandleClosest.Diagram.{
  gives_up, IsValid, Ends, finish-IsValid, handle_forward-Ends,
}
use lib_meridian.Queries.HandleClosest.Steps.{respond_error}
use lib_meridian.Queries.HandleClosest.Selection.{
  Decision, forwards, forwards_to_nobody, answers_member, answers_self, handle_forward_lem,
}

-- What a time-out can still be waited for: nothing once the query is finished, the end of a forwarded
-- search, or that and the ring members before it.
abbrev pub timeouts_left : HandleClosest → ℕ
timeouts_left q = if q.finished then 0 else (elim q.state_machine [
  | hc_init ↦ 1
  | hc_wait_for_direct_ping ↦ 1
  | hc_indirect_ping ↦ 2
  | hc_wait_for_fin ↦ 1
])

sent_forward-left :
    (e : Env) (n : NodeIdent) (p : Status × RealPacket) (q : HandleClosest)
    → timeouts_left (sent_forward e n p q).state ≤ 1
unfolding sent_forward
sent_forward-left e n (failure, p) q = omega arith
sent_forward-left e n (success, p) q = ground arith

forward-left :
    (e : Env) (q : HandleClosest) (o : Outcome HandleClosest)
    → IsValid q
    → handle_forward e q ≡ some o
    → timeouts_left o.state ≤ 1
unfolding forward respond
forward-left e q o v h =
    let (r, best, decision) = handle_forward_lem e q v.results_ordered v.average in
    decide r decision
  where
    same :
        (x : Outcome HandleClosest)
        → handle_forward e q ≡ some x
        → timeouts_left x.state ≤ 1
        → timeouts_left o.state ≤ 1
    same x g k =
        let here : x ≡ o = cc (h, g) in
        subst (λ (y : Outcome HandleClosest). timeouts_left y.state ≤ 1) here k

    decide : (r : ℕ × NodeIdent) → Decision e q r → timeouts_left o.state ≤ 1
    decide r (forwards l f a b g) = same _ g (sent_forward-left e r.1 _ q)
    decide r (forwards_to_nobody k b g) = same _ g (sent_forward-left e zero_node _ q)
    decide r (answers_member l a b f g) = same _ g (omega arith)
    decide r (answers_self a b g) = same _ g (omega arith)

finishes :
    (q : HandleClosest) (actions : List Action) (answer : Status)
    → IsValid q
    → (d : Ends q (some (record { state = finish q; actions = actions; answer = answer })))
      × (timeouts_left d.outcome.state ≡ 0)
finishes q actions answer v = (
  record {
    outcome = record { state = finish q; actions = actions; answer = answer };
    ends = refl;
    valid = finish-IsValid q v;
    moves = gives_up;
  },
  refl,
)

phase_left :
    (q : HandleClosest)
    → q.finished ≡ false
    → q.state_machine ≡ hc_indirect_ping
    → timeouts_left q ≡ 2
phase_left q f i = rw (f, i) refl

some_left : (q : HandleClosest) → q.finished ≡ false → 1 ≤ timeouts_left q
some_left q f = ground (arith, f)

-- A time-out of a valid query ends without a failing assert in a valid state, to which the diagram
-- leads. The time-outs to wait for are at most two, and fewer after the time-out of a query that is not
-- finished.
pub handle_timeout-left :
    (e : Env) (q : HandleClosest)
    → IsValid q
    → (d : Ends q (handle_timeout e q)) × (q.finished ≡ false
        → suc (timeouts_left d.outcome.state) ≤ timeouts_left q)
      × (timeouts_left q ≤ 2)
unfolding handle_timeout timeout_in respond_error
handle_timeout-left e q v = go q.state_machine refl
  where
    at_most : timeouts_left q ≤ 2
    at_most = ground arith

    go :
        (p : Phase)
        → q.state_machine ≡ p
        → (d : Ends q (timeout_in e q p)) × (q.finished ≡ false
            → suc (timeouts_left d.outcome.state) ≤ timeouts_left q)
          × (timeouts_left q ≤ 2)
    go hc_init p =
        let (d, z) = finishes q [] success v in (d, (λ f. omega (arith, z, some_left q f)), at_most)
    go hc_wait_for_direct_ping p =
        let (d, z) = finishes q _ success v in (d, (λ f. omega (arith, z, some_left q f)), at_most)
    go hc_wait_for_fin p =
        let (d, z) = finishes q _ success v in (d, (λ f. omega (arith, z, some_left q f)), at_most)
    go hc_indirect_ping p =
        let d = handle_forward-Ends e q p v in
        (d, (λ f. omega (arith, forward-left e q d.outcome v d.ends, phase_left q f p)), at_most)
