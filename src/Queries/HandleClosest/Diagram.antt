-- ===== src/Queries/HandleClosest/Diagram.antt =====
-- The state machine of HandleClosestGeneric as a diagram, and what every handler keeps.
pub mod Latencies
pub mod Timeouts
pub mod Beginning
pub mod Events
use lib_meridian.Prelude.{
  ℕ, suc, ◌+◌, ◌≤◌, ◌≡◌, refl, ap, sym, subst, if_true, if_false, ◌∙◌, Bool, true, false, not, ◌||◌,
  ◌==◌, nat_eq, List, [], ◌∷◌, Option, none, some, length, map, if◌then◌else◌, Bool-cases, inl, inr,
  ◌⊎◌, arith, ltb, ℤ, pos, negsuc,
}
use lib_meridian.Node.{NodeIdent, node_key}
use lib_meridian.OrdMap.{OrdMap, find, insert, Sorted}
use lib_meridian.OrdMap.Laws.{same_refl}
use lib_meridian.OrdMap.Subsets.{Within}
use lib_meridian.RealPacket.{RealPacket, Status, success, failure}
use lib_meridian.Queries.{Outcome, zero_node, Action}
use lib_meridian.Queries.HandleClosest.{
  Phase, hc_init, hc_wait_for_direct_ping, hc_indirect_ping, hc_wait_for_fin, HandleClosest,
  Numbers, Ratio, beta_ratio, uint_max, to_uint, total_value, get_max_and_min_and_average, Env,
}
use lib_meridian.Queries.HandleClosest.Steps.{
  handle_forward, measured, respond, forward, sent_forward, finish, send_req_probes, complete,
  is_direct, ask_members, in_indirect_ping, request, member_rendv,
}
use lib_meridian.Queries.HandleClosest.Selection.{
  Decision, forwards, forwards_to_nobody, answers_member, answers_self, handle_forward_lem,
}

-- The phase, and whether the query is finished.
abbrev pub view : HandleClosest → Phase × Bool
view q = (q.state_machine, q.finished)

infix 40 ◌⟶◌
pub data ◌⟶◌ : Phase × Bool → Phase × Bool → Type 0 where
  rests : {v : Phase × Bool} → v ⟶ v
  gives_up : {p : Phase} {f : Bool} → (p, f) ⟶ (p, true)
  starts : {f : Bool} → (hc_init, f) ⟶ (hc_wait_for_direct_ping, f)
  asks : {f : Bool} → (hc_wait_for_direct_ping, f) ⟶ (hc_indirect_ping, f)
  answers_alone : {f : Bool} → (hc_wait_for_direct_ping, f) ⟶ (hc_indirect_ping, true)
  passes_on : {f : Bool} → (hc_indirect_ping, f) ⟶ (hc_wait_for_fin, f)

-- Ring members have not been asked.
abbrev pub is_early : Phase → Bool
is_early hc_init = true
is_early hc_wait_for_direct_ping = true
is_early _ = false

-- Only targets are measured, only ring members have results, and there are none before they are asked;
-- latencies are of 32 bits.
pub record IsValid (q : HandleClosest) : Type 0 where
  pub average : q.average_lat_us ≤ uint_max
  pub latencies_ordered : Sorted q.remote_latencies
  pub latencies_asked : Within q.remote_latencies q.remote_nodes
  pub latencies_small : (n : NodeIdent) (l : ℕ) → find n q.remote_latencies ≡ some l → l ≤ uint_max
  pub results_ordered : Sorted q.ring_latencies
  pub results_asked : Within q.ring_latencies q.ring_members
  pub results_late : is_early q.state_machine ≡ true → q.ring_latencies ≡ []

-- A handler that ends, without a failing assert, in a valid state to which the diagram leads.
pub record Ends (q : HandleClosest) (o : Option (Outcome HandleClosest)) : Type 0 where
  pub outcome : Outcome HandleClosest
  pub ends : o ≡ some outcome
  pub valid : IsValid outcome.state
  pub moves : view q ⟶ view outcome.state

-- fillVector of the rings fails no assert.
abbrev pub Fills : Env → Type 0
Fills e =
    (low high : ℕ) (ratio : Ratio) (m : OrdMap NodeIdent NodeIdent)
    → (members : OrdMap NodeIdent NodeIdent) × (e.fill_vector low high ratio m ≡ some members)

pub finish-IsValid : (q : HandleClosest) → IsValid q → IsValid (finish q)
finish-IsValid q v = record {
  average = v.average;
  latencies_ordered = v.latencies_ordered;
  latencies_asked = v.latencies_asked;
  latencies_small = v.latencies_small;
  results_ordered = v.results_ordered;
  results_asked = v.results_asked;
  results_late = v.results_late;
}

pub gives_up-Ends :
    (q : HandleClosest) (actions : List Action) (answer : Status)
    → IsValid q
    → Ends q (some (record { state = finish q; actions = actions; answer = answer }))
gives_up-Ends q actions answer v = record {
  outcome = record { state = finish q; actions = actions; answer = answer };
  ends = refl;
  valid = finish-IsValid q v;
  moves = gives_up;
}

pub rests-Ends :
    (q : HandleClosest) (actions : List Action) (answer : Status)
    → IsValid q
    → Ends q (some (record { state = q; actions = actions; answer = answer }))
rests-Ends q actions answer v = record {
  outcome = record { state = q; actions = actions; answer = answer };
  ends = refl;
  valid = v;
  moves = rests;
}

pub respond-Ends :
    (e : Env) (n : NodeIdent) (latencies : OrdMap NodeIdent ℕ) (q : HandleClosest)
    → IsValid q
    → Ends q (some (respond e n latencies q))
unfolding respond
respond-Ends e n latencies q v = gives_up-Ends q _ success v

sent_forward-Ends :
    (e : Env) (n : NodeIdent) (p : Status × RealPacket) (q : HandleClosest)
    → q.state_machine ≡ hc_indirect_ping
    → IsValid q
    → Ends q (some (sent_forward e n p q))
unfolding sent_forward
sent_forward-Ends e n (failure, p) q i v = gives_up-Ends q [] success v
sent_forward-Ends e n (success, p) q i v = record {
  outcome = sent_forward e n (success, p) q;
  ends = refl;
  valid = record {
    average = v.average;
    latencies_ordered = v.latencies_ordered;
    latencies_asked = v.latencies_asked;
    latencies_small = v.latencies_small;
    results_ordered = v.results_ordered;
    results_asked = v.results_asked;
    results_late = λ x. absurd (cc (x));
  };
  moves = subst (λ x. (x, q.finished) ⟶ (hc_wait_for_fin, q.finished)) (sym i) passes_on;
}

pub handle_forward-Ends :
    (e : Env) (q : HandleClosest)
    → q.state_machine ≡ hc_indirect_ping
    → IsValid q
    → Ends q (handle_forward e q)
unfolding forward
handle_forward-Ends e q i v =
    let (r, best, decision) = handle_forward_lem e q v.results_ordered v.average in
    decide r decision
  where
    decide : (r : ℕ × NodeIdent) → Decision e q r → Ends q (handle_forward e q)
    decide r (forwards l f a b h) = subst (Ends q) (sym h) (sent_forward-Ends e r.1 _ q i v)
    decide r (forwards_to_nobody k b h) =
        subst (Ends q) (sym h) (sent_forward-Ends e zero_node _ q i v)
    decide r (answers_member l a b f h) = subst (Ends q) (sym h) (respond-Ends e r.1 l q v)
    decide r (answers_self a b h) =
        subst (Ends q) (sym h) (respond-Ends e zero_node q.remote_latencies q v)

to_uint_le : (x : ℤ) → to_uint x ≤ uint_max
unfolding to_uint
to_uint_le (negsuc n) = omega arith
to_uint_le (pos n) = ground arith

third : {a b c d e f : ℕ} → ◌≡◌ {A = Option (ℕ × ℕ × ℕ)} (some (a, b, c)) (some (d, e, f)) → c ≡ f
third h = cc

average_le :
    (num : Numbers) (m : OrdMap NodeIdent ℕ) (mx mn avg : ℕ)
    → ((n : NodeIdent) (l : ℕ) → find n m ≡ some l → l ≤ uint_max)
    → get_max_and_min_and_average num m ≡ some (mx, mn, avg)
    → avg ≤ uint_max
unfolding get_max_and_min_and_average find
average_le num [] mx mn avg s h = absurd (cc (h))
average_le num ((n, l) ∷ []) mx mn avg s h =
    omega (arith, s n l (if_true _ _ (same_refl n)), third h)
average_le num (a ∷ b ∷ m) mx mn avg s h =
    omega (arith, to_uint_le (num.average (total_value (a ∷ b ∷ m)) (length (a ∷ b ∷ m))), third h)

asked-IsValid :
    (q : HandleClosest) (members : OrdMap NodeIdent NodeIdent) (e : Env) (largest avg : ℕ)
    → q.ring_latencies ≡ []
    → avg ≤ uint_max
    → IsValid q
    → IsValid (record (in_indirect_ping e largest avg q) { ring_members = members })
unfolding find
asked-IsValid q members e largest avg none_yet a v = record {
  average = a;
  latencies_ordered = v.latencies_ordered;
  latencies_asked = v.latencies_asked;
  latencies_small = v.latencies_small;
  results_ordered = v.results_ordered;
  results_asked = λ n g. ap (find n) none_yet;
  results_late = λ x. absurd (cc (x));
}

-- This node is the only one that is asked.
alone-Ends :
    (e : Env) (q r : HandleClosest) (latencies : OrdMap NodeIdent ℕ)
    → q.state_machine ≡ hc_wait_for_direct_ping
    → r.state_machine ≡ hc_indirect_ping
    → IsValid r
    → Ends q (some (respond e zero_node latencies r))
unfolding respond
alone-Ends e q r latencies d i v = record {
  outcome = respond e zero_node latencies r;
  ends = refl;
  valid = finish-IsValid r v;
  moves =
      subst (λ x. (x, q.finished) ⟶ (r.state_machine, true)) (sym d)
        (subst (λ x. (hc_wait_for_direct_ping, q.finished) ⟶ (x, true)) (sym i) answers_alone);
}

ask_members-Ends :
    (e : Env) (q : HandleClosest) (members : OrdMap NodeIdent NodeIdent) (largest avg : ℕ)
    → q.state_machine ≡ hc_wait_for_direct_ping
    → IsValid (record (in_indirect_ping e largest avg q) { ring_members = members })
    → Ends q (some (ask_members e members (in_indirect_ping e largest avg q)))
unfolding ask_members
ask_members-Ends e q members largest avg d v = elim (Bool-cases (length members == 0)) [
  | inl g ↦
      subst (λ o. Ends q (some o)) (sym (if_true _ _ g))
        (alone-Ends e q (record (in_indirect_ping e largest avg q) { ring_members = members })
          q.remote_latencies d refl v)
  | inr g ↦
      subst (λ o. Ends q (some o)) (sym (if_false _ _ g))
        (record {
          outcome = _;
          ends = refl;
          valid = v;
          moves = subst (λ x. (x, q.finished) ⟶ (hc_indirect_ping, q.finished)) (sym d) asks;
        })
]

is_direct_lem : (p : Phase) → is_direct p ≡ true → p ≡ hc_wait_for_direct_ping
is_direct_lem hc_wait_for_direct_ping h = refl
is_direct_lem hc_init h = absurd (cc (h))
is_direct_lem hc_indirect_ping h = absurd (cc (h))
is_direct_lem hc_wait_for_fin h = absurd (cc (h))

measured-Ends :
    (e : Env) (q : HandleClosest) (o : Option (ℕ × ℕ × ℕ))
    → Fills e
    → IsValid q
    → q.state_machine ≡ hc_wait_for_direct_ping
    → get_max_and_min_and_average e.num q.remote_latencies ≡ o
    → Ends q (measured e q o)
unfolding measured
measured-Ends e q none fills v d h = gives_up-Ends q [] failure v
measured-Ends e q (some (largest, smallest, avg)) fills v d h =
    let none_yet = v.results_late (ap is_early d) in
    let a = average_le e.num q.remote_latencies largest smallest avg v.latencies_small h in
    let (members, f) =
      fills smallest largest (beta_ratio q.beta_numer q.beta_denom) q.ring_members in
    elim (Bool-cases (avg == 0)) [
      | inl g ↦ subst (Ends q) (sym (if_true _ _ g)) (
          alone-Ends e q (in_indirect_ping e largest avg q) q.remote_latencies d refl
            (asked-IsValid q q.ring_members e largest avg none_yet a v))
      | inr g ↦ subst (Ends q) (sym (rw (measured, g, f) refl)) (
          ask_members-Ends e q members largest avg d
            (asked-IsValid q members e largest avg none_yet a v))
    ]

-- sendReqProbes keeps to the diagram.
pub send_req_probes-Ends :
    (e : Env) (q : HandleClosest) → Fills e → IsValid q → Ends q (send_req_probes e q)
unfolding send_req_probes
send_req_probes-Ends e q fills v =
    elim (Bool-cases (not (is_direct q.state_machine) || not (complete q))) [
      | inl g ↦ subst (Ends q) (sym (if_true _ _ g)) (rests-Ends q [] failure v)
      | inr g ↦ subst (Ends q) (sym (if_false _ _ g)) (
          measured-Ends e q (get_max_and_min_and_average e.num q.remote_latencies) fills v
            (is_direct_lem q.state_machine (ground (arith, g))) refl)
    ]
