-- ===== src/Queries/HandleClosest/Diagram/Events.antt =====
-- handleEvent of HandleClosestGeneric: who can end a search that was forwarded.
use lib_meridian.Prelude.{
  ℕ, ◌≡◌, refl, ap, sym, subst, if_true, if_false, ◌∙◌, true, ◌==◌, nat_eq, List, [], Option, none,
  some, Bool-cases, inl, inr, ◌⊎◌,
}
use lib_meridian.Node.{NodeIdent, node_key}
use lib_meridian.RealPacket.{success}
use lib_meridian.Queries.{Outcome}
use lib_meridian.Queries.HandleClosest.{
  Phase, hc_init, hc_wait_for_direct_ping, hc_indirect_ping, hc_wait_for_fin, HandleClosest, Env,
}
use lib_meridian.Queries.HandleClosest.Steps.{finish}
use lib_meridian.Node.{node_eq, same_node_iff}
use lib_meridian.Packet.{parse_header, ret_response, ret_error, ret_info}
use lib_meridian.BufferWrapper.{new_buffer_wrapper}
use lib_meridian.Packets.ReqClosestGeneric.{type_byte}
use lib_meridian.Packets.RetResponse.{RetResponse}
use lib_meridian.Packets.RetError.{RetError}
use lib_meridian.Packets.RetInfo.{RetInfo}
use lib_meridian.Packets.RetResponse
use lib_meridian.Packets.RetError
use lib_meridian.Packets.RetInfo
use lib_meridian.Queries.{closest_kind}
use lib_meridian.Queries.HandleClosest.Handlers.{
  handle_event, parsed_event, fin_event, pass_on, pass_response, pass_error, pass_info, is_fin,
}

-- A packet leaves a query as it was, or ends it; only an answer or an error of the selected member ends it.
pub data Heard (in_remote : NodeIdent) (query_type : ℕ) (q r : HandleClosest) : Type 0 where
  unmoved : r ≡ q → Heard in_remote query_type q r
  over :
      r ≡ finish q
      → q.state_machine ≡ hc_wait_for_fin
      → in_remote ≡ q.selected_member
      → (query_type ≡ ret_response) ⊎ (query_type ≡ ret_error)
      → Heard in_remote query_type q r

pass_response-state :
    (e : Env) (n : NodeIdent) (packet : List ℕ) (q : HandleClosest)
    → ((pass_response e n packet q).state ≡ q) ⊎ ((pass_response e n packet q).state ≡ finish q)
unfolding pass_response
pass_response-state e n packet q = go (RetResponse.parse e.host n packet) refl
  where
    go :
        (o : Option RetResponse)
        → RetResponse.parse e.host n packet ≡ o
        → ((pass_response e n packet q).state ≡ q) ⊎ ((pass_response e n packet q).state ≡ finish q)
    go none h = inl (rw (pass_response, h) refl)
    go (some r) h = inr (rw (pass_response, h) refl)

pass_error-state :
    (e : Env) (packet : List ℕ) (q : HandleClosest)
    → ((pass_error e packet q).state ≡ q) ⊎ ((pass_error e packet q).state ≡ finish q)
unfolding pass_error
pass_error-state e packet q = go (RetError.parse e.host packet) refl
  where
    go :
        (o : Option RetError)
        → RetError.parse e.host packet ≡ o
        → ((pass_error e packet q).state ≡ q) ⊎ ((pass_error e packet q).state ≡ finish q)
    go none h = inl (rw (pass_error, h) refl)
    go (some r) h = inr (rw (pass_error, h) refl)

pass_info-state :
    (e : Env) (n : NodeIdent) (packet : List ℕ) (q : HandleClosest)
    → (pass_info e n packet q).state ≡ q
unfolding pass_info
pass_info-state e n packet q = go (RetInfo.parse e.host n packet) refl
  where
    go :
        (o : Option RetInfo)
        → RetInfo.parse e.host n packet ≡ o
        → (pass_info e n packet q).state ≡ q
    go none h = rw (pass_info, h) refl
    go (some r) h = rw (pass_info, h) refl

Heard-ends :
    (n : NodeIdent) (t : ℕ) (q r : HandleClosest)
    → q.state_machine ≡ hc_wait_for_fin
    → n ≡ q.selected_member
    → (t ≡ ret_response) ⊎ (t ≡ ret_error)
    → (r ≡ q) ⊎ (r ≡ finish q)
    → Heard n t q r
Heard-ends n t q r p s k (inl h) = unmoved h
Heard-ends n t q r p s k (inr h) = over h p s k

pass_on-Heard :
    (e : Env) (t : ℕ) (n : NodeIdent) (packet : List ℕ) (q : HandleClosest)
    → q.state_machine ≡ hc_wait_for_fin
    → n ≡ q.selected_member
    → Heard n t q (pass_on e t n packet q).state
unfolding pass_on
pass_on-Heard e t n packet q p s = elim (Bool-cases (t == ret_response)) [
  | inl g ↦
      subst (λ (o : Outcome HandleClosest). Heard n t q o.state) (sym (if_true _ _ g))
        (Heard-ends n t q _ p s (inl ((nat_eq.test_iff t ret_response).0 g))
          (pass_response-state e n packet q))
  | inr g ↦ elim (Bool-cases (t == ret_error)) [
    | inl k ↦
        subst (λ (o : Outcome HandleClosest). Heard n t q o.state)
          (sym (if_false _ _ g ∙ if_true _ _ k))
          (Heard-ends n t q _ p s (inr ((nat_eq.test_iff t ret_error).0 k))
            (pass_error-state e packet q))
    | inr k ↦ elim (Bool-cases (t == ret_info)) [
      | inl x ↦
          subst (λ (o : Outcome HandleClosest). Heard n t q o.state)
            (sym (if_false _ _ g ∙ if_false _ _ k ∙ if_true _ _ x))
            (unmoved (pass_info-state e n packet q))
      | inr x ↦
          subst (λ (o : Outcome HandleClosest). Heard n t q o.state)
            (sym (if_false _ _ g ∙ if_false _ _ k ∙ if_false _ _ x)) (unmoved refl)
    ]
  ]
]

fin_event-Heard :
    (e : Env) (t : ℕ) (n : NodeIdent) (packet : List ℕ) (q : HandleClosest)
    → q.state_machine ≡ hc_wait_for_fin
    → Heard n t q (fin_event e t n packet q).state
unfolding fin_event
fin_event-Heard e t n packet q p = elim (Bool-cases (t == type_byte (closest_kind q.kind))) [
  | inl g ↦
      subst (λ (o : Outcome HandleClosest). Heard n t q o.state) (sym (if_true _ _ g))
        (unmoved refl)
  | inr g ↦ elim (Bool-cases (n == q.selected_member)) [
    | inl k ↦
        subst (λ (o : Outcome HandleClosest). Heard n t q o.state)
          (sym (if_false _ _ g ∙ if_true _ _ k))
          (pass_on-Heard e t n packet q p ((same_node_iff n q.selected_member).0 k))
    | inr k ↦
        subst (λ (o : Outcome HandleClosest). Heard n t q o.state)
          (sym (if_false _ _ g ∙ if_false _ _ k)) (unmoved refl)
  ]
]

is_fin_lem : (p : Phase) → is_fin p ≡ true → p ≡ hc_wait_for_fin
is_fin_lem hc_wait_for_fin h = refl
is_fin_lem hc_init h = absurd (cc (h))
is_fin_lem hc_wait_for_direct_ping h = absurd (cc (h))
is_fin_lem hc_indirect_ping h = absurd (cc (h))

-- A packet with a whole header ends without a failing assert. It leaves the query as it was, or finishes
-- it; and it finishes it only where the search was forwarded, the packet comes from the selected
-- member, and its type is that of an answer or of an error.
pub handle_event-Heard :
    (e : Env) (in_remote : NodeIdent) (packet : List ℕ) (q : HandleClosest)
    (query_type query_id : ℕ)
    → (parse_header e.host (new_buffer_wrapper packet)).0 ≡ (query_type, query_id, success)
    → (o : Outcome HandleClosest) × (handle_event e in_remote packet q ≡ some o)
      × Heard in_remote query_type q o.state
unfolding handle_event parsed_event
handle_event-Heard e in_remote packet q query_type query_id h =
    elim (Bool-cases (is_fin q.state_machine)) [
      | inl g ↦ (
        fin_event e query_type in_remote packet q,
        if_true _ _ g ∙ ap (λ x. parsed_event e x in_remote packet q) h,
        fin_event-Heard e query_type in_remote packet q (is_fin_lem q.state_machine g),
      )
      | inr g ↦ (record { state = q; actions = []; answer = success }, if_false _ _ g, unmoved refl)
    ]
