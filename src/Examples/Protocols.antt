-- ===== src/Examples/Protocols.antt =====
-- The state machines of the queries.
use lib_meridian.Prelude.{
  ℕ, suc, ◌+◌, ◌*◌, ◌/◌, ◌≤◌, ◌≡◌, ◌↔◌, refl, true, false, ◌==◌, nat_eq, [], ◌∷◌, List, Option,
  none, some, ℤ, pos, arith, if◌then◌else◌,
}
use lib_meridian.Node.{NodeIdent, NodeIdentRendv, NodeIdentLat, node_eq, node_key, lt_node_ident}
use lib_meridian.Host.{Host, little, htonl, load32}
use lib_meridian.OrdMap.{OrdMap, find}
use lib_meridian.RealPacket.{success}
use lib_meridian.BufferWrapper.{
  new_buffer_wrapper, ◌>>=◌, error, net_uint, pure, retrieve_uint, retrieve_char,
}
use lib_meridian.Packet.{parse_header, read_query_id, to64}
use lib_meridian.Timeval.{Timeval}
use lib_meridian.Vector.{contains}
use lib_meridian.Queries.{Outcome, tcp, zero_node}
use lib_meridian.Queries.HandleReq.{HandleReq}
use lib_meridian.Queries.HandleReq
use lib_meridian.Queries.HandleReq.Learning
use lib_meridian.Queries.HandleReq.Collecting.{notices, learn_all, notices-learn_all}
use lib_meridian.Queries.HandleReq.Learning.{known}
use lib_meridian.Queries.HandleClosest.{
  HandleClosest, hc_init, hc_indirect_ping, hc_wait_for_fin, Ratio, not_a_number, rational, Numbers,
  Env, uint_max,
}
use lib_meridian.Queries.HandleClosest.Extremes.{Extremes, values, get_max_and_min_and_average_lem}
use lib_meridian.Queries.HandleClosest.Handlers.{handle_latency, handle_timeout, handle_event}
use lib_meridian.Queries.HandleClosest.Diagram.{IsValid, Ends}
use lib_meridian.Queries.HandleClosest.Diagram.Latencies.{handle_latency-Ends}
use lib_meridian.Queries.HandleClosest.Diagram.Timeouts.{timeouts_left, handle_timeout-left}
use lib_meridian.Queries.HandleClosest.Diagram.Events.{Heard, handle_event-Heard}

abbrev near : NodeIdent
near = record { addr = 3232235777; port = 80 }

abbrev far : NodeIdent
far = record { addr = 167772161; port = 3964 }

abbrev source : NodeIdentRendv
source = record { addr = 167772162; port = 3964; addr_rendv = 0; port_rendv = 0 }

abbrev noon : Timeval
noon = record { tv_sec = 43200; tv_usec = 0 }

abbrev host : Host
host = record { order = little; magic_number = 1296387401 }

abbrev measuring : HandleReq
measuring = record {
  kind = tcp;
  qid = 17;
  src_node = source;
  finished = false;
  timeout_tv = noon;
  remote_nodes = (far, tt) ∷ (near, tt) ∷ [];
  remote_latencies = [];
}

measuring-IsValid : HandleReq.Learning.IsValid measuring
unfolding find lt_node_ident
measuring-IsValid = record {
  asked = λ n g. refl;
  latencies_ordered = tt;
  nodes_ordered = ((refl, tt), (tt, tt));
  ended = refl;
}

abbrev answers : List NodeIdentLat
answers =
    record { addr = 3232235777; port = 80; latency_us = 2500 }
    ∷ record { addr = 167772161; port = 3964; latency_us = 900 }
    ∷ []

notices-learn_all_example :
    ((n : NodeIdent)
      → known (notices host answers measuring) n
        ≡ learn_all measuring.remote_nodes answers (known measuring) n)
    × ((notices host answers measuring).finished ≡ true ↔ (
        (n : NodeIdent)
        → learn_all measuring.remote_nodes answers (known measuring) n ≡ none
        → find n measuring.remote_nodes ≡ none))
notices-learn_all_example = notices-learn_all host answers measuring measuring-IsValid

abbrev scaled : Ratio → ℕ → ℤ
scaled not_a_number l = pos 0
scaled (rational a b) l = pos (a * l / b)

abbrev period : Ratio → ℕ → ℕ
period not_a_number l = l
period (rational a b) l = l + 2 * a * l / b

abbrev numbers : Numbers
numbers = record { average = λ total n. pos (total / n); threshold = scaled; probe_period = period }

abbrev process : Env
process = record {
  host = host;
  timeradd = λ a b. record { tv_sec = a.tv_sec + b.tv_sec; tv_usec = a.tv_usec + b.tv_usec };
  now = noon;
  rendv = zero_node;
  num = numbers;
  fill_vector = λ low high ratio m. some ((far, zero_node) ∷ []);
}

two_latencies_small :
    (v : ℕ) → contains v (values ((far, 900) ∷ (near, 2500) ∷ [])) ≡ true → v ≤ uint_max
unfolding contains
two_latencies_small v h = ground (arith, h)

get_max_and_min_and_average_lem_example : Extremes numbers ((far, 900) ∷ (near, 2500) ∷ [])
get_max_and_min_and_average_lem_example =
    get_max_and_min_and_average_lem numbers ((far, 900) ∷ (near, 2500) ∷ []) (omega arith)
      two_latencies_small

abbrev search : OrdMap NodeIdent (OrdMap NodeIdent ℕ) → HandleClosest
search results = record {
  kind = tcp;
  qid = 17;
  beta_numer = 1;
  beta_denom = 2;
  average_lat_us = 2500;
  src_node = source;
  finished = false;
  selected_member = zero_node;
  timeout_tv = noon;
  remote_nodes = (near, tt) ∷ [];
  ring_members = (far, zero_node) ∷ [];
  remote_latencies = (near, 2500) ∷ [];
  state_machine = hc_indirect_ping;
  ring_latencies = results;
}

search-IsValid : IsValid (search [])
unfolding find
search-IsValid = record {
  average = omega arith;
  latencies_ordered = (tt, tt);
  latencies_asked = λ n g. ground (arith, g);
  latencies_small = λ n l g. ground (arith, g);
  results_ordered = tt;
  results_asked = λ n g. refl;
  results_late = λ x. refl;
}

abbrev results : OrdMap NodeIdent (OrdMap NodeIdent ℕ)
results = (far, (near, 300) ∷ []) ∷ []

abbrev notice : List NodeIdentLat
notice =
    record { addr = 167772161; port = 3964; latency_us = 0 }
    ∷ record { addr = 3232235777; port = 80; latency_us = 300 }
    ∷ []

handle_latency-Ends_example : Ends (search []) (handle_latency process notice (search []))
handle_latency-Ends_example =
    handle_latency-Ends process notice (search [])
      (λ low high ratio m. ((far, zero_node) ∷ [], refl)) (omega arith, (omega arith, tt))
      search-IsValid

handle_timeout-left_example :
    (d : Ends (search []) (handle_timeout process (search []))) × ((search []).finished ≡ false
      → suc (timeouts_left d.outcome.state) ≤ timeouts_left (search []))
    × (timeouts_left (search []) ≤ 2)
handle_timeout-left_example = handle_timeout-left process (search []) search-IsValid

abbrev new_search : HandleClosest
new_search = record (search []) {
  state_machine = hc_init;
  remote_latencies = [];
  ring_members = [];
}

abbrev cache : NodeIdent → Option ℕ
cache n = if n == near then some 2500 else none

abbrev forwarded : HandleClosest
forwarded = record (search results) { state_machine = hc_wait_for_fin; selected_member = far }

-- A RetError.
abbrev error_packet : List ℕ
error_packet = 18 ∷ 0 ∷ 0 ∷ 0 ∷ 0 ∷ 0 ∷ 0 ∷ 0 ∷ 17 ∷ 77 ∷ 69 ∷ 77 ∷ 73 ∷ []

error_header : (parse_header host (new_buffer_wrapper error_packet)).0 ≡ (18, 17, success)
unfolding parse_header new_buffer_wrapper ◌>>=◌ error net_uint pure retrieve_uint read_query_id
    retrieve_char htonl load32 to64
error_header = refl

handle_event-Heard_example :
    (o : Outcome HandleClosest) × (handle_event process far error_packet forwarded ≡ some o)
    × Heard far 18 forwarded o.state
handle_event-Heard_example =
    handle_event-Heard process far error_packet forwarded 18 17 error_header
