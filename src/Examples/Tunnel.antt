-- ===== src/Examples/Tunnel.antt =====
-- The tunnel through a rendezvous node.
use lib_meridian.Prelude.{
  ℕ, ◌≡◌, zero, suc, refl, true, List, [], ◌∷◌, ◌++◌, length, none, some, arith,
}
use lib_meridian.Host.{be16, be32}
use lib_meridian.RealPacket.{RealPacket, IsValid, without_rendv, pay_load}
use lib_meridian.Packets.PullPacket
use lib_meridian.Packets.PullPacket.{PullPacket}
use lib_meridian.Packets.PullPacket.Framing as Framing
use lib_meridian.Packets.PullPacket.Framing.{pull_framing, parse_partial, source}
use lib_meridian.Packets.PushPacket
use lib_meridian.Packets.PushPacket.{PushPacket}
use lib_meridian.Packets.PushPacket.Relay as Relay
use lib_meridian.Packets.PushPacket.Relay.{push_relay, push_too_long}
use lib_meridian.Examples.Frames.{host, node_a, node_b, node_b-InRange}

abbrev inner : List ℕ
inner = 14 ∷ 1 ∷ 2 ∷ []

abbrev pull_header : PullPacket
pull_header = record { req_id = 7; src_ip = 2130706433; src_port = 3964; pay_load_size = 3 }

pull_header-IsSendable : Framing.IsSendable pull_header
pull_header-IsSendable = record {
  src_ip = omega arith;
  src_port = omega arith;
  pay_load_size = omega arith;
}

-- A stream with one message and the start of another.
abbrev stream : RealPacket
stream = record {
  packet = PullPacket.layout host pull_header ++ (inner ++ (12 ∷ []));
  size = 27;
  complete = true;
  dest = without_rendv node_a;
  max_packet_size = 1400;
  pos = 0;
}

stream-IsValid : IsValid stream
unfolding PullPacket.layout be16 be32
stream-IsValid = record { written = omega arith; bounded = omega arith; narrow = omega arith }

stream-payload : pay_load stream ≡ PullPacket.layout host pull_header ++ (inner ++ (12 ∷ []))
unfolding pay_load PullPacket.layout be16 be32
stream-payload = refl

pull_framing_example :
    (q : RealPacket) × (p' : RealPacket) × (PullPacket.parse host stream
      ≡ (some (q, source pull_header), p'))
    × (pay_load q ≡ inner)
    × (pay_load p' ≡ 12 ∷ [])
    × IsValid p'
    × (p'.complete ≡ true)
pull_framing_example =
    pull_framing host pull_header stream inner (12 ∷ []) (omega arith) pull_header-IsSendable
      stream-IsValid refl refl stream-payload

-- The stream's message without its last two bytes.
abbrev first_part : RealPacket
first_part = record {
  packet = PullPacket.layout host pull_header ++ (14 ∷ []);
  size = 24;
  complete = true;
  dest = without_rendv node_a;
  max_packet_size = 1400;
  pos = 0;
}

first_part-payload :
    pay_load first_part ++ (1 ∷ 2 ∷ []) ≡ PullPacket.layout host pull_header ++ inner
unfolding pay_load PullPacket.layout be16 be32
first_part-payload = refl

parse_partial_example : PullPacket.parse host first_part ≡ (none, first_part)
parse_partial_example =
    parse_partial host pull_header first_part inner (1 ∷ 2 ∷ []) (omega arith)
      pull_header-IsSendable refl first_part-payload (omega arith)

abbrev push_header : PushPacket
push_header = record { req_id = 7; dest_ip = 2130706433; dest_port = 3964 }

push_header-IsSendable : Relay.IsSendable push_header
push_header-IsSendable = record { dest_ip = omega arith; dest_port = omega arith }

push_relay_example :
    (q : RealPacket) × (q' : RealPacket) × (left : RealPacket) × (PushPacket.parse host node_b
        (PushPacket.layout host push_header ++ inner)
      ≡ some q)
    × (q.dest ≡ without_rendv (Relay.destination push_header))
    × (PullPacket.parse host q ≡ (some (q', node_b), left))
    × (pay_load q' ≡ inner)
    × (pay_load left ≡ [])
push_relay_example =
    push_relay host node_b push_header inner (omega arith) push_header-IsSendable node_b-InRange
      (omega arith)

zeros : ℕ → List ℕ
zeros zero = []
zeros (suc n) = 0 ∷ zeros n

length-zeros : (n : ℕ) → length (zeros n) ≡ n
unfolding zeros
length-zeros zero = refl
length-zeros (suc n) = omega (arith, length-zeros n)

push_too_long_example :
    PushPacket.parse host node_b (PushPacket.layout host push_header ++ zeros 1378) ≡ none
push_too_long_example =
    push_too_long host node_b push_header (zeros 1378) (omega arith) push_header-IsSendable
      node_b-InRange (omega (arith, length-zeros 1378)) (omega (arith, length-zeros 1378))
