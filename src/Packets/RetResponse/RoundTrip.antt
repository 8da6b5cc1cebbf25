-- ===== src/Packets/RetResponse/RoundTrip.antt =====
-- A response that was created can be parsed, and comes back the same.
use mathlib.Core.List.{foldl}
use lib_meridian.Prelude.{
  ℕ, ◌+◌, ◌≤◌, ◌≡◌, ◌↔◌, refl, subst, ◌∙◌, true, List, [], ◌∷◌, length, map, flat_map, flat_map-map,
  length-map, All, some,
}
use lib_meridian.Node.{NodeIdent, InRange, IsU16, IsU32, IsU64, node_key}
use lib_meridian.Host.{Host}
use lib_meridian.OrdMap.{OrdMap, Sorted}
use lib_meridian.OrdMap.Laws.{foldl-insert-Sorted, insert_entry}
use lib_meridian.RealPacket.{RealPacket, IsValid, success, pay_load}
use lib_meridian.RealPacket.Appends.{Appends-⨾, for_each-Appends}
use lib_meridian.BufferWrapper.{read_entries}
use lib_meridian.BufferWrapper.Reads.{
  Reads, Reads->>=, Reads->>=_last, Reads-pure, Reads-same, retrieve_char-Reads, net_uint-Reads,
  net_ushort-Reads, error-Reads, read_entries-Reads,
}
use lib_meridian.Packet.{ret_response}
use lib_meridian.Packet.Header.{
  Sent, either_end, append_char-Appends, append_uint-Appends, append_ushort-Appends,
  write_id-Appends, read_query_id-Reads, Created, Created-parse, completed-Created,
}
use lib_meridian.Packets.Entries.{append_node_lat, node_lat_bytes}
use lib_meridian.Packets.Entries.Laws.{append_node_lat-Appends}
use lib_meridian.Packets.RetInfo.{or_remote}
use lib_meridian.Packets.RetResponse.{
  RetResponse, measured, new_ret_response, create_real_packet, read_measured, store_measured,
  parse_body, parse, layout,
}

-- An entry of the map with its fields in range.
pub record InRangeEntry (e : NodeIdent × ℕ) : Type 0 where
  pub node_range : InRange e.0
  pub latency_range : IsU32 e.1

entry_bytes : NodeIdent × ℕ → List ℕ
entry_bytes e = node_lat_bytes (measured e)

read_measured-Reads :
    (h : Host) (e : NodeIdent × ℕ) → InRangeEntry e → Reads (read_measured h) (entry_bytes e) e
unfolding read_measured entry_bytes node_lat_bytes
read_measured-Reads h (node, latency) r =
    Reads->>= _ (net_uint-Reads h node.addr r.node_range.addr_range) (
      Reads->>= _ (net_ushort-Reads h node.port r.node_range.port_range)
        (Reads->>=_last _ (net_uint-Reads h latency r.latency_range) (Reads-pure (node, latency))))

foldl-store_measured :
    (m n : OrdMap NodeIdent ℕ) → foldl store_measured m n ≡ foldl insert_entry m n
unfolding store_measured
foldl-store_measured m [] = refl
foldl-store_measured m ((node, latency) ∷ n) =
    foldl-store_measured (insert_entry m (node, latency)) n

-- The loop that fills tmpMap.
read_map-Reads :
    (h : Host) (m : OrdMap NodeIdent ℕ)
    → All InRangeEntry m
    → Sorted m
    → Reads
        (read_entries (read_measured h) store_measured (length (map measured m)) [])
        (flat_map node_lat_bytes (map measured m))
        m
unfolding entry_bytes
read_map-Reads h m r o =
    rw (length-map measured m, flat_map-map node_lat_bytes measured m)
      (subst (Reads _ _) (foldl-store_measured [] m ∙ foldl-insert-Sorted m o) (
        read_entries-Reads _ store_measured entry_bytes InRangeEntry (read_measured-Reads h) m []
          r))

-- A response over an ordered map, with each field in the range of its machine type.
pub record IsSendable (id addr port : ℕ) (m : OrdMap NodeIdent ℕ) : Type 0 where
  pub id_range : IsU64 id
  pub addr_range : IsU32 addr
  pub port_range : IsU16 port
  pub entries : All InRangeEntry m
  pub ordered : Sorted m
  pub few_entries : IsU32 (length m)

layout-Created :
    (h : Host) (r : RetResponse) (p : RealPacket)
    → IsValid p
    → Created p (layout h r) (create_real_packet h r p)
unfolding create_real_packet layout
layout-Created h r p v =
    completed-Created _ _ p
      (Appends-⨾ (append_char-Appends ret_response) (
        write_id-Appends h r.req_id (
          Appends-⨾ (append_uint-Appends h r.addr) (
            Appends-⨾ (append_ushort-Appends h r.port) (
              Appends-⨾ (append_uint-Appends h (length r.targets)) (
                for_each-Appends (append_node_lat h) node_lat_bytes r.targets
                  (append_node_lat-Appends h)))))))
      v

-- The response that a receiver makes of one that names `addr` and `port`.
abbrev pub received : NodeIdent → ℕ → ℕ → ℕ → OrdMap NodeIdent ℕ → RetResponse
received in_remote id addr port m =
    let closest = or_remote in_remote addr port in new_ret_response id closest.addr closest.port m

parse_body-layout :
    (h : Host) (in_remote : NodeIdent) (id addr port : ℕ) (m : OrdMap NodeIdent ℕ)
    → IsU32 h.magic_number
    → IsSendable id addr port m
    → Reads
        (parse_body h in_remote)
        (layout h (new_ret_response id addr port m))
        (some (received in_remote id addr port m))
unfolding parse_body layout new_ret_response
parse_body-layout h in_remote id addr port m magic s =
    let few : IsU32 (length (map measured m)) = rw (length-map measured m) s.few_entries in
    Reads->>= _ (retrieve_char-Reads ret_response) (
      Reads->>= _ error-Reads (
        Reads->>= _ (read_query_id-Reads h id s.id_range) (
          Reads->>= _ (net_uint-Reads h h.magic_number magic) (
            Reads->>= _ error-Reads (
              Reads-same h.magic_number _ (
                Reads->>= _ (net_uint-Reads h addr s.addr_range) (
                  Reads->>= _ (net_ushort-Reads h port s.port_range) (
                    Reads->>= _ (net_uint-Reads h (length (map measured m)) few) (
                      Reads->>=_last _ (read_map-Reads h m s.entries s.ordered) (
                        Reads->>= _ error-Reads
                          (Reads-pure (some (received in_remote id addr port m)))))))))))))

-- The result of creating the packet, and of parsing it.
ret_response_created :
    (h : Host) (in_remote : NodeIdent) (id addr port : ℕ) (m : OrdMap NodeIdent ℕ) (p : RealPacket)
    → IsU32 h.magic_number
    → IsSendable id addr port m
    → IsValid p
    → let r = new_ret_response id addr port m in
      ((create_real_packet h r p).0 ≡ success
        ↔ ((p.complete ≡ true) × (p.size + length (layout h r) ≤ p.max_packet_size)))
      × (pay_load p ≡ []
          → (create_real_packet h r p).0 ≡ success
          → parse h in_remote (pay_load (create_real_packet h r p).1)
            ≡ some (received in_remote id addr port m))
unfolding parse
ret_response_created h in_remote id addr port m p magic s v =
    let c = layout-Created h (new_ret_response id addr port m) p v in
    (
      c.succeeds,
      λ empty ok. Created-parse c (parse_body-layout h in_remote id addr port m magic s) empty ok,
    )

-- For a magic number of 32 bits and fields in the ranges of their machine types, creating a
-- RetResponse from an ordered map in a valid, empty packet succeeds exactly when the packet is
-- still complete and has room for the layout, and then parsing what was written gives back the
-- response, in the order of the map, with the address of the sender where the response names the
-- node 0:0.
pub ret_response_round_trip :
    (h : Host) (in_remote : NodeIdent) (id addr port : ℕ) (m : OrdMap NodeIdent ℕ) (p : RealPacket)
    → IsU32 h.magic_number
    → IsSendable id addr port m
    → IsValid p
    → pay_load p ≡ []
    → let r = new_ret_response id addr port m in
      Sent
        ((p.complete ≡ true) × (p.size + length (layout h r) ≤ p.max_packet_size))
        (parse h in_remote (pay_load (create_real_packet h r p).1)
          ≡ some (received in_remote id addr port m))
        ((create_real_packet h r p).0)
ret_response_round_trip h in_remote id addr port m p magic s v empty =
    let (succeeds, parses) = ret_response_created h in_remote id addr port m p magic s v in
    either_end _ succeeds (parses empty)
