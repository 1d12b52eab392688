-- ===== src/Network.antt =====
-- kernel/network.cpp and network.h: ARP, IPv4 and UDP over the network card.
--
-- A frame handed to `E1000::send` is a list of bytes, and whether the card takes it is the parameter
-- `accept`. An IP address is the number that its four bytes in network order make on this machine. A
-- handler is its address, and 0 is null. A pointer into a received packet is the list of the bytes of
-- the receive buffer from there on, with the length beside it as in the source.
pub mod Wire
pub mod Checksum
pub mod Delivery
mod Tests
use Prim.Native.Nat.{bit_or}
use mathlib.Core.Option
use quillos.Prelude.{
  ℕ, zero, suc, ◌+◌, ◌-◌, ◌*◌, ◌/◌, ◌%◌, ◌^◌, ◌≤◌, ◌<◌, ◌≡◌, Bool, true, false, not, ◌&&◌, ◌||◌,
  Option, none, some, List, [], ◌∷◌, ◌++◌, length, get_or, take, drop, replicate, find_index,
  modify, ltb, leb, ◌==◌, if◌then◌else◌, add64, u64_mod,
}
use Wire.{
  load16, load32, htons, ntohs, htonl, eth_size, arp_size, ipv4_size, udp_size, ethertype_arp,
  ethertype_ipv4, eth_header, arp_packet, ipv4_header, udp_header, ip_checksum,
}

pub record ArpEntry : Type 0 where
  pub ip : ℕ
  pub mac : List ℕ
  pub valid : Bool

abbrev pub no_arp : ArpEntry
no_arp = record { ip = 0; mac = replicate 6 0; valid = false }

pub record UdpBinding : Type 0 where
  pub port : ℕ
  pub handler : ℕ

abbrev pub no_binding : UdpBinding
no_binding = record { port = 0; handler = 0 }

-- The variables of namespace `Network`.
pub record Net : Type 0 where
  pub our_mac : List ℕ
  pub our_ip : ℕ
  pub net_ready : Bool
  pub pkts_sent : ℕ
  pub pkts_recv : ℕ
  pub arp_table : List ArpEntry
  pub udp_handlers : List UdpBinding
  pub ip_id : ℕ

abbrev pub broadcast_mac : List ℕ
broadcast_mac = replicate 6 0xff

abbrev pub send_buf_size : ℕ
send_buf_size = 2048

-- A call of a registered handler.
pub record Dispatch : Type 0 where
  pub handler : ℕ
  pub src_ip : ℕ
  pub src_port : ℕ
  pub payload : List ℕ
  pub payload_len : ℕ

abbrev is_known : ℕ → ArpEntry → Bool
is_known ip e = e.valid && e.ip == ip

pub arp_store : List ArpEntry → ℕ → List ℕ → List ArpEntry
arp_store table ip mac = elim (find_index (is_known ip) table) [
  | some i ↦ modify no_arp table i (λ e. record e { mac = take 6 mac })
  | none ↦ elim (find_index (λ (e : ArpEntry). not e.valid) table) [
    | some i ↦ modify no_arp table i (λ _. record { ip = ip; mac = take 6 mac; valid = true })
    | none ↦ table
  ]
]

unfoldable pub arp_lookup : List ArpEntry → ℕ → Option (List ℕ)
arp_lookup table ip = Option.map (λ i. (get_or table i no_arp).mac) (find_index (is_known ip) table)

-- The frames of the two ARP calls.
abbrev pub arp_request : Net → ℕ → List ℕ
arp_request s target_ip =
    eth_header broadcast_mac s.our_mac ethertype_arp
    ++ arp_packet 1 s.our_mac s.our_ip (replicate 6 0) target_ip

abbrev pub arp_reply : Net → ℕ → List ℕ → List ℕ
arp_reply s target_ip target_mac =
    eth_header target_mac s.our_mac ethertype_arp
    ++ arp_packet 2 s.our_mac s.our_ip target_mac target_ip

-- The new state and the frames sent.
pub handle_arp : Net → List ℕ → ℕ → Net × List (List ℕ)
unfolding arp_store
handle_arp s bytes len =
    let sha = take 6 (drop 8 bytes) in
    let spa = load32 bytes 14 in
    let stored = record s { arp_table = arp_store s.arp_table spa sha } in
    if ltb len arp_size then (s, []) else (
      stored,
      if ntohs (load16 bytes 6) == 1 && load32 bytes 24 == s.our_ip
          then arp_reply stored spa sha ∷ []
          else [],
    )

abbrev pub takes_port : ℕ → UdpBinding → Bool
takes_port port b = not (b.handler == 0) && b.port == port

pub handle_udp : Net → ℕ → List ℕ → ℕ → Option Dispatch
handle_udp s src_ip bytes len =
    let dst_port = ntohs (load16 bytes 2) in
    let udp_len = ntohs (load16 bytes 4) in
    if ltb len udp_size || ltb udp_len udp_size || ltb len udp_len
    then none
    else Option.map
        (λ i. record {
          handler = (get_or s.udp_handlers i no_binding).handler;
          src_ip = src_ip;
          src_port = ntohs (load16 bytes 0);
          payload = drop udp_size bytes;
          payload_len = udp_len - udp_size;
        })
        (find_index (takes_port dst_port) s.udp_handlers)

abbrev pub subnet_broadcast : Net → ℕ
subnet_broadcast s = bit_or s.our_ip (htonl 0x000000ff)

abbrev pub is_for_us : Net → ℕ → Bool
is_for_us s dst_ip = dst_ip == s.our_ip || dst_ip == 0xffffffff || dst_ip == subnet_broadcast s

-- `len - hdr_len` is a `uint16_t`.
pub handle_ipv4 : Net → List ℕ → ℕ → Option Dispatch
unfolding handle_udp
handle_ipv4 s bytes len =
    let hdr_len = get_or bytes 0 0 % 16 * 4 in
    if ltb len ipv4_size || not (is_for_us s (load32 bytes 16))
    then none
    else if get_or bytes 9 0 == 17
    then handle_udp s (load32 bytes 12) (drop hdr_len bytes) ((len + 65536 - hdr_len) % 65536)
    else none

-- The new state, the frames sent, and the handler that is called.
pub process_packet : Net → List ℕ → ℕ → Net × List (List ℕ) × Option Dispatch
unfolding handle_arp handle_ipv4
process_packet s bytes len =
    let counted = record s { pkts_recv = add64 s.pkts_recv 1 } in
    let ethertype = ntohs (load16 bytes 12) in
    let arp = handle_arp counted (drop eth_size bytes) (len - eth_size) in
    if ltb len eth_size
    then (s, [], none)
    else if ethertype == ethertype_arp
    then (arp.0, arp.1, none)
    else if ethertype == ethertype_ipv4
    then (counted, [], handle_ipv4 counted (drop eth_size bytes) (len - eth_size))
    else (counted, [], none)

-- `init` with what the card tells: `none` if it is not ready, or its address.
pub init : Net → Option (List ℕ) → Net × Bool
init s card =
    let cleared = record s {
      arp_table = replicate 16 no_arp;
      udp_handlers = replicate 8 no_binding;
    } in
    elim card [
      | none ↦ (cleared, false)
      | some mac ↦ (
        record cleared {
          our_mac = take 6 mac;
          our_ip = htonl (bit_or 0x0a000000 (get_or mac 5 0));
          net_ready = true;
        },
        true,
      )
    ]

pub register_udp_handler : Net → ℕ → ℕ → Net
register_udp_handler s port handler =
    elim (find_index (λ (b : UdpBinding). b.handler == 0) s.udp_handlers) [
      | none ↦ s
      | some i ↦ record s {
        udp_handlers =
            modify no_binding s.udp_handlers i (λ _. record { port = port; handler = handler });
      }
    ]

-- The datagram that `send_udp` builds.
abbrev pub udp_frame : Net → List ℕ → ℕ → ℕ → ℕ → List ℕ → List ℕ
udp_frame s dst_mac dst_ip dst_port src_port bytes =
    let udp_total = (udp_size + length bytes) % 65536 in
    let ip_total = (ipv4_size + udp_total) % 65536 in
    let checksum = ip_checksum (ipv4_header ip_total s.ip_id 0 s.our_ip dst_ip) in
    eth_header dst_mac s.our_mac ethertype_ipv4
    ++ (ipv4_header ip_total s.ip_id checksum s.our_ip dst_ip
        ++ (udp_header src_port dst_port udp_total ++ bytes))

abbrev pub packet_total : ℕ → ℕ
packet_total len = (eth_size + (ipv4_size + (udp_size + len) % 65536) % 65536) % 65536

abbrev count_sent : Net → Net
count_sent s = record s { pkts_sent = add64 s.pkts_sent 1 }

module _ (accept : List ℕ → Bool) where
  -- The new state, the frames handed to the card, and what the call returns.
  pub send_raw : Net → List ℕ → ℕ → List ℕ → Net × List (List ℕ) × Bool
  send_raw s dst_mac ethertype bytes =
      let frame = eth_header (take 6 dst_mac) s.our_mac ethertype ++ bytes in
      if not s.net_ready || ltb send_buf_size (length bytes + eth_size)
      then (s, [], false)
      else (count_sent s, frame ∷ [], accept frame)

  -- `send_udp` once it has the address of the destination. `none` is a write past the end of the send
  -- buffer, which the wrapped total lets through.
  pub send_to : Net → List ℕ → ℕ → ℕ → ℕ → List ℕ → Option (Net × List (List ℕ) × Bool)
  unfolding ip_checksum
  send_to s dst_mac dst_ip dst_port src_port bytes =
      let frame = udp_frame s dst_mac dst_ip dst_port src_port bytes in
      if ltb send_buf_size (packet_total (length bytes))
      then some (s, [], false)
      else if ltb send_buf_size (eth_size + ipv4_size + udp_size + length bytes)
      then none
      else some (record (count_sent s) { ip_id = (s.ip_id + 1) % 65536 }, frame ∷ [], accept frame)

  abbrev pub is_broadcast : Net → ℕ → Bool
  is_broadcast s dst_ip = dst_ip == 0xffffffff || dst_ip == subnet_broadcast s

  abbrev pub destination : Net → ℕ → Option (List ℕ)
  destination s dst_ip =
      if is_broadcast s dst_ip then some broadcast_mac else arp_lookup s.arp_table dst_ip

  abbrev pub send_resolved :
      Net → ℕ → ℕ → ℕ → List ℕ → Option (List ℕ) → Option (Net × List (List ℕ) × Bool)
  send_resolved s dst_ip dst_port src_port bytes none = some (s, arp_request s dst_ip ∷ [], false)
  send_resolved s dst_ip dst_port src_port bytes (some mac) =
      send_to s mac dst_ip dst_port src_port bytes

  pub send_udp : Net → ℕ → ℕ → ℕ → List ℕ → Option (Net × List (List ℕ) × Bool)
  unfolding arp_lookup send_to
  send_udp s dst_ip dst_port src_port bytes =
      if not s.net_ready
      then some (s, [], false)
      else send_resolved s dst_ip dst_port src_port bytes (destination s dst_ip)
