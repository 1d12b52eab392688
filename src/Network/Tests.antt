-- ===== src/Network/Tests.antt =====
-- The theorems about the network at concrete nodes, and runs of its operations.
use quillos.Prelude.{ℕ, ◌≡◌, refl, Bool, true, some, List, [], ◌∷◌, ◌++◌, arith, length, replicate}
use quillos.Network.Wire.{ip_checksum, ipv4_header, udp_header}
use quillos.Network.{
  Net, no_arp, no_binding, process_packet, handle_ipv4, handle_udp, arp_store, arp_lookup, send_to,
}
use quillos.Network.Checksum.{ip_checksum-ipv4_header}
use quillos.Network.Delivery.{call_of, process_packet-send_to}

-- 10.0.0.2, with no neighbours yet.
abbrev sender : Net
sender = record {
  our_mac = 0x52 ∷ 0x54 ∷ 0 ∷ 0 ∷ 0 ∷ 2 ∷ [];
  our_ip = 0x0200000a;
  net_ready = true;
  pkts_sent = 0;
  pkts_recv = 0;
  arp_table = replicate 16 no_arp;
  udp_handlers = replicate 8 no_binding;
  ip_id = 1;
}

-- 10.0.0.3, with a handler for port 9000.
abbrev receiver : Net
receiver = record sender {
  our_mac = 0x52 ∷ 0x54 ∷ 0 ∷ 0 ∷ 0 ∷ 3 ∷ [];
  our_ip = 0x0300000a;
  udp_handlers = record { port = 9000; handler = 0x7000 } ∷ replicate 7 no_binding;
}

abbrev takes_all : List ℕ → Bool
takes_all frame = true

abbrev greeting : List ℕ
greeting = b'h' ∷ b'i' ∷ []

arp_run : arp_lookup (arp_store sender.arp_table 5 (replicate 6 9)) 5 ≡ some (replicate 6 9)
unfolding arp_lookup arp_store
arp_run = refl

process_packet-send_to_example :
    (s' : Net) × (frame : List ℕ) × (send_to takes_all sender receiver.our_mac 0x0300000a 9000 9000
        greeting
      ≡ some (s', frame ∷ [], true))
    × ((process_packet receiver (frame ++ (1 ∷ [])) (length frame)).2
        ≡ some (call_of 0x7000 0x0200000a 9000 (greeting ++ (1 ∷ [])) 2))
process_packet-send_to_example =
    process_packet-send_to takes_all sender receiver receiver.our_mac greeting (1 ∷ []) 0x0300000a
      9000 9000 0 refl refl (omega arith) (omega arith) (omega arith) (omega arith) (omega arith)
      refl refl

ip_checksum-ipv4_header_example :
    ip_checksum (
      ipv4_header 30 1
        (ip_checksum (ipv4_header 30 1 0 0x0200000a 0x0300000a))
        0x0200000a
        0x0300000a)
    ≡ 0
ip_checksum-ipv4_header_example = ip_checksum-ipv4_header 30 1 0x0200000a 0x0300000a

abbrev datagram : List ℕ
datagram = ipv4_header 30 1 0 0x0200000a 0x0300000a ++ (udp_header 9000 9000 10 ++ greeting)

datagram_run : handle_ipv4 receiver datagram 30 ≡ some (call_of 0x7000 0x0200000a 9000 greeting 2)
unfolding handle_ipv4 handle_udp
datagram_run = refl

-- A header that claims 15 words in a packet of 20 bytes: the payload is taken to be 40000 bytes long.
overrun_run :
    handle_ipv4 receiver
      (0x4f
        ∷ (replicate 8 0
            ++ (17
                ∷ (replicate 6 0
                    ++ (10 ∷ 0 ∷ 0 ∷ 3 ∷ (replicate 40 0 ++ udp_header 1 9000 40008))))))
      20
    ≡ some (call_of 0x7000 0 1 [] 40000)
unfolding handle_ipv4 handle_udp
overrun_run = refl
