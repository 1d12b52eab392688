-- ===== src/Network/Delivery.antt =====
-- kernel/network.cpp: a datagram that one node sends reaches the handler of another.

use mathlib.Core.List.{append_assoc}
use quillos.Prelude.{
  ℕ, ◌+◌, ◌-◌, ◌*◌, ◌/◌, ◌%◌, ◌≤◌, ◌<◌, ◌≡◌, refl, ap, ◌∙◌, inl, inr, Bool, true, false, not, ◌||◌,
  none, some, List, [], ◌∷◌, ◌++◌, arith, length, get_or, drop, find_index, Bool-cases,
  Option-cases, ltb, ◌==◌, add64, u32_mod,
}
use quillos.Network.Wire.{
  load16, load32, htons, ntohs, eth_size, ipv4_size, udp_size, ethertype_ipv4, eth_header,
  ipv4_header, udp_header, ip_checksum,
}
use quillos.Network.{
  Net, Dispatch, no_binding, takes_port, is_for_us, handle_udp, handle_ipv4, process_packet,
  udp_frame, destination, send_to, send_udp,
}

-- The call that a binding makes of a datagram.
abbrev pub call_of : ℕ → ℕ → ℕ → List ℕ → ℕ → Dispatch
call_of handler src_ip src_port payload len = record {
  handler = handler;
  src_ip = src_ip;
  src_port = src_port;
  payload = payload;
  payload_len = len;
}

htons-load16 : (x : ℕ) → x < 65536 → htons (htons x % 256 + 256 * (htons x / 256 % 256)) ≡ x
htons-load16 x h = omega arith

load32-store32 :
    (x : ℕ)
    → x < u32_mod
    → x % 256 + 256 * (x / 256 % 256) + 65536 * (x / 65536 % 256) + 16777216 * (x / 16777216 % 256)
      ≡ x
load32-store32 x h = omega arith

handle_udp-header :
    (t : Net) (src_ip src_port dst_port i : ℕ) (bytes rest : List ℕ)
    → src_port < 65536
    → dst_port < 65536
    → udp_size + length bytes < 65536
    → find_index (takes_port dst_port) t.udp_handlers ≡ some i
    → handle_udp t src_ip
        (udp_header src_port dst_port (udp_size + length bytes) ++ (bytes ++ rest))
        (udp_size + length bytes)
      ≡ some (
          call_of
            (get_or t.udp_handlers i no_binding).handler
            src_ip
            src_port
            (bytes ++ rest)
            (length bytes))
unfolding handle_udp
handle_udp-header t src_ip src_port dst_port i bytes rest hs hd hl e =
    let es = htons-load16 src_port hs in
    let ed = htons-load16 dst_port hd in
    let el = htons-load16 (udp_size + length bytes) hl in
    let big : ltb (udp_size + length bytes) udp_size ≡ false = ground arith in
    let fits : ltb (udp_size + length bytes) (udp_size + length bytes) ≡ false = ground arith in
    let rest_len : udp_size + length bytes - udp_size ≡ length bytes = omega arith in
    rw (el, ed, es, big, fits, e, rest_len) refl

handle_ipv4-header :
    (t : Net) (total_len id checksum src_ip dst_ip n : ℕ) (body : List ℕ)
    → src_ip < u32_mod
    → dst_ip < u32_mod
    → n + ipv4_size < 65536
    → is_for_us t dst_ip ≡ true
    → handle_ipv4 t (ipv4_header total_len id checksum src_ip dst_ip ++ body) (n + ipv4_size)
      ≡ handle_udp t src_ip body n
unfolding handle_ipv4
handle_ipv4-header t total_len id checksum src_ip dst_ip n body hs hd hn us =
    let es = load32-store32 src_ip hs in
    let ed = load32-store32 dst_ip hd in
    let whole : ltb (n + ipv4_size) ipv4_size ≡ false = ground arith in
    let left : (n + ipv4_size + 65536 - 20) % 65536 ≡ n = omega arith in
    rw (ed, es, us, whole, left) refl

-- Six bytes, one by one.
six :
    (m : List ℕ)
    → length m ≡ 6
    → (a : ℕ) × (b : ℕ) × (c : ℕ) × (d : ℕ) × (e : ℕ) × (f : ℕ) × (m ≡ a ∷ b ∷ c ∷ d ∷ e ∷ f ∷ [])
six (a ∷ b ∷ c ∷ d ∷ e ∷ f ∷ []) h = (a, b, c, d, e, f, refl)
six (a ∷ b ∷ c ∷ d ∷ e ∷ f ∷ g ∷ m) h = absurd (omega arith)
six (a ∷ b ∷ c ∷ d ∷ e ∷ []) h = absurd (omega arith)
six (a ∷ b ∷ c ∷ d ∷ []) h = absurd (omega arith)
six (a ∷ b ∷ c ∷ []) h = absurd (omega arith)
six (a ∷ b ∷ []) h = absurd (omega arith)
six (a ∷ []) h = absurd (omega arith)
six [] h = absurd (omega arith)

-- A frame with the type of IPv4 goes to `handle_ipv4`.
process_packet-ipv4 :
    (t : Net) (dst src body : List ℕ) (n : ℕ)
    → length dst ≡ 6
    → length src ≡ 6
    → (process_packet t (eth_header dst src ethertype_ipv4 ++ body) (n + eth_size)).2
      ≡ handle_ipv4 (record t { pkts_recv = add64 t.pkts_recv 1 }) body n
unfolding process_packet
process_packet-ipv4 t dst src body n hd hs =
    let d = six dst hd in
    let s = six src hs in
    let whole : ltb (n + eth_size) eth_size ≡ false = ground arith in
    let left : n + eth_size - eth_size ≡ n = omega arith in rw (d.6, s.6, whole, left) refl

frame_length :
    (s : Net) (dst_mac bytes : List ℕ) (dst_ip dst_port src_port : ℕ)
    → length dst_mac ≡ 6
    → length s.our_mac ≡ 6
    → length (udp_frame s dst_mac dst_ip dst_port src_port bytes)
      ≡ udp_size + length bytes + ipv4_size + eth_size
frame_length s dst_mac bytes dst_ip dst_port src_port hd hs =
    let d = six dst_mac hd in let o = six s.our_mac hs in rw (d.6, o.6) (omega arith)

-- In a frame for `t` that fits the send buffer, `send_to` hands the card one frame, and `t`, which gets
-- it in its receive buffer before other bytes, calls the handler that it has for the port with the
-- sender's address, the source port and the bytes sent.
pub process_packet-send_to :
    (accept : List ℕ → Bool) (s t : Net) (dst_mac bytes rest : List ℕ)
    (dst_ip dst_port src_port i : ℕ)
    → length dst_mac ≡ 6
    → length s.our_mac ≡ 6
    → s.our_ip < u32_mod
    → dst_ip < u32_mod
    → dst_port < 65536
    → src_port < 65536
    → length bytes ≤ 2006
    → is_for_us t dst_ip ≡ true
    → find_index (takes_port dst_port) t.udp_handlers ≡ some i
    → (s' : Net) × (frame : List ℕ) × (send_to accept s dst_mac dst_ip dst_port src_port bytes
        ≡ some (s', frame ∷ [], accept frame))
      × ((process_packet t (frame ++ rest) (length frame)).2
          ≡ some (
              call_of
                (get_or t.udp_handlers i no_binding).handler
                s.our_ip
                src_port
                (bytes ++ rest)
                (length bytes)))
unfolding send_to
process_packet-send_to accept s t dst_mac bytes rest dst_ip dst_port src_port i hm ho hs hd hp hq hl
      us e =
    let n = length bytes in
    let frame = udp_frame s dst_mac dst_ip dst_port src_port bytes in
    let total : (udp_size + n) % 65536 ≡ udp_size + n = omega arith in
    let small : (eth_size + (ipv4_size + (udp_size + n) % 65536) % 65536) % 65536
        ≡ eth_size + ipv4_size + udp_size + n =
      omega arith in
    let fits : ltb 2048 (eth_size + ipv4_size + udp_size + n) ≡ false = ground arith in
    let ip_total = (ipv4_size + (udp_size + n) % 65536) % 65536 in
    let checksum = ip_checksum (ipv4_header ip_total s.ip_id 0 s.our_ip dst_ip) in
    let eth = eth_header dst_mac s.our_mac ethertype_ipv4 in
    let body =
      ipv4_header ip_total s.ip_id checksum s.our_ip dst_ip
      ++ (udp_header src_port dst_port ((udp_size + n) % 65536) ++ (bytes ++ rest)) in
    let whole : frame ++ rest ≡ eth ++ body =
      append_assoc eth
        (ipv4_header ip_total s.ip_id checksum s.our_ip dst_ip
          ++ (udp_header src_port dst_port ((udp_size + n) % 65536) ++ bytes))
        rest in
    let long = frame_length s dst_mac bytes dst_ip dst_port src_port hm ho in
    let counted = record t { pkts_recv = add64 t.pkts_recv 1 } in
    let received : (process_packet t (frame ++ rest) (length frame)).2
        ≡ handle_ipv4 counted body (udp_size + n + ipv4_size) =
      ap (λ bs. (process_packet t bs (length frame)).2) whole
      ∙ ap (λ k. (process_packet t (eth ++ body) k).2) long
      ∙ process_packet-ipv4 t dst_mac s.our_mac body (udp_size + n + ipv4_size) hm ho in
    let opened =
      handle_ipv4-header counted ip_total s.ip_id checksum s.our_ip dst_ip (udp_size + n)
        (udp_header src_port dst_port ((udp_size + n) % 65536) ++ (bytes ++ rest)) hs hd
        (omega arith) us in
    let called =
      handle_udp-header counted s.our_ip src_port dst_port i bytes rest hq hp (omega arith) e in
    (
      record s { pkts_sent = add64 s.pkts_sent 1; ip_id = (s.ip_id + 1) % 65536 },
      frame,
      rw (small, fits) refl,
      received ∙ opened ∙ rw total called,
    )

-- `send_udp` to an address that it can resolve.
pub send_udp-known :
    (accept : List ℕ → Bool) (s : Net) (dst_mac bytes : List ℕ) (dst_ip dst_port src_port : ℕ)
    → s.net_ready ≡ true
    → destination accept s dst_ip ≡ some dst_mac
    → send_udp accept s dst_ip dst_port src_port bytes
      ≡ send_to accept s dst_mac dst_ip dst_port src_port bytes
unfolding send_udp
send_udp-known accept s dst_mac bytes dst_ip dst_port src_port ready known = rw (ready, known) refl

some_len : {d d' : Dispatch} → some d ≡ some d' → d.payload_len ≡ d'.payload_len
some_len e = cc

handle_udp-in_bounds :
    (t : Net) (src_ip : ℕ) (bytes : List ℕ) (len : ℕ) (d : Dispatch)
    → handle_udp t src_ip bytes len ≡ some d
    → udp_size + d.payload_len ≤ len
unfolding handle_udp
handle_udp-in_bounds t src_ip bytes len d e =
    let dst_port = ntohs (load16 bytes 2) in
    let udp_len = ntohs (load16 bytes 4) in
    elim (Bool-cases (ltb len udp_size || ltb udp_len udp_size || ltb len udp_len)) [
      | inl bad ↦ let f : none ≡ some d = rw bad at e in cc
      | inr good ↦ elim (Option-cases (find_index (takes_port dst_port) t.udp_handlers)) [
        | inl nobody ↦ let f : none ≡ some d = rw (good, nobody) at e in cc
        | inr (i, found) ↦
            let go = rw (good, found) at e in
            let is : udp_len - udp_size ≡ d.payload_len = some_len go in ground (arith, good, is)
      ]
    ]

-- A datagram whose IPv4 header is not longer than its packet is dispatched with a payload that lies in
-- the packet, behind both headers.
pub handle_ipv4-in_bounds :
    (t : Net) (bytes : List ℕ) (len : ℕ) (d : Dispatch)
    → len < 65536
    → get_or bytes 0 0 % 16 * 4 ≤ len
    → handle_ipv4 t bytes len ≡ some d
    → get_or bytes 0 0 % 16 * 4 + udp_size + d.payload_len ≤ len
unfolding handle_ipv4
handle_ipv4-in_bounds t bytes len d hl hh e =
    let hdr_len = get_or bytes 0 0 % 16 * 4 in
    elim (Bool-cases (ltb len ipv4_size || not (is_for_us t (load32 bytes 16)))) [
      | inl out ↦ let f : none ≡ some d = rw out at e in cc
      | inr ours ↦ elim (Bool-cases (get_or bytes 9 0 == 17)) [
        | inr other ↦ let f : none ≡ some d = rw (ours, other) at e in cc
        | inl udp ↦
            let left : (len + 65536 - hdr_len) % 65536 ≡ len - hdr_len = omega arith in
            let go : handle_udp t (load32 bytes 12) (drop hdr_len bytes) (len - hdr_len) ≡ some d =
              rw (ours, udp, left) at e in
            omega (
              arith,
              handle_udp-in_bounds t (load32 bytes 12) (drop hdr_len bytes) (len - hdr_len) d go,
            )
      ]
    ]
