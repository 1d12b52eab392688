-- ===== src/Network/Wire.antt =====
-- kernel/network.h and the helpers of network.cpp: byte order, the headers as bytes, the checksum.
--
-- A packed header is the list of its bytes. The machine is little-endian: `store16` and `store32` are
-- what an assignment to a field writes, `load16` and `load32` what a read of one gives.

use quillos.Prelude.{
  ℕ, zero, suc, ◌+◌, ◌-◌, ◌*◌, ◌/◌, ◌%◌, List, [], ◌∷◌, ◌++◌, get_or, ◌==◌, if◌then◌else◌, add32,
}

abbrev pub store16 : ℕ → List ℕ
store16 x = x % 256 ∷ x / 256 % 256 ∷ []

abbrev pub store32 : ℕ → List ℕ
store32 x = x % 256 ∷ x / 256 % 256 ∷ x / 65536 % 256 ∷ x / 16777216 % 256 ∷ []

abbrev pub load16 : List ℕ → ℕ → ℕ
load16 bytes i = get_or bytes i 0 + 256 * get_or bytes (i + 1) 0

abbrev pub load32 : List ℕ → ℕ → ℕ
load32 bytes i =
    get_or bytes i 0
    + 256 * get_or bytes (i + 1) 0
    + 65536 * get_or bytes (i + 2) 0
    + 16777216 * get_or bytes (i + 3) 0

-- `(x >> 8) | (x << 8)`, of parts without common bits
abbrev pub htons : ℕ → ℕ
htons x = x / 256 + x * 256 % 65536

abbrev pub ntohs : ℕ → ℕ
ntohs x = htons x

abbrev pub htonl : ℕ → ℕ
htonl x = x / 16777216 % 256 + x / 65536 % 256 * 256 + x / 256 % 256 * 65536 + x % 256 * 16777216

abbrev pub eth_size : ℕ
eth_size = 14

abbrev pub arp_size : ℕ
arp_size = 28

abbrev pub ipv4_size : ℕ
ipv4_size = 20

abbrev pub udp_size : ℕ
udp_size = 8

abbrev pub ethertype_arp : ℕ
ethertype_arp = 0x0806

abbrev pub ethertype_ipv4 : ℕ
ethertype_ipv4 = 0x0800

-- `EthHeader`
abbrev pub eth_header : List ℕ → List ℕ → ℕ → List ℕ
eth_header dst src ethertype = dst ++ (src ++ store16 (htons ethertype))

-- `ArpPacket`
abbrev pub arp_packet : ℕ → List ℕ → ℕ → List ℕ → ℕ → List ℕ
arp_packet oper sha spa tha tpa =
    store16 (htons 1)
    ++ (store16 (htons 0x0800)
        ++ (6 ∷ 4 ∷ (store16 (htons oper) ++ (sha ++ (store32 spa ++ (tha ++ store32 tpa))))))

-- `Ipv4Header`: version 4 with 5 words, no flags, 64 hops, protocol 17
abbrev pub ipv4_header : ℕ → ℕ → ℕ → ℕ → ℕ → List ℕ
ipv4_header total_len id checksum src_ip dst_ip =
    0x45
    ∷ 0
    ∷ (store16 (htons total_len)
        ++ (store16 (htons id)
            ++ (store16 0 ++ (64 ∷ 17 ∷ (store16 checksum ++ (store32 src_ip ++ store32 dst_ip))))))

-- `UdpHeader`
abbrev pub udp_header : ℕ → ℕ → ℕ → List ℕ
udp_header src_port dst_port len =
    store16 (htons src_port) ++ (store16 (htons dst_port) ++ (store16 (htons len) ++ store16 0))

-- The loop of `ip_checksum` over the words, and the odd byte.
unfoldable pub sum_words : ℕ → List ℕ → ℕ
sum_words sum [] = sum
sum_words sum (a ∷ []) = add32 sum a
sum_words sum (a ∷ b ∷ bytes) = sum_words (add32 sum (a + 256 * b)) bytes

-- `while (sum >> 16) sum = (sum & 0xFFFF) + (sum >> 16)`, for the given rounds at most
unfoldable pub fold_sum : ℕ → ℕ → ℕ
fold_sum zero sum = sum
fold_sum (suc n) sum =
    let more = fold_sum n (sum % 65536 + sum / 65536) in if sum / 65536 == 0 then sum else more

-- Three rounds are enough.
unfoldable pub ip_checksum : List ℕ → ℕ
unfolding sum_words fold_sum
ip_checksum bytes = 65535 - fold_sum 3 (sum_words 0 bytes) % 65536
