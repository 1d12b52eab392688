-- ===== src/Network/Checksum.antt =====
-- kernel/network.cpp: `ip_checksum` of the headers that `send_udp` builds.
use quillos.Prelude.{ℕ, ◌+◌, ◌-◌, ◌*◌, ◌/◌, ◌%◌, ◌<◌, ◌≡◌, refl, ◌∙◌, arith, u32_mod}
use quillos.Network.Wire.{sum_words, fold_sum, ip_checksum, ipv4_header, htons}

-- The loop has ended after three rounds, by its own test.
pub fold_sum-ends : (sum : ℕ) → sum < u32_mod → fold_sum 3 sum / 65536 ≡ 0
unfolding fold_sum
fold_sum-ends sum h = ground arith

-- A sum and the complement of its fold together fold to all ones.
complement :
    (sum : ℕ) → sum < 16 * 65536 → fold_sum 3 (sum + (65535 - fold_sum 3 sum % 65536)) ≡ 65535
unfolding fold_sum
complement sum h = ground arith

-- The words of the header but the checksum.
abbrev word : ℕ → ℕ → ℕ
word a b = a % 256 + 256 * (b % 256)

abbrev header_sum : ℕ → ℕ → ℕ → ℕ → ℕ
header_sum total_len id src_ip dst_ip =
    0x45
    + word (htons total_len) (htons total_len / 256)
    + word (htons id) (htons id / 256)
    + word src_ip (src_ip / 256)
    + word (src_ip / 65536) (src_ip / 16777216)
    + word dst_ip (dst_ip / 256)
    + word (dst_ip / 65536) (dst_ip / 16777216)
    + (64 + 256 * 17)

header_sum-lt : (a b c d : ℕ) → header_sum a b c d < 8 * 65536
header_sum-lt a b c d = omega arith

sum_words-header :
    (total_len id checksum src_ip dst_ip : ℕ)
    → checksum < 65536
    → sum_words 0 (ipv4_header total_len id checksum src_ip dst_ip)
      ≡ header_sum total_len id src_ip dst_ip + checksum
unfolding sum_words
sum_words-header total_len id checksum src_ip dst_ip h = omega arith

-- The checksum in a header that `send_udp` builds makes the checksum of the whole header 0, which is
-- how a receiver verifies it.
pub ip_checksum-ipv4_header :
    (total_len id src_ip dst_ip : ℕ)
    → ip_checksum (
        ipv4_header total_len id
          (ip_checksum (ipv4_header total_len id 0 src_ip dst_ip))
          src_ip
          dst_ip)
      ≡ 0
unfolding ip_checksum
ip_checksum-ipv4_header total_len id src_ip dst_ip =
    let sum = header_sum total_len id src_ip dst_ip in
    let bound = header_sum-lt total_len id src_ip dst_ip in
    let zeroed : sum_words 0 (ipv4_header total_len id 0 src_ip dst_ip) ≡ sum =
      sum_words-header total_len id 0 src_ip dst_ip (omega arith) ∙ omega arith in
    let checksum = 65535 - fold_sum 3 sum % 65536 in
    let filled = sum_words-header total_len id checksum src_ip dst_ip (omega arith) in
    let all_ones = complement sum (omega (arith, bound)) in rw (zeroed, filled, all_ones) refl
