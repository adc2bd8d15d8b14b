-- ===== src/Net/Header.antt =====
-- The IP header that `ip_tx` and `ip_process_arp_queue` of src/drivers/net/ip.c build.
use quantum_kernel.Prelude.{
  u16, ℕ, zero, suc, ◌+◌, ◌*◌, ◌^◌, ◌≤◌, ◌<◌, ◌≡◌, refl, ap, ◌∙◌, some, arith,
}
use quantum_kernel.Net.{checksum}
use quantum_kernel.Net.Checksum.{total, checksum-write16}
use quantum_kernel.Net.Queue.{sum_of, open_header, header}
use quantum_kernel.Net.State.{bswap16}
use quantum_kernel.Bytes.{Bytes, zeros, read16, write8, write16, read32, write32}

total_bound : (n : ℕ) (b : Bytes) (o : ℕ) → ((a : ℕ) → b a < 256) → total n b o ≤ n * 65535
unfolding total read16
total_bound zero b o h = omega arith
total_bound (suc zero) b o h = omega (arith, h o)
total_bound (suc (suc n)) b o h =
    let rest = total_bound n b (o + 2) h in omega (arith, rest, h o, h (o + 1))

write8_small : (b : Bytes) (o v : ℕ) → ((a : ℕ) → b a < 256) → (a : ℕ) → write8 b o v a < 256
unfolding write8
write8_small b o v h a = ground (arith, h a)

write16_small : (b : Bytes) (o v : ℕ) → ((a : ℕ) → b a < 256) → (a : ℕ) → write16 b o v a < 256
unfolding write16
write16_small b o v h a = ground (arith, h a)

write32_small : (b : Bytes) (o v : ℕ) → ((a : ℕ) → b a < 256) → (a : ℕ) → write32 b o v a < 256
unfolding write32
write32_small b o v h a = ground (arith, h a)

open_header_small : (src dst proto len : ℕ) (a : ℕ) → open_header src dst proto len a < 256
unfolding open_header
open_header_small src dst proto len = write16_small _ 10 0 (
    write32_small _ 16 dst (
      write32_small _ 12 src (
        write8_small _ 9 proto (
          write8_small _ 8 64 (
            write16_small _ 6 0 (
              write16_small _ 4 0 (
                write16_small _ 2 _
                  (write8_small _ 1 0 (write8_small zeros 0 0x45 (λ _. omega arith))))))))))

-- The first byte and the open checksum.
open_header_first : (src dst proto len : ℕ) → open_header src dst proto len 0 ≡ 0x45
unfolding open_header write8 write16 write32
open_header_first src dst proto len = refl

open_header_blank : (src dst proto len : ℕ) → read16 (open_header src dst proto len) 10 ≡ 0
unfolding open_header write16 read16
open_header_blank src dst proto len = refl

total_first : (n : ℕ) (b : Bytes) → 0 < b 0 → 0 < total (suc (suc n)) b 0
unfolding total read16
total_first n b h = omega (arith, h)

sum_of-checksum : (b : Bytes) (len c : ℕ) → checksum b len ≡ some c → sum_of b len ≡ c
unfolding sum_of
sum_of-checksum b len c h = rw (h, sum_of) refl

header_sums : (src dst proto len : ℕ) → checksum (header src dst proto len) 20 ≡ some 0
unfolding header
header_sums src dst proto len =
    let b = open_header src dst proto len in
    let first = open_header_first src dst proto len in
    let bound = total_bound 20 b 0 (open_header_small src dst proto len) in
    let (c, e, _, zero_sum) =
      checksum-write16 b 20 5 (omega arith) (open_header_blank src dst proto len)
        (total_first 18 b (omega (arith, first))) (omega (arith, bound)) in
    ap (λ v. checksum (write16 b 10 v) 20) (sum_of-checksum b 20 c e) ∙ zero_sum

module _ (src dst proto len : ℕ) where
  header_src : src < 2 ^ 32 → read32 (header src dst proto len) 12 ≡ src
  unfolding header open_header read32 write8 write16 write32
  header_src h = omega arith

  header_dst : dst < 2 ^ 32 → read32 (header src dst proto len) 16 ≡ dst
  unfolding header open_header read32 write8 write16 write32
  header_dst h = omega arith

  header_proto : proto < 256 → header src dst proto len 9 ≡ proto
  unfolding header open_header write8 write16 write32
  header_proto h = omega arith

  header_len : bswap16 (read16 (header src dst proto len) 2) ≡ u16 (20 + len)
  unfolding header open_header read16 write8 write16 write32
  header_len = omega arith

-- Whatever the addresses, the protocol and the length: the header's own checksum is 0, as its
-- receiver tests, and the fields are read back.
pub header_lem :
    (src dst proto len : ℕ)
    → src < 2 ^ 32
    → dst < 2 ^ 32
    → proto < 256
    → (checksum (header src dst proto len) 20 ≡ some 0)
      × (read32 (header src dst proto len) 12 ≡ src)
      × (read32 (header src dst proto len) 16 ≡ dst)
      × (header src dst proto len 9 ≡ proto)
      × (bswap16 (read16 (header src dst proto len) 2) ≡ u16 (20 + len))
header_lem src dst proto len a b c = (
  header_sums src dst proto len,
  header_src src dst proto len a,
  header_dst src dst proto len b,
  header_proto src dst proto len c,
  header_len src dst proto len,
)
