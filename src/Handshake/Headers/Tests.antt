-- ===== src/Handshake/Headers/Tests.antt =====
-- transport.go, readHeader and writeHeader on a socket that takes and gives at most seven bytes at
-- once.
use aionet.Common.{
  ℕ, ◌≤◌, ◌≡◌, refl, arith, false, none, List, length, take, replicate, length-take,
}
use aionet.Transport.{Kernel, retry}
use aionet.Transport.Writer as Writer
use aionet.Transport.Writer.{Count}
use aionet.Handshake.Headers.{read_rest, read_header, write_rest, write_header}
use aionet.Handshake.Headers.Whole.{header_is_whole}

abbrev source : Kernel ℕ
source = record {
  read = λ s n. (take n (take 7 (replicate s 1)), none, s);
  peek = λ s n. (take n (take 7 (replicate s 1)), none, s);
}

abbrev drain : Writer.Kernel ℕ
drain = record {
  write = λ s p. (length (take 7 p), none, s);
  wait = λ s mode. (none, s);
  deadline = λ s mode v. (none, s);
}

source_bound : (s n : ℕ) → length (source.read s n).0 ≤ n
source_bound s n = omega (arith, length-take {A = ℕ} n (take 7 (replicate s 1)))

drain_bound : (s : ℕ) (p : List ℕ) → (drain.write s p).0 ≤ length p
drain_bound s p = omega (arith, length-take 7 p)

abbrev eighteen : List ℕ
eighteen = replicate 18 0

-- Three reads and three writes give and take the 18 bytes.
read_in_parts : length (read_header source drain 1 7 18).bytes ≡ 18
unfolding read_header retry
read_in_parts = refl

write_in_parts : (write_header source drain 1 7 eighteen false).count ≡ 18
unfolding write_header Writer.write
write_in_parts = refl

header_is_whole_example :
    ((read_header source drain 1 7 18).err ≡ none
      → length (read_header source drain 1 7 18).bytes ≡ 18)
    × ((write_header source drain 1 7 eighteen false).error ≡ none
        → (write_header source drain 1 7 eighteen false).count ≡ 18)
    × ((r : ℕ) → 18 ≤ r → read_rest source drain 1 r 7 18 ≡ read_rest source drain 1 18 7 18)
    × ((r : ℕ)
        → 18 ≤ r
        → write_rest source drain 1 r 7 eighteen ≡ write_rest source drain 1 18 7 eighteen)
header_is_whole_example =
    header_is_whole source drain 1 7 18 eighteen false source_bound drain_bound
