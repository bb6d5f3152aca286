-- ===== src/Transport/Tests.antt =====
-- transport1.go: the theorems at a socket with one datagram. The checksum of the tests is the sum
-- of the bytes.
use aionet.Common.{
  ℕ, ◌+◌, ◌≤◌, ◌<◌, ◌≡◌, refl, List, [], ◌∷◌, ◌++◌, length, take, drop, none, arith,
}
use aionet.Buffers.Reader.{BufferR, add}
use aionet.Transport.{Kernel, verify_checksum, read3}
use aionet.Transport.Datagram.{NextIs, datagram_split}

-- A queue of datagrams.
abbrev front : List (List ℕ) → List ℕ
front [] = []
front (d ∷ ds) = d

abbrev behind : List (List ℕ) → List (List ℕ)
behind [] = []
behind (d ∷ ds) = ds

abbrev queue : Kernel (List (List ℕ))
queue = record {
  read = λ s n. (take n (front s), none, behind s);
  peek = λ s n. (take n (front s), none, s);
}

abbrev four : List ℕ
four = 65 ∷ 66 ∷ 67 ∷ 68 ∷ []

four-NextIs : NextIs queue (four ∷ []) four []
four-NextIs = record { reads = λ n. refl; peeks = λ n. refl }

abbrev sum : List ℕ → ℕ
sum [] = 0
sum (b ∷ bs) = b + sum bs

abbrev empty : BufferR
empty = record { this = []; size0 = 0; size1 = 16 }

abbrev small : List ℕ
small = 0 ∷ 0 ∷ 0 ∷ []

datagram_split_example :
    (length four ≤ length small
      → read3 sum queue 1 (four ∷ []) empty small (length four) 266 ≡ record {
        frame = four ++ drop (length four) small;
        count = length four;
        err = verify_checksum sum four 266;
        buffer = empty;
        after = [];
      })
    × (length small < length four
        → read3 sum queue 1 (four ∷ []) empty small (length four) 266 ≡ record {
          frame = 65 ∷ 66 ∷ 67 ∷ [];
          count = 3;
          err = none;
          buffer = add empty (68 ∷ []);
          after = [];
        })
datagram_split_example =
    datagram_split sum queue 0 266 (four ∷ []) [] empty small four four-NextIs (omega arith)
      (omega arith)
