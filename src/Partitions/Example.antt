-- ===== src/Partitions/Example.antt =====
-- Numbers and offsets on small disks, and what the early return of assign_omitted_offsets leaves.
use subiquity.Base.{ℕ, ◌+◌, ◌*◌, ◌≡◌, refl, false, Option, none, some, List, [], ◌∷◌}
use subiquity.Align.{mib}
use subiquity.Storage.{logical, other_flag, extended, msdos, Partition, is_logical}
use subiquity.Gaps.Unaligned.{a_part, msdos_data}
use subiquity.Partitions.{choose_number, Request, RequestedDisk, place, assign_omitted_offsets}
use subiquity.Partitions.Number.{IsLowestFree, choose_number-IsLowestFree}

abbrev parts : List Partition
parts = a_part 1 mib mib 1 other_flag ∷ a_part 2 mib (2 * mib) 3 extended ∷ []

choose_number_test : choose_number msdos_data (some msdos) other_flag parts ≡ some 2
unfolding choose_number is_logical
choose_number_test = refl

choose_number-IsLowestFree_example :
    IsLowestFree msdos_data
      (some msdos)
      false
      parts
      (choose_number msdos_data (some msdos) other_flag parts)
choose_number-IsLowestFree_example =
    choose_number-IsLowestFree msdos_data (some msdos) other_flag parts

abbrev request : ℕ → Option ℕ → Request
request size offset = record { size = size; flag = other_flag; offset = offset }

abbrev requests : List Request
requests = request (mib + 1) none ∷ request (5 * mib) none ∷ []

place_test :
    place mib 0 mib requests
    ≡ request (mib + 1) (some mib) ∷ request (5 * mib) (some (3 * mib)) ∷ []
unfolding place
place_test = refl

abbrev a_request : RequestedDisk
a_request = record { info = msdos_data; primary = request mib none ∷ []; logical = [] }

abbrev a_placed : RequestedDisk
a_placed = record { info = msdos_data; primary = request mib (some mib) ∷ []; logical = [] }

-- The second of two disks keeps its omitted offsets.
second_disk_left :
    assign_omitted_offsets 2 (a_request ∷ a_request ∷ []) ≡ some (a_placed ∷ a_request ∷ [])
unfolding assign_omitted_offsets place
second_disk_left = refl

-- A disk with an extended partition and two logical ones in front of the other.
abbrev with_logical : RequestedDisk
with_logical = record {
  info = msdos_data;
  primary = record (request (64 * mib) none) { flag = extended } ∷ [];
  logical = request mib none ∷ request mib none ∷ [];
}

abbrev version : ℕ
version = 2

-- Logical partitions 5, 6 and 7, of which the first is gone.
abbrev first_logical : Partition
first_logical = a_part 3 mib (4 * mib) 5 logical

abbrev left_over : List Partition
left_over = a_part 5 mib (8 * mib) 7 logical ∷ a_part 4 mib (6 * mib) 6 logical ∷ []
