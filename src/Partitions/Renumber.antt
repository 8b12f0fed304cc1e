-- ===== src/Partitions/Renumber.antt =====
-- `renumber_logical_partitions` of subiquity/models/filesystem.py: behind a removed logical
-- partition, the numbers of the others move up.
use subiquity.Base.{
  ℕ, suc, ◌≡◌, ◌&&◌, Option, none, some, List, [], ◌∷◌, ◌==◌, ltb, if◌then◌else◌, filter, find, map,
}
use subiquity.Storage.{PTable, Partition, is_logical}
use subiquity.Storage.Sort.{sorted}

-- `parts`: the logical partitions with higher numbers, by number.
unfoldable pub parts_behind : Option PTable → Partition → List Partition → List Partition
unfolding sorted is_logical
parts_behind ptable removed ps =
    filter (λ (p : Partition). is_logical ptable p && ltb removed.number p.number)
      (sorted (λ (p : Partition). p.number) ps)

-- The `for` loop, from `next_num` on.
unfoldable pub number_from : ℕ → List Partition → List Partition
number_from next_num [] = []
number_from next_num (p ∷ ps) = record p { number = next_num } ∷ number_from (suc next_num) ps

-- A partition of the device, with what the loop has set.
abbrev pub or_same : Partition → Option Partition → Partition
or_same p none = p
or_same p (some q) = q

unfoldable pub updated : List Partition → Partition → Partition
updated renumbered p = or_same p (find (λ (q : Partition). q.id == p.id) renumbered)

-- `none` is the ValueError for a removed partition that is not logical.
unfoldable pub renumber_logical_partitions :
    Option PTable → Partition → List Partition → Option (List Partition)
unfolding parts_behind number_from updated is_logical
renumber_logical_partitions ptable removed ps =
    if is_logical ptable removed
    then some (map (updated (number_from removed.number (parts_behind ptable removed ps))) ps)
    else none

-- The numbers are `k`, `k + 1` and so on.
abbrev pub IsRun : ℕ → List Partition → Type 0
IsRun k [] = Unit
IsRun k (p ∷ ps) = (p.number ≡ k) × IsRun (suc k) ps

abbrev pub ids : List Partition → List ℕ
ids ps = map (λ (p : Partition). p.id) ps

-- The next number up, for each of them.
abbrev MovesUp : List Partition → Partition → Type 0
MovesUp renumbered p = suc (updated renumbered p).number ≡ p.number
