-- ===== src/Gaps/Find.antt =====
-- The searches of subiquity/common/filesystem/gaps.py. Each is a function of the list that
-- parts_and_gaps returns, with the function of the device behind it.
use mathlib.Core.Option
use subiquity.Base.{
  ℕ, ◌+◌, Bool, true, false, not, ◌&&◌, Option, none, some, List, [], ◌∷◌, ◌++◌, ltb, leb, ◌==◌,
  if◌then◌else◌,
}
use subiquity.Storage.{PTable, Partition, Device, is_logical}
use subiquity.Gaps.{PartOrGap, part, gap, Gap, is_usable, parts_and_gaps}

abbrev bool_eq : Bool → Bool → Bool
bool_eq true b = b
bool_eq false b = not b

-- `in_extended is None or in_extended == pg.in_extended`
abbrev pub wanted : Option Bool → Gap → Bool
wanted none g = true
wanted (some b) g = bool_eq b g.in_extended

-- The loop of `_largest_gap_disk`, with `largest` and `largest_size`.
unfoldable pub largest_from : Option Bool → Option Gap → ℕ → List PartOrGap → Option Gap
largest_from ext largest size [] = largest
largest_from ext largest size (part p ∷ rest) = largest_from ext largest size rest
largest_from ext largest size (gap g ∷ rest) =
    let larger = wanted ext g && ltb size g.size in
    largest_from ext (if larger then some g else largest) (if larger then g.size else size) rest

unfoldable pub largest_of : Option Bool → List PartOrGap → Option Gap
unfolding largest_from
largest_of ext pgs = largest_from ext none 0 pgs

unfoldable pub largest_gap : Option Bool → Device → Option (Option Gap)
unfolding largest_of
largest_gap ext d = Option.map (largest_of ext) (parts_and_gaps d false)

abbrev pub size_of : Option Gap → ℕ
size_of none = 0
size_of (some g) = g.size

unfoldable pub largest_gap_size : Option Bool → Device → Option ℕ
unfolding largest_gap
largest_gap_size ext d = Option.map size_of (largest_gap ext d)

-- The loop of `_largest_gap_list`, over the largest gap of each disk.
unfoldable pub largest_gap_list : Option Gap → List (Option Gap) → Option Gap
largest_gap_list largest [] = largest
largest_gap_list none (found ∷ rest) = largest_gap_list found rest
largest_gap_list (some l) (none ∷ rest) = largest_gap_list (some l) rest
largest_gap_list (some l) (some g ∷ rest) =
    largest_gap_list (if ltb l.size g.size then some g else some l) rest

-- The first gap of the list that passes a test.
unfoldable pub first_gap : (Gap → Bool) → List PartOrGap → Option Gap
first_gap test [] = none
first_gap test (part p ∷ rest) = first_gap test rest
first_gap test (gap g ∷ rest) = let later = first_gap test rest in if test g then some g else later

abbrev pub fits_size : ℕ → Option Bool → Gap → Bool
fits_size size ext g = leb size g.size && is_usable g && wanted ext g

unfoldable pub first_gap_with_size : ℕ → Option Bool → List PartOrGap → Option Gap
unfolding first_gap
first_gap_with_size size ext = first_gap (fits_size size ext)

unfoldable pub at_offset : ℕ → List PartOrGap → Option Gap
unfolding first_gap
at_offset offset = first_gap (λ g. g.offset == offset)

unfoldable pub includes : ℕ → List PartOrGap → Option Gap
unfolding first_gap
includes offset = first_gap (λ g. leb g.offset offset && ltb offset (g.offset + g.size))

unfoldable pub within : Gap → List PartOrGap → Option Gap
unfolding first_gap
within big =
    first_gap (λ g. leb big.offset g.offset && leb (g.offset + g.size) (big.offset + big.size))

abbrev pub offset_of : PartOrGap → ℕ
offset_of (part p) = p.offset
offset_of (gap g) = g.offset

-- `after(device, offset, only_gap=False)`
unfoldable pub after : ℕ → List PartOrGap → Option PartOrGap
after offset [] = none
after offset (x ∷ rest) =
    let later = after offset rest in if ltb offset (offset_of x) then some x else later

-- `after(device, offset)`
unfoldable pub gap_after : ℕ → List PartOrGap → Option Gap
unfolding first_gap
gap_after offset = first_gap (λ g. ltb offset g.offset)

-- The test on what stands behind the removed partition; `none` is the RuntimeError.
abbrev pub covers_some : Partition → Option PartOrGap → Option Gap
covers_some removed none = none
covers_some removed (some (part p)) = none
covers_some removed (some (gap g)) =
    if leb (removed.offset + removed.size) g.offset then none else some g

abbrev pub or_else : Option Gap → Option Gap → Option Gap
or_else none other = other
or_else (some g) other = some g

unfoldable pub find_gap_after_removal : Partition → List PartOrGap → Option Gap
find_gap_after_removal removed pgs =
    or_else (includes removed.offset pgs) (covers_some removed (after removed.offset pgs))

-- The loop of `_movable_trailing_partitions_and_gap_size_partition`, over what stands behind the
-- partition, with the partitions that were passed.
unfoldable pub movable_from :
    Option PTable → Bool → List Partition → List PartOrGap → List Partition × ℕ
movable_from ptable in_extended trailing [] = (trailing, 0)
movable_from ptable in_extended trailing (gap g ∷ rest) =
    (trailing, if bool_eq g.in_extended in_extended then g.size else 0)
movable_from ptable in_extended trailing (part p ∷ rest) =
    let further = movable_from ptable in_extended (trailing ++ p ∷ []) rest in
    if p.preserve
    then (trailing, 0)
    else if in_extended && not (is_logical ptable p)
    then (trailing, 0)
    else further

-- `pgs[part_idx + 1 :]`; `none` is the ValueError of `index` for a partition that is not there.
unfoldable pub behind : ℕ → List PartOrGap → Option (List PartOrGap)
behind id [] = none
behind id (gap g ∷ rest) = behind id rest
behind id (part p ∷ rest) = let later = behind id rest in if p.id == id then some rest else later

unfoldable pub movable_trailing_partitions_and_gap_size :
    Device → Partition → Option (List Partition × ℕ)
unfolding movable_from behind
movable_trailing_partitions_and_gap_size d p =
    Option.map (movable_from d.ptable (is_logical d.ptable p) [])
      (Option.bind (parts_and_gaps d true) (behind p.id))
