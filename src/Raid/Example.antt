-- ===== src/Raid/Example.antt =====
-- Three members of different sizes.
use subiquity.Base.{ℕ, ◌+◌, ◌*◌, ◌%◌, ◌/◌, ◌≤◌, ◌≡◌, refl, arith, false, some, List, [], ◌∷◌, All}
use subiquity.Align.{align_up, align_down, align_down_signed, mib, gib}
use subiquity.Storage.Sort.{sorted}
use subiquity.Raid.{
  raid5, Member, too_large, sectors, shrink_headroom, calculate_data_offset_bytes, get_raid_size,
}
use subiquity.Raid.Offset.{calculate_data_offset_bytes_bounds}
use subiquity.Raid.Size.{total}
use subiquity.Raid.Fits.{get_raid_size-survives}

abbrev member : ℕ → ℕ → Member
member id size = record { id = id; size = size }

abbrev members : List Member
members = member 3 (12 * gib) ∷ member 1 (10 * gib) ∷ member 2 (11 * gib) ∷ []

offset_run : calculate_data_offset_bytes (10 * gib) ≡ 9 * mib
unfolding calculate_data_offset_bytes align_up align_down
offset_run = refl

raid5_run : get_raid_size raid5 members ≡ some (20462 * mib)
unfolding get_raid_size sorted calculate_data_offset_bytes align_down_signed align_up align_down
raid5_run = refl

calculate_data_offset_bytes_bounds_example :
    (2 * mib ≤ calculate_data_offset_bytes (10 * gib))
    × (calculate_data_offset_bytes (10 * gib) ≤ 129 * mib)
    × (calculate_data_offset_bytes (10 * gib) % mib ≡ 0)
    × (calculate_data_offset_bytes (10 * gib) ≤ 10 * gib / 1024 + 4 * mib)
    × (too_large (sectors (10 * gib)) (shrink_headroom 8 (sectors (10 * gib)) (128 * 1024 * 2))
        ≡ false)
calculate_data_offset_bytes_bounds_example = calculate_data_offset_bytes_bounds (10 * gib)

get_raid_size-survives_example : All (λ (d : Member). 20462 * mib + d.size ≤ total members) members
get_raid_size-survives_example =
    get_raid_size-survives raid5 members (20462 * mib) (omega arith) refl raid5_run
