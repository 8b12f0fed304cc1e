-- ===== src/Partitions/Offset.antt =====
-- Where assign_omitted_offsets places the partitions.
use subiquity.Base.{
  ℕ, ◌+◌, ◌%◌, ◌≤◌, ◌<◌, ◌≡◌, ◌≢◌, ◌⊎◌, true, false, Option, none, some, List, [], ◌∷◌, All, In,
}
use subiquity.Partitions.{Request, place, RequestedDisk, is_extended, placed_primary}

-- A partition was placed at `o`: where it asked to be, or else at the first aligned offset that is
-- `room` behind the end of the one before it.
abbrev pub IsPlacedAt : (align room prev_end : ℕ) → Option ℕ → ℕ → Type 0
IsPlacedAt align room prev_end (some asked) o = o ≡ asked
IsPlacedAt align room prev_end none o =
    (o % align ≡ 0) × (prev_end + room ≤ o) × (o < prev_end + room + align)

abbrev pub ArePlaced : (align room prev_end : ℕ) → List Request → List Request → Type 0
ArePlaced align room prev_end [] [] = Unit
ArePlaced align room prev_end [] (q ∷ qs) = ⊥
ArePlaced align room prev_end (p ∷ ps) [] = ⊥
ArePlaced align room prev_end (p ∷ ps) (q ∷ qs) =
    (o : ℕ) × (q ≡ record p { offset = some o })
    × IsPlacedAt align room prev_end p.offset o
    × ArePlaced align room (o + p.size) ps qs

-- An extended partition is among the partitions, and starts there.
abbrev pub StartsAt : List Request → ℕ → Type 0
StartsAt ps start = (p : Request) × In p ps × (is_extended p ≡ true) × (p.offset ≡ some start)

abbrev pub HasNoExtended : List Request → Type 0
HasNoExtended ps = All (λ (p : Request). is_extended p ≡ false) ps

-- Disk by disk, up to the first one without a logical partition: what was assigned to its partitions.
abbrev pub AreAssigned : List RequestedDisk → List RequestedDisk → Type 0
AreAssigned [] [] = Unit
AreAssigned [] (e ∷ es) = ⊥
AreAssigned (d ∷ ds) [] = ⊥
AreAssigned (d ∷ ds) (e ∷ es) =
    (e.info ≡ d.info)
    × ArePlaced d.info.part_align 0 d.info.min_start_offset d.primary e.primary
    × (((d.logical ≡ []) × (e.logical ≡ []) × (es ≡ ds))
        ⊎ ((start : ℕ) × StartsAt e.primary start
            × ArePlaced d.info.part_align d.info.ebr_space start d.logical e.logical
            × AreAssigned ds es))

-- The assigned disks, or the StopIteration of one that has logical partitions and no extended one.
abbrev pub Assigned : List RequestedDisk → Option (List RequestedDisk) → Type 0
Assigned disks (some placed) = AreAssigned disks placed
Assigned disks none = (d : RequestedDisk) × In d disks × (d.logical ≢ []) × HasNoExtended d.primary

abbrev then_logical : RequestedDisk → ℕ → Option (List RequestedDisk) → Option (List RequestedDisk)
then_logical d start rest = elim rest [
  | none ↦ none
  | some placed ↦ some (
      record d {
        primary = placed_primary d;
        logical = place d.info.part_align d.info.ebr_space start d.logical;
      }
      ∷ placed)
]

abbrev then_extended :
    RequestedDisk → Option ℕ → Option (List RequestedDisk) → Option (List RequestedDisk)
then_extended d o rest = elim o [ none ↦ none | some start ↦ then_logical d start rest ]

abbrev pub IsAligned : RequestedDisk → Type 0
IsAligned d = 0 < d.info.part_align
