-- ===== src/Match/Returns.antt =====
-- Among disks that were probed and have a path a directive raises no exception.
use Prim.Native.String.{String}
use subiquity.Base.{◌≡◌, Bool, true, some, List, All, is_some}
use subiquity.Match.{Candidate, Matcher}

-- `fnmatchcase` and `info_for_display` can read the disk.
abbrev pub IsReadable : Candidate → Type 0
IsReadable c = (is_some c.path ≡ true) × (is_some c.is_ssd ≡ true)

-- Tests that answer for a candidate.
abbrev AreAnswered : Candidate → List Matcher → Type 0
AreAnswered c ms = All (λ (f : Matcher). (b : Bool) × (f c ≡ some b)) ms
