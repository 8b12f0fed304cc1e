-- ===== src/Render/Example.antt =====
-- The rendering of a disk with two formatted and mounted partitions, listed from the last to the
-- first.
use subiquity.Base.{ℕ, zero, suc, ◌<◌, ◌≡◌, refl, arith, true, false, none, some, List, [], ◌∷◌}
use subiquity.Render.Ids.{mem, IsNodup, same_ids}
use subiquity.Render.{
  Kind, disk, partition, format, mount, device, Object, Objects, dependencies, parent_mounts,
  lower_partitions, mounts_at, last_mount, all_mountlikes, parents, pieces, run_round, run_rounds,
  done, default, initial_work,
}
use subiquity.Render.Emit.{IsClosed}
use subiquity.Render.Order.{IsOrdered, rendered-IsOrdered}
use subiquity.Render.Finish.{Ends, run_rounds-Ends}
use subiquity.Render.Blocked.{needs}
use subiquity.Render.Complete.{IsResult, run_rounds-Complete}

abbrev an_object : Kind → List ℕ → ℕ → Object
an_object kind refs number = record {
  kind = kind;
  preserve = false;
  dasd = none;
  refs = refs;
  device = 0;
  number = number;
  partitions = [];
  path = none;
}

abbrev nth : List Object → ℕ → Object
nth [] n = an_object device [] 0
nth (x ∷ xs) zero = x
nth (x ∷ xs) (suc n) = nth xs n

abbrev object_list : List Object
object_list =
    record (an_object disk [] 0) { partitions = 1 ∷ 2 ∷ [] }
    ∷ an_object partition (0 ∷ []) 1
    ∷ an_object partition (0 ∷ []) 2
    ∷ an_object format (2 ∷ []) 0
    ∷ record (an_object mount (3 ∷ []) 0) { path = some "/" }
    ∷ an_object format (1 ∷ []) 0
    ∷ record (an_object mount (5 ∷ []) 0) { path = some "/boot" }
    ∷ []

abbrev all_ids : List ℕ
all_ids = 6 ∷ 5 ∷ 4 ∷ 3 ∷ 2 ∷ 1 ∷ 0 ∷ []

abbrev objects : Objects
objects = record { object = nth object_list; actions = all_ids }

abbrev rendered_ids : List ℕ
rendered_ids = 0 ∷ 1 ∷ 5 ∷ 2 ∷ 3 ∷ 4 ∷ 6 ∷ []

render_run : run_rounds objects 64 [] (initial_work objects default) ≡ done rendered_ids
unfolding run_rounds run_round same_ids initial_work
render_run = refl

rendered-IsOrdered_example : IsOrdered objects [] rendered_ids
rendered-IsOrdered_example = rendered-IsOrdered objects default 64 rendered_ids render_run

dependencies_known : (x y : ℕ) → mem y (dependencies objects x) ≡ true → mem y all_ids ≡ true
unfolding mem dependencies
dependencies_known zero y h = cc
dependencies_known (suc zero) y h = ground arith
dependencies_known (suc (suc zero)) y h = ground arith
dependencies_known (suc (suc (suc zero))) y h = ground arith
dependencies_known (suc (suc (suc (suc zero)))) y h = ground arith
dependencies_known (suc (suc (suc (suc (suc zero))))) y h = ground arith
dependencies_known (suc (suc (suc (suc (suc (suc zero)))))) y h = ground arith
dependencies_known (suc (suc (suc (suc (suc (suc (suc n))))))) y h = cc

partitions_known : (x y : ℕ) → mem y (objects.object x).partitions ≡ true → mem y all_ids ≡ true
unfolding mem
partitions_known zero y h = ground arith
partitions_known (suc zero) y h = cc
partitions_known (suc (suc zero)) y h = cc
partitions_known (suc (suc (suc zero))) y h = cc
partitions_known (suc (suc (suc (suc zero)))) y h = cc
partitions_known (suc (suc (suc (suc (suc zero))))) y h = cc
partitions_known (suc (suc (suc (suc (suc (suc zero)))))) y h = cc
partitions_known (suc (suc (suc (suc (suc (suc (suc n))))))) y h = cc

needs_lower : (x y : ℕ) → mem y (needs objects x) ≡ true → y < x
unfolding mem dependencies lower_partitions parent_mounts
needs_lower zero y h = cc
needs_lower (suc zero) y h = ground arith
needs_lower (suc (suc zero)) y h = ground arith
needs_lower (suc (suc (suc zero))) y h = ground arith
needs_lower (suc (suc (suc (suc zero)))) y h = ground arith
needs_lower (suc (suc (suc (suc (suc zero))))) y h = ground arith
needs_lower (suc (suc (suc (suc (suc (suc zero)))))) y h = ground arith
needs_lower (suc (suc (suc (suc (suc (suc (suc n))))))) y h = cc

parents_rendered :
    (x y : ℕ) → mem y (parent_mounts objects x) ≡ true → mem y (initial_work objects default) ≡ true
unfolding mem parent_mounts initial_work
parents_rendered zero y h = cc
parents_rendered (suc zero) y h = cc
parents_rendered (suc (suc zero)) y h = cc
parents_rendered (suc (suc (suc zero))) y h = cc
parents_rendered (suc (suc (suc (suc zero)))) y h = cc
parents_rendered (suc (suc (suc (suc (suc zero))))) y h = cc
parents_rendered (suc (suc (suc (suc (suc (suc zero)))))) y h = ground arith
parents_rendered (suc (suc (suc (suc (suc (suc (suc n))))))) y h = cc

objects-IsClosed : IsClosed objects all_ids
objects-IsClosed = record {
  of_actions = λ x h. h;
  of_dependencies = dependencies_known;
  of_partitions = partitions_known;
}

all_ids-IsNodup : IsNodup all_ids
unfolding mem
all_ids-IsNodup = (refl, (refl, (refl, (refl, (refl, (refl, (refl, tt)))))))

run_rounds-Ends_example :
    Ends [] (initial_work objects default) (run_rounds objects 64 [] (initial_work objects default))
run_rounds-Ends_example =
    run_rounds-Ends objects all_ids default 64 objects-IsClosed all_ids-IsNodup (omega arith)

run_rounds-Complete_example :
    (out : List ℕ) × IsResult objects default
      (run_rounds objects 64 [] (initial_work objects default))
      out
unfolding mem
run_rounds-Complete_example =
    run_rounds-Complete objects all_ids default 64 (λ x. x) objects-IsClosed all_ids-IsNodup
      needs_lower parents_rendered (omega arith)

-- What is a parent of what.
parents_of_path : parents "/srv//data/./x/" ≡ "/srv/data" ∷ "/srv" ∷ "/" ∷ []
unfolding parents pieces
parents_of_path = refl

parents_of_relative : parents "rpool/ROOT" ≡ "rpool" ∷ "." ∷ []
unfolding parents pieces
parents_of_relative = refl

-- A mount at "/srv/" is not found as the parent of one at "/srv/data".
abbrev two_mounts : Objects
two_mounts = record {
  object = nth (
      record (an_object mount [] 0) { path = some "/srv/" }
      ∷ record (an_object mount [] 0) { path = some "/srv/data" }
      ∷ []);
  actions = 0 ∷ 1 ∷ [];
}

trailing_slash : parent_mounts two_mounts 1 ≡ []
unfolding parent_mounts mounts_at last_mount all_mountlikes parents pieces
trailing_slash = refl
