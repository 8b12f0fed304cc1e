-- ===== src/Lib.antt =====
-- Subiquity, the Ubuntu server installer: the storage core and what is sent over its API, as pure
-- functions.
--
-- The installer probes the disks into a model of storage objects (subiquity/models/filesystem.py).
-- The user interface and the autoinstall configuration change that model through functions that
-- ask where there is free space (subiquity/common/filesystem/gaps.py), how large the partitions
-- of a guided installation should be (subiquity/common/filesystem/sizes.py) and in the end for the
-- list of storage actions that curtin carries out (`_render_actions`).
--
-- The files:
--   Base        names of the library, Boolean tests, lists, and integers over the native naturals.
--   Align       `align_up` and `align_down` of subiquity/models/filesystem.py. The mask arithmetic
--               is modelled with the bitwise operations of the naturals.
--   Sizes       subiquity/common/filesystem/sizes.py. What Python computes in floats is a parameter
--               (`Floats`) with the bounds that rounding respects.
--   Storage     the storage objects that partitioning reads: Partition, Disk, Raid and
--               LVM_VolGroup (`Device`), partition tables and their alignment data; a stable sort
--               for `partitions_by_offset`.
--   Gaps        subiquity/common/filesystem/gaps.py: `parts_and_gaps` with both versions of
--               `find_disk_gaps`, and in Gaps/Find the searches on its result. `Cursor` is what the
--               loop of `find_disk_gaps_v2` carries along.
--   Partitions  the number that `Partition.__post_init__` chooses, the offsets that
--               `assign_omitted_offsets` gives, and `renumber_logical_partitions`.
--   Raid        `calculate_data_offset_bytes`, `get_raid_size` and `get_lvm_size`. The loop that
--               halves the headroom has fuel for 8 rounds; 7 take it to its least value.
--   Boot        plans of subiquity/common/filesystem/boot.py that make a device bootable with BIOS or
--               PReP, with the validators of the plans. `parts_and_gaps` of the device is an
--               argument.
--   Store       the object store of the model: objects with their references, the backlinks that
--               `_set_backlinks` and `_remove_backlinks` maintain, and the add_ and remove_
--               operations, in a monad over the store (`M`). Store/Graph describes them without
--               backlinks. What the store is like behind an
--               exception is not modelled.
--   Manipulator the methods of subiquity/common/filesystem/manipulator.py that delete objects with
--               all that is built on them, `reformat` and `create_raid`, over Store. They call one
--               another through `delete_method`, whose fuel bounds how deep the calls go; as much as
--               there are objects behind the one that is deleted is enough, since what is built on
--               an object is younger.
--   Actions     subiquity/common/filesystem/actions.py, over Store: the actions that are offered on
--               an object and the checkers. The texts of refusals are constructors (`Reason`),
--               and so are the exceptions on a ZPool or a logical volume (`Exc`).
--               What `is_esp` and `can_be_boot_device` answer are attributes of an object.
--   Text        `dehumanize_size` on ASCII texts, with what it uses of `str` and `int`. `humanize_size`
--               formats a float and is left out.
--   Match       the choice of a disk by the match directives of an autoinstall configuration:
--               `_make_matchers`, `_filtered_matches`, `_sorted_matches` and `_matching_disks`. The
--               matching of patterns and the order of sort keys are parameters. Only disks are
--               modelled: the RAIDs that the code offers as well are left out, since their sort keys
--               may not compare with those of disks.
--   Mirror      the candidates of subiquity/models/mirror.py for the primary mirror, the selection of
--               subiquity/server/controllers/mirror.py that tests and elects one, the fallback, and
--               `get_apt_config`. What tests end with, other exceptions included, is an argument
--               (`Tests`).
--   Serialize   subiquity/common/serialize.py: Python values (`Value`), annotations (`Ann`), and both
--               directions of `Serializer` (`serialize` in Out, `deserialize` in Back). `HasType` says
--               which values an annotation describes. Floats and datetimes are left out, and what
--               json.dumps and json.loads make of the values is not modelled.
--   Render      `FilesystemModel._render_actions`: the work list, `can_emit`, one round of the loop
--               (`run_round`) and the loop (`run_rounds`). An object is its id. `parents` gives the
--               texts of the parents of a path as pathlib does.
--
-- The server answers its clients with objects of subiquity/common/types, which Serialize turns into
-- what JSON can hold and back.
-- How the parts meet: Sizes and Gaps round with Align; Gaps works on the devices of Storage.
-- Manipulator works on Store, and not on Storage, which holds what partitioning reads.
-- Offsets and sizes are naturals; a difference that Python lets be negative is an integer.
-- `run_rounds` has fuel, one unit for each round of the `while` loop; the square of one more than
-- the number of ids is enough, since a round that does not end the loop writes an object out or
-- finds a new one.
--
-- Not modelled: the boot plan for UEFI and carrying out a plan; creating and moving partitions on
-- the object store, with their offsets and numbers there; the "device" entries that
-- `_render_actions` puts in front for the mode FORMAT_MOUNT; `set_country` of the mirror model, which
-- changes entries in place, and its disabled components; logging; probing, the user interface,
-- networking, snaps, and the other services around the storage core, which are mostly input and
-- output.
pub mod Base
pub mod Align
pub mod Sizes
pub mod Storage
pub mod Gaps
pub mod Partitions
pub mod Raid
pub mod Boot
pub mod Render
pub mod Store
pub mod Manipulator
pub mod Text
pub mod Actions
pub mod Match
pub mod Mirror
pub mod Serialize
