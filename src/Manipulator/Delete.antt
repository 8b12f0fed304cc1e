-- ===== src/Manipulator/Delete.antt =====
-- The methods that delete, one kind after the other, and the deletion of an object of any kind.
use subiquity.Base.{
  ℕ, zero, suc, ◌≤◌, ◌<◌, ◌+◌, ◌≡◌, true, false, Option, none, some, arith, length,
}
use subiquity.Render.{
  Kind, disk, raid, partition, lvm_volgroup, lvm_partition, dm_crypt, format, mount, zpool, zfs,
  dasd, nvme_controller, device,
}
use subiquity.Render.Ids.{mem}
use subiquity.Store.{
  Slot, fs, constructed_device, mounted, partitions, subvolumes, Store, M, has_no, remove_object,
  remove_filesystem, remove_mount, remove_raid, remove_volgroup, remove_logical_volume,
  remove_dm_crypt,
}
use subiquity.Store.Linked.{Linked}
use subiquity.Store.Ensures.{Ensures}
use subiquity.Store.Shrinks.{Removes, remove_object-Removes}
use subiquity.Manipulator.{
  Method, set_wipe, first, item_at, for_each, is_dm_crypt, targets, delete_mount, delete_filesystem,
  delete_partition, delete_logical_volume, delete_subvolumes, delete_raid, release_device,
  delete_volgroup, delete_method,
}
use subiquity.Manipulator.Loops.{
  Reduces, Anything, present-Reduces, then-Reduces, pure-Reduces, forget-Reduces, if-Reduces,
  for_each-Reduces, item_at-mem,
}
use subiquity.Manipulator.Built.{IsGone, IsGone-IsStable, built_later}
use subiquity.Manipulator.Clear.{
  wipe-Reduces, guarded-Reduces, IsEnough, Deletes, clear-Reduces, delete_partition-Reduces,
}

delete_mount-Reduces : (m : Option ℕ) (s : Store) → Linked s → Reduces Anything s (delete_mount m s)
unfolding delete_mount remove_mount
delete_mount-Reduces none s h = pure-Reduces s h
delete_mount-Reduces (some m) s h =
    forget-Reduces (IsGone m) s (remove_object m s) (remove_object-Removes m s h)

delete_filesystem-Reduces :
    (f : ℕ) (s : Store) → Linked s → Reduces (IsGone f) s (delete_filesystem (some f) s)
unfolding delete_filesystem remove_filesystem
delete_filesystem-Reduces f s h =
    then-Reduces Anything (IsGone f) s _ _ (delete_mount-Reduces (first (s.back mounted f)) s h)
      (λ s1 r e. guarded-Reduces (has_no mounted f) f s1 r.linked)

release_device-Reduces : (d : ℕ) (s : Store) → Linked s → Reduces Anything s (release_device d s)
unfolding release_device remove_dm_crypt
release_device-Reduces d s h =
    then-Reduces Anything Anything s _ _ (wipe-Reduces (some "superblock") d s h) (λ s1 r e.
      if-Reduces s1 (is_dm_crypt (s1.object d).kind) (remove_object d s1) r.linked (λ k.
        forget-Reduces (IsGone d) s1 (remove_object d s1) (remove_object-Removes d s1 r.linked)))

module _ (n : ℕ) (del : Method) (deletes : Deletes n del) where
  delete_logical_volume-Reduces :
      (lv : ℕ) (s : Store)
      → Linked s
      → IsEnough (suc n) lv s
      → Reduces (IsGone lv) s (delete_logical_volume del lv s)
  unfolding delete_logical_volume remove_logical_volume
  delete_logical_volume-Reduces lv s h enough =
      then-Reduces Anything (IsGone lv) s _ _ (clear-Reduces n del deletes none lv s h enough)
        (λ s1 r e. guarded-Reduces (has_no fs lv) lv s1 r.linked)

  -- A loop over what is built on `o`.
  pub each_built :
      (f : ℕ → M (Unit {0})) (slot : Slot) (o : ℕ) (s : Store)
      → Linked s
      → IsEnough (suc n) o s
      → ((q : ℕ) (s' : Store) → Linked s' → IsEnough n q s' → Reduces (IsGone q) s' (f q s'))
      → Reduces
          (λ s'. (q : ℕ) → mem q (s.back slot o) ≡ true → IsGone q s')
          s
          (for_each f (s.back slot o) s)
  each_built f slot o s h enough round =
      for_each-Reduces IsGone f (s.back slot o) s h IsGone-IsStable (λ q s' m r.
        round q s' r.linked (omega (arith, r.same_next, (built_later s slot o q h m).0)))

  -- The list of subvolumes never grows, so that `bound` rounds are enough.
  delete_subvolumes-Reduces :
      (bound rounds r i : ℕ) (s : Store)
      → Linked s
      → IsEnough (suc n) r s
      → length (s.back subvolumes r) ≤ bound
      → rounds + i ≡ suc bound
      → i ≤ bound
      → Reduces Anything s (delete_subvolumes del rounds r i s)
  unfolding delete_subvolumes
  delete_subvolumes-Reduces bound zero r i s h enough short total inside = absurd (omega arith)
  delete_subvolumes-Reduces bound (suc rounds) r i s h enough short total inside =
      present-Reduces s (item_at i (s.back subvolumes r)) _ h (λ v e.
        let there = item_at-mem i (s.back subvolumes r) v e in
        let later = built_later s subvolumes r v h there.0 in
        then-Reduces (IsGone v) Anything s _ _ (deletes raid v s h later.1 (omega (arith, later.0)))
          (λ s1 r1 e1.
            delete_subvolumes-Reduces bound rounds r (suc i) s1 r1.linked
              (omega (arith, r1.same_next)) (omega (arith, r1.shorter subvolumes r)) (omega arith)
              (omega (arith, there.1))))

  delete_raid-Reduces :
      (r : ℕ) (s : Store)
      → Linked s
      → IsEnough (suc n) r s
      → Reduces (IsGone r) s (delete_raid del r s)
  unfolding delete_raid remove_raid
  delete_raid-Reduces r s h enough =
      then-Reduces Anything (IsGone r) s _ _
        (then-Reduces Anything Anything s _ _
          (then-Reduces Anything Anything s _ _
            (then-Reduces Anything Anything s _ _ (clear-Reduces n del deletes none r s h enough)
              (λ s1 r1 e1.
                delete_subvolumes-Reduces (length (s1.back subvolumes r))
                  (suc (length (s1.back subvolumes r))) r 0 s1 r1.linked
                  (omega (arith, r1.same_next)) (omega arith) (omega arith) (omega arith)))
            (λ s2 r2 e2. forget-Reduces _ s2 _ (
              each_built (delete_partition del true) partitions r s2 r2.linked
                (omega (arith, r2.same_next))
                (λ q s' k e. delete_partition-Reduces n del deletes true q s' k (omega arith)))))
          (λ s3 r3 e3. forget-Reduces _ s3 _ (
            for_each-Reduces (λ q. Anything) (set_wipe (some "superblock"))
              (targets constructed_device (s3.object r).links) s3 r3.linked (λ q s s' r e. tt)
              (λ q s' m r. wipe-Reduces (some "superblock") q s' r.linked))))
        (λ s4 r4 e4. guarded-Reduces _ r s4 r4.linked)

  delete_volgroup-Reduces :
      (vg : ℕ) (s : Store)
      → Linked s
      → IsEnough (suc n) vg s
      → Reduces (IsGone vg) s (delete_volgroup del vg s)
  unfolding delete_volgroup remove_volgroup
  delete_volgroup-Reduces vg s h enough =
      then-Reduces Anything (IsGone vg) s _ _
        (then-Reduces Anything Anything s _ _
          (forget-Reduces _ s _ (
            each_built (delete_logical_volume del) partitions vg s h enough
              (λ q s' k e. delete_logical_volume-Reduces q s' k (omega arith))))
          (λ s1 r1 e1. forget-Reduces _ s1 _ (
            for_each-Reduces (λ q. Anything) release_device
              (targets constructed_device (s1.object vg).links) s1 r1.linked (λ q s2 s3 r e. tt)
              (λ q s2 m r. release_device-Reduces q s2 r.linked))))
        (λ s2 r2 e2. guarded-Reduces (has_no partitions vg) vg s2 r2.linked)

pub delete_method-Deletes : (n : ℕ) → Deletes n (delete_method n)
unfolding delete_method delete_mount remove_mount
delete_method-Deletes zero kind o s h there enough = absurd (omega arith)
delete_method-Deletes (suc n) partition o s h there enough =
    delete_partition-Reduces n (delete_method n) (delete_method-Deletes n) false o s h enough
delete_method-Deletes (suc n) raid o s h there enough =
    delete_raid-Reduces n (delete_method n) (delete_method-Deletes n) o s h enough
delete_method-Deletes (suc n) lvm_volgroup o s h there enough =
    delete_volgroup-Reduces n (delete_method n) (delete_method-Deletes n) o s h enough
delete_method-Deletes (suc n) lvm_partition o s h there enough =
    delete_logical_volume-Reduces n (delete_method n) (delete_method-Deletes n) o s h enough
delete_method-Deletes (suc n) format o s h there enough = delete_filesystem-Reduces o s h
delete_method-Deletes (suc n) mount o s h there enough = remove_object-Removes o s h
delete_method-Deletes (suc n) disk o s h there enough = tt
delete_method-Deletes (suc n) dm_crypt o s h there enough = tt
delete_method-Deletes (suc n) zpool o s h there enough = tt
delete_method-Deletes (suc n) zfs o s h there enough = tt
delete_method-Deletes (suc n) dasd o s h there enough = tt
delete_method-Deletes (suc n) nvme_controller o s h there enough = tt
delete_method-Deletes (suc n) device o s h there enough = tt

-- Where the backlinks are right and calls may go as deep as there are objects from `o` on, deleting
-- an object `o` of any kind comes to an end: it raises, or `o` and perhaps others are no longer
-- objects of the model, no reference has changed, and the backlinks are right again.
pub delete_method-Removes :
    (n : ℕ) (kind : Kind) (o : ℕ) (s : Store)
    → Linked s
    → o < s.next
    → s.next ≤ n + o
    → Ensures (λ x s'. Removes s o s') (delete_method n kind o s)
delete_method-Removes n kind o s h there enough = delete_method-Deletes n kind o s h there enough
