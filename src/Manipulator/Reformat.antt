-- ===== src/Manipulator/Reformat.antt =====
-- `reformat`: the disk is left without partitions.
use Prim.Native.String.{String}
use subiquity.Base.{
  ℕ, suc, ◌≤◌, ◌+◌, ◌≡◌, refl, inl, inr, true, false, Option, [], arith, length, length_zero,
  Bool-cases,
}
use subiquity.Render.Ids.{mem}
use subiquity.Store.{fs, partitions, Store}
use subiquity.Store.Linked.{Linked}
use subiquity.Store.Ensures.{Ensures, Ensures-weaken}
use subiquity.Store.Shrinks.{Shrinks}
use subiquity.Manipulator.{for_each, clear, delete_partition, delete_method, reformat}
use subiquity.Manipulator.Loops.{
  Reduces, Anything, IsStable, then-Reduces, keep-Reduces, assign-Reduces,
}
use subiquity.Manipulator.Built.{IsGone, listed_before, none_listed, IsCleared}
use subiquity.Manipulator.Clear.{clear-Frees, delete_partition-Reduces}
use subiquity.Manipulator.Delete.{each_built, delete_method-Deletes}

abbrev IsBare : ℕ → Store → Type 0
IsBare device s = s.back partitions device ≡ []

-- A field that held only what is gone is empty.
IsBare-gone :
    (device : ℕ) (s s' : Store)
    → Linked s
    → Shrinks s s'
    → ((q : ℕ) → mem q (s.back partitions device) ≡ true → IsGone q s')
    → IsBare device s'
IsBare-gone device s s' h r gone = none_listed (s'.back partitions device) (λ x.
    elim (Bool-cases (mem x (s'.back partitions device))) [
      | inr absent ↦ absent
      | inl listed ↦
          let (before, there) = listed_before partitions device x s s' h r listed in
          cc (gone x before)
    ])

IsBare-IsStable : (device : ℕ) → IsStable (IsBare device)
IsBare-IsStable device s s' r bare =
    let short : length (s'.back partitions device) ≤ length (s.back partitions device) =
      r.shorter partitions device in
    let zero_length : length (s'.back partitions device) ≤ 0 = rw bare at short in
    length_zero (s'.back partitions device) zero_length

delete_partitions :
    (n device : ℕ) (s : Store)
    → Linked s
    → s.next ≤ suc n + device
    → Reduces
        (IsBare device)
        s
        (for_each (delete_partition (delete_method n) true) (s.back partitions device) s)
delete_partitions n device s h enough =
    Ensures-weaken
      (λ x s'. Shrinks s s' × ((q : ℕ) → mem q (s.back partitions device) ≡ true → IsGone q s'))
      (λ x s'. Shrinks s s' × IsBare device s')
      (for_each (delete_partition (delete_method n) true) (s.back partitions device) s)
      (each_built n (delete_method n) (delete_method-Deletes n)
        (delete_partition (delete_method n) true) partitions device s h enough
        (λ q s' k e.
          delete_partition-Reduces n (delete_method n) (delete_method-Deletes n) true q s' k
            (omega arith)))
      (λ x s' r. (r.0, IsBare-gone device s s' h r.0 r.1))

-- Where the backlinks are right and calls may go as deep as there are objects behind the device,
-- `reformat` comes to an end: it raises, or the device has no partition any more and carries no
-- filesystem, and the backlinks are right.
pub reformat-IsBare :
    (n device : ℕ) (ptable wipe : Option String) (s : Store)
    → Linked s
    → s.next ≤ suc n + device
    → Ensures
        (λ x s'. Linked s' × (s'.back partitions device ≡ []) × (s'.back fs device ≡ []))
        (reformat (delete_method n) device ptable wipe s)
unfolding reformat
reformat-IsBare n device ptable wipe s h enough =
    Ensures-weaken
      (λ x s'. Shrinks s s' × ((s'.back partitions device ≡ []) × (s'.back fs device ≡ [])))
      (λ x s'. Linked s' × (s'.back partitions device ≡ []) × (s'.back fs device ≡ []))
      (reformat (delete_method n) device ptable wipe s)
      (then-Reduces (IsBare device)
        (λ s'. (s'.back partitions device ≡ []) × (s'.back fs device ≡ [])) s _ _
        (keep-Reduces (IsBare device) s _ _ (IsBare-IsStable device)
          (then-Reduces Anything (IsBare device) s _ _
            (assign-Reduces device (λ obj. record obj { grub_device = false }) s
              (λ obj. (refl, refl)) h)
            (λ s1 r1 e1. delete_partitions n device s1 r1.linked (omega (arith, r1.same_next))))
          (λ s2 r2.
            assign-Reduces device (λ obj. record obj { ptable = ptable }) s2 (λ obj. (refl, refl))
              r2.linked))
        (λ s3 r3 bare.
          Ensures-weaken (λ x s'. Shrinks s3 s' × IsCleared device s3 s')
            (λ x s'. Shrinks s3 s' × ((s'.back partitions device ≡ []) × (s'.back fs device ≡ [])))
            (clear (delete_method n) wipe device s3)
            (clear-Frees n (delete_method n) (delete_method-Deletes n) wipe device s3 r3.linked
              (omega (arith, r3.same_next)))
            (λ x s4 r. (r.0, (IsBare-IsStable device s3 s4 r.0 bare, r.1.0)))))
      (λ x s' r. (r.0.linked, r.1.0, r.1.1))
