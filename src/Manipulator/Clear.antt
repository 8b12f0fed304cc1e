-- ===== src/Manipulator/Clear.antt =====
-- `clear`, and the parts of the methods that delete, over any deletion of what is built on an object.
use Prim.Native.String.{String}
use subiquity.Base.{
  ℕ, suc, ◌≤◌, ◌<◌, ◌+◌, ◌≡◌, refl, Bool, false, not, ◌&&◌, Option, none, some, arith, ltb,
}
use subiquity.Render.{Kind}
use subiquity.Store.{fs, constructed_device, partitions, Store, ◌>>◌, guard, has_no, remove_object}
use subiquity.Store.Linked.{Linked}
use subiquity.Store.Ensures.{Ensures-guard, Ensures-weaken}
use subiquity.Store.Shrinks.{Shrinks, Shrinks-refl, Shrinks-trans, Removes, remove_object-Removes}
use subiquity.Manipulator.{
  Method, assign, set_wipe, first, get_constructed_device, is_disk, device_of, remove_partition,
  delete, clear, delete_partition,
}
use subiquity.Manipulator.Loops.{
  Reduces, Anything, then-Reduces, forget-Reduces, keep-Reduces, some-Reduces, unless-Reduces,
  if-Reduces, assign-Reduces, first-mem,
}
use subiquity.Manipulator.Built.{
  IsGone, IsGone-IsStable, built_later, GoneIf, emptied, IsPlain-IsStable, plain_constructed,
  constructed_later, IsCleared,
}

pub wipe-Reduces :
    (wipe : Option String) (o : ℕ) (s : Store) → Linked s → Reduces Anything s (set_wipe wipe o s)
wipe-Reduces wipe o s h =
    assign-Reduces o (λ obj. record obj { wipe = wipe }) s (λ obj. (refl, refl)) h

pub guarded-Reduces :
    (test : Store → Bool) (o : ℕ) (s : Store)
    → Linked s
    → Reduces (IsGone o) s ((guard test >> remove_object o) s)
guarded-Reduces test o s h =
    Ensures-guard (λ x s'. Removes s o s') test (remove_object o) s
      (λ passes. remove_object-Removes o s h)

remove_partition-Reduces :
    (p : ℕ) (s : Store) → Linked s → Reduces (IsGone p) s (remove_partition p s)
unfolding remove_partition
remove_partition-Reduces p s h = some-Reduces (IsGone p) s (device_of p s) _ (λ device.
    keep-Reduces (IsGone p) s _ _ (IsGone-IsStable p)
      (guarded-Reduces (λ s. has_no fs p s && has_no constructed_device p s) p s h)
      (λ s1 r. if-Reduces s1 (has_no partitions device s1) _ r.linked (λ e.
        assign-Reduces device (λ obj. record obj { ptable = none }) s1 (λ obj. (refl, refl))
          r.linked)))

-- A bound on how deep a call on `o` may go, that is enough.
abbrev pub IsEnough : ℕ → ℕ → Store → Type 0
IsEnough n o s = s.next ≤ n + o

abbrev pub Deletes : ℕ → Method → Type 0
Deletes n del =
    (kind : Kind) (o : ℕ) (s : Store)
    → Linked s
    → o < s.next
    → IsEnough n o s
    → Reduces (IsGone o) s (del kind o s)

module _ (n : ℕ) (del : Method) (deletes : Deletes n del) where
  delete-GoneIf :
      (q : Option ℕ) (s : Store)
      → Linked s
      → ((x : ℕ) → q ≡ some x → (x < s.next) × IsEnough n x s)
      → Reduces (GoneIf q) s (delete del q s)
  delete-GoneIf none s h there = (Shrinks-refl s h, λ x e. cc)
  delete-GoneIf (some o) s h there =
      Ensures-weaken (λ x s'. Removes s o s') (λ x s'. Shrinks s s' × GoneIf (some o) s')
        (delete del (some o) s) (deletes (s.object o).kind o s h (there o refl).0 (there o refl).1)
        (λ x s' r. (r.0, λ y e. let k : o ≡ y = cc in rw (← k) r.1))

  -- The last two calls of `clear`.
  delete_built :
      (o : ℕ) (s : Store)
      → Linked s
      → IsEnough (suc n) o s
      → Reduces
          (IsCleared o s)
          s
          ((delete del (first (s.back fs o)) >> delete del (get_constructed_device o s)) s)
  delete_built o s h enough =
      then-Reduces (GoneIf (first (s.back fs o))) (IsCleared o s) s _ _
        (delete-GoneIf (first (s.back fs o)) s h (λ x e.
          let later = built_later s fs o x h (first-mem (s.back fs o) x e) in
          (later.1, omega (arith, later.0))))
        (λ s1 r1 e1.
          Ensures-weaken (λ x s'. Shrinks s1 s' × GoneIf (get_constructed_device o s) s')
            (λ x s'. Shrinks s1 s' × IsCleared o s s') (delete del (get_constructed_device o s) s1)
            (delete-GoneIf (get_constructed_device o s) s1 r1.linked (λ x e.
              let later = constructed_later o x s h e in
              (omega (arith, r1.same_next, later.1), omega (arith, r1.same_next, later.0))))
            (λ x s2 q.
              let r = Shrinks-trans s s1 s2 r1 q.0 in
              (
                q.0,
                (
                  emptied fs o s s2 refl h r (λ y e. IsGone-IsStable y s1 s2 q.0 (e1 y e)),
                  λ plain.
                      emptied constructed_device o s s2 refl h r
                        (λ y e. q.1 y (plain_constructed o y s plain e)),
                ),
              )))

  pub clear-Frees :
      (wipe : Option String) (o : ℕ) (s : Store)
      → Linked s
      → IsEnough (suc n) o s
      → Reduces (IsCleared o s) s (clear del wipe o s)
  unfolding clear
  clear-Frees wipe o s h enough =
      then-Reduces Anything (IsCleared o s) s _ _
        (then-Reduces Anything Anything s _ _
          (if-Reduces s (is_disk (s.object o).kind)
            (assign o (λ obj. record obj { preserve = false }) s) h
            (λ e.
              assign-Reduces o (λ obj. record obj { preserve = false }) s (λ obj. (refl, refl)) h))
          (λ s1 r1 e1.
            wipe-Reduces (elim wipe [ none ↦ some "superblock" | some w ↦ some w ]) o s1 r1.linked))
        (λ s2 r2 e2.
          Ensures-weaken (λ x s'. Shrinks s2 s' × IsCleared o s2 s')
            (λ x s'. Shrinks s2 s' × IsCleared o s s') _
            (delete_built o s2 r2.linked (omega (arith, r2.same_next)))
            (λ x s3 q. (q.0, (q.1.0, λ plain. q.1.1 (IsPlain-IsStable o s s2 h r2 plain)))))

  pub clear-Reduces :
      (wipe : Option String) (o : ℕ) (s : Store)
      → Linked s
      → IsEnough (suc n) o s
      → Reduces Anything s (clear del wipe o s)
  clear-Reduces wipe o s h enough =
      forget-Reduces (IsCleared o s) s (clear del wipe o s) (clear-Frees wipe o s h enough)

  pub delete_partition-Reduces :
      (override_preserve : Bool) (p : ℕ) (s : Store)
      → Linked s
      → IsEnough (suc n) p s
      → Reduces (IsGone p) s (delete_partition del override_preserve p s)
  unfolding delete_partition
  delete_partition-Reduces override p s h enough =
      some-Reduces (IsGone p) s (device_of p s) _ (λ device.
        unless-Reduces (IsGone p) s
          (not override && (s.object device).preserve && ltb s.storage_version 2) _
          (then-Reduces Anything (IsGone p) s _ _ (clear-Reduces none p s h enough)
            (λ s1 r e. remove_partition-Reduces p s1 r.linked)))
