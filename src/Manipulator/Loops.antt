-- ===== src/Manipulator/Loops.antt =====
-- Sequences and loops of methods that only remove objects.
use subiquity.Base.{
  ℕ, zero, suc, ◌<◌, ◌≡◌, refl, inl, inr, Bool, true, false, Option, none, some, List, [], ◌∷◌,
  ◌==◌, if◌then◌else◌, arith, ==_iff, ==-refl, Bool-cases, length,
}
use subiquity.Render.Ids.{mem}
use subiquity.Store.{Object, Store, Outcome, ok, raised, M, ◌>>◌}
use subiquity.Store.Linked.{Linked}
use subiquity.Store.Ensures.{Ensures, Ensures-bind, Ensures-weaken}
use subiquity.Store.Shrinks.{Shrinks, Shrinks-refl, Shrinks-trans, set_object-Shrinks}
use subiquity.Manipulator.{assign, first, item_at, for_each}

-- A method that ends in a smaller store with right backlinks and, beside that, a property of it.
abbrev pub Reduces : (Store → Type 0) → Store → Outcome (Unit {0}) → Type 0
Reduces E s m = Ensures (λ (x : Unit {0}) s'. Shrinks s s' × E s') m

abbrev pub Anything : Store → Type 0
Anything s = Unit

-- A property that stays when more is removed.
abbrev pub IsStable : (Store → Type 0) → Type 0
IsStable E = (s s' : Store) → Shrinks s s' → E s → E s'

pub then-Reduces :
    (E : Store → Type 0) (F : Store → Type 0) (s : Store) (m k : M (Unit {0}))
    → Reduces E s (m s)
    → ((s' : Store) → Shrinks s s' → E s' → Reduces F s' (k s'))
    → Reduces F s ((m >> k) s)
unfolding ◌>>◌
then-Reduces E F s m k h next =
    Ensures-bind (λ x s'. Shrinks s s' × E s') (λ x s'. Shrinks s s' × F s') (m s) (λ x. k) h
      (λ x s1 r.
        Ensures-weaken (λ x s'. Shrinks s1 s' × F s') (λ x s'. Shrinks s s' × F s') (k s1)
          (next s1 r.0 r.1) (λ y s2 q. (Shrinks-trans s s1 s2 r.0 q.0, q.1)))

pub pure-Reduces : (s : Store) → Linked s → Reduces Anything s (ok tt s)
pure-Reduces s h = (Shrinks-refl s h, tt)

pub forget-Reduces :
    (E : Store → Type 0) (s : Store) (m : Outcome (Unit {0})) → Reduces E s m → Reduces Anything s m
forget-Reduces E s m h =
    Ensures-weaken (λ x s'. Shrinks s s' × E s') (λ x s'. Shrinks s s' × Unit) m h
      (λ x s' r. (r.0, tt))

-- A method after which only more is removed keeps what the one before it made true.
pub keep-Reduces :
    (E : Store → Type 0) (s : Store) (m k : M (Unit {0}))
    → IsStable E
    → Reduces E s (m s)
    → ((s' : Store) → Shrinks s s' → Reduces Anything s' (k s'))
    → Reduces E s ((m >> k) s)
keep-Reduces E s m k stable h next = then-Reduces E E s m k h (λ s1 r e.
    Ensures-weaken (λ x s'. Shrinks s1 s' × Unit) (λ x s'. Shrinks s1 s' × E s') (k s1) (next s1 r)
      (λ x s2 q. (q.0, stable s1 s2 q.0 e)))

-- A missing attribute raises.
pub some-Reduces :
    (E : Store → Type 0) (s : Store) (m : Option ℕ) (f : ℕ → Outcome (Unit {0}))
    → ((d : ℕ) → Reduces E s (f d))
    → Reduces E s (elim m [ none ↦ raised | some d ↦ f d ])
some-Reduces E s none f h = tt
some-Reduces E s (some d) f h = h d

-- Nothing is done where there is nothing.
pub present-Reduces :
    (s : Store) (m : Option ℕ) (f : ℕ → Outcome (Unit {0}))
    → Linked s
    → ((d : ℕ) → m ≡ some d → Reduces Anything s (f d))
    → Reduces Anything s (elim m [ none ↦ ok tt s | some d ↦ f d ])
present-Reduces s none f h k = pure-Reduces s h
present-Reduces s (some d) f h k = k d refl

pub unless-Reduces :
    (E : Store → Type 0) (s : Store) (b : Bool) (m : Outcome (Unit {0}))
    → Reduces E s m
    → Reduces E s (if b then raised else m)
unless-Reduces E s true m h = tt
unless-Reduces E s false m h = h

pub if-Reduces :
    (s : Store) (b : Bool) (m : Outcome (Unit {0}))
    → Linked s
    → (b ≡ true → Reduces Anything s m)
    → Reduces Anything s (if b then m else ok tt s)
if-Reduces s true m h k = k refl
if-Reduces s false m h k = pure-Reduces s h

pub assign-Reduces :
    (o : ℕ) (f : Object → Object) (s : Store)
    → ((obj : Object) → ((f obj).links ≡ obj.links) × ((f obj).kind ≡ obj.kind))
    → Linked s
    → Reduces Anything s (assign o f s)
assign-Reduces o f s same h =
    (set_object-Shrinks s o (f (s.object o)) (same (s.object o)).0 (same (s.object o)).1 h, tt)

abbrev pub Each : (ℕ → Store → Type 0) → List ℕ → Store → Type 0
Each E xs s = (q : ℕ) → mem q xs ≡ true → E q s

-- What each round makes true holds of all objects of the list when the loop has ended.
pub for_each-Reduces :
    (E : ℕ → Store → Type 0) (f : ℕ → M (Unit {0})) (xs : List ℕ) (s : Store)
    → Linked s
    → ((q : ℕ) → IsStable (E q))
    → ((q : ℕ) (s' : Store) → mem q xs ≡ true → Shrinks s s' → Reduces (E q) s' (f q s'))
    → Reduces (Each E xs) s (for_each f xs s)
unfolding for_each mem
for_each-Reduces E f [] s h stable each = (Shrinks-refl s h, λ q m. cc)
for_each-Reduces E f (x ∷ xs) s h stable each =
    then-Reduces (E x) (Each E (x ∷ xs)) s (f x) (for_each f xs)
      (each x s (rw (==-refl x) refl) (Shrinks-refl s h))
      (λ s1 r e.
        Ensures-weaken (λ y s'. Shrinks s1 s' × Each E xs s')
          (λ y s'. Shrinks s1 s' × Each E (x ∷ xs) s') (for_each f xs s1)
          (for_each-Reduces E f xs s1 r.linked stable
            (λ q s2 m r2. each q s2 (ground arith) (Shrinks-trans s s1 s2 r r2)))
          (λ y s2 k. (
            k.0,
            λ q m. elim (Bool-cases (q == x)) [
              | inl same ↦ let eq : q ≡ x = (==_iff q x).0 same in rw eq (stable x s1 s2 k.0 e)
              | inr other ↦ k.1 q (ground arith)
            ],
          )))

pub first-mem : (xs : List ℕ) (x : ℕ) → first xs ≡ some x → mem x xs ≡ true
unfolding mem
first-mem [] x e = cc
first-mem (y ∷ ys) x e = let k : y ≡ x = cc in rw (k, ==-refl x) refl

pub item_at-mem :
    (i : ℕ) (xs : List ℕ) (x : ℕ) → item_at i xs ≡ some x → (mem x xs ≡ true) × (i < length xs)
unfolding mem item_at
item_at-mem i [] x e = cc
item_at-mem zero (y ∷ ys) x e = let k : y ≡ x = cc in rw (k, ==-refl x) (refl, omega arith)
item_at-mem (suc i) (y ∷ ys) x e =
    let (m, l) = item_at-mem i ys x e in (rw m (ground arith), omega arith)
