-- ===== src/Store/Ensures.antt =====
-- What a method ends with, for every way it can end: a value and a store with the property, or an
-- exception. A method that runs out of fuel ensures nothing.
use subiquity.Base.{◌≡◌, refl, subst, Bool, true, false, if◌then◌else◌}
use subiquity.Store.{Store, Outcome, ok, raised, out_of_fuel, M, ◌>>◌, guard}

abbrev pub Ensures : {A : Type 0} → (A → Store → Type 0) → Outcome A → Type 0
Ensures P (ok a s) = P a s
Ensures P raised = Unit
Ensures P out_of_fuel = ⊥

pub Ensures-bind :
    {A B : Type 0} (P : A → Store → Type 0) (Q : B → Store → Type 0) (m : Outcome A) (f : A → M B)
    → Ensures P m
    → ((a : A) (s : Store) → P a s → Ensures Q (f a s))
    → Ensures Q (elim m [ ok a s ↦ f a s | raised ↦ raised | out_of_fuel ↦ out_of_fuel ])
Ensures-bind P Q (ok a s) f h k = k a s h
Ensures-bind P Q raised f h k = tt
Ensures-bind P Q out_of_fuel f h k = absurd h

pub Ensures-weaken :
    {A : Type 0} (P Q : A → Store → Type 0) (m : Outcome A)
    → Ensures P m
    → ((a : A) (s : Store) → P a s → Q a s)
    → Ensures Q m
Ensures-weaken P Q (ok a s) h k = k a s h
Ensures-weaken P Q raised h k = tt
Ensures-weaken P Q out_of_fuel h k = absurd h

-- A guard that fails raises.
passed :
    {B : Type 0} (Q : B → Store → Type 0) (b : Bool) (k : M B) (s : Store)
    → (b ≡ true → Ensures Q (k s))
    → Ensures Q (elim (if◌then◌else◌ {A = Outcome (Unit {0})} b (ok tt s) raised) [
      | ok a s' ↦ k s'
      | raised ↦ raised
      | out_of_fuel ↦ out_of_fuel
    ])
passed Q true k s h = h refl
passed Q false k s h = tt

pub Ensures-guard :
    {B : Type 0} (Q : B → Store → Type 0) (test : Store → Bool) (k : M B) (s : Store)
    → (test s ≡ true → Ensures Q (k s))
    → Ensures Q ((guard test >> k) s)
unfolding ◌>>◌
Ensures-guard Q test k s h = passed Q (test s) k s h

-- What holds of a method that has returned.
pub Ensures-ok :
    {A : Type 0} (P : A → Store → Type 0) (m : Outcome A) (a : A) (s : Store)
    → Ensures P m
    → m ≡ ok a s
    → P a s
Ensures-ok P m a s h e = subst (Ensures P) e h
