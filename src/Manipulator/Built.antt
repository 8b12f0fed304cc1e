-- ===== src/Manipulator/Built.antt =====
-- What is built on an object, and what is left of it when objects are gone.
use subiquity.Base.{
  ℕ, ◌≤◌, ◌<◌, ◌≡◌, refl, ap, ◌∙◌, inl, inr, Bool, true, false, not, ◌&&◌, Option, none, some, List,
  [], ◌∷◌, if◌then◌else◌, arith, ==-refl, Bool-cases, length,
}
use subiquity.Render.Ids.{mem}
use subiquity.Store.{Slot, is_single, fs, constructed_device, Store}
use subiquity.Store.Linked.{Linked}
use subiquity.Store.Shrinks.{Shrinks}
use subiquity.Manipulator.{first, get_constructed_device, is_dm_crypt}
use subiquity.Manipulator.Loops.{IsStable, first-mem}

abbrev pub IsGone : ℕ → Store → Type 0
IsGone o s = mem o s.actions ≡ false

pub IsGone-IsStable : (o : ℕ) → IsStable (IsGone o)
IsGone-IsStable o s s' r gone = elim (Bool-cases (mem o s'.actions)) [
  | inl listed ↦ cc (r.fewer o listed)
  | inr absent ↦ absent
]

-- What is built on an object came after it.
pub built_later :
    (s : Store) (slot : Slot) (o q : ℕ)
    → Linked s
    → mem q (s.back slot o) ≡ true
    → (o < q) × (q < s.next)
built_later s slot o q h m =
    let back = h.back_of slot o q in
    let listed : mem q s.actions ≡ true = ground arith in
    (h.older q slot o listed (ground arith), h.known q listed)

abbrev pub GoneIf : Option ℕ → Store → Type 0
GoneIf q s = (x : ℕ) → q ≡ some x → IsGone x s

-- What is listed in a smaller store was listed before.
pub listed_before :
    (slot : Slot) (o x : ℕ) (s s' : Store)
    → Linked s
    → Shrinks s s'
    → mem x (s'.back slot o) ≡ true
    → (mem x (s.back slot o) ≡ true) × (mem x s'.actions ≡ true)
listed_before slot o x s s' h r listed =
    let after = r.linked.back_of slot o x in
    let before = h.back_of slot o x in
    let there : mem x s'.actions ≡ true = ground arith in
    (rw before (ground (arith, r.fewer x there, r.same_links x)), there)

pub none_listed : (xs : List ℕ) → ((x : ℕ) → mem x xs ≡ false) → xs ≡ []
unfolding mem
none_listed [] h = refl
none_listed (x ∷ xs) h = let gone = h x in cc (==-refl x)

single_first : (xs : List ℕ) (x : ℕ) → length xs ≤ 1 → mem x xs ≡ true → first xs ≡ some x
unfolding mem
single_first [] x h m = cc
single_first (y ∷ []) x h m = let e : x ≡ y = ground arith in rw e refl
single_first (y ∷ z ∷ xs) x h m = absurd (omega arith)

-- A single field is None once what it held is gone.
pub emptied :
    (slot : Slot) (o : ℕ) (s s' : Store)
    → is_single slot ≡ true
    → Linked s
    → Shrinks s s'
    → GoneIf (first (s.back slot o)) s'
    → s'.back slot o ≡ []
emptied slot o s s' one h r gone = none_listed (s'.back slot o) (λ x.
    elim (Bool-cases (mem x (s'.back slot o))) [
      | inr absent ↦ absent
      | inl listed ↦
          let (before, there) = listed_before slot o x s s' h r listed in
          cc (gone x (single_first (s.back slot o) x (h.at_most_one slot o one) before))
    ])

-- What is built on `o` is not encrypted.
abbrev pub IsPlain : ℕ → Store → Type 0
IsPlain o s =
    (q : ℕ) → mem q (s.back constructed_device o) ≡ true → is_dm_crypt (s.object q).kind ≡ false

pub IsPlain-IsStable : (o : ℕ) (s s' : Store) → Linked s → Shrinks s s' → IsPlain o s → IsPlain o s'
IsPlain-IsStable o s s' h r plain q m =
    rw (r.same_kind q) (plain q (listed_before constructed_device o q s s' h r m).0)

pub plain_constructed :
    (o q : ℕ) (s : Store)
    → IsPlain o s
    → first (s.back constructed_device o) ≡ some q
    → get_constructed_device o s ≡ some q
unfolding get_constructed_device
plain_constructed o q s plain e =
    ap
      (λ (m : Option ℕ). elim m [
        | none ↦ none
        | some cd ↦
            if is_dm_crypt (s.object cd).kind && not (is_dm_crypt (s.object o).kind)
            then first (s.back constructed_device cd)
            else some cd
      ])
      e
    ∙ rw (plain q (first-mem (s.back constructed_device o) q e)) refl

-- Nothing is on `o` any more, where `s` has no encrypted device on it.
abbrev pub IsCleared : ℕ → Store → Store → Type 0
IsCleared o s s' = (s'.back fs o ≡ []) × (IsPlain o s → s'.back constructed_device o ≡ [])

built_later_twice :
    (o x : ℕ) (s : Store) (m : Option ℕ) (skips : ℕ → Bool)
    → Linked s
    → first (s.back constructed_device o) ≡ m
    → elim m [
      | none ↦ none
      | some cd ↦ if skips cd then first (s.back constructed_device cd) else some cd
    ]
      ≡ some x
    → (o < x) × (x < s.next)
built_later_twice o x s none skips h e k = cc
built_later_twice o x s (some cd) skips h e k =
    let below =
      built_later s constructed_device o cd h (first-mem (s.back constructed_device o) cd e) in
    elim (Bool-cases (skips cd)) [
      | inl skipped ↦
          let k' : first (s.back constructed_device cd) ≡ some x = rw skipped at k in
          let above =
            built_later s constructed_device cd x h
              (first-mem (s.back constructed_device cd) x k') in
          (omega (arith, below.0, above.0), above.1)
      | inr same ↦ let k' : some cd ≡ some x = rw same at k in let e : cd ≡ x = cc in rw (← e) below
    ]

pub constructed_later :
    (o x : ℕ) (s : Store) → Linked s → get_constructed_device o s ≡ some x → (o < x) × (x < s.next)
unfolding get_constructed_device
constructed_later o x s h =
    built_later_twice o x s (first (s.back constructed_device o))
      (λ cd. is_dm_crypt (s.object cd).kind && not (is_dm_crypt (s.object o).kind)) h refl
