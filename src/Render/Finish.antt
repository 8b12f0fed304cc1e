-- ===== src/Render/Finish.antt =====
-- How the loop of _render_actions ends, and with which actions.
use subiquity.Base.{
  ℕ, zero, suc, ◌+◌, ◌-◌, ◌*◌, ◌≤◌, ◌<◌, ◌≡◌, refl, inl, inr, Bool, true, false, not, ◌||◌, List,
  [], ◌∷◌, arith, all, Bool-cases, ◌⊎◌, length, filter,
}
use subiquity.Render.Ids.{
  mem, Within, IsNodup, same_ids, all-true, all-false, count_in, count_in-le, count_in-lt,
  count_in_mono,
}
use subiquity.Render.{
  Objects, run_round, run_rounds, Rendered, done, no_progress, out_of_fuel, initial_work, Mode,
  for_api,
}
use subiquity.Render.Emit.{IsClosed}
use subiquity.Render.Pass.{IsRound, round_keeps, round_keeps_r, run_round-IsRound}

-- The rounds end with a list that holds `r` and `work`, no object twice, or with the exception.
abbrev pub Ends : List ℕ → List ℕ → Rendered → Type 0
Ends r work (done out) = Within r out × Within work out × IsNodup out
Ends r work (no_progress stuck) = Unit
Ends r work out_of_fuel = ⊥

Ends-step :
    (r work r' next : List ℕ) (out : Rendered)
    → Within r r'
    → ((x : ℕ) → mem x work ≡ true → (mem x r' || mem x next) ≡ true)
    → Ends r' next out
    → Ends r work out
Ends-step r work r' next (no_progress s) keep split h = tt
Ends-step r work r' next out_of_fuel keep split h = h
Ends-step r work r' next (done out) keep split h = (
  λ x k. h.0 x (keep x k),
  λ x k. elim (Bool-cases (mem x r')) [
    | inl written ↦ h.0 x written
    | inr left ↦ h.1 x (ground (arith, split x k))
  ],
  h.2,
)

module _ (m : Objects) (univ : List ℕ) (closed : IsClosed m univ) where
  abbrev pub IsStart : List ℕ → List ℕ → Type 0
  IsStart work r = IsRound work univ r [] work

  -- The next round begins as this one did.
  pub restart : (work r next : List ℕ) → IsRound work univ r next [] → IsStart next r
  unfolding mem
  restart work r next h = record {
    next_fresh = λ x k. cc;
    next_past = λ x k. cc;
    rest_nodup = h.next_nodup;
    rest_fresh = h.next_fresh;
    next_nodup = tt;
    rest_of = λ x k. k;
    next_known = λ x k. cc;
    work_known = h.next_known;
    r_nodup = h.r_nodup;
  }

  -- A round that is not stuck writes an object out, or else finds a new one.
  progress :
      (work r : List ℕ)
      → IsStart work r
      → let (r', next) = run_round m work r [] work in
        same_ids next work ≡ false
        → (count_in r univ < count_in r' univ)
          ⊎ ((count_in r univ ≤ count_in r' univ) × (count_in work univ < count_in next univ))
  unfolding same_ids
  progress work r h moved =
      let (r', next) = run_round m work r [] work in
      let over = run_round-IsRound m work univ closed work r [] h in
      let keep = round_keeps_r m work univ closed work r [] in
      elim (Bool-cases (all (λ y. mem y next) work)) [
        | inl stays ↦
            let (x, listed, new) = all-false (λ y. mem y work) next (ground arith) in
            inr (
              count_in_mono r r' univ keep,
              count_in-lt work next univ x (all-true (λ y. mem y next) work stays)
                  (over.next_known x listed) listed new,
            )
        | inr leaves ↦
            let (x, listed, gone) = all-false (λ y. mem y next) work leaves in
            let kept = round_keeps m work univ closed work r [] x (rw listed refl) in
            inl (
              count_in-lt r r' univ x keep (h.work_known x listed) (ground arith)
                (h.rest_fresh x listed))
      ]

  abbrev pub rounds_left : List ℕ → List ℕ → ℕ
  rounds_left r work =
      (length univ - count_in r univ) * suc (length univ) + (length univ - count_in work univ)

  pub fewer :
      (work r : List ℕ) (fuel : ℕ)
      → IsStart work r
      → let (r', next) = run_round m work r [] work in
        same_ids next work ≡ false → rounds_left r work < suc fuel → rounds_left r' next < fuel
  fewer work r fuel h moved enough =
      let (r', next) = run_round m work r [] work in
      let n = length univ in
      let a = count_in-le r' univ in
      let b = count_in-le next univ in
      let c = count_in-le r univ in
      elim (progress work r h moved) [
        | inl more ↦
            let scaled : suc (n - count_in r' univ) * suc n ≤ (n - count_in r univ) * suc n =
              grind arith in
            omega arith
        | inr (same, more) ↦
            let scaled : (n - count_in r' univ) * suc n ≤ (n - count_in r univ) * suc n =
              grind arith in
            omega arith
      ]

  pub rounds-Ends :
      (fuel : ℕ) (r work : List ℕ)
      → IsStart work r
      → rounds_left r work < fuel
      → Ends r work (run_rounds m fuel r work)
  unfolding run_rounds mem
  rounds-Ends zero r work h enough = absurd (omega arith)
  rounds-Ends (suc fuel) r [] h enough = ((λ x k. k), (λ x k. cc), h.r_nodup)
  rounds-Ends (suc fuel) r (x ∷ xs) h enough =
      let work = x ∷ xs in
      let (r', next) = run_round m work r [] work in
      elim (Bool-cases (same_ids next work)) [
        | inl stuck ↦ rw stuck tt
        | inr moved ↦ rw moved (
            Ends-step r work r' next (run_rounds m fuel r' next)
              (round_keeps_r m work univ closed work r [])
              (λ y k. round_keeps m work univ closed work r [] y (rw k refl))
              (rounds-Ends fuel r' next
                (restart work r' next (run_round-IsRound m work univ closed work r [] h))
                (fewer work r fuel h moved enough)))
      ]

module _ (p : ℕ → Bool) where
  filter-Within : (xs : List ℕ) → Within (filter p xs) xs
  unfolding mem
  filter-Within [] x k = k
  filter-Within (y ∷ ys) x k = elim (Bool-cases (p y)) [
    | inl keeps ↦ ground (arith, filter-Within ys x)
    | inr drops ↦ ground (arith, filter-Within ys x)
  ]

  filter-IsNodup : (xs : List ℕ) → IsNodup xs → IsNodup (filter p xs)
  filter-IsNodup [] h = tt
  filter-IsNodup (y ∷ ys) h = elim (Bool-cases (p y)) [
    | inl keeps ↦ rw keeps (ground (arith, filter-Within ys y), filter-IsNodup ys h.1)
    | inr drops ↦ rw drops (filter-IsNodup ys h.1)
  ]

pub initial_work-actions : (m : Objects) (mode : Mode) → Within (initial_work m mode) m.actions
unfolding initial_work
initial_work-actions m for_api x k = k
initial_work-actions m _ x k = filter-Within (λ x. not (m.object x).preserve) m.actions x k

pub initial_work-IsNodup :
    (m : Objects) (mode : Mode) → IsNodup m.actions → IsNodup (initial_work m mode)
unfolding initial_work
initial_work-IsNodup m for_api h = h
initial_work-IsNodup m _ h = filter-IsNodup (λ x. not (m.object x).preserve) m.actions h

-- The first round begins as it should.
pub initial_work-IsStart :
    (m : Objects) (univ : List ℕ) (mode : Mode) (closed : IsClosed m univ)
    → IsNodup m.actions
    → IsStart m univ closed (initial_work m mode) []
unfolding mem
initial_work-IsStart m univ mode closed nodup = record {
  next_fresh = λ x k. cc;
  next_past = λ x k. cc;
  rest_nodup = initial_work-IsNodup m mode nodup;
  rest_fresh = λ x k. refl;
  next_nodup = tt;
  rest_of = λ x k. k;
  next_known = λ x k. cc;
  work_known = λ x k. closed.of_actions x (initial_work-actions m mode x k);
  r_nodup = tt;
}

-- Where the ids that the objects name are all in `univ` and the actions have different ids, the loop
-- ends within (n + 1) * (n + 1) rounds, n the length of `univ`: with a list that holds the actions
-- to render, no object twice, or with the exception that no progress was made.
pub run_rounds-Ends :
    (m : Objects) (univ : List ℕ) (mode : Mode) (fuel : ℕ)
    → IsClosed m univ
    → IsNodup m.actions
    → suc (length univ) * suc (length univ) ≤ fuel
    → Ends [] (initial_work m mode) (run_rounds m fuel [] (initial_work m mode))
run_rounds-Ends m univ mode fuel closed nodup enough =
    let work = initial_work m mode in
    let n = length univ in
    let product : n * suc n + n < suc n * suc n = grind arith in
    let scaled : (n - count_in [] univ) * suc n ≤ n * suc n = grind arith in
    rounds-Ends m univ closed fuel [] work (initial_work-IsStart m univ mode closed nodup)
      (omega arith)
