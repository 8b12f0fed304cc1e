-- ===== src/Render/Complete.antt =====
-- _render_actions where no object depends on itself.
use subiquity.Base.{
  ℕ, zero, suc, ◌*◌, ◌≤◌, ◌<◌, ◌≡◌, refl, inl, inr, true, List, [], ◌∷◌, arith, Bool-cases, length,
  ==-refl,
}
use subiquity.Render.Ids.{mem, Within, IsNodup, same_ids}
use subiquity.Render.{
  Objects, run_round, run_rounds, Rendered, done, no_progress, out_of_fuel, initial_work, Mode,
}
use subiquity.Render.Emit.{IsClosed}
use subiquity.Render.Pass.{round_keeps, run_round-IsRound}
use subiquity.Render.Finish.{Ends, IsStart, restart, run_rounds-Ends, initial_work-IsStart}
use subiquity.Render.Order.{IsOrdered, rendered-IsOrdered}
use subiquity.Render.Blocked.{needs, Mounted, not-stuck}

module _ (m : Objects) (univ : List ℕ) (closed : IsClosed m univ) (rank : ℕ → ℕ)
    (falls : (x y : ℕ) → mem y (needs m x) ≡ true → rank y < rank x) where
  always_moves :
      (fuel : ℕ) (r work stuck : List ℕ)
      → IsStart m univ closed work r
      → Mounted m r work
      → run_rounds m fuel r work ≡ no_progress stuck
      → ⊥
  unfolding run_rounds mem
  always_moves fuel r [] stuck h mounted e = cc
  always_moves zero r (x ∷ xs) stuck h mounted e = cc
  always_moves (suc fuel) r (x ∷ xs) stuck h mounted e =
      let work = x ∷ xs in
      let (r', next) = run_round m work r [] work in
      elim (Bool-cases (same_ids next work)) [
        | inl same ↦
            not-stuck m work univ closed rank falls r h mounted same (suc (rank x)) x (omega arith)
              (rw (==-refl x) refl)
        | inr moved ↦
            always_moves fuel r' next stuck
              (restart m univ closed work r' next
                (run_round-IsRound m work univ closed work r [] h))
              (λ z q k. round_keeps m work univ closed work r [] q (ground (arith, mounted z q k)))
              (rw moved at e)
      ]

-- The loop returned `out`: all that was to be rendered, nothing twice, in an order that curtin accepts.
abbrev pub IsResult : Objects → Mode → Rendered → List ℕ → Type 0
IsResult m mode rendered out =
    (rendered ≡ done out) × Within (initial_work m mode) out × IsNodup out × IsOrdered m [] out

result :
    (m : Objects) (mode : Mode) (fuel : ℕ) (o : Rendered)
    → run_rounds m fuel [] (initial_work m mode) ≡ o
    → Ends [] (initial_work m mode) o
    → ((stuck : List ℕ) → o ≡ no_progress stuck → ⊥)
    → (out : List ℕ) × IsResult m mode o out
result m mode fuel (done out) e h moves =
    (out, (refl, h.1, h.2, rendered-IsOrdered m mode fuel out e))
result m mode fuel (no_progress s) e h moves = absurd (moves s refl)
result m mode fuel out_of_fuel e h moves = absurd h

-- Take a model whose objects name only ids in `univ`, in which all that an object needs has a lower
-- rank, so that no object depends on itself, and for each parent directory of a mount's path the last
-- mount whose path is, as it is written, the text of that directory is to be rendered. Then
-- `_render_actions` never raises its exception: within (n + 1) * (n + 1) rounds, n the length of
-- `univ`, it returns a list with all the actions to render, none of them twice, in which each action
-- stands behind the objects that it refers to, the partitions of its device with lower numbers, and
-- those mounts.
pub run_rounds-Complete :
    (m : Objects) (univ : List ℕ) (mode : Mode) (fuel : ℕ) (rank : ℕ → ℕ)
    → IsClosed m univ
    → IsNodup m.actions
    → ((x y : ℕ) → mem y (needs m x) ≡ true → rank y < rank x)
    → Mounted m [] (initial_work m mode)
    → suc (length univ) * suc (length univ) ≤ fuel
    → (out : List ℕ) × IsResult m mode (run_rounds m fuel [] (initial_work m mode)) out
run_rounds-Complete m univ mode fuel rank closed nodup falls mounted enough =
    result m mode fuel (run_rounds m fuel [] (initial_work m mode)) refl
      (run_rounds-Ends m univ mode fuel closed nodup enough)
      (λ stuck e.
        always_moves m univ closed rank falls fuel [] (initial_work m mode) stuck
          (initial_work-IsStart m univ mode closed nodup) mounted e)
