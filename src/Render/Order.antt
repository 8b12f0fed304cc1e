-- ===== src/Render/Order.antt =====
-- The order of the rendered actions.
use mathlib.Core.List.{append-nil, append_assoc}
use subiquity.Base.{ℕ, zero, suc, ◌≡◌, subst, inl, inr, List, [], ◌∷◌, ◌++◌, Bool-cases}
use subiquity.Render.Ids.{same_ids}
use subiquity.Render.{Objects, can_emit, run_round, Rendered, done, run_rounds, Mode, initial_work}
use subiquity.Render.Emit.{IsReady, can_emit-IsReady}

-- Each object of the list has all that it needs in `seen` or in front of it.
abbrev pub IsOrdered : Objects → List ℕ → List ℕ → Type 0
IsOrdered m seen [] = Unit
IsOrdered m seen (x ∷ xs) = IsReady m seen x × IsOrdered m (seen ++ x ∷ []) xs

abbrev OnDone : (List ℕ → Type 0) → Rendered → Type 0
OnDone P (done r) = P r
OnDone P _ = Unit

module _ (m : Objects) where
  IsOrdered-snoc :
      (xs seen : List ℕ) (x : ℕ)
      → IsOrdered m seen xs
      → IsReady m (seen ++ xs) x
      → IsOrdered m seen (xs ++ x ∷ [])
  IsOrdered-snoc [] seen x h k = (rw append-nil at k, tt)
  IsOrdered-snoc (y ∷ ys) seen x h k =
      (h.0, IsOrdered-snoc ys (seen ++ y ∷ []) x h.1 (rw append_assoc k))

  run_round-IsOrdered :
      (work rest r next : List ℕ)
      → IsOrdered m [] r
      → IsOrdered m [] (run_round m work r next rest).0
  unfolding run_round
  run_round-IsOrdered work [] r next h = h
  run_round-IsOrdered work (y ∷ rest) r next h =
      let (ready, next') = can_emit m r work y next in
      elim (Bool-cases ready) [
        | inl now ↦ rw now (
            run_round-IsOrdered work rest (r ++ y ∷ []) next'
              (IsOrdered-snoc r [] y h (can_emit-IsReady m r work [] y next now)))
        | inr later ↦ rw later (run_round-IsOrdered work rest r (next' ++ y ∷ []) h)
      ]

  pub run_rounds-IsOrdered :
      (fuel : ℕ) (r work out : List ℕ)
      → IsOrdered m [] r
      → run_rounds m fuel r work ≡ done out
      → IsOrdered m [] out
  unfolding run_rounds
  run_rounds-IsOrdered fuel r [] out h e = subst (λ (a : Rendered). OnDone (IsOrdered m []) a) e h
  run_rounds-IsOrdered zero r (x ∷ xs) out h e = cc
  run_rounds-IsOrdered (suc fuel) r (x ∷ xs) out h e =
      let work = x ∷ xs in
      let (r', next) = run_round m work r [] work in
      elim (Bool-cases (same_ids next work)) [
        | inl stuck ↦ cc (rw stuck at e)
        | inr moved ↦
            run_rounds-IsOrdered fuel r' next out (run_round-IsOrdered work work r [] h)
              (rw moved at e)
      ]

-- In what the loop returns, each action stands behind all that it needs: the objects that it refers
-- to, the partitions of its device with lower numbers, and for each parent directory of its own path
-- the last mount whose path is, as it is written, the text of that directory.
pub rendered-IsOrdered :
    (m : Objects) (mode : Mode) (fuel : ℕ) (out : List ℕ)
    → run_rounds m fuel [] (initial_work m mode) ≡ done out
    → IsOrdered m [] out
rendered-IsOrdered m mode fuel out e = run_rounds-IsOrdered m fuel [] (initial_work m mode) out tt e
