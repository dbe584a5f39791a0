-- ===== src/Capture/Steps/Laws.antt =====
-- What a sequence of operations keeps, and what it has done where it is finished.
use homecluster_infra.Base.{ℕ, suc, ◌≡◌, refl, sym, ap, subst, ◌∙◌, String, List, [], ◌∷◌}
use homecluster_infra.Capture.Steps.{
  Effect, Fate, Ending, finished, raised, killed, Step, effect, after_step, run_steps,
}

-- Endings differ.
abbrev HasFinished : Ending → Type 0
HasFinished Ending.finished = Unit
HasFinished (Ending.raised reason) = ⊥
HasFinished Ending.killed = ⊥

pub not_raised : {reason : String} → ¬ (raised reason ≡ finished)
not_raised h = subst HasFinished (sym h) tt

pub not_killed : ¬ (killed ≡ finished)
not_killed h = subst HasFinished (sym h) tt

module _ {S : Type 0} where
  -- All of the operations done.
  abbrev pub all_done : List (Step S) → S → S
  all_done [] s = s
  all_done (step ∷ steps) s = all_done steps (step.1 s)

  after_step-finished :
      (fate : Fate) (step : Step S) (s : S) (rest : S × Ending)
      → (after_step fate step s rest).1 ≡ finished
      → after_step fate step s rest ≡ rest
  after_step-finished Fate.succeeds step s rest h = refl
  after_step-finished (Fate.raises how reason) step s rest h = absurd (not_raised h)
  after_step-finished (Fate.dies how) step s rest h = absurd (not_killed h)

  pub run_steps-finished :
      (fate : ℕ → Fate) (i : ℕ) (steps : List (Step S)) (s : S)
      → (run_steps fate i steps s).1 ≡ finished
      → run_steps fate i steps s ≡ (all_done steps s, finished)
  unfolding run_steps
  run_steps-finished fate i [] s h = refl
  run_steps-finished fate i (step ∷ steps) s h =
      let rest = run_steps fate (suc i) steps (step.1 s) in
      let same = after_step-finished (fate i) step s rest h in
      same
      ∙ run_steps-finished fate (suc i) steps (step.1 s)
          (ap (λ (r : S × Ending). r.1) (sym same) ∙ h)

  module _ (P : S → Type 0) where
    -- An operation keeps a property, cut off or not.
    abbrev pub Keeps : Step S → Type 0
    Keeps step = (s : S) → P s → P (step.0 s) × P (step.1 s)

    abbrev pub AllKeep : List (Step S) → Type 0
    AllKeep [] = Unit
    AllKeep (step ∷ steps) = Keeps step × AllKeep steps

    effect-keeps :
        (how : Effect) (step : Step S) (s : S)
        → P s
        → P (step.0 s)
        → P (step.1 s)
        → P (effect how step s)
    effect-keeps Effect.nothing step s before begun after = before
    effect-keeps Effect.begun step s before begun after = begun
    effect-keeps Effect.everything step s before begun after = after

    after_step-keeps :
        (fate : Fate) (step : Step S) (s : S) (rest : S × Ending)
        → P s
        → P (step.0 s)
        → P (step.1 s)
        → P rest.0
        → P (after_step fate step s rest).0
    after_step-keeps Fate.succeeds step s rest before begun after later = later
    after_step-keeps (Fate.raises how reason) step s rest before begun after later =
        effect-keeps how step s before begun after
    after_step-keeps (Fate.dies how) step s rest before begun after later =
        effect-keeps how step s before begun after

    pub run_steps-keeps :
        (fate : ℕ → Fate) (i : ℕ) (steps : List (Step S)) (s : S)
        → AllKeep steps
        → P s
        → P (run_steps fate i steps s).0
    unfolding run_steps
    run_steps-keeps fate i [] s all holds = holds
    run_steps-keeps fate i (step ∷ steps) s (this, all) holds =
        let (begun, after) = this s holds in
        after_step-keeps (fate i) step s (run_steps fate (suc i) steps (step.1 s)) holds begun after
          (run_steps-keeps fate (suc i) steps (step.1 s) all after)

    -- The first operation keeps it where the sequence starts.
    pub run_steps-keeps_first :
        (fate : ℕ → Fate) (i : ℕ) (step : Step S) (steps : List (Step S)) (s : S)
        → P s
        → P (step.0 s)
        → P (step.1 s)
        → AllKeep steps
        → P (run_steps fate i (step ∷ steps) s).0
    unfolding run_steps
    run_steps-keeps_first fate i step steps s before begun after all =
        after_step-keeps (fate i) step s (run_steps fate (suc i) steps (step.1 s)) before begun
          after (run_steps-keeps fate (suc i) steps (step.1 s) all after)
