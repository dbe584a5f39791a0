-- ===== src/Capture/Steps.antt =====
-- Sequences of file operations of security_capture.py, each of which may fail or be cut off.
pub mod Laws
use homecluster_infra.Base.{ℕ, suc, String, List, [], ◌∷◌}

-- How much of an operation has taken effect: nothing, what it does before its end, as the temporary
-- file of a `publish`, or all of it.
pub data Effect : Type 0 where
  nothing : Effect
  begun : Effect
  everything : Effect

-- What becomes of an operation: it succeeds; it raises; the process dies in it.
pub data Fate : Type 0 where
  succeeds : Fate
  raises : Effect → String → Fate
  dies : Effect → Fate

-- What becomes of a sequence.
pub data Ending : Type 0 where
  finished : Ending
  raised : String → Ending
  killed : Ending

-- What an operation leaves when it has begun, and when it is done.
abbrev pub Step {ℓ} : Type ℓ → Type ℓ
Step S = (S → S) × (S → S)

module _ {ℓ} {S : Type ℓ} where
  -- An operation of which nothing is seen before its end.
  abbrev pub at_once : (S → S) → Step S
  at_once f = (λ s. s, f)

  -- An operation that changes nothing here, and may raise.
  abbrev pub unchanged : Step S
  unchanged = (λ s. s, λ s. s)

  abbrev pub effect : Effect → Step S → S → S
  effect Effect.nothing step s = s
  effect Effect.begun step s = step.0 s
  effect Effect.everything step s = step.1 s

  -- One operation, `rest` being what the sequence comes to after it.
  abbrev pub after_step : Fate → Step S → S → S × Ending → S × Ending
  after_step Fate.succeeds step s rest = rest
  after_step (Fate.raises how reason) step s rest = (effect how step s, Ending.raised reason)
  after_step (Fate.dies how) step s rest = (effect how step s, Ending.killed)

  -- The operations in their order, the fate of the next one being that of `i`.
  unfoldable pub run_steps : (ℕ → Fate) → ℕ → List (Step S) → S → S × Ending
  run_steps fate i [] s = (s, Ending.finished)
  run_steps fate i (step ∷ steps) s =
      after_step (fate i) step s (run_steps fate (suc i) steps (step.1 s))
