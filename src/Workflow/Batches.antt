-- ===== src/Workflow/Batches.antt =====
-- The batches of `_step_batches` of engine/workflow/orchestrator.py.
use conductor_engine.Base.{
  ℕ, zero, suc, ◌≤◌, String, ◌≡◌, refl, ap, sym, List, [], ◌∷◌, ◌++◌, Option, none, some, Bool,
  true, false, length, arith, if◌then◌else◌, all,
}
use mathlib.Core.Path.{subst}
use conductor_engine.Workflow.{
  PlanStep, in_group, split_group, companions, batches_in, step_batches,
}

abbrev pub flatten : List (List PlanStep) → List PlanStep
flatten [] = []
flatten (batch ∷ rest) = batch ++ flatten rest

-- Whether the first step belongs to a group.
abbrev pub starts_in : String → List PlanStep → Bool
starts_in group [] = false
starts_in group (step ∷ steps) = in_group group step.parallel_group

-- The steps of a batch behind its first, whose group is given, and the steps behind the batch: a
-- step without a group is alone, and one with a group has the steps of the group that follow it,
-- all of them.
abbrev pub IsBatch : Option String → List PlanStep → (later : List PlanStep) → Type 0
IsBatch none more later = more ≡ []
IsBatch (some group) more later =
    (all (λ step. in_group group step.parallel_group) more ≡ true) × (starts_in group later ≡ false)

abbrev pub IsBatched : List (List PlanStep) → Type 0
IsBatched [] = Unit {0}
IsBatched ([] ∷ rest) = ⊥
IsBatched ((step ∷ more) ∷ rest) = IsBatch step.parallel_group more (flatten rest) × IsBatched rest

-- A batch and the rest into which steps are split.
abbrev Splits : Option String → List PlanStep → List PlanStep × List PlanStep → Type 0
Splits group steps (batch, rest) =
    (batch ++ rest ≡ steps) × (length rest ≤ length steps) × IsBatch group batch rest

split_step :
    (b : Bool) (g : String) (step : PlanStep) (steps : List PlanStep)
    (p : List PlanStep × List PlanStep)
    → in_group g step.parallel_group ≡ b
    → Splits (some g) steps p
    → Splits (some g) (step ∷ steps) (if b then (step ∷ p.0, p.1) else ([], step ∷ steps))
split_step true g step steps p e (same, less, (grouped, ends)) =
    (ap (λ l. step ∷ l) same, omega arith, (simp e grouped, ends))
split_step false g step steps p e (same, less, batch) = (refl, omega arith, (refl, e))

split_group-Splits :
    (g : String) (steps : List PlanStep) → Splits (some g) steps (split_group g steps)
unfolding split_group
split_group-Splits g [] = (refl, omega arith, (refl, refl))
split_group-Splits g (step ∷ steps) =
    split_step _ g step steps (split_group g steps) refl (split_group-Splits g steps)

companions-Splits :
    (group : Option String) (steps : List PlanStep) → Splits group steps (companions group steps)
unfolding companions
companions-Splits none steps = (refl, omega arith, refl)
companions-Splits (some g) steps = split_group-Splits g steps

batches_in-IsBatched :
    (turns : ℕ) (steps : List PlanStep)
    → length steps ≤ turns
    → (flatten (batches_in turns steps) ≡ steps) × IsBatched (batches_in turns steps)
unfolding batches_in
batches_in-IsBatched zero [] le = (refl, tt)
batches_in-IsBatched zero (step ∷ steps) le = absurd (omega arith)
batches_in-IsBatched (suc turns) [] le = (refl, tt)
batches_in-IsBatched (suc turns) (step ∷ steps) le =
    let (same, less, batch) = companions-Splits step.parallel_group steps in
    let rest = (companions step.parallel_group steps).1 in
    let (flat, batched) = batches_in-IsBatched turns rest (omega arith) in
    (
      rw flat (ap (λ l. step ∷ l) same),
      (
        subst (λ l. IsBatch step.parallel_group (companions step.parallel_group steps).0 l)
            (sym flat) batch,
        batched,
      ),
    )

-- The batches are a partition of the steps in their order: put behind each other they are the
-- steps, no batch is empty, a step without a parallel group is a batch by itself, and a batch of a
-- group holds only steps of that group and is not followed by another step of it.
pub step_batches-IsBatched :
    (steps : List PlanStep)
    → (flatten (step_batches steps) ≡ steps) × IsBatched (step_batches steps)
unfolding step_batches
step_batches-IsBatched steps = batches_in-IsBatched (length steps) steps (omega arith)
