-- ===== src/Outbox/Shutdown.antt =====
-- The end of the process: onModuleDestroy of
-- src/shared/modules/outbox/providers/outbox-cron.processor.ts.
use dispatch_api.Prelude.{
  ℕ, zero, suc, ◌≡◌, refl, true, false, ◌∙◌, ap, Option, none, some, List, [], ◌∷◌, arith,
  if◌then◌else◌, Bool-cases, inl, inr,
}
use dispatch_api.World.{World, ok}
use dispatch_api.Guard.{transaction}
use dispatch_api.Outbox.Cron.{process_work, process}
use dispatch_api.Outbox.Drained.{cycles}

abbrev pub set_shutting_down : World → World
set_shutting_down w = record w { is_shutting_down = true }

-- `while (this.isProcessing)`: what others do in each wait of 100 ms is a function of the list. `none` is
-- a cycle that is still running after all of them.
unfoldable pub wait_for_cycle : List (World → World) → World → Option World
wait_for_cycle [] w = if w.is_processing then none else some w
wait_for_cycle (others ∷ waits) w =
    let rest = wait_for_cycle waits (others w) in if w.is_processing then rest else some w

-- onModuleDestroy
unfoldable pub on_module_destroy : List (World → World) → World → Option World
unfolding wait_for_cycle
on_module_destroy waits w = wait_for_cycle waits (set_shutting_down w)

-- Nobody takes the flag of the end back.
abbrev pub KeepsFlag : List (World → World) → Type 0
KeepsFlag [] = Unit
KeepsFlag (others ∷ waits) =
    ((w : World) → w.is_shutting_down ≡ true → (others w).is_shutting_down ≡ true) × KeepsFlag waits

abbrev pub after_waits : List (World → World) → World → World
after_waits [] w = w
after_waits (others ∷ waits) w = after_waits waits (others w)

-- A wait that has ended has seen the cycle end.
unfoldable Ended : List (World → World) → World → Type 0
Ended waits w =
    (w' : World) × (wait_for_cycle waits w ≡ some w')
    × (w'.is_processing ≡ false)
    × (w'.is_shutting_down ≡ true)

wait_ends :
    (waits : List (World → World)) (w : World)
    → KeepsFlag waits
    → w.is_shutting_down ≡ true
    → (after_waits waits w).is_processing ≡ false
    → Ended waits w
unfolding Ended wait_for_cycle
wait_ends [] w keeps down idle = (w, rw idle refl, idle, down)
wait_ends (others ∷ waits) w keeps down idle = elim (Bool-cases w.is_processing) [
  | inl busy ↦
      let (w', ends, free, flag) = wait_ends waits (others w) keeps.1 (keeps.0 w down) idle in
      (w', ap (λ b. if b then wait_for_cycle waits (others w) else some w) busy ∙ ends, free, flag)
  | inr free ↦ (w, ap (λ b. if b then wait_for_cycle waits (others w) else some w) free, free, down)
]

process_stopped : (w : World) → w.is_shutting_down ≡ true → process w ≡ (ok tt, w)
unfolding process process_work transaction
process_stopped w down = ground (arith, down)

cycles_stopped : (n : ℕ) (w : World) → w.is_shutting_down ≡ true → cycles n w ≡ w
unfolding cycles
cycles_stopped zero w down = refl
cycles_stopped (suc n) w down =
    ap (λ p. cycles n p.1) (process_stopped w down) ∙ cycles_stopped n w down

-- The end of the process waits for a running cycle: if it is over after some waits, however the rest of
-- the process goes on, the wait ends in a state in which no cycle runs, and all later cycles do nothing.
pub shutdown_ends :
    (waits : List (World → World)) (n : ℕ) (w : World)
    → KeepsFlag waits
    → (after_waits waits (set_shutting_down w)).is_processing ≡ false
    → (w' : World) × (on_module_destroy waits w ≡ some w')
      × (w'.is_processing ≡ false)
      × (cycles n w' ≡ w')
unfolding Ended on_module_destroy
shutdown_ends waits n w keeps idle =
    let (w', ends, free, down) = wait_ends waits (set_shutting_down w) keeps refl idle in
    (w', ends, free, cycles_stopped n w' down)
