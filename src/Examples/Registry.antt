-- ===== src/Examples/Registry.antt =====
-- The registry of preparations of g502x_onboard/application/persistent.py, at a concrete interleaving.
use g502x_onboard.Base.{ℕ, ◌≤◌, ◌≡◌, refl, Bool, true, List, [], ◌∷◌, ◌==◌, length}
use g502x_onboard.Persistent.Registry.{
  IssuedId, LockBlock, registering, screening, claiming, finishing, run_steps, empty_registry,
}
use g502x_onboard.Persistent.Registry.Once.{IsOnce, run_steps-IsOnce}
use g502x_onboard.Persistent.Registry.Bounds.{run_steps-Bounded}

abbrev all_alive : ℕ → Bool
all_alive owner = true

abbrev equal_number : ℕ → ℕ → Bool
equal_number a b = a == b

-- Owner 7 prepares twice and claims both; the second claim comes too early and is made again, and the
-- first id is claimed once more.
abbrev two_executions : List ((ℕ → Bool) × LockBlock ℕ ℕ)
two_executions =
    (all_alive, registering 7 "apply" 1 10)
    ∷ (all_alive, registering 7 "apply" 2 20)
    ∷ (all_alive, screening 7 ("apply", 0) 1)
    ∷ (all_alive, claiming 7 ("apply", 0) 1)
    ∷ (all_alive, claiming 7 ("apply", 1) 2)
    ∷ (all_alive, finishing ("apply", 0))
    ∷ (all_alive, claiming 7 ("apply", 0) 1)
    ∷ (all_alive, claiming 7 ("apply", 1) 2)
    ∷ []

both_accepted :
    (run_steps equal_number two_executions ([], empty_registry)).0
    ≡ ("apply", 1) ∷ ("apply", 0) ∷ []
unfolding run_steps g502x_onboard.Persistent.Registry.run_block
    g502x_onboard.Persistent.Registry.claim g502x_onboard.Persistent.Registry.finish_accepted
    g502x_onboard.Persistent.Registry.accept g502x_onboard.Persistent.Registry.lookup_id
    g502x_onboard.Persistent.Registry.reclaim_dead g502x_onboard.Persistent.Registry.keep_where
    g502x_onboard.Persistent.Registry.retire g502x_onboard.Persistent.Registry.register
    g502x_onboard.Persistent.Registry.make_room g502x_onboard.Persistent.Registry.mark
    g502x_onboard.Persistent.Registry.delete_id
both_accepted = refl

run_steps-IsOnce_example : IsOnce (run_steps equal_number two_executions ([], empty_registry)).0
run_steps-IsOnce_example = run_steps-IsOnce equal_number two_executions

run_steps-Bounded_example :
    (length (run_steps equal_number two_executions ([], empty_registry)).1.preparations ≤ 32)
    × (length (run_steps equal_number two_executions ([], empty_registry)).1.tombstones ≤ 128)
run_steps-Bounded_example = run_steps-Bounded equal_number two_executions
