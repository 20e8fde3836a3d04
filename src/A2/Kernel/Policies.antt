-- ===== src/A2/Kernel/Policies.antt =====
-- schedule_by_policy of a2/kernel.c is a table of policies.
use comp310_assignments.Prelude.{
  ℕ, ◌≡◌, List, [], ◌∷◌, Option, none, some, Text, codes, streq, arith, if◌then◌else◌,
}
use comp310_assignments.Prelude.Int.{ℤ}
use comp310_assignments.A2.Errors.{error_code}
use comp310_assignments.A2.Shell.{Os, Shell, Outcome, returned, ◌>>=◌}
use comp310_assignments.A2.Kernel.Schedulers.{
  scheduler_fcfs, scheduler_sjf, scheduler_aging, is_policy, run_policy, schedule_by_policy,
}

-- The first entry of a name.
abbrev pub entry_of : {B : Type 0} → Text → List (Text × B) → Option B
entry_of t [] = none
entry_of t ((name, b) ∷ es) = if streq t name then some b else entry_of t es

module _ {W : Type 0} (frame_size var_size : ℕ) (os : Os W)
    (parse_input : Text → Shell W → Outcome W (ℤ × Shell W))
    (scheduler_rr : (quanta : ℕ) → Shell W → Outcome W (Shell W)) (fuel : ℕ) where
  -- The policies and their schedulers.
  abbrev pub policies : List (Text × (Shell W → Outcome W (Shell W)))
  policies =
      (codes "FCFS", scheduler_fcfs frame_size var_size os parse_input fuel)
      ∷ (codes "SJF", scheduler_sjf frame_size var_size os parse_input fuel)
      ∷ (codes "RR", scheduler_rr 2)
      ∷ (codes "AGING", scheduler_aging frame_size var_size os parse_input fuel)
      ∷ (codes "RR30", scheduler_rr 30)
      ∷ []

  -- What is done with the entry of a policy.
  abbrev pub run_entry : Option (Shell W → Outcome W (Shell W)) → Shell W → Outcome W (ℕ × Shell W)
  run_entry none sh = returned (5, sh)
  run_entry (some scheduler) sh =
      if sh.in_background then returned (0, sh) else (scheduler sh >>= λ sh1. returned (0, sh1))

  -- `schedule_by_policy` looks the policy up in a table: a name that is none of the five gives the scheduling
  -- error 5; a known one gives 0, and nothing is done in the background, else its scheduler is run, RR with
  -- quanta of 2 and RR30 of 30 lines.
  pub schedule_by_policy_lem :
      (policy : Text) (sh : Shell W)
      → schedule_by_policy frame_size var_size os parse_input scheduler_rr fuel policy sh
        ≡ run_entry (entry_of policy policies) sh
  unfolding schedule_by_policy is_policy run_policy error_code
  schedule_by_policy_lem policy sh = ground arith
