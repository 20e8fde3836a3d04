-- ===== src/A3/Kernel/Fifo/Repeat.antt =====
-- run_proc_FIFO finds its line by the valid bits, which running it does not change.
use comp310_assignments.Prelude.{
  ℕ, ◌-◌, ◌≡◌, ◌≢◌, ap, ◌∙◌, false, some, Text, arith, inl, inr, Option-cases,
}
use comp310_assignments.Prelude.Int.{ℤ}
use comp310_assignments.ShellMemory.{Store}
use comp310_assignments.A3.Pcb.{Pcb, page_at}
use comp310_assignments.A3.Pcb.Lines.{bit_at}
use comp310_assignments.A3.Cpu.{cpu_run}
use comp310_assignments.A3.Kernel.{Kernel, is_one, touch_page, remove_page}
use comp310_assignments.A3.Kernel.RoundRobin.{run_line, run_proc}
use comp310_assignments.A3.Kernel.Fifo.{first_valid}

touch_page-pcbs : (a i : ℕ) (s s' : Kernel) → touch_page a i s ≡ some s' → s'.pcbs ≡ s.pcbs
unfolding touch_page
touch_page-pcbs a i s s' e =
    elim (Option-cases (remove_page (page_at (s.pcbs a) i) s.lru_cache s)) [
      | inl fails ↦ absurd (ground arith)
      | inr ((r, rest), found) ↦ ground arith
    ]

module _ (parse_input : Text → Store → ℤ × Store) (border : ℕ) where
  run_line-page_table :
      (a i k : ℕ) (s : Kernel)
      → ((run_line parse_input border a i k s).1.pcbs a).page_table ≡ (s.pcbs a).page_table
  unfolding run_line
  run_line-page_table a i k s = ground arith

  run_line-size :
      (a i k : ℕ) (s : Kernel)
      → bit_at (page_at (s.pcbs a) i) k ≢ 0
      → ((run_line parse_input border a i k s).1.pcbs a).size ≡ (s.pcbs a).size - 1
  unfolding run_line cpu_run
  run_line-size a i k s valid = ground arith

  run_proc-touch :
      (a i k r : ℕ) (s s' : Kernel)
      → is_one (run_line parse_input border a i k s).0 ≡ false
      → run_proc parse_input border a i k s ≡ some (r, s')
      → touch_page a i (run_line parse_input border a i k s).1 ≡ some s'
  unfolding run_proc
  run_proc-touch a i k r s s' hit e =
      elim (Option-cases (touch_page a i (run_line parse_input border a i k s).1)) [
        | inl fails ↦ absurd (ground arith)
        | inr (s1, done) ↦ ground arith
      ]

  -- A line that `run_proc_FIFO` runs without a fault uses up one line of the process, but the next round
  -- finds the same place of the same page again, whatever the program counter is by then.
  pub run_proc-first_valid :
      (a i k r : ℕ) (s s' : Kernel)
      → bit_at (page_at (s.pcbs a) i) k ≢ 0
      → first_valid 0 (s.pcbs a).page_table ≡ some (i, k)
      → is_one (run_line parse_input border a i k s).0 ≡ false
      → run_proc parse_input border a i k s ≡ some (r, s')
      → (first_valid 0 (s'.pcbs a).page_table ≡ some (i, k))
        × ((s'.pcbs a).size ≡ (s.pcbs a).size - 1)
  run_proc-first_valid a i k r s s' valid found hit e =
      let kept =
        touch_page-pcbs a i (run_line parse_input border a i k s).1 s'
          (run_proc-touch a i k r s s' hit e) in
      (
        ap (λ (p : ℕ → Pcb). first_valid 0 (p a).page_table) kept
            ∙ ap (first_valid 0) (run_line-page_table a i k s)
            ∙ found,
        ap (λ (p : ℕ → Pcb). (p a).size) kept ∙ run_line-size a i k s valid,
      )
