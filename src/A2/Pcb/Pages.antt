-- ===== src/A2/Pcb/Pages.antt =====
-- The page table that `makePCB` builds: which page holds which line.
use comp310_assignments.Prelude.{
  ℕ, zero, suc, ◌+◌, ◌-◌, ◌*◌, ◌/◌, ◌≤◌, ◌<◌, ◌≡◌, refl, some, arith, Text, get_elem?, ltb,
  if◌then◌else◌,
}
use comp310_assignments.Prelude.Int.{ℤ}
use comp310_assignments.A2.Pcb.{
  Page, used_page, unused_page, init_pages, page_table_length, make_pcb,
}

get_elem?-init_pages :
    (n i numofpages newstart k : ℕ)
    → k < n
    → i + k < numofpages
    → get_elem? (init_pages n i numofpages newstart) k ≡ some (used_page (newstart + 3 * k))
unfolding init_pages
get_elem?-init_pages zero i p s k h q = absurd (omega arith)
get_elem?-init_pages (suc n) i p s zero h q = ground arith
get_elem?-init_pages (suc n) i p s (suc k) h q =
    ground (arith, get_elem?-init_pages n (i + 1) p (s + 3) k)

get_elem?-init_pages_unused :
    (n i numofpages newstart k : ℕ)
    → k < n
    → numofpages ≤ i + k
    → get_elem? (init_pages n i numofpages newstart) k ≡ some unused_page
unfolding init_pages
get_elem?-init_pages_unused zero i p s k h q = absurd (omega arith)
get_elem?-init_pages_unused (suc n) i p s zero h q = ground arith
get_elem?-init_pages_unused (suc n) i p s (suc k) h q =
    ground (arith, get_elem?-init_pages_unused n (i + 1) p (if ltb i p then s + 3 else s) k)

-- Every line of the process, `start` to `end`, lies in the loaded page `(line - start) / 3` of the new
-- process's page table, if the process has at most 90 lines in memory.
pub make_pcb-page_of_line :
    (start end : ℕ) (acc_end : ℤ) (filename : Text) (counter line : ℕ)
    → start ≤ line
    → line ≤ end
    → end < start + 90
    → (p : Page) × (get_elem?
          (make_pcb start end acc_end filename counter).0.pt
          ((line - start) / 3)
        ≡ some p)
      × (p.loaded ≡ 1)
      × (p.start ≤ line)
      × (line ≤ p.end)
unfolding make_pcb used_page
make_pcb-page_of_line start end acc_end filename counter line lo hi fits = (
  used_page (start + 3 * ((line - start) / 3)),
  get_elem?-init_pages 30 0 ((end - start) / 3 + 1) start ((line - start) / 3) (omega arith)
      (omega arith),
  refl,
  omega arith,
  omega arith,
)

-- The entries of the new page table from `temp_size` on are not loaded.
pub make_pcb-unloaded :
    (start end : ℕ) (acc_end : ℤ) (filename : Text) (counter k : ℕ)
    → (make_pcb start end acc_end filename counter).0.temp_size ≤ k
    → k < page_table_length
    → get_elem? (make_pcb start end acc_end filename counter).0.pt k ≡ some unused_page
unfolding make_pcb
make_pcb-unloaded start end acc_end filename counter k above below =
    get_elem?-init_pages_unused 30 0 ((end - start) / 3 + 1) start k below (omega arith)
