-- ===== src/A2/Pcb.antt =====
-- a2/pcb.h and a2/pcb.c: the process control block and its page table.
-- The counter `pid_counter` is passed in and out of `generate_pid` and `make_pcb`.
pub mod Pages
use comp310_assignments.Prelude.{
  ℕ, zero, suc, ◌+◌, ◌-◌, ◌*◌, ◌/◌, Bool, true, false, List, [], ◌∷◌, Text, ltb, if◌then◌else◌,
}
use comp310_assignments.Prelude.Int.{ℤ, pos, ◌+ℤ◌, ◌-ℤ◌, div_ℤ}

-- `struct PAGE`; the flags `loaded` and `executed` are ints.
pub record Page : Type 0 where
  pub start : ℕ
  pub end : ℕ
  pub loaded : ℕ
  pub executed : ℕ
  pub last_used : ℕ

-- `PCB`. Only `endof_file` and `full_size` can be negative (the shell's own process has the
-- end 0, and an empty file ends before it starts).
pub record Pcb : Type 0 where
  pub priority : Bool
  pub pid : ℕ
  pub pc : ℕ
  pub start : ℕ
  pub end : ℕ
  pub job_length_score : ℕ
  pub pt : List Page
  pub endof_file : ℤ
  pub temp_size : ℕ
  pub full_size : ℤ
  pub filename : Text

-- `return pid_counter++;`: the pid, and the counter after the call.
unfoldable pub generate_pid : ℕ → ℕ × ℕ
generate_pid counter = (counter, counter + 1)

-- The body of the loop of `makePCB`: a page that holds lines, and an unused one.
unfoldable pub used_page : ℕ → Page
used_page s = record { start = s; end = s + 2; loaded = 1; executed = 0; last_used = 0 }

unfoldable pub unused_page : Page
unused_page = record { start = 0; end = 0; loaded = 0; executed = 0; last_used = 0 }

-- `for (i = ...; i < 30; i++)` with `rounds` rounds left; `newstart` grows by 3 in each round that
-- fills a page.
unfoldable pub init_pages : (rounds i numofpages newstart : ℕ) → List Page
init_pages zero i numofpages newstart = []
init_pages (suc n) i numofpages newstart =
    (if ltb i numofpages then used_page newstart else unused_page)
    ∷ init_pages n (i + 1) numofpages (if ltb i numofpages then newstart + 3 else newstart)

abbrev pub page_table_length : ℕ
page_table_length = 30

-- `end` is at least `start`: `load_file` gives the first and the last line that it wrote.
unfoldable pub make_pcb : (start end : ℕ) → ℤ → Text → (counter : ℕ) → Pcb × ℕ
unfolding generate_pid
make_pcb start end acc_end filename counter =
    let (pid, counter') = generate_pid counter in
    let numofpages = (end - start) / 3 + 1 in
    (
      record {
        priority = false;
        pid = pid;
        pc = start;
        start = start;
        end = end;
        job_length_score = 1 + end - start;
        pt = init_pages page_table_length 0 numofpages start;
        endof_file = acc_end;
        temp_size = numofpages;
        full_size = div_ℤ (acc_end -ℤ pos start) 3 +ℤ pos 1;
        filename = filename;
      },
      counter',
    )
