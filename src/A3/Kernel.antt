-- ===== src/A3/Kernel.antt =====
-- a3/kernel.c: processes in a ready queue, and the pages in memory from the one used last to the one
-- used least recently. A `PCB *` is a number, behind which `pcbs` has the process; a `PAGE *` is such a
-- number with the page's index in the table. The three lists are given by their values, which is what
-- A3.LinkedList shows its operations to be. `none` is `exit(99)`, or an access to what is not there.
pub mod Fault
pub mod Pids
pub mod RoundRobin
pub mod Fifo
pub mod Turns
use comp310_assignments.Prelude.{
  ℕ, zero, suc, ◌+◌, ◌-◌, Bool, true, false, List, [], ◌∷◌, ◌++◌, Option, none, some, Text, ltb,
  ◌==◌, if◌then◌else◌, length, set, get_or, get_elem?,
}
use comp310_assignments.Prelude.Int.{ℤ, pos, negsuc}
use comp310_assignments.ShellMemory.{Store}
use comp310_assignments.A3.Pcb.{
  Page, Pcb, page_at, line_at, load_page, page_evict, page_equal, pcb_init, pcb_done, free_pages,
}
use comp310_assignments.A3.Pcb.Lines.{bit_at}
use comp310_assignments.A3.Cpu.{Counters, cpu_run}

-- A page in the table of a process.
pub record PageRef : Type 0 where
  pub owner : ℕ
  pub number : ℕ

-- The globals, what is behind the pointers, the memory, and the pages that were printed.
pub record Kernel : Type 0 where
  pub queue : List ℕ
  pub lru_cache : List PageRef
  pub all_pcb : List ℕ
  pub pid_counter : ℕ
  pub pcbs : ℕ → Pcb
  pub memory : Store
  pub output : List (List Text)

abbrev pub put_pcb : ℕ → Pcb → (ℕ → Pcb) → ℕ → Pcb
put_pcb a pcb pcbs b = if a == b then pcb else pcbs b

abbrev pub page_of : PageRef → Kernel → Page
page_of r s = page_at (s.pcbs r.owner) r.number

unfoldable pub is_one : ℤ → Bool
is_one (pos n) = n == 1
is_one (negsuc n) = false

-- `kernel_setup`; the counter starts at 1.
unfoldable pub kernel_setup : (ℕ → Pcb) → Store → Kernel
kernel_setup pcbs memory = record {
  queue = [];
  lru_cache = [];
  all_pcb = [];
  pid_counter = 1;
  pcbs = pcbs;
  memory = memory;
  output = [];
}

-- `pop_tail`
unfoldable pub pop_last : List PageRef → Option (PageRef × List PageRef)
pop_last [] = none
pop_last (r ∷ rs) = elim (pop_last rs) [
  | none ↦ some (r, [])
  | some (victim, rest) ↦ some (victim, r ∷ rest)
]

-- `remove_elem` with `PAGE_equal`
unfoldable pub remove_page : Page → List PageRef → Kernel → Option (PageRef × List PageRef)
remove_page page [] s = none
remove_page page (r ∷ rs) s = elim (page_equal page (page_of r s)) [
  | true ↦ some (r, rs)
  | false ↦ elim (remove_page page rs s) [
    | none ↦ none
    | some (found, rest) ↦ some (found, r ∷ rest)
  ]
]

-- The walk along ALL_PCB to the process with a pid.
unfoldable pub find_owner : (pid : ℕ) → List ℕ → (ℕ → Pcb) → Option ℕ
find_owner pid [] pcbs = none
find_owner pid (a ∷ rest) pcbs = elim ((pcbs a).pid == pid) [
  | true ↦ some a
  | false ↦ find_owner pid rest pcbs
]

-- A page is loaded where `load_PAGE` can do it; otherwise nothing changes.
unfoldable pub try_load : (border i a : ℕ) → Kernel → Bool × Kernel
try_load border i a s = elim (load_page border i (s.pcbs a) s.memory) [
  | none ↦ (false, s)
  | some (m, pcb) ↦ (true, record s { pcbs = put_pcb a pcb s.pcbs; memory = m })
]

-- The page used least recently is evicted.
unfoldable pub evict_victim : Kernel → Option Kernel
evict_victim s = elim (pop_last s.lru_cache) [
  | none ↦ none
  | some (victim, rest) ↦ elim (find_owner (page_of victim s).page_pid s.all_pcb s.pcbs) [
    | none ↦ none
    | some b ↦
        let (printed, m, pcb) = page_evict (page_of victim s).page_index (s.pcbs b) s.memory in
        some (record s {
          lru_cache = rest;
          pcbs = put_pcb b pcb s.pcbs;
          memory = m;
          output = s.output ++ (printed ∷ []);
        })
  ]
]

-- The page is made the one used last, and the process is put back into the queue.
unfoldable pub requeue : (a i : ℕ) → Kernel → Kernel
requeue a i s = record s {
  lru_cache = record { owner = a; number = i } ∷ s.lru_cache;
  queue = s.queue ++ (a ∷ []);
}

unfoldable pub page_fault : (border a i : ℕ) → Kernel → Option Kernel
page_fault border a i s =
    let (loaded, s1) = try_load border i a s in
    elim loaded [
      | true ↦ some (requeue a i s1)
      | false ↦ elim (evict_victim s1) [
        | none ↦ none
        | some s2 ↦ some (requeue a i (try_load border i a s2).1)
      ]
    ]

-- What a run without a page fault does to the cache.
unfoldable pub touch_page : (a i : ℕ) → Kernel → Option Kernel
touch_page a i s = elim (remove_page (page_at (s.pcbs a) i) s.lru_cache s) [
  | none ↦ none
  | some (r, rest) ↦ some (record s { lru_cache = r ∷ rest })
]

-- The pages `i` and on of a new process, each put at the head.
unfoldable pub add_pages : (rounds i a : ℕ) → List PageRef → List PageRef
add_pages zero i a l = l
add_pages (suc n) i a l = add_pages n (i + 1) a (record { owner = a; number = i } ∷ l)

-- `new_proc` of a file's text, or of a file that cannot be opened; `fresh` is what `malloc` gives.
unfoldable pub new_proc : (border fresh : ℕ) → Option Text → Kernel → Option Kernel
new_proc border fresh script s = elim (pcb_init border s.pid_counter script s.memory) [
  | none ↦ none
  | some (m, pcb) ↦
      let size = length pcb.page_table in
      let page_limit = if ltb size 2 then size else 2 in
      some (record s {
        pid_counter = s.pid_counter + 1;
        all_pcb = s.all_pcb ++ (fresh ∷ []);
        queue = s.queue ++ (fresh ∷ []);
        pcbs = put_pcb fresh pcb s.pcbs;
        lru_cache = add_pages page_limit 0 fresh s.lru_cache;
        memory = m;
      })
]
