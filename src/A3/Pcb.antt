-- ===== src/A3/Pcb.antt =====
-- a3/pcb.c and a3/cpu.c: processes, whose scripts are read into frames of three lines page by page.
-- A `FILE *` is the text that is still to be read; a page table and the arrays of a page are lists. A
-- page is named by its index in the table: the source calls all these functions within the table.
pub mod Tables
pub mod Evict
pub mod Lines
pub mod Load
use comp310_assignments.Prelude.{
  ℕ, zero, suc, ◌+◌, ◌-◌, ◌*◌, ◌/◌, ◌%◌, Bool, true, false, not, ◌&&◌, List, [], ◌∷◌, ◌++◌, Option,
  none, some, Text, ltb, leb, ◌==◌, if◌then◌else◌, length, set, get_or, replicate,
}
use comp310_assignments.Prelude.Stdio.{newline, fgets, digits}
use comp310_assignments.ShellMemory.{Store}
use comp310_assignments.A3.Memory.{
  mem_free_at, mem_set_value_at, mem_get_value_at, frame_alloc, clear_frame,
}

pub record Page : Type 0 where
  pub index : List ℕ
  pub valid_bit : List ℕ
  pub page_index : ℕ
  pub page_pid : ℕ

-- `size` counts the lines that are still to run. The source also decrements it at 0; it is only ever
-- compared with 0 and 1 from above, where 0 and a negative number are the same.
pub record Pcb : Type 0 where
  pub pid : ℕ
  pub size : ℕ
  pub program_counter : List ℕ
  pub page_table : List Page
  pub source_file : Text

-- `sprintf(pid_str, "%d", pid)`: a pid has at most `pid + 1` digits.
unfoldable pub pid_str : ℕ → Text
unfolding digits
pid_str pid = digits (pid + 1) pid []

abbrev pub blank_page : ℕ → ℕ → Page
blank_page pid i = record {
  index = 1000 ∷ 1000 ∷ 1000 ∷ [];
  valid_bit = 0 ∷ 0 ∷ 0 ∷ [];
  page_index = i;
  page_pid = pid;
}

unfoldable pub page_init : (page_pid page_table_index : ℕ) → Page
page_init page_pid page_table_index = blank_page page_pid page_table_index

unfoldable pub page_table_size : ℕ → ℕ
page_table_size lines = if lines % 3 == 0 then lines / 3 else lines / 3 + 1

-- The loop of `count_lines`: the count at the end, from the count and the last character.
unfoldable pub count_from : (count last : ℕ) → Text → ℕ
count_from count last [] = count
count_from count last (c ∷ t) =
    count_from (if c == newline && not (last == newline) then count + 1 else count) c t

-- `count_lines` of a script that can be opened.
unfoldable pub count_lines : Text → ℕ
count_lines script = count_from 0 newline script + 1

-- `PCB->page_table[i]`
abbrev pub page_at : Pcb → ℕ → Page
page_at pcb i = get_or pcb.page_table i (blank_page 0 0)

-- `page->index[j]`
abbrev pub line_at : Page → ℕ → ℕ
line_at page j = get_or page.index j 0

-- A line is put into the slot of the page's place `j`, and its valid bit set.
unfoldable pub put_line : Text → ℕ → Text → Page → Store → Store × Page
put_line pid j line page m =
    let (m', bit) = mem_set_value_at (line_at page j) pid line m in
    (m', record page { valid_bit = set page.valid_bit j bit })

-- The loop of `load_PAGE`, which a missing line ends.
unfoldable pub load_lines : Text → (rounds j : ℕ) → Page → Text → Store → Store × Page × Text
load_lines pid zero j page source m = (m, page, source)
load_lines pid (suc n) j page source m = elim (fgets 999 source) [
  | none ↦ (m, page, source)
  | some (line, rest) ↦
      let (m', page') = put_line pid j line page m in load_lines pid n (j + 1) page' rest m'
]

-- `none` is the return value 1: there is no free frame, and nothing has changed.
unfoldable pub load_page : (border : ℕ) → ℕ → Pcb → Store → Option (Store × Pcb)
load_page border i pcb m = elim (frame_alloc border (pid_str pcb.pid) m) [
  | none ↦ none
  | some (m', frame) ↦
      let page = record (page_at pcb i) { index = frame.index; valid_bit = frame.valid_bit } in
      let (m'', page', rest) = load_lines (pid_str pcb.pid) 3 0 page pcb.source_file m' in
      some (m'', record pcb { page_table = set pcb.page_table i page'; source_file = rest })
]

-- The loop of `PAGE_evict`: what it prints, the memory and the page.
unfoldable pub evict_lines : (rounds i : ℕ) → Page → Store → List Text × Store × Page
evict_lines zero i page m = ([], m, page)
evict_lines (suc n) i page m =
    let line = mem_get_value_at (line_at page i) m in
    let m' = mem_free_at (line_at page i) m in
    let page' = record page { index = set page.index i 0; valid_bit = set page.valid_bit i 0 } in
    let (lines, m'', page'') = evict_lines n (i + 1) page' m' in (line ∷ lines, m'', page'')

unfoldable pub page_evict : ℕ → Pcb → Store → List Text × Store × Pcb
page_evict i pcb m =
    let (lines, m', page) = evict_lines 3 0 (page_at pcb i) m in
    (lines, m', record pcb { page_table = set pcb.page_table i page })

-- `clear_frame(page_table[i]->index[j])` for each `j`
unfoldable pub free_page : Page → Store → Store
free_page page m =
    clear_frame (line_at page 2) (clear_frame (line_at page 1) (clear_frame (line_at page 0) m))

-- The memory behind `free_PCB`.
unfoldable pub free_pages : List Page → Store → Store
free_pages [] m = m
free_pages (page ∷ pages) m = free_pages pages (free_page page m)

-- The loop of `PCB_done`.
unfoldable pub done_from : List ℕ → Bool
done_from [] = true
done_from (c ∷ cs) = let rest = done_from cs in if c == 3 then rest else false

unfoldable pub pcb_done : Pcb → Bool
pcb_done pcb = done_from pcb.program_counter

unfoldable pub init_table : (pid : ℕ) → (rounds i : ℕ) → List Page
init_table pid zero i = []
init_table pid (suc n) i = page_init pid i ∷ init_table pid n (i + 1)

-- The loop that loads the first pages: its body is that of `load_PAGE`. `none` is `exit(99)`.
unfoldable pub load_pages : (border rounds i : ℕ) → Pcb → Store → Option (Store × Pcb)
load_pages border zero i pcb m = some (m, pcb)
load_pages border (suc n) i pcb m = elim (load_page border i pcb m) [
  | none ↦ none
  | some (m', pcb') ↦ load_pages border n (i + 1) pcb' m'
]

abbrev pub fresh_pcb : (pid : ℕ) → Text → Pcb
fresh_pcb pid script = record {
  pid = pid;
  size = count_lines script;
  program_counter = replicate (page_table_size (count_lines script)) 0;
  page_table = init_table pid (page_table_size (count_lines script)) 0;
  source_file = script;
}

-- The script is `none` where the file cannot be opened; the result is `none` where the program exits.
unfoldable pub pcb_init : (border pid : ℕ) → Option Text → Store → Option (Store × Pcb)
pcb_init border pid none m = none
pcb_init border pid (some script) m =
    let size = page_table_size (count_lines script) in
    let page_limit = if ltb size 2 then size else 2 in
    load_pages border page_limit 0 (fresh_pcb pid script) m

-- The comparisons that the lists of processes and pages use.
unfoldable pub pcb_equal : Pcb → Pcb → Bool
pcb_equal p1 p2 = p1.pid == p2.pid

unfoldable pub page_equal : Page → Page → Bool
page_equal p1 p2 = line_at p1 0 == line_at p2 0
