-- ===== src/A2/Kernel/Paging.antt =====
-- load_page of a2/kernel.c: the next lines of a program are put into the frames, in place of the victim
-- page where no page is free. `none` is what C gives no meaning to: the file cannot be opened, a line that
-- getIndex does not find, no page that is not loaded, or no line left to read. A start below 0, which two
-- equal lines can lead to, is `none` too.
use comp310_assignments.Prelude.{
  ℕ, zero, suc, ◌+◌, ◌-◌, ◌*◌, Bool, true, false, ◌&&◌, not, List, [], ◌∷◌, ◌++◌, Option, none,
  some, Text, codes, ltb, leb, ◌==◌, if◌then◌else◌, length, get_or, set,
}
use comp310_assignments.Prelude.Int.{pos}
use comp310_assignments.Prelude.Stdio.{fgets}
use comp310_assignments.ShellMemory.{Store}
use comp310_assignments.A2.Memory.{
  null, text, out_of_bounds, mem_get_value_at_line, mem_free_lines_between, mem_full_or_new_start,
  get_index,
}
use comp310_assignments.A2.Memory.Place.{mem_set_line}
use comp310_assignments.A2.Pcb.{Page, unused_page}
use comp310_assignments.A2.ReadyQueue.{QueueNode}

-- The variables of the loop; `place` is `removefrom` and `index` is as in the source, with no value at
-- first. `printed` is what was printed.
pub record Loading : Type 0 where
  pub memory : Store
  pub count : ℕ
  pub freed : Bool
  pub place : ℕ
  pub index : Option ℕ
  pub printed : Text

-- `lastused` is reset when its lines are freed; it stays loaded.
unfoldable pub reset_page : Page → Page
reset_page p = record p { end = 0; executed = 0; start = 0; last_used = 0 }

-- `while (pt[k]->loaded != 0) k++;`
unfoldable pub first_unloaded : ℕ → List Page → Option ℕ
first_unloaded k [] = none
first_unloaded k (p ∷ ps) = elim (p.loaded == 0) [
  | true ↦ some k
  | false ↦ first_unloaded (k + 1) ps
]

-- The page and the process behind the loop, where the last line is at `place`.
unfoldable pub fill_page : (place count : ℕ) → QueueNode → Option QueueNode
fill_page place count node =
    if ltb (place + 1) count then none else elim (first_unloaded 0 node.pcb.pt) [
      | none ↦ none
      | some k ↦
          let start = place + 1 - count in
          let page = record (get_or node.pcb.pt k unused_page) {
            start = start;
            end = place;
            loaded = 1;
          } in
          some (record node {
            pcb = record (node.pcb) {
              pt = set node.pcb.pt k page;
              temp_size = node.pcb.temp_size + 1;
              pc = start;
              end = place;
            };
          })
    ]

module _ (frame_size var_size : ℕ) where
  -- What is printed of the victim's lines from `i` on.
  unfoldable pub print_lines : (rounds i : ℕ) → Store → Option Text
  print_lines zero i m = some []
  print_lines (suc n) i m = elim (mem_get_value_at_line frame_size var_size (pos i) m) [
    | null ↦ none
    | text t ↦ elim (print_lines n (i + 1) m) [ none ↦ none | some rest ↦ some (t ++ rest) ]
    | out_of_bounds ↦ none
  ]

  -- The memory is full: the lines of the victim are printed and freed.
  unfoldable pub free_victim : (removefrom removeto : ℕ) → Loading → Option Loading
  free_victim removefrom removeto s =
      elim (print_lines (removeto + 1 - removefrom) removefrom s.memory) [
        | none ↦ none
        | some lines ↦ some (record s {
          memory = mem_free_lines_between frame_size var_size removefrom removeto s.memory;
          freed = true;
          printed =
              s.printed
              ++ codes "Page fault! Victim page contents:\n"
              ++ lines
              ++ codes "End of victim page contents.\n";
        })
      ]

  -- The victim goes only before the first line, and only once.
  unfoldable pub make_room : (removefrom removeto : ℕ) → Loading → Option Loading
  make_room removefrom removeto s = elim (mem_full_or_new_start frame_size var_size s.memory) [
    | some start ↦ some s
    | none ↦ if not s.freed && (s.count == 0) then free_victim removefrom removeto s else some s
  ]

  -- Where the next line goes; the count has been increased. `none` is the index -1.
  unfoldable pub next_place : Loading → Option ℕ
  next_place s = elim s.freed [
    | true ↦ some s.place
    | false ↦
        if ltb 1 s.count
        then elim s.index [ none ↦ none | some i ↦ some (i + 1) ]
        else mem_full_or_new_start frame_size var_size s.memory
  ]

  unfoldable pub store_line : (filename line : Text) → Loading → Option Loading
  store_line filename line s0 =
      let s : Loading = record s0 { count = s0.count + 1 } in
      elim (next_place s) [
        | none ↦ none
        | some place ↦ elim (mem_set_line frame_size var_size filename line place s.memory) [
          | none ↦ none
          | some m ↦ elim (get_index frame_size var_size line m) [
            | none ↦ none
            | some i ↦ some (record s {
              memory = m;
              place = if s.freed && ltb 1 s.count then s.place + 1 else s.place;
              index = some i;
            })
          ]
        ]
      ]

  -- The loop over the file's lines: `line_no` of them were read, of which the first `read_before` were
  -- loaded earlier. On fuel, of which one round for each character of the file and one more are enough.
  unfoldable pub load_lines :
      ℕ
      → (filename : Text) → (removefrom removeto read_before line_no : ℕ) → Text
      → Loading
      → Option Loading
  load_lines zero filename removefrom removeto read_before line_no file s = none
  load_lines (suc f) filename removefrom removeto read_before line_no file s =
      elim (fgets 101 file) [
        | none ↦ some s
        | some (line, rest) ↦ elim (ltb read_before (line_no + 1) && ltb s.count 3) [
          | true ↦ elim (make_room removefrom removeto s) [
            | none ↦ none
            | some s1 ↦ elim (store_line filename line s1) [
              | none ↦ none
              | some s2 ↦
                  load_lines f filename removefrom removeto read_before (line_no + 1) rest s2
            ]
          ]
          | false ↦ elim (leb 3 s.count) [
            | true ↦ some s
            | false ↦ load_lines f filename removefrom removeto read_before (line_no + 1) rest s
          ]
        ]
      ]

  -- The loop from its start, for a file's text and the victim's place.
  unfoldable pub load_from :
      (filename file : Text) → (recentsize removefrom removeto : ℕ) → Store → Option Loading
  load_from filename file recentsize removefrom removeto m =
      load_lines (length file + 1) filename removefrom removeto (recentsize * 3) 0 file (record {
        memory = m;
        count = 0;
        freed = false;
        place = removefrom;
        index = none;
        printed = [];
      })

  -- What happens to the process behind the loop, whose own page `victim` was freed or not.
  unfoldable pub take_page : (victim : ℕ) → Loading → QueueNode → Option QueueNode
  take_page victim s node = elim s.freed [
    | true ↦
        let page = reset_page (get_or node.pcb.pt victim unused_page) in
        fill_page s.place s.count
          (record node { pcb = record (node.pcb) { pt = set node.pcb.pt victim page } })
    | false ↦ elim s.index [ none ↦ none | some i ↦ fill_page i s.count node ]
  ]

  -- `load_page` for a victim among the process's own pages: the process, the memory and what was printed.
  unfoldable pub load_page :
      (recentsize : ℕ)
      → (file : Option Text) → QueueNode
      → (victim : ℕ) → Store
      → Option (QueueNode × Store × Text)
  load_page recentsize none node victim m = none
  load_page recentsize (some file) node victim m =
      let page = get_or node.pcb.pt victim unused_page in
      elim (load_from node.pcb.filename file recentsize page.start page.end m) [
        | none ↦ none
        | some s ↦ elim (take_page victim s node) [
          | none ↦ none
          | some node' ↦ some (node', s.memory, s.printed)
        ]
      ]
