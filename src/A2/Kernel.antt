-- ===== src/A2/Kernel.antt =====
-- execute_process of a2/kernel.c. The interpreter is the argument `parse_input`. What C gives no meaning
-- to is `undefined`: a line at a place that is not in the array, a line that getIndex does not find, a line
-- of which no loaded page holds the place, or a table whose pages are all loaded, behind which the loops
-- read on.
pub mod Paging
pub mod Schedulers
pub mod Pages
pub mod Lines
pub mod Execute
pub mod Sjf
pub mod Policies
pub mod Initialize
use comp310_assignments.Prelude.{
  ℕ, zero, suc, ◌+◌, ◌-◌, Bool, true, false, ◌&&◌, ◌||◌, not, List, [], ◌∷◌, Option, none, some,
  Text, streq, none_text, ltb, leb, ◌==◌, if◌then◌else◌, get_or,
}
use comp310_assignments.Prelude.Int.{ℤ, pos, negsuc}
use comp310_assignments.ShellMemory.{Store}
use comp310_assignments.A2.Memory.{
  Read, null, text, out_of_bounds, mem_get_value_at_line, getvariable, get_index,
}
use comp310_assignments.A2.Pcb.{Page, Pcb, unused_page}
use comp310_assignments.A2.ReadyQueue.{QueueNode, max_int}
use comp310_assignments.A2.Shell.{
  Shell, Outcome, returned, exited, undefined, out_of_fuel, ◌>>=◌, defined,
}

-- How many pages `for (i = 0; pt[i]->loaded == 1; i++)` goes over.
unfoldable pub loaded_pages : List Page → Option ℕ
loaded_pages [] = none
loaded_pages (p ∷ ps) = elim (p.loaded == 1) [
  | false ↦ some 0
  | true ↦ elim (loaded_pages ps) [ none ↦ none | some n ↦ some (suc n) ]
]

-- The last of `n` pages, from number `z` on, that has the place.
unfoldable pub frame_of : (index n z : ℕ) → List Page → Option ℕ
frame_of index zero z ps = none
frame_of index (suc n) z [] = none
frame_of index (suc n) z (p ∷ ps) = elim (frame_of index n (z + 1) ps) [
  | some k ↦ some k
  | none ↦ if leb p.start index && leb index p.end then some z else none
]

-- A change of `n` pages, from number `z` on.
unfoldable pub change_pages : (ℕ → Page → Page) → (n z : ℕ) → List Page → List Page
change_pages change zero z ps = ps
change_pages change (suc n) z [] = []
change_pages change (suc n) z (p ∷ ps) = change z p ∷ change_pages change n (z + 1) ps

-- At the end of a page: the page is marked, and with all lines to run the others grow older.
unfoldable pub mark_page : (quanta framenumber k : ℕ) → Page → Page
mark_page quanta framenumber k p =
    if k == framenumber
    then record p { executed = 1 }
    else if quanta == max_int
    then record p { last_used = p.last_used + 1 }
    else p

-- The executed pages but the one in use grow older.
unfoldable pub age_page : (framenumber k : ℕ) → Page → Page
age_page framenumber k p =
    if p.executed == 1 && not (k == framenumber)
    then record p { last_used = p.last_used + 1 }
    else p

-- `temp_size < full_size` and `temp_size == full_size`
unfoldable pub is_below : ℕ → ℤ → Bool
is_below n (pos m) = ltb n m
is_below n (negsuc m) = false

unfoldable pub is_equal : ℕ → ℤ → Bool
is_equal n (pos m) = n == m
is_equal n (negsuc m) = false

module _ (frame_size var_size : ℕ) where
  -- What a round does before it runs the line: the line, the number of its page, and the process.
  unfoldable pub fetch : (quanta : ℕ) → QueueNode → Store → Option (Text × ℕ × QueueNode)
  fetch quanta node m = elim (mem_get_value_at_line frame_size var_size (pos node.pcb.pc) m) [
    | null ↦ none
    | text line ↦ elim (get_index frame_size var_size line m) [
      | none ↦ none
      | some index ↦ elim (loaded_pages node.pcb.pt) [
        | none ↦ none
        | some n ↦ elim (frame_of index n 0 node.pcb.pt) [
          | none ↦ none
          | some framenumber ↦
              let at_end = (get_or node.pcb.pt framenumber unused_page).end == node.pcb.pc in
              some (
                line,
                framenumber,
                record node {
                  pcb = record (node.pcb) {
                    pc = node.pcb.pc + 1;
                    priority = false;
                    pt =
                        if at_end
                        then change_pages (mark_page quanta framenumber) n 0 node.pcb.pt
                        else node.pcb.pt;
                  };
                },
              )
        ]
      ]
    ]
    | out_of_bounds ↦ none
  ]

  -- Behind the last line that is in memory; `i` is the round, and `last` tells whether `node->next` is
  -- NULL. 4 and 2 ask for another page.
  unfoldable pub end_of_lines :
      {W : Type 0}
      → (i framenumber : ℕ) → (last : Bool) → QueueNode
      → Shell W
      → Outcome W (ℕ × QueueNode × Shell W)
  end_of_lines i framenumber last node sh = elim (loaded_pages node.pcb.pt) [
    | none ↦ undefined
    | some n ↦
        let node' : QueueNode = record node {
          pcb = record (node.pcb) { pt = change_pages (age_page framenumber) n 0 node.pcb.pt };
        } in
        elim (getvariable frame_size var_size (pos 5) sh.memory) [
          | null ↦ undefined
          | text v ↦
              let more = is_below node.pcb.temp_size node.pcb.full_size in
              let done = is_equal node.pcb.temp_size node.pcb.full_size in
              elim ((i == 0 && more)
                || ((last && more) || ((not (streq v none_text) && last) && done))) [
                  | true ↦ returned (if i == 0 then 4 else 2, node', sh)
                  | false ↦ returned (1, node', record sh { in_background = false })
                ]
          | out_of_bounds ↦ undefined
        ]
  ]

  module _ {W : Type 0} (parse_input : Text → Shell W → Outcome W (ℤ × Shell W)) where
    -- The loop, with its rounds left and the number of the next one.
    unfoldable pub execute_lines :
        (rounds i quanta : ℕ)
        → (last : Bool) → QueueNode
        → Shell W
        → Outcome W (ℕ × QueueNode × Shell W)
    execute_lines zero i quanta last node sh = returned (0, node, sh)
    execute_lines (suc n) i quanta last node sh = elim (fetch quanta node sh.memory) [
      | none ↦ undefined
      | some (line, framenumber, node1) ↦ do
        (code, sh1) ← parse_input line (record sh { in_background = true })
        elim (ltb node1.pcb.end node1.pcb.pc) [
          | true ↦ end_of_lines i framenumber last node1 sh1
          | false ↦ execute_lines n (i + 1) quanta last node1 (record sh1 { in_background = false })
        ]
    ]

    -- The value with the process behind the call.
    unfoldable pub execute_process :
        (last : Bool) → QueueNode → (quanta : ℕ) → Shell W → Outcome W (ℕ × QueueNode × Shell W)
    execute_process last node quanta sh = execute_lines quanta 0 quanta last node sh
