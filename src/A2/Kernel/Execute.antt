-- ===== src/A2/Kernel/Execute.antt =====
-- execute_process runs the lines of a process one after the other.
pub mod Ends
use comp310_assignments.Prelude.{
  ℕ, zero, suc, ◌+◌, ◌-◌, ◌≤◌, ◌<◌, ◌≡◌, ◌≢◌, ◌↔◌, refl, ap, ◌∙◌, Bool, true, false, ◌∷◌, some,
  Text, arith, ltb, leb, if◌then◌else◌, length, inl, inr, Nat-order,
}
use comp310_assignments.Prelude.Int.{ℤ}
use comp310_assignments.ShellMemory.{slot_at}
use comp310_assignments.A2.Pcb.{Pcb}
use comp310_assignments.A2.ReadyQueue.{QueueNode}
use comp310_assignments.A2.Shell.{Shell, Outcome, returned}
use comp310_assignments.A2.Kernel.{fetch, end_of_lines, execute_lines, execute_process}
use comp310_assignments.A2.Kernel.Lines.{
  SameFrames, Runnable, Runnable-SameFrames, next_node, fetch-Runnable, lines_at,
  lines_at-SameFrames, set_background, run_listed,
}
use comp310_assignments.A2.Kernel.Execute.Ends.{
  KeepsFrames, QuietLines, QuietLines-SameFrames, Ran, end_of_lines-Ran,
}

module _ {W : Type 0} (frame_size var_size : ℕ) where
  module _ (Quiet : Text → Type 0) (parse_input : Text → Shell W → Outcome W (ℤ × Shell W))
      (h : KeepsFrames W frame_size var_size Quiet parse_input) (quanta : ℕ) (last : Bool) where
    round_end :
        (n i fn : ℕ) (line : Text) (node node1 : QueueNode) (sh : Shell W)
        → fetch frame_size var_size quanta node sh.memory ≡ some (line, fn, node1)
        → Quiet line
        → length sh.memory ≡ frame_size + var_size
        → ltb node1.pcb.end node1.pcb.pc ≡ true
        → execute_lines frame_size var_size parse_input (suc n) i quanta last node sh
          ≡ end_of_lines frame_size var_size i fn last node1 (h.after line (set_background true sh))
    unfolding execute_lines
    round_end n i fn line node node1 sh e q fits over =
        rw (e, h.returns line (set_background true sh) q fits, over, execute_lines) refl

    round_next :
        (n i fn : ℕ) (line : Text) (node node1 : QueueNode) (sh : Shell W)
        → fetch frame_size var_size quanta node sh.memory ≡ some (line, fn, node1)
        → Quiet line
        → length sh.memory ≡ frame_size + var_size
        → ltb node1.pcb.end node1.pcb.pc ≡ false
        → execute_lines frame_size var_size parse_input (suc n) i quanta last node sh
          ≡ execute_lines frame_size var_size parse_input n
              (i + 1)
              quanta
              last
              node1
              (set_background false (h.after line (set_background true sh)))
    unfolding execute_lines
    round_next n i fn line node node1 sh e q fits over =
        rw (e, h.returns line (set_background true sh) q fits, over, execute_lines) refl

    -- What a loop of `n` rounds gives that runs `k` lines.
    abbrev LoopRan : (n i k : ℕ) → QueueNode → Shell W → Type 0
    LoopRan n i k node sh =
        (r : ℕ) × (n ≤ node.pcb.end - node.pcb.pc → r ≡ 0)
        × (node.pcb.end - node.pcb.pc < n → r ≢ 0)
        × Ran (execute_lines frame_size var_size parse_input n i quanta last node sh) r
            (node.pcb.pc + k)
            (run_listed h.after (lines_at frame_size var_size sh.memory node.pcb.pc k) sh)

    execute_lines_lem :
        (n i k : ℕ) (node : QueueNode) (sh : Shell W)
        → Runnable frame_size var_size node.pcb sh.memory
        → QuietLines Quiet node.pcb sh.memory
        → length sh.memory ≡ frame_size + var_size
        → 5 < frame_size + var_size
        → node.pcb.pc ≤ node.pcb.end
        → k ≤ n
        → k ≤ node.pcb.end + 1 - node.pcb.pc
        → (k < n → k ≡ node.pcb.end + 1 - node.pcb.pc)
        → LoopRan n i k node sh
    unfolding execute_lines
    execute_lines_lem zero i zero node sh r quiet fits big le k1 k2 k3 = (
      0,
      (λ few. refl),
      (λ many. absurd (omega arith)),
      record { node = node; background = sh.in_background; result = refl; at_place = omega arith },
    )
    execute_lines_lem zero i (suc k) node sh r quiet fits big le k1 k2 k3 = absurd (omega arith)
    execute_lines_lem (suc n) i zero node sh r quiet fits big le k1 k2 k3 =
        absurd (omega (arith, k3 (omega arith)))
    execute_lines_lem (suc n) i (suc k) node sh r quiet fits big le k1 k2 k3 =
        let (pages, fn, fetched, r1) =
          fetch-Runnable frame_size var_size quanta node sh.memory fits r le in
        let line = (slot_at sh.memory node.pcb.pc).value in
        let node1 = next_node frame_size var_size quanta pages fn node in
        let sh1 = h.after line (set_background true sh) in
        let now = quiet node.pcb.pc (omega arith) le in
        let same = h.frames line (set_background true sh) now fits in
        elim (Nat-order (node.pcb.pc + 1) node.pcb.end) [
          | inl more ↦
              let going : ltb node1.pcb.end node1.pcb.pc ≡ false = ground arith in
              let (code, few, many, ran) =
                execute_lines_lem n (i + 1) k node1 (set_background false sh1)
                  (Runnable-SameFrames frame_size var_size node1.pcb sh.memory sh1.memory same r1)
                  (QuietLines-SameFrames Quiet frame_size var_size node1.pcb sh.memory sh1.memory
                    same r.inside (λ i lo hi. quiet i (omega arith) hi))
                  same.fits big more (omega arith) (omega arith)
                  (λ lt. omega (arith, k3 (omega arith))) in
              let lines =
                lines_at-SameFrames frame_size var_size sh.memory sh1.memory (node.pcb.pc + 1) k
                  same (omega (arith, r.inside)) in
              (
                code,
                (λ a. few (omega arith)),
                (λ a. many (omega arith)),
                record {
                  node = ran.node;
                  background = ran.background;
                  result =
                      round_next n i fn line node node1 sh fetched now fits going
                      ∙ ran.result
                      ∙ ap
                          (λ ls. returned (
                            code,
                            ran.node,
                            set_background ran.background
                                (run_listed h.after ls (set_background false sh1)),
                          ))
                          lines;
                  at_place = ran.at_place ∙ omega arith;
                },
              )
          | inr at_last ↦
              let over : ltb node1.pcb.end node1.pcb.pc ≡ true = ground arith in
              let (code, some_code, node', b, ended, place) =
                end_of_lines-Ran frame_size var_size i fn r1.pages last node1 sh1 r1.loaded big
                  same.fits in
              let one : 0 ≡ k = omega arith in
              (
                code,
                (λ a. absurd (omega arith)),
                (λ a. some_code),
                record {
                  node = node';
                  background = b;
                  result =
                      round_end n i fn line node node1 sh fetched now fits over
                      ∙ ended
                      ∙ ap
                          (λ c. returned (
                            code,
                            node',
                            set_background b (
                                run_listed h.after
                                  (line
                                    ∷ lines_at frame_size var_size sh.memory (node.pcb.pc + 1) c)
                                  sh),
                          ))
                          one;
                  at_place = place ∙ omega arith;
                },
              )
        ]

    -- The number of lines of a call.
    abbrev pub lines_run : (rounds : ℕ) → Pcb → ℕ
    lines_run rounds pcb =
        if leb rounds (pcb.end + 1 - pcb.pc) then rounds else pcb.end + 1 - pcb.pc

    -- Where the lines of a process are in frames of its loaded pages, and are lines on which the interpreter
    -- returns and leaves the frames as they are, `execute_process` ends. It has run the lines from the program counter
    -- on, as many as its quanta or up to the last one in memory, each of them once and in order, and the
    -- program counter is behind them. It returns 0 exactly where another line is left in memory.
    pub execute_process_lem :
        (node : QueueNode) (sh : Shell W)
        → Runnable frame_size var_size node.pcb sh.memory
        → QuietLines Quiet node.pcb sh.memory
        → length sh.memory ≡ frame_size + var_size
        → 5 < frame_size + var_size
        → node.pcb.pc ≤ node.pcb.end
        → (r : ℕ) × ((r ≡ 0) ↔ (quanta ≤ node.pcb.end - node.pcb.pc))
          × Ran
              (execute_process frame_size var_size parse_input last node quanta sh)
              r
              (node.pcb.pc + lines_run quanta node.pcb)
              (run_listed h.after
                (lines_at frame_size var_size sh.memory node.pcb.pc (lines_run quanta node.pcb))
                sh)
    unfolding execute_process
    execute_process_lem node sh r quiet fits big le =
        let (code, few, many, ran) =
          execute_lines_lem quanta 0 (lines_run quanta node.pcb) node sh r quiet fits big le
            (ground arith) (ground arith) (λ lt. ground arith) in
        (
          code,
          (
            (λ zero_code. elim (Nat-order quanta (node.pcb.end - node.pcb.pc)) [
              | inl le' ↦ le'
              | inr lt ↦ absurd (many lt zero_code)
            ]),
            few,
          ),
          ran,
        )
