-- ===== src/A2/Interpreter/Quiet.antt =====
-- parseInput of a2/shell.c on lines whose command starts no process, clears no memory and does not end the
-- shell.
pub mod Commands
use comp310_assignments.Prelude.{
  ℕ, suc, ◌+◌, ◌≤◌, ◌≡◌, sym, ap, ◌∙◌, subst, List, [], ◌∷◌, Text, length, arith,
}
use comp310_assignments.Prelude.Int.{ℤ, pos}
use comp310_assignments.A2.Shell.{Os, Shell, Outcome, returned, exited, undefined, out_of_fuel}
use comp310_assignments.A2.Kernel.Lines.{SameFrames}
use comp310_assignments.A2.Kernel.Schedulers.{schedule_by_policy}
use comp310_assignments.A2.Kernel.Execute.Ends.{KeepsFrames}
use comp310_assignments.A2.Interpreter.Dispatch.{interpreter}
use comp310_assignments.A2.Interpreter.ParseInput.{parse_input}
use comp310_assignments.A2.Interpreter.Line.{IsCommand, print_line}
use comp310_assignments.A2.Interpreter.Chain.{parse_line-print_line}
use comp310_assignments.A2.Interpreter.Quiet.Commands.{
  Kept, QuietCommand, help_of, my_ls_of, my_mkdir_of, my_touch_of, my_cd_of, print_of, echo_of,
  set_of, interpreter-Kept,
}

-- A line with one such command and the line's end, whose words are not empty, hold no separator and fit into
-- the arrays of parseInput.
abbrev pub IsQuiet : Text → Type 0
IsQuiet t = (c : List Text) × (t ≡ print_line (c ∷ [])) × QuietCommand c × IsCommand c

length-QuietCommand : (c : List Text) → QuietCommand c → length c ≤ 3
length-QuietCommand c help_of = omega arith
length-QuietCommand c my_ls_of = omega arith
length-QuietCommand c (my_mkdir_of x) = omega arith
length-QuietCommand c (my_touch_of x) = omega arith
length-QuietCommand c (my_cd_of x) = omega arith
length-QuietCommand c (print_of x) = omega arith
length-QuietCommand c (echo_of x) = omega arith
length-QuietCommand c (set_of var value short short') = omega arith

-- The value and the state of a call that returns.
code_of : {W : Type 0} → Outcome W (ℤ × Shell W) → ℤ
code_of (returned (code, sh)) = code
code_of (exited code sh) = pos 0
code_of undefined = pos 0
code_of out_of_fuel = pos 0

shell_of : {W : Type 0} → Shell W → Outcome W (ℤ × Shell W) → Shell W
shell_of sh (returned (code, sh')) = sh'
shell_of sh (exited code sh') = sh
shell_of sh undefined = sh
shell_of sh out_of_fuel = sh

module _ {W : Type 0} (os : Os W) (help_string : Text) (frame_size var_size lines_read : ℕ)
    (scheduler_rr : (parse_input : Text → Shell W → Outcome W (ℤ × Shell W))
      → (quanta : ℕ) → Shell W
      → Outcome W (Shell W))
    (f : ℕ) (enough : 3 ≤ f) where
  abbrev pub parse_quiet : Text → Shell W → Outcome W (ℤ × Shell W)
  parse_quiet t sh =
      parse_input os help_string frame_size var_size lines_read scheduler_rr (suc f) t sh

  -- On a line with one command `help`, `my_ls`, `print`, `echo`, `my_mkdir`, `my_touch`, `my_cd` or `set` (of
  -- one value) with its arguments, separated by single spaces, whose words are not empty, hold no separator
  -- and have fewer than 200 characters, parseInput with fuel of 4 or more returns, whatever the state of the
  -- shell with a memory of its size is, and leaves the frames and the ready queue as they are.
  pub parse_input-Kept :
      (t : Text) (sh : Shell W)
      → IsQuiet t
      → length sh.memory ≡ frame_size + var_size
      → Kept frame_size var_size (parse_quiet t sh) sh
  unfolding parse_input
  parse_input-Kept t sh ([], e, quiet, command) fits = absurd command
  parse_input-Kept t sh (v ∷ vs, e, quiet, command) fits =
      let schedule =
        schedule_by_policy frame_size var_size os
          (parse_input os help_string frame_size var_size lines_read scheduler_rr f)
          (scheduler_rr (parse_input os help_string frame_size var_size lines_read scheduler_rr f))
          f in
      let kept =
        interpreter-Kept os help_string frame_size var_size lines_read schedule f (v ∷ vs) sh quiet
          fits in
      record {
        code = kept.code;
        shell = kept.shell;
        result =
            ap (λ u. parse_quiet u sh) e
            ∙ parse_line-print_line
                (interpreter os help_string frame_size var_size lines_read schedule f) (suc f)
                (v ∷ vs) [] sh (command, tt) (omega (arith, length-QuietCommand (v ∷ vs) quiet))
            ∙ kept.result;
        frames = kept.frames;
        same_queue = kept.same_queue;
      }

  shell-parse_quiet :
      (t : Text) (sh : Shell W) (k : Kept frame_size var_size (parse_quiet t sh) sh)
      → shell_of sh (parse_quiet t sh) ≡ k.shell
  unfolding shell_of
  shell-parse_quiet t sh k = ap (shell_of sh) k.result

  -- So it is an interpreter that the kernel's theorems take, on such lines.
  pub parse_input-KeepsFrames :
      (h : KeepsFrames W frame_size var_size IsQuiet parse_quiet) × ((t : Text) (sh : Shell W)
        → IsQuiet t
        → length sh.memory ≡ frame_size + var_size
        → (h.after t sh).queue ≡ sh.queue)
  unfolding code_of shell_of
  parse_input-KeepsFrames = (
    record {
      code = λ t sh. code_of (parse_quiet t sh);
      after = λ t sh. shell_of sh (parse_quiet t sh);
      returns = λ t sh quiet fits.
          let k = parse_input-Kept t sh quiet fits in
          k.result ∙ sym (ap (λ o. returned (code_of o, shell_of sh o)) k.result);
      frames = λ t sh quiet fits.
          let k = parse_input-Kept t sh quiet fits in
          subst (λ (s : Shell W). SameFrames frame_size var_size sh.memory s.memory)
            (sym (shell-parse_quiet t sh k)) k.frames;
    },
    λ t sh quiet fits.
        let k = parse_input-Kept t sh quiet fits in
        ap (λ (s : Shell W). s.queue) (shell-parse_quiet t sh k) ∙ k.same_queue,
  )
