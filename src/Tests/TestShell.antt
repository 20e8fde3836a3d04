-- ===== src/Tests/TestShell.antt =====
-- Witnesses and runs for a1/shell.c and a1/interpreter.c.
use comp310_assignments.Prelude.{
  ℕ, zero, suc, ◌+◌, ◌<◌, replicate, inl, ◌≡◌, ◌≢◌, refl, inr, [], ◌∷◌, Text, codes, streq,
  none_text, length, length-replicate, arith, some, get_or, ap,
}
use comp310_assignments.Prelude.Scan.{scan, scan-cases}
use comp310_assignments.ShellMemory.{has_var, free_slot, slot_at}
use comp310_assignments.ShellMemory.Laws.{get_value-hit, get_value-miss}
use comp310_assignments.A1.Memory.{memory_size, mem_init, mem_set_value, mem_get_value}
use comp310_assignments.A1.Words.{is_separator, parse_words}
use comp310_assignments.A1.Words.Split.{blanks, join_words, parse_words-join}
use comp310_assignments.A1.Shell.{Os, strip, Shell, returned, say_line}
use comp310_assignments.A1.Interpreter.{interpreter, parse_input, run_text}
use comp310_assignments.A1.Interpreter.Commands.{memory_after, ShortValues, interpreter-memory}
use comp310_assignments.A1.Interpreter.Variables.{set_line, echo_line, parse_input-set_echo}
use comp310_assignments.A1.Interpreter.Script.{text_of, pieces, run_each, run_text-lines}

parse_words-join_example :
    parse_words (blanks 2 (join_words b';' (codes "my_ls" ∷ codes "x" ∷ [])))
    ≡ some (codes "my_ls" ∷ codes "x" ∷ [])
unfolding is_separator blanks join_words
parse_words-join_example =
    parse_words-join b';' 2 (codes "my_ls" ∷ codes "x" ∷ []) refl
      (((refl, (refl, (refl, (refl, (refl, tt))))), omega arith), (((refl, tt), omega arith), tt))
      (omega arith) (omega arith)

-- A system that does nothing and has one file.
abbrev quiet_os : Os ℕ
quiet_os = record {
  system = λ command w. (0, w + 1);
  chdir = λ dir w. (0, w);
  open_file = λ name w. some (codes "print x");
}

abbrev start : Shell ℕ
start = record { memory = mem_init; output = []; world = 0 }

memory_length : length start.memory ≡ memory_size
unfolding mem_init
memory_length = length-replicate 1000 free_slot

free_at_start : scan (has_var start.memory none_text) memory_size 0 ≡ some 0
unfolding scan has_var mem_init free_slot none_text streq
free_at_start = refl

parse_input-set_echo_example :
    (parse_input quiet_os [] (λ n. n) 1 (set_line (codes "x") (codes "42")) start
      ≡ returned 0 (record start { memory = mem_set_value (codes "x") (codes "42") mem_init }))
    × (parse_input quiet_os []
          (λ n. n)
          1
          (echo_line (codes "x"))
          (record start { memory = mem_set_value (codes "x") (codes "42") mem_init })
        ≡ returned 0 (
            say_line
              (codes "42")
              (record start { memory = mem_set_value (codes "x") (codes "42") mem_init })))
unfolding is_separator
parse_input-set_echo_example =
    parse_input-set_echo quiet_os [] (λ n. n) 0 0 (codes "x") (codes "42") start ((refl, refl), tt)
      ((refl, refl), ((refl, refl), tt)) (omega arith) (omega arith) memory_length
      (inr (λ e. cc (free_at_start, e)))

different_start : (s t : Text) → get_or s 0 0 ≢ get_or t 0 0 → s ≢ t
different_start s t ne e = ne (ap (λ u. get_or u 0 0) e)

slot_at-replicate : (n i : ℕ) → slot_at (replicate n free_slot) i ≡ free_slot
slot_at-replicate zero i = refl
slot_at-replicate (suc n) zero = refl
slot_at-replicate (suc n) (suc i) = slot_at-replicate n i

free_value-short : length free_slot.value < 100
unfolding free_slot none_text
free_value-short = omega arith

start-ShortValues : ShortValues start
unfolding mem_get_value mem_init
start-ShortValues var = elim (scan-cases (has_var start.memory var) memory_size 0) [
  | inl (e, never) ↦
      rw (get_value-miss 0 memory_size var start.memory e, mem_get_value) (omega arith)
  | inr (i, e, f) ↦
      rw
        (
          get_value-hit 0 memory_size var start.memory i e,
          slot_at-replicate memory_size i,
          mem_get_value,
        )
        free_value-short
]

interpreter-memory_example :
    memory_after (
      interpreter quiet_os []
        (λ n. n)
        (λ line sh. returned 0 sh)
        (codes "echo" ∷ codes "$x" ∷ [])
        start)
    ≡ some mem_init
unfolding strip
interpreter-memory_example =
    interpreter-memory quiet_os [] (λ n. n) (λ line sh. returned 0 sh) (codes "echo")
      (codes "$x" ∷ []) start (different_start (codes "set") (strip (codes "echo")) (omega arith))
      (different_start (codes "run") (strip (codes "echo")) (omega arith)) (omega arith, tt)
      start-ShortValues

-- The script has no newline behind its last line.
run_text-lines_example :
    run_text
      (parse_input quiet_os [] (λ n. n) 1)
      (text_of (codes "print x" ∷ []) (codes "my_ls"))
      start
    ≡ run_each
        (parse_input quiet_os [] (λ n. n) 1)
        (pieces (codes "print x" ∷ []) (codes "my_ls"))
        start
run_text-lines_example =
    run_text-lines (parse_input quiet_os [] (λ n. n) 1) (codes "print x") [] (codes "my_ls") start
      (((refl, (refl, (refl, (refl, (refl, (refl, (refl, tt))))))), omega arith), tt)
      ((refl, (refl, (refl, (refl, (refl, tt))))), omega arith)
