-- ===== src/A1/Shell.antt =====
-- The shell of a1/: its state, how a command ends, and what it prints. The system is a parameter.
use comp310_assignments.Prelude.{
  ℕ, ◌≤◌, length, arith, List, [], ◌∷◌, ◌++◌, Option, Text, codes, ◌==◌, if◌then◌else◌,
}
use comp310_assignments.Prelude.Stdio.{newline}
use comp310_assignments.ShellMemory.{Store}

-- `system`, `chdir`, and the content of a file that `fopen` opens for reading.
pub record Os (W : Type 0) : Type 0 where
  pub system : Text → W → ℕ × W
  pub chdir : Text → W → ℕ × W
  pub open_file : Text → W → Option Text

pub record Shell (W : Type 0) : Type 0 where
  pub memory : Store
  pub output : Text
  pub world : W

-- How a command ends: it returns, or the program exits, or C gives it no meaning.
pub data Outcome (W : Type 0) : Type 0 where
  returned : ℕ → Shell W → Outcome W
  exited : ℕ → Shell W → Outcome W
  undefined out_of_fuel : Outcome W

-- `arg[strcspn(arg, "\r\n")] = 0`
unfoldable pub strip : Text → Text
strip [] = []
strip (c ∷ t) = let rest = strip t in if c == 13 then [] else if c == newline then [] else c ∷ rest

pub length-strip : (w : Text) → length (strip w) ≤ length w
unfolding strip
length-strip [] = omega arith
length-strip (c ∷ t) = let rest = length-strip t in ground arith

unfoldable pub strip_all : List Text → List Text
strip_all [] = []
strip_all (a ∷ as') = strip a ∷ strip_all as'

abbrev pub max_args_size : ℕ
max_args_size = 20

abbrev pub no_variable : Text
no_variable = codes "Variable does not exist"

module _ {W : Type 0} where
  unfoldable pub say : Text → Shell W → Shell W
  say t sh = record sh { output = sh.output ++ t }

  -- `printf("%s\n", t)`
  unfoldable pub say_line : Text → Shell W → Shell W
  say_line t sh = say (t ++ newline ∷ []) sh
