-- ===== src/A2/Shell.antt =====
-- The shell of a2/: the state that its parts share, how a call ends, and the system, which is a parameter.
use comp310_assignments.Prelude.{ℕ, Bool, [], ◌∷◌, ◌++◌, Option, none, some, Text}
use comp310_assignments.Prelude.Int.{ℤ}
use comp310_assignments.Prelude.Stdio.{newline}
use comp310_assignments.ShellMemory.{Store}
use comp310_assignments.A2.ReadyQueue.{Queue}

-- `system`, `chdir`, whether `stat` finds a directory, and the content of a file that `fopen` opens for
-- reading.
pub record Os (W : Type 0) : Type 0 where
  pub system : Text → W → ℤ × W
  pub chdir : Text → W → ℤ × W
  pub is_directory : Text → W → Bool
  pub open_file : Text → W → Option Text

-- The globals, what was printed, and the system. `active` is never set, and left out.
pub record Shell (W : Type 0) : Type 0 where
  pub memory : Store
  pub queue : Queue
  pub pid_counter : ℕ
  pub in_background : Bool
  pub output : Text
  pub world : W

-- How a call ends: with a value, with the end of the program, or without a meaning in C.
pub data Outcome (W R : Type 0) : Type 0 where
  returned : R → Outcome W R
  exited : ℕ → Shell W → Outcome W R
  undefined out_of_fuel : Outcome W R

infixl 5 ◌>>=◌
abbrev pub ◌>>=◌ : {W R S : Type 0} → Outcome W R → (R → Outcome W S) → Outcome W S
returned r >>= f = f r
exited code sh >>= f = exited code sh
undefined >>= f = undefined
out_of_fuel >>= f = out_of_fuel

-- A read that C gives no meaning to where there is `none`.
abbrev pub defined : {W R : Type 0} → Option R → Outcome W R
defined none = undefined
defined (some r) = returned r

module _ {W : Type 0} where
  unfoldable pub say : Text → Shell W → Shell W
  say t sh = record sh { output = sh.output ++ t }

  -- `printf("%s\n", t)`
  unfoldable pub say_line : Text → Shell W → Shell W
  say_line t sh = say (t ++ newline ∷ []) sh
