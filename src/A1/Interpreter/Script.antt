-- ===== src/A1/Interpreter/Script.antt =====
-- `run`: a script is the sequence of its lines.
use comp310_assignments.Prelude.{
  ℕ, zero, suc, ◌+◌, ◌≤◌, ◌≡◌, refl, sym, ap, ◌∙◌, true, false, List, [], ◌∷◌, ◌++◌, Text, length,
  arith, All, none, some, fun_ext,
}
use comp310_assignments.Prelude.Stdio.{newline, fgets, feof}
use comp310_assignments.Prelude.Stdio.Lines.{IsLine, fgets-line, fgets-last}
use comp310_assignments.A1.Shell.{Shell, Outcome, returned, exited, undefined, out_of_fuel}
use comp310_assignments.A1.Interpreter.{run_lines, run_text}

-- Whole lines, and what follows the last newline.
unfoldable pub text_of : List Text → Text → Text
text_of [] last = last
text_of (l ∷ ls) last = l ++ newline ∷ text_of ls last

-- What is interpreted, in order.
unfoldable pub pieces : List Text → Text → List Text
pieces [] last = last ∷ []
pieces (l ∷ ls) last = (l ++ newline ∷ []) ∷ pieces ls last

length-text_of : (ls : List Text) (last : Text) → length ls ≤ length (text_of ls last)
unfolding text_of
length-text_of [] last = omega arith
length-text_of (l ∷ ls) last =
    let rec = length-text_of ls last in let here = length-line l (text_of ls last) in omega arith
  where
    length-line : (l t : Text) → suc (length t) ≤ length (l ++ newline ∷ t)
    length-line [] t = omega arith
    length-line (c ∷ l) t = let rec = length-line l t in omega arith

module _ {W : Type 0} where
  -- The next command runs where the one before it returned.
  unfoldable pub and_then : Outcome W → (Shell W → Outcome W) → Outcome W
  and_then (returned code sh) k = k sh
  and_then (exited code sh) k = exited code sh
  and_then undefined k = undefined
  and_then out_of_fuel k = out_of_fuel

  module _ (parse_input : Text → Shell W → Outcome W) where
    -- The lines one by one; the value is that of the last.
    unfoldable pub run_each : List Text → Shell W → Outcome W
    run_each [] sh = returned 0 sh
    run_each (l ∷ []) sh = parse_input l sh
    run_each (l ∷ l' ∷ ls) sh = and_then (parse_input l sh) (run_each (l' ∷ ls))

    run_lines-end :
        (f : ℕ) (l t : Text) (sh : Shell W)
        → run_lines parse_input (suc f) l t true sh ≡ parse_input l sh
    unfolding run_lines
    run_lines-end f l t sh = ground arith

    run_lines-none :
        (f : ℕ) (l t : Text) (sh : Shell W)
        → fgets 999 t ≡ none
        → run_lines parse_input (suc f) l t false sh
          ≡ and_then (parse_input l sh) (run_lines parse_input f [] [] true)
    unfolding run_lines and_then
    run_lines-none f l t sh e = ground arith

    run_lines-some :
        (f : ℕ) (l t l' t' : Text) (sh : Shell W)
        → fgets 999 t ≡ some (l', t')
        → run_lines parse_input (suc f) l t false sh
          ≡ and_then (parse_input l sh) (run_lines parse_input f l' t' (feof 999 t))
    unfolding run_lines and_then
    run_lines-some f l t l' t' sh e = ground arith

    run_each-cons :
        (l : Text) (ls : List Text) (last : Text) (sh : Shell W)
        → run_each (l ∷ pieces ls last) sh ≡ and_then (parse_input l sh) (run_each (pieces ls last))
    unfolding run_each pieces
    run_each-cons l [] last sh = refl
    run_each-cons l (g ∷ ls) last sh = refl

    run_each-pieces :
        (l : Text) (ls : List Text) (last : Text) (sh : Shell W)
        → run_each (pieces (l ∷ ls) last) sh
          ≡ and_then (parse_input (l ++ newline ∷ []) sh) (run_each (pieces ls last))
    unfolding pieces
    run_each-pieces l ls last sh = run_each-cons (l ++ newline ∷ []) ls last sh

    fgets-empty : fgets 999 [] ≡ none
    unfolding fgets
    fgets-empty = refl

    -- Behind a line `l` the rest of the script is still to run.
    and_then-text :
        (f : ℕ) (l : Text) (ls : List Text) (last : Text) (sh : Shell W)
        → All IsLine ls
        → IsLine last
        → length ls + 2 ≤ f
        → run_lines parse_input f l (text_of ls last) false sh
          ≡ and_then (parse_input l sh) (run_each (pieces ls last))
    unfolding text_of pieces run_each
    and_then-text zero l ls last sh h h' le = absurd (omega arith)
    and_then-text (suc zero) l ls last sh h h' le = absurd (omega arith)
    and_then-text (suc (suc f)) l [] [] sh h h' le =
        run_lines-none (suc f) l [] sh (fgets-empty)
        ∙ ap (and_then (parse_input l sh)) (fun_ext (λ sh'. run_lines-end f [] [] sh'))
    and_then-text (suc (suc f)) l [] (c ∷ last) sh h h' le =
        run_lines-some (suc f) l (c ∷ last) (c ∷ last) [] sh (fgets-last c last h').0
        ∙ ap (λ e. and_then (parse_input l sh) (run_lines parse_input (suc f) (c ∷ last) [] e))
            (fgets-last c last h').1
        ∙ ap (and_then (parse_input l sh)) (fun_ext (λ sh'. run_lines-end f (c ∷ last) [] sh'))
    and_then-text (suc (suc f)) l (g ∷ ls) last sh h h' le =
        run_lines-some (suc f) l (g ++ newline ∷ text_of ls last) (g ++ newline ∷ [])
          (text_of ls last) sh (fgets-line g (text_of ls last) h.0).0
        ∙ ap
            (λ e.
              and_then (parse_input l sh)
                (run_lines parse_input (suc f) (g ++ newline ∷ []) (text_of ls last) e))
            (fgets-line g (text_of ls last) h.0).1
        ∙ ap (and_then (parse_input l sh)) (
            fun_ext (λ sh'.
              and_then-text (suc f) (g ++ newline ∷ []) ls last sh' h.1 h' (omega arith)
              ∙ sym (run_each-cons (g ++ newline ∷ []) ls last sh')))

    run_text-some :
        (t l t' : Text) (sh : Shell W)
        → fgets 999 t ≡ some (l, t')
        → run_text parse_input t sh ≡ run_lines parse_input (length t + 1) l t' (feof 999 t) sh
    unfolding run_text
    run_text-some t l t' sh e = ground arith

    -- A script of whole lines `l`, `ls` and the text `last` behind their last newline, all of them short
    -- enough for one call of `fgets`, is interpreted line by line in order, and `last` after them, also
    -- where it is empty.
    pub run_text-lines :
        (l : Text) (ls : List Text) (last : Text) (sh : Shell W)
        → All IsLine (l ∷ ls)
        → IsLine last
        → run_text parse_input (text_of (l ∷ ls) last) sh ≡ run_each (pieces (l ∷ ls) last) sh
    unfolding text_of
    run_text-lines l ls last sh h h' =
        run_text-some (l ++ newline ∷ text_of ls last) (l ++ newline ∷ []) (text_of ls last) sh
          (fgets-line l (text_of ls last) h.0).0
        ∙ ap
            (λ e.
              run_lines parse_input (length (l ++ newline ∷ text_of ls last) + 1)
                (l ++ newline ∷ []) (text_of ls last) e sh)
            (fgets-line l (text_of ls last) h.0).1
        ∙ and_then-text (length (l ++ newline ∷ text_of ls last) + 1) (l ++ newline ∷ []) ls last sh
            h.1 h' (let a = length-text_of (l ∷ ls) last in omega arith)
        ∙ sym (run_each-pieces l ls last sh)
