-- ===== src/A2/Memory/Behind.antt =====
-- load_file of a2/shellmemory.c on a program whose last line ends with a newline.
use comp310_assignments.Prelude.{
  ℕ, zero, suc, ◌+◌, ◌-◌, ◌≤◌, ◌<◌, ◌≡◌, refl, ap, ◌∙◌, true, false, List, [], ◌∷◌, ◌++◌, some,
  Text, ◌==◌, length, set, All, arith,
}
use comp310_assignments.Prelude.Stdio.{newline, fgets, feof}
use comp310_assignments.Prelude.Stdio.Lines.{NoNewline, read_line-line, meets_end-line}
use comp310_assignments.ShellMemory.{Store}
use comp310_assignments.A2.Memory.Place.{is_set, set_from_line}
use comp310_assignments.A2.Memory.Load.{
  loaded, round_up, search_space, read_lines, check_space, load_at, load_file,
}

-- A line of a program that fits into the buffer and sets no variable.
abbrev pub IsPlainLine : Text → Type 0
IsPlainLine l = NoNewline l × (length l < 100) × (is_set (l ++ newline ∷ []) ≡ false)

abbrev pub program : List Text → Text
program [] = []
program (l ∷ ls) = l ++ newline ∷ program ls

-- The lines in the slots from `j` on.
abbrev pub put_lines : (filename : Text) → (j : ℕ) → List Text → Store → Store
put_lines filename j [] m = m
put_lines filename j (l ∷ ls) m =
    put_lines filename (j + 1) ls (set m j (record { var = filename; value = l ++ newline ∷ [] }))

fgets-plain :
    (l t : Text)
    → NoNewline l
    → length l < 100
    → (fgets 101 (l ++ newline ∷ t) ≡ some (l ++ newline ∷ [], t))
      × (feof 101 (l ++ newline ∷ t) ≡ false)
unfolding fgets feof
fgets-plain [] t h lt = (ap some (read_line-line 100 [] t h lt), meets_end-line 100 [] t h lt)
fgets-plain (c ∷ l) t h lt =
    (ap some (read_line-line 100 (c ∷ l) t h lt), meets_end-line 100 (c ∷ l) t h lt)

module _ (frame_size var_size : ℕ) (filename : Text) where
  set_from_line-plain :
      (line : Text) (m : Store)
      → is_set line ≡ false
      → set_from_line frame_size var_size line m ≡ some m
  unfolding set_from_line
  set_from_line-plain line m e = ground arith

  read_lines-end :
      (n j lines_read : ℕ) (m : Store)
      → lines_read < 6
      → read_lines frame_size var_size (suc (suc n)) j lines_read filename [] false m
        ≡ some (j, lines_read + 1, true, m)
  unfolding read_lines fgets
  read_lines-end n j lines_read m few =
      let going : (lines_read == 6) ≡ false = ground arith in
      let later : (j + 1 == 0) ≡ false = ground arith in
      let back : j + 1 - 1 ≡ j = omega arith in
      rw (going, read_lines, fgets, later) (ap (λ i. some (i, lines_read + 1, true, m)) back)

  read_lines-line :
      (n j lines_read : ℕ) (l t : Text) (m : Store)
      → lines_read < 6
      → j + 1 < frame_size
      → IsPlainLine l
      → read_lines frame_size var_size (suc n) j lines_read filename (l ++ newline ∷ t) false m
        ≡ read_lines frame_size var_size n
            (j + 1)
            (lines_read + 1)
            filename
            t
            false
            (set m j (record { var = filename; value = l ++ newline ∷ [] }))
  unfolding read_lines
  read_lines-line n j lines_read l t m few room h =
      let going : (lines_read == 6) ≡ false = ground arith in
      let (got, eof) = fgets-plain l t h.0 h.1 in
      let m1 = set m j (record { var = filename; value = l ++ newline ∷ [] }) in
      let plain = set_from_line-plain (l ++ newline ∷ []) m1 h.2 in
      let more : (j + 1 == frame_size) ≡ false = ground arith in
      rw (going, got, plain, more, eof, read_lines) refl

  read_lines-program :
      (ls : List Text) (n j lines_read : ℕ) (m : Store)
      → lines_read + length ls < 6
      → length ls + 2 ≤ n
      → j + n ≤ frame_size
      → All IsPlainLine ls
      → read_lines frame_size var_size n j lines_read filename (program ls) false m
        ≡ some (j + length ls, lines_read + length ls + 1, true, put_lines filename j ls m)
  read_lines-program [] zero j lines_read m few rounds room h = absurd (omega arith)
  read_lines-program [] (suc zero) j lines_read m few rounds room h = absurd (omega arith)
  read_lines-program [] (suc (suc n)) j lines_read m few rounds room h =
      let at : j ≡ j + 0 = omega arith in
      let count : lines_read + 1 ≡ lines_read + 0 + 1 = omega arith in
      read_lines-end n j lines_read m (omega arith)
      ∙ ap (λ i. some (i, lines_read + 1, true, m)) at
      ∙ ap (λ c. some (j + 0, c, true, m)) count
  read_lines-program (l ∷ ls) zero j lines_read m few rounds room h = absurd (omega arith)
  read_lines-program (l ∷ ls) (suc n) j lines_read m few rounds room h =
      let m' = put_lines filename j (l ∷ ls) m in
      let at : j + 1 + length ls ≡ j + length (l ∷ ls) = omega arith in
      let count : lines_read + 1 + length ls + 1 ≡ lines_read + length (l ∷ ls) + 1 = omega arith in
      read_lines-line n j lines_read l (program ls) m (omega arith) (omega arith) h.0
      ∙ read_lines-program ls n (j + 1) (lines_read + 1)
          (set m j (record { var = filename; value = l ++ newline ∷ [] })) (omega arith)
          (omega arith) (omega arith) h.1
      ∙ ap (λ i. some (i, lines_read + 1 + length ls + 1, true, m')) at
      ∙ ap (λ c. some (j + length (l ∷ ls), c, true, m')) count

  load_at-read :
      (candidate lines_read end n : ℕ) (text : Text) (m m' : Store)
      → read_lines frame_size var_size
          (frame_size - round_up candidate)
          (round_up candidate)
          lines_read
          filename
          text
          false
          m
        ≡ some (end, n, true, m')
      → load_at frame_size var_size lines_read text filename (candidate, true) m
        ≡ some (loaded (round_up candidate) end m')
  unfolding load_at check_space
  load_at-read candidate lines_read end n text m m' e = rw (e, load_at, check_space) refl

  -- Of a program of fewer than six lines, each ended by a newline, short, and without a command `set `, with
  -- `linesRead` starting at 0, where the search finds space and the frames have, from the place that it gives,
  -- rounded up to a page, at least two slots more than lines: `load_file` stores all lines from there on, and
  -- gives as the place of the last line the slot behind it.
  pub load_file-behind :
      (ls : List Text) (candidate : ℕ) (m : Store)
      → search_space frame_size var_size (frame_size + 1) 0 false m ≡ (candidate, true)
      → length ls < 6
      → round_up candidate + length ls + 2 ≤ frame_size
      → All IsPlainLine ls
      → load_file frame_size var_size 0 (program ls) filename m
        ≡ some (
            loaded
              (round_up candidate)
              (round_up candidate + length ls)
              (put_lines filename (round_up candidate) ls m))
  unfolding load_file
  load_file-behind ls candidate m e few room h =
      let start = round_up candidate in
      ap (λ s. load_at frame_size var_size 0 (program ls) filename s m) e
      ∙ load_at-read candidate 0 (start + length ls) (0 + length ls + 1) (program ls) m
          (put_lines filename start ls m)
          (read_lines-program ls (frame_size - start) start 0 m (omega arith) (omega arith)
            (omega arith) h)
