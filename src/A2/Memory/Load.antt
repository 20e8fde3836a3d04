-- ===== src/A2/Memory/Load.antt =====
-- load_file of a2/shellmemory.c: the first lines of a program are read into the frames. `linesRead` gets no
-- value in the source before it is compared and counted; here its value at the start is an argument.
-- `none` is what C gives no meaning to: an end that gets no value, or an overflow of `var` or `val`. The
-- search reads up to two slots behind the frames, so `var_size` is at least 2.
use comp310_assignments.Prelude.{
  ℕ, zero, suc, ◌+◌, ◌-◌, ◌%◌, Bool, true, false, ◌&&◌, ◌||◌, not, [], Option, none, some, Text,
  none_text, ltb, ◌==◌, if◌then◌else◌, set,
}
use comp310_assignments.Prelude.Scan.{scan}
use comp310_assignments.Prelude.Stdio.{fgets, feof}
use comp310_assignments.ShellMemory.{Store, free_slot, has_var}
use comp310_assignments.A2.Memory.Place.{set_from_line}

-- What the call leaves: the error 21, or the places of the first and the last line.
pub data LoadedFile : Type 0 where
  no_space : Store → LoadedFile
  loaded : (start end : ℕ) → Store → LoadedFile

-- Three free slots from `i` on.
unfoldable pub three_free : Store → ℕ → Bool
three_free m i = has_var m none_text i && has_var m none_text (i + 1) && has_var m none_text (i + 2)

unfoldable pub is_used : Store → ℕ → Bool
is_used m i = not (has_var m none_text i)

-- `while (i % 3 != 0) i++;`
unfoldable pub round_up : ℕ → ℕ
round_up i = if i % 3 == 0 then i else if i % 3 == 1 then i + 2 else i + 1

module _ (frame_size var_size : ℕ) where
  -- The loop `while (flag)`: `candidate` and `hasSpaceLeft`. Every round starts at a later slot.
  unfoldable pub search_space : (fuel i : ℕ) → (space : Bool) → Store → ℕ × Bool
  search_space zero i space m = (i, space)
  search_space (suc f) i space m = elim (scan (three_free m) (frame_size - i) i) [
    | none ↦ (frame_size, space)
    | some candidate ↦ elim (scan (is_used m) (frame_size - candidate) candidate) [
      | none ↦ (candidate, true)
      | some k ↦ search_space f k true m
    ]
  ]

  -- The loop that reads, at slot `j`: the file is `text` and the flag that `feof` asks for.
  unfoldable pub read_lines :
      (rounds j lines_read : ℕ)
      → (filename text : Text) → (eof : Bool) → Store
      → Option (ℕ × ℕ × Bool × Store)
  read_lines zero j lines_read filename text eof m = none
  read_lines (suc n) j lines_read filename text eof m = elim (eof || lines_read == 6) [
    | true ↦ if j == 0 then none else some (j - 1, lines_read, eof, m)
    | false ↦ elim (fgets 101 text) [
      | none ↦ read_lines n (j + 1) (lines_read + 1) filename [] true m
      | some (line, rest) ↦
          elim (set_from_line frame_size var_size line
            (set m j (record { var = filename; value = line }))) [
              | none ↦ none
              | some m1 ↦ elim (j + 1 == frame_size) [
                | true ↦ some (j, lines_read + 1, feof 101 text, m1)
                | false ↦ read_lines n (j + 1) (lines_read + 1) filename rest (feof 101 text) m1
              ]
            ]
    ]
  ]

  -- Where the whole file was not read, the frames end, and fewer than six lines were counted: the loop that
  -- should clean up sets slot 1 again and again.
  unfoldable pub check_space : (start : ℕ) → (read : ℕ × ℕ × Bool × Store) → LoadedFile
  check_space start (end, lines_read, eof, m) =
      if not eof && (ltb lines_read 6 && end + 1 == frame_size)
      then no_space (set m 1 free_slot)
      else loaded start end m

  -- Behind the search.
  unfoldable pub load_at :
      (lines_read : ℕ) → (text filename : Text) → (search : ℕ × Bool) → Store → Option LoadedFile
  load_at lines_read text filename (candidate, false) m = some (no_space m)
  load_at lines_read text filename (candidate, true) m =
      elim (read_lines (frame_size - round_up candidate) (round_up candidate) lines_read filename
        text false m) [ none ↦ none | some read ↦ some (check_space (round_up candidate) read) ]

  unfoldable pub load_file : (lines_read : ℕ) → (text filename : Text) → Store → Option LoadedFile
  load_file lines_read text filename m =
      load_at lines_read text filename (search_space (frame_size + 1) 0 false m) m
