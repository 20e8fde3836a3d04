-- ===== src/A2/Memory/Place.antt =====
-- mem_set_line of a2/shellmemory.c: a line is put into the frames, and a `set` command that it holds is
-- carried out at once.
use comp310_assignments.Prelude.{
  ℕ, zero, suc, ◌+◌, Bool, true, false, ◌||◌, ◌&&◌, [], ◌∷◌, Option, none, some, Text, codes, streq,
  none_text, leb, ◌==◌, if◌then◌else◌, length, set, take, drop,
}
use comp310_assignments.Prelude.Int.{pos}
use comp310_assignments.ShellMemory.{Store}
use comp310_assignments.A2.Memory.{null, text, out_of_bounds, mem_set_value, mem_get_value_at_line}

-- `isspace`
unfoldable pub is_space : ℕ → Bool
is_space c = c == 32 || (leb 9 c && leb c 13)

unfoldable pub skip_spaces : Text → Text
skip_spaces [] = []
skip_spaces (c ∷ t) = let rest = skip_spaces t in if is_space c then rest else c ∷ t

-- `%150s`, behind the spaces: the token and the rest.
unfoldable pub take_token : ℕ → Text → Text × Text
take_token zero t = ([], t)
take_token (suc n) [] = ([], [])
take_token (suc n) (c ∷ t) =
    let rest = take_token n t in if is_space c then ([], c ∷ t) else (c ∷ rest.0, rest.1)

-- `sscanf(line, "set %150s %150s", var, val) > 1` for what is behind "set": the two tokens.
unfoldable pub scan_set : Text → Option (Text × Text)
scan_set t =
    let var = take_token 150 (skip_spaces t) in
    let val = take_token 150 (skip_spaces var.1) in
    if length var.0 == 0 then none else if length val.0 == 0 then none else some (var.0, val.0)

-- `strncmp(line, "set ", 4) == 0`
unfoldable pub is_set : Text → Bool
is_set line = streq (take 4 line) (codes "set ")

module _ (frame_size var_size : ℕ) where
  -- `var` and `val` have room for 149 characters; `none` where they overflow.
  unfoldable pub set_from_line : Text → Store → Option Store
  set_from_line line m =
      if is_set line
      then elim (scan_set (drop 3 line)) [
        | none ↦ some m
        | some (var, val) ↦
            if leb 150 (length var)
            then none
            else if leb 150 (length val)
            then none
            else some (mem_set_value frame_size var_size var val m)
      ]
      else some m

  -- The loop; `none` is a comparison with NULL or with what is behind the array.
  unfoldable pub place_line : (rounds i : ℕ) → (filename line : Text) → Store → Option Store
  place_line zero i filename line m = some m
  place_line (suc n) i filename line m =
      elim (mem_get_value_at_line frame_size var_size (pos i) m) [
        | null ↦ none
        | text v ↦ elim (streq v none_text) [
          | true ↦ set_from_line line (set m i (record { var = filename; value = line }))
          | false ↦ place_line n (i + 1) filename line m
        ]
        | out_of_bounds ↦ none
      ]

  unfoldable pub mem_set_line : (filename line : Text) → (index : ℕ) → Store → Option Store
  mem_set_line filename line index m = place_line 3 index filename line m
