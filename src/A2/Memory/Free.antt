-- ===== src/A2/Memory/Free.antt =====
-- load_file of a2/shellmemory.c puts lines into free frames only.
use comp310_assignments.Prelude.{
  ℕ, zero, suc, ◌+◌, ◌-◌, ◌%◌, ◌≤◌, ◌<◌, ◌≡◌, refl, sym, ap, ◌∙◌, subst, Bool, true, false, ◌&&◌,
  ◌||◌, not, [], some, Text, arith, ltb, leb, ◌==◌, set, length, length-set, get_or-set_ne, drop,
  ◌⊎◌, inl, inr, Bool-cases, Option-cases, Nat-order,
}
use comp310_assignments.Prelude.Stdio.{fgets, feof}
use comp310_assignments.ShellMemory.{Slot, Store, free_slot, slot_at, set_value}
use comp310_assignments.ShellMemory.Frame.{slot_at-set_value, length-set_value}
use comp310_assignments.A2.Memory.{mem_set_value}
use comp310_assignments.A2.Memory.Place.{is_set, scan_set, set_from_line}
use comp310_assignments.A2.Memory.Search.{FreeFrom, search_space-FreeFrom}
use comp310_assignments.A2.Memory.Load.{
  loaded, round_up, search_space, read_lines, check_space, load_at, load_file,
}

module _ (frame_size var_size : ℕ) where
  -- What the reading of lines changes of the array: the slots from `j` on, and the variables.
  record Wrote (j : ℕ) (m m' : Store) : Type 0 where
    same : (k : ℕ) → k < j → k < frame_size → slot_at m' k ≡ slot_at m k
    fits : length m' ≡ length m

  Wrote-trans : (j : ℕ) (m m1 m2 : Store) → Wrote j m m1 → Wrote (j + 1) m1 m2 → Wrote j m m2
  Wrote-trans j m m1 m2 a b = record {
    same = λ k lt lf. b.same k (omega arith) lf ∙ a.same k lt lf;
    fits = b.fits ∙ a.fits;
  }

  set_from_line-set :
      (line : Text) (m m' : Store) (var val : Text)
      → is_set line ≡ true
      → scan_set (drop 3 line) ≡ some (var, val)
      → set_from_line frame_size var_size line m ≡ some m'
      → m' ≡ set_value frame_size var_size var val m
  unfolding set_from_line mem_set_value
  set_from_line-set line m m' var val yes' e1 e = elim (Bool-cases (leb 150 (length var))) [
    | inl long ↦ absurd (cc (rw (yes', e1, long, set_from_line) at e))
    | inr short ↦ elim (Bool-cases (leb 150 (length val))) [
      | inl long ↦ absurd (cc (rw (yes', e1, short, long, set_from_line) at e))
      | inr short' ↦ let e' = rw (yes', e1, short, short', set_from_line) at e in cc
    ]
  ]

  -- A line sets a variable, or nothing.
  set_from_line-cases :
      (line : Text) (m m' : Store)
      → set_from_line frame_size var_size line m ≡ some m'
      → (m' ≡ m) ⊎ ((var : Text) × (val : Text) × (m' ≡ set_value frame_size var_size var val m))
  unfolding set_from_line mem_set_value
  set_from_line-cases line m m' e = elim (Bool-cases (is_set line)) [
    | inl yes' ↦ elim (Option-cases (scan_set (drop 3 line))) [
      | inl e1 ↦ inl (ground arith)
      | inr ((var, val), e1) ↦ inr (var, val, set_from_line-set line m m' var val yes' e1 e)
    ]
    | inr no' ↦ inl (ground arith)
  ]

  put_line-Wrote :
      (line : Text) (j : ℕ) (s : Slot) (m m' : Store)
      → set_from_line frame_size var_size line (set m j s) ≡ some m'
      → Wrote j m m'
  put_line-Wrote line j s m m' e =
      let put : Wrote j m (set m j s) = record {
        same = λ k lt lf. get_or-set_ne m j k s free_slot (omega arith);
        fits = length-set m j s;
      } in
      elim (set_from_line-cases line (set m j s) m' e) [
        | inl e1 ↦ subst (Wrote j m) (sym e1) put
        | inr (var, val, e1) ↦ subst (Wrote j m) (sym e1) (record {
          same = λ k lt lf.
              slot_at-set_value frame_size var_size var val (set m j s) k (inl lf)
              ∙ put.same k lt lf;
          fits = length-set_value frame_size var_size var val (set m j s) ∙ put.fits;
        })
      ]

  -- What the loop gives, from slot `j` on.
  abbrev ReadFrom : (j : ℕ) → Store → ℕ × ℕ × Bool × Store → Type 0
  ReadFrom j m (end, n, eof, m') = Wrote j m m' × (end < frame_size) × (j ≤ end + 1)

  read_lines-Wrote :
      (rounds j lines_read : ℕ) (filename text : Text) (eof : Bool) (m : Store)
      (r : ℕ × ℕ × Bool × Store)
      → j + rounds ≤ frame_size
      → read_lines frame_size var_size rounds j lines_read filename text eof m ≡ some r
      → ReadFrom j m r
  unfolding read_lines
  read_lines-Wrote zero j lines_read filename text eof m r le e = cc
  read_lines-Wrote (suc n) j lines_read filename text eof m r le e =
      elim (Bool-cases (eof || lines_read == 6)) [
        | inl stop ↦ elim (Bool-cases (j == 0)) [
          | inl first ↦ absurd (cc (rw (stop, first, read_lines) at e))
          | inr later ↦
              let e' = rw (stop, later, read_lines) at e in
              let same : (j - 1, lines_read, eof, m) ≡ r = cc in
              subst (ReadFrom j m) same
                (record { same = λ k lt lf. refl; fits = refl }, ground arith, ground arith)
        ]
        | inr going ↦ elim (Option-cases (fgets 101 text)) [
          | inl e1 ↦
              let e' = rw (going, e1, read_lines) at e in
              let (w, lt, ge) =
                read_lines-Wrote n (j + 1) (lines_read + 1) filename [] true m r (omega arith) e' in
              (
                Wrote-trans j m m r.3 (record { same = λ k lt lf. refl; fits = refl }) w,
                lt,
                omega arith,
              )
          | inr ((line, rest), e1) ↦
              elim (Option-cases (
                set_from_line frame_size var_size line
                  (set m j (record { var = filename; value = line })))) [
                    | inl e2 ↦ absurd (cc (rw (going, e1, e2, read_lines) at e))
                    | inr (m1, e2) ↦
                        let put =
                          put_line-Wrote line j (record { var = filename; value = line }) m m1 e2 in
                        elim (Bool-cases (j + 1 == frame_size)) [
                          | inl last ↦
                              let e' = rw (going, e1, e2, last, read_lines) at e in
                              let same : (j, lines_read + 1, feof 101 text, m1) ≡ r = cc in
                              subst (ReadFrom j m) same (put, omega arith, omega arith)
                          | inr more ↦
                              let e' = rw (going, e1, e2, more, read_lines) at e in
                              let (w, lt, ge) =
                                read_lines-Wrote n (j + 1) (lines_read + 1) filename rest
                                  (feof 101 text) m1 r (omega arith) e' in
                              (Wrote-trans j m m1 r.3 put w, lt, omega arith)
                        ]
                  ]
        ]
      ]

  check_space-loaded :
      (start0 start end : ℕ) (m m' : Store) (r : ℕ × ℕ × Bool × Store)
      → ReadFrom start0 m r
      → check_space frame_size var_size start0 r ≡ loaded start end m'
      → (start ≡ start0) × Wrote start m m' × (end < frame_size) × (start ≤ end + 1)
  unfolding check_space
  check_space-loaded start0 start end m m' (end0, n, eof, m0) h e =
      elim (Bool-cases (not eof && (ltb n 6 && end0 + 1 == frame_size))) [
        | inl full ↦ absurd (cc (rw (full, check_space) at e))
        | inr room ↦
            let e' = rw (room, check_space) at e in
            let e1 : start0 ≡ start = cc in
            let e2 : end0 ≡ end = cc in
            let e3 : m0 ≡ m' = cc in
            (
              sym e1,
              subst (λ s. Wrote s m m') e1 (subst (Wrote start0 m) e3 h.0),
              omega (arith, h.1, e2),
              omega (arith, h.1, e1, e2),
            )
      ]

  load_at-loaded :
      (search : ℕ × Bool) (lines_read : ℕ) (text filename : Text) (m : Store) (start end : ℕ)
      (m' : Store)
      → load_at frame_size var_size lines_read text filename search m ≡ some (loaded start end m')
      → (start ≡ round_up search.0) × Wrote start m m' × (end < frame_size) × (start ≤ end + 1)
  unfolding load_at read_lines
  load_at-loaded (candidate, false) lines_read text filename m start end m' e = absurd (cc e)
  load_at-loaded (candidate, true) lines_read text filename m start end m' e =
      elim (Nat-order (round_up candidate) frame_size) [
        | inr behind ↦
            let nothing : frame_size - round_up candidate ≡ 0 = omega arith in
            absurd (cc (rw (nothing, load_at, read_lines) at e))
        | inl inside ↦
            elim (Option-cases (
              read_lines frame_size var_size (frame_size - round_up candidate) (round_up candidate)
                lines_read filename text false m)) [
                  | inl e2 ↦ absurd (cc (rw (e2, load_at) at e))
                  | inr (r, e2) ↦
                      let e3 = rw (e2, load_at) at e in
                      let e4 : check_space frame_size var_size (round_up candidate) r
                          ≡ loaded start end m' =
                        cc in
                      check_space-loaded (round_up candidate) start end m m' r
                        (read_lines-Wrote (frame_size - round_up candidate) (round_up candidate)
                          lines_read filename text false m r (omega arith) e2)
                        e4
                ]
      ]

  round_up_lem : (i : ℕ) → (i ≤ round_up i) × (round_up i % 3 ≡ 0)
  unfolding round_up
  round_up_lem i = ground arith

  -- Where `load_file` loads a program of any text, the lines are in whole pages: the first place is a
  -- multiple of 3, and the last is in the frames. All slots of the frames from the first place on had no
  -- owner, and the slots before it and the array's length stay as they are, whatever `linesRead` starts with.
  pub load_file-FreeFrom :
      (lines_read : ℕ) (text filename : Text) (m : Store) (start end : ℕ) (m' : Store)
      → load_file frame_size var_size lines_read text filename m ≡ some (loaded start end m')
      → (start % 3 ≡ 0)
        × (start ≤ end + 1)
        × (end < frame_size)
        × FreeFrom frame_size start m
        × ((k : ℕ) → k < start → slot_at m' k ≡ slot_at m k)
        × (length m' ≡ length m)
  unfolding load_file
  load_file-FreeFrom lines_read text filename m start end m' e =
      let search = search_space frame_size var_size (frame_size + 1) 0 false m in
      let (at_start, w, inside, order) =
        load_at-loaded search lines_read text filename m start end m' e in
      let up = round_up_lem search.0 in
      let free =
        search_space-FreeFrom frame_size var_size (frame_size + 1) 0 false m (omega arith)
          (omega arith) in
      (
        ap (λ i. i % 3) at_start ∙ up.1,
        order,
        inside,
        (λ k lo hi. free k (omega (arith, at_start, up.0)) hi),
        (λ k lt. w.same k lt (omega (arith, order, inside))),
        w.fits,
      )
