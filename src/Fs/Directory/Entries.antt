-- ===== src/Fs/Directory/Entries.antt =====
-- The loops of a3/fs/directory.c go over the entries of the directory's file.
use comp310_assignments.Prelude.{
  ℕ, zero, suc, ◌+◌, ◌≤◌, ◌<◌, ◌≡◌, ◌↔◌, refl, ap, ◌∙◌, Bool, true, false, List, [], ◌∷◌, Option,
  none, some, Text, ltb, ◌==◌, if◌then◌else◌, length, arith, All, inl, inr, Bool-cases,
}
use comp310_assignments.Fs.Cache.{Block, Cache}
use comp310_assignments.Fs.Inode.{InodeDisk}
use comp310_assignments.Fs.Inode.Access.Slice.{slice}
use comp310_assignments.Fs.Inode.Access.Read.{StandsFor, Yields, readable, inode_read_at_lem}
use comp310_assignments.Fs.Directory.{
  DirEntry, EntryLayout, read_entry, scan_entries, has_name, lookup, is_none, dir_is_empty,
}

-- The first entry that passes the test, and its offset or that of the end.
abbrev pub first_entry : (DirEntry → Bool) → List (DirEntry × ℕ) → (end : ℕ) → Option DirEntry × ℕ
first_entry test [] end = (none, end)
first_entry test ((e, ofs) ∷ es) end = if test e then (some e, ofs) else first_entry test es end

module _ (words : Block → ℕ → ℕ) (layout : EntryLayout) (content : ℕ → Block)
    (inode : InodeDisk) where
  -- The entry at an offset.
  abbrev pub entry_at : (ofs : ℕ) → DirEntry
  entry_at ofs = layout.decode_entry (slice words content inode ofs layout.size)

  -- The entries from an offset to the end of the file, and the offset of the end. Fuel as long as the file
  -- is enough.
  abbrev pub entries : (fuel ofs : ℕ) → List (DirEntry × ℕ)
  entries zero ofs = []
  entries (suc f) ofs =
      if ltb inode.length (ofs + layout.size)
      then []
      else (entry_at ofs, ofs) ∷ entries f (ofs + layout.size)

  abbrev pub end_of_entries : (fuel ofs : ℕ) → ℕ
  end_of_entries zero ofs = ofs
  end_of_entries (suc f) ofs =
      if ltb inode.length (ofs + layout.size) then ofs else end_of_entries f (ofs + layout.size)

  length-slice : (ofs n : ℕ) → length (slice words content inode ofs n) ≡ n
  length-slice ofs zero = refl
  length-slice ofs (suc n) = ap suc (length-slice (ofs + 1) n)

  read_entry-some :
      (ofs : ℕ) (c : Cache)
      → StandsFor content c
      → ofs + layout.size ≤ inode.length
      → Yields content (read_entry words layout inode ofs c) (some (entry_at ofs))
  unfolding read_entry
  read_entry-some ofs c h inside =
      let (c1, e, h1) = inode_read_at_lem words content inode layout.size ofs c h in
      let all : readable inode.length ofs layout.size ≡ layout.size = ground arith in
      let e' = e ∙ ap (λ n. some (slice words content inode ofs n, c1)) all in
      let full : (length (slice words content inode ofs layout.size) == layout.size) ≡ true =
        ground (arith, length-slice ofs layout.size) in
      (c1, rw (e', full, read_entry) refl, h1)

  read_entry-none :
      (ofs : ℕ) (c : Cache)
      → StandsFor content c
      → inode.length < ofs + layout.size
      → 0 < layout.size
      → Yields content (read_entry words layout inode ofs c) none
  unfolding read_entry
  read_entry-none ofs c h outside some_bytes =
      let (c1, e, h1) = inode_read_at_lem words content inode layout.size ofs c h in
      let n = readable inode.length ofs layout.size in
      let less : n < layout.size = ground arith in
      let short : (length (slice words content inode ofs n) == layout.size) ≡ false =
        ground (arith, length-slice ofs n) in
      (c1, rw (e, short, read_entry) refl, h1)

  scan_entries-end :
      (f : ℕ) (test : DirEntry → Bool) (ofs : ℕ) (c c1 : Cache)
      → read_entry words layout inode ofs c ≡ some (none, c1)
      → scan_entries words layout (suc f) test inode ofs c ≡ some ((none, ofs), c1)
  unfolding scan_entries
  scan_entries-end f test ofs c c1 e = rw (e, scan_entries) refl

  scan_entries-found :
      (f : ℕ) (test : DirEntry → Bool) (ofs : ℕ) (d : DirEntry) (c c1 : Cache)
      → read_entry words layout inode ofs c ≡ some (some d, c1)
      → test d ≡ true
      → scan_entries words layout (suc f) test inode ofs c ≡ some ((some d, ofs), c1)
  unfolding scan_entries
  scan_entries-found f test ofs d c c1 e passes = rw (e, passes, scan_entries) refl

  scan_entries-next :
      (f : ℕ) (test : DirEntry → Bool) (ofs : ℕ) (d : DirEntry) (c c1 : Cache)
      → read_entry words layout inode ofs c ≡ some (some d, c1)
      → test d ≡ false
      → scan_entries words layout (suc f) test inode ofs c
        ≡ scan_entries words layout f test inode (ofs + layout.size) c1
  unfolding scan_entries
  scan_entries-next f test ofs d c c1 e fails = rw (e, fails, scan_entries) refl

  pub scan_entries_lem :
      (f : ℕ) (test : DirEntry → Bool) (ofs : ℕ) (c : Cache)
      → StandsFor content c
      → 0 < layout.size
      → 0 < f
      → inode.length < f + ofs
      → Yields content
          (scan_entries words layout f test inode ofs c)
          (first_entry test (entries f ofs) (end_of_entries f ofs))
  scan_entries_lem zero test ofs c h some_bytes fuel enough = absurd (omega arith)
  scan_entries_lem (suc f) test ofs c h some_bytes fuel enough =
      elim (Bool-cases (ltb inode.length (ofs + layout.size))) [
        | inl outside ↦
            let (c1, e, h1) = read_entry-none ofs c h (ground arith) some_bytes in
            (c1, scan_entries-end f test ofs c c1 e ∙ rw outside refl, h1)
        | inr inside ↦
            let (c1, e, h1) = read_entry-some ofs c h (ground arith) in
            let room : ofs + layout.size ≤ inode.length = ground arith in
            elim (Bool-cases (test (entry_at ofs))) [
              | inl passes ↦ (
                c1,
                scan_entries-found f test ofs (entry_at ofs) c c1 e passes
                    ∙ rw (inside, passes) refl,
                h1,
              )
              | inr fails ↦
                  let (c2, e2, h2) =
                    scan_entries_lem f test (ofs + layout.size) c1 h1 some_bytes (omega arith)
                      (omega arith) in
                  (
                    c2,
                    scan_entries-next f test ofs (entry_at ofs) c c1 e fails
                        ∙ e2
                        ∙ rw (inside, fails) refl,
                    h2,
                  )
            ]
      ]

  -- All entries behind the first, which names the parent.
  abbrev pub children : List (DirEntry × ℕ)
  children = entries (inode.length + 1) layout.size

  -- `lookup` ends, whatever the name. Of the entries of the directory's file behind the first it gives the
  -- first one that is in use and has the name, with its offset, or none where there is no such entry. The
  -- content of the disk stays as it is.
  pub lookup_lem :
      (name : Text) (c : Cache)
      → StandsFor content c
      → 0 < layout.size
      → Yields content (lookup words layout inode name c) (
          first_entry
            (has_name words layout name)
            children
            (end_of_entries (inode.length + 1) layout.size))
  unfolding lookup
  lookup_lem name c h some_bytes =
      scan_entries_lem (inode.length + 1) (has_name words layout name) layout.size c h some_bytes
        (omega arith) (omega arith)

  -- Whether no entry is in use.
  abbrev pub NoneInUse : List (DirEntry × ℕ) → Type 0
  NoneInUse es = All (λ p. p.0.in_use ≡ false) es

  is_none-NoneInUse :
      (es : List (DirEntry × ℕ)) (end : ℕ)
      → (is_none words layout (first_entry (λ e. e.in_use) es end).0 ≡ true) ↔ NoneInUse es
  unfolding is_none
  is_none-NoneInUse [] end = ((λ e. tt), (λ h. refl))
  is_none-NoneInUse ((d, ofs) ∷ es) end =
      let rest = is_none-NoneInUse es end in
      elim d.in_use
        as (λ b.
          (is_none words layout (if b then (some d, ofs) else first_entry (λ e. e.in_use) es end).0
            ≡ true)
          ↔ ((b ≡ false) × NoneInUse es)) [
            | true ↦ ((λ e. absurd (cc e)), (λ h. absurd (cc h.0)))
            | false ↦ ((λ e. (refl, rest.0 e)), (λ h. rest.1 h.1))
          ]

  dir_is_empty-found :
      (found : Option DirEntry) (ofs : ℕ) (c c1 : Cache)
      → scan_entries words layout (inode.length + 1) (λ e. e.in_use) inode layout.size c
        ≡ some ((found, ofs), c1)
      → dir_is_empty words layout inode c ≡ some (is_none words layout found, c1)
  unfolding dir_is_empty
  dir_is_empty-found found ofs c c1 e = rw (e, dir_is_empty) refl

  -- `dir_is_empty` ends, and says that the directory is empty exactly where no entry behind the first, which
  -- names the parent, is in use. The content of the disk stays as it is.
  pub dir_is_empty_lem :
      (c : Cache)
      → StandsFor content c
      → 0 < layout.size
      → (b : Bool) × Yields content (dir_is_empty words layout inode c) b
        × ((b ≡ true) ↔ NoneInUse children)
  dir_is_empty_lem c h some_bytes =
      let end = end_of_entries (inode.length + 1) layout.size in
      let found = first_entry (λ e. e.in_use) children end in
      let (c1, e, h1) =
        scan_entries_lem (inode.length + 1) (λ e. e.in_use) layout.size c h some_bytes (omega arith)
          (omega arith) in
      (
        is_none words layout found.0,
        (c1, dir_is_empty-found found.0 found.1 c c1 e, h1),
        is_none-NoneInUse children end,
      )
