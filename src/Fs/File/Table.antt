-- ===== src/Fs/File/Table.antt =====
-- Names in the table of open files.
use comp310_assignments.Prelude.{
  ℕ, ◌≡◌, refl, false, List, [], ◌∷◌, none, some, Text, sym, ◌∙◌, subst, Option, false≢true, streq,
  streq_iff, streq_ne, streq_self, arith, inl, inr, Option-cases, Bool-cases,
}
use comp310_assignments.Fs.File.{
  FileTableEntry, get_file_by_fname, push_entry, add_to_file_table, remove_entry,
}

get_file_by_fname-push_new :
    (file : ℕ) (fname : Text) (t : List FileTableEntry)
    → get_file_by_fname fname t ≡ none
    → get_file_by_fname fname (push_entry (record { fname = fname; file = file }) t) ≡ some file
unfolding get_file_by_fname push_entry
get_file_by_fname-push_new file fname [] e = rw (streq_self fname, get_file_by_fname) refl
get_file_by_fname-push_new file fname (x ∷ t) e = elim (Bool-cases (streq x.fname fname)) [
  | inl same ↦ absurd (ground arith)
  | inr other ↦
      let e' : get_file_by_fname fname t ≡ none = ground arith in
      let rest = get_file_by_fname-push_new file fname t e' in ground arith
]

get_file_by_fname-push_other :
    (file : ℕ) (fname other : Text) (t : List FileTableEntry)
    → streq fname other ≡ false
    → get_file_by_fname other (push_entry (record { fname = fname; file = file }) t)
      ≡ get_file_by_fname other t
unfolding get_file_by_fname push_entry
get_file_by_fname-push_other file fname other [] ne = rw (ne, get_file_by_fname) refl
get_file_by_fname-push_other file fname other (x ∷ t) ne = elim (Bool-cases (streq x.fname other)) [
  | inl same ↦ ground arith
  | inr apart ↦ let rest = get_file_by_fname-push_other file fname other t ne in ground arith
]

-- No name is in the table twice.
abbrev pub UniqueNames : List FileTableEntry → Type 0
UniqueNames [] = Unit
UniqueNames (e ∷ t) = (get_file_by_fname e.fname t ≡ none) × UniqueNames t

UniqueNames-push :
    (file : ℕ) (fname : Text) (t : List FileTableEntry)
    → UniqueNames t
    → get_file_by_fname fname t ≡ none
    → UniqueNames (push_entry (record { fname = fname; file = file }) t)
unfolding get_file_by_fname push_entry
UniqueNames-push file fname [] h e = (refl, tt)
UniqueNames-push file fname (x ∷ t) h e = elim (Bool-cases (streq x.fname fname)) [
  | inl same ↦ absurd (ground arith)
  | inr other ↦ (
    get_file_by_fname-push_other file fname x.fname t (
          streq_ne fname x.fname
            (λ p. false≢true (sym other ∙ (streq_iff x.fname fname).1 (sym p))))
        ∙ h.0,
    UniqueNames-push file fname t h.1 (ground arith),
  )
]

-- Where no name is in the table twice, the first entry of a name is its only one.
get_file_by_fname-remove_entry :
    (fname : Text) (t : List FileTableEntry)
    → UniqueNames t
    → get_file_by_fname fname (remove_entry fname t) ≡ none
unfolding get_file_by_fname remove_entry
get_file_by_fname-remove_entry fname [] h = refl
get_file_by_fname-remove_entry fname (x ∷ t) h = elim (Bool-cases (streq x.fname fname)) [
  | inl same ↦
      let here : x.fname ≡ fname = (streq_iff x.fname fname).0 same in
      rw (same, get_file_by_fname, remove_entry)
        (subst (λ n. get_file_by_fname n t ≡ none) here h.0)
  | inr other ↦ let rest = get_file_by_fname-remove_entry fname t h.1 in ground arith
]

-- The file of a name behind `add_to_file_table`.
abbrev pub file_or : Option ℕ → ℕ → ℕ
file_or none file = file
file_or (some f) file = f

-- `add_to_file_table` keeps the names in the table different from each other: behind it, the name has the
-- file that it had before, or the one that is added where it had none, the files of the other names are as
-- before, and `remove_entry`, which removes one entry, leaves none of the name.
pub add_to_file_table-UniqueNames :
    (file : ℕ) (fname : Text) (t : List FileTableEntry)
    → UniqueNames t
    → UniqueNames (add_to_file_table file fname t)
      × (get_file_by_fname fname (add_to_file_table file fname t)
          ≡ some (file_or (get_file_by_fname fname t) file))
      × ((other : Text)
          → streq fname other ≡ false
          → get_file_by_fname other (add_to_file_table file fname t) ≡ get_file_by_fname other t)
      × (get_file_by_fname fname (remove_entry fname (add_to_file_table file fname t)) ≡ none)
unfolding add_to_file_table
add_to_file_table-UniqueNames file fname t h =
    let added : FileTableEntry = record { fname = fname; file = file } in
    elim (Option-cases (get_file_by_fname fname t)) [
      | inl e ↦
          let unique = UniqueNames-push file fname t h e in
          rw (e, add_to_file_table)
            (
              unique,
              get_file_by_fname-push_new file fname t e,
              (λ other ne. get_file_by_fname-push_other file fname other t ne),
              get_file_by_fname-remove_entry fname (push_entry added t) unique,
            )
      | inr (f, e) ↦
          rw (e, add_to_file_table)
            (h, e, (λ other ne. refl), get_file_by_fname-remove_entry fname t h)
    ]
