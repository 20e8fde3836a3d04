-- ===== src/Fs/Directory/Written.antt =====
-- The entries of a directory's file behind a write of one entry into a place that was not in use.
use comp310_assignments.Prelude.{
  ℕ, zero, suc, ◌+◌, ◌≤◌, ◌<◌, ◌≡◌, refl, ap, ◌∙◌, Bool, true, ◌∷◌, none, some, ltb, length, All,
  arith, inl, inr, Bool-cases,
}
use comp310_assignments.Fs.Cache.{Block}
use comp310_assignments.Fs.Inode.{InodeDisk}
use comp310_assignments.Fs.Inode.Access.Slice.{byte_at, slice}
use comp310_assignments.Fs.Inode.Access.Wrote.{Wrote}
use comp310_assignments.Fs.Inode.Update.RoundTrip.{slice-bytes}
use comp310_assignments.Fs.Directory.{DirEntry, EntryLayout}
use comp310_assignments.Fs.Directory.Entries.{first_entry, entry_at, entries}

-- A name without NUL that fits, and a sector of 32 bits.
abbrev pub FitsEntry : DirEntry → Type 0
FitsEntry e =
    (length e.name < 31) × (e.inode_sector < 4294967296) × All (λ c. (0 < c) × (c < 256)) e.name

-- An entry that fits is read as it was written.
pub record IsLayout (layout : EntryLayout) : Type 0 where
  pub decoded : (e : DirEntry) → FitsEntry e → layout.decode_entry (layout.encode_entry e) ≡ e
  pub sized : (e : DirEntry) → length (layout.encode_entry e) ≡ layout.size
  pub some_bytes : 0 < layout.size

module _ (words : Block → ℕ → ℕ) (layout : EntryLayout) (law : IsLayout layout)
    (content after : ℕ → Block) (inode : InodeDisk) (ofs : ℕ) (new : DirEntry)
    (fits : FitsEntry new)
    (w : Wrote words inode content after ofs layout.size (layout.encode_entry new))
    (inside : ofs + layout.size ≤ inode.length) where
  slice-kept : (o n : ℕ) → o + n ≤ ofs → slice words after inode o n ≡ slice words content inode o n
  slice-kept o zero le = refl
  slice-kept o (suc n) le =
      ap (λ b. b ∷ slice words after inode (o + 1) n)
        (w.kept o (omega (arith, inside, law.some_bytes)) (inl (omega arith)))
      ∙ ap (λ r. byte_at words content inode o ∷ r) (slice-kept (o + 1) n (omega arith))

  entry_at-before :
      (o : ℕ)
      → o + layout.size ≤ ofs
      → entry_at words layout after inode o ≡ entry_at words layout content inode o
  entry_at-before o le = ap layout.decode_entry (slice-kept o layout.size le)

  entry_at-new : entry_at words layout after inode ofs ≡ new
  entry_at-new =
      ap layout.decode_entry (
        slice-bytes words after inode ofs layout.size (layout.encode_entry new) (law.sized new)
          w.written)
      ∙ law.decoded new fits

  -- The entry that is found is not before the start.
  first_entry-above :
      (test : DirEntry → Bool) (f o end : ℕ) (e : DirEntry) (at : ℕ)
      → first_entry test (entries words layout content inode f o) end ≡ (some e, at)
      → o ≤ at
  first_entry-above test zero o end e at found = absurd (cc (ap (λ r. r.0) found))
  first_entry-above test (suc f) o end e at found =
      elim (Bool-cases (ltb inode.length (o + layout.size))) [
        | inl outside ↦ absurd (cc (ap (λ r. r.0) (rw outside at found)))
        | inr room ↦ elim (Bool-cases (test (entry_at words layout content inode o))) [
          | inl passes ↦
              let same : o ≡ at = ap (λ r. r.1) (rw (room, passes) at found) in omega arith
          | inr fails ↦
              let later =
                first_entry-above test f (o + layout.size) end e at (rw (room, fails) at found) in
              omega arith
        ]
      ]

  -- A test that the new entry passes and no old one does finds the new entry.
  pub first_entry-new :
      (free test : DirEntry → Bool) (f g o end end' last last' : ℕ) (e : DirEntry)
      → test new ≡ true
      → f ≤ g
      → first_entry free (entries words layout content inode f o) end ≡ (some e, ofs)
      → first_entry test (entries words layout content inode g o) end' ≡ (none, last)
      → first_entry test (entries words layout after inode g o) last' ≡ (some new, ofs)
  first_entry-new free test zero g o end end' last last' e passes le found never =
      absurd (cc (ap (λ r. r.0) found))
  first_entry-new free test (suc f) zero o end end' last last' e passes le found never =
      absurd (omega arith)
  first_entry-new free test (suc f) (suc g) o end end' last last' e passes le found never =
      elim (Bool-cases (ltb inode.length (o + layout.size))) [
        | inl outside ↦ absurd (cc (ap (λ r. r.0) (rw outside at found)))
        | inr room ↦ elim (Bool-cases (free (entry_at words layout content inode o))) [
          | inl here ↦
              let same : o ≡ ofs = ap (λ r. r.1) (rw (room, here) at found) in
              let read : entry_at words layout after inode o ≡ new =
                ap (entry_at words layout after inode) same ∙ entry_at-new in
              rw (room, read, passes) (ap (λ i. (some new, i)) same)
          | inr used ↦
              let rest = rw (room, used) at found in
              let later = first_entry-above free f (o + layout.size) end e ofs rest in
              let same = entry_at-before o later in
              elim (Bool-cases (test (entry_at words layout content inode o))) [
                | inl there ↦ absurd (cc (ap (λ r. r.0) (rw (room, there) at never)))
                | inr not_there ↦
                    let next =
                      first_entry-new free test f g (o + layout.size) end end' last last' e passes
                        (omega arith) rest (rw (room, not_there) at never) in
                    rw (room, same, not_there) next
              ]
        ]
      ]
