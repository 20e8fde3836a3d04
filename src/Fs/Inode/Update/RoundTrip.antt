-- ===== src/Fs/Inode/Update/RoundTrip.antt =====
-- A write within a file, and reading it back.
use comp310_assignments.Prelude.{
  ℕ, zero, suc, ◌+◌, ◌-◌, ◌/◌, ◌≤◌, ◌<◌, ◌≡◌, ◌≢◌, refl, ap, ◌∙◌, subst, List, [], ◌∷◌, Option,
  some, arith, length, get_or,
}
use comp310_assignments.Fs.Cache.{Block, Cache}
use comp310_assignments.Fs.Inode.{InodeDisk, Inode, no_sector, byte_to_sector}
use comp310_assignments.Fs.Inode.Access.{write_loop, inode_read_at}
use comp310_assignments.Fs.Inode.Access.Slice.{sector_of, byte_at, slice}
use comp310_assignments.Fs.Inode.Access.Layout.{HasLayout}
use comp310_assignments.Fs.Inode.Access.Wrote.{Wrote}
use comp310_assignments.Fs.Inode.Access.Read.{
  StandsFor, Yields, readable, byte_to_sector-Yields, inode_read_at_lem,
}
use comp310_assignments.Fs.Inode.Access.Write.{write_loop_lem}
use comp310_assignments.Fs.Inode.Reserve.{Disk}
use comp310_assignments.Fs.Inode.Update.{sector_before, write_bytes, inode_write_at}

-- A part of a file is a list if it is so byte by byte.
pub slice-bytes :
    (words : Block → ℕ → ℕ) (content : ℕ → Block) (inode : InodeDisk) (o n : ℕ) (bytes : List ℕ)
    → length bytes ≡ n
    → ((i : ℕ) → i < n → byte_at words content inode (o + i) ≡ get_or bytes i 0)
    → slice words content inode o n ≡ bytes
slice-bytes words content inode o zero [] e h = refl
slice-bytes words content inode o zero (x ∷ bytes) e h = absurd (omega arith)
slice-bytes words content inode o (suc n) [] e h = absurd (omega arith)
slice-bytes words content inode o (suc n) (x ∷ bytes) e h =
    let here : o ≡ o + 0 = omega arith in
    ap (λ p. byte_at words content inode p ∷ slice words content inode (o + 1) n) here
    ∙ ap (λ b. b ∷ slice words content inode (o + 1) n) (h 0 (omega arith))
    ∙ ap (λ r. x ∷ r)
        (slice-bytes words content inode (o + 1) n bytes (omega arith) (λ i lt.
          let there : o + 1 + i ≡ o + suc i = omega arith in
          ap (byte_at words content inode) there ∙ h (suc i) (omega arith)))

readable-all :
    (length offset size : ℕ) → offset + size ≤ length → readable length offset size ≡ size
readable-all length offset size le = ground arith

module _ {M : Type 0} (words : Block → ℕ → ℕ) (set_word : Block → ℕ → ℕ → Block)
    (free_map_allocate : Disk M → Option ℕ × Disk M) (encode : InodeDisk → Block) where
  inode_write_at-bytes :
      (inode : Inode) (size offset sector : ℕ) (buffer : List ℕ) (d : Disk M) (c : Cache)
      → inode.deny_write_cnt ≡ 0
      → sector_before words set_word free_map_allocate encode inode.contents (offset + size) d.cache
        ≡ some (sector, c)
      → sector ≢ no_sector
      → inode_write_at words set_word free_map_allocate encode inode size offset buffer d
        ≡ write_bytes words set_word free_map_allocate encode inode size offset buffer
            (record d { cache = c })
  unfolding inode_write_at
  inode_write_at-bytes inode size offset sector buffer d c e e' ne = ground arith

  sector_before-suc :
      (inode : InodeDisk) (p q : ℕ) (c : Cache)
      → q ≡ suc p
      → sector_before words set_word free_map_allocate encode inode q c
        ≡ byte_to_sector words inode p c
  unfolding sector_before
  sector_before-suc inode p q c e =
      ap (λ k. sector_before words set_word free_map_allocate encode inode k c) e

  write_bytes-some :
      (inode : Inode) (size offset n : ℕ) (buffer : List ℕ) (d : Disk M) (c : Cache)
      → write_loop words (size + 1) inode.contents size offset 0 buffer d.cache ≡ some (n, c)
      → write_bytes words set_word free_map_allocate encode inode size offset buffer d
        ≡ some (record { bytes_written = n; inode = inode; disk = record d { cache = c } })
  unfolding write_bytes
  write_bytes-some inode size offset n buffer d c e = ground arith

  -- The write, with the content that the cache stands for after it.
  pub inode_write_at-Wrote :
      (inode : Inode) (size offset : ℕ) (buffer : List ℕ) (d : Disk M) (content : ℕ → Block)
      → StandsFor content d.cache
      → HasLayout words inode.contents content
      → inode.deny_write_cnt ≡ 0
      → length buffer ≡ size
      → 0 < size
      → offset + size ≤ inode.contents.length
      → sector_of words content inode.contents ((offset + size - 1) / 512) ≢ no_sector
      → (c' : Cache) × (after : ℕ → Block) × (inode_write_at words set_word free_map_allocate encode
            inode size offset buffer d
          ≡ some (record { bytes_written = size; inode = inode; disk = record d { cache = c' } }))
        × Wrote words inode.contents content after offset size buffer
        × StandsFor after c'
  inode_write_at-Wrote inode size offset buffer d content h layout allowed full some_bytes inside
        found =
      let (c1, e1, h1) =
        byte_to_sector-Yields words content inode.contents (offset + size - 1) d.cache (omega arith)
          h in
      let last : offset + size ≡ suc (offset + size - 1) = omega arith in
      let n = readable inode.contents.length offset size in
      let all : n ≡ size = readable-all inode.contents.length offset size inside in
      let (c2, after, e2, h2, w) =
        write_loop_lem words inode.contents (size + 1) size offset 0 buffer content c1 (omega arith)
          full layout h1 in
      let wrote : Wrote words inode.contents content after offset size buffer =
        subst (λ k. Wrote words inode.contents content after offset k buffer) all w in
      let count : 0 + n ≡ size = omega (arith, all) in
      (
        c2,
        after,
        inode_write_at-bytes inode size offset
              (sector_of words content inode.contents ((offset + size - 1) / 512)) buffer d c1
              allowed
              (sector_before-suc inode.contents (offset + size - 1) (offset + size) d.cache last
                ∙ e1)
              found
            ∙ write_bytes-some inode size offset (0 + n) buffer (record d { cache = c1 }) c2 e2
            ∙ ap
                (λ k.
                  some
                    (record { bytes_written = k; inode = inode; disk = record d { cache = c2 } }))
                count,
        wrote,
        h2,
      )

  -- In a file whose sectors are apart, `inode_write_at` of bytes that lie within the file, where writes
  -- are not denied, ends and writes them all. It leaves the inode, the free map and every other byte of
  -- the file as they are, and `inode_read_at` gives the bytes back.
  pub inode_read_at-inode_write_at :
      (inode : Inode) (size offset : ℕ) (buffer : List ℕ) (d : Disk M) (content : ℕ → Block)
      → StandsFor content d.cache
      → HasLayout words inode.contents content
      → inode.deny_write_cnt ≡ 0
      → length buffer ≡ size
      → 0 < size
      → offset + size ≤ inode.contents.length
      → sector_of words content inode.contents ((offset + size - 1) / 512) ≢ no_sector
      → (c' : Cache) × (after : ℕ → Block) × (inode_write_at words set_word free_map_allocate encode
            inode size offset buffer d
          ≡ some (record { bytes_written = size; inode = inode; disk = record d { cache = c' } }))
        × Wrote words inode.contents content after offset size buffer
        × Yields after (inode_read_at words inode.contents size offset c') buffer
  inode_read_at-inode_write_at inode size offset buffer d content h layout allowed full some_bytes
        inside found =
      let (c2, after, e2, wrote, h2) =
        inode_write_at-Wrote inode size offset buffer d content h layout allowed full some_bytes
          inside found in
      let all = readable-all inode.contents.length offset size inside in
      let (c3, e3, h3) = inode_read_at_lem words after inode.contents size offset c2 h2 in
      (
        c2,
        after,
        e2,
        wrote,
        (
          c3,
          e3
              ∙ ap (λ k. some (slice words after inode.contents offset k, c3)) all
              ∙ ap (λ b. some (b, c3))
                  (slice-bytes words after inode.contents offset size buffer full wrote.written),
          h3,
        ),
      )
