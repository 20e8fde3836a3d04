-- ===== src/Fs/Inode/Access/Read.antt =====
-- inode_read_at reads the bytes of the file.
use mathlib.Core.List.{append_assoc, append-nil}
use comp310_assignments.Prelude.{
  ℕ, zero, suc, ◌+◌, ◌-◌, ◌/◌, ◌%◌, ◌≤◌, ◌<◌, ◌≡◌, refl, sym, ap, ◌∙◌, subst, fun_ext, List, [],
  ◌++◌, Option, some, arith, length, Nat-order, Nat-cases, inl, inr, ◌≢◌,
}
use comp310_assignments.Fs.Cache.{Block, Cache, buffer_cache_read}
use comp310_assignments.Fs.Cache.View.{view, IsCoherent}
use comp310_assignments.Fs.Cache.Refine.{buffer_cache_read_lem}
use comp310_assignments.Fs.Inode.{InodeDisk, no_sector, byte_to_sector}
use comp310_assignments.Fs.Inode.Access.{lesser, chunk_size, chunk_of, read_loop, inode_read_at}
use comp310_assignments.Fs.Inode.Access.Slice.{
  bytes_of, chunk_of-bytes, sector_of, slice, slice-append, slice-chunk, index_to_sector-sector_of,
}

-- A coherent cache that stands for `content`, every sector of which has 512 bytes.
pub record StandsFor (content : ℕ → Block) (c : Cache) : Type 0 where
  pub coherent : IsCoherent c
  pub same : view c ≡ content
  pub formatted : (s : ℕ) → length (content s) ≡ 512

-- The result is `x`, with a cache that stands for the same content.
abbrev pub Yields : {A : Type 0} → (ℕ → Block) → Option (A × Cache) → A → Type 0
Yields content result x = (c' : Cache) × (result ≡ some (x, c')) × StandsFor content c'

-- The bytes of a read of `size` bytes that are in the file.
abbrev pub readable : (length offset size : ℕ) → ℕ
readable length offset size = lesser size (length - offset)

module _ (words : Block → ℕ → ℕ) (content : ℕ → Block) (inode : InodeDisk) where
  pub byte_to_sector-Yields :
      (pos : ℕ) (c : Cache)
      → pos < inode.length
      → StandsFor content c
      → Yields content
          (byte_to_sector words inode pos c)
          (sector_of words content inode (pos / 512))
  unfolding byte_to_sector
  byte_to_sector-Yields pos c lt h =
      let (c', e, k, same) = index_to_sector-sector_of words inode c (pos / 512) h.coherent in
      (
        c',
        ground arith ∙ ap (λ v. some (sector_of words v inode (pos / 512), c')) h.same,
        record { coherent = k; same = fun_ext same ∙ h.same; formatted = h.formatted },
      )

  pub byte_to_sector-beyond :
      (pos : ℕ) (c : Cache)
      → inode.length ≤ pos
      → byte_to_sector words inode pos c ≡ some (no_sector, c)
  unfolding byte_to_sector
  byte_to_sector-beyond pos c le = ground arith

  pub read-Yields :
      (sector : ℕ) (c : Cache)
      → StandsFor content c
      → Yields content (buffer_cache_read sector c) (content sector)
  read-Yields sector c h =
      let (c', e, k, same) = buffer_cache_read_lem sector c h.coherent in
      (
        c',
        e ∙ ap (λ v. some (v sector, c')) h.same,
        record { coherent = k; same = fun_ext same ∙ h.same; formatted = h.formatted },
      )

  read_loop-done :
      (f size offset : ℕ) (buffer : List ℕ) (c : Cache)
      → size ≡ 0
      → read_loop words (suc f) inode size offset buffer c ≡ some (buffer, c)
  unfolding read_loop
  read_loop-done f size offset buffer c e = ground arith

  read_loop-break :
      (f size offset sector : ℕ) (buffer : List ℕ) (c c1 : Cache)
      → size ≢ 0
      → byte_to_sector words inode offset c ≡ some (sector, c1)
      → chunk_size inode.length offset size ≡ 0
      → read_loop words (suc f) inode size offset buffer c ≡ some (buffer, c1)
  unfolding read_loop
  read_loop-break f size offset sector buffer c c1 ne e e' = ground arith

  read_loop-step :
      (f size offset sector : ℕ) (block : Block) (buffer : List ℕ) (c c1 c2 : Cache)
      → size ≢ 0
      → byte_to_sector words inode offset c ≡ some (sector, c1)
      → chunk_size inode.length offset size ≢ 0
      → buffer_cache_read sector c1 ≡ some (block, c2)
      → let chunk = chunk_size inode.length offset size in
        read_loop words (suc f) inode size offset buffer c
        ≡ read_loop words f inode
            (size - chunk)
            (offset + chunk)
            (buffer ++ chunk_of block offset chunk)
            c2
  unfolding read_loop
  read_loop-step f size offset sector block buffer c c1 c2 ne e e' e'' = ground arith

pub chunk_size_lem :
    (length offset size : ℕ)
    → size ≢ 0
    → offset < length
    → let chunk = chunk_size length offset size in
      (chunk ≢ 0)
      × (offset % 512 + chunk ≤ 512)
      × (chunk ≤ size)
      × (readable length offset size ≡ chunk + readable length (offset + chunk) (size - chunk))
      × (offset + chunk ≤ length)
unfolding chunk_size
chunk_size_lem length offset size ne lt =
    (ground arith, ground arith, ground arith, ground arith, ground arith)

pub chunk_size-beyond :
    (length offset size : ℕ) → length ≤ offset → chunk_size length offset size ≡ 0
unfolding chunk_size
chunk_size-beyond length offset size le = ground arith

module _ (words : Block → ℕ → ℕ) (content : ℕ → Block) (inode : InodeDisk) where
  -- The file's bytes from `o` on.
  abbrev pub file_slice : (o n : ℕ) → List ℕ
  file_slice o n = slice words content inode o n

  slice-empty : (buffer : List ℕ) (o n : ℕ) → n ≡ 0 → buffer ≡ buffer ++ file_slice o n
  slice-empty buffer o n e =
      subst (λ k. buffer ≡ buffer ++ file_slice o k) (sym e) (sym (append-nil buffer))

  -- One round and what the rest gives.
  slice-round :
      (buffer : List ℕ) (block : Block) (o chunk rest n : ℕ)
      → block ≡ content (sector_of words content inode (o / 512))
      → length block ≡ 512
      → o % 512 + chunk ≤ 512
      → n ≡ chunk + rest
      → (buffer ++ chunk_of block o chunk) ++ file_slice (o + chunk) rest ≡ buffer ++ file_slice o n
  slice-round buffer block o chunk rest n e formatted le sum =
      append_assoc buffer (chunk_of block o chunk) (file_slice (o + chunk) rest)
      ∙ ap (λ r. buffer ++ (r ++ file_slice (o + chunk) rest))
          (chunk_of-bytes block o chunk formatted le
            ∙ ap (λ b. bytes_of b (o % 512) chunk) e
            ∙ sym (slice-chunk words content inode o chunk le))
      ∙ ap (λ r. buffer ++ r)
          (sym (slice-append words content inode o chunk rest) ∙ ap (file_slice o) (sym sum))

  read_loop_lem :
      (f size offset : ℕ) (buffer : List ℕ) (c : Cache)
      → size < f
      → StandsFor content c
      → Yields content
          (read_loop words f inode size offset buffer c)
          (buffer ++ file_slice offset (readable inode.length offset size))
  read_loop_lem zero size offset buffer c lt h = absurd (omega arith)
  read_loop_lem (suc f) size offset buffer c lt h = elim (Nat-cases size 0) [
    | inl none_left ↦ (
      c,
      read_loop-done words content inode f size offset buffer c none_left
          ∙ ap (λ b. some (b, c))
              (slice-empty buffer offset (readable inode.length offset size) (ground arith)),
      h,
    )
    | inr ne ↦ elim (Nat-order inode.length offset) [
      | inl past ↦ (
        c,
        read_loop-break words content inode f size offset no_sector buffer c c ne
              (byte_to_sector-beyond words content inode offset c past)
              (chunk_size-beyond inode.length offset size past)
            ∙ ap (λ b. some (b, c))
                (slice-empty buffer offset (readable inode.length offset size) (ground arith)),
        h,
      )
      | inr within ↦
          let (c1, e1, h1) = byte_to_sector-Yields words content inode offset c within h in
          let sector = sector_of words content inode (offset / 512) in
          let (c2, e2, h2) = read-Yields words content inode sector c1 h1 in
          let chunk = chunk_size inode.length offset size in
          let (some_read, fits, upto, sum, inside) =
            chunk_size_lem inode.length offset size ne within in
          let (c', e3, h3) =
            read_loop_lem f (size - chunk) (offset + chunk)
              (buffer ++ chunk_of (content sector) offset chunk) c2 (omega arith) h2 in
          (
            c',
            read_loop-step words content inode f size offset sector (content sector) buffer c c1 c2
                  ne e1 some_read e2
                ∙ e3
                ∙ ap (λ b. some (b, c'))
                    (slice-round buffer (content sector) offset chunk
                      (readable inode.length (offset + chunk) (size - chunk))
                      (readable inode.length offset size) refl (h.formatted sector) fits sum),
            h3,
          )
    ]
  ]

  -- `inode_read_at` ends. It reads the bytes of the file from `offset` on, `size` of them or as many as
  -- there are up to the file's end, through a coherent cache, and leaves every content as it is.
  pub inode_read_at_lem :
      (size offset : ℕ) (c : Cache)
      → StandsFor content c
      → Yields content
          (inode_read_at words inode size offset c)
          (file_slice offset (readable inode.length offset size))
  unfolding inode_read_at
  inode_read_at_lem size offset c h = read_loop_lem (size + 1) size offset [] c (omega arith) h
