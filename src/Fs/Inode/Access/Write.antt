-- ===== src/Fs/Inode/Access/Write.antt =====
-- The loop of inode_write_at writes the bytes of the file, and nothing else of it.
use comp310_assignments.Prelude.{
  ℕ, zero, suc, ◌+◌, ◌-◌, ◌/◌, ◌%◌, ◌≤◌, ◌<◌, ◌≡◌, ◌≢◌, ◌⊎◌, inl, inr, refl, sym, ap, ◌∙◌, subst,
  fun_ext, List, Option, some, arith, ◌==◌, length, length-replicate, take, drop, length-take,
  length-drop, Nat-cases, Nat-order, Bool-cases, ◌&&◌,
}
use comp310_assignments.Fs.Cache.{Block, Cache, update, buffer_cache_write}
use comp310_assignments.Fs.Cache.View.{view}
use comp310_assignments.Fs.Cache.Refine.{buffer_cache_write_lem}
use comp310_assignments.Fs.Inode.{InodeDisk, no_sector, byte_to_sector}
use comp310_assignments.Fs.Inode.Access.{zeros, chunk_size, block_with, old_block, write_loop}
use comp310_assignments.Fs.Inode.Access.Slice.{sector_of}
use comp310_assignments.Fs.Inode.Access.Overlay.{Holds, block_with-Holds}
use comp310_assignments.Fs.Inode.Access.Layout.{HasLayout, update_self, update_ne}
use comp310_assignments.Fs.Inode.Access.Wrote.{
  Wrote, Wrote-none, Wrote-round, Wrote-trans, Holds-whole,
}
use comp310_assignments.Fs.Inode.Access.Read.{
  StandsFor, readable, read-Yields, byte_to_sector-Yields, byte_to_sector-beyond, chunk_size_lem,
  chunk_size-beyond,
}

-- Writing a block of 512 bytes.
write-StandsFor :
    (content : ℕ → Block) (sector : ℕ) (b : Block) (c : Cache)
    → StandsFor content c
    → length b ≡ 512
    → (c' : Cache) × (buffer_cache_write sector b c ≡ some c')
      × StandsFor (update content sector b) c'
write-StandsFor content sector b c h full =
    let (c', e, k, new, others) = buffer_cache_write_lem sector b c h.coherent in
    (
      c',
      e,
      record {
        coherent = k;
        same = fun_ext (λ t. elim (Nat-cases sector t) [
          | inl here ↦
              subst (λ u. view c' u ≡ update content sector b u) here
                (new ∙ sym (update_self content sector b))
          | inr ne ↦
              others t ne
              ∙ ap (λ (v : ℕ → Block). v t) h.same
              ∙ sym (update_ne content sector t b ne)
        ]);
        formatted = λ t. elim (Nat-cases sector t) [
          | inl here ↦
              subst (λ u. length (update content sector b u) ≡ 512) here
                (ap length (update_self content sector b) ∙ full)
          | inr ne ↦ ap length (update_ne content sector t b ne) ∙ h.formatted t
        ];
      },
    )

zeros_full : length zeros ≡ 512
zeros_full = length-replicate {A = ℕ} 512 0

module _ (words : Block → ℕ → ℕ) (content : ℕ → Block) (inode : InodeDisk) where
  -- The block that a round starts from is the sector's content, or the round covers it whole.
  old_block-Yields :
      (sector offset chunk : ℕ) (c : Cache)
      → StandsFor content c
      → offset % 512 + chunk ≤ 512
      → (block : Block) × (c' : Cache) × (old_block sector offset chunk c ≡ some (block, c'))
        × StandsFor content c'
        × (length block ≡ 512)
        × ((block ≡ content sector) ⊎ ((offset % 512 ≡ 0) × (chunk ≡ 512)))
  unfolding old_block
  old_block-Yields sector offset chunk c h le =
      elim (Bool-cases (offset % 512 == 0 && chunk == 512)) [
        | inl whole ↦ (zeros, c, ground arith, h, zeros_full, inr (ground arith, ground arith))
        | inr part ↦
            let (c', e, h') = read-Yields words content inode sector c h in
            (content sector, c', ground arith, h', h.formatted sector, inl refl)
      ]

-- The result is the number of bytes, with a cache that stands for the content with those bytes in the file.
abbrev pub Writes :
    (words : Block → ℕ → ℕ)
    → InodeDisk
    → (content : ℕ → Block) → (o n : ℕ) → List ℕ
    → Option (ℕ × Cache)
    → ℕ
    → Type 0
Writes words inode content o n bytes result count =
    (c' : Cache) × (after : ℕ → Block) × (result ≡ some (count, c'))
    × StandsFor after c'
    × Wrote words inode content after o n bytes

module _ (words : Block → ℕ → ℕ) (inode : InodeDisk) where
  write_loop-done :
      (f size offset written : ℕ) (buffer : List ℕ) (c : Cache)
      → size ≡ 0
      → write_loop words (suc f) inode size offset written buffer c ≡ some (written, c)
  unfolding write_loop
  write_loop-done f size offset written buffer c e = ground arith

  write_loop-break :
      (f size offset written sector : ℕ) (buffer : List ℕ) (c c1 : Cache)
      → size ≢ 0
      → byte_to_sector words inode offset c ≡ some (sector, c1)
      → chunk_size inode.length offset size ≡ 0
      → write_loop words (suc f) inode size offset written buffer c ≡ some (written, c1)
  unfolding write_loop
  write_loop-break f size offset written sector buffer c c1 ne e e' = ground arith

  write_loop-step :
      (f size offset written sector : ℕ) (buffer : List ℕ) (block : Block) (c c1 c2 c3 : Cache)
      → size ≢ 0
      → byte_to_sector words inode offset c ≡ some (sector, c1)
      → chunk_size inode.length offset size ≢ 0
      → old_block sector offset (chunk_size inode.length offset size) c1 ≡ some (block, c2)
      → (let chunk = chunk_size inode.length offset size in
          buffer_cache_write sector (block_with offset chunk (take chunk buffer) block) c2
          ≡ some c3)
      → let chunk = chunk_size inode.length offset size in
        write_loop words (suc f) inode size offset written buffer c
        ≡ write_loop words f inode
            (size - chunk)
            (offset + chunk)
            (written + chunk)
            (drop chunk buffer)
            c3
  unfolding write_loop
  write_loop-step f size offset written sector buffer block c c1 c2 c3 ne e e1 e2 e3 = ground arith

  -- What a round puts into the sector.
  round-Holds :
      (content : ℕ → Block) (sector offset chunk : ℕ) (bytes : List ℕ) (block : Block)
      → ((block ≡ content sector) ⊎ ((offset % 512 ≡ 0) × (chunk ≡ 512)))
      → length block ≡ 512
      → length bytes ≡ chunk
      → offset % 512 + chunk ≤ 512
      → Holds (content sector) (block_with offset chunk bytes block) (offset % 512) bytes
  round-Holds content sector offset chunk bytes block (inl e) full e' le =
      subst (λ b. Holds b (block_with offset chunk bytes block) (offset % 512) bytes) e
        (block_with-Holds block offset chunk bytes full e' le)
  round-Holds content sector offset chunk bytes block (inr whole) full e' le =
      Holds-whole block (content sector) (block_with offset chunk bytes block) (offset % 512) bytes
        whole.0 (e' ∙ whole.1) (block_with-Holds block offset chunk bytes full e' le)

  pub write_loop_lem :
      (f size offset written : ℕ) (buffer : List ℕ) (content : ℕ → Block) (c : Cache)
      → size < f
      → length buffer ≡ size
      → HasLayout words inode content
      → StandsFor content c
      → Writes words inode content offset
          (readable inode.length offset size)
          buffer
          (write_loop words f inode size offset written buffer c)
          (written + readable inode.length offset size)
  write_loop_lem zero size offset written buffer content c lt e layout h = absurd (omega arith)
  write_loop_lem (suc f) size offset written buffer content c lt e layout h =
      elim (Nat-cases size 0) [
        | inl none_left ↦
            let n0 : readable inode.length offset size ≡ 0 = ground arith in
            (
              c,
              content,
              write_loop-done f size offset written buffer c none_left
                  ∙ ap (λ k. some (k, c)) (omega arith),
              h,
              Wrote-none words inode content offset (readable inode.length offset size) buffer n0
                  layout,
            )
        | inr ne ↦ elim (Nat-order inode.length offset) [
          | inl past ↦
              let n0 : readable inode.length offset size ≡ 0 = ground arith in
              (
                c,
                content,
                write_loop-break f size offset written no_sector buffer c c ne
                      (byte_to_sector-beyond words content inode offset c past)
                      (chunk_size-beyond inode.length offset size past)
                    ∙ ap (λ k. some (k, c)) (omega arith),
                h,
                Wrote-none words inode content offset (readable inode.length offset size) buffer n0
                    layout,
              )
          | inr within ↦
              let chunk = chunk_size inode.length offset size in
              let sector = sector_of words content inode (offset / 512) in
              let (some_written, fits, upto, sum, inside) =
                chunk_size_lem inode.length offset size ne within in
              let (c1, e1, h1) = byte_to_sector-Yields words content inode offset c within h in
              let (block, c2, e2, h2, full, old) =
                old_block-Yields words content inode sector offset chunk c1 h1 fits in
              let taken : length (take chunk buffer) ≡ chunk =
                omega (arith, length-take chunk buffer) in
              let held =
                round-Holds content sector offset chunk (take chunk buffer) block old full taken
                  fits in
              let (c3, e3, h3) =
                write-StandsFor content sector (block_with offset chunk (take chunk buffer) block)
                  c2 h2 held.full in
              let w1 =
                Wrote-round words inode content offset chunk (take chunk buffer)
                  (block_with offset chunk (take chunk buffer) block) layout within fits taken
                  held in
              let (c', after, e4, h4, w2) =
                write_loop_lem f (size - chunk) (offset + chunk) (written + chunk)
                  (drop chunk buffer)
                  (update content sector (block_with offset chunk (take chunk buffer) block)) c3
                  (omega arith) (omega (arith, length-drop chunk buffer)) w1.layout h3 in
              let rest = readable inode.length (offset + chunk) (size - chunk) in
              let total : written + chunk + rest ≡ written + readable inode.length offset size =
                omega (arith, sum) in
              (
                c',
                after,
                write_loop-step f size offset written sector buffer block c c1 c2 c3 ne e1
                      some_written e2 e3
                    ∙ e4
                    ∙ ap (λ k. some (k, c')) total,
                h4,
                subst (λ n. Wrote words inode content after offset n buffer) (sym sum)
                    (Wrote-trans words inode content
                      (update content sector (block_with offset chunk (take chunk buffer) block))
                      after offset chunk rest buffer inside w1 w2),
              )
        ]
      ]
