-- ===== src/Fs/Inode/Open/Openers.antt =====
-- One struct inode for a sector, and how many openers it has.
use comp310_assignments.Prelude.{ℕ, ◌≡◌, refl, false, ◌∷◌, none, some, arith}
use comp310_assignments.Fs.Cache.{Block, Cache, buffer_cache_read}
use comp310_assignments.Fs.Cache.View.{view, IsCoherent}
use comp310_assignments.Fs.Cache.Refine.{buffer_cache_read_lem}
use comp310_assignments.Fs.Inode.{InodeDisk, Inode}
use comp310_assignments.Fs.Inode.Reserve.{Disk}
use comp310_assignments.Fs.Inode.Open.{
  OpenInode, OpenState, find_open, find_addr, remove_open, inode_reopen, open_new, inode_open,
  release_inode, inode_close,
}

-- The inode of a sector that is opened first.
abbrev pub first_inode : ℕ → InodeDisk → Inode
first_inode sector contents = record {
  sector = sector;
  open_cnt = 1;
  removed = false;
  deny_write_cnt = 0;
  contents = contents;
}

abbrev pub with_inode : {M : Type 0} → (fresh : ℕ) → Inode → Cache → OpenState M → OpenState M
with_inode fresh inode c s = record {
  open_inodes = record { addr = fresh; inode = inode } ∷ s.open_inodes;
  disk = record (s.disk) { cache = c };
}

module _ {M : Type 0} (decode : Block → InodeDisk) where
  inode_open-first :
      (fresh sector : ℕ) (block : Block) (c : Cache) (s : OpenState M)
      → find_open sector s.open_inodes ≡ none
      → buffer_cache_read sector s.disk.cache ≡ some (block, c)
      → inode_open decode fresh sector s
        ≡ some (fresh, with_inode fresh (first_inode sector (decode block)) c s)
  unfolding inode_open open_new
  inode_open-first fresh sector block c s e e' = rw (e, e', inode_open, open_new) refl

  inode_open-again :
      (fresh sector : ℕ) (o : OpenInode) (s : OpenState M)
      → find_open sector s.open_inodes ≡ some o
      → inode_open decode fresh sector s ≡ some (o.addr, s)
  unfolding inode_open inode_reopen
  inode_open-again fresh sector o s e = rw (e, inode_open) refl

  found_first :
      (fresh sector : ℕ) (contents : InodeDisk) (c : Cache) (s : OpenState M)
      → find_open sector (with_inode fresh (first_inode sector contents) c s).open_inodes
        ≡ some (record { addr = fresh; inode = first_inode sector contents })
  unfolding find_open
  found_first fresh sector contents c s = ground arith

module _ {M : Type 0} (words : Block → ℕ → ℕ) (free_map_release : ℕ → Disk M → Disk M) where
  inode_close-first :
      (fresh sector : ℕ) (contents : InodeDisk) (c : Cache) (s : OpenState M)
      → inode_close words free_map_release fresh
          (with_inode fresh (first_inode sector contents) c s)
        ≡ some (record { open_inodes = s.open_inodes; disk = record (s.disk) { cache = c } })
  unfolding inode_close find_addr release_inode remove_open
  inode_close-first fresh sector contents c s = ground arith

module _ {M : Type 0} (words : Block → ℕ → ℕ) (free_map_release : ℕ → Disk M → Disk M)
    (decode : Block → InodeDisk) where
  -- The first opener of a sector gets an inode with what the disk holds there, and the second one gets the
  -- same inode without any change. But the second opener is not counted: one `inode_close` takes the inode
  -- out of the list, while the other opener still has its address.
  pub inode_open-twice :
      (fresh fresh' sector : ℕ) (s : OpenState M)
      → IsCoherent s.disk.cache
      → find_open sector s.open_inodes ≡ none
      → (c : Cache) × IsCoherent c
        × ((t : ℕ) → view c t ≡ view s.disk.cache t)
        × (let s1 = with_inode fresh (first_inode sector (decode (view s.disk.cache sector))) c s in
            (inode_open decode fresh sector s ≡ some (fresh, s1))
            × (inode_open decode fresh' sector s1 ≡ some (fresh, s1))
            × (inode_close words free_map_release fresh s1
                ≡ some
                    (record { open_inodes = s.open_inodes; disk = record (s.disk) { cache = c } })))
  inode_open-twice fresh fresh' sector s coherent unopened =
      let (c, read, k, same) = buffer_cache_read_lem sector s.disk.cache coherent in
      let contents = decode (view s.disk.cache sector) in
      (
        c,
        k,
        same,
        (
          inode_open-first decode fresh sector (view s.disk.cache sector) c s unopened read,
          inode_open-again decode fresh' sector
              (record { addr = fresh; inode = first_inode sector contents })
              (with_inode fresh (first_inode sector contents) c s)
              (found_first decode fresh sector contents c s),
          inode_close-first words free_map_release fresh sector contents c s,
        ),
      )
