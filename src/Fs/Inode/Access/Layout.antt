-- ===== src/Fs/Inode/Access/Layout.antt =====
-- A file whose sectors are apart: a write to one of them changes that part of the file only.
use comp310_assignments.Prelude.{
  ℕ, ◌-◌, ◌*◌, ◌/◌, ◌%◌, ◌≤◌, ◌<◌, ◌≡◌, ◌≢◌, inl, inr, sym, ap, ◌∙◌, subst, arith, get_or,
  Nat-order,
}
use comp310_assignments.Fs.Cache.{Block, update}
use comp310_assignments.Fs.Inode.{InodeDisk}
use comp310_assignments.Fs.Inode.Access.Slice.{sector_of, byte_at}

pub update_self : (content : ℕ → Block) (s : ℕ) (b : Block) → update content s b s ≡ b
update_self content s b = ground arith

pub update_ne :
    (content : ℕ → Block) (s t : ℕ) (b : Block) → s ≢ t → update content s b t ≡ content t
update_ne content s t b ne = ground arith

module _ (words : Block → ℕ → ℕ) (inode : InodeDisk) where
  -- The sector `s` is none of the index blocks through which the file's sector `j` is found.
  pub record NotIndex (content : ℕ → Block) (s j : ℕ) : Type 0 where
    pub not_single : 123 ≤ j → j < 251 → s ≢ inode.indirect_block
    pub not_double : 251 ≤ j → j < 16635 → s ≢ inode.doubly_indirect_block
    pub not_second :
        251 ≤ j → j < 16635 → s ≢ words (content inode.doubly_indirect_block) ((j - 251) / 128)

  -- The sectors of the file are different, and no index blocks.
  pub record HasLayout (content : ℕ → Block) : Type 0 where
    pub different :
        (j k : ℕ)
        → j * 512 < inode.length
        → k * 512 < inode.length
        → sector_of words content inode j ≡ sector_of words content inode k
        → j ≡ k
    pub apart :
        (j k : ℕ)
        → j * 512 < inode.length
        → k * 512 < inode.length
        → NotIndex content (sector_of words content inode k) j

  pub sector_of-update :
      (content : ℕ → Block) (s : ℕ) (b : Block) (j : ℕ)
      → NotIndex content s j
      → sector_of words (update content s b) inode j ≡ sector_of words content inode j
  unfolding sector_of
  sector_of-update content s b j n = elim (Nat-order 123 j) [
    | inr direct ↦ ground arith
    | inl past ↦ elim (Nat-order 251 j) [
      | inr single ↦
          let e = update_ne content s inode.indirect_block b (n.not_single past single) in
          ground arith
      | inl past2 ↦ elim (Nat-order 16635 j) [
        | inr double ↦
            let e = update_ne content s inode.doubly_indirect_block b (n.not_double past2 double) in
            let e' =
              update_ne content s (words (content inode.doubly_indirect_block) ((j - 251) / 128)) b
                (n.not_second past2 double) in
            ground arith
        | inl beyond ↦ ground arith
      ]
    ]
  ]

  module _ (content : ℕ → Block) (k : ℕ) (b : Block) (h : HasLayout content)
      (inside : k * 512 < inode.length) where
    abbrev pub changed : ℕ → Block
    changed = update content (sector_of words content inode k) b

    pub sector_of-changed :
        (j : ℕ)
        → j * 512 < inode.length
        → sector_of words changed inode j ≡ sector_of words content inode j
    sector_of-changed j lt =
        sector_of-update content (sector_of words content inode k) b j (h.apart j k lt inside)

    changed-NotIndex :
        (i j : ℕ)
        → i * 512 < inode.length
        → j * 512 < inode.length
        → NotIndex content (sector_of words content inode i) j
        → NotIndex changed (sector_of words changed inode i) j
    changed-NotIndex i j li lj n =
        subst (λ s. NotIndex changed s j) (sym (sector_of-changed i li))
          (record {
            not_single = n.not_single;
            not_double = n.not_double;
            not_second = λ lo hi.
                subst (λ (w : Block). sector_of words content inode i ≢ words w ((j - 251) / 128))
                  (sym (
                    update_ne content (sector_of words content inode k) inode.doubly_indirect_block
                      b ((h.apart j k lj inside).not_double lo hi)))
                  (n.not_second lo hi);
          })

    pub changed-HasLayout : HasLayout changed
    changed-HasLayout = record {
      different = λ i j li lj e.
          h.different i j li lj (sym (sector_of-changed i li) ∙ e ∙ sector_of-changed j lj);
      apart = λ j i lj li. changed-NotIndex i j li lj (h.apart j i lj li);
    }

    -- The bytes of the file in the sector, and in the others.
    pub byte_at-changed_in :
        (p : ℕ) → p / 512 ≡ k → byte_at words changed inode p ≡ get_or b (p % 512) 0
    unfolding byte_at
    byte_at-changed_in p e =
        let s = sector_of words content inode k in
        ap (λ t. get_or (changed t) (p % 512) 0)
          (ap (sector_of words changed inode) e ∙ sector_of-changed k inside)
        ∙ ap (λ w. get_or w (p % 512) 0) (update_self content s b)

    pub byte_at-changed_out :
        (p : ℕ)
        → p < inode.length
        → p / 512 ≢ k
        → byte_at words changed inode p ≡ byte_at words content inode p
    unfolding byte_at
    byte_at-changed_out p lt ne =
        let s = sector_of words content inode k in
        let t = sector_of words content inode (p / 512) in
        ap (λ u. get_or (changed u) (p % 512) 0) (sector_of-changed (p / 512) (omega arith))
        ∙ ap (λ w. get_or w (p % 512) 0)
            (update_ne content s t b
              (λ e. ne (sym (h.different k (p / 512) inside (omega arith) e))))
