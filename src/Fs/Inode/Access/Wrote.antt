-- ===== src/Fs/Inode/Access/Wrote.antt =====
-- What a write makes of a file: its rounds, one after the other.
use comp310_assignments.Prelude.{
  ℕ, zero, suc, ◌+◌, ◌-◌, ◌*◌, ◌/◌, ◌%◌, ◌≤◌, ◌<◌, ◌≡◌, ◌≢◌, ◌⊎◌, inl, inr, refl, sym, ap, ◌∙◌,
  List, [], ◌∷◌, arith, length, get_or, take, drop, Nat-cases, Nat-order,
}
use comp310_assignments.Fs.Cache.{Block, update}
use comp310_assignments.Fs.Inode.{InodeDisk}
use comp310_assignments.Fs.Inode.Access.Slice.{sector_of, byte_at}
use comp310_assignments.Fs.Inode.Access.Overlay.{Holds}
use comp310_assignments.Fs.Inode.Access.Layout.{
  HasLayout, changed-HasLayout, byte_at-changed_in, byte_at-changed_out,
}

get_or-take : (n : ℕ) (xs : List ℕ) (i : ℕ) → i < n → get_or (take n xs) i 0 ≡ get_or xs i 0
get_or-take zero xs i lt = absurd (omega arith)
get_or-take (suc n) [] i lt = refl
get_or-take (suc n) (x ∷ xs) zero lt = refl
get_or-take (suc n) (x ∷ xs) (suc i) lt = get_or-take n xs i (omega arith)

get_or-drop : (n : ℕ) (xs : List ℕ) (i : ℕ) → get_or (drop n xs) i 0 ≡ get_or xs (n + i) 0
get_or-drop zero xs i = ap (λ k. get_or xs k 0) (omega arith)
get_or-drop (suc n) [] i = refl
get_or-drop (suc n) (x ∷ xs) i =
    let e : suc n + i ≡ suc (n + i) = omega arith in
    get_or-drop n xs i ∙ sym (ap (λ k. get_or (x ∷ xs) k 0) e)

-- Where the whole sector is covered, the old block does not count.
pub Holds-whole :
    (b1 b2 b' : Block) (i : ℕ) (bytes : List ℕ)
    → i ≡ 0
    → length bytes ≡ 512
    → Holds b1 b' i bytes
    → Holds b2 b' i bytes
Holds-whole b1 b2 b' i bytes e e' h = record {
  inside = h.inside;
  outside = λ j out lt. absurd (omega arith);
  full = h.full;
}

module _ (words : Block → ℕ → ℕ) (inode : InodeDisk) where
  -- The content `after` is `content` with the first `n` bytes of `bytes` in the file from `o` on.
  pub record Wrote (content after : ℕ → Block) (o n : ℕ) (bytes : List ℕ) : Type 0 where
    pub layout : HasLayout words inode after
    pub written : (i : ℕ) → i < n → byte_at words after inode (o + i) ≡ get_or bytes i 0
    pub kept :
        (p : ℕ)
        → p < inode.length
        → (p < o) ⊎ (o + n ≤ p)
        → byte_at words after inode p ≡ byte_at words content inode p

  pub Wrote-none :
      (content : ℕ → Block) (o n : ℕ) (bytes : List ℕ)
      → n ≡ 0
      → HasLayout words inode content
      → Wrote content content o n bytes
  Wrote-none content o n bytes e h = record {
    layout = h;
    written = λ i lt. absurd (omega arith);
    kept = λ p lt out. refl;
  }

  pub Wrote-round :
      (content : ℕ → Block) (o chunk : ℕ) (bytes : List ℕ) (b : Block)
      → HasLayout words inode content
      → o < inode.length
      → o % 512 + chunk ≤ 512
      → length bytes ≡ chunk
      → Holds (content (sector_of words content inode (o / 512))) b (o % 512) bytes
      → Wrote content (update content (sector_of words content inode (o / 512)) b) o chunk bytes
  Wrote-round content o chunk bytes b h lt le e held = record {
    layout = changed-HasLayout words inode content (o / 512) b h inside;
    written = λ i li.
        let same : (o + i) / 512 ≡ o / 512 = omega arith in
        let moved : (o + i) % 512 ≡ o % 512 + i = omega arith in
        byte_at-changed_in words inode content (o / 512) b h inside (o + i) same
        ∙ ap (λ j. get_or b j 0) moved
        ∙ held.inside i (omega arith);
    kept = λ p lp out. kept p lp out (Nat-cases (p / 512) (o / 512));
  }
    where
      inside : o / 512 * 512 < inode.length
      inside = omega arith

      kept :
          (p : ℕ)
          → p < inode.length
          → (p < o) ⊎ (o + chunk ≤ p)
          → ((p / 512 ≡ o / 512) ⊎ (p / 512 ≢ o / 512))
          → byte_at words (update content (sector_of words content inode (o / 512)) b) inode p
            ≡ byte_at words content inode p
      kept p lp out (inl same) =
          byte_at-changed_in words inode content (o / 512) b h inside p same
          ∙ held.outside (p % 512) (omega arith) (omega arith)
          ∙ sym (
              unfold byte_at in
              ap (λ k. get_or (content (sector_of words content inode k)) (p % 512) 0) same)
      kept p lp out (inr ne) = byte_at-changed_out words inode content (o / 512) b h inside p lp ne

  pub Wrote-trans :
      (content c1 c2 : ℕ → Block) (o chunk rest : ℕ) (bytes : List ℕ)
      → o + chunk ≤ inode.length
      → Wrote content c1 o chunk (take chunk bytes)
      → Wrote c1 c2 (o + chunk) rest (drop chunk bytes)
      → Wrote content c2 o (chunk + rest) bytes
  Wrote-trans content c1 c2 o chunk rest bytes le w1 w2 = record {
    layout = w2.layout;
    written = λ i lt. written i lt (Nat-order chunk i);
    kept = λ p lt out. w2.kept p lt (omega arith) ∙ w1.kept p lt (omega arith);
  }
    where
      written :
          (i : ℕ)
          → i < chunk + rest
          → ((chunk ≤ i) ⊎ (i < chunk))
          → byte_at words c2 inode (o + i) ≡ get_or bytes i 0
      written i lt (inl later) =
          let place : o + i ≡ o + chunk + (i - chunk) = omega arith in
          let index : chunk + (i - chunk) ≡ i = omega arith in
          ap (byte_at words c2 inode) place
          ∙ w2.written (i - chunk) (omega arith)
          ∙ get_or-drop chunk bytes (i - chunk)
          ∙ ap (λ k. get_or bytes k 0) index
      written i lt (inr first) =
          w2.kept (o + i) (omega arith) (omega arith)
          ∙ w1.written i first
          ∙ get_or-take chunk bytes i first
