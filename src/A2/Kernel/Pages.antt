-- ===== src/A2/Kernel/Pages.antt =====
-- What execute_process changes in a page table: neither which pages are loaded nor where their lines are.
use comp310_assignments.Prelude.{ℕ, zero, suc, ◌+◌, ◌≡◌, refl, List, [], ◌∷◌, arith}
use comp310_assignments.A2.Pcb.{Page}
use comp310_assignments.A2.Kernel.{loaded_pages, frame_of, change_pages, mark_page, age_page}

-- A change that leaves the place of a page as it is.
pub record KeepsPlace (change : ℕ → Page → Page) : Type 0 where
  pub keeps_start : (k : ℕ) (p : Page) → (change k p).start ≡ p.start
  pub keeps_end : (k : ℕ) (p : Page) → (change k p).end ≡ p.end
  pub keeps_loaded : (k : ℕ) (p : Page) → (change k p).loaded ≡ p.loaded

pub mark_page-KeepsPlace : (quanta framenumber : ℕ) → KeepsPlace (mark_page quanta framenumber)
unfolding mark_page
mark_page-KeepsPlace quanta framenumber = record {
  keeps_start = λ k p. ground arith;
  keeps_end = λ k p. ground arith;
  keeps_loaded = λ k p. ground arith;
}

pub age_page-KeepsPlace : (framenumber : ℕ) → KeepsPlace (age_page framenumber)
unfolding age_page
age_page-KeepsPlace framenumber = record {
  keeps_start = λ k p. ground arith;
  keeps_end = λ k p. ground arith;
  keeps_loaded = λ k p. ground arith;
}

module _ (change : ℕ → Page → Page) (h : KeepsPlace change) where
  pub loaded_pages-change :
      (n z : ℕ) (ps : List Page) → loaded_pages (change_pages change n z ps) ≡ loaded_pages ps
  unfolding loaded_pages change_pages
  loaded_pages-change zero z ps = refl
  loaded_pages-change (suc n) z [] = refl
  loaded_pages-change (suc n) z (p ∷ ps) =
      let e = h.keeps_loaded z p in let rest = loaded_pages-change n (z + 1) ps in ground arith

  pub frame_of-change :
      (index m n z : ℕ) (ps : List Page)
      → frame_of index m z (change_pages change n z ps) ≡ frame_of index m z ps
  unfolding frame_of change_pages
  frame_of-change index zero n z ps = refl
  frame_of-change index (suc m) zero z ps = refl
  frame_of-change index (suc m) (suc n) z [] = refl
  frame_of-change index (suc m) (suc n) z (p ∷ ps) =
      let e = h.keeps_start z p in
      let e' = h.keeps_end z p in let rest = frame_of-change index m n (z + 1) ps in ground arith
