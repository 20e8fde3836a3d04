-- ===== src/A3/Kernel/Pids.antt =====
-- The processes of a3/kernel.c have different pids, by which the owner of a page is found.
use mathlib.Core.Option.{some-injective, none-ne-some}
use comp310_assignments.Prelude.{
  ℕ, zero, suc, ◌+◌, ◌<◌, ◌≡◌, ◌≢◌, refl, sym, ap, ◌∙◌, subst, List, [], ◌∷◌, ◌++◌, Option, none,
  some, Text, arith, if◌then◌else◌, ltb, length, get_elem?, inl, inr, ◌⊎◌, Nat-cases, Option-cases,
}
use comp310_assignments.ShellMemory.{Store}
use comp310_assignments.A3.Memory.{frame_alloc}
use comp310_assignments.A3.Pcb.{
  Pcb, page_table_size, count_lines, fresh_pcb, pid_str, load_page, load_pages, pcb_init,
}
use comp310_assignments.A3.Kernel.{Kernel, put_pcb, find_owner, add_pages, new_proc}

-- The processes in ALL_PCB have pids below the counter, and no pid twice.
pub record HasPids (s : Kernel) : Type 0 where
  pub below : (n a : ℕ) → get_elem? s.all_pcb n ≡ some a → (s.pcbs a).pid < s.pid_counter
  pub apart :
      (n k a b : ℕ)
      → get_elem? s.all_pcb n ≡ some a
      → get_elem? s.all_pcb k ≡ some b
      → (s.pcbs a).pid ≡ (s.pcbs b).pid
      → n ≡ k

find_owner-first :
    (pcbs : ℕ → Pcb) (l : List ℕ) (n b : ℕ)
    → get_elem? l n ≡ some b
    → ((k c : ℕ) → get_elem? l k ≡ some c → (pcbs c).pid ≡ (pcbs b).pid → k ≡ n)
    → find_owner (pcbs b).pid l pcbs ≡ some b
unfolding find_owner
find_owner-first pcbs [] n b e h = absurd (ground arith)
find_owner-first pcbs (a ∷ l) zero b e h =
    let here : a ≡ b = ground arith in
    subst (λ c. find_owner (pcbs b).pid (c ∷ l) pcbs ≡ some b) (sym here) (ground arith)
find_owner-first pcbs (a ∷ l) (suc n) b e h = elim (Nat-cases (pcbs a).pid (pcbs b).pid) [
  | inl same ↦ absurd (omega (arith, h 0 a refl same))
  | inr ne ↦
      let rest =
        find_owner-first pcbs l n b e (λ k c at same. omega (arith, h (suc k) c at same)) in
      ground arith
]

-- The walk along ALL_PCB finds the process that has the pid.
pub find_owner_lem :
    (s : Kernel) (n b : ℕ)
    → HasPids s
    → get_elem? s.all_pcb n ≡ some b
    → find_owner (s.pcbs b).pid s.all_pcb s.pcbs ≡ some b
find_owner_lem s n b h e =
    find_owner-first s.pcbs s.all_pcb n b e (λ k c at same. h.apart k n c b at e same)

pub put_pcb_self : (a : ℕ) (pcb : Pcb) (pcbs : ℕ → Pcb) → put_pcb a pcb pcbs a ≡ pcb
put_pcb_self a pcb pcbs = ground arith

pub put_pcb_ne : (a b : ℕ) (pcb : Pcb) (pcbs : ℕ → Pcb) → a ≢ b → put_pcb a pcb pcbs b ≡ pcbs b
put_pcb_ne a b pcb pcbs ne = ground arith

load_page-pid :
    (border i : ℕ) (pcb pcb' : Pcb) (m m' : Store)
    → load_page border i pcb m ≡ some (m', pcb')
    → pcb'.pid ≡ pcb.pid
unfolding load_page
load_page-pid border i pcb pcb' m m' e =
    elim (Option-cases (frame_alloc border (pid_str pcb.pid) m)) [
      | inl full ↦ absurd (ground arith)
      | inr (r, e') ↦ ground arith
    ]

load_pages-pid :
    (border n i : ℕ) (pcb pcb' : Pcb) (m m' : Store)
    → load_pages border n i pcb m ≡ some (m', pcb')
    → pcb'.pid ≡ pcb.pid
unfolding load_pages
load_pages-pid border zero i pcb pcb' m m' e = ground arith
load_pages-pid border (suc n) i pcb pcb' m m' e = elim (Option-cases (load_page border i pcb m)) [
  | inl full ↦ absurd (ground arith)
  | inr ((m1, pcb1), e') ↦
      load_pages-pid border n (i + 1) pcb1 pcb' m1 m' (ground arith)
      ∙ load_page-pid border i pcb pcb1 m m1 e'
]

pcb_init-pid :
    (border pid : ℕ) (script : Text) (m m' : Store) (pcb : Pcb)
    → pcb_init border pid (some script) m ≡ some (m', pcb)
    → pcb.pid ≡ pid
unfolding pcb_init
pcb_init-pid border pid script m m' pcb e =
    let size = page_table_size (count_lines script) in
    load_pages-pid border (if ltb size 2 then size else 2) 0 (fresh_pcb pid script) pcb m m' e

get_elem?-snoc :
    (l : List ℕ) (x n a : ℕ)
    → get_elem? (l ++ (x ∷ [])) n ≡ some a
    → (get_elem? l n ≡ some a) ⊎ ((n ≡ length l) × (a ≡ x))
get_elem?-snoc [] x zero a e = inr (refl, ground arith)
get_elem?-snoc [] x (suc n) a e = absurd (ground arith)
get_elem?-snoc (y ∷ l) x zero a e = inl e
get_elem?-snoc (y ∷ l) x (suc n) a e = elim (get_elem?-snoc l x n a e) [
  | inl old ↦ inl old
  | inr (last, new) ↦ inr (ap suc last, new)
]

-- What `new_proc` makes of the state, for the process that `PCB_init` gives.
abbrev started : (fresh : ℕ) → Pcb → Store → Kernel → Kernel
started fresh pcb m s =
    let size = length pcb.page_table in
    record s {
      pid_counter = s.pid_counter + 1;
      all_pcb = s.all_pcb ++ (fresh ∷ []);
      queue = s.queue ++ (fresh ∷ []);
      pcbs = put_pcb fresh pcb s.pcbs;
      lru_cache = add_pages (if ltb size 2 then size else 2) 0 fresh s.lru_cache;
      memory = m;
    }

new_proc-started :
    (border fresh : ℕ) (script : Option Text) (s : Kernel) (pcb : Pcb) (m : Store)
    → pcb_init border s.pid_counter script s.memory ≡ some (m, pcb)
    → new_proc border fresh script s ≡ some (started fresh pcb m s)
unfolding new_proc
new_proc-started border fresh script s pcb m e = rw (e, new_proc) refl

fails_not :
    (border fresh : ℕ) (script : Text) (s s' : Kernel)
    → pcb_init border s.pid_counter (some script) s.memory ≡ none
    → new_proc border fresh (some script) s ≢ some s'
unfolding new_proc
fails_not border fresh script s s' fails = rw (fails, new_proc) (λ e. none-ne-some s' e)

module _ (s : Kernel) (fresh : ℕ) (pcb : Pcb) (m : Store) (h : HasPids s)
    (new : (n : ℕ) → get_elem? s.all_pcb n ≢ some fresh) (pid : pcb.pid ≡ s.pid_counter) where
  fresh-pid : (put_pcb fresh pcb s.pcbs fresh).pid ≡ s.pid_counter
  fresh-pid = ap (λ (p : Pcb). p.pid) (put_pcb_self fresh pcb s.pcbs) ∙ pid

  old-pid :
      (n a : ℕ) → get_elem? s.all_pcb n ≡ some a → (put_pcb fresh pcb s.pcbs a).pid ≡ (s.pcbs a).pid
  old-pid n a e = let ne : fresh ≢ a = (λ here. new n (e ∙ ap some (sym here))) in ground arith

  last-pid : (a : ℕ) → a ≡ fresh → (put_pcb fresh pcb s.pcbs a).pid ≡ s.pid_counter
  last-pid a here =
      subst (λ c. (put_pcb fresh pcb s.pcbs c).pid ≡ s.pid_counter) (sym here) fresh-pid

  started-below :
      (n a : ℕ)
      → get_elem? (s.all_pcb ++ (fresh ∷ [])) n ≡ some a
      → (put_pcb fresh pcb s.pcbs a).pid < s.pid_counter + 1
  started-below n a e = elim (get_elem?-snoc s.all_pcb fresh n a e) [
    | inl old ↦ omega (arith, old-pid n a old, h.below n a old)
    | inr (last, here) ↦ omega (arith, last-pid a here)
  ]

  started-apart :
      (n k a b : ℕ)
      → get_elem? (s.all_pcb ++ (fresh ∷ [])) n ≡ some a
      → get_elem? (s.all_pcb ++ (fresh ∷ [])) k ≡ some b
      → (put_pcb fresh pcb s.pcbs a).pid ≡ (put_pcb fresh pcb s.pcbs b).pid
      → n ≡ k
  started-apart n k a b e e' same = elim (get_elem?-snoc s.all_pcb fresh n a e) [
    | inl old ↦ elim (get_elem?-snoc s.all_pcb fresh k b e') [
      | inl old' ↦ h.apart n k a b old old' (sym (old-pid n a old) ∙ same ∙ old-pid k b old')
      | inr (last', here') ↦
          absurd (omega (arith, old-pid n a old, h.below n a old, last-pid b here'))
    ]
    | inr (last, here) ↦ elim (get_elem?-snoc s.all_pcb fresh k b e') [
      | inl old' ↦ absurd (omega (arith, old-pid k b old', h.below k b old', last-pid a here))
      | inr (last', here') ↦ last ∙ sym last'
    ]
  ]

-- `new_proc` keeps the pids of all processes different and below the counter, gives the new process the
-- counter's number, and puts it at the end of the ready queue and of ALL_PCB.
pub new_proc-HasPids :
    (border fresh : ℕ) (script : Text) (s s' : Kernel)
    → HasPids s
    → ((n : ℕ) → get_elem? s.all_pcb n ≢ some fresh)
    → new_proc border fresh (some script) s ≡ some s'
    → HasPids s'
      × ((s'.pcbs fresh).pid ≡ s.pid_counter)
      × (s'.queue ≡ s.queue ++ (fresh ∷ []))
      × (s'.all_pcb ≡ s.all_pcb ++ (fresh ∷ []))
new_proc-HasPids border fresh script s s' h new e =
    elim (Option-cases (pcb_init border s.pid_counter (some script) s.memory)) [
      | inl fails ↦ absurd (fails_not border fresh script s s' fails e)
      | inr ((m, pcb), made) ↦
          let pid = pcb_init-pid border s.pid_counter script s.memory m pcb made in
          let here : started fresh pcb m s ≡ s' =
            some-injective (started fresh pcb m s) s'
              (sym (new_proc-started border fresh (some script) s pcb m made) ∙ e) in
          subst
            (λ t.
              HasPids t
              × ((t.pcbs fresh).pid ≡ s.pid_counter)
              × (t.queue ≡ s.queue ++ (fresh ∷ []))
              × (t.all_pcb ≡ s.all_pcb ++ (fresh ∷ [])))
            here
            (
              record {
                below = started-below s fresh pcb m h new pid;
                apart = started-apart s fresh pcb m h new pid;
              },
              fresh-pid s fresh pcb m h new pid,
              refl,
              refl,
            )
    ]
