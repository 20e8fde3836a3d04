-- ===== src/A3/Kernel/Fault.antt =====
-- A page fault of a3/kernel.c when no frame is free.
use comp310_assignments.Prelude.{
  ℕ, ◌+◌, ◌≤◌, ◌<◌, ◌≡◌, ◌≢◌, subst, refl, sym, ap, ◌∙◌, Bool, true, false, List, [], ◌∷◌, ◌++◌,
  none, some, length, get_elem?, inl, inr, Option-cases,
}
use comp310_assignments.ShellMemory.{Store}
use comp310_assignments.A3.Pcb.{Pcb, page_at, load_page, page_evict}
use comp310_assignments.A3.Pcb.Evict.{frame_at, frame_text, PageGone, page_evict_lem}
use comp310_assignments.A3.Kernel.{
  PageRef, Kernel, put_pcb, page_of, pop_last, find_owner, try_load, evict_victim, requeue,
  page_fault,
}
use comp310_assignments.A3.Kernel.Pids.{HasPids, find_owner_lem, put_pcb_self, put_pcb_ne}

pub pop_last-snoc : (l : List PageRef) (r : PageRef) → pop_last (l ++ (r ∷ [])) ≡ some (r, l)
unfolding pop_last
pop_last-snoc [] r = refl
pop_last-snoc (x ∷ l) r = let rest = pop_last-snoc l r in rw rest refl

try_load-none :
    (border i a : ℕ) (s : Kernel)
    → load_page border i (s.pcbs a) s.memory ≡ none
    → try_load border i a s ≡ (false, s)
unfolding try_load
try_load-none border i a s e = rw (e, try_load) refl

try_load-some :
    (border i a : ℕ) (s : Kernel) (m : Store) (pcb : Pcb)
    → load_page border i (s.pcbs a) s.memory ≡ some (m, pcb)
    → try_load border i a s ≡ (true, record s { pcbs = put_pcb a pcb s.pcbs; memory = m })
unfolding try_load
try_load-some border i a s m pcb e = rw (e, try_load) refl

-- The state behind the eviction of a page of the process `b`.
abbrev pub evicted : (b : ℕ) → PageRef → List PageRef → Kernel → Kernel
evicted b victim rest s =
    let r = page_evict (page_of victim s).page_index (s.pcbs b) s.memory in
    record s {
      lru_cache = rest;
      pcbs = put_pcb b r.2 s.pcbs;
      memory = r.1;
      output = s.output ++ (r.0 ∷ []);
    }

evict_victim-evicted :
    (s : Kernel) (b : ℕ) (victim : PageRef) (rest : List PageRef)
    → pop_last s.lru_cache ≡ some (victim, rest)
    → find_owner (page_of victim s).page_pid s.all_pcb s.pcbs ≡ some b
    → evict_victim s ≡ some (evicted b victim rest s)
unfolding evict_victim
evict_victim-evicted s b victim rest e e' = rw (e, e', evict_victim) refl

page_fault-evicted :
    (border a i : ℕ) (s s2 : Kernel)
    → try_load border i a s ≡ (false, s)
    → evict_victim s ≡ some s2
    → page_fault border a i s ≡ some (requeue a i (try_load border i a s2).1)
unfolding page_fault
page_fault-evicted border a i s s2 e e' =
    let full : (try_load border i a s).0 ≡ false = ap (λ (r : Bool × Kernel). r.0) e in
    let left : evict_victim (try_load border i a s).1 ≡ some s2 =
      ap (λ (r : Bool × Kernel). evict_victim r.1) e ∙ e' in
    rw (full, left, page_fault) refl

-- Where no frame is free and the page used least recently has a frame, a page fault ends: that page is
-- evicted from the process that has its pid, which leaves it without a place and a valid bit and the
-- other pages of that process and the other processes as they are, and its lines are printed; then the
-- page that is asked for is loaded, which changes no other process, and becomes the one used last, and the
-- process goes to the end of the queue.
pub page_fault_lem :
    (border a i f n b : ℕ) (s : Kernel) (victim : PageRef) (rest : List PageRef)
    → HasPids s
    → get_elem? s.all_pcb n ≡ some b
    → (page_of victim s).page_pid ≡ (s.pcbs b).pid
    → s.lru_cache ≡ rest ++ (victim ∷ [])
    → load_page border i (s.pcbs a) s.memory ≡ none
    → border ≤ length s.memory
    → f + 3 ≤ border
    → (page_of victim s).page_index < length (s.pcbs b).page_table
    → (page_at (s.pcbs b) (page_of victim s).page_index).index ≡ frame_at f
    → length (page_at (s.pcbs b) (page_of victim s).page_index).valid_bit ≡ 3
    → (s' : Kernel) × (page_fault border a i s ≡ some s')
      × (s'.lru_cache ≡ record { owner = a; number = i } ∷ rest)
      × (s'.queue ≡ s.queue ++ (a ∷ []))
      × (s'.output ≡ s.output ++ (frame_text f s.memory ∷ []))
      × (load_page border i ((evicted b victim rest s).pcbs a) (evicted b victim rest s).memory
          ≡ some (s'.memory, s'.pcbs a))
      × PageGone (page_of victim s).page_index (s.pcbs b) ((evicted b victim rest s).pcbs b)
      × ((c : ℕ) → b ≢ c → (evicted b victim rest s).pcbs c ≡ s.pcbs c)
      × ((c : ℕ) → a ≢ c → s'.pcbs c ≡ (evicted b victim rest s).pcbs c)
unfolding requeue
page_fault_lem border a i f n b s victim rest pids listed pid tail full fits inside lt frame bits =
    let s2 = evicted b victim rest s in
    let done =
      page_evict_lem border f (page_of victim s).page_index (s.pcbs b) s.memory fits inside lt frame
        bits in
    let evicted_pcb = (page_evict (page_of victim s).page_index (s.pcbs b) s.memory).2 in
    let popped = ap pop_last tail ∙ pop_last-snoc rest victim in
    let owned = ap (λ p. find_owner p s.all_pcb s.pcbs) pid ∙ find_owner_lem s n b pids listed in
    let ran =
      page_fault-evicted border a i s s2 (try_load-none border i a s full)
        (evict_victim-evicted s b victim rest popped owned) in
    elim (Option-cases (load_page border i (s2.pcbs a) s2.memory)) [
      | inl fails ↦ absurd (done.4 (s2.pcbs a) i fails)
      | inr ((m, pcb), loaded) ↦
          let s3 : Kernel = record s2 { pcbs = put_pcb a pcb s2.pcbs; memory = m } in
          (
            requeue a i s3,
            ran
                ∙ ap (λ (r : Bool × Kernel). some (requeue a i r.1))
                    (try_load-some border i a s2 m pcb loaded),
            refl,
            refl,
            ap (λ t. s.output ++ (t ∷ [])) done.0,
            loaded ∙ ap (λ p. some (m, p)) (sym (put_pcb_self a pcb s2.pcbs)),
            subst (PageGone (page_of victim s).page_index (s.pcbs b))
                (sym (put_pcb_self b evicted_pcb s.pcbs)) done.1,
            (λ c ne. put_pcb_ne b c evicted_pcb s.pcbs ne),
            (λ c ne. put_pcb_ne a c pcb s2.pcbs ne),
          )
    ]
