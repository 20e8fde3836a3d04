-- ===== src/A3/Kernel/Turns.antt =====
-- The rounds of run_proc_RR in a3/kernel.c, and the order of the ready queue.
use mathlib.Core.List.{append-nil}
use comp310_assignments.Prelude.{
  ℕ, zero, suc, ◌+◌, ◌≡◌, refl, sym, ap, ◌∙◌, false, List, [], ◌∷◌, ◌++◌, some, Text, arith,
  get_elem?, inl, inr, ◌⊎◌, Nat-cases, Nat-order, Option-cases, Bool-cases,
}
use comp310_assignments.Prelude.Int.{ℤ}
use comp310_assignments.ShellMemory.{Store}
use comp310_assignments.A3.Pcb.{page_at, load_page}
use comp310_assignments.A3.Kernel.{
  Kernel, is_one, page_of, pop_last, find_owner, remove_page, try_load, evict_victim, requeue,
  page_fault, touch_page,
}
use comp310_assignments.A3.Kernel.RoundRobin.{
  run_line, run_proc, next_line, run_next, run_turn, queue_done, run_rounds,
}

try_load-queue : (border i a : ℕ) (s : Kernel) → (try_load border i a s).1.queue ≡ s.queue
unfolding try_load
try_load-queue border i a s = elim (Option-cases (load_page border i (s.pcbs a) s.memory)) [
  | inl e ↦ rw (e, try_load) refl
  | inr (r, e) ↦ rw (e, try_load) refl
]

evict_victim-queue : (s s' : Kernel) → evict_victim s ≡ some s' → s'.queue ≡ s.queue
unfolding evict_victim
evict_victim-queue s s' e = elim (Option-cases (pop_last s.lru_cache)) [
  | inl none_left ↦ absurd (ground arith)
  | inr ((victim, rest), popped) ↦
      elim (Option-cases (find_owner (page_of victim s).page_pid s.all_pcb s.pcbs)) [
        | inl no_owner ↦ absurd (ground arith)
        | inr (b, owned) ↦ ground arith
      ]
]

page_fault-queue :
    (border a i : ℕ) (s s' : Kernel)
    → page_fault border a i s ≡ some s'
    → s'.queue ≡ s.queue ++ (a ∷ [])
unfolding page_fault requeue
page_fault-queue border a i s s' e =
    let same = try_load-queue border i a s in
    elim (Bool-cases (try_load border i a s).0) [
      | inl loaded ↦ ground arith
      | inr full ↦ elim (Option-cases (evict_victim (try_load border i a s).1)) [
        | inl fails ↦ absurd (ground arith)
        | inr (s2, left) ↦
            let same2 = evict_victim-queue (try_load border i a s).1 s2 left in
            let same3 = try_load-queue border i a s2 in ground arith
      ]
    ]

touch_page-queue : (a i : ℕ) (s s' : Kernel) → touch_page a i s ≡ some s' → s'.queue ≡ s.queue
unfolding touch_page
touch_page-queue a i s s' e =
    elim (Option-cases (remove_page (page_at (s.pcbs a) i) s.lru_cache s)) [
      | inl fails ↦ absurd (ground arith)
      | inr ((r, rest), found) ↦ ground arith
    ]

-- A fault puts the process at the end of the queue; otherwise the queue stays.
abbrev Queued : (a r : ℕ) → List ℕ → List ℕ → Type 0
Queued a r before after = ((r ≡ 1) × (after ≡ before ++ (a ∷ []))) ⊎ ((r ≡ 0) × (after ≡ before))

module _ (parse_input : Text → Store → ℤ × Store) (border : ℕ) where
  run_line-queue :
      (a i k : ℕ) (s : Kernel) → (run_line parse_input border a i k s).1.queue ≡ s.queue
  unfolding run_line
  run_line-queue a i k s = refl

  run_proc-queue :
      (a i k r : ℕ) (s s' : Kernel)
      → run_proc parse_input border a i k s ≡ some (r, s')
      → Queued a r s.queue s'.queue
  unfolding run_proc
  run_proc-queue a i k r s s' e =
      let s1 = (run_line parse_input border a i k s).1 in
      let same = run_line-queue a i k s in
      elim (Bool-cases (is_one (run_line parse_input border a i k s).0)) [
        | inl fault ↦ elim (Option-cases (page_fault border a i s1)) [
          | inl fails ↦ absurd (ground arith)
          | inr (s2, done) ↦
              let moved = page_fault-queue border a i s1 s2 done in inl (ground arith, ground arith)
        ]
        | inr hit ↦ elim (Option-cases (touch_page a i s1)) [
          | inl fails ↦ absurd (ground arith)
          | inr (s2, done) ↦
              let kept = touch_page-queue a i s1 s2 done in inr (ground arith, ground arith)
        ]
      ]

  run_next-queue :
      (a r : ℕ) (s s' : Kernel)
      → run_next parse_input border a s ≡ some (r, s')
      → Queued a r s.queue s'.queue
  unfolding run_next
  run_next-queue a r s s' e =
      elim (Option-cases (next_line parse_input border 0 (s.pcbs a).program_counter)) [
        | inl at_end ↦ absurd (ground arith)
        | inr ((i, k), found) ↦ run_proc-queue a i k r s s' (ground arith)
      ]

  -- A turn leaves the others in the queue where they are, and puts the process behind them or drops it.
  run_turn-queue :
      (a : ℕ) (s s' : Kernel)
      → run_turn parse_input border a s ≡ some s'
      → (behind : List ℕ) × (s'.queue ≡ s.queue ++ behind)
  unfolding run_turn
  run_turn-queue a s s' e = elim (Nat-order (s.pcbs a).size 1) [
    | inr many ↦ elim (Option-cases (run_next parse_input border a s)) [
      | inl fails ↦ absurd (ground arith)
      | inr ((r, s1), ran) ↦ elim (run_next-queue a r s s1 ran) [
        | inl fault ↦ (a ∷ [], ground arith)
        | inr hit ↦ elim (Option-cases (run_next parse_input border a s1)) [
          | inl fails ↦ absurd (ground arith)
          | inr ((r2, s2), ran2) ↦ elim (run_next-queue a r2 s1 s2 ran2) [
            | inl fault ↦ (a ∷ [], ground arith)
            | inr hit2 ↦ (a ∷ [], ground arith)
          ]
        ]
      ]
    ]
    | inl few ↦ elim (Nat-cases (s.pcbs a).size 1) [
      | inl one_left ↦ elim (Option-cases (run_next parse_input border a s)) [
        | inl fails ↦ absurd (ground arith)
        | inr ((r, s1), ran) ↦ elim (run_next-queue a r s s1 ran) [
          | inl fault ↦ (a ∷ [], ground arith)
          | inr hit ↦
              let same : s'.queue ≡ s.queue = ground arith in ([], same ∙ sym (append-nil s.queue))
        ]
      ]
      | inr ne ↦
          let same : s'.queue ≡ s.queue = ground arith in ([], same ∙ sym (append-nil s.queue))
    ]
  ]

  -- Rounds of the loop of `run_proc_RR`, each of which takes the head of the queue.
  pub data Rounds : ℕ → Kernel → Kernel → Type 0 where
    no_round : (s : Kernel) → Rounds 0 s s
    round :
        (n a : ℕ) (l : List ℕ) (s s1 s' : Kernel)
        → queue_done parse_input border s.queue s.pcbs ≡ false
        → s.queue ≡ a ∷ l
        → run_turn parse_input border a (record s { queue = l }) ≡ some s1
        → Rounds n s1 s'
        → Rounds (suc n) s s'

  head_of :
      (l : List ℕ) (a n : ℕ) (behind : List ℕ)
      → get_elem? l n ≡ some a
      → get_elem? (l ++ behind) n ≡ some a
  head_of [] a n behind e = absurd (ground arith)
  head_of (x ∷ l) a zero behind e = e
  head_of (x ∷ l) a (suc n) behind e = head_of l a n behind e

  run_rounds-round :
      (f a : ℕ) (l : List ℕ) (s s1 : Kernel)
      → queue_done parse_input border s.queue s.pcbs ≡ false
      → s.queue ≡ a ∷ l
      → run_turn parse_input border a (record s { queue = l }) ≡ some s1
      → run_rounds parse_input border (suc f) s ≡ run_rounds parse_input border f s1
  unfolding run_rounds
  run_rounds-round f a l s s1 undone waits ran = rw (undone, waits, ran, run_rounds) refl

  run_rounds-Rounds :
      (n f : ℕ) (s s' : Kernel)
      → Rounds n s s'
      → run_rounds parse_input border (n + f) s ≡ run_rounds parse_input border f s'
  run_rounds-Rounds n f s s' (no_round _) =
      ap (λ k. run_rounds parse_input border k s) (omega arith)
  run_rounds-Rounds n f s s' (round m b l _ s1 _ undone waits ran rounds) =
      ap (λ k. run_rounds parse_input border k s) (omega arith)
      ∙ run_rounds-round (m + f) b l s s1 undone waits ran
      ∙ run_rounds-Rounds m f s1 s' rounds

  next_after :
      (n a : ℕ) (s s' : Kernel)
      → Rounds n s s'
      → get_elem? s.queue n ≡ some a
      → get_elem? s'.queue 0 ≡ some a
  next_after n a s s' (no_round _) e = e
  next_after n a s s' (round m b l _ s1 _ undone waits ran rounds) e =
      let (behind, same) = run_turn-queue b (record s { queue = l }) s1 ran in
      let next : get_elem? l m ≡ some a = ap (λ q. get_elem? q (suc m)) (sym waits) ∙ e in
      next_after m a s1 s' rounds (ap (λ q. get_elem? q m) same ∙ head_of l a m behind next)

  -- Round robin is fair: after `n` rounds the loop of `run_proc_RR` goes on from the state behind them, where a
  -- process that `n` others were waiting before is the next one.
  pub Rounds-fair :
      (n f a : ℕ) (s s' : Kernel)
      → Rounds n s s'
      → get_elem? s.queue n ≡ some a
      → (run_rounds parse_input border (n + f) s ≡ run_rounds parse_input border f s')
        × (get_elem? s'.queue 0 ≡ some a)
  Rounds-fair n f a s s' rounds e =
      (run_rounds-Rounds n f s s' rounds, next_after n a s s' rounds e)
