-- ===== src/Pid/Full.antt =====
-- pid_allocate_helper at a node: in a free slot, or in the least full subtree.
use cse.Base.{
  ℕ, suc, ◌+◌, ◌≤◌, ◌<◌, ◌≡◌, ◌≢◌, refl, sym, ◌∙◌, true, Option, none, some, ◌⊎◌, inl, inr, arith,
  ℤ, suc_ℤ, dec_lt, ℕ_discrete, update, Option-cases, Bool-cases,
}
use cse.Pid.Tree.{Tree, node, is_null, pid_get_proc}
use cse.Pid.Insert.{low_bound, high_bound, least_full, find_free, descend, allocate_node}
use cse.Pid.Locate.{Sorted, Between, Hung}
use cse.Pid.Search.{get_here, get-Between, get_nowhere, view}
use cse.Pid.Order.{IsNode, width, WellFormed, node-Sorted, range-Between, range_wide}
use cse.Pid.Slots.{Added}
use cse.Pid.Room.{HasFree, Allocated, Free, find_free-Free, least_full_below, slot-Allocated}

module _ {P : Type 0} (base lo hi : ℕ) (pids : ℕ → Option ℕ) (procs : ℕ → Option P) (sizes : ℕ → ℤ)
    (subs : ℕ → Tree P) (x : P) where
  abbrev t : Tree P
  t = node pids procs sizes subs

  -- Every slot has a process, so the allocation goes to the subtree `idx`.
  module _ (v : IsNode base lo hi pids procs subs) (taken : (j : ℕ) → j < 8 → procs j ≢ none)
      (idx : ℕ) (h : idx < 8) (u : Tree P) (sizes' : ℕ → ℤ) where
    abbrev subs' : ℕ → Tree P
    subs' = update subs idx u

    abbrev t' : Tree P
    t' = node pids procs sizes' subs'

    set : (j : ℕ) → j < 8 → (a : ℕ) × (pids j ≡ some a)
    set j hj = elim (Option-cases (pids j)) [
      | inl unset ↦ absurd (taken j hj (v.named j hj unset))
      | inr found ↦ found
    ]

    next : (j : ℕ) → j < 8 → (j ≡ 7) ⊎ ((b : ℕ) × (pids (j + 1) ≡ some b))
    next j hj = elim (dec_lt j 7) [
      | yes inner ↦ inr (set (j + 1) (omega arith))
      | no outer ↦ inl (omega arith)
    ]

    hung' : Hung pids subs'
    hung' j hj full = let (a, ea) = set j hj in (a, ea, next j hj)

    full-IsNode : IsNode base lo hi pids procs subs'
    full-IsNode = record {
      wide = v.wide;
      based = v.based;
      placed = v.placed;
      named = v.named;
      hung = hung';
    }

    abbrev low' : ℕ
    low' = low_bound (pids idx) lo

    abbrev high' : ℕ
    high' = high_bound idx pids hi

    full-Added :
        (k q : ℕ)
        → lo + width (suc k) ≤ hi
        → Added low' high' (subs idx) x q u
        → Added base hi t x q t'
    full-Added k q w d = record {
      low = omega (arith, d.low, inside);
      high = omega (arith, d.high, inside);
      fresh = get-Between pids procs sizes subs sorted v.hung q idx h gap ∙ d.fresh;
      found =
          get-Between pids procs sizes' subs' sorted hung' q idx h gap ∙ ground (arith, d.found);
      others = λ r ne. elim (view pids procs sizes subs sorted v.hung r) [
        | inl (j, hj, ej) ↦
            get_here pids procs sizes' subs' sorted hung' r j hj ej
            ∙ sym (get_here pids procs sizes subs sorted v.hung r j hj ej)
        | inr (inl (j, hj, g)) ↦
            get-Between pids procs sizes' subs' sorted hung' r j hj g
            ∙ deeper j r ne
            ∙ sym (get-Between pids procs sizes subs sorted v.hung r j hj g)
        | inr (inr (no_slot, no_gap)) ↦
            get_nowhere pids procs sizes' subs' sorted hung' r no_slot no_gap
            ∙ sym (get_nowhere pids procs sizes subs sorted v.hung r no_slot no_gap)
      ];
    }
      where
        sorted : Sorted pids
        sorted = node-Sorted v

        inside : (low' + width k ≤ high') × (base ≤ low') × (high' ≤ hi)
        inside = let (p, ep) = set idx h in range_wide v idx p h ep (next idx h) k w

        gap : Between pids idx q
        gap = let (p, ep) = set idx h in range-Between v idx p h ep (next idx h) q d.low d.high

        deeper : (j r : ℕ) → r ≢ q → pid_get_proc (subs' j) r ≡ pid_get_proc (subs j) r
        deeper j r ne = elim (ℕ_discrete idx j) [
          | yes same ↦ ground (arith, d.others r ne)
          | no other ↦ ground arith
        ]

    full-WellFormed :
        (k : ℕ)
        → WellFormed (suc k) base lo hi t
        → WellFormed k low' low' high' u
        → WellFormed (suc k) base lo hi t'
    full-WellFormed k (_, below) wu = (
      full-IsNode,
      λ j hj. elim (ℕ_discrete idx j) [
        | yes same ↦ let e : u ≡ subs' j = ground arith in rw (sym e, sym same) wu
        | no other ↦ let e : subs j ≡ subs' j = ground arith in rw (sym e) (below j hj)
      ],
    )

    inside_lem : (k : ℕ) → lo + width (suc k) ≤ hi → low' + width k ≤ high'
    inside_lem k w = let (p, ep) = set idx h in (range_wide v idx p h ep (next idx h) k w).0

    -- The call in the subtree, put back into the node.
    full-Allocated :
        (k : ℕ) (r : Option ℕ × Tree P)
        → lo + width (suc k) ≤ hi
        → WellFormed (suc k) base lo hi t
        → u ≡ r.1
        → Allocated k low' low' high' (subs idx) x r
        → Allocated (suc k) base lo hi t x (r.0, t')
    full-Allocated k r w wf e (q, eq, d, wu) =
        (q, eq, full-Added k q w (rw (sym e) at d), full-WellFormed k wf (rw (sym e) at wu))

  -- Some slot is free.
  pub free-Allocated :
      (k : ℕ) (deeper : ℕ → ℕ → ℕ → Option ℕ × Tree P)
      → WellFormed k base lo hi t
      → HasFree procs
      → Allocated k base lo hi t x (allocate_node true pids procs sizes subs x lo hi deeper)
  unfolding allocate_node
  free-Allocated k deeper w (j, hj, free) = elim (Option-cases (find_free 8 0 procs)) [
    | inl nowhere ↦ absurd ((rw nowhere at scan) j hj free)
    | inr (i, found) ↦
        let (h, e) = rw found at scan in
        rw found (slot-Allocated base lo hi pids procs sizes subs x i h e k w)
  ]
    where
      scan : Free procs (find_free 8 0 procs)
      scan = find_free-Free procs 8 0 (omega arith) (λ m hm. absurd (omega arith))

  -- The subtrees have room, if no slot is free.
  pub node-Allocated :
      (k : ℕ) (deeper : ℕ → ℕ → ℕ → Option ℕ × Tree P)
      → lo + width (suc k) ≤ hi
      → WellFormed (suc k) base lo hi t
      → ((j low high : ℕ)
          → j < 8
          → low + width k ≤ high
          → WellFormed k low low high (subs j)
          → Allocated k low low high (subs j) x (deeper j low high))
      → Allocated (suc k) base lo hi t x (allocate_node true pids procs sizes subs x lo hi deeper)
  unfolding allocate_node descend
  node-Allocated k deeper w wf step = elim (Option-cases (find_free 8 0 procs)) [
    | inl nowhere ↦ rw nowhere (full (rw nowhere at scan))
    | inr (i, found) ↦
        let (h, e) = rw found at scan in
        rw found (slot-Allocated base lo hi pids procs sizes subs x i h e (suc k) wf)
  ]
    where
      scan : Free procs (find_free 8 0 procs)
      scan = find_free-Free procs 8 0 (omega arith) (λ m hm. absurd (omega arith))

      idx : ℕ
      idx = least_full 7 1 sizes (sizes 0) 0

      r : Option ℕ × Tree P
      r = deeper idx (low_bound (pids idx) lo) (high_bound idx pids hi)

      full :
          ((j : ℕ) → j < 8 → procs j ≢ none)
          → Allocated (suc k) base lo hi t x (descend true idx pids procs sizes subs r)
      full taken =
          let h = least_full_below 7 1 sizes (sizes 0) 0 (omega arith) (omega arith) in
          let sizes' = update sizes idx (suc_ℤ (sizes idx)) in
          let done =
            full-Allocated (wf.0) taken idx h (r.1) sizes' k r w wf refl
              (step idx _ _ h (inside_lem (wf.0) taken idx h (r.1) sizes' k w) (wf.1 idx h)) in
          elim (Bool-cases (is_null (subs idx))) [
            | inl empty ↦ rw empty done
            | inr present ↦ rw present done
          ]
