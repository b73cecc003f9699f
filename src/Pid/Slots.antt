-- ===== src/Pid/Slots.antt =====
-- A process put into a free slot of a well-formed node.
use cse.Base.{
  ℕ, ◌+◌, ◌≤◌, ◌<◌, ◌≡◌, ◌≢◌, sym, ◌∙◌, false, Option, none, some, ◌⊎◌, inl, inr, arith, ℤ, dec_lt,
  ℕ_discrete, update, Option-cases, Bool-cases,
}
use cse.Pid.Tree.{Tree, node, is_null, pid_get_proc}
use cse.Pid.Insert.{spread, choose_pid}
use cse.Pid.Locate.{Sorted, Between}
use cse.Pid.Search.{get-null, get_here, get-Between, get_nowhere, view}
use cse.Pid.Order.{IsNode, place, place_in, node-Sorted}

-- `t'` is `t` with the process `x` under the pid `q`, which was free: all other pids keep their
-- processes.
pub record Added {P : Type 0} (base hi : ℕ) (t : Tree P) (x : P) (q : ℕ) (t' : Tree P)
    : Type 0 where
  pub low : base ≤ q
  pub high : q ≤ hi
  pub fresh : pid_get_proc t q ≡ none
  pub found : pid_get_proc t' q ≡ some x
  pub others : (r : ℕ) → r ≢ q → pid_get_proc t' r ≡ pid_get_proc t r

module _ {P : Type 0} (base lo hi : ℕ) (pids : ℕ → Option ℕ) (procs : ℕ → Option P) (sizes : ℕ → ℤ)
    (subs : ℕ → Tree P) (v : IsNode base lo hi pids procs subs) (x : P) (i : ℕ) (h : i < 8)
    (free : procs i ≡ none) where
  abbrev q : ℕ
  q = choose_pid (pids i) (spread i lo hi)

  abbrev pids' : ℕ → Option ℕ
  pids' = update pids i (some q)

  abbrev procs' : ℕ → Option P
  procs' = update procs i (some x)

  abbrev t : Tree P
  t = node pids procs sizes subs

  abbrev t' : Tree P
  t' = node pids' procs' sizes subs

  q_placed : (q ≡ place lo hi i) ⊎ ((i ≡ 0) × (q ≡ base))
  q_placed = elim (Option-cases (pids i)) [
    | inl unset ↦ inl (ground (arith, v.wide))
    | inr (old, e) ↦
        let same : q ≡ old = ground arith in
        elim (v.placed i old h e) [ inl at ↦ inl (same ∙ at) | inr (z, at) ↦ inr (z, same ∙ at) ]
  ]

  -- A pid that was set is kept.
  pub kept : (j p : ℕ) → pids j ≡ some p → pids' j ≡ some p
  kept j p e = ground arith

  pub slot-IsNode : IsNode base lo hi pids' procs' subs
  slot-IsNode = record {
    wide = v.wide;
    based = v.based;
    placed = λ j p h' e. elim (ℕ_discrete i j) [
      | yes same ↦
          let eq : q ≡ p = ground arith in
          elim q_placed [
            | inl at ↦ inl (ground arith)
            | inr (z, at) ↦ inr (ground arith, ground arith)
          ]
      | no other ↦ v.placed j p h' (ground arith)
    ];
    named = λ j h' e. ground (arith, v.named j h');
    hung = λ j h' full.
        let (a, ea, next) = v.hung j h' full in
        (
          a,
          kept j a ea,
          elim next [ inl last ↦ inl last | inr (b, eb) ↦ inr (b, kept (j + 1) b eb) ],
        );
  }

  sorted : Sorted pids
  sorted = node-Sorted v

  sorted' : Sorted pids'
  sorted' = node-Sorted slot-IsNode

  mine : pids' i ≡ some q
  mine = ground arith

  slot_found : pid_get_proc t' q ≡ some x
  slot_found = get_here pids' procs' sizes subs sorted' slot-IsNode.hung q i h mine ∙ (ground arith)

  Between-kept : (j r : ℕ) → Between pids j r → Between pids' j r
  Between-kept j r (a, ea, la, top) = (
    a,
    kept j a ea,
    la,
    elim top [ inl last ↦ inl last | inr (b, eb, lb) ↦ inr (b, kept (j + 1) b eb, lb) ],
  )

  -- No gap of the node before holds the new pid.
  no_gap : (j : ℕ) → j < 8 → ¬ (Between pids j q)
  no_gap j hj gap =
      let (a, ea, la, top) = Between-kept j q gap in
      elim (dec_lt i j) [
        | yes p ↦ omega (arith, sorted' i j q a p hj mine ea)
        | no p ↦ elim (ℕ_discrete i j) [
          | yes same ↦ ground (arith, mine, same)
          | no other ↦ elim top [
            | inl last ↦ omega arith
            | inr (b, eb, lb) ↦ elim (ℕ_discrete i (j + 1)) [
              | yes next ↦ ground (arith, mine, next)
              | no far ↦ omega (arith, sorted' (j + 1) i b q (omega arith) h eb mine)
            ]
          ]
        ]
      ]

  slot_fresh : pid_get_proc t q ≡ none
  slot_fresh = elim (view pids procs sizes subs sorted v.hung q) [
    | inl (j, hj, ej) ↦ elim (ℕ_discrete j i) [
      | yes same ↦
          get_here pids procs sizes subs sorted v.hung q j hj ej ∙ ground (arith, same, free)
      | no other ↦ elim (dec_lt i j) [
        | yes p ↦ absurd (omega (arith, sorted' i j q q p hj mine (kept j q ej)))
        | no p ↦ absurd (omega (arith, sorted' j i q q (omega arith) h (kept j q ej) mine))
      ]
    ]
    | inr (inl (j, hj, gap)) ↦ absurd (no_gap j hj gap)
    | inr (inr (no_slot, none_between)) ↦
        get_nowhere pids procs sizes subs sorted v.hung q no_slot none_between
  ]

  module _ (r : ℕ) (ne : r ≢ q) where
    -- A pid that had no place before has no process now.
    still_nowhere :
        ((j : ℕ) → j < 8 → pids j ≢ some r)
        → ((j : ℕ) → j < 8 → ¬ (Between pids j r))
        → pid_get_proc t' r ≡ none
    still_nowhere no_slot none_between =
        elim (view pids' procs' sizes subs sorted' slot-IsNode.hung r) [
          | inl (j, hj, ej) ↦ absurd (no_slot j hj (ground arith))
          | inr (inl (j, hj, gap)) ↦
              get-Between pids' procs' sizes subs sorted' slot-IsNode.hung r j hj gap
              ∙ elim (Bool-cases (is_null (subs j))) [
                | inl empty ↦ get-null (subs j) r empty
                | inr full ↦ absurd (none_between j hj (old_gap j hj full gap))
              ]
          | inr (inr (no_slot', none_between')) ↦
              get_nowhere pids' procs' sizes subs sorted' slot-IsNode.hung r no_slot' none_between'
        ]
      where
        old_gap : (j : ℕ) → j < 8 → is_null (subs j) ≡ false → Between pids' j r → Between pids j r
        old_gap j hj full (a, ea, la, top) =
            let (c, ec, next) = v.hung j hj full in
            let same = kept j c ec in
            (
              c,
              ec,
              ground arith,
              elim top [
                | inl last ↦ inl last
                | inr (b, eb, lb) ↦ elim next [
                  | inl last ↦ inl last
                  | inr (d, ed) ↦ inr (d, ed, ground (arith, kept (j + 1) d ed))
                ]
              ],
            )

    slot_others : pid_get_proc t' r ≡ pid_get_proc t r
    slot_others = elim (view pids procs sizes subs sorted v.hung r) [
      | inl (j, hj, ej) ↦
          get_here pids' procs' sizes subs sorted' slot-IsNode.hung r j hj (kept j r ej)
          ∙ ground (arith, kept j r ej)
          ∙ sym (get_here pids procs sizes subs sorted v.hung r j hj ej)
      | inr (inl (j, hj, gap)) ↦
          get-Between pids' procs' sizes subs sorted' slot-IsNode.hung r j hj (Between-kept j r gap)
          ∙ sym (get-Between pids procs sizes subs sorted v.hung r j hj gap)
      | inr (inr (no_slot, none_between)) ↦
          still_nowhere no_slot none_between
          ∙ sym (get_nowhere pids procs sizes subs sorted v.hung r no_slot none_between)
    ]

  pub slot-Added : Added base hi t x q t'
  slot-Added = record {
    low = elim q_placed [ inl at ↦ omega (arith, v.based) | inr (z, at) ↦ omega arith ];
    high = elim q_placed [
      | inl at ↦ omega (arith, place_in lo hi i v.wide h)
      | inr (z, at) ↦ omega (arith, v.based, v.wide)
    ];
    fresh = slot_fresh;
    found = slot_found;
    others = slot_others;
  }
