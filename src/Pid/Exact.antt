-- ===== src/Pid/Exact.antt =====
-- When pid_remove_proc drops no process but the one it is given: where that stands in the topmost node.
use cse.Base.{
  ℕ, ◌+◌, ◌-◌, ◌<◌, ◌≡◌, ◌≢◌, refl, sym, ap, ◌∙◌, Bool, true, ◌&&◌, ◌||◌, Option, none, some, inl,
  inr, update, arith, ◌==◌, if◌then◌else◌, ℤ, is_zero_ℤ, Bool-cases, ℕ_discrete, dec_lt,
}
use cse.Pid.Tree.{Tree, node, Spot, here, under, nowhere, locate, pid_get_proc, is_null}
use cse.Pid.Locate.{Sorted, Between, Hung, Located, locate-Located}
use cse.Pid.Search.{get-null, get_here, get-Between, get_nowhere, view}
use cse.Pid.Remove.{clear_slot, remove_at, pid_remove_proc}

module _ {P : Type 0} (pids : ℕ → Option ℕ) (procs : ℕ → Option P) (sizes : ℕ → ℤ)
    (subs : ℕ → Tree P) (sorted : Sorted pids) (hung : Hung pids subs)
    (counted : (j : ℕ) → j < 8 → is_zero_ℤ (sizes j) ≡ true → is_null (subs j) ≡ true) (i r : ℕ)
    (h : i < 8) (at : pids i ≡ some r) where
  -- No other slot has the pid.
  only : (j : ℕ) → j < 8 → pids j ≡ some r → j ≡ i
  only j hj e = elim (dec_lt i j) [
    | yes p ↦ absurd (ground (arith, sorted i j r r p hj at e))
    | no p ↦ elim (dec_lt j i) [
      | yes q ↦ absurd (ground (arith, sorted j i r r q h e at))
      | no q ↦ omega arith
    ]
  ]

  locate-here : locate 8 0 pids r ≡ here i
  locate-here =
      go (locate 8 0 pids r)
        (locate-Located pids sorted r 8 0 (omega arith) (λ m q hm. absurd (omega arith)))
    where
      go : (s : Spot) → Located pids r s → s ≡ here i
      go (here j) (hj, ej) = ap here (only j hj ej)
      go (under j) (hj, low, high) = elim (dec_lt j i) [
        | yes p ↦ absurd (ground (arith, high i r p h at))
        | no p ↦ absurd (ground (arith, low i r (omega arith) at))
      ]
      go nowhere all = absurd (ground (arith, all i r h at))

  abbrev old : Tree P
  old = node pids procs sizes subs

  abbrev procs' : ℕ → Option P
  procs' = update procs i none

  -- The lookups behind a removal.
  abbrev Exact : Tree P → Type 0
  Exact t = (q : ℕ) → pid_get_proc t q ≡ (if q == r then none else pid_get_proc old q)

  kept_pid : Exact (node pids procs' sizes subs)
  kept_pid q = elim (Bool-cases (q == r)) [
    | inl same ↦
        let e : q ≡ r = ground arith in
        rw (same, e) (get_here pids procs' sizes subs sorted hung r i h at ∙ ground arith)
    | inr other ↦ rw other (elim (view pids procs sizes subs sorted hung q) [
      | inl (j, hj, e) ↦
          get_here pids procs' sizes subs sorted hung q j hj e
          ∙ ground arith
          ∙ sym (get_here pids procs sizes subs sorted hung q j hj e)
      | inr (inl (j, hj, gap)) ↦
          get-Between pids procs' sizes subs sorted hung q j hj gap
          ∙ sym (get-Between pids procs sizes subs sorted hung q j hj gap)
      | inr (inr (no_slot, no_gap)) ↦
          get_nowhere pids procs' sizes subs sorted hung q no_slot no_gap
          ∙ sym (get_nowhere pids procs sizes subs sorted hung q no_slot no_gap)
    ])
  ]

  module _ (own : is_null (subs i) ≡ true)
      (previous : (j : ℕ) → j + 1 ≡ i → is_null (subs j) ≡ true) where
    abbrev pids' : ℕ → Option ℕ
    pids' = update pids i none

    sorted' : Sorted pids'
    sorted' j k a b lt hk ea eb = ground (arith, sorted j k a b lt hk)

    hung' : Hung pids' subs
    hung' j hj full =
        let (a, ea, top) = hung j hj full in
        let apart : i ≢ j = λ e. ground arith in
        (
          a,
          ground arith,
          elim top [ inl last ↦ inl last | inr (b, eb) ↦ inr (b, ground (arith, previous j)) ],
        )

    Between-old : (j q : ℕ) → Between pids' j q → Between pids j q
    Between-old j q (a, ea, la, top) = (
      a,
      ground arith,
      la,
      elim top [ inl last ↦ inl last | inr (b, eb, lb) ↦ inr (b, ground arith, lb) ],
    )

    no_gap : (j : ℕ) → j < 8 → ¬ (Between pids' j r)
    no_gap j hj gap =
        let (a, ea, la, top) = gap in
        elim (dec_lt j i) [
          | yes front ↦ elim top [
            | inl last ↦ omega arith
            | inr (b, eb, lb) ↦ elim (ℕ_discrete (j + 1) i) [
              | yes next ↦ ground arith
              | no later ↦
                  ground (arith, sorted i (j + 1) r b, sorted (j + 1) i b r (omega arith) h)
            ]
          ]
          | no back ↦ elim (ℕ_discrete i j) [
            | yes mine ↦ ground arith
            | no behind ↦ ground (arith, sorted i j r a (omega arith) hj at)
          ]
        ]

    missing :
        (q : ℕ)
        → q ≢ r
        → ((j : ℕ) → j < 8 → pids' j ≢ some q)
        → ((j : ℕ) → j < 8 → ¬ (Between pids' j q))
        → pid_get_proc old q ≡ none
    missing q ne no_slot gaps = elim (view pids procs sizes subs sorted hung q) [
      | inl (j, hj, e) ↦ absurd (no_slot j hj (ground arith))
      | inr (inl (j, hj, gap)) ↦
          let (a, ea, la, top) = gap in
          get-Between pids procs sizes subs sorted hung q j hj gap ∙ (elim (ℕ_discrete i j) [
            | yes mine ↦ get-null (subs j) q (rw (sym mine) own)
            | no not_mine ↦ elim (ℕ_discrete (j + 1) i) [
              | yes next ↦ get-null (subs j) q (previous j next)
              | no apart ↦ absurd (
                  gaps j hj (
                    a,
                    ground arith,
                    la,
                    elim top [ inl last ↦ inl last | inr (b, eb, lb) ↦ inr (b, ground arith, lb) ],
                  ))
            ]
          ])
      | inr (inr (none_here, no_gaps)) ↦
          get_nowhere pids procs sizes subs sorted hung q none_here no_gaps
    ]

    cleared_pid : Exact (node pids' procs' sizes subs)
    cleared_pid q = elim (Bool-cases (q == r)) [
      | inl same ↦
          let e : q ≡ r = ground arith in
          rw (same, e)
            (get_nowhere pids' procs' sizes subs sorted' hung' r
              (λ j hj slot. ground (arith, only j hj)) no_gap)
      | inr other ↦ rw other (elim (view pids' procs' sizes subs sorted' hung' q) [
        | inl (j, hj, e) ↦
            get_here pids' procs' sizes subs sorted' hung' q j hj e
            ∙ ground arith
            ∙ sym (get_here pids procs sizes subs sorted hung q j hj (ground arith))
        | inr (inl (j, hj, gap)) ↦
            get-Between pids' procs' sizes subs sorted' hung' q j hj gap
            ∙ sym (get-Between pids procs sizes subs sorted hung q j hj (Between-old j q gap))
        | inr (inr (no_slot, gaps)) ↦
            get_nowhere pids' procs' sizes subs sorted' hung' q no_slot gaps
            ∙ sym (missing q (ground arith) no_slot gaps)
      ])
    ]

  abbrev alone : Bool
  alone = is_zero_ℤ (sizes i) && (i == 0 || is_zero_ℤ (sizes (i - 1)))

  prior : (j : ℕ) → j + 1 ≡ i → alone ≡ true → is_zero_ℤ (sizes j) ≡ true
  prior j e a = let same : i - 1 ≡ j = omega arith in ground (arith, ap sizes same)

  -- In a node whose pids are in order, whose subtrees hang between two pids or behind the last, and whose
  -- slots count 0 only where they have no subtree, pid_remove_proc on the pid of a slot returns the
  -- process of that slot. In the tree behind it pid_get_proc finds no process for that pid, and for
  -- every other pid what it found before.
  pub pid_remove_proc-Exact :
      let removed = pid_remove_proc old r in
      (removed.found ≡ true) × (removed.proc ≡ procs i) × Exact removed.tree
  unfolding pid_remove_proc remove_at clear_slot
  pid_remove_proc-Exact =
      rw (locate-here, remove_at, clear_slot)
        (
          refl,
          refl,
          elim (Bool-cases alone) [
            | inl yes_alone ↦ rw yes_alone (
                cleared_pid (counted i h (ground arith))
                  (λ j e. counted j (omega arith) (prior j e yes_alone)))
            | inr not_alone ↦ rw not_alone kept_pid
          ],
        )
