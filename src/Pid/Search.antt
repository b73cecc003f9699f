-- ===== src/Pid/Search.antt =====
-- What pid_get_proc finds in a node whose pids are in order.
use cse.Base.{
  ℕ, ◌+◌, ◌<◌, ◌≡◌, ◌≢◌, refl, true, Option, none, some, ◌⊎◌, inl, inr, arith, Option-cases,
  Bool-cases, ℕ_discrete, dec_lt, ap, ℤ,
}
use cse.Pid.Tree.{
  Tree, null, node, Spot, here, under, nowhere, locate, get_at, pid_get_proc, is_null,
}
use cse.Pid.Locate.{Sorted, Between, Hung, Located, locate-Located, locate-Between}

pub get-null : {P : Type 0} (t : Tree P) (r : ℕ) → is_null t ≡ true → pid_get_proc t r ≡ none
unfolding pid_get_proc
get-null null r e = refl
get-null (node a b c d) r e = cc

-- The three answers of pid_get_proc at a node in order: the process of the slot with the pid, the
-- answer of the subtree around the pid, or NULL.
module _ {P : Type 0} (pids : ℕ → Option ℕ) (procs : ℕ → Option P) (sizes : ℕ → ℤ)
    (subs : ℕ → Tree P) (sorted : Sorted pids) (hung : Hung pids subs) (r : ℕ) where
  abbrev answer : Option P
  answer = pid_get_proc (node pids procs sizes subs) r

  scan : Located pids r (locate 8 0 pids r)
  scan = locate-Located pids sorted r 8 0 (omega arith) (λ m q hm. absurd (omega arith))

  pub get_here : (i : ℕ) → i < 8 → pids i ≡ some r → answer ≡ procs i
  unfolding pid_get_proc get_at
  get_here i h e = go (locate 8 0 pids r) scan
    where
      go : (s : Spot) → Located pids r s → get_at s procs (λ j. pid_get_proc (subs j) r) ≡ procs i
      go (here j) (hj, ej) = elim (dec_lt i j) [
        | yes p ↦ absurd (ground (arith, sorted i j r r p hj e ej))
        | no p ↦ elim (dec_lt j i) [
          | yes q ↦ absurd (ground (arith, sorted j i r r q h ej e))
          | no q ↦ let same : j ≡ i = omega arith in ap procs same
        ]
      ]
      go (under j) (hj, low, high) = elim (dec_lt j i) [
        | yes p ↦ absurd (ground (arith, high i r p h e))
        | no p ↦ absurd (ground (arith, low i r (omega arith) e))
      ]
      go nowhere all = absurd (ground (arith, all i r h e))

  pub get-Between : (i : ℕ) → i < 8 → Between pids i r → answer ≡ pid_get_proc (subs i) r
  unfolding pid_get_proc get_at
  get-Between i h gap =
      ap (λ s. get_at s procs (λ j. pid_get_proc (subs j) r)) (locate-Between pids sorted r i h gap)

  pub get_nowhere :
      ((i : ℕ) → i < 8 → pids i ≢ some r) → ((i : ℕ) → i < 8 → ¬ (Between pids i r)) → answer ≡ none
  unfolding pid_get_proc get_at
  get_nowhere no_slot no_gap = go (locate 8 0 pids r) scan
    where
      go : (s : Spot) → Located pids r s → get_at s procs (λ j. pid_get_proc (subs j) r) ≡ none
      go (here j) (hj, ej) = absurd (no_slot j hj ej)
      go (under j) (hj, low, high) = elim (Bool-cases (is_null (subs j))) [
        | inl empty ↦ get-null (subs j) r empty
        | inr full ↦
            let (a, ea, top) = hung j hj full in
            absurd (
              no_gap j hj (
                a,
                ea,
                low j a (omega arith) ea,
                elim top [
                  | inl last ↦ inl last
                  | inr (b, eb) ↦ elim (ℕ_discrete j 7) [
                    | yes last ↦ inl last
                    | no inner ↦ inr (b, eb, high (j + 1) b (omega arith) (omega arith) eb)
                  ]
                ],
              ))
      ]
      go nowhere all = refl

  -- Every pid is at one of three places.
  pub view :
      ((i : ℕ) × (i < 8) × (pids i ≡ some r))
      ⊎ (((i : ℕ) × (i < 8) × Between pids i r)
          ⊎ (((i : ℕ) → i < 8 → pids i ≢ some r) × ((i : ℕ) → i < 8 → ¬ (Between pids i r))))
  view = go (locate 8 0 pids r) scan
    where
      Answer : Type 0
      Answer =
          ((i : ℕ) × (i < 8) × (pids i ≡ some r))
          ⊎ (((i : ℕ) × (i < 8) × Between pids i r)
              ⊎ (((i : ℕ) → i < 8 → pids i ≢ some r) × ((i : ℕ) → i < 8 → ¬ (Between pids i r))))

      outside : (j : ℕ) → Located pids r (under j) → ¬ (Between pids j r) → Answer
      outside j (hj, low, high) no_gap = inr (
          inr (
            (λ i h e. elim (dec_lt j i) [
              | yes p ↦ ground (arith, high i r p h e)
              | no p ↦ ground (arith, low i r (omega arith) e)
            ]),
            λ i h gap.
                let (a, ea, la, top) = gap in
                elim (dec_lt j i) [
                  | yes p ↦ ground (arith, high i a p h ea)
                  | no p ↦ elim (ℕ_discrete i j) [
                    | yes same ↦ no_gap (rw same at gap)
                    | no other ↦ elim top [
                      | inl last ↦ omega arith
                      | inr (b, eb, lb) ↦ ground (arith, low (i + 1) b (omega arith) eb)
                    ]
                  ]
                ],
          ))

      go : (s : Spot) → Located pids r s → Answer
      go (here j) (hj, ej) = inl (j, hj, ej)
      go nowhere all = inr (
          inr (
            (λ i h e. ground (arith, all i r h e)),
            λ i h (a, ea, la, top). ground (arith, all i a h ea),
          ))
      go (under j) (hj, low, high) = elim (Option-cases (pids j)) [
        | inl unset ↦ outside j (hj, low, high) (λ (a, ea, la, top). ground arith)
        | inr (a, ea) ↦ elim (ℕ_discrete j 7) [
          | yes last ↦ inr (inl (j, hj, (a, ea, low j a (omega arith) ea, inl last)))
          | no inner ↦ elim (Option-cases (pids (j + 1))) [
            | inl unset ↦
                outside j (hj, low, high)
                  (λ (a', ea', la', top). elim top [
                    | inl last ↦ inner last
                    | inr (b, eb, lb) ↦ ground arith
                  ])
            | inr (b, eb) ↦ inr (
                inl (
                  j,
                  hj,
                  (
                    a,
                    ea,
                    low j a (omega arith) ea,
                    inr (b, eb, high (j + 1) b (omega arith) (omega arith) eb),
                  ),
                ))
          ]
        ]
      ]
