-- ===== src/Pid/Destroy.antt =====
-- pid_destroy_tree of kern/proc/pid.c.
use cse.Base.{
  ℕ, zero, suc, ◌+◌, ◌≤◌, ◌<◌, ◌≡◌, refl, sym, ap, ◌∙◌, Bool, true, false, ◌||◌, Option, none, some,
  ◌⊎◌, inl, inr, arith, ℤ, update, ltb, ◌==◌, if◌then◌else◌, Bool-cases, ℕ_discrete,
}
use cse.Pid.Tree.{
  Tree, null, node, is_null, pid_dir_size, Spot, here, under, nowhere, before, locate, get_at,
  pid_get_proc,
}

module _ {P : Type 0} where
  -- The loop over the slots from `i`, with `n` of them left; `deeper` is the recursive call. It
  -- returns at the first subtree that is not destroyed, and at the first slot with a process. A
  -- subtree that is destroyed becomes NULL; one that is not keeps what is left of it.
  unfoldable pub destroy_loop :
      ℕ → ℕ → (ℕ → Option P) → (ℕ → Tree P) → (ℕ → Bool × Tree P) → Bool × (ℕ → Tree P)
  destroy_loop zero i procs subs deeper = (true, subs)
  destroy_loop (suc n) i procs subs deeper =
      let subs' = if is_null (subs i) then subs else update subs i ((deeper i).1) in
      let rest = destroy_loop n (i + 1) procs subs' deeper in
      if is_null (subs i) || (deeper i).0
      then elim (procs i) [ none ↦ rest | some x ↦ (false, subs') ]
      else (false, subs')

  -- Behind the loop: the node is freed if the loop ran to its end.
  abbrev free_node : (ℕ → Option ℕ) → (ℕ → Option P) → (ℕ → ℤ) → Bool × (ℕ → Tree P) → Bool × Tree P
  free_node pids procs sizes (true, subs) = (true, null)
  free_node pids procs sizes (false, subs) = (false, node pids procs sizes subs)

  -- What it returns (0 or 1), and what is left of the tree: NULL once the node is freed.
  unfoldable pub pid_destroy_tree : Tree P → Bool × Tree P
  unfolding destroy_loop
  pid_destroy_tree null = (false, null)
  pid_destroy_tree (node pids procs sizes subs) =
      free_node pids procs sizes
        (destroy_loop pid_dir_size 0 procs subs (λ i. pid_destroy_tree (subs i)))

-- No slot of the tree has a process.
abbrev pub Vacant : {P : Type 0} → Tree P → Type 0
Vacant null = Unit
Vacant (node pids procs sizes subs) = (i : ℕ) → i < 8 → (procs i ≡ none) × Vacant (subs i)

-- The two results of pid_destroy_tree.
abbrev pub Destroyed : {P : Type 0} → Tree P → Bool × Tree P → Type 0
Destroyed t r =
    ((r.0 ≡ true) × (r.1 ≡ null) × Vacant t)
    ⊎ ((r.0 ≡ false) × (¬ (Vacant t)) × ((q : ℕ) → pid_get_proc (r.1) q ≡ pid_get_proc t q))

abbrev IsSlot : Spot → Type 0
IsSlot (here i) = i < 8
IsSlot (under i) = i < 8
IsSlot nowhere = Unit

before-IsSlot : (i : ℕ) → i < 8 → IsSlot (before i)
before-IsSlot zero h = tt
before-IsSlot (suc i) h = omega arith

locate-IsSlot : (n i : ℕ) (pids : ℕ → Option ℕ) (q : ℕ) → i + n ≡ 8 → IsSlot (locate n i pids q)
unfolding locate
locate-IsSlot zero i pids q e = omega arith
locate-IsSlot (suc n) i pids q e = go (locate-IsSlot n (i + 1) pids q (omega arith)) (pids i)
  where
    go :
        IsSlot (locate n (i + 1) pids q)
        → (o : Option ℕ)
        → IsSlot (elim o [
          | none ↦ locate n (i + 1) pids q
          | some p ↦
              (if q == p then here i else if ltb q p then before i else locate n (i + 1) pids q)
        ])
    go rest none = rest
    go rest (some p) = elim (Bool-cases (q == p)) [
      | inl same ↦ rw same (omega arith)
      | inr other ↦ elim (Bool-cases (ltb q p)) [
        | inl less ↦ rw (other, less) (before-IsSlot i (omega arith))
        | inr more ↦ rw (other, more) rest
      ]
    ]

get-Vacant : {P : Type 0} (t : Tree P) (q : ℕ) → Vacant t → pid_get_proc t q ≡ none
unfolding pid_get_proc get_at
get-Vacant null q v = refl
get-Vacant {P = P} (node pids procs sizes subs) q v =
    go (locate 8 0 pids q) (locate-IsSlot 8 0 pids q (omega arith))
      (λ j h. get-Vacant (subs j) q ((v j h).1))
  where
    go :
        (s : Spot)
        → IsSlot s
        → ((j : ℕ) → j < 8 → pid_get_proc (subs j) q ≡ none)
        → get_at s procs (λ i. pid_get_proc (subs i) q) ≡ none
    go (here j) h deep = (v j h).0
    go (under j) h deep = deep j h
    go nowhere h deep = refl

-- Subtrees that answer alike make nodes that do.
get-alike :
    {P : Type 0} (pids : ℕ → Option ℕ) (procs : ℕ → Option P) (sizes : ℕ → ℤ) (a b : ℕ → Tree P)
    (q : ℕ)
    → ((j : ℕ) → pid_get_proc (a j) q ≡ pid_get_proc (b j) q)
    → pid_get_proc (node pids procs sizes a) q ≡ pid_get_proc (node pids procs sizes b) q
unfolding pid_get_proc get_at
get-alike {P = P} pids procs sizes a b q alike = go (locate 8 0 pids q)
  where
    go :
        (s : Spot)
        → get_at s procs (λ i. pid_get_proc (a i) q) ≡ get_at s procs (λ i. pid_get_proc (b i) q)
    go (here j) = refl
    go (under j) = alike j
    go nowhere = refl

module _ {P : Type 0} (procs : ℕ → Option P) (old : ℕ → Tree P) (deeper : ℕ → Bool × Tree P)
    (step : (j : ℕ) → is_null (old j) ≡ false → Destroyed (old j) (deeper j)) where
  abbrev Empty : ℕ → Type 0
  Empty j = (procs j ≡ none) × Vacant (old j)

  abbrev Alike : (ℕ → Tree P) → Type 0
  Alike subs = (j q : ℕ) → pid_get_proc (subs j) q ≡ pid_get_proc (old j) q

  abbrev Swept : Bool × (ℕ → Tree P) → Type 0
  Swept r =
      ((r.0 ≡ true) × ((j : ℕ) → j < 8 → Empty j))
      ⊎ ((r.0 ≡ false) × (¬ ((j : ℕ) → j < 8 → Empty j)) × Alike (r.1))

  null-Vacant : (t : Tree P) → is_null t ≡ true → Vacant t
  null-Vacant null e = tt
  null-Vacant (node a b c d) e = absurd cc

  put-Alike :
      (subs : ℕ → Tree P) (i : ℕ) (u : Tree P)
      → Alike subs
      → ((q : ℕ) → pid_get_proc u q ≡ pid_get_proc (old i) q)
      → Alike (update subs i u)
  put-Alike subs i u alike same j q = elim (ℕ_discrete i j) [
    | yes eq ↦ ground (arith, same q, eq)
    | no other ↦ ground (arith, alike j q)
  ]

  destroy_loop-Swept :
      (n i : ℕ) (subs : ℕ → Tree P)
      → i + n ≡ 8
      → ((j : ℕ) → j < i → Empty j)
      → Alike subs
      → ((j : ℕ) → i ≤ j → subs j ≡ old j)
      → Swept (destroy_loop n i procs subs deeper)
  unfolding destroy_loop
  destroy_loop-Swept zero i subs e seen alike ahead = inl (refl, λ j h. seen j (omega arith))
  destroy_loop-Swept (suc n) i subs e seen alike ahead =
      turn
        (λ subs' alike' ahead' vacant.
          onward vacant (λ w. destroy_loop-Swept n (i + 1) w (omega arith)) subs' alike' ahead'
            (procs i) refl)
        (is_null (subs i)) ((deeper i).0) refl refl
    where
      After : (ℕ → Tree P) → Type 0
      After subs' = Swept (elim (procs i) [
        | none ↦ destroy_loop n (i + 1) procs subs' deeper
        | some x ↦ (false, subs')
      ])

      answer :
          (q : ℕ)
          → Vacant (old i)
          → (deeper i).1 ≡ null
          → pid_get_proc ((deeper i).1) q ≡ pid_get_proc (old i) q
      answer q vacant freed =
          ap (λ u. pid_get_proc u q) freed
          ∙ get-Vacant null q tt
          ∙ sym (get-Vacant (old i) q vacant)

      -- Every slot up to `i` is empty, or this one has a process.
      onward :
          Vacant (old i)
          → ((subs' : ℕ → Tree P)
              → ((j : ℕ) → j < i + 1 → Empty j)
              → Alike subs'
              → ((j : ℕ) → i + 1 ≤ j → subs' j ≡ old j)
              → Swept (destroy_loop n (i + 1) procs subs' deeper))
          → (subs' : ℕ → Tree P) → Alike subs'
          → ((j : ℕ) → i + 1 ≤ j → subs' j ≡ old j)
          → (o : Option P) → procs i ≡ o
          → Swept (elim o [
            | none ↦ destroy_loop n (i + 1) procs subs' deeper
            | some x ↦ (false, subs')
          ])
      onward vacant next subs' alike' ahead' none eq =
          next subs'
            (λ j h. elim (ℕ_discrete i j) [
              | yes same ↦ rw (sym same) (eq, vacant)
              | no other ↦ seen j (omega arith)
            ])
            alike' ahead'
      onward vacant next subs' alike' ahead' (some x) eq =
          inr (refl, (λ all. let none_here = (all i (omega arith)).0 in ground arith), alike')

      turn :
          ((subs' : ℕ → Tree P)
            → Alike subs'
            → ((j : ℕ) → i + 1 ≤ j → subs' j ≡ old j)
            → Vacant (old i)
            → After subs')
          → (gone ok : Bool) → is_null (subs i) ≡ gone
          → (deeper i).0 ≡ ok
          → Swept (
              let subs' = if gone then subs else update subs i ((deeper i).1) in
              let rest = destroy_loop n (i + 1) procs subs' deeper in
              if gone || ok
              then elim (procs i) [ none ↦ rest | some x ↦ (false, subs') ]
              else (false, subs'))
      turn after true ok eg eo =
          after subs alike (λ j h. ahead j (omega arith))
            (null-Vacant (old i) (rw (ahead i (omega arith)) at eg))
      turn after false ok eg eo = elim (step i (rw (ahead i (omega arith)) at eg)) [
        | inl (yes_, freed, vacant) ↦ rw (sym eo ∙ yes_) (
            after (update subs i ((deeper i).1))
              (put-Alike subs i _ alike (λ q. answer q vacant freed))
              (λ j h. ground (arith, ahead j)) vacant)
        | inr (failed, occupied, same) ↦
            rw (sym eo ∙ failed) (
              inr
                (refl, (λ all. occupied ((all i (omega arith)).1)), put-Alike subs i _ alike same))
      ]

  free_node-Destroyed :
      (pids : ℕ → Option ℕ) (sizes : ℕ → ℤ) (r : Bool × (ℕ → Tree P))
      → Swept r
      → Destroyed (node pids procs sizes old) (free_node pids procs sizes r)
  free_node-Destroyed pids sizes (true, subs) (inl (e, empty)) = inl (refl, refl, empty)
  free_node-Destroyed pids sizes (true, subs) (inr (e, occupied, alike)) = absurd cc
  free_node-Destroyed pids sizes (false, subs) (inl (e, empty)) = absurd cc
  free_node-Destroyed pids sizes (false, subs) (inr (e, occupied, alike)) =
      inr (refl, occupied, λ q. get-alike pids procs sizes subs old q (λ j. alike j q))

-- pid_destroy_tree on a tree returns 1, with nothing left of it, if no slot of the tree has a
-- process. Else it returns 0, and pid_get_proc finds in what is left of the tree, for every pid,
-- what it found before.
pub pid_destroy_tree-Destroyed :
    {P : Type 0} (t : Tree P) → is_null t ≡ false → Destroyed t (pid_destroy_tree t)
unfolding pid_destroy_tree
pid_destroy_tree-Destroyed null e = absurd cc
pid_destroy_tree-Destroyed (node pids procs sizes subs) e =
    free_node-Destroyed procs subs (λ i. pid_destroy_tree (subs i))
      (λ j e'. pid_destroy_tree-Destroyed (subs j) e') pids sizes
      (destroy_loop 8 0 procs subs (λ i. pid_destroy_tree (subs i)))
      (destroy_loop-Swept procs subs (λ i. pid_destroy_tree (subs i))
        (λ j e'. pid_destroy_tree-Destroyed (subs j) e') 8 0 subs (omega arith)
        (λ j h. absurd (omega arith)) (λ j q. refl) (λ j h. refl))
