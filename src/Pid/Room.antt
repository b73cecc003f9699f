-- ===== src/Pid/Room.antt =====
-- Room for a process, and pid_allocate_helper at a node with a free slot.
use cse.Base.{
  ℕ, zero, suc, ◌+◌, ◌-◌, ◌≤◌, ◌<◌, ◌≡◌, ◌≢◌, refl, sym, ap, ◌∙◌, Option, none, some, ◌⊎◌, inl, inr,
  arith, ℤ, ℕ_discrete, update, ltb, Bool-cases, if◌then◌else◌,
}
use cse.Pid.Tree.{Tree, null, node, is_null}
use cse.Pid.Insert.{choose_pid, spread, low_bound, high_bound, least_full, find_free, take_slot}
use cse.Pid.Order.{IsNode, width, WellFormed, null-WellFormed}
use cse.Pid.Slots.{Added, kept, slot-IsNode, slot-Added}

abbrev pub HasFree : {P : Type 0} → (ℕ → Option P) → Type 0
HasFree procs = (i : ℕ) × (i < 8) × (procs i ≡ none)

-- With `k` more levels at most, whatever subtree the search for the least full one takes has a
-- free slot or room for one. (A subtree that is NULL has.)
abbrev pub HasRoom : {P : Type 0} → ℕ → Tree P → Type 0
HasRoom zero null = Unit
HasRoom zero (node pids procs sizes subs) = HasFree procs
HasRoom (suc k) null = Unit
HasRoom (suc k) (node pids procs sizes subs) =
    HasFree procs ⊎ ((i : ℕ) → i < 8 → HasRoom k (subs i))

-- What an allocation does to a tree: it gives a pid to the process, and leaves the tree well-formed.
abbrev pub Allocated : {P : Type 0} → ℕ → ℕ → ℕ → ℕ → Tree P → P → Option ℕ × Tree P → Type 0
Allocated k base lo hi t x r =
    (q : ℕ) × (r.0 ≡ some q) × Added base hi t x q (r.1) × WellFormed k base lo hi (r.1)

abbrev pub Free : {P : Type 0} → (ℕ → Option P) → Option ℕ → Type 0
Free procs none = (j : ℕ) → j < 8 → procs j ≢ none
Free procs (some i) = (i < 8) × (procs i ≡ none)

pub find_free-Free :
    {P : Type 0} (procs : ℕ → Option P) (n i : ℕ)
    → i + n ≡ 8
    → ((j : ℕ) → j < i → procs j ≢ none)
    → Free procs (find_free n i procs)
unfolding find_free
find_free-Free procs zero i e taken = λ j h. taken j (omega arith)
find_free-Free {P = P} procs (suc n) i e taken =
    go (find_free-Free procs n (i + 1) (omega arith)) (procs i) refl
  where
    Next : Type 0
    Next = ((j : ℕ) → j < i + 1 → procs j ≢ none) → Free procs (find_free n (i + 1) procs)

    onward : procs i ≢ none → (j : ℕ) → j < i + 1 → procs j ≢ none
    onward ne j h eq = elim (ℕ_discrete j i) [
      | yes same ↦ ne (rw same at eq)
      | no other ↦ taken j (omega arith) eq
    ]

    go :
        Next
        → (o : Option P) → procs i ≡ o
        → Free procs (elim o [ none ↦ some i | some x ↦ find_free n (i + 1) procs ])
    go next none eq = (omega arith, eq)
    go next (some x) eq = next (onward (λ ne. cc))

pub least_full_below :
    (n i : ℕ) (sizes : ℕ → ℤ) (max : ℤ) (idx : ℕ)
    → i + n ≡ 8
    → idx < 8
    → least_full n i sizes max idx < 8
unfolding least_full
least_full_below zero i sizes max idx e h = h
least_full_below (suc n) i sizes max idx e h =
    least_full_below n (i + 1) sizes _ _ (omega arith) (ground arith)

pub width_wide : (k lo hi : ℕ) → lo + width k ≤ hi → lo + 8 ≤ hi
width_wide zero lo hi w = w
width_wide (suc k) lo hi w = omega arith

module _ {P : Type 0} (base lo hi : ℕ) (pids : ℕ → Option ℕ) (procs : ℕ → Option P) (sizes : ℕ → ℤ)
    (subs : ℕ → Tree P) (x : P) where
  abbrev t : Tree P
  t = node pids procs sizes subs

  WellFormed-IsNode : (k : ℕ) → WellFormed k base lo hi t → IsNode base lo hi pids procs subs
  WellFormed-IsNode zero (v, _) = v
  WellFormed-IsNode (suc k) (v, _) = v

  -- A process put into the free slot `i`.
  module _ (i : ℕ) (h : i < 8) (free : procs i ≡ none) where
    abbrev pids' : ℕ → Option ℕ
    pids' = update pids i (some (choose_pid (pids i) (spread i lo hi)))

    module _ (v : IsNode base lo hi pids procs subs) where
      kept' : (j a : ℕ) → pids j ≡ some a → pids' j ≡ pids j
      kept' j a ea = kept base lo hi pids procs sizes subs v x i h free j a ea ∙ sym ea

      same_high :
          (j a : ℕ)
          → (j ≡ 7) ⊎ ((b : ℕ) × (pids (j + 1) ≡ some b))
          → high_bound j pids' hi ≡ high_bound j pids hi
      same_high j a (inl last) = ground arith
      same_high j a (inr (b, eb)) =
          ap (λ p. if ltb j 7 then choose_pid p 0 - 1 else hi) (kept' (j + 1) b eb)

      child :
          (k j : ℕ)
          → j < 8
          → WellFormed k
              (low_bound (pids j) lo)
              (low_bound (pids j) lo)
              (high_bound j pids hi)
              (subs j)
          → WellFormed k
              (low_bound (pids' j) lo)
              (low_bound (pids' j) lo)
              (high_bound j pids' hi)
              (subs j)
      child k j h' w = elim (Bool-cases (is_null (subs j))) [
        | inl empty ↦ null-WellFormed k _ _ _ (subs j) empty
        | inr full ↦ let (a, ea, next) = v.hung j h' full in rw (same_high j a next, kept' j a ea) w
      ]

    slot-WellFormed :
        (k : ℕ)
        → WellFormed k base lo hi t
        → WellFormed k base lo hi ((take_slot i pids procs sizes subs x lo hi).1)
    unfolding take_slot
    slot-WellFormed zero (v, empty) =
        (slot-IsNode base lo hi pids procs sizes subs v x i h free, empty)
    slot-WellFormed (suc k) (v, below) = (
      slot-IsNode base lo hi pids procs sizes subs v x i h free,
      λ j h'. child v k j h' (below j h'),
    )

    pub slot-Allocated :
        (k : ℕ)
        → WellFormed k base lo hi t
        → Allocated k base lo hi t x (take_slot i pids procs sizes subs x lo hi)
    unfolding take_slot
    slot-Allocated k w = (
      choose_pid (pids i) (spread i lo hi),
      refl,
      slot-Added base lo hi pids procs sizes subs (WellFormed-IsNode k w) x i h free,
      slot-WellFormed k w,
    )
