-- ===== src/Pid/Order.antt =====
-- Well-formed nodes: where the pids of a node lie, and the ranges of its subtrees.
use cse.Base.{
  ℕ, zero, suc, ◌+◌, ◌-◌, ◌*◌, ◌/◌, ◌≤◌, ◌<◌, ◌≡◌, true, Option, none, some, ◌⊎◌, inl, inr, arith,
  dec_lt,
}
use cse.Pid.Tree.{Tree, null, node, is_null}
use cse.Pid.Insert.{low_bound, high_bound}
use cse.Pid.Locate.{Sorted, Between, Hung}

-- The place of slot `i` in a range.
abbrev pub place : ℕ → ℕ → ℕ → ℕ
place lo hi i = lo + i * (hi - lo) / 8

-- A node for the pids from `lo` to `hi`. The pid of a slot is its place in the range; only slot 0
-- may have the pid `base` instead, as that of the kernel's process in the root.
pub record IsNode {P : Type 0} (base lo hi : ℕ) (pids : ℕ → Option ℕ) (procs : ℕ → Option P)
    (subs : ℕ → Tree P) : Type 0 where
  pub wide : lo + 8 ≤ hi
  pub based : base ≤ lo
  pub placed : (i p : ℕ) → i < 8 → pids i ≡ some p → (p ≡ place lo hi i) ⊎ ((i ≡ 0) × (p ≡ base))
  pub named : (i : ℕ) → i < 8 → pids i ≡ none → procs i ≡ none
  pub hung : Hung pids subs

-- How wide a range must be for a node with `k` more levels below it.
abbrev pub width : ℕ → ℕ
width zero = 8
width (suc k) = 8 * width k + 16

-- A tree with at most `k` levels below its root, for the pids from `lo` to `hi`.
abbrev pub WellFormed : {P : Type 0} → ℕ → ℕ → ℕ → ℕ → Tree P → Type 0
WellFormed zero base lo hi null = Unit
WellFormed zero base lo hi (node pids procs sizes subs) =
    IsNode base lo hi pids procs subs × ((i : ℕ) → i < 8 → is_null (subs i) ≡ true)
WellFormed (suc k) base lo hi null = Unit
WellFormed (suc k) base lo hi (node pids procs sizes subs) =
    IsNode base lo hi pids procs subs
    × ((i : ℕ)
        → i < 8
        → WellFormed k (low_bound (pids i) lo) (low_bound (pids i) lo) (high_bound i pids hi)
            (subs i))

pub null-WellFormed :
    {P : Type 0} (k base lo hi : ℕ) (t : Tree P) → is_null t ≡ true → WellFormed k base lo hi t
null-WellFormed zero base lo hi null e = tt
null-WellFormed (suc k) base lo hi null e = tt
null-WellFormed k base lo hi (node a b c d) e = cc

place_step : (i m w : ℕ) → 8 ≤ w → i * w / 8 + w / 8 ≤ (i + 1 + m) * w / 8
place_step i m w h = omega arith

-- Places lie apart by an eighth of the range.
pub place_apart :
    (lo hi i j : ℕ) → lo + 8 ≤ hi → i < j → place lo hi i + (hi - lo) / 8 ≤ place lo hi j
place_apart lo hi i j h p =
    let e : i + 1 + (j - i - 1) ≡ j = omega arith in
    let step = place_step i (j - i - 1) (hi - lo) (omega arith) in omega (arith, rw e at step)

pub place_in : (lo hi i : ℕ) → lo + 8 ≤ hi → i < 8 → place lo hi i ≤ hi
place_in lo hi i h p = omega (arith, place_apart lo hi i 8 h p)

module _ {P : Type 0} {base lo hi : ℕ} {pids : ℕ → Option ℕ} {procs : ℕ → Option P}
    {subs : ℕ → Tree P} (v : IsNode base lo hi pids procs subs) where
  pub node-Sorted : Sorted pids
  node-Sorted i j a b p h ea eb =
      let apart = place_apart lo hi i j v.wide p in
      ground (arith, v.wide, v.based, v.placed i a (omega arith) ea, v.placed j b h eb)

  -- The range of the subtree behind slot `i`, once the pids around it are set.
  module _ (i p : ℕ) (hi8 : i < 8) (ep : pids i ≡ some p)
      (next : (i ≡ 7) ⊎ ((b : ℕ) × (pids (i + 1) ≡ some b))) where
    abbrev low : ℕ
    low = low_bound (pids i) lo

    abbrev high : ℕ
    high = high_bound i pids hi

    low_lem : (p < low) × (lo ≤ low) × ((low ≡ lo) ⊎ (low ≡ p + 1))
    low_lem = ground arith

    -- The pid of the next slot is that of its place.
    next_placed : (b : ℕ) → i < 7 → pids (i + 1) ≡ some b → b ≡ place lo hi (i + 1)
    next_placed b inner eb = elim (v.placed (i + 1) b (omega arith) eb) [
      | inl at ↦ at
      | inr (e, _) ↦ absurd (omega arith)
    ]

    here_placed : p ≤ place lo hi i
    here_placed = elim (v.placed i p hi8 ep) [
      | inl at ↦ omega arith
      | inr (e, at) ↦ omega (arith, v.based)
    ]

    -- What lies in the range lies between the two pids.
    pub range-Between : (q : ℕ) → low ≤ q → q ≤ high → Between pids i q
    range-Between q l h = (
      p,
      ep,
      omega (arith, low_lem),
      elim (dec_lt i 7) [
        | no outer ↦ inl (omega arith)
        | yes inner ↦ elim next [
          | inl last ↦ inl last
          | inr (b, eb) ↦
              let at = next_placed b inner eb in
              let apart = place_apart lo hi i (i + 1) v.wide (omega arith) in
              let positive : 0 < b = omega (arith, v.wide) in inr (b, eb, ground arith)
        ]
      ],
    )

    pub range_wide :
        (k : ℕ) → lo + width (suc k) ≤ hi → (low + width k ≤ high) × (base ≤ low) × (high ≤ hi)
    range_wide k w = elim (dec_lt i 7) [
      | no outer ↦
          let top : high ≡ hi = ground arith in
          let apart = place_apart lo hi i 8 v.wide (omega arith) in
          rw top (omega (arith, low_lem, here_placed, v.based))
      | yes inner ↦ elim next [
        | inl last ↦ absurd (omega arith)
        | inr (b, eb) ↦
            let at = next_placed b inner eb in
            let apart = place_apart lo hi i (i + 1) v.wide (omega arith) in
            let inside = place_in lo hi (i + 1) v.wide (omega arith) in
            let top : high ≡ b - 1 = ground arith in
            rw top (omega (arith, low_lem, here_placed, v.based))
      ]
    ]
