-- ===== src/Array/Grow.antt =====
-- The doubling loop of array_preallocate.
use native.Mathlib.Nat.{pow-suc}
use cse.Base.{
  ℕ, zero, suc, ◌+◌, ◌*◌, ◌^◌, ◌≤◌, ◌<◌, ◌≡◌, refl, ltb, false, Bool-cases, inl, inr, arith, Ends,
}
use cse.Array.{grow_loop, grow_fuel, next_max}

-- What the loop returns: room for `num`, and less than twice as much as needed.
abbrev pub Fits : ℕ → ℕ → Type 0
Fits num m = (num ≤ m) × (m < 2 * num + 8)

next_max_doubles : (m : ℕ) → 0 < m → m < 2 ^ 30 → next_max m ≡ m * 2
unfolding next_max
next_max_doubles m p h = ground arith

double_pow : (m f : ℕ) → m * 2 ^ suc f ≡ m * 2 * 2 ^ f
double_pow m f = rw (pow-suc 2 f) (omega arith)

-- `f` doublings are enough from a start within a factor `2 ^ f` of `num`.
grow_loop-Fits :
    (f num m : ℕ)
    → num ≤ 2 ^ 30
    → 0 < m
    → num ≤ m * 2 ^ f
    → m < 2 * num + 8
    → Ends (Fits num) (grow_loop (suc f) num m)
unfolding grow_loop
grow_loop-Fits zero num m small p near room =
    let stop : ltb m num ≡ false = ground arith in rw stop (m, refl, (omega arith, room))
grow_loop-Fits (suc f) num m small p near room = elim (Bool-cases (ltb m num)) [
  | inl more ↦
      let less : m < num = ground arith in
      let next : next_max m ≡ m * 2 = next_max_doubles m p (omega arith) in
      rw (more, next)
        (grow_loop-Fits f num (m * 2) small (omega arith) (omega (arith, double_pow m f))
          (omega arith))
  | inr stop ↦ rw stop (m, refl, (ground arith, room))
]

first_round : (f num : ℕ) → 0 < num → grow_loop (suc f) num 0 ≡ grow_loop f num 4
unfolding grow_loop next_max
first_round f num h = ground arith

-- From any `max` below `num`, the 32 rounds of the model are enough.
pub grow_from :
    (num max : ℕ) → num ≤ 2 ^ 30 → max < num → Ends (Fits num) (grow_loop grow_fuel num max)
grow_from num zero small h =
    rw (first_round 31 num h)
      (grow_loop-Fits 30 num 4 small (omega arith) (omega arith) (omega arith))
grow_from num (suc m) small h =
    grow_loop-Fits 31 num (suc m) small (omega arith) (omega arith) (omega arith)
