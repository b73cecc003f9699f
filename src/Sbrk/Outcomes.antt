-- ===== src/Sbrk/Outcomes.antt =====
-- What sys_sbrk does for each amount.
use cse.Base.{
  ℕ, ◌+◌, ◌-◌, ◌%◌, ◌^◌, ◌≤◌, ◌<◌, ◌≡◌, refl, true, false, ltb, leb, ◌==◌, arith, dec_lt,
  ℕ_discrete,
}
use mathlib.Core.Path.{subst}
use cse.Sbrk.{Errno, success, einval, enomem, Addrspace, sys_sbrk}

-- The heap lies in order below the stack, which lies in user space.
pub record IsValid (space : Addrspace) : Type 0 where
  pub order : space.heap_start ≤ space.heap_end
  pub under_stack : space.heap_end ≤ space.stack_base
  pub user : space.stack_base ≤ 2 ^ 31

-- What a call with `amount` returns: the old end of the heap, with a new one and nothing else changed,
-- or an error.
pub data Sbrk (space : Addrspace) : ℕ → Errno × ℕ × Addrspace → Type 0 where
  same : Sbrk space 0 (success, space.heap_end, space)
  grown :
      (n : ℕ)
      → 0 < n
      → space.heap_end + n < space.stack_base
      → IsValid (record space { heap_end = space.heap_end + n })
      → Sbrk space n (success, space.heap_end, record space { heap_end = space.heap_end + n })
  too_large :
      (n : ℕ)
      → 0 < n
      → n < 2 ^ 31
      → space.stack_base ≤ space.heap_end + n
      → Sbrk space n (enomem, 2 ^ 32 - 1, space)
  shrunk :
      (n : ℕ)
      → 0 < n
      → space.heap_start + n ≤ space.heap_end
      → IsValid (record space { heap_end = space.heap_end - n })
      → Sbrk space
          (2 ^ 32 - n)
          (success, space.heap_end, record space { heap_end = space.heap_end - n })
  below_start :
      (n : ℕ)
      → n ≤ space.heap_end
      → space.heap_end < space.heap_start + n
      → Sbrk space (2 ^ 32 - n) (einval, 2 ^ 32 - 1, space)
  wrapped :
      (n : ℕ)
      → n ≤ 2 ^ 31
      → space.heap_end < n
      → (new_end : ℕ) → new_end + n ≡ space.heap_end + 2 ^ 32
      → 2 ^ 31 ≤ new_end
      → Sbrk space (2 ^ 32 - n) (success, space.heap_end, record space { heap_end = new_end })

module _ (space : Addrspace) (valid : IsValid space) where
  grows :
      (n : ℕ)
      → 0 < n
      → n < 2 ^ 31
      → Dec (space.heap_end + n < space.stack_base)
      → Sbrk space n (sys_sbrk n space)
  unfolding sys_sbrk
  grows n pos small (yes fits) =
      let nonzero : (n == 0) ≡ false = ground arith in
      let up : leb (2 ^ 31) n ≡ false = ground arith in
      let target : (space.heap_end + n) % 2 ^ 32 ≡ space.heap_end + n =
        omega (arith, valid.under_stack, valid.user) in
      let room : ltb (space.heap_end + n) space.stack_base ≡ true = ground arith in
      rw (nonzero, up, target, room)
        (grown n pos fits (record {
          order = omega (arith, valid.order);
          under_stack = omega arith;
          user = valid.user;
        }))
  grows n pos small (no over) =
      let nonzero : (n == 0) ≡ false = ground arith in
      let up : leb (2 ^ 31) n ≡ false = ground arith in
      let target : (space.heap_end + n) % 2 ^ 32 ≡ space.heap_end + n =
        omega (arith, valid.under_stack, valid.user) in
      let full : ltb (space.heap_end + n) space.stack_base ≡ false = ground arith in
      rw (nonzero, up, target, full) (too_large n pos small (omega arith))

  -- A negative amount, with `n` its size and `target` the end that is computed.
  module _ (n : ℕ) (pos : 0 < n) (small : n ≤ 2 ^ 31) (target : ℕ)
      (e : (space.heap_end + (2 ^ 32 - n)) % 2 ^ 32 ≡ target) where
    accepts :
        space.heap_start ≤ target
        → sys_sbrk (2 ^ 32 - n) space
          ≡ (success, space.heap_end, record space { heap_end = target })
    unfolding sys_sbrk
    accepts above =
        let nonzero : (2 ^ 32 - n == 0) ≡ false = ground arith in
        let down : leb (2 ^ 31) (2 ^ 32 - n) ≡ true = ground arith in
        let room : leb space.heap_start target ≡ true = ground arith in
        rw (nonzero, down, e, room) refl

    refuses : target < space.heap_start → sys_sbrk (2 ^ 32 - n) space ≡ (einval, 2 ^ 32 - 1, space)
    unfolding sys_sbrk
    refuses low =
        let nonzero : (2 ^ 32 - n == 0) ≡ false = ground arith in
        let down : leb (2 ^ 31) (2 ^ 32 - n) ≡ true = ground arith in
        let under : leb space.heap_start target ≡ false = ground arith in
        rw (nonzero, down, e, under) refl

  shrinks :
      (n : ℕ)
      → 0 < n
      → n ≤ 2 ^ 31
      → Dec (space.heap_end < n)
      → Dec (space.heap_end < space.heap_start + n)
      → Sbrk space (2 ^ 32 - n) (sys_sbrk (2 ^ 32 - n) space)
  shrinks n pos small (yes wraps) _ =
      let new_end : ℕ = space.heap_end + (2 ^ 32 - n) in
      let target : (space.heap_end + (2 ^ 32 - n)) % 2 ^ 32 ≡ new_end = omega arith in
      rw
        (accepts n pos small new_end target
          (omega (arith, valid.order, valid.under_stack, valid.user)))
        (wrapped n small wraps new_end (omega arith) (omega arith))
  shrinks n pos small (no inside) (yes low) =
      let target : (space.heap_end + (2 ^ 32 - n)) % 2 ^ 32 ≡ space.heap_end - n =
        omega (arith, valid.under_stack, valid.user) in
      rw (refuses n pos small (space.heap_end - n) target (omega arith))
        (below_start n (omega arith) low)
  shrinks n pos small (no inside) (no above) =
      let target : (space.heap_end + (2 ^ 32 - n)) % 2 ^ 32 ≡ space.heap_end - n =
        omega (arith, valid.under_stack, valid.user) in
      rw (accepts n pos small (space.heap_end - n) target (omega arith)) (
        shrunk n pos (omega arith) (record {
          order = omega arith;
          under_stack = omega (arith, valid.under_stack);
          user = valid.user;
        }))

  no_change : Sbrk space 0 (sys_sbrk 0 space)
  unfolding sys_sbrk
  no_change = same

  -- On a heap in order below the stack, sys_sbrk returns the old end of the heap and moves it by the
  -- amount, up to but not at the base of the stack and down to the start of the heap; it
  -- refuses other increases with ENOMEM and other decreases with EINVAL, without a change, but for
  -- a decrease by more than the end of the heap: that it accepts, and the heap then ends outside
  -- user space.
  pub sys_sbrk_lem : (amount : ℕ) → amount < 2 ^ 32 → Sbrk space amount (sys_sbrk amount space)
  sys_sbrk_lem amount word = elim (ℕ_discrete amount 0) [
    | yes zero_amount ↦ rw zero_amount no_change
    | no other ↦ elim (dec_lt amount (2 ^ 31)) [
      | yes up ↦ grows amount (omega arith) up (dec_lt _ _)
      | no down ↦
          let size : 2 ^ 32 - (2 ^ 32 - amount) ≡ amount = omega arith in
          subst (λ n. Sbrk space n (sys_sbrk n space)) size
            (shrinks (2 ^ 32 - amount) (omega arith) (omega arith) (dec_lt _ _) (dec_lt _ _))
    ]
  ]
