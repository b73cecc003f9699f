-- ===== src/Array.antt =====
-- kern/include/array.h and kern/lib/array.c: the resizeable array of pointers.
-- An operation that updates `*a` returns the new array beside its return code.
pub mod Grow
pub mod Laws
mod Tests
use cse.Base.{
  ℕ, zero, suc, ◌+◌, ◌-◌, ◌*◌, ◌%◌, ◌^◌, Option, none, some, update, ltb, leb, ◌==◌, ◌&&◌,
  if◌then◌else◌, Status, success, enomem, Run, done, fault, out_of_fuel, kassert, ◌>>=◌, ◌>>◌,
}

-- A block from kmalloc: its slots of one pointer each, and its size in bytes. A block of no bytes
-- stands for NULL.
pub record Block {ℓ} (A : Type ℓ) : Type ℓ where
  pub mem : ℕ → A
  pub bytes : ℕ

-- `sizeof(void *)` on MIPS
abbrev pub word_size : ℕ
word_size = 4

-- unsigned arithmetic
abbrev pub u32 : ℕ → ℕ
u32 n = n % 2 ^ 32

module _ {ℓ} {A : Type ℓ} where
  -- `v[i]`, read and written
  pub load : Block A → ℕ → Run A
  load b i = if leb (word_size * i + word_size) b.bytes then done (b.mem i) else fault

  unfoldable pub store : Block A → ℕ → A → Run (Block A)
  store b i x =
      if leb (word_size * i + word_size) b.bytes
      then done (record b { mem = update b.mem i x })
      else fault

  -- memcpy of `n` pointers from the start of one block to the start of another
  copy_slots : ℕ → (ℕ → A) → (ℕ → A) → ℕ → A
  copy_slots n from to i = if ltb i n then from i else to i

pub record Array {ℓ} (A : Type ℓ) : Type ℓ where
  pub v : Block A
  pub num : ℕ
  pub max : ℕ

-- What the environment decides: the block that kmalloc returns for a number of bytes, if any.
abbrev pub Kmalloc {ℓ} : Type ℓ → Type ℓ
Kmalloc A = ℕ → Option (Block A)

-- `newmax ? newmax*2 : 4`
pub next_max : ℕ → ℕ
next_max m = if m == 0 then 4 else u32 (m * 2)

-- The loop of array_preallocate doubles until `num` fits.
pub grow_loop : ℕ → ℕ → ℕ → Run ℕ
grow_loop zero num newmax = out_of_fuel
grow_loop (suc fuel) num newmax =
    let rest = grow_loop fuel num (next_max newmax) in if ltb newmax num then rest else done newmax

-- 4, 8, …, 2 ^ 31: no value of `num` needs more rounds.
abbrev pub grow_fuel : ℕ
grow_fuel = 32

module _ {ℓ} {A : Type ℓ} where
  unfoldable pub array_init : (ℕ → A) → Array A
  array_init junk = record { v = record { mem = junk; bytes = 0 }; num = 0; max = 0 }

  unfoldable pub array_num : Array A → ℕ
  array_num a = a.num

  unfoldable pub array_get : Array A → ℕ → Run A
  unfolding load
  array_get a index = do kassert (ltb index a.num); load a.v index

  unfoldable pub array_set : Array A → ℕ → A → Run (Array A)
  unfolding store
  array_set a index val = do
    kassert (ltb index a.num)
    v' ← store a.v index val
    done (record a { v = v' })

  -- the new block takes over the old one's elements
  pub adopt : Array A → Block A → ℕ → Array A
  unfolding copy_slots
  adopt a b newmax = record a {
    v = record b { mem = copy_slots a.num a.v.mem b.mem };
    max = newmax;
  }

  -- the part of array_preallocate that runs once `newmax` is known
  pub reallocate : Kmalloc A → Array A → ℕ → Run (Status × Array A)
  unfolding adopt
  reallocate kmalloc a newmax = elim (kmalloc (u32 (newmax * word_size))) [
    | none ↦ done (enomem, a)
    | some b ↦ done (success, adopt a b newmax)
  ]

  pub array_preallocate : Kmalloc A → Array A → ℕ → Run (Status × Array A)
  unfolding reallocate grow_loop next_max
  array_preallocate kmalloc a num =
      if ltb a.max num
      then grow_loop grow_fuel num a.max >>= reallocate kmalloc a
      else done (success, a)

  -- `a->num = num` runs only if the allocation succeeded.
  set_num : ℕ → Status × Array A → Run (Status × Array A)
  set_num num (success, a) = done (success, record a { num = num })
  set_num num (code, a) = done (code, a)

  pub array_setsize : Kmalloc A → Array A → ℕ → Run (Status × Array A)
  unfolding array_preallocate set_num
  array_setsize kmalloc a num = array_preallocate kmalloc a num >>= set_num num

  -- The index that array_add passes out is the old `num`.
  put_last : ℕ → A → Status × Array A → Run (Status × ℕ × Array A)
  unfolding store
  put_last index val (success, a) = do
    v' ← store a.v index val
    done (success, index, record a { v = v' })
  put_last index val (code, a) = done (code, index, a)

  unfoldable pub array_add : Kmalloc A → Array A → A → Run (Status × ℕ × Array A)
  unfolding array_setsize put_last
  array_add kmalloc a val = array_setsize kmalloc a (u32 (a.num + 1)) >>= put_last a.num val

  -- memmove of `n` pointers from slot `index + 1` to slot `index`
  slide : ℕ → ℕ → (ℕ → A) → ℕ → A
  slide index n f i = if leb index i && ltb i (index + n) then f (i + 1) else f i

  -- the array after the memmove of `num - (index + 1)` pointers and `num--`
  pub closed_up : Array A → ℕ → Array A
  unfolding slide
  closed_up a index = record a {
    v = record (a.v) { mem = slide index (a.num - (index + 1)) a.v.mem };
    num = a.num - 1;
  }

  pub array_remove : Array A → ℕ → Run (Array A)
  unfolding closed_up
  array_remove a index = do
    kassert (leb a.num a.max)
    kassert (ltb index a.num)
    done (closed_up a index)

  -- array_cleanup asserts that the array is empty, and frees the block.
  unfoldable pub array_cleanup : Array A → Run (Array A)
  array_cleanup a = do kassert (a.num == 0); done (record a { v = record (a.v) { bytes = 0 } })
