-- ===== src/Bitmap/Byte.antt =====
-- The bits of a byte under the operations of bitmap.c, checked at every byte and position.
use Prim.Native.Nat.{bit_and, bit_or}
use cse.Base.{
  ℕ, zero, suc, ◌-◌, ◌/◌, ◌%◌, ◌^◌, ◌<◌, ◌≡◌, refl, Bool, true, false, not, ◌&&◌, ◌||◌, arith, ltb,
  ◌==◌,
}
use cse.Bitmap.{mask, word_allbits}

-- Is bit `o` of the byte set?
unfoldable pub bit : ℕ → ℕ → Bool
bit byte o = byte / 2 ^ o % 2 == 1

eqb : Bool → Bool → Bool
eqb true b = b
eqb false b = not b

eqb→eq : (a b : Bool) → eqb a b ≡ true → a ≡ b
unfolding eqb
eqb→eq a b h = ground arith

-- The test holds below the bound.
unfoldable pub every : ℕ → (ℕ → Bool) → Bool
every zero p = true
every (suc n) p = p n && every n p

pub every_at : (n : ℕ) (p : ℕ → Bool) (x : ℕ) → every n p ≡ true → x < n → p x ≡ true
unfolding every
every_at zero p x h lt = absurd (omega arith)
every_at (suc n) p x h lt = ground (arith, every_at n p x)

-- A test that holds at all bytes and two positions.
every3 :
    (p : ℕ → ℕ → ℕ → Bool)
    → every 8 (λ o. every 8 (λ q. every 256 (λ b. p b o q))) ≡ true
    → (b o q : ℕ) → b < 256
    → o < 8
    → q < 8
    → p b o q ≡ true
every3 p h b o q hb ho hq =
    every_at 256 (λ b. p b o q) b
      (every_at 8 (λ q. every 256 (λ b. p b o q)) q
        (every_at 8 (λ o. every 8 (λ q. every 256 (λ b. p b o q))) o h ho) hq)
      hb

bit-or_table :
    every 8
      (λ o. every 8 (λ q. every 256 (λ b. eqb (bit (bit_or b (2 ^ o)) q) (o == q || bit b q))))
    ≡ true
unfolding every eqb bit
bit-or_table = refl

bit-and_table :
    every 8 (λ o.
      every 8
        (λ q. every 256 (λ b. eqb (bit (bit_and b (255 - 2 ^ o)) q) (not (o == q) && bit b q))))
    ≡ true
unfolding every eqb bit
bit-and_table = refl

test_table :
    every 8 (λ o. every 8 (λ q. every 256 (λ b.
      eqb (bit_and b (2 ^ o) == 0) (not (bit b o))
      && ltb (bit_or b (2 ^ o)) 256
      && ltb (bit_and b (255 - 2 ^ o)) 256)))
    ≡ true
unfolding every eqb bit
test_table = refl

full_table : every 8 (λ o. bit 255 o) ≡ true
unfolding every bit
full_table = refl

zero_table : every 8 (λ o. not (bit 0 o)) ≡ true
unfolding every bit
zero_table = refl

-- Setting bit `o` sets that bit alone.
pub bit-or : (b o q : ℕ) → b < 256 → o < 8 → q < 8 → bit (bit_or b (mask o)) q ≡ (o == q || bit b q)
bit-or b o q hb ho hq = eqb→eq _ _ (every3 _ bit-or_table b o q hb ho hq)

-- Clearing bit `o` clears that bit alone.
pub bit-and :
    (b o q : ℕ)
    → b < 256
    → o < 8
    → q < 8
    → bit (bit_and b (word_allbits - mask o)) q ≡ (not (o == q) && bit b q)
bit-and b o q hb ho hq = eqb→eq _ _ (every3 _ bit-and_table b o q hb ho hq)

-- The test of a bit, and that the results are bytes.
pub bit_test :
    (b o : ℕ)
    → b < 256
    → o < 8
    → ((bit_and b (mask o) == 0) ≡ not (bit b o))
      × (bit_or b (mask o) < 256)
      × (bit_and b (word_allbits - mask o) < 256)
unfolding eqb
bit_test b o hb ho = ground (arith, every3 _ test_table b o 0 hb ho (omega arith))

pub bit_full : (o : ℕ) → o < 8 → bit word_allbits o ≡ true
bit_full o ho = every_at 8 (λ o. bit 255 o) o full_table ho

pub bit_zero : (o : ℕ) → o < 8 → bit 0 o ≡ false
bit_zero o ho = ground (arith, every_at 8 (λ o. not (bit 0 o)) o zero_table ho)

-- A byte whose eight bits are set is the full one.
all_set : ℕ → Bool
unfolding every bit
all_set b = every 8 (bit b)

all_set_table : every 256 (λ b. b == 255 || not (all_set b)) ≡ true
unfolding every all_set
all_set_table = refl

every_of : (n : ℕ) (p : ℕ → Bool) → ((x : ℕ) → x < n → p x ≡ true) → every n p ≡ true
unfolding every
every_of zero p h = refl
every_of (suc n) p h = ground (arith, h n (omega arith), every_of n p (λ x lt. h x (omega arith)))

pub full_of_bits : (b : ℕ) → b < 256 → ((o : ℕ) → o < 8 → bit b o ≡ true) → b ≡ word_allbits
unfolding all_set
full_of_bits b hb h =
    let here = every_at 256 (λ b. b == 255 || not (all_set b)) b all_set_table hb in
    ground (arith, here, all h)
  where
    all : ((o : ℕ) → o < 8 → bit b o ≡ true) → all_set b ≡ true
    all h = every_of 8 (bit b) h
