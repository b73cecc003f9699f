-- ===== src/Hashtable/Bytes.antt =====
-- int_to_byte_string_nomalloc of kern/lib/hashtable.c, for an int that is not negative: the key of a
-- file descriptor.
use cse.Base.{
  ℕ, zero, suc, ◌+◌, ◌*◌, ◌/◌, ◌%◌, ◌^◌, ◌<◌, ◌≤◌, ◌≡◌, ◌≢◌, List, [], ◌∷◌, length, All, arith,
  ◌==◌, if◌then◌else◌, Bool-cases, inl, inr,
}

-- The loop with a number of rounds left; the NUL behind it ends the list.
unfoldable pub digit_loop : ℕ → ℕ → List ℕ
digit_loop zero input = []
digit_loop (suc rounds) input =
    let rest = digit_loop rounds (input / 128) in
    (input % 128 * 2 + 1) ∷ (if input / 128 == 0 then [] else rest)

-- `digits` has sizeof(int) + 2 bytes.
unfoldable pub int_to_byte_string_nomalloc : ℕ → List ℕ
unfolding digit_loop
int_to_byte_string_nomalloc input = digit_loop 6 input

abbrev pub IsChar : ℕ → Type 0
IsChar c = (c ≢ 0) × (c < 256)

-- The number that the digits stand for.
abbrev pub decode : List ℕ → ℕ
decode [] = 0
decode (c ∷ cs) = c / 2 + 128 * decode cs

-- What fits in a number of digits.
abbrev span : ℕ → ℕ
span zero = 1
span (suc rounds) = 128 * span rounds

decode-digit_loop :
    (rounds input : ℕ) → input < span rounds → decode (digit_loop rounds input) ≡ input
unfolding digit_loop
decode-digit_loop zero input h = omega arith
decode-digit_loop (suc rounds) input h = elim (Bool-cases (input / 128 == 0)) [
  | inl last ↦ rw last (ground arith)
  | inr more ↦ rw more (omega (arith, decode-digit_loop rounds (input / 128) (omega arith)))
]

digit_loop-chars : (rounds input : ℕ) → All IsChar (digit_loop rounds input)
unfolding digit_loop
digit_loop-chars zero input = tt
digit_loop-chars (suc rounds) input = elim (Bool-cases (input / 128 == 0)) [
  | inl last ↦ rw last ((omega arith, omega arith), tt)
  | inr more ↦ rw more ((omega arith, omega arith), digit_loop-chars rounds (input / 128))
]

length-digit_loop :
    (fuel rounds input : ℕ)
    → input < span (suc rounds)
    → length (digit_loop fuel input) ≤ suc rounds
unfolding digit_loop
length-digit_loop zero rounds input h = omega arith
length-digit_loop (suc fuel) rounds input h = elim (Bool-cases (input / 128 == 0)) [
  | inl last ↦ rw last (omega arith)
  | inr more ↦ rw more (deeper rounds h (ground arith) (length-digit_loop fuel))
]
  where
    deeper :
        (rounds : ℕ)
        → input < span (suc rounds)
        → 0 < input / 128
        → ((rounds input : ℕ)
            → input < span (suc rounds)
            → length (digit_loop fuel input) ≤ suc rounds)
        → suc (length (digit_loop fuel (input / 128))) ≤ suc rounds
    deeper zero h big next = absurd (omega arith)
    deeper (suc rounds) h big next = omega (arith, next rounds (input / 128) (omega arith))

-- For an int that is not negative, the characters that int_to_byte_string_nomalloc writes stand for
-- the int again, none of them is NUL, and there are five at most, so that the NUL behind them fits.
pub int_to_byte_string-decode :
    (input : ℕ)
    → input < 2 ^ 31
    → (decode (int_to_byte_string_nomalloc input) ≡ input)
      × All IsChar (int_to_byte_string_nomalloc input)
      × (length (int_to_byte_string_nomalloc input) ≤ 5)
unfolding int_to_byte_string_nomalloc
int_to_byte_string-decode input h = (
  decode-digit_loop 6 input (omega arith),
  digit_loop-chars 6 input,
  length-digit_loop 6 4 input (omega arith),
)
