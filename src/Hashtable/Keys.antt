-- ===== src/Hashtable/Keys.antt =====
-- The keys of kern/lib/hashtable.c: C strings with a length.
use cse.Base.{
  ℕ, ◌+◌, ◌-◌, ◌*◌, ◌%◌, ◌^◌, ◌≡◌, refl, Bool, true, List, [], ◌∷◌, ◌++◌, take, arith, ltb, ◌==◌,
  if◌then◌else◌, ℤ, pos, negsuc, is_zero_ℤ, Bool-cases, inl, inr,
}

-- The characters of the string, without the NUL at its end, and the length that is passed with it.
abbrev pub Key : Type 0
Key = List ℕ × ℕ

-- A char is signed: the value that is added to an unsigned long.
abbrev char_value : ℕ → ℕ
char_value c = if ltb c 128 then c else c + (2 ^ 32 - 256)

hash_loop : List ℕ → ℕ → ℕ
hash_loop [] hashval = hashval
hash_loop (c ∷ cs) hashval = hash_loop cs ((hashval * 2 ^ 5 + hashval + char_value c) % 2 ^ 32)

-- The loop reads `keylen` characters, the NUL included if the string is that short.
unfoldable pub hash : Key → ℕ
unfolding hash_loop
hash (key, keylen) = hash_loop (take keylen (key ++ (0 ∷ []))) 5381

-- strcmp of common/libc/string/strcmp.c. No character of a string is 0.
unfoldable pub strcmp : List ℕ → List ℕ → ℤ
strcmp [] [] = pos 0
strcmp [] (b ∷ r) = negsuc 0
strcmp (a ∷ l) [] = pos 1
strcmp (a ∷ l) (b ∷ r) =
    let rest = strcmp l r in if a == b then rest else if ltb b a then pos 1 else negsuc 0

-- The difference of two lengths below 2 ^ 31 is that of the ints.
unfoldable pub key_comparator : Key → Key → ℤ
unfolding strcmp
key_comparator (l, m) (r, n) =
    if m == n then strcmp l r else if ltb n m then pos (m - n) else negsuc (n - m - 1)

-- The comparator answers 0 for an item with the key `l` and the query `r`.
unfoldable pub matches : Key → Key → Bool
matches r l = is_zero_ℤ (key_comparator l r)

strcmp_zero : (l r : List ℕ) → is_zero_ℤ (strcmp l r) ≡ true → l ≡ r
unfolding strcmp
strcmp_zero [] [] h = refl
strcmp_zero [] (b ∷ bs) h = cc
strcmp_zero (a ∷ l) [] h = cc
strcmp_zero (a ∷ l) (b ∷ r) h = ground (arith, strcmp_zero l r)

strcmp_self : (l : List ℕ) → is_zero_ℤ (strcmp l l) ≡ true
unfolding strcmp
strcmp_self [] = refl
strcmp_self (a ∷ l) = ground (arith, strcmp_self l)

pub matches_eq : (k l : Key) → matches k l ≡ true → l ≡ k
unfolding matches key_comparator
matches_eq (k, n) (l, m) h = elim (Bool-cases (m == n)) [
  | inl e ↦ ground (arith, strcmp_zero l k)
  | inr e ↦ absurd (ground arith)
]

pub matches_self : (k : Key) → matches k k ≡ true
unfolding matches key_comparator
matches_self (k, n) = ground (arith, strcmp_self k)
