-- ===== src/Hashtable/Tests.antt =====
-- Hash tables at concrete inputs: keys of one character, values that are numbers.
use cse.Base.{
  ℕ, ◌%◌, ◌≤◌, ◌≡◌, refl, Bool, true, false, some, [], ◌∷◌, All, length, update, arith, success,
  done, Ends, ℕ_discrete, total, first_of, Run, kassert, ◌==◌,
}
use cse.Hashtable.{Hashtable, hashtable_type, hashtable_add, hashtable_find, hashtable_remove}
use cse.Hashtable.Keys.{Key, hash, key_comparator, matches, matches_eq}
use cse.Hashtable.Item.{KvPair, is_item}
use cse.Hashtable.Valid.{IsValid, Put}
use cse.Hashtable.Add.{hashtable_add-Put}
use cse.Hashtable.Find.{scan, hashtable_find-scan}
use cse.Hashtable.Remove.{Removed, hashtable_remove-Removed}
use cse.Hashtable.Memory.{Lost, hashtable_add-Lost}
use cse.Hashtable.Bytes.{IsChar, decode, int_to_byte_string_nomalloc, int_to_byte_string-decode}

abbrev key_a : Key
key_a = (97 ∷ [], 1)

abbrev first : KvPair ℕ
first = record { key = key_a; val = 5 }

abbrev second : KvPair ℕ
second = record { key = key_a; val = 6 }

abbrev plenty : ℕ → Bool
plenty n = true

abbrev exhausted : ℕ → Bool
exhausted n = false

-- (5381 * 33 + 97) % 8 is 6.
hash_a : hash key_a % 8 ≡ 6
unfolding hash
hash_a = refl

abbrev one : Hashtable ℕ
one = record {
  datatype = hashtable_type;
  size = 1;
  arraysize = 8;
  vals = update (λ i. []) 6 (first ∷ []);
}

one-IsValid : IsValid one
unfolding total
one-IsValid = record {
  shaped = record {
    live = refl;
    wide = omega arith;
    distinct = λ i h. elim (ℕ_discrete 6 i) [ yes e ↦ ground arith | no e ↦ ground arith ];
    placed =
        λ i h. elim (ℕ_discrete 6 i) [ yes e ↦ ground (arith, hash_a, e) | no e ↦ ground arith ];
    count = refl;
  };
  small = omega arith;
  sparse = omega arith;
}

hashtable_add-Put_example :
    Ends
      (λ r. (r.0 ≡ success) × IsValid (r.2) × Put one second (r.2))
      (hashtable_add plenty 2 0 one second)
hashtable_add-Put_example =
    hashtable_add-Put plenty (λ n. refl) 0 0 one second one-IsValid (omega arith)

hashtable_find-scan_example : hashtable_find one key_a ≡ done (scan 8 one.vals key_a)
hashtable_find-scan_example = hashtable_find-scan one one-IsValid key_a

-- kfree on the keys of one character; it fails its KASSERT on others.
abbrev kfree_key : KvPair ℕ → Run (Unit {0})
kfree_key e = kassert (length e.key.0 == 1)

hashtable_remove-Removed_example :
    Ends (Removed one key_a) (hashtable_remove plenty kfree_key 2 0 one key_a)
hashtable_remove-Removed_example =
    hashtable_remove-Removed plenty (λ n. refl) kfree_key 0 0 one key_a
      (λ e same. rw (matches_eq key_a e.key same) refl) one-IsValid (omega arith)

one_read : first_of (is_item key_a) (one.vals (hash key_a % 8)) ≡ some first
unfolding hash matches key_comparator
one_read = refl

hashtable_add-Lost_example : Ends (Lost one key_a) (hashtable_add exhausted 1 0 one second)
hashtable_add-Lost_example =
    hashtable_add-Lost exhausted 0 0 one second first one-IsValid (omega arith) one_read refl

int_to_byte_string-decode_example :
    (decode (int_to_byte_string_nomalloc 1000) ≡ 1000)
    × All IsChar (int_to_byte_string_nomalloc 1000)
    × (length (int_to_byte_string_nomalloc 1000) ≤ 5)
int_to_byte_string-decode_example = int_to_byte_string-decode 1000 (omega arith)
