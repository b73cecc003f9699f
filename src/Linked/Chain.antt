-- ===== src/Linked/Chain.antt =====
-- The sequence that a list in memory stands for.
use cse.Base.{ℕ, ◌≡◌, ◌≢◌, Option, none, some, List, [], ◌∷◌, ◌++◌, length, arith, update}
use cse.Linked.{Listnode, LinkedList, Store, listnode_type, list_type}

module _ {ℓ} {A : Type ℓ} where
  abbrev pub node_of : A → Option ℕ → Listnode A
  node_of x n = record { datatype = listnode_type; val = x; next = n }

  -- No node of the chain is at the address.
  abbrev pub Away : ℕ → List (ℕ × A) → Type 0
  Away a [] = Unit
  Away a ((b, y) ∷ c) = (a ≢ b) × Away a c

  -- The nodes that the pointers lead to from `p`, with their values, up to NULL.
  abbrev pub Chain : Store A → Option ℕ → List (ℕ × A) → Type ℓ
  Chain m p [] = (p ≡ none) × Unit {ℓ}
  Chain m p ((a, x) ∷ c) =
      (p ≡ some a) × Away a c × ((n : Option ℕ) × (m a ≡ some (node_of x n)) × Chain m n c)

  abbrev pub last_of : List (ℕ × A) → Option ℕ
  last_of [] = none
  last_of ((a, x) ∷ []) = some a
  last_of ((a, x) ∷ (b ∷ c)) = last_of (b ∷ c)

  -- A write elsewhere keeps the chain.
  pub Chain-update :
      (m : Store A) (a : ℕ) (o : Option (Listnode A)) (p : Option ℕ) (c : List (ℕ × A))
      → Away a c
      → Chain m p c
      → Chain (update m a o) p c
  Chain-update m a o p [] away h = h
  Chain-update m a o p ((b, y) ∷ c) (ne, away) (e, apart, (n, en, rest)) =
      (e, apart, (n, ground (arith, en), Chain-update m a o n c away rest))

  -- Memory that is not allocated is no node's.
  pub Away-free :
      (m : Store A) (a : ℕ) (p : Option ℕ) (c : List (ℕ × A)) → m a ≡ none → Chain m p c → Away a c
  Away-free m a p [] free h = tt
  Away-free m a p ((b, y) ∷ c) free (e, apart, (n, en, rest)) =
      ((λ same. ground (arith, rw same at free)), Away-free m a n c free rest)

  pub Away-append :
      (a b : ℕ) (y : A) (c : List (ℕ × A)) → Away a c → a ≢ b → Away a (c ++ ((b, y) ∷ []))
  Away-append a b y [] away ne = (ne, tt)
  Away-append a b y ((d, z) ∷ c) (other, away) ne = (other, Away-append a b y c away ne)

  -- The list in memory that stands for the values of the chain.
  pub record IsLinked (m : Store A) (lst : LinkedList) (c : List (ℕ × A)) : Type ℓ where
    pub live : lst.datatype ≡ list_type
    pub chain : Chain m lst.head c
    pub last : lst.tail ≡ last_of c
    pub count : lst.size ≡ length c
