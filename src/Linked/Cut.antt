-- ===== src/Linked/Cut.antt =====
-- What the loop of list_remove does behind a node.
use cse.Base.{
  ℕ, zero, suc, ◌+◌, ◌-◌, ◌<◌, ◌≤◌, ◌%◌, ◌^◌, ◌≡◌, ◌≢◌, refl, ap, ◌∙◌, Bool, true, false, Option,
  none, some, List, [], ◌∷◌, length, arith, update, if◌then◌else◌, done, Ends, ℤ, is_zero_ℤ,
}
use cse.Linked.{LinkedList, Store, set_next, kfree}
use cse.Linked.Chain.{node_of, Away, Chain, last_of, Chain-update}
use cse.Linked.Tail.{deref_lem, Away-last, last-Some}
use cse.Linked.Find.{first_match}
use cse.Linked.Remove.{is_pointer, bypass, unlink, remove_loop}

module _ {ℓ} {A : Type ℓ} (query_val : A) (comparator : A → A → ℤ) where
  -- The chain without its first match.
  abbrev pub drop_match : List (ℕ × A) → List (ℕ × A)
  drop_match [] = []
  drop_match ((a, x) ∷ c) = if is_zero_ℤ (comparator x query_val) then c else (a, x) ∷ drop_match c

  Away-drop : (a : ℕ) (c : List (ℕ × A)) → Away a c → Away a (drop_match c)
  Away-drop a [] h = tt
  Away-drop a ((b, x) ∷ c) (ne, h) = go (is_zero_ℤ (comparator x query_val)) (Away-drop a c h)
    where
      go : (t : Bool) → Away a (drop_match c) → Away a (if t then c else (b, x) ∷ drop_match c)
      go true ih = h
      go false ih = (ne, ih)

  drop_shorter : (c : List (ℕ × A)) → length (drop_match c) ≤ length c
  drop_shorter [] = omega arith
  drop_shorter ((b, x) ∷ c) = go (is_zero_ℤ (comparator x query_val)) (drop_shorter c)
    where
      go :
          (t : Bool)
          → length (drop_match c) ≤ length c
          → length (if t then c else (b, x) ∷ drop_match c) ≤ suc (length c)
      go true ih = omega arith
      go false ih = omega (arith, ih)

  -- The tail that the removal of the node at `a` sets.
  pub cut_tail :
      (t q : Option ℕ) (a : ℕ) (x : A) (c : List (ℕ × A))
      → Away a c
      → t ≡ last_of ((a, x) ∷ c)
      → (if is_pointer t a then q else t) ≡ elim c [ [] ↦ q | d ∷ c' ↦ last_of (d ∷ c') ]
  cut_tail t q a x [] away e = rw e (ground arith)
  cut_tail t q a x (d ∷ c) away e =
      let (l, el) = last-Some d c in
      let ne : a ≢ l = Away-last a l (d ∷ c) away el in rw (e, el) (ground arith)

  -- What the loop does with the chain `c` behind the node at `b`: it finds `found` and leaves `d`.
  pub record Cut (m : Store A) (lst : LinkedList) (b : ℕ) (y : A) (c : List (ℕ × A))
      (found : Option A) (d : List (ℕ × A)) (r : Option A × Store A × LinkedList) : Type ℓ where
    pub res : r.0 ≡ found
    pub chain : Chain (r.1) (some b) ((b, y) ∷ d)
    pub frame : (a : ℕ) → Away a ((b, y) ∷ c) → (r.1) a ≡ m a
    pub live : (r.2).datatype ≡ lst.datatype
    pub head : (r.2).head ≡ lst.head
    pub tail : (r.2).tail ≡ last_of ((b, y) ∷ d)
    pub size : (r.2).size + length c ≡ lst.size + length d

  bypass_lem :
      (m : Store A) (lst : LinkedList) (b : ℕ) (y : A) (n p : Option ℕ)
      → m b ≡ some (node_of y n)
      → bypass m lst (some b) p ≡ done (update m b (some (node_of y p)), lst)
  unfolding bypass set_next
  bypass_lem m lst b y n p e = rw (deref_lem m b (node_of y n) e) refl

  -- The size after a removal.
  pub wrapped : (n : ℕ) → 0 < n → n < 2 ^ 32 → (n + (2 ^ 32 - 1)) % 2 ^ 32 ≡ n - 1
  wrapped n p h = omega arith

  unlink_lem :
      (m : Store A) (lst : LinkedList) (b : ℕ) (y : A) (a : ℕ) (x : A) (n k : Option ℕ)
      → m b ≡ some (node_of y n)
      → unlink m lst (some b) a (node_of x k)
        ≡ done (
          some x,
          update (update m b (some (node_of y k))) a none,
          record lst {
            tail = if is_pointer lst.tail a then some b else lst.tail;
            size = (lst.size + (2 ^ 32 - 1)) % 2 ^ 32;
          },
        )
  unfolding unlink kfree
  unlink_lem m lst b y a x n k eb = rw (bypass_lem m lst b y n k eb) refl

  unlink-Cut :
      (m : Store A) (lst : LinkedList) (b : ℕ) (y : A) (a : ℕ) (x : A) (c : List (ℕ × A))
      (n k : Option ℕ)
      → Away b ((a, x) ∷ c)
      → m b ≡ some (node_of y n)
      → Away a c
      → Chain m k c
      → lst.tail ≡ last_of ((b, y) ∷ (a, x) ∷ c)
      → 0 < lst.size
      → lst.size < 2 ^ 32
      → Ends (Cut m lst b y ((a, x) ∷ c) (some x) c) (unlink m lst (some b) a (node_of x k))
  unlink-Cut m lst b y a x c n k (ne, away) eb apart rest et least most = (
    _,
    unlink_lem m lst b y a x n k eb,
    record {
      res = refl;
      chain = (
        refl,
        away,
        (k, ground arith, Chain-update _ a none k c apart (Chain-update m b _ k c away rest)),
      );
      frame = λ l (nb, (na, _)). ground arith;
      live = refl;
      head = refl;
      tail = cut_tail lst.tail (some b) a x c apart et ∙ last_behind c;
      size = omega (arith, wrapped lst.size least most);
    },
  )
    where
      last_behind :
          (c : List (ℕ × A))
          → elim c [ [] ↦ some b | d ∷ c' ↦ last_of (d ∷ c') ] ≡ last_of ((b, y) ∷ c)
      last_behind [] = refl
      last_behind (d ∷ c) = refl

  pub remove_loop-Cut :
      (fuel : ℕ) (m : Store A) (lst : LinkedList) (b : ℕ) (y : A) (c : List (ℕ × A)) (n : Option ℕ)
      → Away b c
      → m b ≡ some (node_of y n)
      → Chain m n c
      → lst.tail ≡ last_of ((b, y) ∷ c)
      → length c ≤ lst.size
      → lst.size < 2 ^ 32
      → length c < fuel
      → Ends
          (Cut m lst b y c (first_match query_val comparator c) (drop_match c))
          (remove_loop fuel m lst (some b) n query_val comparator)
  unfolding remove_loop
  remove_loop-Cut zero m lst b y c n away eb h et least most room = absurd (omega arith)
  remove_loop-Cut (suc fuel) m lst b y [] n away eb (e, _) et least most room = (
    (none, m, lst),
    ap (λ o. remove_loop (suc fuel) m lst (some b) o query_val comparator) e,
    record {
      res = refl;
      chain = (refl, tt, (n, eb, (e, tt)));
      frame = λ a h. refl;
      live = refl;
      head = refl;
      tail = et;
      size = refl;
    },
  )
  remove_loop-Cut (suc fuel) m lst b y ((a, x) ∷ c) n (ne, away) eb (e, apart, (k, ek, rest)) et
        least most room =
      let (r, eq, cut) =
        go (is_zero_ℤ (comparator x query_val))
          (remove_loop-Cut fuel m lst a x c k apart ek rest et (omega arith) most (omega arith)) in
      (
        r,
        ap (λ o. remove_loop (suc fuel) m lst (some b) o query_val comparator) e
            ∙ rw (deref_lem m a (node_of x k) ek) eq,
        cut,
      )
    where
      -- The loop goes on at the node at `a`.
      further :
          (r : Option A × Store A × LinkedList)
          → Cut m lst a x c (first_match query_val comparator c) (drop_match c) r
          → Cut m lst b y
              ((a, x) ∷ c)
              (first_match query_val comparator c)
              ((a, x) ∷ drop_match c)
              r
      further r cut = record {
        res = cut.res;
        chain = (
          refl,
          (ne, Away-drop b c away),
          (some a, cut.frame b (ne, away) ∙ eb ∙ ap (λ p. some (node_of y p)) e, cut.chain),
        );
        frame = λ l (nb, h). cut.frame l h;
        live = cut.live;
        head = cut.head;
        tail = cut.tail;
        size = omega (arith, cut.size);
      }

      go :
          (t : Bool)
          → Ends
              (Cut m lst a x c (first_match query_val comparator c) (drop_match c))
              (remove_loop fuel m lst (some a) k query_val comparator)
          → Ends
              (Cut m lst b y
                ((a, x) ∷ c)
                (if t then some x else first_match query_val comparator c)
                (if t then c else (a, x) ∷ drop_match c))
              (if t
                then unlink m lst (some b) a (node_of x k)
                else remove_loop fuel m lst (some a) k query_val comparator)
      go true ih = unlink-Cut m lst b y a x c n k (ne, away) eb apart rest et (omega arith) most
      go false (r, eq, cut) = (r, eq, further r cut)
