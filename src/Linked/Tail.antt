-- ===== src/Linked/Tail.antt =====
-- A node behind the last one of a chain: link, link_behind and push_node.
use cse.Base.{
  ℕ, suc, ◌+◌, ◌<◌, ◌%◌, ◌^◌, ◌≡◌, ◌≢◌, refl, sym, ap, ◌∙◌, Option, none, some, List, [], ◌∷◌, ◌++◌,
  length, length-append, arith, update, ◌==◌, ==_ne, if◌then◌else◌, success, Run, done, kassert,
  ◌>>=◌, ◌>>◌, Ends,
}
use cse.Linked.{
  Listnode, LinkedList, Store, listnode_type, list_type, deref, set_next, link, link_behind,
  push_node, kassert_list,
}
use cse.Linked.Chain.{node_of, Away, Chain, last_of, Away-append, IsLinked}

pub test-zero {κ} : {B : Type κ} (x y : B) (n : ℕ) → n ≡ 0 → (if n == 0 then x else y) ≡ x
test-zero x y n e = ap (λ n. if n == 0 then x else y) e

pub test-suc {κ} : {B : Type κ} (x y : B) (n k : ℕ) → n ≡ suc k → (if n == 0 then x else y) ≡ y
test-suc x y n k e = ap (λ b. if b then x else y) (==_ne n 0 (omega arith))

module _ {ℓ} {A : Type ℓ} where
  pub Away-last : (a t : ℕ) (c : List (ℕ × A)) → Away a c → last_of c ≡ some t → a ≢ t
  Away-last a t [] away e = absurd cc
  Away-last a t ((b, x) ∷ []) (ne, _) e = λ same. ne (ground arith)
  Away-last a t ((b, x) ∷ (d ∷ c)) (ne, away) e = Away-last a t (d ∷ c) away e

  -- The node at the end of the chain gets a successor.
  Chain-append :
      (m : Store A) (p : Option ℕ) (c : List (ℕ × A)) (t b : ℕ) (y : A)
      → Chain m p c
      → last_of c ≡ some t
      → m b ≡ some (node_of y none)
      → Away b c
      → (x : A) × (m t ≡ some (node_of x none))
        × Chain (update m t (some (node_of x (some b)))) p (c ++ ((b, y) ∷ []))
  Chain-append m p [] t b y h e eb away = absurd cc
  Chain-append m p ((a, x) ∷ []) t b y (ep, apart, (n, en, (e, _))) el eb (ne, _) =
      let same : a ≡ t = ground arith in
      (
        x,
        ground (arith, en, e),
        (
          ep,
          ((λ eq. ne (sym eq)), tt),
          (some b, ground (arith, same), (refl, tt, (none, ground (arith, same), (refl, tt)))),
        ),
      )
  Chain-append m p ((a, x) ∷ (d ∷ c)) t b y (ep, apart, (n, en, rest)) el eb (ne, away) =
      let (z, ez, chain) = Chain-append m n (d ∷ c) t b y rest el eb away in
      let other : a ≢ t = Away-last a t (d ∷ c) apart el in
      (
        z,
        ez,
        (ep, Away-append a b y (d ∷ c) apart (λ eq. ne (sym eq)), (n, ground (arith, en), chain)),
      )

  last-append : (c : List (ℕ × A)) (b : ℕ) (y : A) → last_of (c ++ ((b, y) ∷ [])) ≡ some b
  last-append [] b y = refl
  last-append ((a, x) ∷ []) b y = refl
  last-append ((a, x) ∷ (d ∷ c)) b y = last-append (d ∷ c) b y

  pub last-Some : (d : ℕ × A) (c : List (ℕ × A)) → (t : ℕ) × (last_of (d ∷ c) ≡ some t)
  last-Some (a, x) [] = (a, refl)
  last-Some d (e ∷ c) = last-Some e c

  -- The list's own KASSERT passes.
  pub Ends-live {κ κ'} :
      {B : Type κ} (m : Store A) (lst : LinkedList) (c : List (ℕ × A))
      → IsLinked m lst c
      → (Q : B → Type κ') (k : Run B) → Ends Q k
      → Ends Q (kassert_list lst >> k)
  Ends-live m lst c v Q k (a, e, q) = (a, ap (λ d. kassert (d == list_type) >> k) v.live ∙ e, q)

  pub deref_lem : (m : Store A) (p : ℕ) (n : Listnode A) → m p ≡ some n → deref m (some p) ≡ done n
  unfolding deref
  deref_lem m p n e = rw (deref, e) refl

  link_empty :
      (m : Store A) (lst : LinkedList) (p : Option ℕ)
      → lst.size ≡ 0
      → link m lst p ≡ done (m, record lst { head = p })
  unfolding link
  link_empty m lst p e = test-zero _ _ lst.size e

  behind_lem :
      (m : Store A) (lst : LinkedList) (t : ℕ) (p : Option ℕ) (x : A)
      → lst.tail ≡ some t
      → m t ≡ some (node_of x none)
      → link_behind m lst p ≡ done (update m t (some (node_of x p)), lst)
  unfolding link_behind set_next deref
  behind_lem m lst t p x et ex =
      ap (λ o. deref m o >>= λ n. kassert (n.datatype == listnode_type) >> after (set_next m o p))
        et
      ∙ rw (deref_lem m t (node_of x none) ex) refl
    where
      after : Run (Store A) → Run (Store A × LinkedList)
      after r = r >>= λ m'. done (m', lst)

  link_tail :
      (m : Store A) (lst : LinkedList) (k t : ℕ) (p : Option ℕ) (x : A)
      → lst.size ≡ suc k
      → lst.tail ≡ some t
      → m t ≡ some (node_of x none)
      → link m lst p ≡ done (update m t (some (node_of x p)), lst)
  unfolding link
  link_tail m lst k t p x es et ex = test-suc _ _ lst.size k es ∙ behind_lem m lst t p x et ex

  push_node_lem :
      (m m' : Store A) (lst lst' : LinkedList) (b : ℕ) (y : A)
      → m b ≡ some (node_of y none)
      → link m lst (some b) ≡ done (m', lst')
      → push_node (some b, m) lst
        ≡ done (success, m', record lst' { tail = some b; size = (lst'.size + 1) % 2 ^ 32 })
  unfolding push_node
  push_node_lem m m' lst lst' b y mine linked =
      rw (deref_lem m b (node_of y none) mine, linked) refl

  -- push_node on a list in memory puts the new node behind the others.
  pub push_node-Linked :
      (m m' : Store A) (lst : LinkedList) (c : List (ℕ × A)) (b : ℕ) (y : A)
      → IsLinked m lst c
      → length c + 1 < 2 ^ 32
      → m' b ≡ some (node_of y none)
      → Away b c
      → Chain m' lst.head c
      → Ends
          (λ r. (r.0 ≡ success) × IsLinked (r.1) (r.2) (c ++ ((b, y) ∷ [])))
          (push_node (some b, m') lst)
  push_node-Linked m m' lst [] b y v room mine away chain = (
    _,
    push_node_lem m' m' lst _ b y mine (link_empty m' lst (some b) v.count),
    (
      refl,
      record {
        live = v.live;
        chain = (refl, tt, (none, mine, (refl, tt)));
        last = refl;
        count = omega (arith, v.count);
      },
    ),
  )
  push_node-Linked m m' lst (d ∷ c) b y v room mine away chain =
      let (t, et) = last-Some d c in
      let (x, ex, longer) = Chain-append m' lst.head (d ∷ c) t b y chain et mine away in
      (
        _,
        push_node_lem m' _ lst lst b y mine
            (link_tail m' lst (length c) t (some b) x v.count (v.last ∙ et) ex),
        (
          refl,
          record {
            live = v.live;
            chain = longer;
            last = sym (last-append (d ∷ c) b y);
            count = omega (arith, v.count, length-append (d ∷ c) ((b, y) ∷ []));
          },
        ),
      )
