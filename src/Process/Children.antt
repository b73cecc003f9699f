-- ===== src/Process/Children.antt =====
-- Lists of children without repetition, and proc_remlist on them.
use cse.Base.{
  ℕ, ◌≡◌, true, false, not, ◌&&◌, ◌||◌, List, [], ◌∷◌, ◌++◌, ◌==◌, arith, Bool-cases, inl, inr,
}
use cse.Sync.Wchan.{queued, Distinct, queued-nil, queued-cons, queued-append, append-Distinct}
use cse.Process.{rotate, proc_remlist}

queued-join : (d : ℕ) (xs ys : List ℕ) → queued d (xs ++ ys) ≡ (queued d xs || queued d ys)
queued-join d [] ys = ground (arith, queued-nil d)
queued-join d (x ∷ xs) ys =
    ground (arith, queued-join d xs ys, queued-cons d x xs, queued-cons d x (xs ++ ys))

join-Distinct :
    (xs ys : List ℕ)
    → Distinct xs
    → Distinct ys
    → ((d : ℕ) → queued d xs ≡ true → queued d ys ≡ false)
    → Distinct (xs ++ ys)
join-Distinct [] ys dx dy apart = dy
join-Distinct (x ∷ xs) ys dx dy apart = (
  ground (arith, dx.0, queued-join x xs ys, apart x, queued-cons x x xs),
  join-Distinct xs ys dx.1 dy (λ d h. apart d (ground (arith, queued-cons d x xs))),
)

-- `after` is the list `cs` without `val`.
pub record Taken (cs : List ℕ) (val : ℕ) (after : List ℕ) : Type 0 where
  pub distinct : Distinct after
  pub reads : (d : ℕ) → queued d after ≡ (queued d cs && not (val == d))

rotate-Taken :
    (first val : ℕ) (seen rest : List ℕ)
    → queued first seen ≡ true
    → queued val seen ≡ false
    → Distinct seen
    → Distinct rest
    → ((d : ℕ) → queued d rest ≡ true → queued d seen ≡ false)
    → Taken (seen ++ rest) val (rotate first val seen rest)
unfolding rotate
rotate-Taken first val seen [] front out ds dr apart = record {
  distinct = ds;
  reads = λ d. ground (arith, queued-join d seen [], queued-nil d);
}
rotate-Taken first val seen (cur ∷ rest) front out ds dr apart =
    let other : (cur == first) ≡ false = ground (arith, apart cur, queued-cons cur cur rest) in
    rw other (elim (Bool-cases (cur == val)) [
      | inl e ↦ rw e record {
        distinct =
            join-Distinct rest seen dr.1 ds
              (λ d h. apart d (ground (arith, queued-cons d cur rest)));
        reads = λ d. ground (
          arith,
          queued-join d rest seen,
          queued-join d seen (cur ∷ rest),
          queued-cons d cur rest,
          dr.0,
        );
      }
      | inr e ↦
          let t =
            rotate-Taken first val (seen ++ cur ∷ []) rest
              (ground (arith, queued-append first cur seen))
              (ground (arith, queued-append val cur seen))
              (append-Distinct cur seen (apart cur (ground (arith, queued-cons cur cur rest))) ds)
              dr.1
              (λ d h.
                ground (arith, queued-append d cur seen, apart d, queued-cons d cur rest, dr.0)) in
          rw e record {
            distinct = t.distinct;
            reads = λ d. ground (
              arith,
              t.reads d,
              queued-join d (seen ++ cur ∷ []) rest,
              queued-append d cur seen,
              queued-join d seen (cur ∷ rest),
              queued-cons d cur rest,
            );
          }
    ])

-- proc_remlist takes a value of the list out, if none is in it twice.
pub proc_remlist-Taken :
    (cs : List ℕ) (val : ℕ)
    → Distinct cs
    → queued val cs ≡ true
    → Taken cs val (proc_remlist cs val)
unfolding proc_remlist
proc_remlist-Taken [] val dc there = absurd (ground (arith, queued-nil val))
proc_remlist-Taken (first ∷ []) val dc there = record {
  distinct = tt;
  reads = λ d.
      ground
        (arith, queued-cons d first [], queued-cons val first [], queued-nil d, queued-nil val);
}
proc_remlist-Taken (first ∷ second ∷ rest) val dc there = elim (Bool-cases (first == val)) [
  | inl e ↦ rw e record {
    distinct = dc.1;
    reads = λ d. ground (arith, queued-cons d first (second ∷ rest), dc.0);
  }
  | inr e ↦ rw e (
      rotate-Taken first val (first ∷ []) (second ∷ rest)
        (ground (arith, queued-cons first first []))
        (ground (arith, queued-cons val first [], queued-nil val)) (queued-nil first, tt) dc.1
        (λ d h. ground (arith, queued-cons d first [], queued-nil d, dc.0)))
]
