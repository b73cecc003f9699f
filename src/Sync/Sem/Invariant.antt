-- ===== src/Sync/Sem/Invariant.antt =====
-- What every step of P and V keeps.
use cse.Base.{
  ℕ, ◌+◌, ◌^◌, ◌≤◌, ◌<◌, ◌≡◌, ◌≢◌, refl, sym, Bool, true, false, Option, none, some, [], ◌∷◌, arith,
  update, total, total-update, ltb, ◌==◌,
}
use cse.Sync.Wchan.{
  Ensures, Ensures-test, Ensures-next, Wchan, wchan_wakeone, make_runnable, queued, Distinct,
  queued-nil, queued-cons, queued-append, append-Distinct,
}
use cse.Sync.Sem.{
  Sem, Pc, idle, want_p, testing, sleeping, waking, want_v, adding, sem_create, grab, p_section,
  v_section, act, Step, pick, Reach, start, later,
}

-- The thread has the spinlock.
abbrev pub spins : Pc → Bool
spins testing = true
spins adding = true
spins _ = false

abbrev pub asleep : Pc → Bool
asleep sleeping = true
asleep _ = false

-- The thread is awake in the loop of P, and will test the count.
abbrev pub awake : Pc → ℕ
awake testing = 1
awake waking = 1
awake _ = 0

pub record Inv (n initial_count : ℕ) (s : Sem) : Type 0 where
  pub inside : (i : ℕ) → n ≤ i → s.pc i ≡ idle
  pub spun : (i : ℕ) → spins (s.pc i) ≡ true → s.sem_lock ≡ some i
  pub slept : (i : ℕ) → asleep (s.pc i) ≡ queued i s.sem_wchan
  pub distinct : Distinct s.sem_wchan
  pub woken : s.sem_wchan ≢ [] → s.sem_count ≤ total awake n s.pc
  pub counted : s.sem_count + s.taken ≡ initial_count + s.given

module _ {n k : ℕ} {s : Sem} (inv : Inv n k s) (i : ℕ) (lt : i < n) where
  -- With the spinlock free no thread spins.
  grab-Inv :
      (p : Pc) (l : Option ℕ)
      → s.sem_lock ≡ l
      → asleep (s.pc i) ≡ false
      → asleep p ≡ false
      → awake (s.pc i) ≤ awake p
      → Ensures (Inv n k) (grab l s i p)
  unfolding grab
  grab-Inv p none free up stays more = record {
    inside = λ j h. ground (arith, inv.inside j);
    spun = λ j h. ground (arith, inv.spun j);
    slept = λ j. ground (arith, inv.slept j);
    distinct = inv.distinct;
    woken = λ h. omega (arith, inv.woken h, total-update awake n s.pc i p lt);
    counted = inv.counted;
  }
  grab-Inv p (some j) held up stays more = tt

  module _ (held : s.sem_lock ≡ some i) where
    p_section-Inv : s.pc i ≡ testing → Ensures (Inv n k) (p_section s i)
    unfolding p_section
    p_section-Inv at =
        Ensures-test (Inv n k) (s.sem_count == 0) _ _
          (λ empty. record {
            inside = λ j h. ground (arith, inv.inside j);
            spun = λ j h. ground (arith, inv.spun j);
            slept = λ j. ground (arith, inv.slept j, queued-append j i s.sem_wchan);
            distinct = append-Distinct i s.sem_wchan (ground (arith, inv.slept i)) inv.distinct;
            woken = λ h. ground arith;
            counted = inv.counted;
          })
          (λ some_left. record {
            inside = λ j h. ground (arith, inv.inside j);
            spun = λ j h. ground (arith, inv.spun j);
            slept = λ j. ground (arith, inv.slept j);
            distinct = inv.distinct;
            woken = λ h. ground (arith, inv.woken h, total-update awake n s.pc i idle lt);
            counted = ground (arith, inv.counted);
          })

    -- V on a channel with the thread `j` at its head.
    v_wakes :
        (j : ℕ) (q : Wchan)
        → s.pc i ≡ adding
        → s.sem_wchan ≡ j ∷ q
        → Inv n k (record s {
          sem_count = s.sem_count + 1;
          sem_lock = none;
          sem_wchan = q;
          pc = update (update s.pc i idle) j waking;
          given = s.given + 1;
        })
    v_wakes j q at e =
        let down : asleep (s.pc j) ≡ true = ground (arith, inv.slept j, queued-cons j j q) in
        let there : j < n = ground (arith, inv.inside j) in
        let apart : i ≢ j = ground arith in
        let d : Distinct (j ∷ q) = rw e at inv.distinct in
        record {
          inside = λ m h. ground (arith, inv.inside m);
          spun = λ m h. ground (arith, inv.spun m);
          slept = λ m. ground (arith, inv.slept m, queued-cons m j q, d.0);
          distinct = d.1;
          woken = λ h. ground (
            arith,
            inv.woken (λ z. cc),
            total-update awake n s.pc i idle lt,
            total-update awake n (update s.pc i idle) j waking there,
          );
          counted = omega (arith, inv.counted);
        }

    -- V on any channel `q`.
    v_wakeone :
        (q : Wchan)
        → s.pc i ≡ adding
        → s.sem_wchan ≡ q
        → Inv n k (record s {
          sem_count = s.sem_count + 1;
          sem_lock = none;
          sem_wchan = (wchan_wakeone q).1;
          pc = make_runnable waking (wchan_wakeone q).0 (update s.pc i idle);
          given = s.given + 1;
        })
    unfolding wchan_wakeone
    v_wakeone [] at e = record {
      inside = λ m h. ground (arith, inv.inside m);
      spun = λ m h. ground (arith, inv.spun m);
      slept = λ m. ground (arith, inv.slept m, queued-nil m);
      distinct = tt;
      woken = λ h. absurd (h refl);
      counted = omega (arith, inv.counted);
    }
    v_wakeone (j ∷ q) at e = v_wakes j q at e

    v_section-Inv : s.pc i ≡ adding → Ensures (Inv n k) (v_section s i)
    unfolding v_section
    v_section-Inv at =
        Ensures-test (Inv n k) (ltb (s.sem_count + 1) (2 ^ 32)) _ _
          (λ fits. v_wakeone s.sem_wchan at refl) (λ wrapped. tt)

  -- A call of P or V from outside.
  call-Inv :
      (p : Pc)
      → s.pc i ≡ idle
      → spins p ≡ false
      → asleep p ≡ false
      → Inv n k (record s { pc = update s.pc i p })
  call-Inv p at still up = record {
    inside = λ j h. ground (arith, inv.inside j);
    spun = λ j h. ground (arith, inv.spun j);
    slept = λ j. ground (arith, inv.slept j);
    distinct = inv.distinct;
    woken = λ h. ground (arith, inv.woken h, total-update awake n s.pc i p lt);
    counted = inv.counted;
  }

  act-Inv : (p : Pc) (call : Bool) → s.pc i ≡ p → Ensures (Inv n k) (act call s i p)
  unfolding act
  act-Inv idle true at = call-Inv want_p at refl refl
  act-Inv idle false at = call-Inv want_v at refl refl
  act-Inv want_p call at = grab-Inv testing s.sem_lock refl (ground arith) refl (ground arith)
  act-Inv testing call at = p_section-Inv (inv.spun i (ground arith)) at
  act-Inv sleeping call at = tt
  act-Inv waking call at = grab-Inv testing s.sem_lock refl (ground arith) refl (ground arith)
  act-Inv want_v call at = grab-Inv adding s.sem_lock refl (ground arith) refl (ground arith)
  act-Inv adding call at = v_section-Inv (inv.spun i (ground arith)) at

Inv-create : (n k : ℕ) → Inv n k (sem_create k)
Inv-create n k = record {
  inside = λ i h. refl;
  spun = λ i h. cc;
  slept = λ i. sym (queued-nil i);
  distinct = tt;
  woken = λ h. absurd (h refl);
  counted = refl;
}

-- Every step of a thread keeps the invariant.
pub Step-Inv : {n k : ℕ} {s t : Sem} → Step n s t → Inv n k s → Inv n k t
Step-Inv {n} {k} {s} {t} (pick i call lt e) inv =
    Ensures-next (Inv n k) (act call s i (s.pc i)) t (act-Inv inv i lt (s.pc i) call refl) e

pub Reach-Inv : {n k : ℕ} {s : Sem} → Reach n k s → Inv n k s
Reach-Inv {n} {k} start = Inv-create n k
Reach-Inv (later r st) = Step-Inv st (Reach-Inv r)
