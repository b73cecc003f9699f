-- ===== src/Uio/Zeros.antt =====
-- uiomovezeros moves zeros in blocks of at most 16 bytes.
use cse.Base.{
  ◌||◌, sym, ℕ, zero, suc, ◌+◌, ◌-◌, ◌≤◌, ◌<◌, ◌≡◌, ◌⊎◌, inl, inr, refl, Bool, true, false, Option,
  ◌==◌, arith, Run, Ends, Ends-seq, Ends-test, Ends-weaken, kassert, ◌>>◌, ap, ◌∙◌,
}
use mathlib.Core.Path.{subst}
use cse.Copy.{Mem, Code, success, efault, enametoolong}
use cse.Uio.{
  uio_sysspace, uio_read, is_read, Uio, in_space, chunk, uiomove, zeros_moved, zeros_loop,
  uiomovezeros,
}
use cse.Uio.Cover.{
  Covers-none, Covers-then, Zeroed, ZerosAt, within, within-zero, within-full, moves-Zeroed,
}
use cse.Uio.Reference.{moves, room}
use cse.Uio.Progress.{IsValid}
use cse.Uio.Moved.{Moved, both}

Moved-then :
    (ptr k n l : ℕ) (u u' u'' : Uio) (mem mem' mem'' : Mem) (a b : ℕ)
    → Moved uio_read ptr k u mem u' mem' a
    → Moved uio_read ptr l u' mem' u'' mem'' b
    → Moved uio_read ptr n u mem u'' mem'' (a + b)
Moved-then ptr k n l u u' u'' mem mem' mem'' a b f g = record {
  resid = omega (arith, f.resid, g.resid);
  offset = omega (arith, f.offset, g.offset);
  segflg = g.segflg ∙ f.segflg;
  rw_flag = g.rw_flag ∙ f.rw_flag;
  space = g.space ∙ f.space;
  valid = g.valid;
  covers = Covers-then u.iov u'.iov u''.iov a b f.covers g.covers;
  spares = λ i out. g.spares i (f.onward refl i out) ∙ f.spares i out;
  onward = λ d i out. g.onward refl i (f.onward refl i out);
}

-- For UIO_READ the number of bytes asked for does not matter.
Moved-any :
    (ptr k n : ℕ) (u u' : Uio) (mem mem' : Mem) (a : ℕ)
    → Moved uio_read ptr k u mem u' mem' a
    → Moved uio_read ptr n u mem u' mem' a
Moved-any ptr k n u u' mem mem' a f = record {
  resid = f.resid;
  offset = f.offset;
  segflg = f.segflg;
  rw_flag = f.rw_flag;
  space = f.space;
  valid = f.valid;
  covers = f.covers;
  spares = f.spares;
  onward = f.onward;
}

Moved-none : (ptr n : ℕ) (u : Uio) (mem : Mem) → IsValid u → Moved uio_read ptr n u mem u mem 0
Moved-none ptr n u mem valid = record {
  resid = omega arith;
  offset = omega (arith, valid.position);
  segflg = refl;
  rw_flag = refl;
  space = refl;
  valid = valid;
  covers = Covers-none u.iov;
  spares = λ a out. refl;
  onward = λ d a out. out;
}

total :
    (k l amt n resid resid' : ℕ)
    → amt ≤ n
    → (k ≡ amt) ⊎ (k ≡ resid)
    → (l ≡ n - amt) ⊎ (l ≡ resid')
    → resid' + k ≡ resid
    → l ≤ resid'
    → (k + l ≡ n) ⊎ (k + l ≡ resid)
total k l amt n resid resid' le (inl asked) (inl more) e f = inl (omega arith)
total k l amt n resid resid' le (inl asked) (inr full) e f = inr (omega arith)
total k l amt n resid resid' le (inr full) _ e f = inr (omega arith)

asserted :
    (b : Bool) (P : Code × Uio × Mem → Type 0) (r : Run (Code × Uio × Mem))
    → b ≡ true
    → Ends P r
    → Ends P (kassert b >> r)
asserted true P r e ends = ends
asserted false P r e ends = absurd cc

module _ (touch : ℕ → Bool) (curas : Option ℕ) (block : ℕ) where
  -- What uiomovezeros gives in kernel memory: the bytes asked for, or those with room, are moved, and
  -- they are 0.
  abbrev pub Cleared : ℕ → Uio → Mem → Code × Uio × Mem → Type 0
  Cleared n u mem (code, u', mem') =
      (code ≡ success)
      × Zeroed n u.iov mem mem'
      × ((k : ℕ) × (k ≤ n) × ((k ≡ n) ⊎ (k ≡ u.resid)) × Moved uio_read block n u mem u' mem' k)

  -- A call of uiomove in kernel memory, with zeros to move.
  uiomove-Cleared :
      (n : ℕ) (u : Uio) (mem : Mem)
      → n ≤ 16
      → IsValid u
      → u.segflg ≡ uio_sysspace
      → in_space curas u.segflg u.space ≡ true
      → u.rw_flag ≡ uio_read
      → ZerosAt block 16 u.iov mem
      → Ends (Cleared n u mem) (uiomove touch curas block n u mem)
  uiomove-Cleared n u mem le valid sys here dir zeros =
      Ends-weaken _ _ _ (both touch curas block n u mem valid here (omega arith)) (λ r h.
        let (ok, same) = h.1 sys in
        let (k, few, moved, how) = h.0 in
        let read : r.2 ≡ moves uio_read block n u.iov mem =
          same ∙ ap (λ d. moves d block n u.iov mem) dir in
        let all : (k ≡ n) ⊎ (k ≡ u.resid) = elim how [
          | inl (_, x) ↦ x
          | inr (_, user) ↦ absurd (user sys)
        ] in
        (
          ok,
          (λ a.
              ap (λ f. f a) read
              ∙ moves-Zeroed block n u.iov mem (λ j j_in. zeros j (omega arith)) a),
          (k, few, all, subst (λ d. Moved d block n u mem r.1 r.2 k) dir moved),
        ))

  -- The addresses of all bytes asked for are those of a block and those of the rest.
  within-split :
      (amt n k : ℕ) (u u' : Uio) (mem mem' : Mem)
      → amt ≤ n
      → (k ≡ amt) ⊎ (k ≡ u.resid)
      → Moved uio_read block amt u mem u' mem' k
      → k ≤ amt
      → (a : ℕ) → within n u.iov a ≡ (within amt u.iov a || within (n - amt) u'.iov a)
  within-split amt n k u u' mem mem' le (inl asked) moved few a =
      rw (sym asked) (moved.covers n (omega arith) a)
  within-split amt n k u u' mem mem' le (inr full) moved few a =
      let empty : room u'.iov ≡ 0 = omega (arith, moved.resid, moved.valid.whole) in
      rw
        (
          moved.covers n (omega arith) a,
          moved.covers amt few a,
          within-full (n - k) u'.iov a empty,
          within-full (amt - k) u'.iov a empty,
          within-full (n - amt) u'.iov a empty,
        )
        (ground arith)

  -- What follows a call of uiomove for a block.
  Cleared-then :
      (amt n : ℕ) (u : Uio) (mem : Mem)
      → amt ≤ n
      → IsValid u
      → ZerosAt block 16 u.iov mem
      → (onward : Uio → Mem → Run (Code × Uio × Mem))
      → ((u' : Uio) (mem' : Mem) (k : ℕ)
          → Moved uio_read block amt u mem u' mem' k
          → ZerosAt block 16 u'.iov mem'
          → Ends (Cleared (n - amt) u' mem') (onward u' mem'))
      → (r : Code × Uio × Mem) → Cleared amt u mem r
      → Ends (Cleared n u mem) (zeros_moved onward r)
  unfolding zeros_moved
  Cleared-then amt n u mem le valid zeros onward rest (success, u', mem')
        (_, zeroed, (k, few, all, moved)) =
      let clear : ZerosAt block 16 u'.iov mem' = λ j h.
        let (zero_there, apart) = zeros j h in
        (moved.spares (block + j) apart ∙ zero_there, moved.onward refl (block + j) apart) in
      Ends-weaken _ _ _ (rest u' mem' k moved clear) (λ r h.
        let (ok, after, (l, short, done_all, more)) = h in
        (
          ok,
          (λ a.
              ground
                (arith, zeroed a, after a, within-split amt n k u u' mem mem' le all moved few a)),
          (
            k + l,
            omega arith,
            total k l amt n u.resid u'.resid le all done_all moved.resid
                (omega (arith, more.resid)),
            Moved-then block amt n (n - amt) u u' r.1 mem mem' r.2 k l moved more,
          ),
        ))
  Cleared-then amt n u mem le valid zeros onward rest (efault, u', mem') (ok, _, _) = absurd cc
  Cleared-then amt n u mem le valid zeros onward rest (enametoolong, u', mem') (ok, _, _) =
      absurd cc

  zeros_loop-Cleared :
      (fuel n : ℕ) (u : Uio) (mem : Mem)
      → n < fuel
      → IsValid u
      → u.segflg ≡ uio_sysspace
      → in_space curas u.segflg u.space ≡ true
      → u.rw_flag ≡ uio_read
      → ZerosAt block 16 u.iov mem
      → Ends (Cleared n u mem) (zeros_loop touch curas block fuel n u mem)
  unfolding zeros_loop zeros_moved
  zeros_loop-Cleared zero n u mem enough valid sys here dir zeros = absurd (omega arith)
  zeros_loop-Cleared (suc fuel) n u mem enough valid sys here dir zeros =
      Ends-test _ (n == 0) _ _
        (λ none_left. (
          _,
          refl,
          (
            refl,
            (λ a. let e : n ≡ 0 = ground arith in rw (e, within-zero u.iov a) refl),
            (0, omega arith, inl (ground arith), Moved-none block n u mem valid),
          ),
        ))
        (λ some_left.
          Ends-seq _ _ _ _
            (uiomove-Cleared (chunk n 16) u mem (ground arith) valid sys here dir zeros)
            (Cleared-then (chunk n 16) n u mem (ground arith) valid zeros _
              (λ u' mem' k moved clear.
                zeros_loop-Cleared fuel (n - chunk n 16) u' mem' (ground arith) moved.valid
                  (moved.segflg ∙ sys) (rw (moved.segflg, moved.space) here) (moved.rw_flag ∙ dir)
                  clear)))

  -- For a valid uio for UIO_READ in kernel memory, and where the static block of 16 zeros holds zeros
  -- and lies outside the buffers of the uio, uiomovezeros returns 0 and writes zeros to as many of the
  -- first bytes of the buffers as were asked for, or to all that they have, and changes no other byte.
  -- uio_offset and uio_resid differ by that number, the flags and the space are the same, and the uio
  -- is valid again.
  pub uiomovezeros-Cleared :
      (n : ℕ) (u : Uio) (mem : Mem)
      → IsValid u
      → u.segflg ≡ uio_sysspace
      → in_space curas u.segflg u.space ≡ true
      → u.rw_flag ≡ uio_read
      → ZerosAt block 16 u.iov mem
      → Ends (Cleared n u mem) (uiomovezeros touch curas block n u mem)
  unfolding uiomovezeros
  uiomovezeros-Cleared n u mem valid sys here dir zeros =
      asserted (is_read u.rw_flag) _ _ (ap is_read dir)
        (zeros_loop-Cleared (suc n) n u mem (omega arith) valid sys here dir zeros)
