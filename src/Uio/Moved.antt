-- ===== src/Uio/Moved.antt =====
-- uiomove moves as many bytes as it is asked for and has room for, and keeps its uio valid.
use cse.Base.{
  ℕ, zero, suc, ◌+◌, ◌%◌, ◌^◌, ◌≤◌, ◌<◌, ◌≡◌, ◌≢◌, ◌⊎◌, inl, inr, refl, sym, ap, ◌∙◌, Bool, true,
  ◌||◌, Option, List, [], ◌∷◌, ◌==◌, arith, Run, Ends, Ends-seq, Ends-test, Ends-weaken,
}
use cse.Copy.{Mem, Code, success, efault}
use cse.Uio.{
  Iovec, UioRw, uio_read, uio_sysspace, Uio, Loop, Next, again, fails, first_iovec, follow,
  uiomove_loop, in_space, rounds, uiomove,
}
use cse.Uio.Cover.{Covers}
use cse.Uio.Reference.{room, moves, moves-nothing}
use cse.Uio.Progress.{IsValid, Spared, Went, Went-none, Went-then}
use cse.Uio.Round.{cost, cost_le, Rounded, uiomove_round-Rounded}

-- What a call makes of its uio, kernel buffer and memory: it moved `moved` bytes.
pub record Moved (dir : UioRw) (ptr n : ℕ) (u : Uio) (mem : Mem) (u' : Uio) (mem' : Mem) (moved : ℕ)
    : Type 0 where
  pub resid : u'.resid + moved ≡ u.resid
  pub offset : u'.offset ≡ (u.offset + moved) % 2 ^ 64
  pub segflg : u'.segflg ≡ u.segflg
  pub rw_flag : u'.rw_flag ≡ u.rw_flag
  pub space : u'.space ≡ u.space
  pub valid : IsValid u'
  pub covers : Covers u.iov moved u'.iov
  pub spares : (a : ℕ) → Spared dir ptr n u.iov a → mem' a ≡ mem a
  pub onward :
      dir ≡ uio_read → (a : ℕ) → Spared uio_read ptr n u.iov a → Spared uio_read ptr n u'.iov a

-- How the loop ends: with all that was asked for or that there was room for, or with EFAULT.
abbrev Left : Loop → Code × Loop → Type 0
Left m (code, m') =
    (k : ℕ) × Went m m' k
    × (((code ≡ success) × ((m'.n ≡ 0) ⊎ (m'.uio.resid ≡ 0)))
        ⊎ ((code ≡ efault) × (m.uio.segflg ≢ uio_sysspace)))

Left-then : (m m' : Loop) (k : ℕ) → Went m m' k → (r : Code × Loop) → Left m' r → Left m r
Left-then m m' k f (code, m'') (l, g, inl ok) = (k + l, Went-then m m' m'' k l f g, inl ok)
Left-then m m' k f (code, m'') (l, g, inr (bad, user)) =
    (k + l, Went-then m m' m'' k l f g, inr (bad, λ e. user (f.segflg ∙ e)))

first_iovec-Rounded :
    (touch : ℕ → Bool) (m : Loop) (iov : List Iovec)
    → m.uio.iov ≡ iov
    → IsValid m.uio
    → 0 < m.n
    → m.n < 2 ^ 32
    → 0 < m.uio.resid
    → Ends (Rounded m) (first_iovec touch m iov)
unfolding first_iovec
first_iovec-Rounded touch m [] e valid left small resid =
    absurd (omega (arith, valid.whole, ap room e))
first_iovec-Rounded touch m (v ∷ rest) e valid left small resid =
    uiomove_round-Rounded m valid v rest e left resid touch small

-- Enough fuel is left.
abbrev Fuelled : ℕ → Loop → Type 0
Fuelled fuel m = (0 < fuel) × ((m.n ≡ 0) ⊎ (cost m.uio.iov < fuel))

cost_pos : (l : List Iovec) → 0 < room l → 0 < cost l
cost_pos [] h = absurd (omega arith)
cost_pos (v ∷ vs) h = ground arith

follow-Left :
    (onward : Loop → Run (Code × Loop)) (fuel : ℕ) (m : Loop)
    → ((m' : Loop) → Fuelled fuel m' → IsValid m'.uio → m'.n < 2 ^ 32 → Ends (Left m') (onward m'))
    → m.n < 2 ^ 32
    → 0 < cost m.uio.iov
    → cost m.uio.iov < suc fuel
    → (next : Next) → Rounded m next
    → Ends (Left m) (follow onward next)
unfolding follow
follow-Left onward fuel m ends small pos enough (again m') (k, went, cheaper) =
    let fuelled : (m'.n ≡ 0) ⊎ (cost m'.uio.iov < fuel) = elim cheaper [
      | inl all ↦ inl all
      | inr less ↦ inr (omega arith)
    ] in
    Ends-weaken _ _ _ (ends m' (omega arith, fuelled) went.valid (omega (arith, went.n)))
      (Left-then m m' k went)
follow-Left onward fuel m ends small pos enough (fails code m') (bad, user, went) =
    (_, refl, (0, went, inr (bad, user)))

uiomove_loop-Left :
    (touch : ℕ → Bool) (fuel : ℕ) (m : Loop)
    → Fuelled fuel m
    → IsValid m.uio
    → m.n < 2 ^ 32
    → Ends (Left m) (uiomove_loop touch fuel m)
unfolding uiomove_loop
uiomove_loop-Left touch zero m (pos, enough) valid small = absurd (omega arith)
uiomove_loop-Left touch (suc fuel) m (pos, enough) valid small =
    Ends-test _ (m.n == 0 || m.uio.resid == 0) _ _
      (λ over. (_, refl, (0, Went-none m valid, inl (refl, ground arith))))
      (λ on.
        let room_left : 0 < room m.uio.iov = ground (arith, valid.whole) in
        Ends-seq _ _ _ _
          (first_iovec-Rounded touch m m.uio.iov refl valid (ground arith) small (ground arith))
          (follow-Left (uiomove_loop touch fuel) fuel m (uiomove_loop-Left touch fuel) small
            (cost_pos m.uio.iov room_left) (ground arith)))

-- Behind uiomove: the bytes asked for and those with room are all moved, or a copy failed.
abbrev pub Moves : UioRw → ℕ → ℕ → Uio → Mem → Code × Uio × Mem → Type 0
Moves dir ptr n u mem (code, u', mem') =
    (k : ℕ) × (k ≤ n)
    × Moved dir ptr n u mem u' mem' k
    × (((code ≡ success) × ((k ≡ n) ⊎ (k ≡ u.resid)))
        ⊎ ((code ≡ efault) × (u.segflg ≢ uio_sysspace)))

module _ (touch : ℕ → Bool) (curas : Option ℕ) (ptr n : ℕ) (u : Uio) (mem : Mem) where
  abbrev pub start : Loop
  start = record { ptr = ptr; n = n; uio = u; mem = mem }

  Left-Moves :
      (r : Code × Loop) → Left start r → Moves u.rw_flag ptr n u mem (r.0, r.1.uio, r.1.mem)
  Left-Moves (code, m') (k, went, how) = (
    k,
    omega (arith, went.n),
    record {
      resid = went.resid;
      offset = went.offset;
      segflg = went.segflg;
      rw_flag = went.rw_flag;
      space = went.space;
      valid = went.valid;
      covers = went.covers;
      spares = λ a out. (went.spares u.rw_flag a refl out).0;
      onward = λ d a out. (went.spares uio_read a (sym d) out).1;
    },
    elim how [
      | inl (ok, all) ↦ inl (
        ok,
        elim all [
          | inl asked ↦ inl (omega (arith, went.n))
          | inr full ↦ inr (omega (arith, went.resid))
        ],
      )
      | inr (bad, user) ↦ inr (bad, user)
    ],
  )

  -- In kernel memory the call returns 0, and memory is that of the reference.
  abbrev pub Copies : Code × Uio × Mem → Type 0
  Copies (code, u', mem') = (code ≡ success) × (mem' ≡ moves u.rw_flag ptr n u.iov mem)

  Left-Copies :
      u.segflg ≡ uio_sysspace → (r : Code × Loop) → Left start r → Copies (r.0, r.1.uio, r.1.mem)
  Left-Copies sys (code, m') (k, went, inr (bad, user)) = absurd (user sys)
  Left-Copies sys (code, m') (k, went, inl (ok, all)) = (
    ok,
    sym (
          moves-nothing m'.uio.rw_flag m'.ptr m'.n m'.uio.iov m'.mem
            (elim all [ inl asked ↦ inl asked | inr full ↦ inr (omega (arith, went.valid.whole)) ]))
        ∙ went.kernel sys,
  )

  module _ (valid : IsValid u) (here : in_space curas u.segflg u.space ≡ true)
      (small : n < 2 ^ 32) where
    pub both :
        Ends
          (λ r. Moves u.rw_flag ptr n u mem r × (u.segflg ≡ uio_sysspace → Copies r))
          (uiomove touch curas ptr n u mem)
    unfolding uiomove
    both =
        let fuelled : (n ≡ 0) ⊎ (cost u.iov < rounds u) = inr (omega (arith, cost_le u.iov)) in
        rw here (
          Ends-seq _ _ _ _
            (uiomove_loop-Left touch (rounds u) start (omega arith, fuelled) valid small)
            (λ r left. (_, refl, (Left-Moves r left, λ sys. Left-Copies sys r left))))

    -- For a valid uio of the space in context and a size that a size_t can have, uiomove ends: no panic,
    -- and no iovec is read behind the last. It returns 0 when it has moved all bytes that were asked for
    -- or all that the uio has room for, and else EFAULT, which it does not in kernel memory. Either way
    -- uio_offset and uio_resid differ by the bytes moved, at most those asked for; the flags and the
    -- space are the same, the uio is valid again, and no byte has changed outside the buffers written
    -- to: those of the uio for UIO_READ, and the kernel buffer for UIO_WRITE.
    pub uiomove-Moves : Ends (Moves u.rw_flag ptr n u mem) (uiomove touch curas ptr n u mem)
    uiomove-Moves = Ends-weaken _ _ _ both (λ r h. h.0)

    -- For a valid uio in kernel memory and a size that a size_t can have, uiomove returns 0, and makes of
    -- memory what one memmove for each iovec does, in order, each of as many of the bytes that are left
    -- as the iovec has room for.
    pub uiomove-Copies : u.segflg ≡ uio_sysspace → Ends Copies (uiomove touch curas ptr n u mem)
    uiomove-Copies sys = Ends-weaken _ _ _ both (λ r h. h.1 sys)
