-- ===== src/Uio/Round.antt =====
-- A round of uiomove's loop: it copies from or to the first iovec, or leaves it behind.
use cse.Base.{
  ℕ, suc, ◌+◌, ◌-◌, ◌*◌, ◌^◌, ◌≤◌, ◌<◌, ◌≡◌, ◌≢◌, ◌⊎◌, inl, inr, refl, sym, ap, ◌∙◌, Bool, List, [],
  ◌∷◌, length, All, ◌==◌, if◌then◌else◌, arith, dec_lt, Ends, Ends-test,
}
use mathlib.Core.Path.{subst}
use cse.Copy.{Mem, Code, success, efault, enametoolong}
use cse.Uio.{
  Iovec, UioRw, uio_read, uio_write, uio_sysspace, Loop, Next, again, fails, transfer, chunk,
  moved_on, copied, count_down, uiomove_round,
}
use cse.Uio.Cover.{Covers, Covers-none, Covers-part, Covers-skip}
use cse.Uio.Reference.{room, move, moves, moves-skip, moves-split, transfer-move}
use cse.Uio.Progress.{
  IsValid, Spared, Unwritten, Apart-part, Coded, transfer-Unwritten, transfer-code, Went,
}

-- The rounds that a list of iovecs can take.
abbrev pub cost : List Iovec → ℕ
cost [] = 0
cost (v ∷ vs) = (if v.len == 0 then 1 else 2) + 2 * length vs

pub cost_le : (l : List Iovec) → cost l ≤ 2 * length l
cost_le [] = omega arith
cost_le (v ∷ vs) = ground arith

no_room : (l : List Iovec) → length l ≡ 0 → room l ≡ 0
no_room [] h = refl
no_room (v ∷ vs) h = absurd (omega arith)

-- What a round makes of `m`: bytes were moved, and either all of them or the list is cheaper; or the
-- copy failed.
abbrev pub Rounded : Loop → Next → Type 0
Rounded m (again m') = (k : ℕ) × Went m m' k × ((m'.n ≡ 0) ⊎ (cost m'.uio.iov < cost m.uio.iov))
Rounded m (fails code m') = (code ≡ efault) × (m.uio.segflg ≢ uio_sysspace) × Went m m' 0

module _ (m : Loop) (valid : IsValid m.uio) (v : Iovec) (rest : List Iovec)
    (e : m.uio.iov ≡ v ∷ rest) (left : 0 < m.n) (room_left : 0 < m.uio.resid) where
  whole : m.uio.resid ≡ v.len + room rest
  whole = valid.whole ∙ ap room e

  counted : m.uio.iovcnt ≡ suc (length rest)
  counted = valid.counted ∙ ap length e

  placed : (v.base + v.len ≤ 2 ^ 32) × All (λ x. x.base + x.len ≤ 2 ^ 32) rest
  placed = subst (All (λ x. x.base + x.len ≤ 2 ^ 32)) e (valid.placed)

  part :
      (size : ℕ)
      → size ≤ v.len
      → size ≤ m.n
      → (dir : UioRw) (a : ℕ) → Spared dir m.ptr m.n (v ∷ rest) a
      → Unwritten dir m.ptr v.base size a
        × Spared dir
            (m.ptr + size)
            (m.n - size)
            (record { base = v.base + size; len = v.len - size } ∷ rest)
            a
  part size le few uio_read a (first, others) =
      let (block, behind) = Apart-part v.base v.len size a le first in (block, (behind, others))
  part size le few uio_write a out = Apart-part m.ptr m.n size a few out

  module _ (size : ℕ) (le : size ≤ v.len) (few : size ≤ m.n) (mem : Mem)
      (same : (a : ℕ) → Unwritten m.uio.rw_flag m.ptr v.base size a → mem a ≡ m.mem a)
      (all_moved : m.uio.segflg ≡ uio_sysspace
        → mem ≡ move m.uio.rw_flag m.ptr v.base size m.mem) where
    spares :
        (dir : UioRw) (a : ℕ)
        → dir ≡ m.uio.rw_flag
        → Spared dir m.ptr m.n m.uio.iov a
        → (mem a ≡ m.mem a)
          × Spared dir
              (m.ptr + size)
              (m.n - size)
              (record { base = v.base + size; len = v.len - size } ∷ rest)
              a
    spares dir a d out =
        let (off, others) = part size le few dir a (subst (λ l. Spared dir m.ptr m.n l a) e out) in
        (same a (subst (λ x. Unwritten x m.ptr v.base size a) d off), others)

    moved_on-moves :
        size ≡ chunk m.n v.len
        → m.uio.segflg ≡ uio_sysspace
        → moves m.uio.rw_flag
            (m.ptr + size)
            (m.n - size)
            (record { base = v.base + size; len = v.len - size } ∷ rest)
            mem
          ≡ moves m.uio.rw_flag m.ptr m.n m.uio.iov m.mem
    moved_on-moves whole_chunk sys =
        rw (all_moved sys, e)
          (sym (moves-split m.uio.rw_flag m.ptr m.n size v rest m.mem whole_chunk))

    moved_on-Went : size ≡ chunk m.n v.len → Went m (moved_on m v rest size mem) size
    unfolding moved_on
    moved_on-Went whole_chunk = record {
      ptr = refl;
      n = omega arith;
      resid = omega (arith, whole, valid.small);
      offset = refl;
      segflg = refl;
      rw_flag = refl;
      space = refl;
      valid = record {
        counted = counted;
        few = valid.few;
        whole = omega (arith, whole, valid.small);
        small = omega arith;
        position = omega arith;
        placed = (omega (arith, placed.0), placed.1);
      };
      covers =
          subst (λ l. Covers l size (record { base = v.base + size; len = v.len - size } ∷ rest))
            (sym e) (Covers-part v rest size le);
      kernel = moved_on-moves whole_chunk;
      spares = spares;
    }

    stay-Went : m.uio.segflg ≢ uio_sysspace → Went m (record m { mem = mem }) 0
    stay-Went user = record {
      ptr = omega arith;
      n = omega arith;
      resid = omega arith;
      offset = omega (arith, valid.position);
      segflg = refl;
      rw_flag = refl;
      space = refl;
      valid = valid;
      covers = Covers-none m.uio.iov;
      kernel = λ sys. absurd (user sys);
      spares = λ dir a d out. ((spares dir a d out).0, out);
    }

    -- Behind the copy, by its code.
    copied-Rounded :
        (code : Code)
        → 0 < size
        → size ≡ chunk m.n v.len
        → Coded m.uio.segflg code
        → Rounded m (copied m v rest size (code, mem))
    unfolding copied moved_on
    copied-Rounded success pos full ok = (
      size,
      moved_on-Went full,
      elim (dec_lt m.n v.len) [
        | yes all ↦ inl (ground arith)
        | no first ↦ inr (ground (arith, ap cost e))
      ],
    )
    copied-Rounded efault pos full (inr (_, user)) = (refl, user, stay-Went user)
    copied-Rounded efault pos full (inl bad) = absurd cc
    copied-Rounded enametoolong pos full (inl bad) = absurd cc
    copied-Rounded enametoolong pos full (inr (bad, user)) = absurd cc

  later : (dir : UioRw) (a : ℕ) → Spared dir m.ptr m.n (v ∷ rest) a → Spared dir m.ptr m.n rest a
  later uio_read a (first, others) = others
  later uio_write a out = out

  skip-Went :
      v.len ≡ 0
      → Went m
          (record m { uio = record (m.uio) { iov = rest; iovcnt = count_down m.uio.iovcnt } })
          0
  skip-Went none_left = record {
    ptr = omega arith;
    n = omega arith;
    resid = omega arith;
    offset = omega (arith, valid.position);
    segflg = refl;
    rw_flag = refl;
    space = refl;
    valid = record {
      small = valid.small;
      position = valid.position;
      counted = omega (arith, counted, valid.few);
      few = omega arith;
      whole = omega (arith, whole);
      placed = placed.1;
    };
    covers = subst (λ l. Covers l 0 rest) (sym e) (Covers-skip v rest none_left);
    kernel = λ sys. rw e (sym (moves-skip m.uio.rw_flag m.ptr m.n v rest m.mem (ground arith)));
    spares = λ dir a d out. (refl, later dir a (subst (λ l. Spared dir m.ptr m.n l a) e out));
  }

  pub uiomove_round-Rounded :
      (touch : ℕ → Bool) → m.n < 2 ^ 32 → Ends (Rounded m) (uiomove_round touch m v rest)
  unfolding uiomove_round
  uiomove_round-Rounded touch small =
      Ends-test _ (chunk m.n v.len == 0) _ _
        (λ none_left.
          Ends-test _ (count_down m.uio.iovcnt == 0) _ _
            (λ last. absurd ground (arith, counted, whole, no_room rest, valid.few))
            (λ more. (
              _,
              refl,
              (0, skip-Went (ground arith), inr (ground (arith, ap cost e, cost_le rest))),
            )))
        (λ some_left.
          let size : ℕ = chunk m.n v.len in
          let le : size ≤ v.len = ground arith in
          let word : v.base < 2 ^ 32 = ground (arith, placed.0) in
          let t : Code × Mem = transfer touch m.uio.segflg m.uio.rw_flag m.ptr v.base size m.mem in
          let same : (a : ℕ) → Unwritten m.uio.rw_flag m.ptr v.base size a → t.1 a ≡ m.mem a = λ a.
            transfer-Unwritten touch m.ptr v.base size m.mem a word (ground arith) m.uio.segflg
              m.uio.rw_flag in
          let all_moved : m.uio.segflg ≡ uio_sysspace
              → t.1 ≡ move m.uio.rw_flag m.ptr v.base size m.mem =
            λ sys.
              ap (λ seg. (transfer touch seg m.uio.rw_flag m.ptr v.base size m.mem).1) sys
              ∙ ap (λ r. r.1) (transfer-move touch m.uio.rw_flag m.ptr v.base size m.mem) in
          (
            _,
            refl,
            copied-Rounded size le (ground arith) t.1 same all_moved t.0 (ground arith) refl
                (transfer-code touch m.ptr v.base size m.mem m.uio.segflg m.uio.rw_flag),
          ))
