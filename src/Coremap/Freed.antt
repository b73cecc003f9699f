-- ===== src/Coremap/Freed.antt =====
-- What coremap_free_page does to the maps and to the entries.
use Prim.Native.Nat.{bit_and}
use cse.Base.{
  ℕ, zero, suc, ◌+◌, ◌*◌, ◌^◌, ◌≤◌, ◌<◌, ◌≡◌, refl, Bool, true, false, not, ◌&&◌, leb, ltb, ◌==◌,
  if◌then◌else◌, update, ap, done, fault, Ends, Ends-seq, arith, ℕ_discrete,
}
use cse.Bitmap.{Bitmap, bitmap_unmark}
use cse.Bitmap.Bits.{is_set, IsValid, bitmap_unmark_lem}
use cse.Coremap.{Maps}
use cse.Coremap.Frames.{
  Coremap, CoremapEntry, coremap_multi, coremap_translate, coremap_untranslate, entry_at,
  count_loop, no_entry, reset_loop, unmark_both, coremap_free_page,
}

-- The entry goes on with the range of the entry before it.
abbrev pub multi : CoremapEntry → Bool
multi e = not (bit_and e.flags coremap_multi == 0)

-- `m` is `map` with the bits from `lo` up to `hi` cleared.
pub record Cleared (map : Bitmap) (lo hi : ℕ) (m : Bitmap) : Type 0 where
  pub valid : IsValid m
  pub sized : m.nbits ≡ map.nbits
  pub bits : (j : ℕ) → is_set m j ≡ (not (leb lo j && ltb j hi) && is_set map j)

start-Cleared : (map : Bitmap) (idx : ℕ) → IsValid map → Cleared map idx (idx + 0) map
start-Cleared map idx v = record { valid = v; sized = refl; bits = λ j. ground arith }

unmark-Cleared :
    (map : Bitmap) (idx i : ℕ) (m : Bitmap)
    → idx + i < map.nbits
    → Cleared map idx (idx + i) m
    → Ends (Cleared map idx (idx + suc i)) (bitmap_unmark m (idx + i))
unmark-Cleared map idx i m inside c =
    let (m', e, u) = bitmap_unmark_lem m c.valid (idx + i) (omega (arith, c.sized)) in
    (
      m',
      e,
      record {
        valid = u.0;
        sized = ground (arith, u.1, c.sized);
        bits = λ j. ground (arith, u.2 j, c.bits j);
      },
    )

unmark_both-Cleared :
    (maps : Maps) (idx num n i : ℕ) (m : Maps)
    → i + n ≡ num
    → idx + num ≤ maps.free.nbits
    → idx + num ≤ maps.swappable.nbits
    → Cleared maps.free idx (idx + i) m.free
    → Cleared maps.swappable idx (idx + i) m.swappable
    → Ends
        (λ maps'.
          Cleared maps.free idx (idx + num) maps'.free
          × Cleared maps.swappable idx (idx + num) maps'.swappable)
        (unmark_both n i idx m)
unfolding unmark_both
unmark_both-Cleared maps idx num zero i m e inf ins f s =
    let all : i ≡ num = omega arith in (m, refl, (rw all at f, rw all at s))
unmark_both-Cleared maps idx num (suc n) i m e inf ins f s =
    Ends-seq _ _ _ _ (unmark-Cleared maps.swappable idx i m.swappable (omega arith) s) (λ s' h.
      Ends-seq _ _ _ _ (unmark-Cleared maps.free idx i m.free (omega arith) f) (λ f' g.
        unmark_both-Cleared maps idx num n (suc i) (record { free = f'; swappable = s' })
          (omega arith) inf ins g h))

reset_loop_lem :
    (n i idx : ℕ) (entries : ℕ → CoremapEntry) (j : ℕ)
    → reset_loop n i idx entries j
      ≡ (if leb (idx + i) j && ltb j (idx + i + n) then no_entry else entries j)
unfolding reset_loop
reset_loop_lem zero i idx entries j = ground arith
reset_loop_lem (suc n) i idx entries j =
    ground (arith, reset_loop_lem n (suc i) idx (update entries (idx + i) no_entry) j)

-- A range of `num` frames from `idx` on, with a frame behind it that is not part of it.
pub record Extent (cm : Coremap) (idx num : ℕ) : Type 0 where
  pub pages : 0 < num
  pub inside : idx + num < cm.length
  pub parts : (i : ℕ) → 0 < i → i < num → multi (cm.entries (idx + i)) ≡ true
  pub end : multi (cm.entries (idx + num)) ≡ false

count_loop_lem :
    (cm : Coremap) (idx num fuel i : ℕ)
    → Extent cm idx num
    → 0 < i
    → i ≤ num
    → num < fuel + i
    → count_loop fuel cm idx i ≡ done num
unfolding count_loop entry_at
count_loop_lem cm idx num zero i x pos le enough = absurd (omega arith)
count_loop_lem cm idx num (suc fuel) i x pos le enough =
    let there : ltb (idx + i) cm.length ≡ true = ground (arith, x.inside) in
    rw there (elim (ℕ_discrete i num) [
      | yes last ↦
          let stop : (bit_and (cm.entries (idx + i)).flags coremap_multi == 0) ≡ true =
            rw last (ground (arith, x.end)) in
          rw stop (ap done last)
      | no before ↦
          let on : (bit_and (cm.entries (idx + i)).flags coremap_multi == 0) ≡ false =
            ground (arith, x.parts i pos) in
          rw on (count_loop_lem cm idx num fuel (i + 1) x (omega arith) (omega arith) (omega arith))
    ])

-- `cm'` is `cm` with the frames of the range given back.
pub record Freed (cm : Coremap) (idx num : ℕ) (cm' : Coremap) : Type 0 where
  pub free : Cleared cm.maps.free idx (idx + num) cm'.maps.free
  pub swappable : Cleared cm.maps.swappable idx (idx + num) cm'.maps.swappable
  pub entries :
      (j : ℕ) → cm'.entries j ≡ (if leb idx j && ltb j (idx + num) then no_entry else cm.entries j)

-- coremap_free_page at the address of the first frame of a range, with a frame behind it, gives
-- exactly the frames of the range back.
pub coremap_free_page-Freed :
    (cm : Coremap) (idx num : ℕ)
    → IsValid cm.maps.free
    → IsValid cm.maps.swappable
    → cm.maps.free.nbits ≡ cm.length
    → cm.maps.swappable.nbits ≡ cm.length
    → cm.base + cm.length * 4096 ≤ 2 ^ 32
    → Extent cm idx num
    → Ends (Freed cm idx num) (coremap_free_page cm (coremap_untranslate cm.base idx))
unfolding coremap_free_page
coremap_free_page-Freed cm idx num vf vs lf ls fit x =
    let here : coremap_translate cm.base (coremap_untranslate cm.base idx) ≡ idx =
      omega (arith, x.inside) in
    rw here (
      rw
        (count_loop_lem cm idx num (suc cm.length) 1 x (omega arith) (omega (arith, x.pages))
          (omega (arith, x.inside)))
        (Ends-seq _ _ _ _
          (unmark_both-Cleared cm.maps idx num num 0 cm.maps (omega arith) (omega (arith, x.inside))
            (omega (arith, x.inside)) (start-Cleared cm.maps.free idx vf)
            (start-Cleared cm.maps.swappable idx vs))
          (λ maps c. (
            _,
            refl,
            record {
              free = c.0;
              swappable = c.1;
              entries = λ j. ground (arith, reset_loop_lem num 0 idx cm.entries j);
            },
          ))))

-- A range of `num` frames from `idx` on that ends with the last frame.
pub record Tail (cm : Coremap) (idx num : ℕ) : Type 0 where
  pub pages : 0 < num
  pub last : idx + num ≡ cm.length
  pub parts : (i : ℕ) → 0 < i → i < num → multi (cm.entries (idx + i)) ≡ true

count_loop-fault :
    (cm : Coremap) (idx num fuel i : ℕ)
    → Tail cm idx num
    → 0 < i
    → i ≤ num
    → num < fuel + i
    → count_loop fuel cm idx i ≡ fault
unfolding count_loop entry_at
count_loop-fault cm idx num zero i x pos le enough = absurd (omega arith)
count_loop-fault cm idx num (suc fuel) i x pos le enough = elim (ℕ_discrete i num) [
  | yes end ↦ let past : ltb (idx + i) cm.length ≡ false = ground (arith, x.last) in rw past refl
  | no before ↦
      let there : ltb (idx + i) cm.length ≡ true = ground (arith, x.last) in
      let on : (bit_and (cm.entries (idx + i)).flags coremap_multi == 0) ≡ false =
        ground (arith, x.parts i pos) in
      rw (there, on)
        (count_loop-fault cm idx num fuel (i + 1) x (omega arith) (omega arith) (omega arith))
]

-- For such a range coremap_free_page reads behind the core map.
pub coremap_free_page-fault :
    (cm : Coremap) (idx num : ℕ)
    → cm.base + cm.length * 4096 ≤ 2 ^ 32
    → Tail cm idx num
    → coremap_free_page cm (coremap_untranslate cm.base idx) ≡ fault
unfolding coremap_free_page
coremap_free_page-fault cm idx num fit x =
    let here : coremap_translate cm.base (coremap_untranslate cm.base idx) ≡ idx =
      omega (arith, x.last, x.pages) in
    let past : count_loop (suc cm.length) cm idx 1 ≡ fault =
      count_loop-fault cm idx num (suc cm.length) 1 x (omega arith) (omega (arith, x.pages))
        (omega (arith, x.last)) in
    rw (here, past) refl
