-- ===== src/Pagetable/Remove.antt =====
-- pagetable_remove on a page in memory gives the frame and the swap block back.
use Prim.Native.Nat.{bit_or}
use cse.Base.{
  ℕ, ◌+◌, ◌*◌, ◌^◌, ◌≤◌, ◌<◌, ◌≡◌, refl, Bool, true, false, Option, none, some, ◌==◌, if◌then◌else◌,
  Ends, Ends-seq, Ends-test, Ends-weaken, arith, Bool-cases, inl, inr,
}
use cse.Bitmap.{Bitmap}
use cse.Bitmap.Byte.{bit, bit-or, bit_zero}
use cse.Bitmap.Bits.{
  is_set, IsValid, Marked, Unmarked, bitmap_isset_lem, bitmap_mark_lem, bitmap_unmark_lem,
}
use cse.Coremap.Frames.{
  Coremap, coremap_translate, coremap_untranslate, coremap_lock_acquire, coremap_free_page,
}
use cse.Coremap.Freed.{Extent, Freed, coremap_free_page-Freed}
use cse.Pagetable.{
  PagetableEntry, Subtable, Pagetable, cleared, mainindex, subindex, lock, pagetable_inmem,
  swap_free,
}
use cse.Pagetable.Lookup.{live, in_table, entry_of, IsSound, Written, written-IsSound, written_lem}
use cse.Pagetable.Add.{same_page}
use cse.Pagetable.Vm.{Vm, page_of, forget, free_claimed, remove_entry, pagetable_remove}

-- The maps of a core map have a bit for each frame, and the addresses of the frames fit in 32 bits.
pub record IsMapped (cm : Coremap) : Type 0 where
  pub free_valid : IsValid cm.maps.free
  pub swappable_valid : IsValid cm.maps.swappable
  pub free_length : cm.maps.free.nbits ≡ cm.length
  pub swappable_length : cm.maps.swappable.nbits ≡ cm.length
  pub fits : cm.base + cm.length * 4096 ≤ 2 ^ 32

-- The test of `entry->flags | PAGETABLE_INMEM` always succeeds.
or_set : (flags : ℕ) → flags < 256 → (bit_or flags pagetable_inmem == 0) ≡ false
or_set flags small =
    let set : bit (bit_or flags 2) 1 ≡ true =
      ground (arith, bit-or flags 1 1 small (omega arith) (omega arith)) in
    elim (Bool-cases (bit_or flags 2 == 0)) [
      | inr e ↦ e
      | inl e ↦
          let nothing : bit_or flags 2 ≡ 0 = ground arith in
          absurd (cc (rw nothing at set, bit_zero 1 (omega arith)))
    ]

-- The core map with another map of claimed pages.
abbrev claimed : Coremap → Bitmap → Coremap
claimed cm s = record cm { maps = record (cm.maps) { swappable = s } }

coremap_lock_acquire-Marked :
    (cm : Coremap) (idx : ℕ)
    → IsMapped cm
    → idx < cm.length
    → is_set cm.maps.swappable idx ≡ false
    → Ends
        (λ r. (s : Bitmap) × (r ≡ (true, claimed cm s)) × Marked cm.maps.swappable idx s)
        (coremap_lock_acquire cm (coremap_untranslate cm.base idx))
unfolding coremap_lock_acquire
coremap_lock_acquire-Marked cm idx m inside clear =
    let here : coremap_translate cm.base (coremap_untranslate cm.base idx) ≡ idx =
      omega (arith, m.fits) in
    let within : idx < cm.maps.swappable.nbits = omega (arith, m.swappable_length) in
    rw here (
      Ends-seq _ _ _ _ (bitmap_isset_lem cm.maps.swappable m.swappable_valid idx within) (λ n hn.
        Ends-test _ (n == 0) _ _
          (λ vacant.
            Ends-seq _ _ _ _
              ((bitmap_mark_lem cm.maps.swappable m.swappable_valid idx within).0 clear)
              (λ s u. (_, refl, (s, refl, u))))
          (λ taken. absurd (ground arith))))

-- The frame of a claimed page is freed, and the claim with it.
claimed-Freed :
    (cm : Coremap) (idx : ℕ) (s : Bitmap)
    → IsMapped cm
    → Extent cm idx 1
    → Marked cm.maps.swappable idx s
    → Ends (Freed cm idx 1) (coremap_free_page (claimed cm s) (coremap_untranslate cm.base idx))
claimed-Freed cm idx s m x u =
    Ends-weaken (Freed (claimed cm s) idx 1) _ _
      (coremap_free_page-Freed (claimed cm s) idx 1 m.free_valid (u.0) m.free_length
        (ground (arith, u.1, m.swappable_length)) m.fits
        (record { pages = x.pages; inside = x.inside; parts = x.parts; end = x.end }))
      (λ cm' f. record {
        free = f.free;
        swappable = record {
          valid = f.swappable.valid;
          sized = ground (arith, f.swappable.sized, u.1);
          bits = λ j. ground (arith, f.swappable.bits j, u.2 j);
        };
        entries = f.entries;
      })

-- What pagetable_remove leaves of a page in memory, in frame `idx`.
pub record Removed (vm : Vm) (vaddr idx : ℕ) (entry : PagetableEntry) (r : Bool × Vm) : Type 0 where
  pub answer : r.0 ≡ true
  pub frame : Freed vm.coremap idx 1 (r.1).coremap
  pub block : Unmarked vm.freelist entry.swap (r.1).freelist
  pub released : (r.1).table.held ≡ false
  pub sound : IsSound (r.1).table
  pub reads :
      (v : ℕ) → entry_of (r.1).table v ≡ (if same_page vaddr v then none else entry_of vm.table v)

module _ (vm : Vm) (sound : IsSound vm.table) (vaddr : ℕ) (word : vaddr < 2 ^ 32)
    (entry : PagetableEntry) (free_valid : IsValid vm.freelist)
    (block : entry.swap < vm.freelist.nbits)
    (main : is_set vm.table.valids (mainindex vaddr) ≡ true) where
  abbrev unlocked : Vm
  unlocked = record vm { table = lock false vm.table }

  forget-Removed :
      (idx : ℕ) (c : Coremap)
      → Freed vm.coremap idx 1 c
      → Ends
          (Removed vm vaddr idx entry)
          (forget (record unlocked { coremap = c }) (mainindex vaddr) (subindex vaddr) entry)
  unfolding forget swap_free
  forget-Removed idx c freed =
      let i : ℕ = mainindex vaddr in
      let j : ℕ = subindex vaddr in
      let s = sound.sub i main in
      let old : Subtable = vm.table.subtables i in
      Ends-seq _ _ _ _ (bitmap_unmark_lem vm.freelist free_valid entry.swap block) (λ f uf.
        Ends-seq _ _ _ _ (bitmap_unmark_lem old.valids (s.map.0) j (omega (arith, s.map.1)))
          (λ v uv.
            let sub' : Subtable = record old { valids = v } in
            let w : Written old j none sub' = record {
              valid = record {
                map = (uv.0, ground (arith, uv.1, s.map.1));
                filled = λ l p h. ground (arith, uv.2 l, s.filled l p);
              };
              reads = λ l. ground (arith, uv.2 l);
            } in
            let after = written-IsSound vm.table sound i j main none sub' w in
            (
              _,
              refl,
              record {
                answer = refl;
                frame = freed;
                block = uf;
                released = refl;
                sound = record { main = after.main; sub = after.sub };
                reads =
                    λ x. written_lem vm.table sound i j main none sub' w (mainindex x) (subindex x);
              },
            )))

  remove_entry-Removed :
      (idx : ℕ)
      → IsMapped vm.coremap
      → Extent vm.coremap idx 1
      → is_set vm.coremap.maps.swappable idx ≡ false
      → page_of entry ≡ coremap_untranslate vm.coremap.base idx
      → entry.flags < 256
      → Ends
          (Removed vm vaddr idx entry)
          (remove_entry unlocked (mainindex vaddr) (subindex vaddr) (some entry))
  unfolding remove_entry free_claimed
  remove_entry-Removed idx m x clear at byte =
      let tested : (bit_or entry.flags pagetable_inmem == 0) ≡ false = or_set entry.flags byte in
      rw (tested, at)
        (Ends-seq _ _ _ _
          (coremap_lock_acquire-Marked vm.coremap idx m (omega (arith, x.inside)) clear)
          (λ r c.
            let (s, e, u) = c in
            rw e (
              rw at (
                Ends-seq _ _ _ _ (claimed-Freed vm.coremap idx s m x u)
                  (λ c' f. forget-Removed idx c' f)))))

-- What an entry of the table says of the bits and the pointer.
record Stands (table : Pagetable) (i j : ℕ) (entry : PagetableEntry) : Type 0 where
  main : is_set table.valids i ≡ true
  valid : is_set (table.subtables i).valids j ≡ true
  pointer : (table.subtables i).entries j ≡ some entry

live-some :
    (o : Option PagetableEntry) (entry : PagetableEntry) → live o ≡ some entry → o ≡ some entry
live-some none entry h = absurd cc
live-some (some x) entry h = elim (Bool-cases (cleared x.flags)) [
  | inl e ↦ let lost : none ≡ some entry = rw e at h in absurd (cc)
  | inr e ↦ rw e at h
]

stands :
    (table : Pagetable) (i j : ℕ) (entry : PagetableEntry)
    → in_table table i j ≡ some entry
    → Stands table i j entry
stands table i j entry h = record {
  main = ground arith;
  valid = ground arith;
  pointer = live-some ((table.subtables i).entries j) entry (ground arith);
}

-- Let a page of a sound table have an entry for frame `idx`, an allocation of one frame that no thread
-- has claimed, and for a swap block in range. pagetable_remove returns true: exactly that frame and
-- that block are given back, the page has no entry, every other has the one that it had, and the lock
-- of the table is released.
pub pagetable_remove-Removed :
    (vm : Vm) (vaddr idx : ℕ) (entry : PagetableEntry)
    → IsSound vm.table
    → vaddr < 2 ^ 32
    → entry_of vm.table vaddr ≡ some entry
    → entry.flags < 256
    → IsValid vm.freelist
    → entry.swap < vm.freelist.nbits
    → IsMapped vm.coremap
    → Extent vm.coremap idx 1
    → is_set vm.coremap.maps.swappable idx ≡ false
    → page_of entry ≡ coremap_untranslate vm.coremap.base idx
    → Ends (Removed vm vaddr idx entry) (pagetable_remove vm vaddr)
unfolding pagetable_remove
pagetable_remove-Removed vm vaddr idx entry sound word there byte fv block m x clear at =
    let i : ℕ = mainindex vaddr in
    let j : ℕ = subindex vaddr in
    let st = stands vm.table i j entry there in
    let s = sound.sub i st.main in
    Ends-seq _ _ _ _
      (bitmap_isset_lem vm.table.valids (sound.main.0) i (omega (arith, sound.main.1)))
      (λ n hn.
        let found : (n == 0) ≡ false = ground (arith, st.main) in
        rw found (
          Ends-seq _ _ _ _
            (bitmap_isset_lem (vm.table.subtables i).valids (s.map.0) j (omega (arith, s.map.1)))
            (λ l hl.
              let valid : (l == 0) ≡ false = ground (arith, st.valid) in
              rw (valid, st.pointer)
                (remove_entry-Removed vm sound vaddr word entry fv block st.main idx m x clear at
                  byte))))
