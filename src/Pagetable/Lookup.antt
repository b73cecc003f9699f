-- ===== src/Pagetable/Lookup.antt =====
-- The map from pages to entries that a page table stands for, and pagetable_lookup on it.
use cse.Base.{
  ℕ, ◌^◌, ◌<◌, ◌≡◌, refl, Bool, true, false, ◌&&◌, Option, none, some, ◌==◌, if◌then◌else◌, Ends,
  Ends-seq, Ends-test, arith, Bool-cases, inl, inr,
}
use cse.Bitmap.{Bitmap}
use cse.Bitmap.Bits.{is_set, IsValid, bitmap_isset_lem, bitmap_unmark_lem}
use cse.Pagetable.{
  PagetableEntry, Subtable, Pagetable, mainindex, subindex, with_subtable, cleared, read_entry,
  pagetable_lookup,
}

-- An entry without flags counts as none.
abbrev pub live : Option PagetableEntry → Option PagetableEntry
live none = none
live (some entry) = if cleared entry.flags then none else some entry

abbrev pub in_subtable : Subtable → ℕ → Option PagetableEntry
in_subtable sub j = if is_set sub.valids j then live (sub.entries j) else none

abbrev pub in_table : Pagetable → ℕ → ℕ → Option PagetableEntry
in_table table i j = if is_set table.valids i then in_subtable (table.subtables i) j else none

-- The entry of the page that an address lies in.
abbrev pub entry_of : Pagetable → ℕ → Option PagetableEntry
entry_of table vaddr = in_table table (mainindex vaddr) (subindex vaddr)

abbrev pub IsMap : Bitmap → Type 0
IsMap b = IsValid b × (b.nbits ≡ 1024)

abbrev pub present : Option PagetableEntry → Bool
present none = false
present (some entry) = true

-- A valid bit stands for an entry.
pub record IsSubtable (sub : Subtable) : Type 0 where
  pub map : IsMap sub.valids
  pub filled : (l : ℕ) → l < 1024 → is_set sub.valids l ≡ true → present (sub.entries l) ≡ true

pub record IsSound (table : Pagetable) : Type 0 where
  pub main : IsMap table.valids
  pub sub : (i : ℕ) → is_set table.valids i ≡ true → IsSubtable (table.subtables i)

-- `sub'` at `j` reads as `new`, and elsewhere as `sub`.
pub record Written (sub : Subtable) (j : ℕ) (new : Option PagetableEntry) (sub' : Subtable)
    : Type 0 where
  pub valid : IsSubtable sub'
  pub reads : (l : ℕ) → in_subtable sub' l ≡ (if j == l then new else in_subtable sub l)

module _ (table : Pagetable) (sound : IsSound table) (i j : ℕ)
    (there : is_set table.valids i ≡ true) where
  pub written-IsSound :
      (new : Option PagetableEntry) (sub' : Subtable)
      → Written (table.subtables i) j new sub'
      → IsSound (with_subtable table i sub')
  written-IsSound new sub' w = record {
    main = sound.main;
    sub =
        λ k h. elim (Bool-cases (i == k)) [ inl e ↦ rw e (w.valid) | inr e ↦ rw e (sound.sub k h) ];
  }

  pub written_lem :
      (new : Option PagetableEntry) (sub' : Subtable)
      → Written (table.subtables i) j new sub'
      → (k l : ℕ)
      → in_table (with_subtable table i sub') k l
        ≡ (if (i == k && j == l) then new else in_table table k l)
  written_lem new sub' w k l = elim (Bool-cases (i == k)) [
    | inl e ↦
        let same : i ≡ k = ground arith in
        let set : is_set table.valids k ≡ true = ground arith in
        rw (e, set) (ground (arith, w.reads l))
    | inr e ↦ rw e refl
  ]

-- What pagetable_lookup returns, and the table behind it.
pub record Found (table : Pagetable) (vaddr : ℕ) (r : Option PagetableEntry × Pagetable)
    : Type 0 where
  pub result : r.0 ≡ entry_of table vaddr
  pub sound : IsSound (r.1)
  pub reads : (k l : ℕ) → in_table (r.1) k l ≡ in_table table k l

read_entry-Found :
    (table : Pagetable) (vaddr : ℕ) (o : Option PagetableEntry)
    → IsSound table
    → is_set table.valids (mainindex vaddr) ≡ true
    → is_set (table.subtables (mainindex vaddr)).valids (subindex vaddr) ≡ true
    → (table.subtables (mainindex vaddr)).entries (subindex vaddr) ≡ o
    → Ends (Found table vaddr) (read_entry table (mainindex vaddr) (subindex vaddr) o)
unfolding read_entry
read_entry-Found table vaddr none sound main valid e =
    (_, refl, record { result = ground arith; sound = sound; reads = λ k l. refl })
read_entry-Found table vaddr (some entry) sound main valid e =
    let i : ℕ = mainindex vaddr in
    let j : ℕ = subindex vaddr in
    let v = (sound.sub i main).map in
    Ends-test _ (cleared entry.flags) _ _
      (λ empty.
        Ends-seq _ _ _ _ (bitmap_unmark_lem (table.subtables i).valids (v.0) j (omega (arith, v.1)))
          (λ b u.
            let sub' : Subtable = record (table.subtables i) { valids = b } in
            let w : Written (table.subtables i) j none sub' = record {
              valid = record {
                map = (u.0, ground (arith, u.1, v.1));
                filled = λ l p h. ground (arith, u.2 l, (sound.sub i main).filled l p);
              };
              reads = λ l. ground (arith, u.2 l);
            } in
            (
              _,
              refl,
              record {
                result = ground arith;
                sound = written-IsSound table sound i j main none sub' w;
                reads = λ k l. ground (arith, written_lem table sound i j main none sub' w k l);
              },
            )))
      (λ full. (_, refl, record { result = ground arith; sound = sound; reads = λ k l. refl }))

-- pagetable_lookup on a sound table returns the entry of the page, if it has one with a flag, and NULL
-- otherwise. The table behind it is sound and has the same entries.
pub pagetable_lookup-Found :
    (table : Pagetable) (vaddr : ℕ)
    → IsSound table
    → vaddr < 2 ^ 32
    → Ends (Found table vaddr) (pagetable_lookup table vaddr)
unfolding pagetable_lookup
pagetable_lookup-Found table vaddr sound word =
    let i : ℕ = mainindex vaddr in
    let j : ℕ = subindex vaddr in
    Ends-seq _ _ _ _ (bitmap_isset_lem table.valids (sound.main.0) i (omega (arith, sound.main.1)))
      (λ m hm.
        Ends-test _ (m == 0) _ _
          (λ missing.
            (_, refl, record { result = ground arith; sound = sound; reads = λ k l. refl }))
          (λ there.
            let main : is_set table.valids i ≡ true = ground arith in
            let v = (sound.sub i main).map in
            Ends-seq _ _ _ _
              (bitmap_isset_lem (table.subtables i).valids (v.0) j (omega (arith, v.1)))
              (λ n hn.
                Ends-test _ (n == 0) _ _
                  (λ absent.
                    (_, refl, record { result = ground arith; sound = sound; reads = λ k l. refl }))
                  (λ present. read_entry-Found table vaddr _ sound main (ground arith) refl))))
