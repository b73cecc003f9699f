-- ===== src/Pagetable/Add.antt =====
-- pagetable_add with memory and a free swap block.
use Prim.Native.Nat.{bit_or}
use cse.Base.{
  ℕ, ◌^◌, ◌<◌, ◌≡◌, refl, Bool, true, false, ◌&&◌, Option, none, some, ◌==◌, if◌then◌else◌, Status,
  success, enospc, enomem, done, Ends, Ends-seq, Ends-test, Ends-weaken, arith, ◌>>=◌, Bool-cases,
  inl, inr, ◌∙◌,
}
use cse.Bitmap.{Bitmap, bitmap_create}
use cse.Bitmap.Byte.{bit, bit-or, bit_test, bit_zero}
use cse.Bitmap.Bits.{is_set, IsValid, Marked, bitmap_isset_lem, bitmap_mark_lem}
use cse.Bitmap.Alloc.{Allocated, bitmap_alloc_lem}
use cse.Bitmap.Create.{bitmap_create-Fresh}
use cse.Pagetable.{
  PagetableEntry, Subtable, Pagetable, mainindex, subindex, with_subtable, lock, cleared, entry_for,
  add_entry, replace_entry, add_to_subtable, add_subtable, swap_allocate, new_subtable,
  pagetable_create_subtable, pagetable_add, pagetable_lookup, Added,
}
use cse.Pagetable.Lookup.{
  in_table, entry_of, IsMap, IsSound, Written, written-IsSound, written_lem, pagetable_lookup-Found,
}

-- The flags of a new entry are not 0.
flags_set : (flags : ℕ) → flags < 256 → cleared (bit_or (bit_or flags 1) 2) ≡ false
flags_set flags small =
    let byte : bit_or flags 1 < 256 = (bit_test flags 0 small (omega arith)).1 in
    let set : bit (bit_or (bit_or flags 1) 2) 1 ≡ true =
      ground (arith, bit-or (bit_or flags 1) 1 1 byte (omega arith) (omega arith)) in
    elim (Bool-cases (cleared (bit_or (bit_or flags 1) 2))) [
      | inr e ↦ e
      | inl e ↦
          let zero_flags : bit_or (bit_or flags 1) 2 ≡ 0 = ground arith in
          absurd (cc (rw zero_flags at set, bit_zero 1 (omega arith)))
    ]

-- A swap block is taken that was free, and no other changes.
abbrev pub TakesBlock : Bitmap → ℕ → Bitmap → Type 0
TakesBlock freelist block freelist' =
    (block < freelist.nbits) × (is_set freelist block ≡ false) × Marked freelist block freelist'

abbrev pub same_page : ℕ → ℕ → Bool
same_page v w = mainindex v == mainindex w && subindex v == subindex w

-- The result of pagetable_add: the page has the new entry, every other what it had, and the lock of the
-- table is released.
pub record Put (freelist : Bitmap) (table : Pagetable) (vaddr paddr flags : ℕ) (r : Added)
    : Type 0 where
  pub block : ℕ
  pub added : r.0 ≡ true
  pub takes : TakesBlock freelist block (r.1)
  pub sound : IsSound (r.2)
  pub released : (r.2).held ≡ false
  pub reads :
      (v : ℕ)
      → entry_of (r.2) v
        ≡ (if same_page vaddr v then some (entry_for paddr block flags) else entry_of table v)

module _ (freelist : Bitmap) (free_valid : IsValid freelist) (spare : ℕ)
    (inside : spare < freelist.nbits) (vacant : is_set freelist spare ≡ false) where
  swap_allocate-Takes :
      Ends (λ r. (r.0 ≡ success) × TakesBlock freelist (r.1) (r.2)) (swap_allocate freelist)
  unfolding swap_allocate
  swap_allocate-Takes = Ends-weaken _ _ _ (bitmap_alloc_lem freelist free_valid) takes
    where
      takes :
          (r : Status × ℕ × Bitmap)
          → Allocated freelist 0 r
          → (r.0 ≡ success) × TakesBlock freelist (r.1) (r.2)
      takes (code, block, after) (inl (_, _, used)) = absurd (ground (arith, used spare))
      takes (code, block, after) (inr (e, _, below, clear, _, marked)) = (e, (below, clear, marked))

  module _ (table : Pagetable) (sound : IsSound table) (vaddr paddr flags : ℕ)
      (word : vaddr < 2 ^ 32) (byte : flags < 256)
      (main : is_set table.valids (mainindex vaddr) ≡ true) where
    abbrev old : Subtable
    old = table.subtables (mainindex vaddr)

    -- The table with the new entry in the subtable.
    put :
        (sub' : Subtable) (block : ℕ) (after : Bitmap)
        → TakesBlock freelist block after
        → Written old (subindex vaddr) (some (entry_for paddr block flags)) sub'
        → Put freelist table vaddr paddr flags
            (true, after, lock false (with_subtable table (mainindex vaddr) sub'))
    put sub' block after takes w =
        let s = written-IsSound table sound (mainindex vaddr) (subindex vaddr) main _ sub' w in
        record {
          block = block;
          added = refl;
          takes = takes;
          sound = record { main = s.main; sub = s.sub };
          released = refl;
          reads = λ v.
              written_lem table sound (mainindex vaddr) (subindex vaddr) main _ sub' w (mainindex v)
                (subindex v);
        }

    add_to_subtable-Put :
        Ends
          (Put freelist table vaddr paddr flags)
          (add_to_subtable true freelist table vaddr paddr flags)
    unfolding add_to_subtable add_entry replace_entry
    add_to_subtable-Put =
        let i : ℕ = mainindex vaddr in
        let j : ℕ = subindex vaddr in
        let s = sound.sub i main in
        Ends-seq _ _ _ _ (bitmap_isset_lem old.valids (s.map.0) j (omega (arith, s.map.1))) (λ n hn.
          Ends-test _ (n == 0) _ _
            (λ absent.
              let clear : is_set old.valids j ≡ false = ground arith in
              Ends-seq _ _ _ _ swap_allocate-Takes (λ r t. added clear r t))
            (λ present.
              let set : is_set old.valids j ≡ true = ground arith in
              Ends-seq _ _ _ _ swap_allocate-Takes (λ r t. replaced set (old.entries j) refl r t)))
      where
        added :
            is_set old.valids (subindex vaddr) ≡ false
            → (r : Status × ℕ × Bitmap) → (r.0 ≡ success) × TakesBlock freelist (r.1) (r.2)
            → Ends
                (Put freelist table vaddr paddr flags)
                (add_entry table (mainindex vaddr) (subindex vaddr) paddr flags r)
        added clear (enospc, block, after) (e, _) = absurd cc
        added clear (enomem, block, after) (e, _) = absurd cc
        added clear (success, block, after) (_, takes) =
            let s = sound.sub (mainindex vaddr) main in
            let mark =
              bitmap_mark_lem old.valids (s.map.0) (subindex vaddr) (omega (arith, s.map.1)) in
            Ends-seq _ _ _ _ (mark.0 clear) (λ v m. (
              _,
              refl,
              put _ block after takes (record {
                valid = record {
                  map = (m.0, ground (arith, m.1, s.map.1));
                  filled = λ l p h. ground (arith, m.2 l, s.filled l p);
                };
                reads = λ l. ground (arith, m.2 l, flags_set flags byte);
              }),
            ))

        replaced :
            is_set old.valids (subindex vaddr) ≡ true
            → (o : Option PagetableEntry) → old.entries (subindex vaddr) ≡ o
            → (r : Status × ℕ × Bitmap) → (r.0 ≡ success) × TakesBlock freelist (r.1) (r.2)
            → Ends
                (Put freelist table vaddr paddr flags)
                (replace_entry table (mainindex vaddr) (subindex vaddr) paddr flags o r)
        replaced set none e r t = absurd (
            ground
              (arith, (sound.sub (mainindex vaddr) main).filled (subindex vaddr) (omega arith)))
        replaced set (some x) e (enospc, block, after) (f, _) = absurd cc
        replaced set (some x) e (enomem, block, after) (f, _) = absurd cc
        replaced set (some x) e (success, block, after) (_, takes) =
            let s = sound.sub (mainindex vaddr) main in
            (
              _,
              refl,
              put _ block after takes (record {
                valid = record { map = s.map; filled = λ l p h. ground (arith, s.filled l p) };
                reads = λ l. ground (arith, flags_set flags byte);
              }),
            )

  -- A subtable without entries.
  abbrev IsEmpty : Subtable → Type 0
  IsEmpty sub = IsMap sub.valids × ((l : ℕ) → l < 1024 → is_set sub.valids l ≡ false)

  created :
      (garbage : ℕ → Option PagetableEntry)
      → Ends
          (λ made. (sub : Subtable) × (made ≡ some sub) × IsEmpty sub)
          (bitmap_create true true 1024 >>= λ b. done (new_subtable true garbage b))
  unfolding new_subtable
  created garbage = Ends-seq _ _ _ _ (bitmap_create-Fresh true true 1024) (λ o c.
      let (b, e, fresh) = c in
      rw e
        (_, refl, (record { valids = b; entries = garbage }, refl, ((fresh.0, fresh.1), fresh.2))))

  -- A new subtable has no entries for the table to read.
  new_reads :
      (table : Pagetable) (sub : Subtable)
      → IsEmpty sub
      → (v : Bitmap) (i : ℕ) → is_set table.valids i ≡ false
      → Marked table.valids i v
      → (k l : ℕ) → l < 1024
      → in_table (with_subtable (record table { valids = v }) i sub) k l ≡ in_table table k l
  new_reads table sub empty v i clear m k l inside = elim (Bool-cases (i == k)) [
    | inl e ↦
        let off : is_set table.valids k ≡ false = ground arith in
        let on : is_set v k ≡ true = ground (arith, m.2 k) in
        let no_entries : is_set sub.valids l ≡ false = empty.1 l inside in
        rw (on, e, off, no_entries) refl
    | inr e ↦
        let same : is_set v k ≡ is_set table.valids k = ground (arith, m.2 k) in rw (same, e) refl
  ]

  with_new :
      (table : Pagetable) (sound : IsSound table) (vaddr : ℕ)
      → is_set table.valids (mainindex vaddr) ≡ false
      → (sub : Subtable) → IsEmpty sub
      → (v : Bitmap) → Marked table.valids (mainindex vaddr) v
      → (paddr flags : ℕ) → vaddr < 2 ^ 32
      → flags < 256
      → Ends (Put freelist table vaddr paddr flags) (
          add_to_subtable true freelist
            (with_subtable (record table { valids = v }) (mainindex vaddr) sub)
            vaddr
            paddr
            flags)
  with_new table sound vaddr clear sub empty v m paddr flags word byte =
      let i : ℕ = mainindex vaddr in
      let next : Pagetable = with_subtable (record table { valids = v }) i sub in
      let set : is_set v i ≡ true = ground (arith, m.2 i) in
      let s : IsSound next = record {
        main = (m.0, ground (arith, m.1, sound.main.1));
        sub = λ k h. elim (Bool-cases (i == k)) [
          | inl e ↦ rw e record { map = empty.0; filled = λ l p q. absurd (cc (empty.1 l p)) }
          | inr e ↦ rw e (sound.sub k (ground (arith, m.2 k)))
        ];
      } in
      Ends-weaken (Put freelist next vaddr paddr flags) _ _
        (add_to_subtable-Put next s vaddr paddr flags word byte set)
        (λ r p. record {
          block = p.block;
          added = p.added;
          takes = p.takes;
          sound = p.sound;
          released = p.released;
          reads = λ w.
              let read = p.reads w in
              let kept =
                new_reads table sub empty v (mainindex vaddr) clear m (mainindex w) (subindex w)
                  (omega arith) in
              ground (arith, read, kept);
        })

  -- Where kmalloc finds memory, a swap block is free and no other thread changes the table during the
  -- call, pagetable_add on a sound table returns true. The
  -- page of the address then has an entry with the frame, a block that was free, and the flags with
  -- those for a valid page in memory; every other page has the entry that it had, and the lock of the
  -- table is released.
  pub pagetable_add-Put :
      (mem : ℕ → Bool) (garbage : ℕ → Option PagetableEntry) (meanwhile : Pagetable → Pagetable)
      (table : Pagetable) (vaddr paddr flags : ℕ)
      → ((n : ℕ) → mem n ≡ true)
      → meanwhile table ≡ table
      → IsSound table
      → vaddr < 2 ^ 32
      → flags < 256
      → Ends
          (Put freelist table vaddr paddr flags)
          (pagetable_add mem garbage meanwhile freelist table vaddr paddr flags)
  unfolding pagetable_add add_subtable pagetable_create_subtable new_subtable
  pagetable_add-Put mem garbage meanwhile table vaddr paddr flags plenty alone sound word byte =
      let i : ℕ = mainindex vaddr in
      rw
        (
          plenty 0,
          plenty 1,
          plenty 2,
          plenty 3,
          plenty 4,
          alone,
          pagetable_add,
          pagetable_create_subtable,
        )
        (Ends-seq _ _ _ _
          (bitmap_isset_lem table.valids (sound.main.0) i (omega (arith, sound.main.1)))
          (λ n hn.
            Ends-test _ (n == 0) _ _
              (λ missing. Ends-seq _ _ _ _ (created garbage) (λ made c.
                let (sub, e, fresh) = c in
                rw e (
                  Ends-seq _ _ _ _
                    (bitmap_isset_lem table.valids (sound.main.0) i (omega (arith, sound.main.1)))
                    (λ again h.
                      Ends-test _ (again == 0) _ _
                        (λ still.
                          Ends-seq _ _ _ _
                            ((bitmap_mark_lem table.valids (sound.main.0) i
                                (omega (arith, sound.main.1))).0
                              (ground arith))
                            (λ v m.
                              let clear : is_set table.valids i ≡ false = ground arith in
                              with_new table sound vaddr clear sub fresh v m paddr flags word byte))
                        (λ raced. absurd (ground arith))))))
              (λ there.
                add_to_subtable-Put table sound vaddr paddr flags word byte (ground arith))))

  -- Where kmalloc finds memory, a swap block is free and no other thread changes the table during the
  -- call, pagetable_lookup behind pagetable_add on a sound
  -- table returns, for an address in the same page, an entry with the frame that was added, a swap block
  -- that was free, and the flags with those for a valid page in memory; for any other address it returns
  -- what it did before.
  pub pagetable_lookup-add :
      (mem : ℕ → Bool) (garbage : ℕ → Option PagetableEntry) (meanwhile : Pagetable → Pagetable)
      (table : Pagetable) (vaddr paddr flags v : ℕ)
      → ((n : ℕ) → mem n ≡ true)
      → meanwhile table ≡ table
      → IsSound table
      → vaddr < 2 ^ 32
      → flags < 256
      → v < 2 ^ 32
      → Ends
          (λ r.
            (block : ℕ) × (is_set freelist block ≡ false)
            × (r.0 ≡ (
                if same_page vaddr v
                then some (entry_for paddr block flags)
                else entry_of table v)))
          (pagetable_add mem garbage meanwhile freelist table vaddr paddr flags >>= λ a.
            pagetable_lookup (a.2) v)
  pagetable_lookup-add mem garbage meanwhile table vaddr paddr flags v plenty alone sound word byte
        other =
      Ends-seq _ _ _ _
        (pagetable_add-Put mem garbage meanwhile table vaddr paddr flags plenty alone sound word
          byte)
        (λ a p.
          Ends-weaken _ _ _ (pagetable_lookup-Found (a.2) v p.sound other)
            (λ r f. (p.block, (p.takes).1, f.result ∙ p.reads v)))
