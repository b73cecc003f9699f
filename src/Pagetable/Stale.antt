-- ===== src/Pagetable/Stale.antt =====
-- pagetable_lookup on an entry that coremap_swap_page_out has invalidated.
use Prim.Native.Nat.{bit_and}
use cse.Base.{
  ℕ, ◌^◌, ◌<◌, ◌≡◌, refl, Bool, true, false, not, ◌&&◌, ◌||◌, some, ◌==◌, arith, ◌∙◌, Ends,
  Ends-weaken,
}
use cse.Bitmap.Byte.{every, every_at}
use cse.Bitmap.Bits.{is_set}
use cse.Pagetable.{
  PagetableEntry, Pagetable, mainindex, subindex, pagetable_valid, pagetable_request_free,
  swapped_out, cleared, pagetable_lookup,
}
use cse.Pagetable.Lookup.{IsSound, entry_of, pagetable_lookup-Found}

-- The request to free stays among the flags, and the valid flag does not.
stale_flags : ℕ → Bool
stale_flags flags =
    bit_and flags pagetable_request_free == 0
    || (not (cleared (swapped_out flags)) && bit_and (swapped_out flags) pagetable_valid == 0)

stale_table : every 256 stale_flags ≡ true
unfolding every stale_flags
stale_table = refl

stale_lem :
    (flags : ℕ)
    → flags < 256
    → (bit_and flags pagetable_request_free == 0) ≡ false
    → (cleared (swapped_out flags) ≡ false) × (bit_and (swapped_out flags) pagetable_valid ≡ 0)
unfolding stale_flags
stale_lem flags byte requested =
    let fact = every_at 256 stale_flags flags stale_table byte in ground (arith, fact)

-- Let a page of a sound table have an entry whose flags are those that coremap_swap_page_out leaves
-- where the page was to be freed. The entry is not valid, and pagetable_lookup returns it.
pub pagetable_lookup-Stale :
    (table : Pagetable) (vaddr flags : ℕ) (entry : PagetableEntry)
    → IsSound table
    → vaddr < 2 ^ 32
    → flags < 256
    → (bit_and flags pagetable_request_free == 0) ≡ false
    → entry.flags ≡ swapped_out flags
    → is_set table.valids (mainindex vaddr) ≡ true
    → is_set (table.subtables (mainindex vaddr)).valids (subindex vaddr) ≡ true
    → (table.subtables (mainindex vaddr)).entries (subindex vaddr) ≡ some entry
    → (bit_and entry.flags pagetable_valid ≡ 0)
      × Ends (λ r. r.0 ≡ some entry) (pagetable_lookup table vaddr)
pagetable_lookup-Stale table vaddr flags entry sound word byte requested left main valid stands =
    let facts = stale_lem flags byte requested in
    let kept : cleared entry.flags ≡ false = rw left (facts.0) in
    let here : entry_of table vaddr ≡ some entry = rw (main, valid, stands) (rw kept refl) in
    (
      rw left (facts.1),
      Ends-weaken _ _ _ (pagetable_lookup-Found table vaddr sound word) (λ r f. f.result ∙ here),
    )
