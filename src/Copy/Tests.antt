-- ===== src/Copy/Tests.antt =====
-- Copies at concrete addresses: a string at 2 ^ 31 + 100 in kernel memory, and a user buffer that
-- runs into kernel memory.
use cse.Base.{◌↔◌, ℕ, ◌+◌, ◌-◌, ◌^◌, ◌≡◌, inr, refl, Bool, true, some, ◌==◌, if◌then◌else◌, arith}
use cse.Copy.{
  Mem, success, efault, enametoolong, copycheck, memcpy, copyin, copyout, copystr, copystr_loop,
  copyoutstr, ran_out, copyinstr,
}
use cse.Copy.Bounds.{copies-Confined, Fits}

abbrev all : ℕ → Bool
all a = true

-- Two letters and the terminator in kernel memory.
abbrev text : Mem
text a = if a == 2 ^ 31 + 100 then 72 else if a == 2 ^ 31 + 101 then 105 else 0

whole_string : (copyoutstr all (2 ^ 31 + 100) 16 8 text).0 ≡ success
unfolding copyoutstr copycheck copystr copystr_loop
whole_string = refl

string_length : (copyoutstr all (2 ^ 31 + 100) 16 8 text).1 ≡ some 3
unfolding copyoutstr copycheck copystr copystr_loop
string_length = refl

-- With room for two bytes the name is too long; two bytes below USERSPACETOP it runs into the kernel.
too_long : (copyoutstr all (2 ^ 31 + 100) 16 2 text).0 ≡ enametoolong
unfolding copyoutstr copycheck copystr copystr_loop ran_out
too_long = refl

into_kernel : (copyoutstr all (2 ^ 31 + 100) (2 ^ 31 - 2) 8 text).0 ≡ efault
unfolding copyoutstr copycheck copystr copystr_loop ran_out
into_kernel = refl

string_in : (copyinstr all 16 (2 ^ 31) 8 text).1 ≡ some 1
unfolding copyinstr copycheck copystr copystr_loop
string_in = refl

-- A copy of no bytes is refused.
nothing_in : (copyin all 16 (2 ^ 31) 0 text).0 ≡ efault
unfolding copyin copycheck
nothing_in = refl

block_out : (copyout all (2 ^ 31 + 100) 16 2 text).1 17 ≡ 105
unfolding copyout copycheck memcpy
block_out = refl

copies-Confined_example :
    (((copyout all (2 ^ 31 + 100) (2 ^ 31 - 2) 8 text).0 ≡ success) ↔ Fits all (2 ^ 31 - 2) 8)
    × ((copyout all (2 ^ 31 + 100) (2 ^ 31 - 2) 8 text).1 (2 ^ 31 + 1) ≡ text (2 ^ 31 + 1))
    × ((copyoutstr all (2 ^ 31 + 100) (2 ^ 31 - 2) 8 text).2 (2 ^ 31 + 1) ≡ text (2 ^ 31 + 1))
copies-Confined_example =
    copies-Confined all (2 ^ 31 + 100) (2 ^ 31 - 2) 8 text (omega arith) (2 ^ 31 + 1)
      (inr (inr (omega arith))) (omega arith)
