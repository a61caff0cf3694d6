-- ===== src/Base/Slices.antt =====
-- Go slices: indexing and slicing with an int64, with the panic out of range.
use Prim.Native.Nat.{ℕ, zero, suc}
use mathlib.Core.List.{List}
use advanced_group_chat_syst.Base.Tests.{leb, if◌then◌else◌}
use advanced_group_chat_syst.Base.Lists.{length, get_elem?, take, drop}
use advanced_group_chat_syst.Base.Results.{Result, ok, panic, demand}
use advanced_group_chat_syst.Base.Int.{ℤ, pos, negsuc}

-- i + 1 as an index: with i = -1 the start of the list, and no index at all below that.
abbrev pub slot_after : ℤ → Result ℕ
slot_after (pos n) = ok (suc n)
slot_after (negsuc zero) = ok 0
slot_after (negsuc (suc n)) = panic

module _ {ℓ} {A : Type ℓ} where
  -- xs[i]
  abbrev pub index : List A → ℤ → Result A
  index xs (pos n) = demand (get_elem? xs n)
  index xs (negsuc n) = panic

  -- xs[i:]
  abbrev pub slice_from : List A → ℤ → Result (List A)
  slice_from xs (pos n) = if leb n (length xs) then ok (drop n xs) else panic
  slice_from xs (negsuc n) = panic

  -- xs[lo:hi]. Go lets `hi` reach the capacity; past the length that would show old memory, and
  -- here it is a panic.
  abbrev pub slice : List A → ℕ → ℕ → Result (List A)
  slice xs lo hi =
      if leb hi (length xs) then (if leb lo hi then ok (drop lo (take hi xs)) else panic) else panic
