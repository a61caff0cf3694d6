-- ===== src/Raft/Append/MergeLaws.antt =====
-- What the merged log keeps of the old entries and takes from the new ones.
use advanced_group_chat_syst.Base.{
  ℕ, zero, suc, ◌≤◌, ◌<◌, beq_ℤ, beq_ℤ_iff, ◌≡◌, refl, ap, List, [], ◌∷◌, length, get_elem?, take,
  some, Bool-cases, inl, inr, arith, take-ge,
}
use advanced_group_chat_syst.Pb.{LogEntry}
use advanced_group_chat_syst.Raft.Append.Merge.{merge}

pub length-le-merge : (s es : List LogEntry) → length es ≤ length (merge s es)
unfolding merge
length-le-merge [] es = omega arith
length-le-merge (f ∷ s) [] = omega arith
length-le-merge (f ∷ s) (e ∷ es) = ground (arith, length-le-merge s es)

merge_self : (es : List LogEntry) → merge es es ≡ es
unfolding merge
merge_self [] = refl
merge_self (e ∷ es) = ground (arith, merge_self es)

pub merge_idem : (s es : List LogEntry) → merge (merge s es) es ≡ merge s es
unfolding merge
merge_idem [] es = merge_self es
merge_idem (f ∷ s) [] = refl
merge_idem (f ∷ s) (e ∷ es) = ground (arith, merge_idem s es, merge_self es)

-- At each index below `n` where both lists have an entry, the terms agree.
abbrev pub Agrees : ℕ → List LogEntry → List LogEntry → Type 0
Agrees n s es =
    (i : ℕ) (f e : LogEntry)
    → i < n
    → get_elem? s i ≡ some f
    → get_elem? es i ≡ some e
    → f.term ≡ e.term

pub take-merge :
    (n : ℕ) (s es : List LogEntry) → n ≤ length s → Agrees n s es → take n (merge s es) ≡ take n s
unfolding merge
take-merge zero s es h a = refl
take-merge (suc n) [] es h a = absurd (omega arith)
take-merge (suc n) (f ∷ s) [] h a = refl
take-merge (suc n) (f ∷ s) (e ∷ es) h a =
    rw ((beq_ℤ_iff f.term e.term).1 (a 0 f e (omega arith) refl refl))
      (ap (λ l. f ∷ l) (take-merge n s es (omega arith) (λ i g d lt. a (suc i) g d (omega arith))))

-- Where equal terms mean equal entries, the merged list begins with the new entries.
abbrev pub Determined : List LogEntry → List LogEntry → Type 0
Determined s es =
    (i : ℕ) (f e : LogEntry)
    → get_elem? s i ≡ some f
    → get_elem? es i ≡ some e
    → f.term ≡ e.term
    → f ≡ e

pub take-merge_new : (s es : List LogEntry) → Determined s es → take (length es) (merge s es) ≡ es
unfolding merge
take-merge_new [] es d = take-ge (length es) es (omega arith)
take-merge_new (f ∷ s) [] d = refl
take-merge_new (f ∷ s) (e ∷ es) d = elim (Bool-cases (beq_ℤ f.term e.term)) [
  | inl same ↦
      rw (same, take-merge_new s es (λ i g c. d (suc i) g c))
        (ap (λ x. x ∷ es) (d 0 f e refl refl ((beq_ℤ_iff f.term e.term).0 same)))
  | inr other ↦ rw (other, take-ge (length es) es (omega arith))
]
