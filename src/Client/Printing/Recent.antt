-- ===== src/Client/Printing/Recent.antt =====
-- PrintRecent prints the last messages.
use advanced_group_chat_syst.Base.{
  ℕ, zero, suc, ◌+◌, ◌-◌, ◌%◌, ◌^◌, ◌≤◌, ◌<◌, leb, ◌≡◌, refl, sym, ap, ◌∙◌, inl, inr, Bool-cases,
  List, [], ◌++◌, length, none, some, lookup, nat_eq, Result, ok, panic, ◌>>=◌, if◌then◌else◌,
  arith,
}
use advanced_group_chat_syst.Pb.{Group}
use advanced_group_chat_syst.Storage.Messages.Numbers.{IsNumbered}
use advanced_group_chat_syst.Client.Printing.{
  Messages, Line, print_message, recent_index, print_recent_from, print_recent, print_all_from,
}

abbrev pub least : ℕ → ℕ → ℕ
least a b = if leb a b then a else b

print_none :
    (messages : Messages) (i : ℕ) → lookup i messages ≡ none → print_message messages i ≡ ok []
unfolding print_message
print_none messages i h = ground (arith, h)

skip_line : (r : Result (List Line)) → (r >>= λ rest. ok ([] ++ rest)) ≡ r
skip_line (ok x) = refl
skip_line panic = refl

-- A round before the first message, and a round for a message.
index_before : (n k : ℕ) → n < k → k ≤ 10 → n + 10 ≤ 2 ^ 32 → n ≤ recent_index n k
unfolding recent_index
index_before n k h small room = omega arith

index_at : (n k : ℕ) → k ≤ n → n < 2 ^ 32 → recent_index n k ≡ (n - k) % 2 ^ 32
unfolding recent_index
index_at n k h room = omega arith

-- One round of each loop.
abbrev joined : Result (List Line) → Result (List Line) → Result (List Line)
joined first rest = do line ← first; lines ← rest; ok (line ++ lines)

recent_step :
    (messages : Messages) (n left : ℕ)
    → print_recent_from messages n (suc left)
      ≡ joined
          (print_message messages (recent_index n (suc left)))
          (print_recent_from messages n left)
unfolding print_recent_from
recent_step messages n left = refl

all_step :
    (messages : Messages) (rounds count : ℕ)
    → print_all_from messages (suc rounds) count
      ≡ joined
          (print_message messages (count % 2 ^ 32))
          (print_all_from messages rounds (suc count))
unfolding print_all_from
all_step messages rounds count = refl

-- The last `k` messages, by the loop of PrintAll.
abbrev pub last_lines : Messages → ℕ → Result (List Line)
last_lines messages k = print_all_from messages k (length messages - k)

last_step :
    (messages : Messages) (left : ℕ)
    → suc left ≤ length messages
    → last_lines messages (suc left)
      ≡ joined
          (print_message messages ((length messages - suc left) % 2 ^ 32))
          (last_lines messages left)
last_step messages left inside =
    all_step messages left (length messages - suc left)
    ∙ ap
        (λ k.
          joined (print_message messages ((length messages - suc left) % 2 ^ 32))
            (print_all_from messages left k))
        (let e : suc (length messages - suc left) ≡ length messages - left = omega arith in e)

recent_from_lem :
    (messages : Messages) (left : ℕ)
    → IsNumbered messages
    → left ≤ 10
    → length messages + 10 ≤ 2 ^ 32
    → print_recent_from messages (length messages) left
      ≡ last_lines messages (least left (length messages))
recent_from_lem messages zero numbered small room =
    unfold print_recent_from print_all_from in ground arith
recent_from_lem messages (suc left) numbered small room =
    let n = length messages in
    let before = recent_from_lem messages left numbered (omega arith) room in
    elim (Bool-cases (leb (suc left) n)) [
      | inl inside ↦
          let most : least left n ≡ left = ground arith in
          let more : least (suc left) n ≡ suc left = ground arith in
          recent_step messages n left
          ∙ ap (λ i. joined (print_message messages i) (print_recent_from messages n left))
              (index_at n (suc left) (ground arith) (omega arith))
          ∙ ap (joined (print_message messages ((n - suc left) % 2 ^ 32)))
              (before ∙ ap (last_lines messages) most)
          ∙ sym (last_step messages left (ground arith))
          ∙ ap (last_lines messages) (sym more)
      | inr outside ↦
          let most : least left n ≡ n = ground arith in
          let more : least (suc left) n ≡ n = ground arith in
          recent_step messages n left
          ∙ ap (λ first. joined first (print_recent_from messages n left))
              (print_none messages (recent_index n (suc left)) (
                numbered.above (recent_index n (suc left))
                  (index_before n (suc left) (ground arith) small room)))
          ∙ skip_line (print_recent_from messages n left)
          ∙ before
          ∙ ap (last_lines messages) (most ∙ sym more)
    ]

-- For a group whose messages are numbered with no gap, up to 2^32 - 10 of them, PrintRecent prints
-- what the loop of PrintAll prints over the last ten messages, or over all if they are fewer.
pub print_recent_last :
    (group : Group)
    → IsNumbered group.messages
    → length group.messages + 10 ≤ 2 ^ 32
    → print_recent (some group)
      ≡ print_all_from group.messages
          (least 10 (length group.messages))
          (length group.messages - least 10 (length group.messages))
unfolding print_recent
print_recent_last group numbered room =
    recent_from_lem group.messages 10 numbered (omega arith) room
