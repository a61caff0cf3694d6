-- ===== src/Storage/Messages/Numbers.antt =====
-- Message numbers: a group's messages are numbered from 0 on, with no gap.
use advanced_group_chat_syst.Base.{
  ℕ, suc, ◌%◌, ◌^◌, ◌<◌, ◌≤◌, ◌≡◌, ◌≢◌, Option, none, some, length, Map, lookup, insert, nat_eq,
  string_eq, lookup-insert, length-insert_new, arith,
}
use advanced_group_chat_syst.Pb.{ChatMessage, Group}
use advanced_group_chat_syst.Storage.Messages.{add_message}

-- There is a message at every number below the count, and none from there on.
pub record IsNumbered (messages : Map ℕ (Option ChatMessage)) : Type 0 where
  pub below : (i : ℕ) → i < length messages → lookup i messages ≢ none
  pub above : (i : ℕ) → length messages ≤ i → lookup i messages ≡ none

mod_small : (n : ℕ) → n < 2 ^ 32 → n % 2 ^ 32 ≡ n
mod_small n h = omega arith

module _ (message : Option ChatMessage) (messages : Map ℕ (Option ChatMessage))
    (numbered : IsNumbered messages) where
  abbrev appended : Map ℕ (Option ChatMessage)
  appended = insert (length messages) message messages

  length-appended : length appended ≡ suc (length messages)
  length-appended =
      length-insert_new (length messages) message messages
        (numbered.above (length messages) (omega arith))

  lookup-appended : (i : ℕ) → i ≢ length messages → lookup i appended ≡ lookup i messages
  lookup-appended i other = ground (arith, lookup-insert (length messages) i message messages)

  appended-IsNumbered : IsNumbered appended
  appended-IsNumbered = record {
    below = λ i lt. ground (
      arith,
      lookup-insert (length messages) i message messages,
      numbered.below i,
      length-appended,
    );
    above = λ i le. ground (
      arith,
      lookup-insert (length messages) i message messages,
      numbered.above i,
      length-appended,
    );
  }

-- With room for one more number, a new message gets the number that is the count so far; every other
-- number keeps its message, the count grows by one, and the numbers still have no gap.
pub add_message-IsNumbered :
    (message : Option ChatMessage) (group : Group)
    → IsNumbered group.messages
    → length group.messages < 2 ^ 32
    → let group' = add_message message group in
      IsNumbered group'.messages
      × (length group'.messages ≡ suc (length group.messages))
      × (lookup (length group.messages) group'.messages ≡ some message)
      × ((i : ℕ) → i ≢ length group.messages → lookup i group'.messages ≡ lookup i group.messages)
unfolding add_message
add_message-IsNumbered message group numbered room = rw (mod_small (length group.messages) room) (
  appended-IsNumbered message group.messages numbered,
  length-appended message group.messages numbered,
  ground
      (arith, lookup-insert (length group.messages) (length group.messages) message group.messages),
  lookup-appended message group.messages numbered,
)
