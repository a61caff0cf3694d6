-- ===== src/Client/Printing.antt =====
-- chat_client/client_service.go: PrintRecent and PrintAll.
pub mod Recent
use advanced_group_chat_syst.Base.{
  ℕ, zero, suc, ◌+◌, ◌-◌, ◌%◌, ◌^◌, String, Option, none, some, List, [], ◌∷◌, ◌++◌, length, Map,
  lookup, Result, ok, demand, ◌>>=◌, nat_eq,
}
use advanced_group_chat_syst.Pb.{Group, ChatMessage}

abbrev pub Messages : Type 0
Messages = Map ℕ (Option ChatMessage)

-- The getters on a group that may be nil.
abbrev pub get_messages : Option Group → Messages
get_messages none = []
get_messages (some g) = g.messages

-- A printed line.
pub record Line : Type 0 where
  pub number : ℕ
  pub author : String
  pub text : String
  pub likes : ℕ

-- The body of both loops: the message of a number, if there is one.
unfoldable pub print_message : Messages → ℕ → Result (List Line)
print_message messages i = elim (lookup i messages) [
  | none ↦ ok []
  | some stored ↦ do
    message ← demand stored
    author ← demand message.messaged_by
    ok (
        record {
          number = i;
          author = author.name;
          text = message.message;
          likes = length message.liked_by;
        }
        ∷ [])
]

-- `uint32(chatlength - print_recent)`: an int64 difference, cut to 32 bits.
unfoldable pub recent_index : ℕ → ℕ → ℕ
recent_index chatlength print_recent = (chatlength + 2 ^ 64 - print_recent) % 2 ^ 32

-- The loop of PrintRecent, with `print_recent` rounds left.
unfoldable pub print_recent_from : Messages → ℕ → ℕ → Result (List Line)
unfolding print_message recent_index
print_recent_from messages chatlength zero = ok []
print_recent_from messages chatlength (suc left) = do
  line ← print_message messages (recent_index chatlength (suc left))
  rest ← print_recent_from messages chatlength left
  ok (line ++ rest)

-- PrintRecent, as the lines of the messages: the two lines before them, with the name of the group and its
-- members, are left out.
unfoldable pub print_recent : Option Group → Result (List Line)
unfolding print_recent_from
print_recent group =
    let messages = get_messages group in print_recent_from messages (length messages) 10

-- The loop of PrintAll, with the rounds left and `count`.
unfoldable pub print_all_from : Messages → ℕ → ℕ → Result (List Line)
unfolding print_message
print_all_from messages zero count = ok []
print_all_from messages (suc rounds) count = do
  line ← print_message messages (count % 2 ^ 32)
  rest ← print_all_from messages rounds (suc count)
  ok (line ++ rest)

-- PrintAll, as the lines of the messages likewise.
unfoldable pub print_all : Option Group → Result (List Line)
unfolding print_all_from
print_all group = let messages = get_messages group in print_all_from messages (length messages) 0
