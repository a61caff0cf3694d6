-- ===== src/Tests/Chats.antt =====
-- Groups, broadcasts and typed lines at concrete states.
use advanced_group_chat_syst.Base.{
  if◌then◌else◌, ◌-◌, delete, ℕ, String, Bool, true, false, ◌>>=◌, ◌≡◌, ◌≢◌, refl, List, [], ◌∷◌,
  length, map, lookup, insert, nat_eq, string_eq, eq_iff, nat_beq, ◌==◌, ok, none, some, arith,
}
use advanced_group_chat_syst.Pb.{User, Group, ChatMessage, append_request}
use advanced_group_chat_syst.Storage.Messages.{add_message, add_like, remove_like}
use advanced_group_chat_syst.Storage.Messages.Likes.{Stored, unlike-like}
use advanced_group_chat_syst.Storage.Messages.Numbers.{IsNumbered, add_message-IsNumbered}
use advanced_group_chat_syst.Storage.Disk.{
  update_group, remove_user_in_group, join_group, create_group, get_group, participant,
}
use advanced_group_chat_syst.Storage.Disk.Membership.{here}
use advanced_group_chat_syst.Server.Connections.{ConnStore}
use advanced_group_chat_syst.Server.Chat.{broadcast}
use advanced_group_chat_syst.Server.Chat.Delivery.{broadcast_reaches, targets, told}
use advanced_group_chat_syst.Server.Persist.{persist_join}
use advanced_group_chat_syst.Server.Persist.Moves.{join_moves}
use advanced_group_chat_syst.Client.Text.{trim_line}
use advanced_group_chat_syst.Client.Commands.{process_message, no_rpc}
use advanced_group_chat_syst.Client.Commands.Typed.{typed_append}
use advanced_group_chat_syst.Client.Printing.{print_recent, print_all_from}
use advanced_group_chat_syst.Client.Printing.Recent.{least, print_recent_last}
use advanced_group_chat_syst.Server.Peers.{connect_all, get_active_peers, peer_ids}
use advanced_group_chat_syst.Server.Peers.Active.{up_among, connected_active}
use advanced_group_chat_syst.Tests.Memory.{memory, memory-IsLawful, group_bytes}

differ : (a c : String) → (a == c) ≡ false → a ≢ c
differ a c h e = ground (arith, (eq_iff a c).1 e)

abbrev ann : User
ann = record { id = 7; name = "ann" }

abbrev bob : User
bob = record { id = 8; name = "bob" }

abbrev hello : ChatMessage
hello = record { messaged_by = some ann; message = "hello"; liked_by = [] }

abbrev chat : Group
chat = record {
  group_id = 12;
  groupname = "go";
  participants = (7, "ann") ∷ (8, "bob") ∷ [];
  messages = (0, some hello) ∷ [];
}

hello-Stored : Stored 0 chat hello ann
unfolding lookup
hello-Stored = record { found = refl; by = refl }

not_liked : lookup "bob" hello.liked_by ≡ none
unfolding lookup
not_liked = refl

unlike-like_example :
    (group' : Group) × (add_like (some bob) 0 chat ≡ ok (some group'))
    × (add_like (some bob) 0 group' ≡ ok none)
    × (remove_like (some bob) 0 group' ≡ ok (some chat))
unlike-like_example =
    unlike-like 0 chat hello ann bob hello-Stored (differ "ann" "bob" refl) not_liked

chat-IsNumbered : IsNumbered chat.messages
unfolding lookup
chat-IsNumbered = record { below = λ i lt. ground arith; above = λ i le. ground arith }

add_message-IsNumbered_example :
    let group' = add_message (some hello) chat in
    IsNumbered group'.messages
    × (length group'.messages ≡ 2)
    × (lookup 1 group'.messages ≡ some (some hello))
    × ((i : ℕ) → i ≢ 1 → lookup i group'.messages ≡ lookup i chat.messages)
add_message-IsNumbered_example =
    add_message-IsNumbered (some hello) chat chat-IsNumbered (omega arith)

abbrev disk : memory.Store
disk = ("go", group_bytes chat) ∷ []

-- Stream 3 has ended, stream 4 is in another group.
abbrev streams : ConnStore
streams =
    (2, record { group = "go"; name = "ann" })
    ∷ (3, record { group = "go"; name = "bob" })
    ∷ (4, record { group = "rust"; name = "eve" })
    ∷ []

abbrev ended : ℕ → Bool
ended i = nat_beq i 3

broadcast_reaches_example :
    let (conns', sent) = broadcast memory (4 ∷ 3 ∷ 2 ∷ []) ended "go" disk streams in
    (map (λ p. p.0) sent ≡ targets ended "go" streams (4 ∷ 3 ∷ 2 ∷ []))
    × (map (λ p. p.1) sent
        ≡ map (λ stream. told memory ended "go" disk) (targets ended "go" streams (4 ∷ 3 ∷ 2 ∷ [])))
    × ((i : ℕ) → ended i ≡ false → lookup i conns' ≡ lookup i streams)
broadcast_reaches_example = broadcast_reaches memory ended "go" disk (4 ∷ 3 ∷ 2 ∷ []) streams

abbrev bob_left : Group
bob_left = record chat { participants = (7, "ann") ∷ [] }

abbrev rust : Group
rust = record { group_id = 20; groupname = "rust"; participants = (8, "bob") ∷ []; messages = [] }

abbrev after_move : memory.Store
after_move = ("go", group_bytes bob_left) ∷ ("rust", group_bytes rust) ∷ []

abbrev both : List String
both = "go" ∷ "rust" ∷ []

moves :
    persist_join memory 20
      (some (record { joineduser = some bob; newgroup = "rust"; currgroup = "go" }))
      disk
    ≡ ok (after_move, both)
unfolding persist_join remove_user_in_group get_group lookup update_group join_group insert
    create_group delete
moves = refl

join_moves_example :
    ((g : Group) × (get_group memory "rust" after_move ≡ here g)
      × (lookup 8 g.participants ≡ some "bob"))
    × ((g : Group) → get_group memory "go" after_move ≡ here g → participant 8 g ≡ "")
    × (both ≡ "go" ∷ "rust" ∷ [])
    × ((j : String)
        → "rust" ≢ j
        → "go" ≢ j
        → get_group memory j after_move ≡ get_group memory j disk)
join_moves_example =
    join_moves memory memory-IsLawful 20 bob "rust" "go" disk after_move both
      (differ "rust" "go" refl) moves

typed : trim_line "a hello  all\r\n" ≡ "a hello  all"
unfolding trim_line
typed = refl

typed_append_example :
    process_message "a hello  all\r\n" (record { active_user = ann; group = some chat })
    ≡ ok (record {
      store = record { active_user = ann; group = some chat };
      request = append_request (record {
        chatmessage =
            some (record { messaged_by = some ann; message = "hello  all"; liked_by = [] });
        group = some chat;
      });
      cmd = "a";
      rpc = no_rpc;
    })
typed_append_example =
    typed_append "a hello  all\r\n" "hello  all" ann chat typed (differ "ann" "" refl)
      (differ "go" "" refl)

-- Peer 4 cannot be reached.
abbrev states : ℕ → String
states p = if nat_beq p 4 then "TRANSIENT_FAILURE" else if nat_beq p 5 then "IDLE" else "READY"

connected_active_example :
    (connect_all (λ p. true) (peer_ids 2) [] >>= λ connected. get_active_peers states 2 connected)
    ≡ ok (up_among states (peer_ids 2))
connected_active_example = connected_active (λ p. true) states 2 [] (λ p i. refl)

print_recent_last_example :
    print_recent (some chat)
    ≡ print_all_from chat.messages
        (least 10 (length chat.messages))
        (length chat.messages - least 10 (length chat.messages))
print_recent_last_example = print_recent_last chat chat-IsNumbered (omega arith)
