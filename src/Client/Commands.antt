-- ===== src/Client/Commands.antt =====
-- chat_client/client_service.go and client_store.go: the client's state and ProcessMessage.
pub mod Typed
pub mod Numbers
use advanced_group_chat_syst.Base.{
  ℕ, ◌%◌, ◌^◌, nat_beq, String, Bool, true, false, Option, none, some, List, [], ◌∷◌, Result, ok,
  panic, demand, ◌>>=◌, string_eq, ◌==◌, if◌then◌else◌,
}
use advanced_group_chat_syst.Pb.{
  User, Group, ChatMessage, Logout, GroupChatRequest, no_request, append_request, like_request,
  unlike_request, print_request, join_request, GroupChatResponse,
}
use advanced_group_chat_syst.Client.Text.{trim_line, trim_space, split, join, parse_uint}

-- InMemoryClientStore: the user is never nil, the group is what the last response of a join held.
pub record ClientStore : Type 0 where
  pub active_user : User
  pub group : Option Group

-- NewInMemoryClientStore
unfoldable pub new_client_store : ClientStore
new_client_store = record {
  active_user = record { id = 0; name = "" };
  group = some (record { group_id = 0; groupname = ""; participants = []; messages = [] });
}

-- UserLogin, once the RPC has returned; `id` is what uuid.New().ID() gave.
unfoldable pub user_login : ℕ → String → ClientStore → ClientStore
user_login id name store = record store { active_user = record { id = id; name = name } }

-- UserLogout: the request that is sent, unless nobody is logged in, and the store after it.
unfoldable pub user_logout : ClientStore → Result (ClientStore × Option Logout)
user_logout store = do
  group ← demand store.group
  if nat_beq store.active_user.id 0
      then ok (store, none)
      else ok (
        record store { active_user = record { id = 0; name = "" } },
        some (record { user = some store.active_user; currgroup = group.groupname }),
      )

-- What ProcessMessage does: the store, the request, the command word, and the RPCs that it makes.
pub data Rpc : Type 0 where
  no_rpc : Rpc
  logout_rpc : Option Logout → Rpc
  server_view_rpc : Rpc

pub record Processed : Type 0 where
  pub store : ClientStore
  pub request : GroupChatRequest
  pub cmd : String
  pub rpc : Rpc

abbrev plain : ClientStore → GroupChatRequest → String → Result Processed
plain store request cmd = ok (record { store = store; request = request; cmd = cmd; rpc = no_rpc })

-- The guard of "a" and "l": a user, and a group that has a name.
unfoldable pub if_in_group : ClientStore → String → (Group → GroupChatRequest) → Result Processed
if_in_group store cmd request =
    if store.active_user.name == "" then plain store no_request cmd else do
      group ← demand store.group
      if group.groupname == "" then plain store no_request cmd else plain store (request group) cmd

unfoldable pub process_join : String → ClientStore → Result Processed
process_join newgroup store = do
  group ← demand store.group
  plain store
      (join_request (record {
        joineduser = some store.active_user;
        newgroup = newgroup;
        currgroup = if nat_beq group.group_id 0 then "None" else group.groupname;
      }))
      "j"

-- The switch of ProcessMessage, on the command word and the rest of the line.
unfoldable pub run_command : String → String → ClientStore → Result Processed
unfolding if_in_group process_join user_logout parse_uint
run_command cmd msg store =
    if cmd == "a"
    then if_in_group store cmd (λ group. append_request (record {
      chatmessage =
          some (record { messaged_by = some store.active_user; message = msg; liked_by = [] });
      group = some group;
    }))
    else if cmd == "l"
    then if_in_group store cmd (λ group. like_request (record {
      likeduser = some store.active_user;
      messageid = parse_uint msg;
      group = some group;
    }))
    else if cmd == "r"
    then plain store
        (unlike_request (record {
          unlikeduser = some store.active_user;
          messageid = parse_uint msg;
          group = store.group;
        }))
        cmd
    else if cmd == "p"
    then (do
      group ← demand store.group
      plain store
          (print_request (record { user = some store.active_user; groupname = group.groupname }))
          cmd)
    else if cmd == "j"
    then process_join msg store
    else if cmd == "q"
    then (do
      (store', request) ← user_logout store
      ok (record { store = store'; request = no_request; cmd = cmd; rpc = logout_rpc request }))
    else if cmd == "v"
    then ok (record { store = store; request = no_request; cmd = cmd; rpc = server_view_rpc })
    else plain store no_request cmd

abbrev pub first_word : List String → String
first_word [] = ""
first_word (w ∷ ws) = w

abbrev pub other_words : List String → List String
other_words [] = []
other_words (w ∷ ws) = ws

-- ProcessMessage
unfoldable pub process_message : String → ClientStore → Result Processed
unfolding run_command trim_line trim_space split join
process_message line store =
    let args = split (trim_line line) in
    run_command (trim_space (first_word args)) (join (other_words args)) store

-- The receiving goroutine of JoinGroupChat: a response to a join sets the group.
unfoldable pub receive_response : GroupChatResponse → ClientStore → ClientStore
receive_response response store =
    if response.event == "j" then record store { group = response.group } else store
