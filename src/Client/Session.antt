-- ===== src/Client/Session.antt =====
-- main/client/client_main.go, and the loops of JoinGroupChat in chat_client/client_service.go: what the
-- client does with each line that is typed. The state of the connection, the answers of the server
-- and the identity of a new user come in with the line.
pub mod Trimmed
pub mod Prompt
use Prim.Native.Char.{code}
use advanced_group_chat_syst.Base.{
  ℕ, zero, suc, String, Bool, true, false, ◌||◌, not, Option, none, some, List, [], ◌∷◌, Result, ok,
  panic, demand, ◌>>=◌, string_eq, ◌==◌, if◌then◌else◌,
}
use advanced_group_chat_syst.Pb.{User, Logout, GroupChatRequest, GroupChatResponse}
use advanced_group_chat_syst.Client.Text.{trim_line, trim_space, split, split_on, join, contains}
use advanced_group_chat_syst.Client.Commands.{
  ClientStore, new_client_store, user_login, user_logout, process_message, receive_response, Rpc,
  no_rpc, logout_rpc, server_view_rpc, first_word, other_words,
}
use advanced_group_chat_syst.Client.Printing.{Line, print_recent, print_all}

-- What the first prompt of `main` makes of a line.
pub data Choice : Type 0 where
  connect_to : (ip port : String) → Choice
  incorrect_address : Choice
  close_program : Choice
  ask_again : Choice

abbrev word_at : ℕ → List String → String
word_at n [] = ""
word_at zero (w ∷ ws) = w
word_at (suc n) (w ∷ ws) = word_at n ws

-- The body of the loop of `main`; 58 is the code of a colon.
unfoldable pub main_choice : String → Choice
unfolding trim_line trim_space split split_on contains
main_choice line =
    let argument = split (trim_line line) in
    let command = word_at 0 argument in
    let address = trim_space (word_at 1 argument) in
    if command == "c"
    then (if not (contains 58 address)
        then incorrect_address
        else connect_to (word_at 0 (split_on 58 address)) (word_at 1 (split_on 58 address)))
    else if command == "q"
    then close_program
    else ask_again

-- `int(ip[len(ip)-1])`, of an address of ASCII characters: an empty one is a panic.
unfoldable pub server_number : String → Result ℕ
server_number String.[] = panic
server_number (String.◌∷◌ c String.[]) = ok (code c)
server_number (String.◌∷◌ c (String.◌∷◌ d s)) = server_number (String.◌∷◌ d s)

-- The state of ConnectClient: the store and the prompt.
pub record Session : Type 0 where
  pub store : ClientStore
  pub prompt : String

-- ConnectClient up to its loop, once gRPC has dialled: the number of the server and the session.
unfoldable pub connect_client : String → Result (ℕ × Session)
unfolding server_number new_client_store
connect_client ip = do
  server_id ← server_number ip
  ok (server_id, record { store = new_client_store; prompt = "Login: " })

-- What a round finds: whether the connection is ready; the line, `none` if it cannot be read; the id
-- that uuid makes; whether Login succeeds; and the replies of Logout and ServerView, `none` on an error.
pub record Input : Type 0 where
  pub ready : Bool
  pub line : Option String
  pub id : ℕ
  pub login_succeeds : Bool
  pub logout_reply : Option Bool
  pub view_reply : Option (List ℕ)

-- How a round ends: the loop goes on, ConnectClient returns, the program exits, or JoinGroupChat is
-- called with a line, after which ConnectClient returns.
pub data Round : Type 0 where
  again : Session → Round
  returned : ClientStore → Round
  exited : ClientStore → Round
  joins : String → ClientStore → Round

-- The result of UserLogout. Without a reply the response is nil, and its status a panic.
unfoldable pub logout_status : Option Logout → Option Bool → Result Bool
logout_status none reply = ok true
logout_status (some request) reply = demand reply

-- UserLogout, from the store and the reply to the store and the result.
unfoldable pub log_out : Option Bool → ClientStore → Result (ClientStore × Bool)
unfolding user_logout logout_status
log_out reply store = do
  (store', request) ← user_logout store
  status ← logout_status request reply
  ok (store', status)

-- ServerView: the peers of the reply.
unfoldable pub server_view : Option (List ℕ) → Result (List ℕ)
server_view reply = demand reply

-- The case "u" of the switch in ConnectClient.
unfoldable pub prompt_login : String → Input → Session → Round
unfolding user_login trim_space
prompt_login arg input session =
    let username = trim_space arg in
    if username == ""
    then again session
    else if input.login_succeeds
    then again (record {
      store = user_login input.id username session.store;
      prompt = "Enter the Group :";
    })
    else returned session.store

-- The switch in ConnectClient, on the command word, the rest of the line, and the line. (An empty group
-- name is reported, and joined all the same.)
unfoldable pub prompt_command : String → String → String → Input → Session → Result Round
unfolding prompt_login log_out server_view
prompt_command cmd arg msg input session =
    if cmd == "u"
    then ok (prompt_login arg input session)
    else if cmd == "j"
    then ok
        (if session.store.active_user.name == "" then again session else joins msg session.store)
    else if cmd == "a" || cmd == "l" || cmd == "r"
    then ok (again session)
    else if cmd == "q"
    then (do
      (store', status) ← log_out input.logout_reply session.store
      ok (if status then returned store' else again (record session { store = store' })))
    else if cmd == "v"
    then (do _ ← server_view input.view_reply; ok (again session))
    else ok (again session)

-- The body of the loop of ConnectClient.
unfoldable pub prompt_round : Input → Session → Result Round
unfolding prompt_command trim_line trim_space split join
prompt_round input session =
    if not input.ready then ok (returned session.store) else elim input.line [
      | none ↦ do (store', _) ← log_out input.logout_reply session.store; ok (exited store')
      | some line ↦
          let msg = trim_line line in
          let args = split msg in
          prompt_command (trim_space (first_word args)) (join (other_words args)) msg input session
    ]

-- The loop of ConnectClient over what its rounds find, as far as that goes.
unfoldable pub prompt_rounds : List Input → Session → Result Round
unfolding prompt_round
prompt_rounds [] session = ok (again session)
prompt_rounds (input ∷ rest) session = do
  round ← prompt_round input session
  elim round [
    | again session' ↦ prompt_rounds rest session'
    | returned store ↦ ok (returned store)
    | exited store ↦ ok (exited store)
    | joins msg store ↦ ok (joins msg store)
  ]

-- A round of the sending goroutine of JoinGroupChat: a request goes to the stream, or the stream is
-- closed. A line that cannot be read ends the goroutine.
pub data Sent : Type 0 where
  sends : GroupChatRequest → Sent
  closes : Sent
  gives_up : Sent

-- What ProcessMessage needs of the server before it returns.
unfoldable pub rpc_returns : Rpc → Option Bool → Option (List ℕ) → Result Bool
unfolding logout_status server_view
rpc_returns no_rpc logout_reply view_reply = ok true
rpc_returns (logout_rpc request) logout_reply view_reply = logout_status request logout_reply
rpc_returns server_view_rpc logout_reply view_reply = do _ ← server_view view_reply; ok true

unfoldable pub send_round : Input → ClientStore → Result (ClientStore × Sent)
unfolding process_message rpc_returns
send_round input store = elim input.line [
  | none ↦ ok (store, gives_up)
  | some line ↦ do
    processed ← process_message line store
    _ ← rpc_returns processed.rpc input.logout_reply input.view_reply
    ok (processed.store, if processed.cmd == "q" then closes else sends processed.request)
]

-- The first request of JoinGroupChat, made of the line that was typed at the prompt.
unfoldable pub first_request : String → ClientStore → Result (ClientStore × GroupChatRequest)
unfolding process_message
first_request msg store = do
  processed ← process_message msg store
  ok (processed.store, processed.request)

-- A round of the receiving goroutine: the store, and what is printed.
unfoldable pub receive_round : GroupChatResponse → ClientStore → Result (ClientStore × List Line)
unfolding receive_response print_recent print_all
receive_round response store = do
  lines ← if response.event == "p" then print_all response.group else print_recent response.group
  ok (receive_response response store, lines)
