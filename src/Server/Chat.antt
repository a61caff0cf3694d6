-- ===== src/Server/Chat.antt =====
-- server/chat_service.go: the chat service. What it submits to the consensus module is returned as a
-- command, in order; Submit always reports success.
pub mod Delivery
use advanced_group_chat_syst.Base.{
  ℕ, String, Bool, true, false, ◌&&◌, Option, none, some, List, [], ◌∷◌, ◌++◌, map, Result, ok,
  panic, demand, ◌>>=◌, Map, lookup, insert, delete, nat_eq, string_eq, ◌==◌, if◌then◌else◌,
}
use advanced_group_chat_syst.Pb.{
  User, Group, Command, Logout, GroupChatRequest, no_request, append_request, like_request,
  unlike_request, print_request, logout_request, join_request, server_view_request,
  GroupChatResponse, append_action, like_action, unlike_action, logout_action, join_action,
  login_action,
}
use advanced_group_chat_syst.Storage.Backend.{Backend}
use advanced_group_chat_syst.Storage.Disk.{get_group}
use advanced_group_chat_syst.Server.Peers.{Clients, get_active_peers}
use advanced_group_chat_syst.Server.Connections.{
  Client, ConnStore, add_conn, remove_conn, ActiveUsers, add_user,
}

pub record ChatService : Type 0 where
  pub conns : ConnStore
  pub active : ActiveUsers

-- Login, with the response's user.
unfoldable pub login : Option User → ChatService → Result (ChatService × Command × Option User)
unfolding add_user
login user s = do
  u ← demand user
  ok (
    record s { active = add_user u "" s.active },
    record { event = "u"; action = login_action user },
    user,
  )

-- The logout RPC, with the response's status.
unfoldable pub logout : Option Logout → Result (Command × Bool)
logout request = do l ← demand request; ok (record { event = "q"; action = logout_action l }, true)

abbrev group_of : Map ℕ String → ℕ → String
group_of groups id = elim (lookup id groups) [ none ↦ "" | some g ↦ g ]

-- RemoveActiveUsers: the commands that log every active user out.
unfoldable pub remove_active_users : ActiveUsers → List Command
remove_active_users active =
    map
      (λ user. record {
        event = "q";
        action =
            logout_action (record { user = some user; currgroup = group_of active.groups user.id });
      })
      active.users

-- What ProcessRequest does: the streams that remain, the command that it submits, and its results.
pub record Processed : Type 0 where
  pub conns : ConnStore
  pub submitted : List Command
  pub groupname : String
  pub event : String

-- ProcessRequest; `order` is the order in which RemoveConn visits the streams.
unfoldable pub process_request : List ℕ → GroupChatRequest → ConnStore → Result Processed
unfolding remove_conn
process_request order (append_request a) conns = do
  group ← demand a.group
  ok (record {
    conns = conns;
    submitted = record { event = "a"; action = append_action a } ∷ [];
    groupname = group.groupname;
    event = "a";
  })
process_request order (like_request l) conns = do
  group ← demand l.group
  ok (record {
    conns = conns;
    submitted = record { event = "l"; action = like_action l } ∷ [];
    groupname = group.groupname;
    event = "l";
  })
process_request order (unlike_request l) conns = do
  group ← demand l.group
  ok (record {
    conns = conns;
    submitted = record { event = "r"; action = unlike_action l } ∷ [];
    groupname = group.groupname;
    event = "r";
  })
process_request order (join_request j) conns = do
  user ← demand j.joineduser
  ok (record {
    conns = remove_conn order (record { group = j.currgroup; name = user.name }) conns;
    submitted = record { event = "j"; action = join_action j } ∷ [];
    groupname = j.newgroup;
    event = "j";
  })
process_request order (print_request p) conns =
    ok (record { conns = conns; submitted = []; groupname = p.groupname; event = "p" })
process_request order _ conns =
    ok (record { conns = conns; submitted = []; groupname = ""; event = "" })

-- The user of a join request.
abbrev pub joined_user : GroupChatRequest → Option User
joined_user (join_request j) = j.joineduser
joined_user _ = none

module _ (b : Backend) where
  open b use {Store}

  -- The rest of a round of JoinGroupChat, after the pause: what is sent to the stream. The store is
  -- the one at that time.
  unfoldable pub answer_request :
      ℕ
      → GroupChatRequest
      → Processed
      → Store
      → ChatService
      → Result (ChatService × List GroupChatResponse)
  unfolding add_conn add_user
  answer_request stream req done s chat =
      let response : GroupChatResponse = record {
        group = (get_group b done.groupname s).0;
        event = done.event;
      } in
      if done.event == "j"
      then (do
        user ← demand (joined_user req)
        ok (
          record {
            conns =
                add_conn stream (record { group = done.groupname; name = user.name }) done.conns;
            active = add_user user done.groupname chat.active;
          },
          response ∷ [],
        ))
      else ok (record chat { conns = done.conns }, if done.event == "p" then response ∷ [] else [])

  -- One round of BroadCast: the streams in the order in which the range visits them, those whose
  -- context has ended, and what is sent to which stream.
  unfoldable pub broadcast :
      List ℕ → (ℕ → Bool) → String → Store → ConnStore → ConnStore × List (ℕ × GroupChatResponse)
  broadcast [] ended groupname s conns = (conns, [])
  broadcast (stream ∷ order) ended groupname s conns = elim (lookup stream conns) [
    | none ↦ broadcast order ended groupname s conns
    | some client ↦ elim (client.group == groupname) [
      | false ↦ broadcast order ended groupname s conns
      | true ↦ elim (ended stream) [
        | true ↦ broadcast order ended groupname s (delete stream conns)
        | false ↦
            let (conns', sent) = broadcast order ended groupname s conns in
            (conns', (stream, record { group = (get_group b groupname s).0; event = "b" }) ∷ sent)
      ]
    ]
  ]

-- ServerView: the peers that the consensus module's server has a connection to that is up.
unfoldable pub server_view : (ℕ → String) → ℕ → Clients → Result (List ℕ)
unfolding get_active_peers
server_view state_of server_id clients = get_active_peers state_of server_id clients

-- CheckServerHealth, once an interrupt has come: what it submits before the program exits.
unfoldable pub check_server_health : ChatService → List Command
unfolding remove_active_users
check_server_health s = remove_active_users s.active
