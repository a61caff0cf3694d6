-- ===== src/Pb.antt =====
-- The messages of proto/*.proto, as pb/*.pb.go declares them. A pointer to a message may be nil, so
-- it is an `Option`; uint32 and int64 fields are ℕ and ℤ within the range of their type.
-- `nil` and empty maps are one value: the only maps that the server writes to are made by `make`,
-- and gob keeps an empty map apart from nil.
use advanced_group_chat_syst.Base.{ℕ, ℤ, String, Bool, Option, none, some, List, Map}

pub record User : Type 0 where
  pub id : ℕ
  pub name : String

-- The getters of a nil pointer give the zero value.
abbrev pub get_id : Option User → ℕ
get_id none = 0
get_id (some u) = u.id

abbrev pub get_name : Option User → String
get_name none = ""
get_name (some u) = u.name

pub record ChatMessage : Type 0 where
  pub messaged_by : Option User
  pub message : String
  pub liked_by : Map String String

pub record Group : Type 0 where
  pub group_id : ℕ
  pub groupname : String
  pub participants : Map ℕ String
  pub messages : Map ℕ (Option ChatMessage)

pub record JoinChat : Type 0 where
  pub joineduser : Option User
  pub newgroup : String
  pub currgroup : String

pub record AppendChat : Type 0 where
  pub chatmessage : Option ChatMessage
  pub group : Option Group

pub record LikeMessage : Type 0 where
  pub likeduser : Option User
  pub messageid : ℕ
  pub group : Option Group

pub record UnLikeMessage : Type 0 where
  pub unlikeduser : Option User
  pub messageid : ℕ
  pub group : Option Group

pub record PrintChat : Type 0 where
  pub user : Option User
  pub groupname : String

pub record Logout : Type 0 where
  pub user : Option User
  pub currgroup : String

-- The oneof of a command: what a nil payload would be is the absence of the action.
pub data Action : Type 0 where
  no_action : Action
  append_action : AppendChat → Action
  like_action : LikeMessage → Action
  unlike_action : UnLikeMessage → Action
  print_action : PrintChat → Action
  logout_action : Logout → Action
  join_action : JoinChat → Action
  login_action : Option User → Action

pub record Command : Type 0 where
  pub event : String
  pub action : Action

abbrev pub get_login : Action → Option User
get_login (login_action u) = u
get_login _ = none

abbrev pub get_joinchat : Action → Option JoinChat
get_joinchat (join_action j) = some j
get_joinchat _ = none

abbrev pub get_append : Action → Option AppendChat
get_append (append_action a) = some a
get_append _ = none

abbrev pub get_like : Action → Option LikeMessage
get_like (like_action l) = some l
get_like _ = none

abbrev pub get_unlike : Action → Option UnLikeMessage
get_unlike (unlike_action l) = some l
get_unlike _ = none

abbrev pub get_logout : Action → Option Logout
get_logout (logout_action l) = some l
get_logout _ = none

-- The requests of a chat stream; `server_view` and `logout` requests have no handler on the stream.
pub data GroupChatRequest : Type 0 where
  no_request : GroupChatRequest
  append_request : AppendChat → GroupChatRequest
  like_request : LikeMessage → GroupChatRequest
  unlike_request : UnLikeMessage → GroupChatRequest
  print_request : PrintChat → GroupChatRequest
  logout_request : Logout → GroupChatRequest
  join_request : JoinChat → GroupChatRequest
  server_view_request : String → GroupChatRequest

pub record GroupChatResponse : Type 0 where
  pub group : Option Group
  pub event : String

pub record LogEntry : Type 0 where
  pub command : Option Command
  pub term : ℤ

pub record AppendEntriesRequest : Type 0 where
  pub term : ℤ
  pub leader_id : ℤ
  pub prev_log_index : ℤ
  pub prev_log_term : ℤ
  pub entries : List LogEntry
  pub leader_commit : ℤ

pub record AppendEntriesResponse : Type 0 where
  pub term : ℤ
  pub success : Bool
  pub conflict_index : ℤ
  pub conflict_term : ℤ

pub record RequestVoteRequest : Type 0 where
  pub term : ℤ
  pub candidate_id : ℤ
  pub last_log_index : ℤ
  pub last_log_term : ℤ

pub record RequestVoteResponse : Type 0 where
  pub term : ℤ
  pub vote_granted : Bool

pub record ForwardLeaderRequest : Type 0 where
  pub command : Option Command

pub record ForwardLeaderResponse : Type 0 where
  pub success : Bool
  pub leader_id : ℤ
