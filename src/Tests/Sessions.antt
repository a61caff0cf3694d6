-- ===== src/Tests/Sessions.antt =====
-- The client and the servers at concrete lines and states.
use advanced_group_chat_syst.Base.{
  ◌%◌, ◌^◌, length, String, true, false, ◌≡◌, ◌≢◌, refl, List, [], ◌∷◌, map, lookup, insert, nat_eq,
  string_eq, eq_iff, ◌==◌, ok, none, some, arith, ◌>>=◌,
}
use Prim.Native.String.{◌++◌ as text_append}
use advanced_group_chat_syst.Pb.{User, Group, like_request, join_request}
use advanced_group_chat_syst.Storage.Disk.{get_group, update_group, itoa, itoa_from}
use advanced_group_chat_syst.Storage.Disk.Membership.{here}
use advanced_group_chat_syst.Storage.Messages.{add_message, append_message}
use advanced_group_chat_syst.Server.Persist.{commit_entries, persist_command, persist_append}
use advanced_group_chat_syst.Server.Chat.{process_request}
use advanced_group_chat_syst.Client.Text.{trim_line, trim_space, split, join}
use advanced_group_chat_syst.Client.Commands.{
  ClientStore, process_message, run_command, user_login, new_client_store, other_words, no_rpc,
}
use advanced_group_chat_syst.Client.Commands.Typed.{typed_like}
use advanced_group_chat_syst.Client.Session.{
  Session, Input, joins, connect_client, server_number, prompt_round, prompt_command, prompt_login,
  prompt_rounds, first_request,
}
use advanced_group_chat_syst.Client.Session.Prompt.{prompt_joins}
use advanced_group_chat_syst.Appending.{OneMore, message_of, typed_stored}
use advanced_group_chat_syst.Tests.Memory.{memory, memory-IsLawful, group_bytes}

abbrev ann : User
ann = record { id = 7; name = "ann" }

abbrev typing : String → Input
typing line = record {
  ready = true;
  line = some line;
  id = 7;
  login_succeeds = true;
  logout_reply = none;
  view_reply = none;
}

abbrev fresh : Session
fresh = record { store = new_client_store; prompt = "Login: " }

-- ann asks to join before she has logged in, logs in, and joins.
abbrev typed_lines : List Input
typed_lines = typing "j go\n" ∷ typing "u ann\n" ∷ typing "j go\n" ∷ []

abbrev ann_store : ClientStore
ann_store = record new_client_store { active_user = ann }

connected : connect_client "10.0.0.1" ≡ ok (49, fresh)
unfolding connect_client server_number
connected = refl

joined : prompt_rounds typed_lines fresh ≡ ok (joins "j go" ann_store)
unfolding prompt_rounds prompt_round prompt_command prompt_login trim_line trim_space split join
    user_login new_client_store
joined = refl

prompt_joins_example :
    (ann_store.active_user.name ≢ "")
    × (first_request "j go" ann_store
        ≡ ok (
          ann_store,
          join_request (record {
            joineduser = some ann_store.active_user;
            newgroup = join (other_words (split "j go"));
            currgroup = "None";
          }),
        ))
prompt_joins_example =
    prompt_joins "10.0.0.1" 49 fresh typed_lines "j go" ann_store connected joined

abbrev go : Group
go = record { group_id = 12; groupname = "go"; participants = (7, "ann") ∷ []; messages = [] }

differ : (a c : String) → (a == c) ≡ false → a ≢ c
differ a c h e = ground (arith, (eq_iff a c).1 e)

like_line : trim_line "l 12\n" ≡ text_append "l " (itoa 12)
unfolding trim_line itoa itoa_from
like_line = refl

append_line : trim_line "a hi all\n" ≡ text_append "a " "hi all"
unfolding trim_line
append_line = refl

typed_like_example :
    process_message "l 12\n" (record { active_user = ann; group = some go })
    ≡ ok (record {
      store = record { active_user = ann; group = some go };
      request = like_request (record { likeduser = some ann; messageid = 12; group = some go });
      cmd = "l";
      rpc = no_rpc;
    })
typed_like_example =
    typed_like "l 12\n" 12 ann go like_line (omega arith) (differ "ann" "" refl)
      (differ "go" "" refl)

abbrev disk : memory.Store
disk = ("go", group_bytes go) ∷ []

abbrev disk_after : memory.Store
disk_after = ("go", group_bytes (add_message (some (message_of ann "hi all")) go)) ∷ []

there : get_group memory "go" disk ≡ here go
unfolding get_group lookup
there = refl

stored :
    (do
      p ← process_message "a hi all\n" (record { active_user = ann; group = some go })
      q ← process_request [] p.request []
      commit_entries memory (map (λ c. (5, some c)) q.submitted) disk)
    ≡ ok disk_after
unfolding process_message run_command process_request commit_entries persist_command persist_append
    append_message get_group update_group lookup insert
stored = refl

typed_stored_example :
    (g' : Group) × (get_group memory "go" disk_after ≡ here g')
    × OneMore (length go.messages % 2 ^ 32) (message_of ann "hi all") go g'
    × ((j : String) → "go" ≢ j → get_group memory j disk_after ≡ get_group memory j disk)
typed_stored_example =
    typed_stored memory memory-IsLawful "a hi all\n" "hi all" ann go go [] [] 5 disk disk_after
      append_line (differ "ann" "" refl) (differ "go" "" refl) there stored
