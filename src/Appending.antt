-- ===== src/Appending.antt =====
-- A typed message on its way through the whole program: the client's ProcessMessage, the chat service's
-- ProcessRequest, and persistData at each server that applies the command.
use advanced_group_chat_syst.Base.{
  ℕ, ◌%◌, ◌^◌, refl, length, lookup, lookup-insert, nat_eq, String, ◌≡◌, ◌≢◌, sym, ap, ◌∙◌, inl,
  inr, some, List, [], map, Result, ok, ◌>>=◌, Result-cases, string_eq, arith,
}
use Prim.Native.String.{◌++◌ as text_append}
use advanced_group_chat_syst.Pb.{User, Group, ChatMessage, append_request}
use advanced_group_chat_syst.Storage.Backend.{Backend, IsLawful}
use advanced_group_chat_syst.Storage.Disk.{get_group, update_group}
use advanced_group_chat_syst.Storage.Disk.Membership.{here, get-update, read_self, read_other}
use advanced_group_chat_syst.Storage.Messages.{add_message, append_message, change_group}
use advanced_group_chat_syst.Server.Persist.{persist_command, persist_append, commit_entries}
use advanced_group_chat_syst.Server.Connections.{ConnStore}
use advanced_group_chat_syst.Server.Chat.{process_request}
use advanced_group_chat_syst.Client.Text.{trim_line}
use advanced_group_chat_syst.Client.Commands
use advanced_group_chat_syst.Client.Commands.{ClientStore, process_message}
use advanced_group_chat_syst.Client.Commands.Typed.{typed_append}

-- The message as it is stored.
abbrev pub message_of : User → String → ChatMessage
message_of user text = record { messaged_by = some user; message = text; liked_by = [] }

-- `g'` is `g` with the message at number `n`.
abbrev pub OneMore : ℕ → ChatMessage → Group → Group → Type 0
OneMore n message g g' =
    (lookup n g'.messages ≡ some (some message))
    × ((i : ℕ) → i ≢ n → lookup i g'.messages ≡ lookup i g.messages)
    × (g'.group_id ≡ g.group_id)
    × (g'.groupname ≡ g.groupname)
    × (g'.participants ≡ g.participants)

add_message-OneMore :
    (message : ChatMessage) (g : Group)
    → OneMore (length g.messages % 2 ^ 32) message g (add_message (some message) g)
unfolding add_message
add_message-OneMore message g =
    let n = length g.messages % 2 ^ 32 in
    (
      ground (arith, lookup-insert n n (some message) g.messages),
      λ i other. ground (arith, lookup-insert n i (some message) g.messages),
      refl,
      refl,
      refl,
    )

module _ (b : Backend) (law : IsLawful b) where
  appended_group :
      (message : ChatMessage) (target g : Group) (s t : b.Store)
      → get_group b target.groupname s ≡ here g
      → append_message b (record { chatmessage = some message; group = some target }) s ≡ ok t
      → (get_group b target.groupname t ≡ here (add_message (some message) g))
        × ((j : String) → target.groupname ≢ j → get_group b j t ≡ get_group b j s)
  unfolding append_message change_group
  appended_group message target g s t there h =
      let g' = add_message (some message) g in
      let name = target.groupname in
      elim (Result-cases (update_group b name g' s)) [
        | inl bad ↦ absurd (ground (arith, there, bad))
        | inr ((s', done), e) ↦
            let (updated, reads) = get-update b law name g' s s' done e in
            let same : s' ≡ t = ground (arith, there, e) in
            (
              ap (get_group b name) (sym same) ∙ reads name ∙ read_self b law name g' _,
              λ j other.
                  ap (get_group b j) (sym same) ∙ reads j ∙ read_other b law name j g' _ other,
            )
      ]

  stored_by :
      (order : List ℕ) (conns : ConnStore) (id : ℕ) (message : ChatMessage) (group : Group)
      (s t : b.Store)
      → (do
        q ←
            process_request order
              (append_request (record { chatmessage = some message; group = some group }))
              conns
        commit_entries b (map (λ c. (id, some c)) q.submitted) s)
        ≡ ok t
      → append_message b (record { chatmessage = some message; group = some group }) s ≡ ok t
  unfolding process_request commit_entries persist_command persist_append
  stored_by order conns id message group s t h =
      elim (Result-cases
        (append_message b (record { chatmessage = some message; group = some group }) s)) [
          | inl bad ↦ absurd (ground (arith, bad))
          | inr (s', at) ↦ ground (arith, at)
        ]

  -- A user with a name, in a group with a name, types `a`, a space and a text that ends in no line break.
  -- The client's request goes to the chat service, which submits what it makes of it. A server with
  -- a lawful store that holds the group and that applies what was submitted without a panic then
  -- has, at the number of the next message of the group, exactly that text as a message of the user
  -- that nobody likes. The messages at the other numbers, the group's id, name and members, and
  -- what reads of other groups give are as before.
  pub typed_stored :
      (line text : String) (user : User) (group g : Group) (order : List ℕ) (conns : ConnStore)
      (id : ℕ) (s t : b.Store)
      → trim_line line ≡ text_append "a " text
      → user.name ≢ ""
      → group.groupname ≢ ""
      → get_group b group.groupname s ≡ here g
      → (do
        p ← process_message line (record { active_user = user; group = some group })
        q ← process_request order p.request conns
        commit_entries b (map (λ c. (id, some c)) q.submitted) s)
        ≡ ok t
      → (g' : Group) × (get_group b group.groupname t ≡ here g')
        × OneMore (length g.messages % 2 ^ 32) (message_of user text) g g'
        × ((j : String) → group.groupname ≢ j → get_group b j t ≡ get_group b j s)
  typed_stored line text user group g order conns id s t typed named grouped there h =
      let sent = typed_append line text user group typed named grouped in
      let (now, others) =
        appended_group (message_of user text) group g s t there
          (stored_by order conns id (message_of user text) group s t (ap after (sym sent) ∙ h)) in
      (
        add_message (some (message_of user text)) g,
        now,
        add_message-OneMore (message_of user text) g,
        others,
      )
    where
      after : Result Commands.Processed → Result b.Store
      after r = do
        p ← r
        q ← process_request order p.request conns
        commit_entries b (map (λ c. (id, some c)) q.submitted) s
