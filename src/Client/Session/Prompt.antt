-- ===== src/Client/Session/Prompt.antt =====
-- What a session at the prompt leads to.
use advanced_group_chat_syst.Base.{
  ℕ, Option-cases, String, Bool, true, false, ◌||◌, Option, none, some, ◌≡◌, ◌≢◌, refl, sym, subst,
  inl, inr, ◌⊎◌, List, [], ◌∷◌, Result, ok, panic, ◌>>=◌, eq_of_ok, Bool-cases, string_eq, eq_iff,
  ◌==◌, if◌then◌else◌, arith,
}
use advanced_group_chat_syst.Pb.{Group, join_request}
use advanced_group_chat_syst.Client.Text.{trim_line, trim_space, split, join}
use advanced_group_chat_syst.Client.Commands.{
  ClientStore, new_client_store, user_login, user_logout, process_message, first_word, other_words,
}
use advanced_group_chat_syst.Client.Session.Trimmed.{trim_line_twice}
use advanced_group_chat_syst.Client.Session.{
  Session, Input, Round, again, joins, returned, exited, connect_client, prompt_login,
  prompt_command, prompt_round, prompt_rounds, first_request, log_out, server_view,
}

-- What a round may do.
log_out_group :
    (reply : Option Bool) (store store' : ClientStore) (status : Bool)
    → log_out reply store ≡ ok (store', status)
    → store'.group ≡ store.group
unfolding log_out user_logout
log_out_group reply store store' status h = ground arith

abbrev Joining : String → String → Session → ClientStore → Type 0
Joining cmd msg session store =
    (cmd ≡ "j") × (store ≡ session.store) × (store.active_user.name ≢ "")

-- The switch, in the case of its command word: a join of the logged-in user, or a round that keeps the
-- group of the store and joins nothing.
abbrev Kept : Session → Round → Type 0
Kept session (again session') = session'.store.group ≡ session.store.group
Kept session (joins msg store) = ⊥
Kept session _ = Unit

abbrev Outcome : String → String → Session → Round → Type 0
Outcome cmd line session round =
    ((cmd ≡ "j") × (session.store.active_user.name ≢ "") × (round ≡ joins line session.store))
    ⊎ Kept session round

login_Kept :
    (arg : String) (input : Input) (session : Session)
    → Kept session (prompt_login arg input session)
unfolding prompt_login user_login
login_Kept arg input session = ground arith

-- What a result satisfies if it is no panic, by the parts of the program.
abbrev Ends : (Round → Type 0) → Result Round → Type 0
Ends P r = (round : Round) → r ≡ ok round → P round

ok-Ends : (P : Round → Type 0) (round : Round) → P round → Ends P (ok round)
ok-Ends P round h other e = subst P (eq_of_ok e) h

if-Ends :
    (P : Round → Type 0) (b : Bool) {r r' : Result Round}
    → (b ≡ true → Ends P r)
    → (b ≡ false → Ends P r')
    → Ends P (if b then r else r')
if-Ends P true h k = h refl
if-Ends P false h k = k refl

bind-Ends :
    {A : Type 0} (P : Round → Type 0) (r : Result A) (f : A → Result Round)
    → ((a : A) → r ≡ ok a → Ends P (f a))
    → Ends P (r >>= f)
bind-Ends P panic f h round e = absurd (ground arith)
bind-Ends P (ok a) f h round e = h a refl round e

logged_out :
    (b : Bool) (session : Session) (store : ClientStore)
    → store.group ≡ session.store.group
    → Kept session (if b then returned store else again (record session { store = store }))
logged_out true session store h = tt
logged_out false session store h = h

command-Outcome :
    (cmd arg line : String) (input : Input) (session : Session)
    → Ends (Outcome cmd line session) (prompt_command cmd arg line input session)
unfolding prompt_command
command-Outcome cmd arg line input session =
    let P = Outcome cmd line session in
    let same : Ends P (ok (again session)) = ok-Ends P (again session) (inr refl) in
    if-Ends P (cmd == "u")
      (λ u. ok-Ends P (prompt_login arg input session) (inr (login_Kept arg input session)))
      (λ not_u.
        if-Ends P (cmd == "j") (λ j. ok-Ends P _ (join_outcome j))
          (λ not_j.
            if-Ends P (cmd == "a" || cmd == "l" || cmd == "r") (λ other. same)
              (λ not_alr.
                if-Ends P (cmd == "q")
                  (λ q. bind-Ends P (log_out input.logout_reply session.store) _ (λ pair at.
                    ok-Ends P _ (
                      inr (
                        logged_out pair.1 session pair.0
                          (log_out_group input.logout_reply session.store pair.0 pair.1 at)))))
                  (λ not_q.
                    if-Ends P (cmd == "v")
                      (λ v. bind-Ends P (server_view input.view_reply) _ (λ view at. same))
                      (λ not_v. same)))))
  where
    join_outcome :
        (cmd == "j") ≡ true
        → Outcome cmd line session (
            if session.store.active_user.name == ""
            then again session
            else joins line session.store)
    join_outcome j = elim (Bool-cases (session.store.active_user.name == "")) [
      | inl nameless ↦ rw nameless (inr refl)
      | inr named ↦ rw named (
          inl (
            (eq_iff cmd "j").0 j,
            (λ e. absurd (ground (arith, eq_iff session.store.active_user.name ""))),
            refl,
          ))
    ]

-- A join is asked of a user with a name, with a line that is trimmed and whose command word is "j".
abbrev IsJoin : Option Group → Round → Type 0
IsJoin group (again session) = session.store.group ≡ group
IsJoin group (joins msg store) =
    (store.group ≡ group)
    × (store.active_user.name ≢ "")
    × (trim_line msg ≡ msg)
    × (trim_space (first_word (split msg)) ≡ "j")
IsJoin group _ = Unit

Outcome-IsJoin :
    (line : String) (session : Session) (round : Round)
    → Outcome (trim_space (first_word (split (trim_line line)))) (trim_line line) session round
    → IsJoin session.store.group round
Outcome-IsJoin line session round (inl (j, named, is)) =
    subst (IsJoin session.store.group) (sym is) (refl, named, trim_line_twice line, j)
Outcome-IsJoin line session (again session') (inr kept) = kept
Outcome-IsJoin line session (joins msg store) (inr kept) = absurd kept
Outcome-IsJoin line session (returned store) (inr kept) = tt
Outcome-IsJoin line session (exited store) (inr kept) = tt

line_round :
    (input : Input) (session : Session) (line : String)
    → input.line ≡ some line
    → input.ready ≡ true
    → prompt_round input session
      ≡ prompt_command
          (trim_space (first_word (split (trim_line line))))
          (join (other_words (split (trim_line line))))
          (trim_line line)
          input
          session
unfolding prompt_round
line_round input session line typed ready = rw (ready, typed) refl

lost_round :
    (input : Input) (session : Session)
    → input.line ≡ none
    → input.ready ≡ true
    → prompt_round input session
      ≡ (do (store', _) ← log_out input.logout_reply session.store; ok (exited store'))
unfolding prompt_round
lost_round input session lost ready = rw (ready, lost) refl

broken_round :
    (input : Input) (session : Session)
    → input.ready ≡ false
    → prompt_round input session ≡ ok (returned session.store)
unfolding prompt_round
broken_round input session broken = rw broken refl

round-IsJoin :
    (input : Input) (session : Session)
    → Ends (IsJoin session.store.group) (prompt_round input session)
round-IsJoin input session = elim (Bool-cases input.ready) [
  | inr broken ↦
      subst (Ends P) (sym (broken_round input session broken))
        (ok-Ends P (returned session.store) tt)
  | inl ready ↦ elim (Option-cases input.line) [
    | inl lost ↦ subst (Ends P) (sym (lost_round input session lost ready)) (
        bind-Ends P (log_out input.logout_reply session.store) _
          (λ pair at. ok-Ends P (exited pair.0) tt))
    | inr (line, typed) ↦
        subst (Ends P) (sym (line_round input session line typed ready)) (λ round e.
          Outcome-IsJoin line session round (
            command-Outcome (trim_space (first_word (split (trim_line line))))
              (join (other_words (split (trim_line line)))) (trim_line line) input session round e))
  ]
]
  where
    P : Round → Type 0
    P round = IsJoin session.store.group round

after-IsJoin :
    (group : Option Group) (rest : List Input)
    → ((session : Session) → Ends (IsJoin session.store.group) (prompt_rounds rest session))
    → (round : Round) → IsJoin group round
    → Ends (IsJoin group) (elim round [
      | again session' ↦ prompt_rounds rest session'
      | returned store ↦ ok (returned store)
      | exited store ↦ ok (exited store)
      | joins msg store ↦ ok (joins msg store)
    ])
after-IsJoin group rest h (again session') same =
    subst (λ g. Ends (IsJoin g) (prompt_rounds rest session')) same (h session')
after-IsJoin group rest h (returned store) k = ok-Ends (IsJoin group) (returned store) tt
after-IsJoin group rest h (exited store) k = ok-Ends (IsJoin group) (exited store) tt
after-IsJoin group rest h (joins msg store) k = ok-Ends (IsJoin group) (joins msg store) k

rounds-IsJoin :
    (inputs : List Input) (session : Session)
    → Ends (IsJoin session.store.group) (prompt_rounds inputs session)
unfolding prompt_rounds
rounds-IsJoin [] session = ok-Ends (IsJoin session.store.group) (again session) refl
rounds-IsJoin (input ∷ rest) session =
    bind-Ends (IsJoin session.store.group) (prompt_round input session) _ (λ round at.
      after-IsJoin session.store.group rest (rounds-IsJoin rest) round
        (round-IsJoin input session round at))

join_request_of :
    (msg : String) (store : ClientStore)
    → IsJoin new_client_store.group (joins msg store)
    → first_request msg store
      ≡ ok (
        store,
        join_request (record {
          joineduser = some store.active_user;
          newgroup = join (other_words (split msg));
          currgroup = "None";
        }),
      )
unfolding first_request process_message new_client_store
join_request_of msg store (group, named, trimmed, word) = rw (trimmed, word, group) refl

-- A session that begins as ConnectClient does, whatever is typed and whatever the server answers, calls
-- JoinGroupChat only for a user who has a name, and the first request on the stream is then the
-- join of that user, out of no group, to the group that stands after the command word.
pub prompt_joins :
    (ip : String) (server_id : ℕ) (session : Session) (inputs : List Input) (msg : String)
    (store : ClientStore)
    → connect_client ip ≡ ok (server_id, session)
    → prompt_rounds inputs session ≡ ok (joins msg store)
    → (store.active_user.name ≢ "")
      × (first_request msg store
          ≡ ok (
            store,
            join_request (record {
              joineduser = some store.active_user;
              newgroup = join (other_words (split msg));
              currgroup = "None";
            }),
          ))
unfolding connect_client
prompt_joins ip server_id session inputs msg store connected joined =
    let fresh : session.store.group ≡ new_client_store.group = ground (arith, connected) in
    let facts : IsJoin new_client_store.group (joins msg store) =
      subst (λ g. IsJoin g (joins msg store)) fresh
        (rounds-IsJoin inputs session (joins msg store) joined) in
    (facts.1, join_request_of msg store facts)
