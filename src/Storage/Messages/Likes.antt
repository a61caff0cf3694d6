-- ===== src/Storage/Messages/Likes.antt =====
-- Likes: who may like a message, and that unlike undoes like.
use advanced_group_chat_syst.Base.{
  ℕ, nat_beq, String, false, ◌≡◌, ◌≢◌, refl, ap, ◌∙◌, none, some, [], ◌∷◌, length, ok, Map, lookup,
  insert, delete, nat_eq, string_eq, ◌==◌, Eq, if◌then◌else◌, lookup-insert, eq_iff, arith,
}
use advanced_group_chat_syst.Pb.{User, ChatMessage, Group}
use advanced_group_chat_syst.Storage.Messages.{add_like, remove_like}

module _ {ℓ κ} {K : Type ℓ} {V : Type κ} ⦃e : Eq K⦄ where
  -- Writing a new key and deleting it, and writing back what was there, restore a map.
  delete-insert_new :
      (k : K) (v : V) (m : Map K V) → lookup k m ≡ none → delete k (insert k v m) ≡ m
  unfolding lookup insert delete
  delete-insert_new k v [] h = ground (arith, (e.equals_iff k k).1 refl)
  delete-insert_new k v ((j, w) ∷ m) h = ground (arith, delete-insert_new k v m)

  insert-insert : (k : K) (v w : V) (m : Map K V) → insert k v (insert k w m) ≡ insert k v m
  unfolding insert
  insert-insert k v w [] = ground (arith, (e.equals_iff k k).1 refl)
  insert-insert k v w ((j, x) ∷ m) = ground (arith, insert-insert k v w m)

  insert_same : (k : K) (v : V) (m : Map K V) → lookup k m ≡ some v → insert k v m ≡ m
  unfolding lookup insert
  insert_same k v [] h = cc
  insert_same k v ((j, x) ∷ m) h = ground (arith, insert_same k v m)

empty_or : (m : Map String String) → (if nat_beq (length m) 0 then [] else m) ≡ m
empty_or [] = refl
empty_or (x ∷ m) = ground arith

-- A message at the number, by its author, that is stored.
pub record Stored (number : ℕ) (group : Group) (message : ChatMessage) (author : User)
    : Type 0 where
  pub found : lookup number group.messages ≡ some (some message)
  pub by : message.messaged_by ≡ some author

abbrev pub with_likes : ℕ → Group → ChatMessage → Map String String → Group
with_likes number group message liked_by = record group {
  messages = insert number (some (record message { liked_by = liked_by })) group.messages;
}

module _ (number : ℕ) (group : Group) (message : ChatMessage) (author liker : User)
    (stored : Stored number group message author) where
  -- A user likes a message if it is another user's and not liked yet: the like is added. Else
  -- nothing is written.
  pub add_like_cases : add_like (some liker) number group ≡ (
      if author.name == liker.name then ok none else elim (lookup liker.name message.liked_by) [
        | some _ ↦ ok none
        | none ↦ ok (some (with_likes number group message (insert liker.name "" message.liked_by)))
      ])
  unfolding add_like
  add_like_cases = ground (arith, stored.found, stored.by, empty_or message.liked_by)

  abbrev relike : ChatMessage
  relike = record message { liked_by = insert liker.name "" message.liked_by }

  taken_back :
      (g : Group)
      → lookup number g.messages ≡ some (some relike)
      → lookup liker.name relike.liked_by ≡ some ""
      → (author.name == liker.name) ≡ false
      → remove_like (some liker) number g
        ≡ ok (some (with_likes number g message (delete liker.name relike.liked_by)))
  unfolding remove_like
  taken_back g found likes apart = ground (arith, stored.by)

  -- A new like by another user is written; a second like writes nothing; and an unlike then gives
  -- back the group as it was before the like.
  pub unlike-like :
      author.name ≢ liker.name
      → lookup liker.name message.liked_by ≡ none
      → (group' : Group) × (add_like (some liker) number group ≡ ok (some group'))
        × (add_like (some liker) number group' ≡ ok none)
        × (remove_like (some liker) number group' ≡ ok (some group))
  unlike-like other fresh =
      let liked = with_likes number group message (insert liker.name "" message.liked_by) in
      let apart : (author.name == liker.name) ≡ false =
        ground (arith, eq_iff author.name liker.name) in
      let found : lookup number liked.messages
          ≡ some (some (record message { liked_by = insert liker.name "" message.liked_by })) =
        ground (
          arith,
          lookup-insert number number
              (some (record message { liked_by = insert liker.name "" message.liked_by }))
              group.messages,
        ) in
      let likes : lookup liker.name (insert liker.name "" message.liked_by) ≡ some "" = ground (
        arith,
        lookup-insert liker.name liker.name "" message.liked_by,
        eq_iff liker.name liker.name,
      ) in
      let back = delete-insert_new liker.name "" message.liked_by fresh in
      let over =
        insert-insert number (some message)
          (some (record message { liked_by = insert liker.name "" message.liked_by }))
          group.messages in
      let same = insert_same number (some message) group.messages stored.found in
      (
        liked,
        rw (add_like_cases, apart, fresh) refl,
        unfold add_like in ground (arith, found, stored.by, apart, likes),
        taken_back liked found likes apart
            ∙ ap (λ l. ok (some (with_likes number liked message l))) back
            ∙ ap (λ ms. ok (some (record group { messages = ms }))) (over ∙ same),
      )
