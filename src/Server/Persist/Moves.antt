-- ===== src/Server/Persist/Moves.antt =====
-- A committed join moves its user from one group to the other.
use advanced_group_chat_syst.Base.{
  ℕ, String, ◌≡◌, ◌≢◌, sym, ap, ◌∙◌, inl, inr, some, List, [], ◌∷◌, ok, Result-cases, lookup,
  nat_eq, arith,
}
use advanced_group_chat_syst.Pb.{User, Group}
use advanced_group_chat_syst.Storage.Backend.{Backend, IsLawful}
use advanced_group_chat_syst.Storage.Disk.{get_group, join_group, remove_user_in_group, participant}
use advanced_group_chat_syst.Storage.Disk.Membership.{here, Joined, join_group-Joined}
use advanced_group_chat_syst.Storage.Disk.Leaving.{Removed, remove_user-Removed}
use advanced_group_chat_syst.Server.Persist.{persist_join}

module _ (b : Backend) (law : IsLawful b) where
  -- What a join does to the store: through a store in which the user has left the first group.
  join_steps :
      (id : ℕ) (user : User) (newgroup currgroup : String) (s t : b.Store) (told : List String)
      → persist_join b id
          (some (record { joineduser = some user; newgroup = newgroup; currgroup = currgroup }))
          s
        ≡ ok (t, told)
      → (s1 : b.Store) × Removed b law user.id currgroup s s1
        × Joined b law newgroup (some user) s1 t
        × (told ≡ currgroup ∷ newgroup ∷ [])
  unfolding persist_join
  join_steps id user newgroup currgroup s t told h =
      elim (Result-cases (remove_user_in_group b user.id currgroup s)) [
        | inl bad ↦ absurd (ground (arith, bad))
        | inr ((s1, done), e) ↦
            let (succeeded, removed) = remove_user-Removed b law user.id currgroup s s1 done e in
            elim (Result-cases (join_group b id newgroup (some user) s1)) [
              | inl bad ↦ absurd (ground (arith, e, succeeded, bad))
              | inr (s2, f) ↦
                  let last : s2 ≡ t = ground (arith, e, succeeded, f) in
                  (
                    s1,
                    removed,
                    join_group-Joined b law id newgroup (some user) s1 t (f ∙ ap ok last),
                    ground (arith, e, succeeded, f),
                  )
            ]
      ]

  -- On a lawful store, when a join to another group has been applied without a panic, the user is a
  -- member of the new group under its name and is not listed in the old one but under the empty
  -- name, both groups are told, and every third group is as it was.
  pub join_moves :
      (id : ℕ) (user : User) (newgroup currgroup : String) (s t : b.Store) (told : List String)
      → newgroup ≢ currgroup
      → persist_join b id
          (some (record { joineduser = some user; newgroup = newgroup; currgroup = currgroup }))
          s
        ≡ ok (t, told)
      → ((g : Group) × (get_group b newgroup t ≡ here g)
          × (lookup user.id g.participants ≡ some user.name))
        × ((g : Group) → get_group b currgroup t ≡ here g → participant user.id g ≡ "")
        × (told ≡ currgroup ∷ newgroup ∷ [])
        × ((j : String) → newgroup ≢ j → currgroup ≢ j → get_group b j t ≡ get_group b j s)
  join_moves id user newgroup currgroup s t told apart h =
      let (s1, removed, joined, both) = join_steps id user newgroup currgroup s t told h in
      (
        (joined.group, joined.found, joined.member),
        λ g there. removed.gone g (sym (joined.others currgroup apart) ∙ there),
        both,
        λ j n c. joined.others j n ∙ removed.others j c,
      )
