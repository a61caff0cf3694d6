-- ===== src/Storage/Disk/Leaving.antt =====
-- RemoveUserInGroup, as later reads of the groups see it.
use advanced_group_chat_syst.Base.{
  ℕ, String, Bool, true, false, ◌≡◌, ◌≢◌, refl, sym, ap, ◌∙◌, Option, none, some, Bool-cases, inl,
  inr, ok, lookup, delete, nat_eq, string_eq, ◌==◌, eq_iff, lookup-delete, arith, subst,
}
use advanced_group_chat_syst.Pb.{Group}
use advanced_group_chat_syst.Storage.Backend.{Backend, IsLawful}
use advanced_group_chat_syst.Storage.Disk.{
  get_group, update_group, remove_user_in_group, participant,
}
use advanced_group_chat_syst.Storage.Disk.Membership.{here, get-update, read_self, read_other}

module _ (b : Backend) (law : IsLawful b) where
  -- The group after a removal: nobody of that id is in it, or only under the empty name.
  pub record Removed (id : ℕ) (name : String) (s t : b.Store) : Type 0 where
    pub gone : (g : Group) → get_group b name t ≡ here g → participant id g ≡ ""
    pub kept :
        (g : Group)
        → get_group b name t ≡ here g
        → (old : Group) × (get_group b name s ≡ here old)
          × (g.group_id ≡ old.group_id)
          × (g.groupname ≡ old.groupname)
          × (g.messages ≡ old.messages)
          × ((i : ℕ) → i ≢ id → lookup i g.participants ≡ lookup i old.participants)
    pub others : (j : String) → name ≢ j → get_group b j t ≡ get_group b j s

  unchanged-Removed :
      (id : ℕ) (name : String) (s : b.Store)
      → ((g : Group) → get_group b name s ≡ here g → participant id g ≡ "")
      → Removed id name s s
  unchanged-Removed id name s gone = record {
    gone = gone;
    kept = λ g e. (g, e, refl, refl, refl, λ i other. refl);
    others = λ j other. refl;
  }

  remove_found :
      (id : ℕ) (name : String) (s t : b.Store) (done : Bool) (g : Group)
      → get_group b name s ≡ here g
      → remove_user_in_group b id name s ≡ ok (t, done)
      → (done ≡ true) × Removed id name s t
  unfolding remove_user_in_group
  remove_found id name s t done g there h = elim (Bool-cases (participant id g == "")) [
    | inl absent ↦
        let same : s ≡ t = ground (arith, there, absent) in
        (
          ground (arith, there, absent),
          subst (Removed id name s) same (
              unchanged-Removed id name s (λ x e.
                let agree : g ≡ x = ground (arith, there, e) in
                rw (← agree) ((eq_iff (participant id g) "").0 absent))),
        )
    | inr present ↦
        let g' = record g { participants = delete id g.participants } in
        let wrote : update_group b name g' s ≡ ok (t, done) = ground (arith, there, present) in
        let (updated, reads) = get-update b law name g' s t done wrote in
        let is_new = λ (x : Group) (e : get_group b name t ≡ here x).
          (let agree : g' ≡ x = ground (arith, reads name ∙ read_self b law name g' _, e) in
            agree) in
        (
          updated,
          record {
            gone = λ x e. rw (← is_new x e) (ground (arith, lookup-delete id id g.participants));
            kept = λ x e. (
              g,
              there,
              ap (λ (y : Group). y.group_id) (sym (is_new x e)),
              ap (λ (y : Group). y.groupname) (sym (is_new x e)),
              ap (λ (y : Group). y.messages) (sym (is_new x e)),
              λ i other.
                  ap (λ (y : Group). lookup i y.participants) (sym (is_new x e))
                  ∙ ground (arith, lookup-delete id i g.participants),
            );
            others = λ j other. reads j ∙ read_other b law name j g' _ other;
          },
        )
  ]

  remove_by :
      (r : Option Group × Bool) (id : ℕ) (name : String) (s t : b.Store) (done : Bool)
      → get_group b name s ≡ r
      → remove_user_in_group b id name s ≡ ok (t, done)
      → (done ≡ true) × Removed id name s t
  remove_by (some g, true) id name s t done e h = remove_found id name s t done g e h
  remove_by (none, true) id name s t done e h =
      absurd (unfold remove_user_in_group in ground (arith, e))
  remove_by (x, false) id name s t done e h =
      let same : s ≡ t = unfold remove_user_in_group in ground (arith, e) in
      (
        unfold remove_user_in_group in ground (arith, e),
        subst (Removed id name s) same
            (unchanged-Removed id name s (λ g there. absurd (ground (arith, e, there)))),
      )

  -- On a lawful store, a RemoveUserInGroup that does not panic reports success. Then nobody of that
  -- id is left in the group but under the empty name; the group's id, its name, its messages and its
  -- other members are as they were, and so is what reads of other names give.
  pub remove_user-Removed :
      (id : ℕ) (name : String) (s t : b.Store) (done : Bool)
      → remove_user_in_group b id name s ≡ ok (t, done)
      → (done ≡ true) × Removed id name s t
  remove_user-Removed id name s t done h = remove_by (get_group b name s) id name s t done refl h
