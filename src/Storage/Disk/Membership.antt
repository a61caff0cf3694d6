-- ===== src/Storage/Disk/Membership.antt =====
-- JoinGroup, as later reads of the groups see it.
use advanced_group_chat_syst.Base.{
  ℕ, String, Bool, true, false, ◌≡◌, ◌≢◌, refl, ap, ◌∙◌, Option, none, some, Option-cases, inl, inr,
  [], ok, Result-cases, ◌>>=◌, Map, lookup, insert, nat_eq, string_eq, ◌==◌, eq_iff, lookup-insert,
  if◌then◌else◌, arith, subst,
}
use advanced_group_chat_syst.Pb.{User, get_id, get_name, Group}
use advanced_group_chat_syst.Storage.Backend.{Backend, IsLawful}
use advanced_group_chat_syst.Storage.Disk.{get_group, update_group, create_group, join_group}

-- What a read of a group gives when it is there.
abbrev pub here : Group → Option Group × Bool
here g = (some g, true)

module _ (b : Backend) (law : IsLawful b) where
  pub get-update :
      (name : String) (g : Group) (s t : b.Store) (done : Bool)
      → update_group b name g s ≡ ok (t, done)
      → (done ≡ true)
        × ((j : String) → get_group b j t ≡ (if name == j then here g else get_group b j s))
  unfolding update_group get_group
  get-update name g s t done h = elim (Option-cases (b.encode_group g)) [
    | inl bad ↦ absurd (ground (arith, law.copy_group_same g, bad))
    | inr (v, encoded) ↦ elim (Option-cases (b.set name v s)) [
      | inl bad ↦ absurd (ground (arith, law.copy_group_same g, encoded, bad))
      | inr (t', written) ↦
          let same : t' ≡ t = ground (arith, law.copy_group_same g, encoded, written) in
          (
            ground (arith, law.copy_group_same g, encoded, written),
            λ j.
                let read = law.get-set name j v s t' written in
                let back = law.group_round g v encoded in rw (← same) (ground (arith, read, back)),
          )
    ]
  ]

  -- The group after a join: the member is in it, under its name.
  pub record Joined (name : String) (user : Option User) (s t : b.Store) : Type 0 where
    pub group : Group
    pub found : get_group b name t ≡ here group
    pub member : lookup (get_id user) group.participants ≡ some (get_name user)
    pub kept :
        (g : Group)
        → get_group b name s ≡ here g
        → (group.group_id ≡ g.group_id)
          × (group.groupname ≡ g.groupname)
          × (group.messages ≡ g.messages)
          × ((i : ℕ) → i ≢ get_id user → lookup i group.participants ≡ lookup i g.participants)
    pub made :
        (get_group b name s).1 ≡ false
        → (group.groupname ≡ name)
          × (group.messages ≡ [])
          × ((i : ℕ) → i ≢ get_id user → lookup i group.participants ≡ none)
    pub others : (j : String) → name ≢ j → get_group b j t ≡ get_group b j s

  written :
      (name : String) (g : Group) (s t : b.Store)
      → (update_group b name g s >>= λ (s', _). ok s') ≡ ok t
      → update_group b name g s ≡ ok (t, true)
  written name g s t h = elim (Result-cases (update_group b name g s)) [
    | inl bad ↦ absurd (ground (arith, bad))
    | inr ((s', done), e) ↦ ground (arith, e, (get-update name g s s' done e).0)
  ]

  abbrev new_group : ℕ → String → Option User → Group
  new_group id name user = record {
    group_id = id;
    groupname = name;
    participants = insert (get_id user) (get_name user) [];
    messages = [];
  }

  member_inserted :
      (user : Option User) (m : Map ℕ String)
      → lookup (get_id user) (insert (get_id user) (get_name user) m) ≡ some (get_name user)
  member_inserted user m =
      ground (arith, lookup-insert (get_id user) (get_id user) (get_name user) m)

  others_inserted :
      (user : Option User) (m : Map ℕ String) (i : ℕ)
      → i ≢ get_id user
      → lookup i (insert (get_id user) (get_name user) m) ≡ lookup i m
  others_inserted user m i other = ground (arith, lookup-insert (get_id user) i (get_name user) m)

  pub read_self :
      (name : String) (g : Group) (r : Option Group × Bool)
      → (if name == name then here g else r) ≡ here g
  read_self name g r = ground (arith, eq_iff name name)

  pub read_other :
      (name j : String) (g : Group) (r : Option Group × Bool)
      → name ≢ j
      → (if name == j then here g else r) ≡ r
  read_other name j g r other = ground (arith, eq_iff name j)

  create_group-Joined :
      (id : ℕ) (name : String) (user : Option User) (s t : b.Store)
      → (get_group b name s).1 ≡ false
      → create_group b id name user s ≡ ok t
      → Joined name user s t
  unfolding create_group lookup
  create_group-Joined id name user s t missing h =
      let g = new_group id name user in
      let reads = (get-update name g s t true (written name g s t h)).1 in
      record {
        group = g;
        found = reads name ∙ read_self name g _;
        member = member_inserted user [];
        kept = λ old there. absurd (ground (arith, there));
        made = λ fresh. (refl, refl, λ i other. others_inserted user [] i other);
        others = λ j other. reads j ∙ read_other name j g _ other;
      }

  join_found :
      (id : ℕ) (name : String) (user : Option User) (s t : b.Store) (g : Group)
      → get_group b name s ≡ here g
      → join_group b id name user s ≡ ok t
      → Joined name user s t
  unfolding join_group
  join_found id name user s t g there h =
      let g' = record g { participants = insert (get_id user) (get_name user) g.participants } in
      elim (Result-cases (update_group b name g' s)) [
        | inl bad ↦ absurd (ground (arith, there, bad))
        | inr ((s', done), e) ↦
            let (updated, reads') = get-update name g' s s' done e in
            let same : s' ≡ t = ground (arith, there, e, updated) in
            let reads =
              subst
                (λ x.
                  (j : String) → get_group b j x ≡ (if name == j then here g' else get_group b j s))
                same reads' in
            record {
              group = g';
              found = reads name ∙ read_self name g' _;
              member = member_inserted user g.participants;
              kept = λ old old_there.
                  let agree : g ≡ old = ground (arith, there, old_there) in
                  (
                    ap (λ (x : Group). x.group_id) agree,
                    ap (λ (x : Group). x.groupname) agree,
                    ap (λ (x : Group). x.messages) agree,
                    λ i other.
                        others_inserted user g.participants i other
                        ∙ ap (λ (x : Group). lookup i x.participants) agree,
                  );
              made = λ fresh. absurd (ground (arith, there, fresh));
              others = λ j other. reads j ∙ read_other name j g' _ other;
            }
      ]

  join_by :
      (r : Option Group × Bool) (id : ℕ) (name : String) (user : Option User) (s t : b.Store)
      → get_group b name s ≡ r
      → join_group b id name user s ≡ ok t
      → Joined name user s t
  join_by (some g, true) id name user s t e h = join_found id name user s t g e h
  join_by (none, true) id name user s t e h = absurd (unfold join_group in ground (arith, e))
  join_by (x, false) id name user s t e h =
      create_group-Joined id name user s t (ap (λ p. p.1) e)
        (unfold join_group in ground (arith, e))

  -- On a lawful store, a JoinGroup that does not panic leaves the user in the group under its name.
  -- A group that existed keeps its id, its name, its messages and its other members; a new one
  -- has the name asked for, no messages and no other member. Reads of other names give what
  -- they gave.
  pub join_group-Joined :
      (id : ℕ) (name : String) (user : Option User) (s t : b.Store)
      → join_group b id name user s ≡ ok t
      → Joined name user s t
  join_group-Joined id name user s t h = join_by (get_group b name s) id name user s t refl h
