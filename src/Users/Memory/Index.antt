-- ===== src/Users/Memory/Index.antt =====
-- The three maps of users/memory.go, and whether they fit together.
use secure_store.Base64.{encode_std}
use secure_store.Base64.Injective.{encode_std-injective}
use secure_store.Cipher.RoundTrip.{IsByte}
use secure_store.Effects.{err, ok, user_with_username_already_exists}
use secure_store.Effects.Reader.{Bytes}
use secure_store.GoMap.{get, get-put, has, put}
use secure_store.Prelude.{
  All, Bool-cases, List, Option, Option-cases, String, ap, arith, false, inl, inr, is_some, none,
  refl, some, subst, sym, true, ℕ, ◌∙◌, ◌≡◌,
}
use secure_store.Prelude.Eq.{beq_refl, bytes_Eq, bytes_eq, bytes_eq_iff, string_Eq, ◌==◌}
use secure_store.Users.{User, Uuid, verify_api_key}
use secure_store.Users.Memory.{
  MemoryStore, create, delete, new_memory_store, resolve_by_api_key, resolve_by_username,
  resolve_by_uuid,
}
use text.Mathlib.TextEquality.{eq_iff}
use text.Mathlib.TextPositions.{eq_refl}

module _ (user : User) (m m' : MemoryStore) (e : create user m ≡ (ok tt, m')) where
  created : m' ≡ record {
    user_by_id = put user.id user m.user_by_id;
    uuid_by_api_key = put (encode_std user.api_key) user.id m.uuid_by_api_key;
    uuid_by_username = put user.username user.id m.uuid_by_username;
  }
  unfolding create
  created = ground arith

  -- After a `create` that succeeds, the user is found by id, by API key and by user name.
  pub resolve_by_uuid-create :
      (resolve_by_uuid user.id m' ≡ ok user)
      × (resolve_by_api_key user.api_key m' ≡ ok user)
      × (resolve_by_username user.username m' ≡ ok user)
  unfolding resolve_by_api_key resolve_by_username
  resolve_by_uuid-create =
      let by_id = get-put user.id user.id user m.user_by_id in
      let by_key =
        get-put (encode_std user.api_key) (encode_std user.api_key) user.id m.uuid_by_api_key in
      let by_name = get-put user.username user.username user.id m.uuid_by_username in
      rw created (
        ground (arith, by_id, beq_refl user.id),
        ground (arith, by_id, by_key, beq_refl user.id, beq_refl (encode_std user.api_key)),
        ground (arith, by_id, by_name, beq_refl user.id, eq_refl user.username),
      )

-- Every entry of the two indices leads to a user with that API key or user name, whose id it is.
pub record Indexed (m : MemoryStore) : Type 0 where
  pub by_api_key :
      (k : List ℕ) (id : Uuid)
      → get k m.uuid_by_api_key ≡ some id
      → (u : User) × (get id m.user_by_id ≡ some u) × (encode_std u.api_key ≡ k)
  pub by_username :
      (n : String) (id : Uuid)
      → get n m.uuid_by_username ≡ some id
      → (u : User) × (get id m.user_by_id ≡ some u) × (u.username ≡ n)

pub new_memory_store-Indexed : Indexed new_memory_store
unfolding new_memory_store get
new_memory_store-Indexed = record { by_api_key = λ k id e. cc; by_username = λ n id e. cc }

module _ (user : User) (m : MemoryStore) (h : Indexed m)
    (fresh : get user.id m.user_by_id ≡ none) where
  -- A user found before is found after.
  still :
      (id : Uuid) (u : User)
      → get id m.user_by_id ≡ some u
      → get id (put user.id user m.user_by_id) ≡ some u
  still id u e = elim (Bool-cases (bytes_eq user.id id)) [
    | inl t ↦ absurd (
        some_none
          (sym e ∙ ap (λ i. get i m.user_by_id) (sym ((bytes_eq_iff user.id id).0 t)) ∙ fresh))
    | inr f ↦ ground (arith, get-put user.id id user m.user_by_id)
  ]
    where
      some_none : ¬ ◌≡◌ {A = Option User} (some u) none
      some_none q = cc

  added_here : get user.id (put user.id user m.user_by_id) ≡ some user
  added_here = ground (arith, get-put user.id user.id user m.user_by_id, beq_refl user.id)

  added-Indexed : Indexed (record {
    user_by_id = put user.id user m.user_by_id;
    uuid_by_api_key = put (encode_std user.api_key) user.id m.uuid_by_api_key;
    uuid_by_username = put user.username user.id m.uuid_by_username;
  })
  added-Indexed = record {
    by_api_key = λ k id e. elim (Bool-cases (bytes_eq (encode_std user.api_key) k)) [
      | inl t ↦
          let same : user.id ≡ id =
            ground (arith, get-put (encode_std user.api_key) k user.id m.uuid_by_api_key) in
          (
            user,
            subst (λ i. get i (put user.id user m.user_by_id) ≡ some user) same added_here,
            (bytes_eq_iff _ k).0 t,
          )
      | inr f ↦
          let (u, g, q) =
            h.by_api_key k id
              (ground (arith, get-put (encode_std user.api_key) k user.id m.uuid_by_api_key)) in
          (u, still id u g, q)
    ];
    by_username = λ n id e. elim (Bool-cases (user.username == n)) [
      | inl t ↦
          let same : user.id ≡ id =
            ground (arith, get-put user.username n user.id m.uuid_by_username) in
          (
            user,
            subst (λ i. get i (put user.id user m.user_by_id) ≡ some user) same added_here,
            (eq_iff _ n).0 t,
          )
      | inr f ↦
          let (u, g, q) =
            h.by_username n id
              (ground (arith, get-put user.username n user.id m.uuid_by_username)) in
          (u, still id u g, q)
    ];
  }

-- `create`, whether it succeeds or not, keeps the invariant of the user store: each entry of the
-- index of API keys leads to a user with that key, and each entry of the index of user names to a
-- user of that name.
pub create-Indexed : (user : User) (m : MemoryStore) → Indexed m → Indexed (create user m).1
unfolding create has
create-Indexed user m h = elim (Option-cases (get user.id m.user_by_id)) [
  | inr (u, e) ↦ rw e h
  | inl e ↦ rw e (elim (Bool-cases (is_some (get (encode_std user.api_key) m.uuid_by_api_key))) [
    | inl t ↦ rw t h
    | inr f ↦ rw f (elim (Bool-cases (is_some (get user.username m.uuid_by_username))) [
      | inl t ↦ rw t h
      | inr g ↦ rw g (added-Indexed user m h e)
    ])
  ])
]

-- Every user has an API key of bytes.
abbrev pub ByteKeys : MemoryStore → Type 0
ByteKeys m = (id : Uuid) (u : User) → get id m.user_by_id ≡ some u → All IsByte u.api_key

-- In a user store with the invariant of its indices, all API keys being bytes: a user found by an
-- API key verifies that API key.
pub verify_api_key-resolve_by_api_key :
    (api_key : Bytes) (m : MemoryStore) (u : User)
    → Indexed m
    → ByteKeys m
    → All IsByte api_key
    → resolve_by_api_key api_key m ≡ ok u
    → verify_api_key u api_key ≡ true
unfolding resolve_by_api_key verify_api_key
verify_api_key-resolve_by_api_key api_key m u h b k e =
    elim (Option-cases (get (encode_std api_key) m.uuid_by_api_key)) [
      | inl n ↦ ground arith
      | inr (id, p) ↦
          let (u', g, q) = h.by_api_key (encode_std api_key) id p in
          let same : u' ≡ u = ground arith in
          let bytes : All IsByte u'.api_key = b id u' g in
          rw (← same) (
            (bytes_eq_iff api_key u'.api_key).1
              (sym (encode_std-injective u'.api_key api_key bytes k q)))
    ]

delete_keeps_names :
    (id : Uuid) (m : MemoryStore) → (delete id m).1.uuid_by_username ≡ m.uuid_by_username
unfolding delete
delete_keeps_names id m = ground arith

name_taken :
    (user : User) (m m' : MemoryStore)
    → create user m ≡ (ok tt, m')
    → has user.username m'.uuid_by_username ≡ true
unfolding has
name_taken user m m' e = rw (created user m m' e) (
    ground (
      arith,
      get-put user.username user.username user.id m.uuid_by_username,
      eq_refl user.username,
    ))

-- After a user was created and deleted, creating another user of the same user name, whose id and
-- API key are free, fails because the user name is taken.
pub create-delete :
    (user other : User) (m m' : MemoryStore)
    → create user m ≡ (ok tt, m')
    → other.username ≡ user.username
    → has other.id (delete user.id m').1.user_by_id ≡ false
    → has (encode_std other.api_key) (delete user.id m').1.uuid_by_api_key ≡ false
    → create other (delete user.id m').1
      ≡ (err user_with_username_already_exists, (delete user.id m').1)
unfolding create
create-delete user other m m' e same i k =
    let taken : has other.username (delete user.id m').1.uuid_by_username ≡ true =
      rw (delete_keeps_names, same) (name_taken user m m' e) in
    rw (i, create) (rw k (rw taken refl))
