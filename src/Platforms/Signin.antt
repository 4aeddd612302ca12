-- ===== src/Platforms/Signin.antt =====
-- `HandleCallback` and `BindPlatform` of internal/platforms/service.go: whom an identity signs in.
use cyandie_backend.Common.{
  ℕ, zero, suc, ◌<◌, String, Bool, false, ◌||◌, Option, none, some, List, [], ◌∷◌, ◌≡◌, refl, ap,
  ◌∙◌, arith, ◌==◌, inl, inr, Bool-cases, Option-cases, find, any, find-append, any-find,
  any-append, str_eq_refl,
}
use Prim.Native.String.{◌++◌ as append}
use cyandie_backend.Core.Errors.{ok, panicked, fail, err_internal}
use cyandie_backend.Db.Rows.{DbResult-cases, row, no_rows, failed}
use cyandie_backend.Db.Users.{User, Accounts, AccountEnv, create_user_q, clashes, create_user}
use cyandie_backend.Db.Bindings.{
  PlatformBinding, CreatePlatformBindingParams, BindingEnv, get_platform_binding_q, is_binding,
  new_binding, create_platform_binding, get_platform_binding,
}
use cyandie_backend.Uuid.{UuidCodec}
use cyandie_backend.Platforms.Providers.{OAuthToken, PlatformUser, PlatformRegistry}
use cyandie_backend.Platforms.{
  PlatformTables, PlatformEnv, CallbackResult, prefixed, slice, string_length, id_or_nil, identify,
  sign_up, handle_callback, bind_platform, known_or_new, is_taken_by_other, binding_params,
}

-- The user that an identity is bound to.
pub record IsOwner (name platform_id : String) (id : ℕ) (bindings : List PlatformBinding)
    : Type 0 where
  pub binding : PlatformBinding
  pub found : find (is_binding name platform_id) bindings ≡ some binding
  pub owned : binding.user_id ≡ id

create_platform_binding-IsOwner :
    (env : BindingEnv) (is_user : ℕ → Bool) (arg : CreatePlatformBindingParams)
    (t : List PlatformBinding) (b : PlatformBinding)
    → (create_platform_binding env is_user arg t).0 ≡ row b
    → IsOwner arg.platform arg.platform_user_id arg.user_id
        (create_platform_binding env is_user arg t).1
unfolding create_platform_binding
create_platform_binding-IsOwner env is_user arg t b h =
    elim (Bool-cases (any (is_binding arg.platform arg.platform_user_id) t)) [
      | inl there ↦ ground (arith, there, h)
      | inr free ↦ record {
        binding = new_binding env arg;
        found = ground (
          arith,
          h,
          free,
          any-find (is_binding arg.platform arg.platform_user_id) t,
          find-append (is_binding arg.platform arg.platform_user_id) t (new_binding env arg ∷ []),
          str_eq_refl arg.platform,
          str_eq_refl arg.platform_user_id,
        );
        owned = refl;
      }
    ]

get_platform_binding-IsOwner :
    (env : BindingEnv) (name platform_id : String) (id : ℕ) (t : List PlatformBinding)
    → env.fails get_platform_binding_q ≡ false
    → (o : IsOwner name platform_id id t)
    → get_platform_binding env name platform_id t ≡ row o.binding
unfolding get_platform_binding
get_platform_binding-IsOwner env name platform_id id t answers o = rw (answers, o.found) refl

IsOwner-get_platform_binding :
    (env : BindingEnv) (name platform_id : String) (t : List PlatformBinding) (b : PlatformBinding)
    → get_platform_binding env name platform_id t ≡ row b
    → IsOwner name platform_id b.user_id t
unfolding get_platform_binding
IsOwner-get_platform_binding env name platform_id t b h =
    elim (Option-cases (find (is_binding name platform_id) t)) [
      | inl absent ↦ ground (arith, absent, h)
      | inr (c, found) ↦ record { binding = c; found = found; owned = ground (arith, found, h) }
    ]

slice-short : (n : ℕ) (s : String) → string_length s < n → slice n s ≡ none
slice-short zero s h = absurd (omega arith)
slice-short (suc n) String.[] h = refl
slice-short (suc n) (String.◌∷◌ c s) h = ap (prefixed c) (slice-short n s (omega arith))

-- A user name cannot be taken twice.
create_user-twice :
    (env later : AccountEnv) (username : String) (email display_name display_name' : Option String)
    (t : Accounts) (v : User)
    → (create_user env username email display_name t).0 ≡ row v
    → let t' = (create_user env username email display_name t).1 in
      create_user later username none display_name' t' ≡ (failed, t')
unfolding create_user
create_user-twice env later username email display_name display_name' t v h =
    elim (Bool-cases (env.fails create_user_q || any (clashes username email) t.users)) [
      | inl taken ↦ ground (arith, taken, h)
      | inr free ↦ ground (
        arith,
        free,
        any-append (clashes username none) t.users (
            record {
              id = env.new_id;
              username = username;
              email = email;
              display_name = display_name;
              avatar_url = none;
              status = "active";
            }
            ∷ []),
        str_eq_refl username,
      )
    ]

module _ (u : UuidCodec) where
  sign_up-IsOwner :
      (env : PlatformEnv) (name : String) (token : OAuthToken) (user : PlatformUser)
      (w : PlatformTables) (c : CallbackResult)
      → (sign_up u env name token user w).0 ≡ ok c
      → (id : ℕ) × (c.user_id ≡ u.format id)
        × IsOwner name user.platform_id id (sign_up u env name token user w).1.bindings
  unfolding sign_up
  sign_up-IsOwner env name token user w c h = elim (Option-cases (slice 8 user.platform_id)) [
    | inl short ↦ ground (arith, short, h)
    | inr (first, long) ↦
        let made =
          create_user env.account (append "wx_" first) none (some user.display_name) w.accounts in
        elim (DbResult-cases made.0) [
          | inl (v, created) ↦
              let bound =
                create_platform_binding env.binding (λ id. any (λ x. x.id == id) made.1.users)
                  (binding_params v.id name token user) w.bindings in
              elim (DbResult-cases bound.0) [
                | inl (b, kept) ↦ (
                  v.id,
                  ground (arith, long, created, kept, h),
                  rw (long, created, kept)
                      (create_platform_binding-IsOwner env.binding
                        (λ id. any (λ x. x.id == id) made.1.users)
                        (binding_params v.id name token user) w.bindings b kept),
                )
                | inr (inl missing) ↦ ground (arith, long, created, missing, h)
                | inr (inr broken) ↦ ground (arith, long, created, broken, h)
              ]
          | inr (inl missing) ↦ ground (arith, long, missing, h)
          | inr (inr broken) ↦ ground (arith, long, broken, h)
        ]
  ]

  handle_callback-identify :
      (env : PlatformEnv) (r : PlatformRegistry) (name code : String) (token : OAuthToken)
      (user : PlatformUser) (w : PlatformTables)
      → identify r name code ≡ ok (token, user)
      → handle_callback u env r name code w
        ≡ known_or_new u env name token user
            (get_platform_binding env.binding name user.platform_id w.bindings)
            w
  unfolding handle_callback
  handle_callback-identify env r name code token user w told = rw told refl

  -- A callback that succeeds answers with the user that the identity is bound to afterwards.
  handle_callback-IsOwner :
      (env : PlatformEnv) (r : PlatformRegistry) (name code : String) (token : OAuthToken)
      (user : PlatformUser) (w : PlatformTables) (c : CallbackResult)
      → identify r name code ≡ ok (token, user)
      → (handle_callback u env r name code w).0 ≡ ok c
      → (id : ℕ) × (c.user_id ≡ u.format id)
        × IsOwner name user.platform_id id (handle_callback u env r name code w).1.bindings
  handle_callback-IsOwner env r name code token user w c told h =
      let run = handle_callback-identify env r name code token user w told in
      elim (DbResult-cases (get_platform_binding env.binding name user.platform_id w.bindings)) [
        | inl (b, known) ↦
            rw (run, known)
              (
                b.user_id,
                ground (arith, run, known, h),
                IsOwner-get_platform_binding env.binding name user.platform_id w.bindings b known,
              )
        | inr (inl missing) ↦
            rw (run, missing)
              (sign_up-IsOwner env name token user w c (ground (arith, run, missing, h)))
        | inr (inr broken) ↦
            rw (run, broken)
              (sign_up-IsOwner env name token user w c (ground (arith, run, broken, h)))
      ]

  -- An identity that is bound signs its user in and changes nothing.
  IsOwner-handle_callback :
      (env : PlatformEnv) (r : PlatformRegistry) (name code : String) (token : OAuthToken)
      (user : PlatformUser) (w : PlatformTables) (id : ℕ)
      → identify r name code ≡ ok (token, user)
      → env.binding.fails get_platform_binding_q ≡ false
      → IsOwner name user.platform_id id w.bindings
      → handle_callback u env r name code w
        ≡ (ok (record { user_id = u.format id; is_new_user = false }), w)
  IsOwner-handle_callback env r name code token user w id told answers o =
      let known =
        get_platform_binding-IsOwner env.binding name user.platform_id id w.bindings answers o in
      rw (handle_callback-identify env r name code token user w told, known, o.owned) refl

  -- After a callback that succeeds, a later one with the same identity, by whatever code and token the
  -- platform tells it, answers with the same user, who is then not new, and changes nothing, provided that
  -- the lookup of the binding answers.
  pub handle_callback-again :
      (env later : PlatformEnv) (r : PlatformRegistry) (name code again : String)
      (token token' : OAuthToken) (user user' : PlatformUser) (w : PlatformTables)
      (c : CallbackResult)
      → identify r name code ≡ ok (token, user)
      → identify r name again ≡ ok (token', user')
      → user'.platform_id ≡ user.platform_id
      → later.binding.fails get_platform_binding_q ≡ false
      → (handle_callback u env r name code w).0 ≡ ok c
      → let w' = (handle_callback u env r name code w).1 in
        handle_callback u later r name again w'
        ≡ (ok (record { user_id = c.user_id; is_new_user = false }), w')
  handle_callback-again env later r name code again token token' user user' w c told told' same
        answers h =
      let w' = (handle_callback u env r name code w).1 in
      let (id, named, o) = handle_callback-IsOwner env r name code token user w c told h in
      rw named
        (IsOwner-handle_callback later r name again token' user' w' id told' answers (rw same o))

  bind_platform-IsOwner :
      (env : PlatformEnv) (r : PlatformRegistry) (user_id name code : String) (token : OAuthToken)
      (user : PlatformUser) (w : PlatformTables)
      → identify r name code ≡ ok (token, user)
      → (bind_platform u env r user_id name code w).0 ≡ ok tt
      → IsOwner name user.platform_id
          (id_or_nil (u.parse user_id))
          (bind_platform u env r user_id name code w).1.bindings
  unfolding bind_platform
  bind_platform-IsOwner env r user_id name code token user w told h =
      let uid = id_or_nil (u.parse user_id) in
      let arg = binding_params uid name token user in
      elim (Bool-cases (
        is_taken_by_other uid
          (get_platform_binding env.binding name user.platform_id w.bindings))) [
            | inl other ↦ ground (arith, told, other, h)
            | inr free ↦
                elim (DbResult-cases
                  (create_platform_binding env.binding
                    (λ id. any (λ x. x.id == id) w.accounts.users) arg w.bindings).0) [
                      | inl (b, kept) ↦
                          rw (told, free, kept)
                            (create_platform_binding-IsOwner env.binding
                              (λ id. any (λ x. x.id == id) w.accounts.users) arg w.bindings b kept)
                      | inr (inl missing) ↦ ground (arith, told, free, missing, h)
                      | inr (inr broken) ↦ ground (arith, told, free, broken, h)
                    ]
          ]

  -- After `BindPlatform` returns without an error, the identity that it bound signs in the user whose ID it
  -- was given, provided that the lookup of the binding answers both times.
  pub handle_callback-bind_platform :
      (env later : PlatformEnv) (r : PlatformRegistry) (user_id name code again : String)
      (token token' : OAuthToken) (user user' : PlatformUser) (w : PlatformTables)
      → identify r name code ≡ ok (token, user)
      → identify r name again ≡ ok (token', user')
      → user'.platform_id ≡ user.platform_id
      → later.binding.fails get_platform_binding_q ≡ false
      → (bind_platform u env r user_id name code w).0 ≡ ok tt
      → let w' = (bind_platform u env r user_id name code w).1 in
        handle_callback u later r name again w' ≡ (
          ok (record { user_id = u.format (id_or_nil (u.parse user_id)); is_new_user = false }),
          w',
        )
  handle_callback-bind_platform env later r user_id name code again token token' user user' w told
        told' same answers h =
      let w' = (bind_platform u env r user_id name code w).1 in
      IsOwner-handle_callback later r name again token' user' w' (id_or_nil (u.parse user_id)) told'
        answers (rw same (bind_platform-IsOwner env r user_id name code token user w told h))

  -- An identity of less than eight bytes that is not bound makes a callback panic; nothing has changed then.
  pub handle_callback-short :
      (env : PlatformEnv) (r : PlatformRegistry) (name code : String) (token : OAuthToken)
      (user : PlatformUser) (w : PlatformTables)
      → identify r name code ≡ ok (token, user)
      → get_platform_binding env.binding name user.platform_id w.bindings ≡ no_rows
      → string_length user.platform_id < 8
      → handle_callback u env r name code w ≡ (panicked, w)
  unfolding sign_up
  handle_callback-short env r name code token user w told unbound short =
      rw
        (
          handle_callback-identify env r name code token user w told,
          unbound,
          slice-short 8 user.platform_id short,
        )
        refl

  sign_up-create_user :
      (env : PlatformEnv) (name : String) (token : OAuthToken) (user : PlatformUser)
      (w : PlatformTables) (c : CallbackResult)
      → (sign_up u env name token user w).0 ≡ ok c
      → (first : String) × (v : User) × (slice 8 user.platform_id ≡ some first)
        × ((create_user env.account (append "wx_" first) none (some user.display_name) w.accounts).0
            ≡ row v)
        × ((sign_up u env name token user w).1.accounts
            ≡ (create_user env.account
                (append "wx_" first)
                none
                (some user.display_name)
                w.accounts).1)
  unfolding sign_up
  sign_up-create_user env name token user w c h = elim (Option-cases (slice 8 user.platform_id)) [
    | inl short ↦ ground (arith, short, h)
    | inr (first, long) ↦
        let made =
          create_user env.account (append "wx_" first) none (some user.display_name) w.accounts in
        elim (DbResult-cases made.0) [
          | inl (v, created) ↦ (
            first,
            v,
            long,
            created,
            elim (DbResult-cases
                (create_platform_binding env.binding (λ id. any (λ x. x.id == id) made.1.users)
                  (binding_params v.id name token user) w.bindings).0) [
                    | inl (b, kept) ↦ rw (long, created, kept) refl
                    | inr (inl missing) ↦ rw (long, created, missing) refl
                    | inr (inr broken) ↦ rw (long, created, broken) refl
                  ],
          )
          | inr (inl missing) ↦ ground (arith, long, missing, h)
          | inr (inr broken) ↦ ground (arith, long, broken, h)
        ]
  ]

  sign_up-taken :
      (env : PlatformEnv) (name : String) (token : OAuthToken) (user : PlatformUser)
      (w : PlatformTables) (first : String)
      → slice 8 user.platform_id ≡ some first
      → create_user env.account (append "wx_" first) none (some user.display_name) w.accounts
        ≡ (failed, w.accounts)
      → sign_up u env name token user w ≡ (fail err_internal "failed to create user", w)
  unfolding sign_up
  sign_up-taken env name token user w first long taken = rw (long, taken) refl

  -- After an identity has signed up, another one whose ID starts with the same eight bytes cannot: its
  -- callback is an internal error, on whatever platform, until it is bound to a user.
  pub handle_callback-same_prefix :
      (env later : PlatformEnv) (r : PlatformRegistry) (name other again : String)
      (token token' : OAuthToken) (user user' : PlatformUser) (w : PlatformTables)
      (c : CallbackResult)
      → (sign_up u env name token user w).0 ≡ ok c
      → let w' = (sign_up u env name token user w).1 in
        identify r other again ≡ ok (token', user')
        → get_platform_binding later.binding other user'.platform_id w'.bindings ≡ no_rows
        → slice 8 user'.platform_id ≡ slice 8 user.platform_id
        → handle_callback u later r other again w' ≡ (fail err_internal "failed to create user", w')
  handle_callback-same_prefix env later r name other again token token' user user' w c h told
        unbound same =
      let w' = (sign_up u env name token user w).1 in
      let (first, v, long, made, accounts) = sign_up-create_user env name token user w c h in
      let taken : create_user later.account (append "wx_" first) none (some user'.display_name)
            w'.accounts
          ≡ (failed, w'.accounts) =
        rw accounts (
          create_user-twice env.account later.account (append "wx_" first) none
            (some user.display_name) (some user'.display_name) w.accounts v made) in
      handle_callback-identify later r other again token' user' w' told
      ∙ ap (λ found. known_or_new u later other token' user' found w') unbound
      ∙ sign_up-taken later other token' user' w' first (same ∙ long) taken
