-- ===== src/Platforms/Access.antt =====
-- The ways to log in that the requests to internal/platforms/service.go leave to every user.
use cyandie_backend.Common.{
  ℕ, String, Bool, true, false, not, ◌&&◌, ◌||◌, Option, none, some, List, [], ◌∷◌, ◌≡◌, refl, sym,
  subst, ◌⊎◌, arith, if◌then◌else◌, ◌==◌, ==_iff, str_eq, inl, inr, Bool-cases, Option-cases, keep,
  any, any-append, any-keep, length,
}
use Prim.Native.String.{◌++◌ as append}
use cyandie_backend.Core.Exec.{pure, ◌>>=◌}
use cyandie_backend.Core.Errors.{Result, Result-cases, err, plain, fail, err_internal}
use cyandie_backend.Db.Rows.{DbResult, DbResult-cases, row, no_rows, failed}
use cyandie_backend.Db.Users.{Accounts, AccountEnv, create_user, count_user_credentials}
use cyandie_backend.Db.Bindings.{
  PlatformBinding, CreatePlatformBindingParams, BindingEnv, is_binding_of, new_binding,
  create_platform_binding, delete_platform_binding, get_platform_binding,
  get_platform_bindings_by_user_id,
}
use cyandie_backend.Uuid.{UuidCodec}
use cyandie_backend.Platforms.Providers.{OAuthToken, PlatformUser, PlatformRegistry}
use cyandie_backend.Platforms.{
  PlatformTables, PlatformEnv, slice, id_or_nil, identify, sign_up, known_or_new, insert_binding,
  handle_callback, is_taken_by_other, binding_params, bind_platform, unbind_platform, count_or_zero,
}

-- The user has a credential or a binding.
abbrev pub CanLogIn : ℕ → PlatformTables → Type 0
CanLogIn id w =
    (any (λ c. c.user_id == id) w.accounts.credentials || any (λ b. b.user_id == id) w.bindings)
    ≡ true

length-keep {ℓ} :
    {A : Type ℓ} (p : A → Bool) (xs : List A) → (length (keep p xs) == 0) ≡ not (any p xs)
length-keep p [] = ground arith
length-keep p (x ∷ xs) = ground (arith, length-keep p xs)

any-ext {ℓ} :
    {A : Type ℓ} (p q : A → Bool) (xs : List A) → ((x : A) → p x ≡ q x) → any p xs ≡ any q xs
any-ext p q [] same = refl
any-ext p q (x ∷ xs) same = ground (arith, same x, any-ext p q xs same)

any-both {ℓ} :
    {A : Type ℓ} (p q : A → Bool) (xs : List A) → any (λ x. p x && q x) xs ≡ true → any p xs ≡ true
any-both p q [] h = h
any-both p q (x ∷ xs) h = ground (arith, any-both p q xs, h)

-- What is left of a user's bindings after those of one user on one platform go.
any-delete :
    (uid id : ℕ) (name : String) (t : List PlatformBinding)
    → any (λ b. b.user_id == id) (keep (λ b. not (is_binding_of uid name b)) t) ≡ (
        if uid == id
        then any (λ b. not (str_eq b.platform name)) (keep (λ b. b.user_id == uid) t)
        else any (λ b. b.user_id == id) t)
any-delete uid id name [] = ground arith
any-delete uid id name (b ∷ t) = ground (arith, any-delete uid id name t)

delete_platform_binding-any :
    (env : BindingEnv) (uid id : ℕ) (name : String) (t : List PlatformBinding)
    → (uid == id) ≡ false
    → any (λ b. b.user_id == id) (delete_platform_binding env uid name t).1
      ≡ any (λ b. b.user_id == id) t
unfolding delete_platform_binding
delete_platform_binding-any env uid id name t other =
    ground (arith, any-delete uid id name t, other)

get_platform_bindings_by_user_id-row :
    (env : BindingEnv) (uid : ℕ) (t bs : List PlatformBinding)
    → get_platform_bindings_by_user_id env uid t ≡ row bs
    → keep (λ b. b.user_id == uid) t ≡ bs
unfolding get_platform_bindings_by_user_id
get_platform_bindings_by_user_id-row env uid t bs h = ground (arith, h)

count-any :
    (env : AccountEnv) (uid : ℕ) (t : Accounts)
    → (count_or_zero (count_user_credentials env uid t) == 0) ≡ false
    → any (λ c. c.user_id == uid) t.credentials ≡ true
unfolding count_user_credentials
count-any env uid t h = ground (arith, h, length-keep (λ c. c.user_id == uid) t.credentials)

delete_platform_binding-any_own :
    (env : BindingEnv) (uid : ℕ) (name : String) (t : List PlatformBinding)
    → (length (keep (λ b. not (str_eq b.platform name)) (keep (λ b. b.user_id == uid) t)) == 0)
      ≡ false
    → any (λ b. b.user_id == uid) (delete_platform_binding env uid name t).1 ≡ true
unfolding delete_platform_binding
delete_platform_binding-any_own env uid name t h =
    let others : any (λ b. not (str_eq b.platform name)) (keep (λ b. b.user_id == uid) t) ≡ true =
      ground (
        arith,
        h,
        length-keep (λ b. not (str_eq b.platform name)) (keep (λ b. b.user_id == uid) t),
      ) in
    ground (
      arith,
      others,
      any-delete uid uid name t,
      any-keep (λ b. not (str_eq b.platform name)) (λ b. b.user_id == uid) t,
      any-both (λ b. b.user_id == uid) (λ b. not (str_eq b.platform name)) t,
    )

module _ (u : UuidCodec) (env : PlatformEnv) where
  -- Either nothing changes, or the bindings of the user on the platform go, and the user has a credential or
  -- a binding on another platform.
  unbind_platform-cases :
      (user_id name : String) (w : PlatformTables)
      → let uid = id_or_nil (u.parse user_id) in
        let w' = (unbind_platform u env user_id name w).1 in
        (w' ≡ w)
        ⊎ ((w'
              ≡ record w { bindings = (delete_platform_binding env.binding uid name w.bindings).1 })
            × (((count_or_zero (count_user_credentials env.account uid w.accounts) == 0)
                  && (length (
                        keep
                          (λ b. not (str_eq b.platform name))
                          (keep (λ b. b.user_id == uid) w.bindings))
                      == 0))
                ≡ false))
  unfolding unbind_platform
  unbind_platform-cases user_id name w =
      let uid = id_or_nil (u.parse user_id) in
      elim (DbResult-cases (get_platform_bindings_by_user_id env.binding uid w.bindings)) [
        | inr (inl missing) ↦ inl (rw missing refl)
        | inr (inr broken) ↦ inl (rw broken refl)
        | inl (bs, got) ↦
            let mine = get_platform_bindings_by_user_id-row env.binding uid w.bindings bs got in
            elim (Bool-cases (any (λ b. str_eq b.platform name) bs)) [
              | inr unbound ↦ inl (rw (got, unbound) refl)
              | inl bound ↦
                  elim (Bool-cases (
                    (count_or_zero (count_user_credentials env.account uid w.accounts) == 0)
                    && (length (keep (λ b. not (str_eq b.platform name)) bs) == 0))) [
                      | inl last ↦ inl (rw (got, bound, last) refl)
                      | inr spare ↦
                          elim (DbResult-cases
                            (delete_platform_binding env.binding uid name w.bindings).0) [
                              | inl (b, gone) ↦
                                  inr (rw (got, bound, spare, gone) refl, rw mine spare)
                              | inr (inl missing) ↦
                                  inr (rw (got, bound, spare, missing) refl, rw mine spare)
                              | inr (inr broken) ↦
                                  inr (rw (got, bound, spare, broken) refl, rw mine spare)
                            ]
                    ]
            ]
      ]

  delete_platform_binding-CanLogIn :
      (uid id : ℕ) (name : String) (w : PlatformTables)
      → ((count_or_zero (count_user_credentials env.account uid w.accounts) == 0)
          && (length
                (keep (λ b. not (str_eq b.platform name)) (keep (λ b. b.user_id == uid) w.bindings))
              == 0))
        ≡ false
      → CanLogIn id w
      → CanLogIn id
          (record w { bindings = (delete_platform_binding env.binding uid name w.bindings).1 })
  delete_platform_binding-CanLogIn uid id name w spare can = elim (Bool-cases (uid == id)) [
    | inr other ↦ rw (delete_platform_binding-any env.binding uid id name w.bindings other) can
    | inl own ↦
        let same : uid ≡ id = (==_iff uid id).0 own in
        rw (sym same)
          (elim (Bool-cases
            (count_or_zero (count_user_credentials env.account uid w.accounts) == 0)) [
              | inr some_credentials ↦
                  ground (arith, count-any env.account uid w.accounts some_credentials)
              | inl none_left ↦ ground (
                arith,
                delete_platform_binding-any_own env.binding uid name w.bindings
                    (ground (arith, none_left, spare)),
              )
            ])
  ]

  -- A user who had a way to log in has one after `UnbindPlatform`, whoever asks for whatever platform, also
  -- when queries fail.
  pub unbind_platform-CanLogIn :
      (user_id name : String) (id : ℕ) (w : PlatformTables)
      → CanLogIn id w
      → CanLogIn id (unbind_platform u env user_id name w).1
  unbind_platform-CanLogIn user_id name id w can = elim (unbind_platform-cases user_id name w) [
    | inl kept ↦ subst (CanLogIn id) (sym kept) can
    | inr (gone, spare) ↦
        subst (CanLogIn id) (sym gone)
          (delete_platform_binding-CanLogIn (id_or_nil (u.parse user_id)) id name w spare can)
  ]

  insert_binding-CanLogIn :
      (id : ℕ) (arg : CreatePlatformBindingParams) (e : Result PlatformBinding) (w : PlatformTables)
      → CanLogIn id w
      → CanLogIn id (insert_binding u env arg e w).1
  unfolding create_platform_binding
  insert_binding-CanLogIn id arg e w can =
      ground (
        arith,
        can,
        any-append (λ b. b.user_id == id) w.bindings (new_binding env.binding arg ∷ []),
      )

  continue_binding-CanLogIn :
      {B : Type 0} (id : ℕ) (arg : CreatePlatformBindingParams) (e : Result PlatformBinding)
      (b : PlatformBinding → B) (w : PlatformTables)
      → CanLogIn id w
      → CanLogIn id ((insert_binding u env arg e >>= λ x. pure (b x)) w).1
  continue_binding-CanLogIn id arg e b w can =
      elim (Result-cases (insert_binding u env arg e w).0) [
        | inl (x, done) ↦ rw done (insert_binding-CanLogIn id arg e w can)
        | inr (inl (x, refused)) ↦ rw refused (insert_binding-CanLogIn id arg e w can)
        | inr (inr broken) ↦ rw broken (insert_binding-CanLogIn id arg e w can)
      ]

  create_user-CanLogIn :
      (id : ℕ) (username : String) (email display_name : Option String) (w : PlatformTables)
      → CanLogIn id w
      → CanLogIn id (record w {
        accounts = (create_user env.account username email display_name w.accounts).1;
      })
  unfolding create_user
  create_user-CanLogIn id username email display_name w can = ground (arith, can)

  sign_up-CanLogIn :
      (id : ℕ) (name : String) (token : OAuthToken) (user : PlatformUser) (w : PlatformTables)
      → CanLogIn id w
      → CanLogIn id (sign_up u env name token user w).1
  unfolding sign_up
  sign_up-CanLogIn id name token user w can = elim (Option-cases (slice 8 user.platform_id)) [
    | inl short ↦ rw short can
    | inr (first, long) ↦
        let still =
          create_user-CanLogIn id (append "wx_" first) none (some user.display_name) w can in
        elim (DbResult-cases
          (create_user env.account (append "wx_" first) none (some user.display_name)
            w.accounts).0) [
              | inl (v, made) ↦
                  rw (long, made)
                    (continue_binding-CanLogIn id (binding_params v.id name token user)
                      (fail err_internal "failed to create platform binding")
                      (λ b. record { user_id = u.format v.id; is_new_user = true }) _ still)
              | inr (inl missing) ↦ rw (long, missing) still
              | inr (inr broken) ↦ rw (long, broken) still
            ]
  ]

  known_or_new-CanLogIn :
      (id : ℕ) (name : String) (token : OAuthToken) (user : PlatformUser)
      (found : DbResult PlatformBinding) (w : PlatformTables)
      → CanLogIn id w
      → CanLogIn id (known_or_new u env name token user found w).1
  known_or_new-CanLogIn id name token user (row b) w can = can
  known_or_new-CanLogIn id name token user no_rows w can = sign_up-CanLogIn id name token user w can
  known_or_new-CanLogIn id name token user failed w can = sign_up-CanLogIn id name token user w can

  handle_callback-CanLogIn :
      (id : ℕ) (r : PlatformRegistry) (name code : String) (w : PlatformTables)
      → CanLogIn id w
      → CanLogIn id (handle_callback u env r name code w).1
  unfolding handle_callback
  handle_callback-CanLogIn id r name code w can = elim (Result-cases (identify r name code)) [
    | inl (identity, told) ↦ rw told (
        known_or_new-CanLogIn id name identity.0 identity.1
          (get_platform_binding env.binding name identity.1.platform_id w.bindings) w can)
    | inr (inl (e, refused)) ↦ rw refused can
    | inr (inr broken) ↦ rw broken can
  ]

  bind_platform-CanLogIn :
      (id : ℕ) (r : PlatformRegistry) (user_id name code : String) (w : PlatformTables)
      → CanLogIn id w
      → CanLogIn id (bind_platform u env r user_id name code w).1
  unfolding bind_platform
  bind_platform-CanLogIn id r user_id name code w can = elim (Result-cases (identify r name code)) [
    | inl (identity, told) ↦
        let uid = id_or_nil (u.parse user_id) in
        let existing = get_platform_binding env.binding name identity.1.platform_id w.bindings in
        elim (Bool-cases (is_taken_by_other uid existing)) [
          | inl other ↦ rw (told, other) can
          | inr free ↦
              rw (told, free)
                (continue_binding-CanLogIn id (binding_params uid name identity.0 identity.1)
                  (err (plain "create binding")) (λ b. tt) w can)
        ]
    | inr (inl (e, refused)) ↦ rw refused can
    | inr (inr broken) ↦ rw broken can
  ]

-- One request to the service.
pub data PlatformRequest : Type 0 where
  calls_back : PlatformRegistry → String → String → PlatformRequest
  binds : PlatformRegistry → String → String → String → PlatformRequest
  unbinds : String → String → PlatformRequest

module _ (u : UuidCodec) where
  unfoldable pub serve : PlatformEnv → PlatformRequest → PlatformTables → PlatformTables
  serve env (calls_back r name code) w = (handle_callback u env r name code w).1
  serve env (binds r user_id name code) w = (bind_platform u env r user_id name code w).1
  serve env (unbinds user_id name) w = (unbind_platform u env user_id name w).1

  unfoldable pub serve_all : List (PlatformEnv × PlatformRequest) → PlatformTables → PlatformTables
  serve_all [] w = w
  serve_all ((env, q) ∷ qs) w = serve_all qs (serve env q w)

  -- A user who has a way to log in has one after any number of requests by anybody, each of them with
  -- statements of its own that fail.
  pub serve_all-CanLogIn :
      (id : ℕ) (qs : List (PlatformEnv × PlatformRequest)) (w : PlatformTables)
      → CanLogIn id w
      → CanLogIn id (serve_all qs w)
  unfolding serve_all serve
  serve_all-CanLogIn id [] w can = can
  serve_all-CanLogIn id ((env, calls_back r name code) ∷ qs) w can =
      serve_all-CanLogIn id qs _ (handle_callback-CanLogIn u env id r name code w can)
  serve_all-CanLogIn id ((env, binds r user_id name code) ∷ qs) w can =
      serve_all-CanLogIn id qs _ (bind_platform-CanLogIn u env id r user_id name code w can)
  serve_all-CanLogIn id ((env, unbinds user_id name) ∷ qs) w can =
      serve_all-CanLogIn id qs _ (unbind_platform-CanLogIn u env user_id name id w can)
