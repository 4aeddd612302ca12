-- ===== src/Friends/Memory.antt =====
-- A Redis server in memory that meets the laws of `Redis`, and a codec of UUIDs, for examples.
use cyandie_backend.Common.{
  ℕ, String, Bool, true, false, not, ◌&&◌, Option, some, List, [], ◌∷◌, ◌≡◌, refl, arith,
  if◌then◌else◌, str_eq, str_eq_iff, str_eq_refl, keep, any,
}
use cyandie_backend.Friends.Redis.{Redis}

pub record Memory : Type 0 where
  -- Pairs of a key and a member.
  pub sets : List (String × String)
  -- The keys that hold a text.
  pub texts : List String

abbrev pub is_entry : String → String → String × String → Bool
is_entry key member (k, m) = str_eq key k && str_eq member m

unfoldable pub has_member : String → String → List (String × String) → Bool
has_member key member = any (is_entry key member)

unfoldable pub remove_member : String → String → List (String × String) → List (String × String)
remove_member key member = keep (λ e. not (is_entry key member e))

unfoldable pub exists_text : String → List String → ℕ
exists_text key texts = if any (str_eq key) texts then 1 else 0

pub has_member-cons :
    (key member k m : String) (sets : List (String × String))
    → some (has_member k m ((key, member) ∷ sets))
      ≡ (if str_eq key k && str_eq member m then some true else some (has_member k m sets))
unfolding has_member
has_member-cons key member k m sets =
    ground (arith, str_eq_iff key k, str_eq_iff k key, str_eq_iff member m, str_eq_iff m member)

pub has_member-remove :
    (key member k m : String) (sets : List (String × String))
    → some (has_member k m (remove_member key member sets))
      ≡ (if str_eq key k && str_eq member m then some false else some (has_member k m sets))
unfolding has_member remove_member
has_member-remove key member k m [] = ground arith
has_member-remove key member k m ((j, n) ∷ sets) = ground (
  arith,
  has_member-remove key member k m sets,
  str_eq_iff key k,
  str_eq_iff key j,
  str_eq_iff k j,
  str_eq_iff member m,
  str_eq_iff member n,
  str_eq_iff m n,
)

exists_text-cons : (key : String) (texts : List String) → exists_text key (key ∷ texts) ≡ 1
unfolding exists_text
exists_text-cons key texts = rw str_eq_refl

pub exists_text-keep :
    (key k : String) (texts : List String)
    → some (exists_text k (keep (λ t. not (str_eq key t)) texts))
      ≡ (if str_eq key k then some 0 else some (exists_text k texts))
unfolding exists_text
exists_text-keep key k [] = ground arith
exists_text-keep key k (t ∷ texts) =
    ground (arith, exists_text-keep key k texts, str_eq_iff key k, str_eq_iff key t, str_eq_iff k t)

unfoldable pub set_text : String → Memory → Option Bool × Memory
set_text key s =
    if any (str_eq key) s.texts
    then (some false, s)
    else (some true, record s { texts = key ∷ s.texts })

pub set_text-new :
    (key : String) (s : Memory)
    → some (exists_text key s.texts) ≡ some 0
    → (set_text key s).0 ≡ some true
unfolding set_text exists_text
set_text-new key s h = ground arith

pub set_text-old :
    (key : String) (s : Memory)
    → some (exists_text key s.texts) ≡ some 1
    → (set_text key s).0 ≡ some false
unfolding set_text exists_text
set_text-old key s h = ground arith

pub exists-set_text :
    (key : String) (s : Memory) → some (exists_text key (set_text key s).1.texts) ≡ some 1
unfolding set_text exists_text
exists-set_text key s = ground (arith, str_eq_refl key)

abbrev pub memory_redis : Redis
memory_redis = record {
  Store = Memory;
  Up = λ s. Unit {0};
  s_add = λ key member s. record s { sets = (key, member) ∷ s.sets };
  s_rem = λ key member s. record s { sets = remove_member key member s.sets };
  s_is_member = λ key member s. some (has_member key member s.sets);
  set_nx = λ key value ttl s. set_text key s;
  expire = λ key ttl s. s;
  exists = λ key s. some (exists_text key s.texts);
  del = λ key s. record s { texts = keep (λ t. not (str_eq key t)) s.texts };
  z_rem_range_by_score = λ key cutoff s. s;
  z_rev_range_by_score = λ key max count s. some [];
  s_add-Up = λ key member s h. tt;
  s_rem-Up = λ key member s h. tt;
  s_is_member-s_add = λ key member k m s h. has_member-cons key member k m s.sets;
  s_is_member-s_rem = λ key member k m s h. has_member-remove key member k m s.sets;
  set_nx-new = λ key value ttl s h e. set_text-new key s e;
  set_nx-old = λ key value ttl s h e. set_text-old key s e;
  set_nx-Up = λ key value ttl s h. tt;
  exists-set_nx = λ key value ttl s h. exists-set_text key s;
  expire-Up = λ key ttl s h. tt;
  exists-expire = λ key k ttl s h some_time. refl;
  del-Up = λ key s h. tt;
  exists-del = λ key k s h. exists_text-keep key k s.texts;
}
