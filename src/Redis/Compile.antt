-- ===== src/Redis/Compile.antt =====
-- What compiled scripts ask for.
use singal.Common.{
  ℕ, ◌+◌, ◌≡◌, refl, ◌∙◌, true, false, String, none, some, List, [], ◌∷◌, ◌++◌, arith, length,
  length-append, Elem, ◌*◌, inl, inr, str_eq, eq_iff, if◌then◌else◌, ◌||◌,
}
use singal.Dict.{Dict, lookup, insert, lookup-insert, lookup-insert_self}
use singal.Rtc.Media.{ok}
use singal.Redis.{
  RedisKey, RedisScript, contains, supply, missing, compile_redis_scripts, join_redis_scripts,
  join_from, append_text, enveloped, add_names, unique_names, ids, get_unique_used_keys,
  get_scripts_unique_arg_names,
}

module _ {D : Type 0} where
  -- Whether a key is in the map.
  abbrev IsSupplied : Dict (RedisKey D) → String → Type 0
  IsSupplied m s = (k : RedisKey D) × (lookup s m ≡ some k)

  IsSupplied-insert :
      (m : Dict (RedisKey D)) (k : RedisKey D) (s : String)
      → IsSupplied m s
      → IsSupplied (insert k.id k m) s
  IsSupplied-insert m k s h = ground (arith, lookup-insert k.id s k m)

  IsSupplied-supply :
      (ks : List (RedisKey D)) (m : Dict (RedisKey D)) (s : String)
      → IsSupplied m s
      → IsSupplied (supply ks m) s
  unfolding supply
  IsSupplied-supply [] m s h = h
  IsSupplied-supply (k ∷ ks) m s h =
      IsSupplied-supply ks (insert k.id k m) s (IsSupplied-insert m k s h)

  IsSupplied-Elem :
      (ks : List (RedisKey D)) (m : Dict (RedisKey D)) (k : RedisKey D)
      → Elem k ks
      → IsSupplied (supply ks m) k.id
  unfolding supply
  IsSupplied-Elem [] m k h = elim h [ ]
  IsSupplied-Elem (x ∷ ks) m k (inl e) =
      IsSupplied-supply ks (insert x.id x m) k.id
        (x, ground (arith, e, lookup-insert_self x.id x m))
  IsSupplied-Elem (x ∷ ks) m k (inr h) = IsSupplied-Elem ks (insert x.id x m) k h

  missing-none :
      (ks : List (RedisKey D)) (m : Dict (RedisKey D))
      → ((k : RedisKey D) → Elem k ks → IsSupplied m k.id)
      → missing ks m ≡ none
  unfolding missing
  missing-none [] m h = refl
  missing-none (k ∷ ks) m h =
      ground (arith, (h k (inl refl)).1, missing-none ks m λ j e. h j (inr e))

  -- `CompileRedisScripts` gives no error for any scripts and keys: it returns the joined script
  -- with the used keys and the argument names.
  pub compile_redis_scripts_lem :
      (itoa : ℕ → String) (scripts : List RedisScript) (keys : List (RedisKey D))
      → compile_redis_scripts itoa scripts keys
        ≡ ok (record {
          script =
              join_redis_scripts itoa scripts
                (ids (get_unique_used_keys scripts keys))
                (get_scripts_unique_arg_names scripts);
          keys = get_unique_used_keys scripts keys;
          args = get_scripts_unique_arg_names scripts;
          redis_script = none;
        })
  unfolding compile_redis_scripts
  compile_redis_scripts_lem itoa scripts keys =
      ground (arith, missing-none keys (supply keys []) (IsSupplied-Elem keys []))

args-join_from :
    (itoa : ℕ → String) (scripts : List RedisScript) (keys args : List String) (i : ℕ)
    (acc : RedisScript)
    → length (join_from itoa i scripts keys args acc).args
      ≡ length acc.args + length scripts * length args
unfolding join_from
args-join_from itoa [] keys args i acc = omega arith
args-join_from itoa (s ∷ ss) keys args i acc =
    args-join_from itoa ss keys args (i + 1) (record {
      script_text = append_text itoa acc.script_text (enveloped itoa i keys args s);
      args = acc.args ++ args;
      keys = acc.keys ++ keys;
    })
    ∙ omega (arith, length-append acc.args args)

-- The script that is joined of several asks for all the arguments once for each of them.
pub args-join_redis_scripts :
    (itoa : ℕ → String) (scripts : List RedisScript) (keys args : List String)
    → length (join_redis_scripts itoa scripts keys args).args ≡ length scripts * length args
unfolding join_redis_scripts
args-join_redis_scripts itoa scripts keys args =
    args-join_from itoa scripts keys args 0 (record { script_text = ""; args = []; keys = [] })
    ∙ omega arith

-- No name comes twice.
abbrev pub IsDistinct : List String → Type 0
IsDistinct [] = Unit
IsDistinct (s ∷ ss) = (contains s ss ≡ false) × IsDistinct ss

contains-append :
    (s t : String) (ss : List String)
    → contains s (ss ++ t ∷ []) ≡ (if str_eq t s then true else contains s ss)
contains-append s t [] = refl
contains-append s t (x ∷ ss) = ground (arith, contains-append s t ss)

IsDistinct-append :
    (s : String) (ss : List String)
    → contains s ss ≡ false
    → IsDistinct ss
    → IsDistinct (ss ++ s ∷ [])
IsDistinct-append s [] h d = (refl, tt)
IsDistinct-append s (x ∷ ss) h d =
    ground (arith, IsDistinct-append s ss, contains-append x s ss, eq_iff x s, eq_iff s x)

add_names-IsDistinct : (ns acc : List String) → IsDistinct acc → IsDistinct (add_names ns acc)
unfolding add_names
add_names-IsDistinct [] acc d = d
add_names-IsDistinct (n ∷ ns) acc d =
    add_names-IsDistinct ns (if contains n acc then acc else acc ++ n ∷ [])
      (ground (arith, IsDistinct-append n acc))

unique_names-IsDistinct :
    (ss : List RedisScript) (acc : List String) → IsDistinct acc → IsDistinct (unique_names ss acc)
unfolding unique_names
unique_names-IsDistinct [] acc d = d
unique_names-IsDistinct (s ∷ ss) acc d =
    unique_names-IsDistinct ss (add_names s.args acc) (add_names-IsDistinct s.args acc d)

contains-add_names :
    (s : String) (ns acc : List String)
    → contains s (add_names ns acc) ≡ (contains s acc || contains s ns)
unfolding add_names
contains-add_names s [] acc = ground arith
contains-add_names s (n ∷ ns) acc =
    contains-add_names s ns (if contains n acc then acc else acc ++ n ∷ [])
    ∙ ground (arith, contains-append s n acc, eq_iff n s)

abbrev pub arg_names : List RedisScript → List String
arg_names [] = []
arg_names (s ∷ ss) = s.args ++ arg_names ss

contains-join :
    (s : String) (xs ys : List String) → contains s (xs ++ ys) ≡ (contains s xs || contains s ys)
contains-join s [] ys = refl
contains-join s (x ∷ xs) ys = ground (arith, contains-join s xs ys)

contains-unique_names :
    (s : String) (ss : List RedisScript) (acc : List String)
    → contains s (unique_names ss acc) ≡ (contains s acc || contains s (arg_names ss))
unfolding unique_names
contains-unique_names s [] acc = ground arith
contains-unique_names s (x ∷ ss) acc =
    contains-unique_names s ss (add_names x.args acc)
    ∙ ground (arith, contains-add_names s x.args acc, contains-join s x.args (arg_names ss))

-- The argument names that `getScriptsUniqueArgNames` gives come once each, and they are the names
-- that the scripts have.
pub get_scripts_unique_arg_names_lem :
    (scripts : List RedisScript) (s : String)
    → IsDistinct (get_scripts_unique_arg_names scripts)
      × (contains s (get_scripts_unique_arg_names scripts) ≡ contains s (arg_names scripts))
unfolding get_scripts_unique_arg_names
get_scripts_unique_arg_names_lem scripts s =
    (unique_names-IsDistinct scripts [] tt, contains-unique_names s scripts [])
