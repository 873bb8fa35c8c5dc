-- ===== src/Redis.antt =====
-- The Lua script compiler of src/server/redis.go. `itoa` is the `%d` of `fmt.Sprintf`; the type of
-- the values of arguments is `D`.
pub mod Compile
pub mod Keys
pub mod Runs
pub mod Text
use Prim.Native.String
use Prim.Native.String.{◌++◌ as append}
use singal.Common.{
  ℕ, zero, suc, ◌+◌, Bool, true, false, String, Option, none, some, List, [], ◌∷◌, ◌++◌, map,
  str_eq, if◌then◌else◌,
}
use singal.Dict.{Dict, lookup, insert}
use singal.Rtc.Media.{Outcome, ok, err, panic}

-- The value of a key: fixed, or computed from the arguments.
pub record RedisKey (D : Type 0) : Type 0 where
  pub id : String
  pub static_value : String
  pub dynamic_value : Option (Dict D → String)

pub record RedisScript : Type 0 where
  pub script_text : String
  pub args : List String
  pub keys : List String

unfoldable pub new_static_key : {D : Type 0} → String → String → RedisKey D
new_static_key id value = record { id = id; static_value = value; dynamic_value = none }

unfoldable pub new_dynamic_key : {D : Type 0} → String → (Dict D → String) → RedisKey D
new_dynamic_key id generator = record { id = id; static_value = ""; dynamic_value = some generator }

unfoldable pub new_redis_script : List String → List String → String → RedisScript
new_redis_script keys args script_text = record {
  script_text = script_text;
  args = args;
  keys = keys;
}

unfoldable pub key_value : {D : Type 0} → RedisKey D → Dict D → String
key_value k args = elim k.dynamic_value [ none ↦ k.static_value | some f ↦ f args ]

abbrev pub contains : String → List String → Bool
contains s [] = false
contains s (t ∷ ts) = if str_eq t s then true else contains s ts

-- One script's loop of `getScriptsUniqueArgNames`; the map `uniqueArgs` has the names of the slice.
unfoldable pub add_names : List String → List String → List String
add_names [] acc = acc
add_names (n ∷ ns) acc = add_names ns (if contains n acc then acc else acc ++ n ∷ [])

unfoldable pub unique_names : List RedisScript → List String → List String
unique_names [] acc = acc
unique_names (s ∷ ss) acc = unique_names ss (add_names s.args acc)

unfoldable pub get_scripts_unique_arg_names : List RedisScript → List String
get_scripts_unique_arg_names scripts = unique_names scripts []

abbrev pub used_keys : List RedisScript → List String
used_keys [] = []
used_keys (s ∷ ss) = s.keys ++ used_keys ss

module _ {D : Type 0} where
  abbrev pub ids : List (RedisKey D) → List String
  ids [] = []
  ids (k ∷ ks) = k.id ∷ ids ks

  -- `getUniqueKeys` panics on a key that comes twice.
  unfoldable pub unique_keys : List (RedisKey D) → List (RedisKey D) → Outcome (List (RedisKey D))
  unique_keys [] acc = ok acc
  unique_keys (k ∷ ks) acc =
      let rest = unique_keys ks (acc ++ k ∷ []) in if contains k.id (ids acc) then panic else rest

  unfoldable pub get_unique_keys : List (RedisKey D) → Outcome (List (RedisKey D))
  get_unique_keys keys = unique_keys keys []

  -- The second loop of `getUniqueUsedKeys`.
  unfoldable pub pick_keys : List String → List (RedisKey D) → List (RedisKey D) → List (RedisKey D)
  pick_keys used [] acc = acc
  pick_keys used (k ∷ ks) acc =
      pick_keys used ks (
        if contains k.id used
        then (if contains k.id (ids acc) then acc else acc ++ k ∷ [])
        else acc)

  unfoldable pub get_unique_used_keys : List RedisScript → List (RedisKey D) → List (RedisKey D)
  get_unique_used_keys scripts keys = pick_keys (used_keys scripts) keys []

infixl 60 ◌<>◌
abbrev pub ◌<>◌ : String → String → String
s <> t = append s t

module _ (itoa : ℕ → String) where
  -- `local NAME = TABLE[i];`, for each name, counted from one.
  unfoldable pub locals : String → ℕ → List String → String
  locals table i [] = ""
  locals table i (n ∷ ns) =
      "local " <> n <> " = " <> table <> "[" <> itoa (i + 1) <> "];\n" <> locals table (i + 1) ns

  abbrev pub function_name : ℕ → String
  function_name i = "____joinedRedisScripts_" <> itoa i <> "____"

  unfoldable pub enveloped : ℕ → List String → List String → RedisScript → String
  enveloped i keys args s =
      "local function "
      <> function_name i
      <> "()\n"
      <> locals "KEYS" 0 keys
      <> "\n"
      <> locals "ARGV" 0 args
      <> "\n"
      <> s.script_text
      <> "\nend"

  abbrev pub append_text : String → String → String
  append_text text more = if str_eq text "" then more else text <> "\n" <> more

  -- The loop of `joinRedisScripts`: every script adds all the arguments and keys once more.
  unfoldable pub join_from :
      ℕ → List RedisScript → List String → List String → RedisScript → RedisScript
  join_from i [] keys args acc = acc
  join_from i (s ∷ ss) keys args acc = join_from (i + 1) ss keys args (record {
    script_text = append_text acc.script_text (enveloped i keys args s);
    args = acc.args ++ args;
    keys = acc.keys ++ keys;
  })

  unfoldable pub function_calls : ℕ → List RedisScript → String
  function_calls i [] = ""
  function_calls i (s ∷ []) = function_name i <> "()"
  function_calls i (s ∷ t ∷ ss) = function_name i <> "(), " <> function_calls (i + 1) (t ∷ ss)

  unfoldable pub join_redis_scripts : List RedisScript → List String → List String → RedisScript
  join_redis_scripts scripts keys args =
      let joined =
        join_from 0 scripts keys args (record { script_text = ""; args = []; keys = [] }) in
      record joined {
        script_text = joined.script_text <> "\n" <> "return {" <> function_calls 0 scripts <> "}\n";
      }

-- `redis_script` is the text that the client's script was made from, if it has been made. The field
-- `scriptText` is that of `script`.
pub record CompiledRedisScript (D : Type 0) : Type 0 where
  pub script : RedisScript
  pub keys : List (RedisKey D)
  pub args : List String
  pub redis_script : Option String

module _ {D : Type 0} where
  -- The two loops of `CompileRedisScripts` over the keys.
  unfoldable pub supply : List (RedisKey D) → Dict (RedisKey D) → Dict (RedisKey D)
  supply [] m = m
  supply (k ∷ ks) m = supply ks (insert k.id k m)

  unfoldable pub missing : List (RedisKey D) → Dict (RedisKey D) → Option String
  missing [] m = none
  missing (k ∷ ks) m = elim (lookup k.id m) [ none ↦ some k.id | some _ ↦ missing ks m ]

  unfoldable pub compile_redis_scripts :
      (ℕ → String) → List RedisScript → List (RedisKey D) → Outcome (CompiledRedisScript D)
  compile_redis_scripts itoa scripts keys = elim (missing keys (supply keys [])) [
    | some id ↦ err "Missing required LUA script key"
    | none ↦
        let used = get_unique_used_keys scripts keys in
        let args = get_scripts_unique_arg_names scripts in
        ok (record {
          script = join_redis_scripts itoa scripts (ids used) args;
          keys = used;
          args = args;
          redis_script = none;
        })
  ]

  -- The values that a run passes as KEYS.
  unfoldable pub compiled_keys : CompiledRedisScript D → Dict D → List String
  compiled_keys c args = map (λ k. key_value k args) c.keys

  unfoldable pub values_of : List String → Dict D → Outcome (List D)
  values_of [] args = ok []
  values_of (n ∷ ns) args =
      let rest = values_of ns args in
      elim (lookup n args) [
        | none ↦ err "Missing required Redis LUA script argument"
        | some v ↦ elim rest [ ok vs ↦ ok (v ∷ vs) | err e ↦ err e | panic ↦ panic ]
      ]

  -- The values that a run passes as ARGV.
  unfoldable pub compiled_args : CompiledRedisScript D → Dict D → Outcome (List D)
  compiled_args c args = values_of c.script.args args

-- What the client makes of a script's text, its keys and its arguments.
abbrev pub Client : Type 0 → Type 0 → Type 0
Client D R = String → List String → List D → Outcome R

module _ {D R : Type 0} (client : Client D R) (cancelled : Bool) where
  abbrev pub prepared : CompiledRedisScript D → CompiledRedisScript D
  prepared c = elim c.redis_script [
    | none ↦ record c { redis_script = some c.script.script_text }
    | some _ ↦ c
  ]

  abbrev pub text_of : CompiledRedisScript D → String
  text_of c = elim c.redis_script [ none ↦ "" | some t ↦ t ]

  -- `Run`: an argument that is missing panics, and so does an
  -- error of the client unless the context was cancelled.
  unfoldable pub run_script :
      CompiledRedisScript D → Dict D → Outcome (Outcome R × CompiledRedisScript D)
  run_script c args =
      let c' = prepared c in
      elim (compiled_args c' args) [
        | ok values ↦
            let result = client (text_of c') (compiled_keys c' args) values in
            elim result [
              | ok r ↦ ok (ok r, c')
              | err e ↦ if cancelled then ok (err e, c') else panic
              | panic ↦ panic
            ]
        | err e ↦ panic
        | panic ↦ panic
      ]

  -- `RunDebug` is `Run` with a print.
  unfoldable pub run_debug :
      CompiledRedisScript D → Dict D → Outcome (Outcome R × CompiledRedisScript D)
  unfolding run_script
  run_debug c args = run_script c args

-- `LoadRedisScript`, whose run has a context that is never cancelled; the result is what it logs.
unfoldable pub load_redis_script :
    {R : Type 0} → Client String (List R) → (ℕ → String) → Outcome (List R)
load_redis_script client itoa =
    let script =
      new_redis_script ("key1" ∷ "key2" ∷ []) ("arg1" ∷ "arg2" ∷ [])
        "redis.call('SET', key1, arg1); redis.call('SET', key2, arg2); return redis.call('GET',key2);" in
    let compiled =
      compile_redis_scripts itoa (script ∷ [])
        (new_static_key "key1" "keyName1" ∷ new_static_key "key2" "keyName2" ∷ []) in
    elim compiled [
      | ok c ↦
          let args : Dict String =
            insert "arg2" "arg2_expected_value" (insert "arg1" "arg1_expected_value" []) in
          elim (run_script client false c args) [
            | ok (ok r, _) ↦ ok r
            | ok (err e, _) ↦ panic
            | ok (panic, _) ↦ panic
            | err e ↦ panic
            | panic ↦ panic
          ]
      | err e ↦ panic
      | panic ↦ panic
    ]
