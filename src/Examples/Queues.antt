-- ===== src/Examples/Queues.antt =====
-- Runs of the retry queue, of the script compiler and of the address functions.
use singal.Common.{ℕ, ◌≡◌, refl, String, none, some, false, get_elem?, List, [], ◌∷◌}
use singal.Rtc.Media.{ok}
use singal.RequestQueue.{Request}
use singal.Dict.{lookup}
use singal.Redis.Compile.{compile_redis_scripts_lem}
use singal.Redis.Text.{Contains, binding}
use singal.Redis.Runs.{run_script-argv, outcome_of, all_supplied}
use singal.Redis.{Client, CompiledRedisScript, run_script, enveloped, unique_names, add_names}
use singal.Redis.{
  RedisKey, RedisScript, join_redis_scripts, ids, get_unique_used_keys,
  get_scripts_unique_arg_names,
}

abbrev first : Request String
first = record { url = "http://a"; body = some "x"; try_times = 0 }

abbrev retried : List (Request String)
retried = record { url = "http://b"; body = none; try_times = 0 } ∷ []

abbrev digits : ℕ → String
digits n = "1"

abbrev script_a : RedisScript
script_a = record { script_text = "return a"; args = "x" ∷ "y" ∷ []; keys = "k" ∷ [] }

abbrev script_b : RedisScript
script_b = record { script_text = "return b"; args = "y" ∷ []; keys = [] }

abbrev key_k : RedisKey String
key_k = record { id = "k"; static_value = "v"; dynamic_value = none }

abbrev both : CompiledRedisScript String
both = record {
  script =
      join_redis_scripts digits (script_a ∷ script_b ∷ [])
        (ids (get_unique_used_keys (script_a ∷ script_b ∷ []) (key_k ∷ [])))
        (get_scripts_unique_arg_names (script_a ∷ script_b ∷ []));
  keys = get_unique_used_keys (script_a ∷ script_b ∷ []) (key_k ∷ []);
  args = get_scripts_unique_arg_names (script_a ∷ script_b ∷ []);
  redis_script = none;
}

-- It answers with the arguments.
abbrev echo : Client String (List String)
echo text keys values = ok values

run_script-argv_example :
    (vs : List String) × (run_script echo false both (("y", "7") ∷ ("x", "5") ∷ [])
      ≡ outcome_of false (record both { redis_script = some both.script.script_text }) (ok vs))
    × (get_elem? vs 1 ≡ some "7")
    × Contains (enveloped digits 0 (ids both.keys) both.args script_a) both.script.script_text
    × Contains (binding digits "ARGV" 1 "y") (enveloped digits 0 (ids both.keys) both.args script_a)
unfolding get_scripts_unique_arg_names unique_names add_names all_supplied lookup
run_script-argv_example =
    run_script-argv echo false digits script_a (script_b ∷ []) (key_k ∷ [])
      (("y", "7") ∷ ("x", "5") ∷ []) both 1 0 "y" script_a
      (compile_redis_scripts_lem digits (script_a ∷ script_b ∷ []) (key_k ∷ [])) refl refl refl
