-- ===== src/Redis/Runs.antt =====
-- The runs of compiled scripts.
use mathlib.Core.Path.{subst}
use singal.Common.{
  ℕ, zero, suc, ◌+◌, ◌≡◌, refl, ◌∙◌, Bool, true, false, String, none, some, List, [], ◌∷◌, ◌++◌,
  arith, get_elem?, sym, ap, Option-cases, inl, inr, if◌then◌else◌,
}
use singal.Dict.{Dict, lookup}
use singal.Redis.{
  RedisKey, RedisScript, CompiledRedisScript, Client, compile_redis_scripts, join_redis_scripts,
  join_from, append_text, enveloped, compiled_keys, values_of, compiled_args, prepared, text_of,
  run_script, ids, get_unique_used_keys, get_scripts_unique_arg_names,
}
use singal.Redis.Compile.{compile_redis_scripts_lem}
use singal.Redis.Text.{Contains, binding, enveloped-Contains, join_redis_scripts-Contains}
use singal.Rtc.Media.{Outcome, ok, err, panic}

-- The names that the caller gives values for.
unfoldable pub all_supplied : {D : Type 0} → List String → Dict D → Bool
all_supplied [] args = true
all_supplied (n ∷ ns) args = elim (lookup n args) [ none ↦ false | some _ ↦ all_supplied ns args ]

abbrev missing_argument : String
missing_argument = "Missing required Redis LUA script argument"

module _ {D : Type 0} (args : Dict D) where
  all_supplied-append :
      (xs ys : List String)
      → all_supplied xs args ≡ true
      → all_supplied ys args ≡ true
      → all_supplied (xs ++ ys) args ≡ true
  unfolding all_supplied
  all_supplied-append [] ys h k = k
  all_supplied-append (x ∷ xs) ys h k = ground (arith, all_supplied-append xs ys, h, k)

  -- The scripts of a joined script all ask for the same names.
  args-supplied :
      (itoa : ℕ → String) (scripts : List RedisScript) (keys names : List String) (i : ℕ)
      (acc : RedisScript)
      → all_supplied names args ≡ true
      → all_supplied acc.args args ≡ true
      → all_supplied (join_from itoa i scripts keys names acc).args args ≡ true
  unfolding join_from
  args-supplied itoa [] keys names i acc h k = k
  args-supplied itoa (s ∷ ss) keys names i acc h k =
      args-supplied itoa ss keys names (i + 1)
        (record {
          script_text = append_text itoa acc.script_text (enveloped itoa i keys names s);
          args = acc.args ++ names;
          keys = acc.keys ++ keys;
        })
        h (all_supplied-append acc.args names k h)

  -- A value for each name, at its place.
  values :
      (names : List String)
      → all_supplied names args ≡ true
      → (vs : List D) × (values_of names args ≡ ok vs)
        × ((i : ℕ) (n : String) → get_elem? names i ≡ some n → get_elem? vs i ≡ lookup n args)
  unfolding values_of all_supplied
  values [] h = ([], refl, λ i n e. absurd (cc))
  values (m ∷ ns) h = elim (Option-cases (lookup m args)) [
    | inl e ↦ absurd (ground (arith, h, e))
    | inr (v, e) ↦
        let (vs, f, g) = values ns (ground (arith, h, e)) in
        (v ∷ vs, ground (arith, e, f), at v vs e g)
  ]
    where
      at :
          (v : D) (vs : List D)
          → lookup m args ≡ some v
          → ((i : ℕ) (n : String) → get_elem? ns i ≡ some n → get_elem? vs i ≡ lookup n args)
          → (i : ℕ) (n : String) → get_elem? (m ∷ ns) i ≡ some n
          → get_elem? (v ∷ vs) i ≡ lookup n args
      at v vs e g zero n k = sym e ∙ ap (λ j. lookup j args) (ground (arith, k))
      at v vs e g (suc i) n k = g i n k

  -- Without a value for each name there are none.
  values_missing :
      (names : List String)
      → all_supplied names args ≡ false
      → values_of names args ≡ err missing_argument
  unfolding values_of all_supplied
  values_missing [] h = absurd (cc)
  values_missing (m ∷ ns) h = ground (arith, values_missing ns, h)

-- The names come first in what the joined script asks for.
args-first :
    (itoa : ℕ → String) (scripts : List RedisScript) (keys names : List String) (i : ℕ)
    (acc : RedisScript) (j : ℕ) (n : String)
    → get_elem? acc.args j ≡ some n
    → get_elem? (join_from itoa i scripts keys names acc).args j ≡ some n
unfolding join_from
args-first itoa [] keys names i acc j n e = e
args-first itoa (s ∷ ss) keys names i acc j n e =
    args-first itoa ss keys names (i + 1)
      (record {
        script_text = append_text itoa acc.script_text (enveloped itoa i keys names s);
        args = acc.args ++ names;
        keys = acc.keys ++ keys;
      })
      j n (get_elem?-append acc.args names j n e)
  where
    get_elem?-append :
        (xs ys : List String) (j : ℕ) (n : String)
        → get_elem? xs j ≡ some n
        → get_elem? (xs ++ ys) j ≡ some n
    get_elem?-append [] ys j n e = absurd (cc)
    get_elem?-append (x ∷ xs) ys zero n e = e
    get_elem?-append (x ∷ xs) ys (suc j) n e = get_elem?-append xs ys j n e

-- How a run ends, from what the client makes of it.
abbrev pub outcome_of :
    {D R : Type 0}
    → Bool
    → CompiledRedisScript D
    → Outcome R
    → Outcome (Outcome R × CompiledRedisScript D)
outcome_of cancelled c result = elim result [
  | ok r ↦ ok (ok r, c)
  | err e ↦ if cancelled then ok (err e, c) else panic
  | panic ↦ panic
]

module _ {D R : Type 0} (client : Client D R) (cancelled : Bool) (itoa : ℕ → String) where
  -- A run of a compiled script, of one script or more, with a value for every argument name is the
  -- client's run of its text with the values of its keys and a list of values. The text has a function
  -- for each script, that function binds each argument name to a place of ARGV, counted from one, and
  -- the value at that place of the list is the caller's value of the name.
  pub run_script-argv :
      (s : RedisScript) (ss : List RedisScript) (keys : List (RedisKey D)) (args : Dict D)
      (c : CompiledRedisScript D) (i j : ℕ) (n : String) (t : RedisScript)
      → compile_redis_scripts itoa (s ∷ ss) keys ≡ ok c
      → all_supplied c.args args ≡ true
      → get_elem? c.args i ≡ some n
      → get_elem? (s ∷ ss) j ≡ some t
      → (vs : List D) × (run_script client cancelled c args
          ≡ outcome_of cancelled
              (record c { redis_script = some c.script.script_text })
              (client c.script.script_text (compiled_keys c args) vs))
        × (get_elem? vs i ≡ lookup n args)
        × Contains (enveloped itoa j (ids c.keys) c.args t) c.script.script_text
        × Contains (binding itoa "ARGV" i n) (enveloped itoa j (ids c.keys) c.args t)
  unfolding run_script compiled_args join_redis_scripts join_from all_supplied compiled_keys
  run_script-argv s ss keys args c i j n t e = subst Runs (compiled e) compiled_run
    where
      names : List String
      names = get_scripts_unique_arg_names (s ∷ ss)

      used : List String
      used = ids (get_unique_used_keys (s ∷ ss) keys)

      first : CompiledRedisScript D
      first = record {
        script = join_redis_scripts itoa (s ∷ ss) used names;
        keys = get_unique_used_keys (s ∷ ss) keys;
        args = names;
        redis_script = none;
      }

      compiled : compile_redis_scripts itoa (s ∷ ss) keys ≡ ok c → first ≡ c
      compiled e =
          let t : ok first ≡ ok c = sym (compile_redis_scripts_lem itoa (s ∷ ss) keys) ∙ e in
          ground (arith, t)

      Runs : CompiledRedisScript D → Type 0
      Runs c =
          all_supplied c.args args ≡ true
          → get_elem? c.args i ≡ some n
          → get_elem? (s ∷ ss) j ≡ some t
          → (vs : List D) × (run_script client cancelled c args
              ≡ outcome_of cancelled (record c { redis_script = some c.script.script_text })
                  (client c.script.script_text (compiled_keys c args) vs))
            × (get_elem? vs i ≡ lookup n args)
            × Contains (enveloped itoa j (ids c.keys) c.args t) c.script.script_text
            × Contains (binding itoa "ARGV" i n) (enveloped itoa j (ids c.keys) c.args t)

      compiled_run : Runs first
      compiled_run h at script =
          let (vs, f, g) = values args first.script.args (
            args-supplied args itoa (s ∷ ss) used names 0
              (record { script_text = ""; args = []; keys = [] }) h refl) in
          (
            vs,
            ap
                (λ (o : Outcome (List D)).
                  elim o as (λ _. Outcome (Outcome R × CompiledRedisScript D)) [
                    | ok ws ↦
                        outcome_of cancelled
                          (record first { redis_script = some first.script.script_text })
                          (client first.script.script_text (compiled_keys first args) ws)
                    | err e ↦ panic
                    | panic ↦ panic
                  ])
                f,
            g i n (
                args-first itoa ss used names 1
                  (record {
                    script_text = append_text itoa "" (enveloped itoa 0 used names s);
                    args = names;
                    keys = used;
                  })
                  i n at),
            join_redis_scripts-Contains itoa j (s ∷ ss) used names t script,
            enveloped-Contains itoa j i used names t n at,
          )

  -- A run without a value for some argument name panics, whatever the client is.
  pub run_script-missing :
      (c : CompiledRedisScript D) (args : Dict D)
      → all_supplied c.script.args args ≡ false
      → run_script client cancelled c args ≡ panic
  unfolding run_script compiled_args
  run_script-missing c args h =
      let t : (prepared client cancelled c).script.args ≡ c.script.args = ground arith in
      ap
        (λ (o : Outcome (List D)). elim o as (λ _. Outcome (Outcome R × CompiledRedisScript D)) [
          | ok ws ↦ outcome_of cancelled (prepared client cancelled c) (
              client (text_of client cancelled (prepared client cancelled c))
                (compiled_keys (prepared client cancelled c) args) ws)
          | err e ↦ panic
          | panic ↦ panic
        ])
        (ap (λ ns. values_of ns args) t ∙ values_missing args c.script.args h)
