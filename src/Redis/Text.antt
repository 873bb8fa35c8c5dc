-- ===== src/Redis/Text.antt =====
-- What the text of a joined script binds names to: `joinRedisScripts` of src/server/redis.go.
use text.Mathlib.TextLemmas.{append_assoc, append-nil, nil-append, append-eq-nil_iff}
use singal.Common.{
  ℕ, zero, suc, ◌+◌, ◌≡◌, ◌≢◌, refl, ◌∙◌, ap, sym, Bool-cases, inl, inr, String, some, List, [],
  ◌∷◌, arith, get_elem?, str_eq, str_ne, eq_iff,
}
use mathlib.Core.Path.{subst}
use singal.Redis.{
  ◌<>◌, RedisScript, locals, enveloped, append_text, join_from, join_redis_scripts, function_name,
  function_calls,
}

-- A text is a part of another.
abbrev pub Contains : String → String → Type 0
Contains s t = (a : String) × (b : String) × (t ≡ a <> s <> b)

Contains-whole : (s : String) → Contains s s
Contains-whole s = ("", "", sym (append-nil s) ∙ ap (λ x. x <> "") (sym (nil-append s)))

Contains-before : (s t x : String) → Contains s t → Contains s (x <> t)
Contains-before s t x (a, b, e) = (
  x <> a,
  b,
  ap (λ y. x <> y) e
      ∙ sym (append_assoc x (a <> s) b)
      ∙ ap (λ y. y <> b) (sym (append_assoc x a s)),
)

Contains-after : (s t x : String) → Contains s t → Contains s (t <> x)
Contains-after s t x (a, b, e) = (a, b <> x, ap (λ y. y <> x) e ∙ append_assoc (a <> s) b x)

Contains-ne : (s t : String) → s ≢ "" → Contains s t → t ≢ ""
Contains-ne s t ne (a, b, e) f = ne ((append-eq-nil_iff.0 ((append-eq-nil_iff.0 (sym e ∙ f)).0)).1)

module _ (itoa : ℕ → String) where
  -- The line that binds a name to the place `i` of a table, counted from one.
  abbrev pub binding : String → ℕ → String → String
  binding table i n = "local " <> n <> " = " <> table <> "[" <> itoa (i + 1) <> "];\n"

  locals-Contains :
      (table : String) (k i : ℕ) (names : List String) (n : String)
      → get_elem? names i ≡ some n
      → Contains (binding table (k + i) n) (locals itoa table k names)
  unfolding locals
  locals-Contains table k i [] n e = absurd (cc)
  locals-Contains table k zero (m ∷ ns) n e =
      let same : m ≡ n = ground (arith, e) in
      subst (λ x. Contains (binding table x n) (binding table k m <> locals itoa table (k + 1) ns))
        (omega arith)
        (subst
          (λ x. Contains (binding table k x) (binding table k m <> locals itoa table (k + 1) ns))
          same
          (Contains-after (binding table k m) (binding table k m) (locals itoa table (k + 1) ns)
            (Contains-whole (binding table k m))))
  locals-Contains table k (suc i) (m ∷ ns) n e =
      Contains-before (binding table (k + suc i) n) (locals itoa table (k + 1) ns)
        (binding table k m)
        (subst (λ x. Contains (binding table x n) (locals itoa table (k + 1) ns)) (omega arith)
          (locals-Contains table (k + 1) i ns n e))

  -- The function of a script binds each argument name to its place in ARGV.
  pub enveloped-Contains :
      (j i : ℕ) (keys args : List String) (s : RedisScript) (n : String)
      → get_elem? args i ≡ some n
      → Contains (binding "ARGV" i n) (enveloped itoa j keys args s)
  unfolding enveloped
  enveloped-Contains j i keys args s n e =
      let b = binding "ARGV" i n in
      let zero_plus : 0 + i ≡ i = omega arith in
      let before =
        "local function " <> function_name itoa j <> "()\n" <> locals itoa "KEYS" 0 keys <> "\n" in
      let here = before <> locals itoa "ARGV" 0 args in
      Contains-after b (here <> "\n" <> s.script_text) "\nend" (
        Contains-after b (here <> "\n") s.script_text (
          Contains-after b here "\n" (
            Contains-before b (locals itoa "ARGV" 0 args) before (
              subst (λ k. Contains (binding "ARGV" k n) (locals itoa "ARGV" 0 args)) zero_plus
                (locals-Contains "ARGV" 0 i args n e)))))

  enveloped-ne :
      (j : ℕ) (keys args : List String) (s : RedisScript) → enveloped itoa j keys args s ≢ ""
  unfolding enveloped
  enveloped-ne j keys args s e = str_ne "\nend" "" refl (append-eq-nil_iff.0 e).1

  append_text-kept :
      (s t more : String) → s ≢ "" → Contains s t → Contains s (append_text itoa t more)
  append_text-kept s t more ne h = elim (Bool-cases (str_eq t "")) [
    | inl e ↦ absurd (Contains-ne s t ne h ((eq_iff t "").0 e))
    | inr e ↦ rw e (Contains-after s (t <> "\n") more (Contains-after s t "\n" h))
  ]

  append_text-added : (t more : String) → Contains more (append_text itoa t more)
  append_text-added t more = elim (Bool-cases (str_eq t "")) [
    | inl e ↦ rw e (Contains-whole more)
    | inr e ↦ rw e (Contains-before more more (t <> "\n") (Contains-whole more))
  ]

  join_from-kept :
      (f : String) (i : ℕ) (ss : List RedisScript) (keys args : List String) (acc : RedisScript)
      → f ≢ ""
      → Contains f acc.script_text
      → Contains f (join_from itoa i ss keys args acc).script_text
  unfolding join_from
  join_from-kept f i [] keys args acc ne h = h
  join_from-kept f i (s ∷ ss) keys args acc ne h =
      join_from-kept f (i + 1) ss keys args _ ne
        (append_text-kept f acc.script_text (enveloped itoa i keys args s) ne h)

  join_from-Contains :
      (i j : ℕ) (ss : List RedisScript) (keys args : List String) (acc : RedisScript)
      (s : RedisScript)
      → get_elem? ss j ≡ some s
      → Contains
          (enveloped itoa (i + j) keys args s)
          (join_from itoa i ss keys args acc).script_text
  unfolding join_from
  join_from-Contains i j [] keys args acc s e = absurd (cc)
  join_from-Contains i zero (t ∷ ts) keys args acc s e =
      let same : t ≡ s = ground (arith, e) in
      let text : String = (join_from itoa i (t ∷ ts) keys args acc).script_text in
      subst (λ k. Contains (enveloped itoa k keys args s) text) (omega arith)
        (subst (λ x. Contains (enveloped itoa i keys args x) text) same
          (join_from-kept (enveloped itoa i keys args t) (i + 1) ts keys args _
            (enveloped-ne i keys args t)
            (append_text-added acc.script_text (enveloped itoa i keys args t))))
  join_from-Contains i (suc j) (t ∷ ts) keys args acc s e =
      subst
        (λ k.
          Contains (enveloped itoa k keys args s)
            (join_from itoa i (t ∷ ts) keys args acc).script_text)
        (omega arith) (join_from-Contains (i + 1) j ts keys args _ s e)

  -- The text of joined scripts has the function of each of them.
  pub join_redis_scripts-Contains :
      (j : ℕ) (ss : List RedisScript) (keys args : List String) (s : RedisScript)
      → get_elem? ss j ≡ some s
      → Contains (enveloped itoa j keys args s) (join_redis_scripts itoa ss keys args).script_text
  unfolding join_redis_scripts
  join_redis_scripts-Contains j ss keys args s e =
      let f = enveloped itoa j keys args s in
      let empty : RedisScript = record { script_text = ""; args = []; keys = [] } in
      let joined = (join_from itoa 0 ss keys args empty).script_text in
      let zero_plus : 0 + j ≡ j = omega arith in
      let first : Contains f joined =
        subst (λ k. Contains (enveloped itoa k keys args s) joined) zero_plus
          (join_from-Contains 0 j ss keys args empty s e) in
      Contains-after f (joined <> "\n" <> "return {" <> function_calls itoa 0 ss) "}\n" (
        Contains-after f (joined <> "\n" <> "return {") (function_calls itoa 0 ss)
          (Contains-after f (joined <> "\n") "return {" (Contains-after f joined "\n" first)))
