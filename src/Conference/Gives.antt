-- ===== src/Conference/Gives.antt =====
-- What a call that returns does to the world and what it gives, for any order on worlds.
use mathlib.Core.Path.{subst}
use singal.Common.{◌≡◌, refl, arith, Bool, true, false, Option, none, some}
use singal.Conference.{World, M, ◌>>=◌, ◌>>◌, pure}
use singal.Rtc.Media.{Outcome, ok, err, panic}

pub record IsPreorder (R : World → World → Type 0) : Type 0 where
  pub reflexive : (w : World) → R w w
  pub transitive : (w v w' : World) → R w v → R v w' → R w w'

-- Where `m` returns, it goes along `R`, and `P` holds of what it returns.
pub record Gives {A : Type 0} (R : World → World → Type 0) (P : A → Type 0) (m : M A) : Type 0 where
  pub at : (w w' : World) (a : A) → m w ≡ ok (a, w') → R w w' × P a

-- Nothing is said of what is returned.
abbrev pub Any : {A : Type 0} → A → Type 0
Any _ = Unit

module _ {R : World → World → Type 0} (o : IsPreorder R) {A B : Type 0} {P : A → Type 0}
    {Q : B → Type 0} where
  pub Gives-bind :
      {m : M A} {f : A → M B}
      → Gives R P m
      → ((a : A) → P a → Gives R Q (f a))
      → Gives R Q (m >>= f)
  Gives-bind {m} {f} gm gf = record { at = λ w w' b e. go w w' b (m w) refl e }
    where
      go :
          (w w' : World) (b : B) (x : Outcome (A × World))
          → m w ≡ x
          → elim x as (λ _. Outcome (B × World)) [
            | ok (a, v) ↦ f a v
            | err s ↦ err s
            | panic ↦ panic
          ]
            ≡ ok (b, w')
          → R w w' × Q b
      go w w' b (ok (a, v)) h e =
          let (r, p) = gm.at w v a h in
          let (s, q) = (gf a p).at v w' b e in (o.transitive w v w' r s, q)
      go w w' b (err s) h e = absurd (cc)
      go w w' b panic h e = absurd (cc)

  pub Gives-seq : {m : M A} {n : M B} → Gives R P m → Gives R Q n → Gives R Q (m >> n)
  Gives-seq gm gn = Gives-bind gm (λ a p. gn)

module _ {R : World → World → Type 0} (o : IsPreorder R) {A : Type 0} {P : A → Type 0} where
  pub Gives-pure : (a : A) → P a → Gives R P (pure a)
  Gives-pure a p = record {
    at = λ w w' b e.
        let (s, t) : (w ≡ w') × (a ≡ b) = ground (arith, e) in
        (subst (R w) s (o.reflexive w), subst P t p);
  }

module _ {R : World → World → Type 0} {B : Type 0} {Q : B → Type 0} where
  pub Gives-test :
      (b : Bool) {m n : M B}
      → Gives R Q m
      → Gives R Q n
      → Gives R Q (elim b as (λ _. M B) [ true ↦ m | false ↦ n ])
  Gives-test true gm gn = gm
  Gives-test false gm gn = gn

  pub Gives-option :
      {A : Type 0} (x : Option A) {m : M B} {f : A → M B}
      → Gives R Q m
      → ((a : A) → Gives R Q (f a))
      → Gives R Q (elim x as (λ _. M B) [ none ↦ m | some a ↦ f a ])
  Gives-option none gm gf = gm
  Gives-option (some a) gm gf = gf a
