-- ===== src/Conference/Ends.antt =====
-- Where a call that returns can end.
use singal.Common.{ℕ, ◌≡◌, refl, Bool, true, false, String, some, arith, get_elem?, set, ◌∙◌, sym}
use mathlib.Core.Path.{subst}
use singal.Conference.{User, Room, World, M, ◌>>=◌, load, load_room, update_user}
use singal.Conference.Steps.{bind-ok}
use singal.Dict.{lookup}
use singal.Rtc.Media.{Outcome, ok, err, panic}

-- Where `m` returns from `w`, what it returns and the world it leaves are in `Q`.
abbrev pub Ends : {A : Type 0} → M A → World → (A → World → Type 0) → Type 0
Ends {A} m w Q = (a : A) (w' : World) → m w ≡ ok (a, w') → Q a w'

module _ {A B : Type 0} where
  pub Ends-bind :
      (m : M A) (f : A → M B) (w : World) (Q : B → World → Type 0)
      → ((a : A) (v : World) → m w ≡ ok (a, v) → Ends (f a) v Q)
      → Ends (m >>= f) w Q
  Ends-bind m f w Q h b w' e = go (m w) refl e
    where
      go :
          (o : Outcome (A × World))
          → m w ≡ o
          → elim o as (λ _. Outcome (B × World)) [
            | ok (a, v) ↦ f a v
            | err s ↦ err s
            | panic ↦ panic
          ]
            ≡ ok (b, w')
          → Q b w'
      go (ok (a, v)) s e = h a v s b w' e
      go (err t) s e = absurd (cc)
      go panic s e = absurd (cc)

  pub Ends-ok :
      (m : M A) (f : A → M B) (w v : World) (a : A) (Q : B → World → Type 0)
      → m w ≡ ok (a, v)
      → Ends (f a) v Q
      → Ends (m >>= f) w Q
  Ends-ok m f w v a Q s h b w' e = h b w' (sym (bind-ok m f w v a s) ∙ e)

module _ {B : Type 0} where
  pub Ends-test :
      (b : Bool) (m n : M B) (w : World) (Q : B → World → Type 0)
      → Ends m w Q
      → Ends n w Q
      → Ends (elim b as (λ _. M B) [ true ↦ m | false ↦ n ]) w Q
  Ends-test true m n w Q hm hn = hm
  Ends-test false m n w Q hm hn = hn

  pub Ends-load :
      (p : ℕ) (f : User → M B) (w : World) (Q : B → World → Type 0)
      → ((u : User) → get_elem? w.users p ≡ some u → Ends (f u) w Q)
      → Ends (load p >>= f) w Q
  Ends-load p f w Q h = Ends-bind (load p) f w Q λ u v e.
      let (t, g) : (w ≡ v) × (get_elem? w.users p ≡ some u) = ground (arith, e) in
      subst (λ x. Ends (f u) x Q) t (h u g)

  pub Ends-load_room :
      (id : String) (f : Room → M B) (w : World) (Q : B → World → Type 0)
      → ((r : Room) → lookup id w.rooms ≡ some r → Ends (f r) w Q)
      → Ends (load_room id >>= f) w Q
  Ends-load_room id f w Q h = Ends-bind (load_room id) f w Q λ r v e.
      let (t, g) : (w ≡ v) × (lookup id w.rooms ≡ some r) = ground (arith, e) in
      subst (λ x. Ends (f r) x Q) t (h r g)

  pub Ends-update_user :
      (p : ℕ) (g : User → User) (f : Unit {0} → M B) (w : World) (Q : B → World → Type 0)
      → ((u : User)
          → get_elem? w.users p ≡ some u
          → Ends (f tt) (record w { users = set w.users p (g u) }) Q)
      → Ends (update_user p g >>= f) w Q
  Ends-update_user p g f w Q h = Ends-bind (update_user p g) f w Q λ a v e.
      let (u, hu, t) : (u : User) × (get_elem? w.users p ≡ some u)
          × (record w { users = set w.users p (g u) } ≡ v) =
        ground (arith, e) in
      subst (λ x. Ends (f tt) x Q) t (h u hu)
