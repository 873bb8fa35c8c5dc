-- ===== src/Conference/Short.antt =====
-- Produce requests with too few codecs, after any sequence of events.
use singal.Common.{
  ℤ, ℕ, ◌<◌, ◌≡◌, ◌≢◌, refl, Bool, true, false, String, some, List, [], ◌∷◌, arith, All, length,
  str_eq, eq_iff, if◌then◌else◌, get_elem?, ◌∙◌,
}
use mathlib.Core.Path.{subst}
use singal.Conference.Crashes.{needed, bind-panic}
use singal.Conference.Fatal.{produce_panics}
use singal.Conference.Handlers.{handle_produce}
use singal.Conference.Joining.{Seats-IsOpen}
use singal.Conference.Produce.{produce}
use singal.Conference.Sessions.{Event, handle_events, start, handle_events-Seats, Seats-start}
use singal.Conference.Steps.{IsOpen, bind-ok, get_or_create_room-some, load-some, others}
use singal.Conference.{Env, User, Room, World, load, get_or_create_room}
use singal.Dict.{Dict, lookup}
use singal.Media.{ProduceReqData}
use singal.Router.{Router}
use singal.Rtc.Media.{Outcome, ok, panic}

-- Where there is another user, there is a first one.
first_other :
    (user self : String) (q : ℕ) (m : Dict ℕ)
    → lookup user m ≡ some q
    → user ≢ self
    → (v : ℕ) × (rest : List ℕ) × (others self m ≡ v ∷ rest)
unfolding others lookup
first_other user self q [] h ne = absurd (cc)
first_other user self q ((k, v) ∷ m) h ne =
    go (str_eq k user) (str_eq k self) refl refl h (first_other user self q m)
  where
    go :
        (b c : Bool)
        → str_eq k user ≡ b
        → str_eq k self ≡ c
        → (if b then some v else lookup user m) ≡ some q
        → (lookup user m ≡ some q
            → user ≢ self
            → (x : ℕ) × (rest : List ℕ) × (others self m ≡ x ∷ rest))
        → (x : ℕ) × (rest : List ℕ) × ((if c then others self m else v ∷ others self m) ≡ x ∷ rest)
    go true true s t h ih = absurd (ground (arith, eq_iff k user, eq_iff k self, s, t, ne))
    go b false s t h ih = (v, others self m, refl)
    go false true s t h ih = ih h ne

-- After any sequence of events that all come back, a user whose room is there and has another
-- user produces, with fewer codecs than a consumer of that kind is made with: two for video, one
-- for anything else. Then `handleProduce` panics, whatever the worker answers.
pub handle_produce-panics :
    (env : Env) (made : Outcome Router) (es : List Event) (w : World) (p : ℕ) (id : ℤ)
    (req : ProduceReqData) (u : User) (r : Room) (user : String) (q : ℕ)
    → handle_events env es start ≡ ok (tt, w)
    → get_elem? w.users p ≡ some u
    → lookup u.room_id w.rooms ≡ some r
    → lookup user r.users ≡ some q
    → user ≢ u.user_id
    → length req.rtp_parameters.media_codecs < needed req.kind
    → handle_produce env made p id (some req) w ≡ panic
unfolding handle_produce
handle_produce-panics env made es w p id req u r user q run hu hr hq ne short =
    let s = handle_events-Seats env es start Seats-start tt w run in
    let (v, rest, e) = first_other user u.user_id q r.users hq ne in
    let is_open : IsOpen w v =
      (subst (All (IsOpen w)) e (Seats-IsOpen w u.room_id u.user_id r s hr)).0 in
    bind-ok (load p) _ w w u (load-some p u w hu)
    ∙ bind-ok (get_or_create_room made u.room_id) _ w w (some r)
        (get_or_create_room-some made u.room_id r w hr)
    ∙ bind-panic (produce env u.room_id p req) _ w
        (produce_panics env u.room_id p u req r w v rest hr hu short e is_open)
