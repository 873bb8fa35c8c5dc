-- ===== src/Conference/Grows.antt =====
-- What producing only adds to: the consumers and producers of one room, and the messages.
use singal.Common.{
  ℕ, ◌≡◌, refl, Bool, true, false, String, Option, none, some, List, [], ◌∷◌, ◌++◌, arith, eq_iff,
  get_elem?, ◌∙◌, ap, sym, Elem,
}
use mathlib.Core.Path.{subst}
use singal.Conference.Consumers.{save_router}
use singal.Conference.Frame.{skeleton}
use singal.Conference.Gives.{IsPreorder}
use singal.Conference.Quiet.{Quiet}
use singal.Conference.Steps.{bind-ok, load_room-some}
use singal.Conference.{World, Room, WsMessage, load_room, save_room}
use singal.Dict.{lookup, insert, lookup-insert, lookup-insert_self}
use singal.Router.Consumers.{consumes-append}
use singal.Router.{
  Router, Consumer, Producer, consumes, add_consumer, add_producer, slice_of, find_producer,
  get_producer, get_consumer_by_id,
}
use singal.Rtc.Media.{ok}

-- The router of a room that is there.
abbrev pub router_of : Option Room → Option Router
router_of none = none
router_of (some r) = some r.router

-- Whether a user of the room `id` has a consumer of a producer, and the user's producer of an id.
abbrev pub has_consumer : Option Router → String → String → Bool
has_consumer none user producer = false
has_consumer (some r) user producer = consumes producer (get_consumer_by_id r user)

abbrev pub its_producer : Option Router → String → String → Option Producer
its_producer none user producer = none
its_producer (some r) user producer = get_producer r user producer

pub record Extends (r r' : Option Router) : Type 0 where
  pub more_consumers :
      (user producer : String)
      → has_consumer r user producer ≡ true
      → has_consumer r' user producer ≡ true
  pub kept_producers :
      (user producer : String) (q : Producer)
      → its_producer r user producer ≡ some q
      → its_producer r' user producer ≡ some q

pub record Grows (id : String) (w w' : World) : Type 0 where
  pub same_users : (p : ℕ) → skeleton (get_elem? w'.users p) ≡ skeleton (get_elem? w.users p)
  pub extended : Extends (router_of (lookup id w.rooms)) (router_of (lookup id w'.rooms))
  pub kept_sent : (x : ℕ × WsMessage) → Elem x w.sent → Elem x w'.sent

pub Extends-same : (r r' : Option Router) → r' ≡ r → Extends r r'
Extends-same r r' e = record {
  more_consumers = λ user producer h. ap (λ o. has_consumer o user producer) e ∙ h;
  kept_producers = λ user producer q h. ap (λ o. its_producer o user producer) e ∙ h;
}

pub grows : (id : String) → IsPreorder (Grows id)
grows id = record {
  reflexive = λ w. record {
    same_users = λ p. refl;
    extended = Extends-same _ _ refl;
    kept_sent = λ x h. h;
  };
  transitive = λ w v w' f g. record {
    same_users = λ p. g.same_users p ∙ f.same_users p;
    extended = record {
      more_consumers = λ user producer h.
          g.extended.more_consumers user producer (f.extended.more_consumers user producer h);
      kept_producers = λ user producer q h.
          g.extended.kept_producers user producer q (f.extended.kept_producers user producer q h);
    };
    kept_sent = λ x h. g.kept_sent x (f.kept_sent x h);
  };
}

pub Grows-Quiet : (id : String) (w w' : World) → Quiet w w' → Grows id w w'
Grows-Quiet id w w' (r, u, s) = record {
  same_users = λ p. ap (λ l. skeleton (get_elem? l p)) u;
  extended = Extends-same _ _ (ap (λ l. router_of (lookup id l)) r);
  kept_sent = λ x h. subst (Elem x) (sym s) h;
}

-- A consumer is added.
pub Extends-add_consumer :
    (r : Router) (user : String) (c : Consumer)
    → Extends (some r) (some (add_consumer r user (some c)).0)
unfolding add_consumer get_consumer_by_id get_producer
Extends-add_consumer r user c = record {
  more_consumers = λ k producer h. ground (
    arith,
    h,
    eq_iff user k,
    lookup-insert user k (slice_of user r.consumers ++ c ∷ []) r.consumers,
    consumes-append producer (slice_of user r.consumers) c,
  );
  kept_producers = λ k producer q h. ground (arith, h);
}

pub find_producer-append :
    (id : String) (ps : List Producer) (p q : Producer)
    → find_producer id ps ≡ some q
    → find_producer id (ps ++ p ∷ []) ≡ some q
unfolding find_producer
find_producer-append id [] p q h = absurd (cc)
find_producer-append id (x ∷ ps) p q h = ground (arith, find_producer-append id ps p q)

pub Extends-add_producer :
    (r : Router) (user : String) (p : Producer)
    → Extends (some r) (some (add_producer r user (some p)))
unfolding add_producer get_consumer_by_id get_producer
Extends-add_producer r user p = record {
  more_consumers = λ k producer h. h;
  kept_producers = λ k producer q h. ground (
    arith,
    h,
    eq_iff user k,
    lookup-insert user k (slice_of user r.producers ++ p ∷ []) r.producers,
    find_producer-append producer (slice_of user r.producers) p q,
  );
}

-- The router of a room is replaced by one that extends it.
unfoldable pub rerouted : String → Room → Router → World → World
rerouted id r router w = record w { rooms = insert id (record r { router = router }) w.rooms }

pub save_router-some :
    (id : String) (r : Room) (router : Router) (w : World)
    → lookup id w.rooms ≡ some r
    → save_router id router w ≡ ok (tt, rerouted id r router w)
unfolding rerouted
save_router-some id r router w e =
    bind-ok (load_room id) (λ r. save_room id (record r { router = router })) w w r
      (load_room-some id r w e)

pub router-rerouted :
    (id : String) (r : Room) (router : Router) (w : World)
    → lookup id (rerouted id r router w).rooms ≡ some (record r { router = router })
unfolding rerouted
router-rerouted id r router w = lookup-insert_self id (record r { router = router }) w.rooms

pub Grows-rerouted :
    (id : String) (r : Room) (router : Router) (w : World)
    → lookup id w.rooms ≡ some r
    → Extends (some r.router) (some router)
    → Grows id w (rerouted id r router w)
unfolding rerouted
Grows-rerouted id r router w e x = record {
  same_users = λ p. refl;
  extended =
      subst (λ o. Extends o (router_of (lookup id (rerouted id r router w).rooms)))
        (sym (ap router_of e))
        (subst (Extends (some r.router)) (sym (ap router_of (router-rerouted id r router w))) x);
  kept_sent = λ x h. h;
}
