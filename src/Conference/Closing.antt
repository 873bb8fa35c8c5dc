-- ===== src/Conference/Closing.antt =====
-- What closing a producer tells the users of the room.
use singal.Common.{
  ℕ, ◌≡◌, ◌≢◌, refl, String, Option, none, some, List, [], ◌∷◌, Elem, str_eq, eq_iff, Bool-cases,
  if◌then◌else◌, arith, get_elem?, Option-cases, inl, inr, ◌∙◌, ap,
}
use singal.Conference.{
  Env, User, Room, World, WsMessage, M, ◌>>◌, pure, load, load_room, get_or_create_room,
  notification_of, consumed, notify_consumer_closed,
}
use singal.Conference.Consumers.{logged, save_router}
use singal.Conference.Frame.{members}
use singal.Conference.Handlers.{handle_close_producer}
use singal.Conference.Joining.{seated-IsOpen, IsRead, IsHeard-both}
use singal.Conference.Produce.{notify_consumers, close_producer}
use singal.Conference.Sessions.{Event, handle_events, start, handle_events-Seats, Seats-start}
use singal.Conference.Steps.{IsHeard, bind-ok, load-some, load_room-some, send_open}
use singal.Dict.{IsMap, Dict, lookup, insert}
use singal.Media.{ProduceResData}
use singal.Router.Closing.{lookup-remove_consumer, closed_id}
use mathlib.Core.Path.{subst, sym}
use singal.Router.{
  slice_of, find_consumer, get_consumer_by_id, Consumer, Router, Producer, get_producer,
  remove_producer, remove_consumer_by_producer_id,
}
use singal.Proto.{ProduceResponse}
use singal.Rtc.{close_producer_request, producer_finish, and_then}
use singal.Rtc.Media.{Outcome, ok, err, panic}

-- One `consumerClosed` for each entry whose user is in the room.
unfoldable pub tell : Dict ℕ → Dict String → List (ℕ × WsMessage) → List (ℕ × WsMessage)
tell users [] sent = sent
tell users ((user, id) ∷ m) sent = elim (lookup user users) [
  | none ↦ tell users m sent
  | some p ↦
      tell users m
        ((p, notification_of "consumerClosed" (consumed (record { consumer_id = id }))) ∷ sent)
]

notify_consumers_lem :
    (users : Dict ℕ) (m : Dict String) (w : World)
    → ((user : String) (p : ℕ) → lookup user users ≡ some p → IsHeard w p)
    → notify_consumers users m w ≡ ok (tt, record w { sent = tell users m w.sent })
unfolding notify_consumers tell notify_consumer_closed
notify_consumers_lem users [] w h = refl
notify_consumers_lem users ((user, id) ∷ m) w h = elim (Option-cases (lookup user users)) [
  | inl e ↦ rw (e, notify_consumers, tell) (notify_consumers_lem users m w h)
  | inr (p, e) ↦
      let told : WsMessage =
        notification_of "consumerClosed" (consumed (record { consumer_id = id })) in
      rw (e, notify_consumers, tell)
        (bind-ok (notify_consumer_closed p (record { consumer_id = id }))
            (λ _. notify_consumers users m) w (record w { sent = (p, told) ∷ w.sent }) tt
            (send_open p told w (h user p e))
          ∙ notify_consumers_lem users m (record w { sent = (p, told) ∷ w.sent }) h)
]

logged_ok : {A : Type 0} (o : Outcome A) (w : World) → o ≢ panic → logged o w ≡ ok (tt, w)
logged_ok (ok a) w h = refl
logged_ok (err e) w h = refl
logged_ok panic w h = absurd (h refl)

-- The call to the worker.
abbrev pub close_call : Env → Router → Producer → Outcome ProduceResponse
close_call env router q =
    and_then (close_producer_request (some router) q) λ m. producer_finish (env.remote m)

abbrev pub closed_by : Router → String → String → Router × Dict String
closed_by router user producer_id =
    remove_consumer_by_producer_id (remove_producer router user producer_id) user producer_id

save_router_lem :
    (id : String) (router : Router) (r : Room) (w : World)
    → lookup id w.rooms ≡ some r
    → save_router id router w
      ≡ ok (tt, record w { rooms = insert id (record r { router = router }) w.rooms })
save_router_lem id router r w h = bind-ok (load_room id) _ w w r (load_room-some id r w h)

close_producer_lem :
    (env : Env) (w : World) (p : ℕ) (u : User) (r : Room) (q : Producer) (producer_id : String)
    → get_elem? w.users p ≡ some u
    → lookup u.room_id w.rooms ≡ some r
    → get_producer r.router u.user_id producer_id ≡ some q
    → close_call env r.router q ≢ panic
    → ((user : String) (p : ℕ) → lookup user r.users ≡ some p → IsHeard w p)
    → close_producer env u.room_id p producer_id w
      ≡ ok (
        some tt,
        record w {
          rooms =
              insert u.room_id
                (record r { router = (closed_by r.router u.user_id producer_id).0 })
                w.rooms;
          sent = tell r.users (closed_by r.router u.user_id producer_id).1 w.sent;
        },
      )
unfolding close_producer
close_producer_lem env w p u r q producer_id hu hr hq safe h =
    let after : Router × Dict String = closed_by r.router u.user_id producer_id in
    let w' : World = record w {
      rooms = insert u.room_id (record r { router = after.0 }) w.rooms;
    } in
    let finish : M (Option (Unit {0})) = notify_consumers r.users after.1 >> pure (some tt) in
    bind-ok (load_room u.room_id) _ w w r (load_room-some u.room_id r w hr)
    ∙ bind-ok (load p) _ w w u (load-some p u w hu)
    ∙ rw hq (
        bind-ok (logged (close_call env r.router q)) (λ _. save_router u.room_id after.0 >> finish)
          w w tt (logged_ok (close_call env r.router q) w safe)
        ∙ bind-ok (save_router u.room_id after.0) (λ _. finish) w w' tt
            (save_router_lem u.room_id after.0 r w hr)
        ∙ bind-ok (notify_consumers r.users after.1) (λ _. pure (some tt)) w'
            (record w' { sent = tell r.users after.1 w.sent }) tt
            (notify_consumers_lem r.users after.1 w' h))

-- After any sequence of events that all come back, a user whose room is there closes a
-- producer that it has, where reading the worker's answer does not panic: the router loses the
-- producer and its consumers as `removeProducer` and `removeConsumerByProducerId` say, whatever the
-- worker answers; each removed consumer is told to its user if the user is in the room; and nothing
-- else changes. The writers of the room's users still run.
handle_events-handle_close_producer :
    (env : Env) (made : Outcome Router) (es : List Event) (w : World) (p : ℕ) (u : User) (r : Room)
    (q : Producer) (req : ProduceResData)
    → handle_events env es start ≡ ok (tt, w)
    → get_elem? w.users p ≡ some u
    → lookup u.room_id w.rooms ≡ some r
    → get_producer r.router u.user_id req.producer_id ≡ some q
    → close_call env r.router q ≢ panic
    → ((user : String) (v : ℕ) → lookup user r.users ≡ some v → IsRead w v)
    → handle_close_producer env made p (some req) w
      ≡ ok (
        tt,
        record w {
          rooms =
              insert u.room_id
                (record r { router = (closed_by r.router u.user_id req.producer_id).0 })
                w.rooms;
          sent = tell r.users (closed_by r.router u.user_id req.producer_id).1 w.sent;
        },
      )
unfolding handle_close_producer get_or_create_room
handle_events-handle_close_producer env made es w p u r q req e hu hr hq safe read =
    let s = handle_events-Seats env es start Seats-start tt w e in
    let all_open = λ (user : String) (v : ℕ) (g : lookup user r.users ≡ some v).
      IsHeard-both w v
        (seated-IsOpen w u.room_id user v
          (s.seated u.room_id user v (ap (λ o. lookup user (members o)) hr ∙ g)))
        (read user v g) in
    bind-ok (load p) _ w w u (load-some p u w hu)
    ∙ bind-ok (get_or_create_room made u.room_id) _ w w (some r) (ground (arith, hr))
    ∙ bind-ok (close_producer env u.room_id p req.producer_id) (λ _. pure tt) w _ (some tt)
        (close_producer_lem env w p u r q req.producer_id hu hr hq safe all_open)

Elem-tell_kept :
    (users : Dict ℕ) (m : Dict String) (x : ℕ × WsMessage) (sent : List (ℕ × WsMessage))
    → Elem x sent
    → Elem x (tell users m sent)
unfolding tell
Elem-tell_kept users [] x sent h = h
Elem-tell_kept users ((user, id) ∷ m) x sent h = elim (Option-cases (lookup user users)) [
  | inl e ↦ rw (e, tell) (Elem-tell_kept users m x sent h)
  | inr (p, e) ↦ rw (e, tell) (Elem-tell_kept users m x (_ ∷ sent) (inr h))
]

-- Who is in the room and is among the removed consumers is told.
Elem-tell :
    (users : Dict ℕ) (m : Dict String) (user id : String) (p : ℕ) (sent : List (ℕ × WsMessage))
    → lookup user users ≡ some p
    → lookup user m ≡ some id
    → Elem
        (p, notification_of "consumerClosed" (consumed (record { consumer_id = id })))
        (tell users m sent)
unfolding tell lookup
Elem-tell users [] user id p sent hu hm = absurd (cc)
Elem-tell users ((k, j) ∷ m) user id p sent hu hm = elim (Bool-cases (str_eq k user)) [
  | inl e ↦
      let same : k ≡ user = (eq_iff k user).0 e in
      let hk : lookup k users ≡ some p = ap (λ i. lookup i users) same ∙ hu in
      let hj : j ≡ id = ground (arith, hm, e) in
      rw (hk, tell)
        (Elem-tell_kept users m _ _ (
          inl (
            ap (λ i. (p, notification_of "consumerClosed" (consumed (record { consumer_id = i }))))
              hj)))
  | inr e ↦
      let hm' : lookup user m ≡ some id = ground (arith, hm, e) in
      elim (Option-cases (lookup k users)) [
        | inl g ↦ rw (g, tell) (Elem-tell users m user id p sent hu hm')
        | inr (v, g) ↦ rw (g, tell) (Elem-tell users m user id p (_ ∷ sent) hu hm')
      ]
]

consumers-remove_producer :
    (r : Router) (user id : String) → (remove_producer r user id).consumers ≡ r.consumers
unfolding remove_producer
consumers-remove_producer r user id = ground arith

reported :
    (r : Router) (user id other : String) (c : Consumer)
    → IsMap r.consumers
    → other ≢ user
    → find_consumer id (get_consumer_by_id r other) ≡ some c
    → lookup other (closed_by r user id).1 ≡ some c.consumer_id
unfolding get_consumer_by_id
reported r user id other c h ne f =
    let same = consumers-remove_producer r user id in
    lookup-remove_consumer (remove_producer r user id) user id other (subst IsMap (sym same) h)
    ∙ ap (λ m. if str_eq other user then none else closed_id (find_consumer id (slice_of other m)))
        same
    ∙ ground (arith, ne, eq_iff other user, f)

-- After any sequence of events that all come back, where the room of a user is there, the
-- router's table of consumers has each user once, the user has the producer, the writers of the room's
-- users still run, and reading the worker's answer does not panic: closing the producer returns, and every other user of the room
-- that consumes it is told which of its consumers is closed, the first of that producer.
pub handle_close_producer-told :
    (env : Env) (made : Outcome Router) (es : List Event) (w : World) (p : ℕ) (u : User) (r : Room)
    (q : Producer) (req : ProduceResData) (other : String) (v : ℕ) (c : Consumer)
    → handle_events env es start ≡ ok (tt, w)
    → get_elem? w.users p ≡ some u
    → lookup u.room_id w.rooms ≡ some r
    → get_producer r.router u.user_id req.producer_id ≡ some q
    → close_call env r.router q ≢ panic
    → ((k : String) (i : ℕ) → lookup k r.users ≡ some i → IsRead w i)
    → IsMap r.router.consumers
    → other ≢ u.user_id
    → lookup other r.users ≡ some v
    → find_consumer req.producer_id (get_consumer_by_id r.router other) ≡ some c
    → (w' : World) × (handle_close_producer env made p (some req) w ≡ ok (tt, w'))
      × Elem
          (v, notification_of "consumerClosed" (consumed (record { consumer_id = c.consumer_id })))
          w'.sent
handle_close_producer-told env made es w p u r q req other v c e hu hr hq safe read hm ne hv hc = (
  _,
  handle_events-handle_close_producer env made es w p u r q req e hu hr hq safe read,
  Elem-tell r.users (closed_by r.router u.user_id req.producer_id).1 other c.consumer_id v w.sent hv
      (reported r.router u.user_id req.producer_id other c hm ne hc),
)
