-- ===== src/Examples/Stage.antt =====
-- A guest of the lobby produces.
use singal.Common.{inl, arith, ◌≡◌, refl, true, none, some, [], ◌∷◌, str_ne, Elem, pos}
use singal.Conference.Consumers.{
  create_new_consumer_data, consumer_codecs, change_extension_id, remove_feedback_remb, remb_loop,
  push_users, pull_users, pull_producers, req_other_new_consumer, req_pull_other_new_producer,
}
use singal.Conference.Grows.{has_consumer, its_producer, router_of}
use singal.Conference.Handlers.{handle_produce}
use singal.Conference.Offers.{Asked}
use singal.Conference.Produce.{produce, create_producer}
use singal.Conference.Producing.{made_producer}
use singal.Conference.Published.{handle_produce-get_producer, handle_events-handle_produce}
use singal.Conference.Null.{handle_produce-null}
use singal.Conference.Short.{handle_produce-panics}
use singal.Conference.Sessions.{start}
use singal.Conference.{World, get_or_create_room, request_new_consumer, response_of, produced}
use singal.Dict.{lookup, insert}
use singal.Examples.Lobby.{guest, two_guests, two_guests_run, lobby, full_world, no_capabilities}
use singal.Examples.Rooms.{offline_env}
use singal.Examples.Routers.{busy_router}
use singal.Media.{ProduceReqData, CodecCapabilities}
use singal.Common.{to_uint32}
use singal.Router.{
  add_consumer, add_producer, consumes, get_consumer_by_id, get_consumer_transport_id,
  get_producer_by_id, get_producer,
}
use singal.Rtc.{
  create_producer_request, create_consumer_request, valid_router, producer_finish, consumer_finish,
  read_answer,
}
use singal.Rtc.Media.{
  Outcome, ok, err, panic, codec_of, consumer_encodings, encode_codec, mapped_payload_type,
  parameters_of, producer_encodings, producer_feedbacks, rtp_mapping,
}

abbrev opus : CodecCapabilities
opus = record {
  kind = "audio";
  mime_type = "audio/opus";
  clock_rate = pos 48000;
  channels = pos 2;
  parameters = none;
  feedbacks = [];
  preferred_payload_type = pos 0;
  payload_type = pos 111;
}

abbrev microphone : ProduceReqData
microphone = record {
  transport_id = "t2";
  kind = "audio";
  rtp_parameters = record no_capabilities { media_codecs = opus ∷ [] };
}

-- The world that a call leaves.
abbrev left_by : Outcome (Unit {0} × World) → World
left_by (ok (_, w)) = w
left_by (err e) = start
left_by panic = start

abbrev loud_world : World
loud_world =
    left_by (handle_produce offline_env (ok busy_router) 1 (pos 7) (some microphone) full_world)

produced_run :
    handle_produce offline_env (ok busy_router) 1 (pos 7) (some microphone) full_world
    ≡ ok (tt, loud_world)
unfolding handle_produce get_or_create_room lookup insert produce create_producer
    create_producer_request valid_router producer_finish read_answer req_other_new_consumer
    push_users create_new_consumer_data consumer_codecs create_consumer_request add_consumer
    consumes add_producer change_extension_id pull_producers pull_users remb_loop
    remove_feedback_remb req_pull_other_new_producer request_new_consumer get_consumer_by_id
    get_consumer_transport_id get_producer_by_id codec_of consumer_encodings encode_codec
    mapped_payload_type parameters_of producer_encodings producer_feedbacks rtp_mapping
    consumer_finish to_uint32
produced_run = refl

handle_produce-get_producer_example :
    (its_producer (router_of (lookup "lobby" loud_world.rooms)) "bob" "id"
      ≡ some (made_producer "id" 0 microphone))
    × Elem (1, response_of (pos 7) true (produced (record { producer_id = "id" }))) loud_world.sent
unfolding lookup get_producer
handle_produce-get_producer_example =
    handle_produce-get_producer offline_env (ok busy_router) 1 (pos 7) microphone lobby
      (guest "bob") full_world loud_world refl refl refl produced_run

handle_events-handle_produce_example :
    (has_consumer (router_of (lookup "lobby" loud_world.rooms)) "ann" "id" ≡ true)
    × Asked "id" 0 loud_world
unfolding lookup get_producer
handle_events-handle_produce_example =
    handle_events-handle_produce offline_env (ok busy_router) 1 (pos 7) two_guests full_world
      loud_world microphone lobby (guest "bob") "ann" 0 two_guests_run refl refl refl
      (str_ne "ann" "bob" refl) refl produced_run

-- The same request without a codec.
abbrev silent : ProduceReqData
silent = record microphone { rtp_parameters = no_capabilities }

handle_produce-panics_example :
    handle_produce offline_env (ok busy_router) 1 (pos 7) (some silent) full_world ≡ panic
unfolding lookup
handle_produce-panics_example =
    handle_produce-panics offline_env (ok busy_router) two_guests full_world 1 (pos 7) silent
      (guest "bob") lobby "ann" 0 two_guests_run refl refl refl (str_ne "ann" "bob" refl)
      (omega arith)

-- The same request with `"encodings": [null]`.
abbrev null_encoding : ProduceReqData
null_encoding = record microphone {
  rtp_parameters = record no_capabilities { encodings = none ∷ [] };
}

handle_produce-null_example :
    handle_produce offline_env (ok busy_router) 1 (pos 7) (some null_encoding) full_world ≡ panic
unfolding lookup
handle_produce-null_example =
    handle_produce-null offline_env (ok busy_router) full_world 1 (pos 7) null_encoding
      (guest "bob") lobby refl refl refl (inl refl)
