-- ===== src/Examples/Routers.antt =====
-- Routers with a few participants.
use singal.Common.{◌≡◌, str_ne, refl, true, false, some, [], ◌∷◌}
use singal.Dict.{lookup}
use singal.Router.{
  Router, Producer, Consumer, consumes, add_consumer, remove_consumer_by_producer_id,
  get_consumer_by_id,
}
use singal.Router.Consumers.{IsSingle, add_consumer-IsSingle}
use singal.Router.Closing.{remove_consumer_keeps_last}

abbrev microphone : Producer
microphone = record {
  producer_id = "mic";
  transport_id = "t1";
  kind = "audio";
  ssrc = 7;
  parameters = 0;
}

abbrev pub camera : Producer
camera = record {
  producer_id = "cam";
  transport_id = "t1";
  kind = "video";
  ssrc = 8;
  parameters = 1;
}

abbrev pub of_camera : Consumer
of_camera = record {
  consumer_id = "c1";
  transport_id = "t2";
  producer_id = "cam";
  kind = "video";
  origin_ssrc = 0;
  new_ssrc = 0;
}

abbrev of_microphone : Consumer
of_microphone = record {
  consumer_id = "c2";
  transport_id = "t2";
  producer_id = "mic";
  kind = "audio";
  origin_ssrc = 0;
  new_ssrc = 0;
}

-- Ann sends sound and a picture, and Bob takes both.
abbrev pub busy_router : Router
busy_router = record {
  router_id = "r1";
  public_ip = "192.0.2.1";
  min_port = 0;
  port = 4000;
  max_port = 0;
  preference_udp = true;
  send_buf_size = 0;
  recv_buf_size = 0;
  worker_id = "w1";
  producers = ("ann", microphone ∷ camera ∷ []) ∷ [];
  consumers = ("bob", of_microphone ∷ of_camera ∷ []) ∷ [];
  produce_transport_ids = ("ann", "t1") ∷ [];
  consume_transport_ids = ("bob", "t2") ∷ [];
}

add_consumer-IsSingle_example :
    ((add_consumer busy_router "bob" (some of_camera)).1 ≡ false)
    × (consumes "cam" (get_consumer_by_id (add_consumer busy_router "bob" (some of_camera)).0 "bob")
        ≡ true)
    × IsSingle (add_consumer busy_router "bob" (some of_camera)).0
unfolding lookup consumes
add_consumer-IsSingle_example =
    add_consumer-IsSingle busy_router "bob" of_camera ((refl, (refl, tt)), tt)

remove_consumer_keeps_last_example :
    let r = (remove_consumer_by_producer_id busy_router "ann" "cam").0 in
    (get_consumer_by_id r "bob" ≡ of_microphone ∷ of_camera ∷ [])
    × ((add_consumer r "bob" (some of_camera)).1 ≡ false)
unfolding lookup consumes
remove_consumer_keeps_last_example =
    remove_consumer_keeps_last busy_router "ann" "cam" "bob" (of_microphone ∷ []) of_camera
      of_camera (str_ne "bob" "ann" refl) refl refl refl refl
