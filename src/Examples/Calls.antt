-- ===== src/Examples/Calls.antt =====
-- Requests to workers and their answers.
use singal.Common.{ℕ, ◌≡◌, refl, true, false, none, some, [], ◌∷◌, pos}
use singal.Media.{Encodings}
use singal.Rtc.Media.{ok, encoding_of, producer_encodings, consumer_encodings}
use singal.Rtc.Encode.{consumer-producer_encodings}

abbrev plain : Encodings
plain = record {
  active = true;
  scalability_mode = "";
  scale_resolution_down_by = pos 1;
  max_bitrate = pos 1000;
  rid = "";
  dtx = false;
  ssrc = 77;
  rtx = none;
}

abbrev draws : ℕ → ℕ
draws n = 1000

abbrev plain_kept : Encodings
plain_kept = record plain { ssrc = 1000; rtx = some (record { ssrc = 1001 }) }

consumer-producer_encodings_example :
    consumer_encodings "video" (some plain_kept ∷ []) ≡ ok (encoding_of plain 1000 true 1001 ∷ [])
unfolding producer_encodings
consumer-producer_encodings_example =
    consumer-producer_encodings "video" draws (some plain ∷ []) (some plain_kept ∷ [])
      (encoding_of plain 1000 true 1001 ∷ []) refl
