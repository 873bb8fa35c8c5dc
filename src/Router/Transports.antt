-- ===== src/Router/Transports.antt =====
-- The transport ids of users.
use singal.Common.{◌≡◌, String, none, some, arith, str_eq, eq_iff, if◌then◌else◌}
use singal.Dict.{lookup, lookup-insert}
use singal.Router.{Router, save_consume_transport_id, get_consumer_transport_id}

-- The first consuming transport that is saved for a user is the one that `getConsumerTransportId`
-- gives from then on; saving for one user changes no other.
pub get_consumer_transport_id-save :
    (r : Router) (user v transport : String)
    → get_consumer_transport_id (save_consume_transport_id r user transport) v ≡ (
        if str_eq user v
        then elim (lookup user r.consume_transport_ids) [ none ↦ transport | some t ↦ t ]
        else get_consumer_transport_id r v)
unfolding get_consumer_transport_id save_consume_transport_id
get_consumer_transport_id-save r user v transport =
    ground (arith, lookup-insert user v transport r.consume_transport_ids, eq_iff user v)
