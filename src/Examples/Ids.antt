-- ===== src/Examples/Ids.antt =====
-- Access levels and connection ids.
use oxen_mq.Common.{◌≡◌, refl, true, [], bytes, pos, negsuc}
use oxen_mq.ConnectionId.{ConnectionId, cid_eq, cid_lt}
use oxen_mq.ConnectionId.Order.{OneOf, cid_trichotomy}

-- An incoming client on listener 3, under two pubkeys.
abbrev client : ConnectionId
client = record { id = pos 3; pk = bytes "K"; route = bytes "r1" }

abbrev same_client : ConnectionId
same_client = record { id = pos 3; pk = []; route = bytes "r1" }

abbrev node : ConnectionId
node = record { id = negsuc 0; pk = bytes "N"; route = bytes "r2" }

node_first : cid_lt node client ≡ true
unfolding cid_lt
node_first = refl

cid_trichotomy_example : OneOf (cid_lt client node) (cid_eq client node) (cid_lt node client)
cid_trichotomy_example = cid_trichotomy client node
