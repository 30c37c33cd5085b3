-- ===== src/Tests/Peers.antt =====
-- A client and its connection at work.
use compuguessr.Base.{
  ℕ, ◌≡◌, refl, List, [], ◌∷◌, ok, arith, length-replicate, get_or-replicate, replicate,
}
use compuguessr.Base.Int.{pos, negsuc}
use compuguessr.Base.Text.{codes}
use compuguessr.Clients.{Client, in_use}
use compuguessr.Fastcgi.Params.Lengths.{IsBytes}
use compuguessr.Tests.Records.{all_bytes-IsBytes}
use compuguessr.Uring.{Entered}
use compuguessr.Tests.Platform.{ring}
use compuguessr.App.Peer.{fed, read_done, client_cqe_handle, client_state_handle}
use compuguessr.App.Peer.Safe.{IsSound, IsPeer, Serves}
use compuguessr.App.Peer.Life.{Asks, client_state_handle-IsPeer}
use compuguessr.App.Peer.Steps.{Reaches-Serves, asks, arrives, completes, stays, goes}
use compuguessr.Tests.Server.{
  sums, table, table-IsSorted, route_map, route_map-IsRouting, world, world-IsWorld, world-IsReady,
  moment, memory, memory-IsTx,
}

abbrev pub client : Client
client = record {
  state = in_use;
  fcgi = record {
    state = 1;
    saved_hdr = record {
      version = 0;
      type = 0;
      request_id = 0;
      content_len = 0;
      padding_len = 0;
      reserved = 0;
    };
    sockfd = pos 5;
    rx = memory;
    tx = memory;
  };
  req = record {
    uri = replicate 128 0;
    method = replicate 16 0;
    session_id = replicate 32 0;
    req_id = 0;
    keep_alive = 0;
    stdin_len = 0;
    stdin_buf = replicate 4096 0;
  };
}

client-IsSound : IsSound client
client-IsSound = record {
  rx = record {
    sized = length-replicate 65790 0;
    filled = omega arith;
    small = omega arith;
    bytes = λ i. rw (get_or-replicate {A = ℕ} 65790 i 0) (omega arith);
  };
  rx_len = refl;
  tx = memory-IsTx;
  tx_len = refl;
  tx_pos = omega arith;
  req = record {
    uri_size = length-replicate 128 0;
    method_size = length-replicate 16 0;
    session_size = length-replicate 32 0;
    stdin_size = length-replicate 4096 0;
    stdin_fits = omega arith;
  };
  padding = omega arith;
}

client-IsPeer : IsPeer client
client-IsPeer = record {
  sound = client-IsSound;
  reads = λ _. omega arith;
  writes = λ r. absurd (ground (arith, r));
}

client_state_handle-IsPeer_example :
    IsPeer (client_state_handle 7 client).0 × Asks client (client_state_handle 7 client).1
client_state_handle-IsPeer_example = client_state_handle-IsPeer 7 client client-IsPeer

-- The client while a read is under way.
abbrev asked : Client
asked = (client_state_handle 7 client).0

abbrev request_bytes : List ℕ
request_bytes = 1 ∷ 1 ∷ 0 ∷ 1 ∷ 0 ∷ 8 ∷ 0 ∷ 0 ∷ 0 ∷ 1 ∷ 1 ∷ 0 ∷ 0 ∷ 0 ∷ 0 ∷ 0 ∷ []

abbrev fed_client : Client
fed_client = fed asked request_bytes

abbrev left_client : Client
left_client = let fcgi = fed_client.fcgi in record fed_client { fcgi = record fcgi { state = 5 } }

-- Bytes arrive, and then the peer closes the connection.
closed_by_peer :
    client_cqe_handle sums table route_map world fed_client moment (pos 0) ≡ ok (world, left_client)
unfolding client_cqe_handle read_done client_state_handle
closed_by_peer = refl

request_bytes-IsBytes : IsBytes request_bytes
request_bytes-IsBytes = all_bytes-IsBytes request_bytes refl

Reaches-Serves_example : Serves (world, left_client)
unfolding client_state_handle
Reaches-Serves_example =
    Reaches-Serves sums table table-IsSorted route_map route_map-IsRouting world world client
      left_client
      (goes world world world client asked left_client (asks world client 7) (
        goes world world world asked fed_client left_client
          (arrives world asked request_bytes request_bytes-IsBytes (omega arith))
          (goes world world world fed_client left_client left_client
            (completes world world fed_client left_client moment (pos 0) world-IsReady
              ((λ _. omega arith), (λ _. omega arith)) closed_by_peer)
            (stays world left_client))))
      (world-IsWorld, client-IsPeer)

abbrev pub file : List ℕ
file = codes "src/app/cg_app.c"

-- A signal ends the wait before anything has completed.
abbrev pub interrupted : Entered
interrupted = record { ret = negsuc 3; ring = record ring { cq_tail = 0 } }
