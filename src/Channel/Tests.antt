-- ===== src/Channel/Tests.antt =====
-- A client and a server at the two ends of a channel of src/net_chan.c.
use native.Mathlib.Nat.{le_refl}
use quake2world.Prelude.{ℕ, ◌≤◌, ◌≡◌, refl, true, false, Option, some, List, [], ◌∷◌, ◌++◌, arith}
use quake2world.MemBuf.{MemBuf, init_buffer, contents}
use quake2world.Message.Write.{given}
use quake2world.Message.Read.Rules.{Holds}
use quake2world.Channel.{NetChan, NetAddr, udp_client, udp_server, setup, transmit, process}
use quake2world.Channel.Packet.{head_bytes, unreliable_part, payload}
use quake2world.Channel.Invariant.{IsChan, IsOutcome, setup-IsChan, transmit_total}
use quake2world.Channel.Sequence.{received, process_packet}

abbrev here : NetAddr
here = record { addr_type = 2; addr = 0x0100007f; port = 1998 }

abbrev client : NetChan
client = setup udp_client here 7 0

abbrev server : NetChan
server = setup udp_server here 7 0

transmit_total_example :
    (chan' : NetChan) × (sent : Option (List ℕ)) × (transmit client (1 ∷ 2 ∷ 3 ∷ []) 25
      ≡ some (chan', sent))
    × IsChan chan'
    × IsOutcome chan' sent
transmit_total_example = transmit_total (1 ∷ 2 ∷ 3 ∷ []) 25 (setup-IsChan udp_client here 7 0)

-- the client's first packet, with three bytes of data
abbrev packet : MemBuf
packet = init_buffer (1 ∷ 0 ∷ 0 ∷ 0 ∷ 0 ∷ 0 ∷ 0 ∷ 0 ∷ 7 ∷ 1 ∷ 2 ∷ 3 ∷ []) 12

abbrev arrived : MemBuf
arrived = record packet { size = 12 }

arrived_body :
    contents arrived ≡ head_bytes client false ++ unreliable_part client false (1 ∷ 2 ∷ 3 ∷ [])
unfolding head_bytes given setup
arrived_body = refl

process_packet_example :
    ((process server arrived 25).2 ≡ true)
    × ((process server arrived 25).0 ≡ received client server false 25)
    × Holds (process server arrived 25).1 (payload client false (1 ∷ 2 ∷ 3 ∷ []))
unfolding setup
process_packet_example =
    process_packet client server false (1 ∷ 2 ∷ 3 ∷ []) arrived 25 refl
      (setup-IsChan udp_client here 7 0) (setup-IsChan udp_server here 7 0) (omega arith)
      arrived_body

used_once : (process server arrived 25).2 ≡ true
unfolding setup
used_once =
    (process_packet client server false (1 ∷ 2 ∷ 3 ∷ []) arrived 25 refl
      (setup-IsChan udp_client here 7 0) (setup-IsChan udp_server here 7 0) (omega arith)
      arrived_body).0

abbrev after : NetChan
after = received client server false 25

not_older : (process server arrived 25).0.incoming_sequence ≤ after.incoming_sequence
unfolding setup
not_older =
    rw
      (process_packet client server false (1 ∷ 2 ∷ 3 ∷ []) arrived 25 refl
        (setup-IsChan udp_client here 7 0) (setup-IsChan udp_server here 7 0) (omega arith)
        arrived_body).1
      (le_refl _)
