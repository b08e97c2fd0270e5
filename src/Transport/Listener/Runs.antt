-- ===== src/Transport/Listener/Runs.antt =====
-- A listener at concrete inputs.
use gffg.Prelude.{some, ◌≡◌, refl, [], ◌∷◌, ◌++◌, false}
use gffg.Prelude.Int.{pos}
use gffg.Transport.Listener.{
  accepted, accept_error, close, looping, returned, block_listen, System, open_socket, new_listener,
  listening, set_max_message_size,
}
use gffg.Transport.Listener.Laws.{block_listen_lem}

block_listen_lem_example :
    (block_listen false [] (accepted 1 ∷ accept_error ∷ accepted 2 ∷ []) ≡ looping (1 ∷ 2 ∷ []))
    × (block_listen false []
          ((accepted 1 ∷ accept_error ∷ accepted 2 ∷ []) ++ close ∷ (accepted 3 ∷ accepted 4 ∷ []))
        ≡ looping (1 ∷ 2 ∷ 3 ∷ 4 ∷ []))
    × (block_listen false [] (
          (accepted 1 ∷ accept_error ∷ accepted 2 ∷ [])
          ++ close ∷ ((accepted 3 ∷ accepted 4 ∷ []) ++ accept_error ∷ accepted 5 ∷ []))
        ≡ returned (1 ∷ 2 ∷ 3 ∷ 4 ∷ []))
block_listen_lem_example =
    block_listen_lem (accepted 1 ∷ accept_error ∷ accepted 2 ∷ []) (3 ∷ 4 ∷ []) (accepted 5 ∷ []) tt

abbrev sys : System
sys = record { resolve_tcp_addr = λ addr. some addr; listen_tcp = λ addr. some 3 }

-- The sizes of the listener of a server, and those that no option sets.
default_sizes :
    new_listener sys (set_max_message_size (pos 0) ∷ [])
    ≡ listening 3
        (record {
          max_message_size = pos 1048576;
          header_byte_size = pos 8;
          enable_logging = false;
          address = [];
          event = record { listen = false; connect = false; closed = false; on_recv = false };
        })
        false
unfolding new_listener open_socket
default_sizes = refl
