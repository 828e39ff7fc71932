-- ===== src/Stubs/Tests.antt =====
-- The theorems of lib/lwip_stubs.c at a connection with two packets, over a network that counts
-- the bytes acknowledged.
use ocaml_lwip.Base.{ℕ, ◌+◌, ◌≡◌, refl, none, some, true, [], ◌∷◌, ◌==◌, if◌then◌else◌, arith}
use ocaml_lwip.Pbuf.Samples.{heap, packet, packet-IsPacket, packet-Owned}
use ocaml_lwip.Stubs.State.{
  err_ok, TcpApi, tcp_accepted, state_record, rx_notify, Wrap, World, raised, connection_closed,
  Gives, with_rx, ◌>>=◌, ◌>>◌,
}
use ocaml_lwip.Stubs.Queue.Held.{Packets, all_bytes, Held, Cleared}
use ocaml_lwip.Stubs.Calls.{read, read_len, close, finalize}
use ocaml_lwip.Stubs.Calls.Read.{Drained, read-all_bytes}
use ocaml_lwip.Stubs.Calls.Recv.{deliver, Now, deliver-Now, read-deliver}
use ocaml_lwip.Stubs.Calls.Closed.{
  AfterClose, shut, close-AllRaise, closed_hides_rx, finalize-Cleared,
}

abbrev counting : TcpApi
counting = record {
  Net = ℕ;
  new = λ n. (500, n);
  bind = λ pcb ip port n. (err_ok, n);
  listen = λ pcb n. (pcb, n);
  accepted = λ pcb n. n;
  recved = λ pcb len n. n + len;
  write = λ pcb bytes n. (err_ok, n);
  sndbuf = λ pcb n. 2048;
  close = λ pcb n. (err_ok, n);
  abort_pcb = λ pcb n. n;
  setprio_min = λ pcb n. n;
  arg = λ pcb tw n. n;
  recv = λ pcb n. n;
  sent = λ pcb n. n;
  on_accept = λ pcb n. n;
}

abbrev conn : Wrap
conn = record { pcb = 500; v = some (state_record 9); state = tcp_accepted; retries = 0; rx = [] }

-- One wrap, of number 1.
abbrev world : Wrap → World ℕ
world d = record { heap = heap; net = 0; wraps = λ a. if a == 1 then some d else none; events = [] }

abbrev packets : Packets
packets = packet ∷ []

packets-Held : Held 3 heap (100 ∷ []) packets
packets-Held = (omega arith, packet-IsPacket, packet-Owned, omega arith, λ a m. refl, tt)

read-all_bytes_example :
    Gives
      (Drained counting 3 1 (world (with_rx conn (100 ∷ []))) conn packets)
      (read counting 3 1 (world (with_rx conn (100 ∷ []))))
read-all_bytes_example =
    read-all_bytes counting 3 1 (world (with_rx conn (100 ∷ []))) conn 100 [] packets refl
      packets-Held (omega arith) (omega arith)

deliver-Now_example :
    Gives
      (λ u w'. Now ℕ (world conn) 1 (with_rx conn (100 ∷ 300 ∷ [])) (rx_notify 9 ∷ []) w')
      (deliver counting 3 1 500 (100 ∷ 300 ∷ []) (world conn))
deliver-Now_example =
    deliver-Now counting 3 1 500 conn 9 refl (100 ∷ 300 ∷ []) [] (world conn) refl refl
      (omega arith, (omega arith, tt))

read-deliver_example :
    Gives
      (λ bytes w'. (bytes ≡ all_bytes packets) × (w'.wraps 1 ≡ some conn))
      ((deliver counting 3 1 500 (100 ∷ []) >> read counting 3 1) (world conn))
read-deliver_example =
    read-deliver counting 3 1 500 conn 9 refl 100 [] packets (world conn) refl refl
      (omega arith, tt) packets-Held (omega arith) (omega arith)

close-AllRaise_example :
    Gives
      (λ r w'.
        (r ≡ true)
        × AfterClose counting 1 (world conn) conn (omega arith) refl r w'
        × (w'.heap ≡ heap)
        × (w'.net ≡ 0)
        × (w'.events ≡ []))
      (close counting 1 (world conn))
close-AllRaise_example = close-AllRaise counting 1 (world conn) conn (omega arith) refl

closed_hides_rx_example :
    let w = world (with_rx (shut conn) (100 ∷ [])) in
    (read_len counting 1 w ≡ raised connection_closed w)
    × Gives (λ bytes w'. (bytes ≡ all_bytes packets) × (w'.net ≡ 0)) (read counting 3 1 w)
closed_hides_rx_example =
    closed_hides_rx counting 3 1 (world (with_rx (shut conn) (100 ∷ []))) (shut conn) 100 [] packets
      refl packets-Held (omega arith) refl (omega arith)

finalize-Cleared_example :
    Gives
      (λ u w'. (w'.wraps 1 ≡ none) × Cleared heap packets w'.heap × (w'.net ≡ 0))
      (finalize counting 3 1 (world (with_rx conn (100 ∷ []))))
finalize-Cleared_example =
    finalize-Cleared counting 3 1 (world (with_rx conn (100 ∷ []))) conn 100 [] packets refl
      packets-Held (omega arith)
