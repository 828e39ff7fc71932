-- ===== src/Udp/Tests.antt =====
-- Runs of lwip/src/core/udp.c, and its theorems at a sample list.
use ocaml_lwip.Base.{
  ℕ, ◌≡◌, refl, Option, some, none, [], ◌∷◌, ◌==◌, if◌then◌else◌, arith, Cmd, ok, abort, fault,
  out_of_fuel, replicate, Returns, false,
}
use ocaml_lwip.Memp.{Ptr, null}
use ocaml_lwip.Udp.{
  remove, Udp, UdpPcb, zeroed, bind, connect, demux, move_front, Datagram, choose_port, rebind_loop,
  load, port_loop, activate, insert, listed,
}
use ocaml_lwip.Udp.Port.{Pcbs, Linked}
use ocaml_lwip.Udp.Demux.{Picked, demux-Picked}
use ocaml_lwip.Udp.Remove.{Unlinked, remove-Unlinked}
use ocaml_lwip.Udp.Bind.{Wanted, Bound, bind-Bound}

abbrev first_pcb : UdpPcb
first_pcb = record zeroed { next = 200; local_port = 4096 }

abbrev second_pcb : UdpPcb
second_pcb = record zeroed { remote_ip = 5; flags = 4; local_port = 53; remote_port = 7 }

-- Two control blocks on the list and one that is not.
abbrev udp : Udp
udp = record {
  cells = λ a.
      if a == 100
      then some first_pcb
      else if a == 200
      then some second_pcb
      else if a == 300
      then some zeroed
      else none;
  udp_pcbs = 100;
  memp = replicate 8 [];
}

abbrev listed_pcbs : Pcbs
listed_pcbs = (100, first_pcb) ∷ (200, second_pcb) ∷ []

udp-Linked : Linked udp.cells udp.udp_pcbs listed_pcbs
udp-Linked = (refl, omega arith, refl, (refl, omega arith, refl, refl))

bind-Bound_example :
    Returns
      (λ err t.
        (chosen : Option ℕ) × Wanted 0 listed_pcbs chosen
        × Bound udp listed_pcbs 300 zeroed 7 chosen err t)
      (bind 90000 300 7 0 udp)
bind-Bound_example =
    bind-Bound 90000 udp listed_pcbs 300 zeroed 7 0 udp-Linked (omega arith) refl refl (omega arith)

-- The port and the head of the list after a run.
abbrev outcome : {A : Type 0} → Cmd Udp A → Ptr → Option (ℕ × Ptr)
outcome m pcb = elim (m udp) [
  | ok a s ↦ elim (s.cells pcb) [ none ↦ none | some c ↦ some (c.local_port, s.udp_pcbs) ]
  | abort ↦ none
  | fault ↦ none
  | out_of_fuel ↦ none
]

bind_next_free : outcome (bind 20 300 7 0) 300 ≡ some (4097, 300)
unfolding bind rebind_loop load choose_port port_loop activate insert
bind_next_free = refl

connect_keeps_order : outcome (connect 20 200 9 80) 200 ≡ some (53, 100)
unfolding connect load listed
connect_keeps_order = refl

-- A datagram to port 53 from port 7 of the address 5.
abbrev datagram : Datagram
datagram = record { src_ip = 5; dest_ip = 6; src = 7; dest = 53; broadcast = false }

-- The second control block matches both ends and moves to the front.
demux_second : outcome (demux 20 datagram 100 null null) 200 ≡ some (53, 200)
unfolding demux load move_front
demux_second = refl

demux-Picked_example : Returns (Picked udp listed_pcbs 200 0) (demux 3 datagram 100 null null udp)
demux-Picked_example =
    demux-Picked 3 udp datagram listed_pcbs udp-Linked (refl, (refl, tt)) (omega arith)

remove-Unlinked_example :
    Returns (λ _ g. Unlinked udp 200 ((100, first_pcb) ∷ []) g) (remove 3 200 udp)
remove-Unlinked_example =
    remove-Unlinked 3 udp ((100, first_pcb) ∷ []) 200 second_pcb [] udp-Linked (refl, (refl, tt))
      (omega arith) (omega arith)
