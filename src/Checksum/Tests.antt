-- ===== src/Checksum/Tests.antt =====
-- The theorems of lwip/src/core/ipv4/inet_chksum.c at a packet of two pbufs, and of inet.c.
use ocaml_lwip.Base.{◌≡◌, refl, [], ◌∷◌, ok, arith}
use ocaml_lwip.Pbuf.Chain.{contents}
use ocaml_lwip.Pbuf.Samples.{heap, packet, packet-IsPacket}
use ocaml_lwip.Checksum.{standard_chksum, inet_chksum, inet_chksum_pbuf, inet_chksum_pseudo}
use ocaml_lwip.Checksum.Sum.{Octets, standard_chksum-words}
use ocaml_lwip.Checksum.Packet.{
  inet_chksum_pbuf-inet_chksum, inet_chksum_pseudo-inet_chksum, with_checksum,
  with_checksum-verifies,
}

packet-Octets : Octets (contents packet)
packet-Octets = (omega arith, (omega arith, (omega arith, (omega arith, (omega arith, tt)))))

standard_chksum-words_example : standard_chksum (1 ∷ 2 ∷ 3 ∷ []) ≡ 516
standard_chksum-words_example =
    standard_chksum-words (1 ∷ 2 ∷ 3 ∷ []) (omega arith, (omega arith, (omega arith, tt)))
      (omega arith)

inet_chksum_pbuf-inet_chksum_example :
    inet_chksum_pbuf 3 100 heap ≡ ok (inet_chksum (14 ∷ 15 ∷ 16 ∷ 50 ∷ 51 ∷ [])) heap
inet_chksum_pbuf-inet_chksum_example =
    inet_chksum_pbuf-inet_chksum heap 3 100 packet packet-IsPacket.leads packet-IsPacket.inside
      packet-Octets (omega arith) (omega arith)

inet_chksum_pseudo-inet_chksum_example :
    inet_chksum_pseudo 3 100 16777343 33554559 6 5 heap
    ≡ ok (inet_chksum (127 ∷ 0 ∷ 0 ∷ 1 ∷ 127 ∷ 0 ∷ 0 ∷ 2 ∷ 0 ∷ 6 ∷ 0 ∷ 5 ∷ contents packet)) heap
inet_chksum_pseudo-inet_chksum_example =
    inet_chksum_pseudo-inet_chksum heap 3 100 packet 16777343 33554559 6 5 packet-IsPacket.leads
      packet-IsPacket.inside packet-Octets (omega arith) (omega arith) (omega arith) (omega arith)
      (omega arith) (omega arith)

with_checksum-verifies_example :
    inet_chksum
      (with_checksum (69 ∷ 0 ∷ []) (inet_chksum (with_checksum (69 ∷ 0 ∷ []) 0 (7 ∷ []))) (7 ∷ []))
    ≡ 0
with_checksum-verifies_example =
    with_checksum-verifies (69 ∷ 0 ∷ []) (7 ∷ []) (omega arith, (omega arith, tt)) (omega arith, tt)
      refl (omega arith)
