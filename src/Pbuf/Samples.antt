-- ===== src/Pbuf/Samples.antt =====
-- A heap with a packet of two pbufs and one of a single pbuf, for the tests.
use ocaml_lwip.Base.{◌+◌, refl, some, none, [], ◌∷◌, ◌==◌, if◌then◌else◌, arith, replicate}
use ocaml_lwip.Pbuf.{Pbuf, ram, rom, pool, Heap}
use ocaml_lwip.Pbuf.Chain.{Cells}
use ocaml_lwip.Pbuf.Packet.{IsPacket, Owned}

abbrev pub first_pbuf : Pbuf
first_pbuf = record {
  next = 200;
  payload = 4;
  tot_len = 5;
  len = 3;
  type = ram;
  flags = 0;
  refs = 1;
  mem = λ i. i + 10;
  size = 8;
}

abbrev pub second_pbuf : Pbuf
second_pbuf = record {
  next = 0;
  payload = 0;
  tot_len = 2;
  len = 2;
  type = pool;
  flags = 0;
  refs = 1;
  mem = λ i. i + 50;
  size = 592;
}

abbrev pub other_pbuf : Pbuf
other_pbuf = record {
  next = 0;
  payload = 0;
  tot_len = 1;
  len = 1;
  type = rom;
  flags = 0;
  refs = 2;
  mem = λ i. 99;
  size = 1;
}

abbrev pub heap : Heap
heap = record {
  cells = λ a.
      if a == 100
      then some first_pbuf
      else if a == 200
      then some second_pbuf
      else if a == 300
      then some other_pbuf
      else none;
  memp = replicate 8 [];
  stale = λ p i. 0;
}

abbrev pub packet : Cells
packet = (100, first_pbuf) ∷ (200, second_pbuf) ∷ []

abbrev pub other : Cells
other = (300, other_pbuf) ∷ []

pub packet-IsPacket : IsPacket heap 100 packet
packet-IsPacket = record {
  leads = (refl, omega arith, refl, (refl, omega arith, refl, refl));
  distinct = (refl, (refl, tt));
  counted = (refl, (refl, tt));
  inside = (omega arith, (omega arith, tt));
  live = (omega arith, (omega arith, tt));
  fits = omega arith;
  pools = omega arith;
}

pub other-IsPacket : IsPacket heap 300 other
other-IsPacket = record {
  leads = (refl, omega arith, refl, refl);
  distinct = (refl, tt);
  counted = (refl, tt);
  inside = (omega arith, tt);
  live = (omega arith, tt);
  fits = omega arith;
  pools = omega arith;
}

pub packet-Owned : Owned packet
packet-Owned = (refl, (refl, tt))
