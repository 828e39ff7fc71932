-- ===== src/Lib.antt =====
-- ocaml-lwip: OCaml bindings of the lwIP TCP/IP stack (lib/lwip_stubs.c) and the parts of the
-- stack that the bindings and lib_test/Makefile build on, as lib_test/lwipopts.h configures it:
-- NO_SYS, MEM_ALIGNMENT 1, no statistics, and LWIP_ASSERT and LWIP_ERROR both abort
-- (lib_test/include/arch/cc.h).
--
-- The parts. lwip/src/core/memp.c keeps pools of fixed-size elements; lwip/src/core/pbuf.c builds
-- packets from them, as chains of reference-counted pbufs; lib/lwip_stubs.c queues the packets
-- that TCP delivers on a connection until the OCaml side reads them, and tells it by closures.
-- lwip/src/core/ipv4/inet_chksum.c sums the bytes of packets, inet.c converts addresses, and
-- lwip/src/core/netif.c keeps the interfaces, which the bindings set up. Below and beside them are
-- the heap of mem.c, the address table of etharp.c, the control blocks of udp.c and the tap driver
-- lib_test/mintapif.c. TCP itself is a parameter, the record TcpApi, over a state of its own.
--
-- Base: Boolean tests on numbers, lists measured by native numbers, casts to machine widths (`u16
-- n` is the cast to u16_t), and Cmd, code on a state that returns, aborts, faults (an access
-- through a null or dangling pointer or outside a buffer) or runs out of fuel. `Returns` of a
-- command says that it returns, and what holds then.
--
-- Memp (lwip/src/core/memp.c): memp_tab is a list of free lists; memp_init, memp_malloc and
-- memp_free are init, malloc and free. Memp/Carve is about memp_init, Memp/Reuse about the other
-- two.
--
-- Mem (lwip/src/core/mem.c): the heap, with two views of `ram`: `cells`, the struct mem at each
-- offset, and `bytes`; a write to one changes the other, and cells that overlap; mem_init,
-- mem_free, mem_realloc, mem_malloc and mem_calloc are init, free, realloc, malloc and calloc,
-- with plug_holes. The theorems are about heaps whose blocks lie at least 18 bytes apart.
-- Mem/Parts has what the heap promises, with no offset in it: a list of blocks, each with a size
-- and whether it is in use, the first that a request fits into, and the joining of free
-- neighbours. Mem/Zip and Mem/Edit say how such a list lies in memory and what the writes do to
-- it; Mem/Layout is the invariant, Mem/Sync is about the two views, Mem/Data says which offsets
-- are user data and which a struct mem takes. Mem/Plug and Mem/Plugged are about plug_holes,
-- Mem/Free about mem_free, Mem/Split, Mem/Raise and Mem/Malloc about mem_malloc, Mem/Fit about
-- both together, Mem/Shrink and Mem/Realloc about mem_realloc, Mem/Calloc about mem_calloc.
--
-- Pbuf (lwip/src/core/pbuf.c, lwip/src/include/lwip/pbuf.h): a Heap maps addresses to the structs
-- in use and holds the pools; payload pointers are offsets into a buffer. Pbuf/Chain defines what
-- a chain at an address is (Chain, Counted, Inside) and the bytes it holds (contents). Pbuf/Read
-- has pbuf_clen and pbuf_copy_partial, Pbuf/Free pbuf_free, Pbuf/Link pbuf_ref, pbuf_cat,
-- pbuf_chain and pbuf_dechain, Pbuf/Header pbuf_header, Pbuf/Shrink pbuf_realloc. Pbuf/Packet says
-- what a well-formed packet is.
--
-- Pbuf/Take has pbuf_take and Pbuf/Alloc pbuf_alloc, where the address of a PBUF_RAM's block is
-- given, which the code takes from the heap of mem.c; Pbuf/Alloc/Pool is about a pool with enough
-- elements, Pbuf/Alloc/Empty about one that runs out. Pbuf/Copy has pbuf_copy and pbuf_coalesce;
-- Pbuf/Copy/Loop is about the loop with a single target pbuf, Pbuf/Copy/Coalesce about
-- pbuf_coalesce.
--
-- Checksum (lwip/src/core/ipv4/inet_chksum.c): lwip_standard_chksum in its first version,
-- inet_chksum, inet_chksum_pbuf and inet_chksum_pseudo. Checksum/Sum compares the buffer's sum
-- with a sum of words, Checksum/Chain and Checksum/Packet the sum over a chain with that over the
-- bytes in one piece.
--
-- Inet (lwip/src/core/ipv4/inet.c): htons and htonl, and addresses as text. Inet/Digits and
-- Inet/Dotted read and write the numbers of an address, Inet/Words puts them together, Inet/Text
-- has the round trip; Inet/Address has ip_addr_isbroadcast of lwip/src/core/ipv4/ip_addr.c.
--
-- Netif (lwip/src/core/netif.c): the interfaces in memory, linked through `next`; Netif/Add is
-- about netif_add, Netif/Remove about netif_remove. tcp_abort and a driver's start function are
-- parameters.
--
-- Interfaces (lib/lwip_stubs.c): the primitives for interfaces, timers and the start; a
-- caml_netif_ or caml_timer_ primitive has its name without the prefix.
--
-- Arp (lwip/src/netif/etharp.c): the table of Ethernet addresses, a list of ten entries, with
-- find_entry, update_arp_entry, etharp_find_addr as find_addr and etharp_tmr as tmr. What happens
-- to packets is recorded in `freed` and `sent`. The loop of find_entry is `scan`; what it
-- remembers of one entry, and what is done after it, are functions of their own. Arp/Scan is about
-- the loop, Arp/Find about find_entry, Arp/Update about update_arp_entry and etharp_find_addr,
-- Arp/Timer about etharp_tmr.
--
-- Udp (lwip/src/core/udp.c): the control blocks in memory and their list; a udp_ function has its
-- name without the prefix, udp_recv is set_recv, and `demux` is what udp_input does to find the
-- control block of a datagram. Udp/Port is about the search for a free port, Udp/Bind about
-- udp_bind, Udp/Order about the move to the front of the list, Udp/Demux about the choice,
-- Udp/Unlink about the loop of udp_remove and Udp/Remove about udp_remove. The search gets one
-- round for each control block and port of the range.
--
-- Tap (lib_test/mintapif.c): low_level_output, low_level_input and mintapif_input, the driver that
-- carries frames between packets and the tap device; Tap/Output and Tap/Input are about the two
-- directions.
--
-- Stubs (lib/lwip_stubs.c): Stubs/State has the records, the World of wraps, packets, network and
-- closure calls, and the monad of code that returns, raises or dies; Stubs/Queue the pbuf_list
-- functions; Stubs/Calls every caml_tcp_ primitive under its name without the prefix, the
-- callbacks recv_cb, sent_cb and accept_cb, and tcp_wrap_finalize as finalize. Its children Read,
-- Recv and Closed prove what the primitives do. A closure that a primitive calls is recorded in
-- `events`; that it does not call back into the same connection is assumed.
--
-- Fuel. A loop over a chain takes fuel, one for each round; the theorems give it more than the
-- chain has pbufs, so that no run ends for want of it. The loops of mem.c have MEM_SIZE_ALIGNED +
-- 1 rounds, more than the heap can have blocks. Chains without cycle are a hypothesis (Distinct),
-- since the C loops do not end on others.
--
-- Not modelled: TCP, IP, the packets of ARP, the sending of UDP and the other layers behind
-- TcpApi, the opening of the tap device and the waiting on it, and the parts of lwIP that the
-- build leaves out (api, ipv6, snmp, ppp, dhcp, dns).
pub mod Arp
pub mod Base
pub mod Checksum
pub mod Inet
pub mod Interfaces
pub mod Mem
pub mod Memp
pub mod Netif
pub mod Pbuf
pub mod Stubs
pub mod Tap
pub mod Udp
