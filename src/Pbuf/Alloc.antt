-- ===== src/Pbuf/Alloc.antt =====
-- pbuf_alloc of lwip/src/core/pbuf.c.
pub mod Loop
pub mod Pool
pub mod Snoc
pub mod Undo
pub mod Empty
use ocaml_lwip.Base.{
  ℕ, zero, suc, ◌+◌, ◌-◌, ◌*◌, ◌^◌, ◌≤◌, ◌<◌, ◌≡◌, refl, ◌≢◌, Bool, true, false, some, none, List,
  [], ◌∷◌, ◌||◌, Cmd, ok, fault, out_of_fuel, assert, pure, ◌>>=◌, ◌>>◌, Returns, returns,
  Returns-mono, arith, ◌==◌, ltb, leb, if◌then◌else◌, u16, length, drop, min, get_or, length-set,
  get_or-set_self, Option-cases, Option, get_or-set_ne, ne→==, le→leb, lt→ltb, ==→eq, Bool-cases,
  inl, inr, ap, sym, ◌∙◌,
}
use ocaml_lwip.Memp.{Ptr, null, first, behind}
use ocaml_lwip.Memp
use ocaml_lwip.Memp.Reuse.{malloc_eq, with_pool}
use ocaml_lwip.Pbuf.{
  Heap, Pbuf, PbufType, ram, rom, ref, pool, load, store, in_memp, memp_pbuf, memp_pbuf_pool, write,
}
use ocaml_lwip.Pbuf.Free
use ocaml_lwip.Pbuf.Chain.{
  Cells, Chain, has, Distinct, total, Counted, Inside, load-eq, cells-write_self, cells-write_ne,
  in_memp-eq,
}
use ocaml_lwip.Pbuf.Packet.{Owned, IsPacket, Owned-Live}

-- pbuf_layer.
pub data PbufLayer : Type 0 where
  transport ip link raw : PbufLayer

-- PBUF_POOL_BUFSIZE, and the room for headers: PBUF_TRANSPORT_HLEN, PBUF_IP_HLEN, PBUF_LINK_HLEN.
abbrev pub bufsize : ℕ
bufsize = 592

abbrev pub offset_of : PbufLayer → ℕ
offset_of transport = 20 + 20 + 16
offset_of ip = 20 + 16
offset_of link = 16
offset_of raw = 0

-- SIZEOF_STRUCT_PBUF, with pointers of 64 bits.
abbrev pub sizeof_struct_pbuf : ℕ
sizeof_struct_pbuf = 24

-- A pbuf without successor; what its buffer holds is what was there.
abbrev pub fresh : PbufType → (payload length len size : ℕ) → (ℕ → ℕ) → Pbuf
fresh type payload length len size mem = record {
  next = null;
  payload = payload;
  tot_len = length;
  len = len;
  type = type;
  flags = 0;
  refs = 1;
  mem = mem;
  size = size;
}

-- The while loop of the case PBUF_POOL: `r` is the last pbuf so far; `m` is pbuf_free's fuel.
pub alloc_tail : (m k : ℕ) → (p r : Ptr) → (rem_len : ℕ) → Cmd Heap Ptr
alloc_tail m zero p r rem_len = λ _. out_of_fuel
alloc_tail m (suc k) p r rem_len = if rem_len == 0 then pure p else (do
  q ← in_memp (Memp.malloc memp_pbuf_pool)
  if q == null then (do count ← Free.free m p; pure null) else (do
    let len = min (u16 rem_len) bufsize
    λ h. store q (fresh pool 0 (u16 rem_len) len bufsize (h.stale q)) h
    b ← load r
    store r (record b { next = q })
    assert (ltb rem_len 65535)
    c ← load p
    assert (leb (c.payload + c.len) bufsize)
    alloc_tail m k p q (rem_len - len)))

-- `block` is what mem_malloc returns for a PBUF_RAM. Its argument is a u16_t: of a sum of 2^16 or
-- more only the low 16 bits are asked for, and where they are not enough for the struct the
-- assignments to its fields are outside the block. A PBUF_ROM or PBUF_REF has no buffer yet.
pub alloc : ℕ → PbufLayer → ℕ → PbufType → (block : Ptr) → Cmd Heap Ptr
unfolding alloc_tail
alloc k layer length pool block = do
  p ← in_memp (Memp.malloc memp_pbuf_pool)
  if p == null then pure null else (do
    let offset = offset_of layer
    let len = min length (bufsize - offset)
    λ h. store p (fresh pool offset length len bufsize (h.stale p)) h
    assert (leb (offset + len) bufsize)
    assert (ltb 0 (bufsize - offset))
    alloc_tail k k p p (length - len))
alloc k layer length ram block = if block == null then pure null else (do
  let offset = offset_of layer
  let got = u16 (sizeof_struct_pbuf + offset + length)
  if ltb got sizeof_struct_pbuf then (λ _. fault) else (λ h.
      store block (fresh ram offset length length (got - sizeof_struct_pbuf) (h.stale block)) h)
  pure block)
alloc k layer length rom block = do
  p ← in_memp (Memp.malloc memp_pbuf)
  if p == null then pure null else (do store p (fresh rom 0 length length 0 (λ i. 0)); pure p)
alloc k layer length ref block = do
  p ← in_memp (Memp.malloc memp_pbuf)
  if p == null then pure null else (do store p (fresh ref 0 length length 0 (λ i. 0)); pure p)

-- pbuf_alloc of a PBUF_RAM with a block from mem_malloc, where the size fits 16 bits.
pub alloc_ram :
    (k : ℕ) (h : Heap) (layer : PbufLayer) (n : ℕ) (block : Ptr)
    → block ≢ null
    → sizeof_struct_pbuf + offset_of layer + n < 2 ^ 16
    → alloc k layer n ram block h
      ≡ ok block (
          write h block
            (some (fresh ram (offset_of layer) n n (offset_of layer + n) (h.stale block))))
unfolding alloc store
alloc_ram k h layer n block ne small =
    let o : ℕ = offset_of layer in
    let got : u16 (24 + o + n) ≡ 24 + o + n = omega arith in
    let room : ltb (24 + o + n) 24 ≡ false = ground arith in
    let size : 24 + o + n - 24 ≡ o + n = omega arith in
    rw (ne→== block null ne, got, room, size) refl
