-- ===== src/Mem.antt =====
-- lwip/src/core/mem.c: the heap, a list of `struct mem` threaded through `ram` by offsets. The
-- build has MEM_USE_POOLS, MEM_LIBC_MALLOC, LWIP_STATS and LWIP_ALLOW_MEM_FREE_FROM_OTHER_CONTEXT
-- off, MEM_ALIGNMENT 1 (lib_test/lwipopts.h) and NO_SYS 1, so the alignment macros are the identity
-- and the semaphore does nothing. `cells` is the view of `ram` as a `struct mem` at each offset,
-- `bytes` the view of it byte by byte; a write to either changes the other. Where a difference of
-- offsets wraps around in C, which takes a heap out of order, it is 0 here. A loop takes fuel: an
-- offset grows with each round, so MEM_SIZE_ALIGNED rounds are enough.
pub mod Parts
pub mod Zip
pub mod Edit
pub mod Sync
pub mod Data
pub mod Layout
pub mod Plug
pub mod Plugged
pub mod Free
pub mod Split
pub mod Raise
pub mod Malloc
pub mod Fit
pub mod Shrink
pub mod Realloc
pub mod Calloc
mod Tests
use ocaml_lwip.Base.{
  ℕ, zero, suc, ◌+◌, ◌-◌, ◌*◌, ◌/◌, ◌%◌, Bool, true, false, ◌&&◌, ◌||◌, Run, Cmd, ok, fault,
  out_of_fuel, ◌>>=◌, ◌>>◌, pure, assert, ◌==◌, ltb, leb, if◌then◌else◌, u16,
}

-- struct mem.
pub record Block : Type 0 where
  pub next : ℕ
  pub prev : ℕ
  pub used : Bool

-- `ram` is an address; `lfree` an offset, that of `ram_end` where no block is free.
pub record Heap : Type 0 where
  pub ram : ℕ
  pub cells : ℕ → Block
  pub bytes : ℕ → ℕ
  pub lfree : ℕ

-- SIZEOF_STRUCT_MEM, MIN_SIZE_ALIGNED and MEM_SIZE_ALIGNED.
abbrev pub sizeof_struct_mem : ℕ
sizeof_struct_mem = 6

abbrev pub min_size : ℕ
min_size = 12

abbrev pub mem_size : ℕ
mem_size = 16000

abbrev pub null : ℕ
null = 0

-- The bytes of `ram` with a struct mem at `o`: two u16_t, the low byte first, and a u8_t; the sixth
-- byte is padding.
abbrev pub image : ℕ → Block → (ℕ → ℕ) → ℕ → ℕ
image o b bytes a =
    if a == o
    then b.next % 256
    else if a == o + 1
    then b.next / 256
    else if a == o + 2
    then b.prev % 256
    else if a == o + 3
    then b.prev / 256
    else if a == o + 4
    then (if b.used then 1 else 0)
    else bytes a

abbrev pub negb : Bool → Bool
negb true = false
negb false = true

-- The struct mem that the bytes at `o` are.
abbrev pub decode : (ℕ → ℕ) → ℕ → Block
decode bytes o = record {
  next = bytes o + 256 * bytes (o + 1);
  prev = bytes (o + 2) + 256 * bytes (o + 3);
  used = negb (bytes (o + 4) == 0);
}

-- A write to the struct mem at `o` changes what lies across it.
unfoldable pub write : ℕ → Block → Heap → Heap
write o b h =
    let ram : ℕ → ℕ = image o b h.bytes in
    record h {
      cells = λ a.
          if a == o then b else if leb (a + 5) o || leb (o + 5) a then h.cells a else decode ram a;
      bytes = ram;
    }

unfoldable pub set_next : ℕ → ℕ → Heap → Heap
unfolding write
set_next o next h = write o (record (h.cells o) { next = next }) h

unfoldable pub set_prev : ℕ → ℕ → Heap → Heap
unfolding write
set_prev o prev h = write o (record (h.cells o) { prev = prev }) h

unfoldable pub set_used : ℕ → Bool → Heap → Heap
unfolding write
set_used o used h = write o (record (h.cells o) { used = used }) h

unfoldable pub set_lfree : ℕ → Heap → Heap
set_lfree o h = record h { lfree = o }

-- The block at `mem` takes in all up to the block at `next`.
unfoldable pub fuse : ℕ → ℕ → Heap → Heap
unfolding set_next set_prev
fuse mem next h = set_prev next mem (set_next mem next h)

-- The first half of plug_holes.
unfoldable pub plug_forward : ℕ → Heap → Heap
plug_forward mem h =
    let nmem = (h.cells mem).next in
    let next = (h.cells nmem).next in
    if negb (mem == nmem) && negb (h.cells nmem).used && negb (nmem == mem_size)
    then fuse mem next (if h.lfree == nmem then set_lfree mem h else h)
    else h

-- The second half.
unfoldable pub plug_backward : ℕ → Heap → Heap
plug_backward mem h =
    let pmem = (h.cells mem).prev in
    let next = (h.cells mem).next in
    if negb (pmem == mem) && negb (h.cells pmem).used
    then fuse pmem next (if h.lfree == mem then set_lfree pmem h else h)
    else h

unfoldable pub plug_holes : ℕ → Cmd Heap (Unit {0})
unfolding plug_forward plug_backward
plug_holes mem h =
    (assert (ltb mem mem_size)
        >> assert (negb (h.cells mem).used)
        >> assert (leb (h.cells mem).next mem_size)
        >> λ g. ok tt (plug_backward mem (plug_forward mem g)))
      h

-- `ram_heap` is where the linker puts it; `h` is what the memory holds before.
unfoldable pub init : ℕ → Heap → Heap
unfolding write set_lfree
init ram_heap h = set_lfree 0 (
    write mem_size (record { next = mem_size; prev = mem_size; used = true })
      (write 0 (record { next = mem_size; prev = 0; used = false }) (record h { ram = ram_heap })))

-- The block behind a legal address is unused from now on. `rmem` is an address: below `ram` and
-- from `ram_end` on the assertion fails, and before the data of the first block C reads outside the
-- heap.
unfoldable pub free : ℕ → Cmd Heap (Unit {0})
free rmem h =
    if rmem == null
    then ok tt h
    else (assert (leb h.ram rmem && ltb rmem (h.ram + mem_size))
          >> (if ltb rmem (h.ram + sizeof_struct_mem)
              then (λ _. fault)
              else let mem = rmem - sizeof_struct_mem - h.ram in
                (assert (h.cells mem).used >> λ g.
                let g' = set_used mem false g in
                plug_holes mem (if ltb mem g'.lfree then set_lfree mem g' else g'))))
        h

-- The `while` loop of mem_malloc.
unfoldable pub skip_used : ℕ → Cmd Heap (Unit {0})
unfolding set_lfree
skip_used zero h = out_of_fuel
skip_used (suc fuel) h =
    let rest = skip_used fuel (set_lfree (h.cells h.lfree).next h) in
    if (h.cells h.lfree).used && negb (h.lfree == mem_size) then rest else ok tt h

-- `if (mem2->next != MEM_SIZE_ALIGNED) ((struct mem *)&ram[mem2->next])->prev = ptr2`.
unfoldable pub link_back : ℕ → ℕ → Heap → Heap
unfolding set_prev
link_back next ptr2 h = if negb (next == mem_size) then set_prev next ptr2 h else h

-- The marking of the block at `ptr` for `size` bytes, what is left over becoming a block of its own.
unfoldable pub split : ℕ → ℕ → Heap → Heap
split ptr size h =
    let next = (h.cells ptr).next in
    let ptr2 = u16 (ptr + sizeof_struct_mem + size) in
    let g = write ptr2 (record { next = next; prev = ptr; used = false }) h in
    if leb (size + sizeof_struct_mem + min_size) (next - (ptr + sizeof_struct_mem))
    then link_back next ptr2 (write ptr (record (g.cells ptr) { next = ptr2; used = true }) g)
    else set_used ptr true h

-- What follows `if (mem == lfree)`.
unfoldable pub raise_lfree : ℕ → Cmd Heap (Unit {0})
raise_lfree mem h =
    if mem == h.lfree
    then (skip_used (suc mem_size) >> λ g.
          assert ((g.lfree == mem_size) || negb (g.cells g.lfree).used) g)
        h
    else ok tt h

-- The body of the `for` loop of mem_malloc, for the block that is found.
unfoldable pub occupy : ℕ → ℕ → Cmd Heap ℕ
occupy ptr size h =
    (raise_lfree ptr
        >> assert (leb (ptr + sizeof_struct_mem + size) mem_size)
        >> pure (h.ram + ptr + sizeof_struct_mem))
      (split ptr size h)

-- The `for` loop.
unfoldable pub search : ℕ → ℕ → ℕ → Cmd Heap ℕ
search zero ptr size h = out_of_fuel
search (suc fuel) ptr size h =
    let rest = search fuel (h.cells ptr).next size h in
    if ltb ptr (mem_size - size)
    then (if negb (h.cells ptr).used && leb size ((h.cells ptr).next - (ptr + sizeof_struct_mem))
        then occupy ptr size h
        else rest)
    else ok null h

-- The size that is looked for.
unfoldable pub request : ℕ → ℕ
request size = if ltb size min_size then min_size else size

unfoldable pub malloc : ℕ → Cmd Heap ℕ
malloc size h =
    if size == 0
    then ok null h
    else if ltb mem_size (request size)
    then ok null h
    else search (suc mem_size) h.lfree (request size) h

-- A free block at `ptr2`, between the block at `ptr` and that at `next`.
unfoldable pub carve : ℕ → ℕ → ℕ → Heap → Heap
carve ptr ptr2 next h =
    let g = write ptr2 (record { next = next; prev = ptr; used = false }) h in
    link_back next ptr2 (write ptr (record (g.cells ptr) { next = ptr2 }) g)

-- The end of mem_realloc: the bytes of the block at `ptr` behind the `newsize` that stay go to the
-- next block, if it is free, or become a block of their own, if they are enough for one.
unfoldable pub shrink : ℕ → ℕ → Heap → Heap
shrink ptr newsize h =
    let mem2 = (h.cells ptr).next in
    let size = mem2 - ptr - sizeof_struct_mem in
    let ptr2 = u16 (ptr + sizeof_struct_mem + newsize) in
    if negb (h.cells mem2).used
    then carve ptr ptr2 (h.cells mem2).next (if h.lfree == mem2 then set_lfree ptr2 h else h)
    else if leb (newsize + sizeof_struct_mem + min_size) size
    then carve ptr ptr2 mem2 (if ltb ptr2 h.lfree then set_lfree ptr2 h else h)
    else h

-- As for `free`, an address outside the heap fails the assertion before it is tested again.
unfoldable pub realloc : ℕ → ℕ → Cmd Heap ℕ
realloc rmem wanted h =
    let newsize = request wanted in
    let ptr = rmem - sizeof_struct_mem - h.ram in
    let size = (h.cells ptr).next - ptr - sizeof_struct_mem in
    if ltb mem_size newsize
    then ok null h
    else (assert (leb h.ram rmem && ltb rmem (h.ram + mem_size))
          >> (if ltb rmem (h.ram + sizeof_struct_mem)
              then (λ _. fault)
              else (assert (leb newsize size) >> λ g.
                  if ltb size newsize
                  then ok null g
                  else if newsize == size
                  then ok rmem g
                  else ok rmem (shrink ptr newsize g))))
        h

-- memset over the user data, which faults past the end of the heap. What lies across the bytes that
-- are set is another struct mem afterwards.
unfoldable pub clear : ℕ → ℕ → Cmd Heap (Unit {0})
clear o n h =
    if leb (o + n) mem_size
    then (let set : ℕ → ℕ = λ a. if leb o a && ltb (a - o) n then 0 else h.bytes a in
        ok tt (record h {
          bytes = set;
          cells = λ a. if leb (a + 5) o || leb (o + n) a then h.cells a else decode set a;
        }))
    else fault

-- The product is cut to mem_size_t for mem_malloc, and not for memset.
unfoldable pub calloc : ℕ → ℕ → Cmd Heap ℕ
calloc count size = do
  p ← malloc (u16 (count * size))
  (λ h. if p == null then ok tt h else clear (p - h.ram) (count * size) h)
  pure p
