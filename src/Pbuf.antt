-- ===== src/Pbuf.antt =====
-- lwip/src/core/pbuf.c and lwip/src/include/lwip/pbuf.h: the packet buffers and the memory that
-- they live in. A pbuf's address is a number. `payload` is kept as an offset into the buffer `mem`
-- of `size` bytes: the bytes behind the struct for PBUF_RAM and PBUF_POOL, the memory that the
-- payload refers to for PBUF_ROM and PBUF_REF. MEM_ALIGNMENT is 1 (lib_test/lwipopts.h), so the
-- alignment macros are the identity.
pub mod Chain
pub mod Read
pub mod Free
pub mod Link
pub mod Header
pub mod Packet
pub mod Shrink
pub mod Bytes
pub mod Take
pub mod Alloc
pub mod Copy
pub mod Samples
mod Tests
use ocaml_lwip.Base.{
  ℕ, zero, suc, ◌+◌, ◌-◌, ◌≡◌, refl, Bool, true, false, Option, none, some, List, [], ◌∷◌, ◌++◌,
  Run, Cmd, ok, abort, fault, out_of_fuel, ◌>>=◌, ◌>>◌, pure, assert, ◌==◌, ltb, leb, if◌then◌else◌,
  get_or, length, ◌&&◌,
}
use ocaml_lwip.Memp
use ocaml_lwip.Memp.{Ptr, null, Memp}

-- pbuf_type.
pub data PbufType : Type 0 where
  ram rom ref pool : PbufType

-- struct pbuf.
pub record Pbuf : Type 0 where
  pub next : Ptr
  pub payload : ℕ
  pub tot_len : ℕ
  pub len : ℕ
  pub type : PbufType
  pub flags : ℕ
  pub refs : ℕ
  pub mem : ℕ → ℕ
  pub size : ℕ

-- The pbufs in use, the pools, and what unused memory holds, which C leaves open.
pub record Heap : Type 0 where
  pub cells : Ptr → Option Pbuf
  pub memp : Memp
  pub stale : Ptr → ℕ → ℕ

-- The places of MEMP_PBUF and MEMP_PBUF_POOL in the table of lwip/src/include/lwip/memp_std.h,
-- behind the UDP and TCP control blocks, the segments, the reassembly and the ARP queue records.
abbrev pub memp_pbuf : ℕ
memp_pbuf = 6

abbrev pub memp_pbuf_pool : ℕ
memp_pbuf_pool = 7

unfoldable pub write : Heap → Ptr → Option Pbuf → Heap
write h p c = record h { cells = λ a. if a == p then c else h.cells a }

-- A read through `p`.
unfoldable pub load : Ptr → Cmd Heap Pbuf
load p h = if p == null then fault else elim (h.cells p) [ none ↦ fault | some b ↦ ok b h ]

unfoldable pub store : Ptr → Pbuf → Cmd Heap (Unit {0})
store p b h = ok tt (write h p (some b))

-- A call of memp.c.
unfoldable pub in_memp : {A : Type 0} → Cmd Memp A → Cmd Heap A
in_memp m h = elim (m h.memp) [
  | ok a memp ↦ ok a (record h { memp = memp })
  | abort ↦ abort
  | fault ↦ fault
  | out_of_fuel ↦ out_of_fuel
]

-- The bytes `mem[o]` to `mem[o + n - 1]`.
abbrev pub read : (ℕ → ℕ) → ℕ → ℕ → List ℕ
read mem o zero = []
read mem o (suc n) = mem o ∷ read mem (suc o) n

-- `mem` with the bytes of a list put from `o` on.
abbrev pub put : (ℕ → ℕ) → ℕ → List ℕ → ℕ → ℕ
put mem o xs i = if leb o i && ltb (i - o) (length xs) then get_or xs (i - o) 0 else mem i

-- MEMCPY from and into a pbuf's buffer.
unfoldable pub copy_out : Pbuf → ℕ → ℕ → Cmd Heap (List ℕ)
copy_out b o n = if leb (o + n) b.size then pure (read b.mem o n) else (λ _. fault)

unfoldable pub copy_in : Ptr → Pbuf → ℕ → List ℕ → Cmd Heap (Unit {0})
unfolding store
copy_in p b o xs =
    if leb (o + length xs) b.size then store p (record b { mem = put b.mem o xs }) else (λ _. fault)
