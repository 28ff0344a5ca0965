-- ===== src/Ring/Alloc.antt =====
-- The ring as AllocRing and InitPreallocedRing leave it on fresh memory.
use Prim.Native.Nat.{bit_or}
use os_x_generic_usb.Base.{
  ℕ, ◌*◌, ◌/◌, ◌%◌, ◌^◌, ◌≤◌, ◌<◌, ◌≡◌, ◌∙◌, ap, refl, List, Option, some, arith, length,
  length-set, length-replicate, get_or, get_or-set_self, get_or-set_ne, get_or-replicate, set,
  replicate, u16, ne→==,
}
use os_x_generic_usb.Trb.{Trb, zero_trb, trb_type, type_link, set_trb_addr64, get_trb_addr64}
use os_x_generic_usb.Ring.{
  Ring, trb_at, link_index, link_toggle, page_size, trbs_per_page, init_prealloced_ring, alloc_ring,
  make_buffer,
}
use os_x_generic_usb.Ring.Fragment.Inv.{IsValid}

-- An empty valid ring whose last TRB is a link back to its start, and whose other TRBs are clear.
pub record IsFresh (r : Ring) : Type 0 where
  pub valid : IsValid r
  pub empty : r.enqueue_index ≡ r.dequeue_index
  pub link_type : trb_type (trb_at r (link_index r)) ≡ type_link
  pub link_target : get_trb_addr64 (trb_at r (link_index r)) ≡ r.phys_addr
  pub others_clear : (j : ℕ) → j < link_index r → trb_at r j ≡ zero_trb

-- What the ring needs before InitPreallocedRing.
record IsBlank (r : Ring) : Type 0 where
  zeroed : r.trbs ≡ replicate r.num_trbs zero_trb
  room : 3 ≤ r.num_trbs
  cycle_in : r.cycle_state ≤ 1
  addr_in : r.phys_addr < 2 ^ 64
  aligned : r.phys_addr % 16 ≡ 0

blank_at : (r : Ring) (j : ℕ) → IsBlank r → j < r.num_trbs → trb_at r j ≡ zero_trb
blank_at r j b lt =
    ap (λ (ts : List Trb). get_or ts j zero_trb) b.zeroed
    ∙ get_or-replicate r.num_trbs j zero_trb zero_trb lt

-- The link TRB that is written.
link_of : Ring → Trb
unfolding set_trb_addr64
link_of r = record (set_trb_addr64 zero_trb r.phys_addr) { d = link_toggle }

init_trbs :
    (r : Ring) → IsBlank r → (init_prealloced_ring r).trbs ≡ set r.trbs (link_index r) (link_of r)
unfolding init_prealloced_ring link_of
init_trbs r b =
    ap
      (λ (t : Trb). set r.trbs (link_index r) (record (set_trb_addr64 t r.phys_addr) {
        d = bit_or (set_trb_addr64 t r.phys_addr).d link_toggle;
      }))
      (blank_at r (link_index r) b (omega (arith, b.room)))

get_link : (r : Ring) → IsBlank r → get_trb_addr64 (link_of r) ≡ r.phys_addr
unfolding link_of get_trb_addr64 set_trb_addr64
get_link r b = omega (arith, b.addr_in, b.aligned)

init-IsFresh : (r : Ring) → IsBlank r → IsFresh (init_prealloced_ring r)
unfolding init_prealloced_ring link_of
init-IsFresh r b =
    let len : length r.trbs ≡ r.num_trbs =
      ap (λ (ts : List Trb). length ts) b.zeroed ∙ length-replicate r.num_trbs zero_trb in
    let len' : length (init_prealloced_ring r).trbs ≡ r.num_trbs =
      ap (λ (ts : List Trb). length ts) (init_trbs r b)
      ∙ length-set r.trbs (link_index r) (link_of r)
      ∙ len in
    let at_link : trb_at (init_prealloced_ring r) (link_index r) ≡ link_of r =
      ap (λ (ts : List Trb). get_or ts (link_index r) zero_trb) (init_trbs r b)
      ∙ get_or-set_self r.trbs (link_index r) (link_of r) zero_trb (omega (arith, len, b.room)) in
    record {
      valid = record {
        size = len';
        room = b.room;
        enqueue_in = omega (arith, b.room);
        dequeue_in = omega (arith, b.room);
        cycle_in = b.cycle_in;
      };
      empty = refl;
      link_type = ap (λ (t : Trb). trb_type t) at_link;
      link_target = ap (λ (t : Trb). get_trb_addr64 t) at_link ∙ get_link r b;
      others_clear = λ j lt.
          ap (λ (ts : List Trb). get_or ts j zero_trb) (init_trbs r b)
          ∙ get_or-set_ne r.trbs (link_index r) j (link_of r) zero_trb (omega (arith, lt))
          ∙ blank_at r j b (omega (arith, lt));
    }

make_buffer-some :
    (kernel : ℕ → Option ℕ) (bytes addr : ℕ)
    → kernel bytes ≡ some addr
    → 0 < addr
    → make_buffer kernel bytes ≡ some (replicate (bytes / 16) zero_trb, addr)
unfolding make_buffer
make_buffer-some kernel bytes addr got nz = rw (got, make_buffer, ne→== addr 0 (omega arith))

-- AllocRing for `num_pages` pages, at least one and so many that their TRBs are numbered by 16 bits,
-- succeeds where the kernel gives a bus address that is not 0; if that address is of 64 bits and
-- aligned to 16, the ring is valid and empty, with as many TRBs as the pages hold, all of them clear
-- but for the last, a link TRB back to the ring's start.
pub alloc_ring-IsFresh :
    (kernel : ℕ → Option ℕ) (r : Ring) (num_pages addr : ℕ)
    → 0 < num_pages
    → num_pages < 256
    → kernel (num_pages * page_size) ≡ some addr
    → 0 < addr
    → addr < 2 ^ 64
    → addr % 16 ≡ 0
    → (s : Ring) × (alloc_ring kernel r num_pages ≡ some s)
      × IsFresh s
      × (s.num_trbs ≡ num_pages * trbs_per_page)
      × (s.phys_addr ≡ addr)
      × (s.cycle_state ≡ 1)
unfolding alloc_ring make_buffer init_prealloced_ring
alloc_ring-IsFresh kernel r num_pages addr pos small got nz lt al =
    let blank : Ring = record r {
      trbs = replicate (num_pages * page_size / 16) zero_trb;
      phys_addr = addr;
      num_trbs = u16 (num_pages * trbs_per_page);
      num_pages = u16 num_pages;
      cycle_state = 1;
    } in
    (
      init_prealloced_ring blank,
      rw (make_buffer-some kernel (num_pages * page_size) addr got nz, alloc_ring),
      init-IsFresh blank (record {
        zeroed = ap (λ (n : ℕ). replicate n zero_trb) (omega arith);
        room = omega arith;
        cycle_in = omega arith;
        addr_in = lt;
        aligned = al;
      }),
      omega arith,
      refl,
      refl,
    )
