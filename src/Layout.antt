-- ===== src/Layout.antt =====
-- _createTransfer of Transfers.cpp: how a TD is laid out as TRBs on a transfer ring. A TD is one or
-- more fragments, each handed to the controller by CloseFragment when its last TRB is written.
pub mod Finish
pub mod Rounds
pub mod Covers
pub mod Total
pub mod Valid
mod Tests
use Prim.Native.Nat.{bit_or}
use os_x_generic_usb.Base.{
  ℕ, zero, suc, ◌+◌, ◌-◌, ◌*◌, ◌/◌, ◌%◌, ◌^◌, List, [], ◌∷◌, ◌++◌, Option, none, some, Bool, true,
  false, not, ◌&&◌, ◌||◌, ◌==◌, ltb, get_or, set, u32, field, shifted, bit, set_bit, min,
  if◌then◌else◌,
}
use os_x_generic_usb.Trb.{Trb, cycle_bit, chain_bit, type_normal}
use os_x_generic_usb.Ring.{Ring, trb_at}
use os_x_generic_usb.Ring.Fragment.{Next, get_next_trb, close_fragment, put_back_trb}
use os_x_generic_usb.Retry.{
  Segment, SegmentResult, success, dma_error, internal_error, generate_next_physical_segment,
}

-- What _createTransfer is to lay out: its arguments, what it reads of the TD (`immediate` is its
-- immediate data, if it has any), and what it reads of the endpoint's context. `ring_found` is whether
-- GetRing finds the endpoint's ring.
pub record TransferPlan : Type 0 where
  pub is_isoch : Bool
  pub bytes : ℕ
  pub mystery : ℕ
  pub offset : ℕ
  pub interrupt_needed : Bool
  pub multi_td_transaction : Bool
  pub final_td_in_transaction : Bool
  pub bytes_following : ℕ
  pub bytes_preceeding : ℕ
  pub immediate : Option (List ℕ)
  pub max_packet_size : ℕ
  pub max_burst : ℕ
  pub multiple : ℕ
  pub endpoint : ℕ
  pub ring_found : Bool

-- `XHCI_TRB_TYPE_STATUS_STAGE` and `XHCI_TRB_TYPE_NOOP`.
unfoldable pub is_noop_or_status : TransferPlan → Bool
is_noop_or_status p = let kind = field 10 6 p.mystery in not p.is_isoch && (kind == 4 || kind == 8)

-- `MBPMultiple` and `residueEstimate`.
unfoldable pub mbp : TransferPlan → ℕ
mbp p = u32 (u32 (p.max_packet_size * (1 + p.max_burst)) * (1 + p.multiple))

unfoldable pub residue_estimate : TransferPlan → ℕ
residue_estimate p = p.max_packet_size + p.bytes_following - 1

-- The local variables of the loop. `fourth` is the last word that the first TRB of the fragment gets
-- when the fragment is closed.
pub record Work : Type 0 where
  pub ring : Ring
  pub first : Option ℕ
  pub is_first_fragment : Bool
  pub offset : ℕ
  pub bytes_left : ℕ
  pub count : ℕ
  pub count_in_fragment : ℕ
  pub fourth : ℕ
  pub last_index : ℕ
  pub mystery : ℕ

unfoldable pub start_layout : TransferPlan → Ring → Work
start_layout p r = record {
  ring = r;
  first = none;
  is_first_fragment = true;
  offset = p.offset;
  bytes_left = p.bytes;
  count = 0;
  count_in_fragment = 0;
  fourth = 0;
  last_index = 0;
  mystery = p.mystery;
}

-- The errors; where one is met in a fragment, PutBackTRB gives its TRBs back.
pub data Error : Type 0 where
  bad_argument no_trb no_segment segment_refused : Error

pub data RoundResult : Type 0 where
  placed : Work → RoundResult
  failed : Error → Ring → Option ℕ → RoundResult

-- The first `n` bytes of a word are replaced, by those of a list, lowest first.
unfoldable pub word_bytes : ℕ → List ℕ → ℕ → ℕ
word_bytes zero bytes w = w
word_bytes (suc n) [] w = w
word_bytes (suc n) (b ∷ bs) w = b + 256 * word_bytes n bs (w / 256)

unfoldable pub drop_bytes : ℕ → List ℕ → List ℕ
drop_bytes zero bs = bs
drop_bytes (suc n) [] = []
drop_bytes (suc n) (b ∷ bs) = drop_bytes n bs

-- `bcopy(&copyOfImmediateData[0], pTrb, n)`. The array has 8 bytes, and CreateTDs makes no TD with more
-- bytes of immediate data.
unfoldable pub copy_bytes : Trb → List ℕ → ℕ → Trb
copy_bytes t bytes n = record t {
  a = word_bytes (min n 4) bytes t.a;
  b = word_bytes (n - 4) (drop_bytes 4 bytes) t.b;
}

-- The TRB's buffer and its bytes.
unfoldable pub fill : (ℕ → Option Segment) → TransferPlan → Work → Trb → SegmentResult
fill dma p w t = elim p.immediate [
  | some bytes ↦ success (copy_bytes t bytes w.bytes_left) w.bytes_left
  | none ↦ generate_next_physical_segment (dma w.offset) t w.bytes_left
]

-- The third word for a TRB of `got` bytes before `left` more in the TD.
unfoldable pub third_word : TransferPlan → ℕ → ℕ → ℕ
third_word p got left =
    let size = u32 ((residue_estimate p + left) / p.max_packet_size) in
    if is_noop_or_status p
    then 0
    else shifted 17 5 (if ltb 31 size then 31 else size) + shifted 0 17 got

-- The fourth word, with the cycle bit that keeps the controller off the fragment's first TRB inverted.
unfoldable pub fourth_word : TransferPlan → Work → Trb → ℕ → ℕ
fourth_word p w t left =
    let has_data : Bool = elim p.immediate [ none ↦ false | some bytes ↦ true ] in
    let cycle = 1 - cycle_bit t in
    let ent =
      if left == 0 && not has_data && p.final_td_in_transaction && ltb 0 w.count
      then set_bit 1 cycle
      else cycle in
    let kind = if w.mystery == 0 then shifted 10 6 type_normal else w.mystery in
    let typed = bit_or ent kind in if has_data then typed else set_bit chain_bit typed

-- Whether the TRB at the index is the first of the fragment.
unfoldable pub starts_at : Option ℕ → ℕ → Bool
starts_at none i = false
starts_at (some f) i = f == i

-- A fragment ends where the bytes so far are a multiple of `MBPMultiple`.
unfoldable pub ends_fragment : TransferPlan → ℕ → ℕ → Bool
ends_fragment p offset left =
    not (offset == 0) && not p.is_isoch && not (left == 0) && offset % mbp p == 0

unfoldable pub end_fragment : TransferPlan → Work → Work
end_fragment p w =
    if ends_fragment p w.offset w.bytes_left
    then record w {
      ring = close_fragment w.ring w.first w.fourth;
      first = none;
      is_first_fragment = false;
      count_in_fragment = 0;
    }
    else w

-- The rest of a round, for the TRB `u` at the place that GetNextTRB gave, with `got` bytes.
unfoldable pub place_trb : TransferPlan → Work → Next → Trb → ℕ → Work
place_trb p w n u got =
    let left = w.bytes_left - got in
    let v : Trb = if w.bytes_left == 0 then record u { a = 0; b = 0 } else u in
    let fourth = fourth_word p w (trb_at n.ring n.index) left in
    let opens = starts_at n.first n.index in
    let d = if opens then v.d else fourth in
    let written =
      set n.ring.trbs n.index (record { a = v.a; b = v.b; c = third_word p got left; d = d }) in
    let w' : Work = record {
      ring = record n.ring { trbs = written };
      first = n.first;
      is_first_fragment = w.is_first_fragment;
      offset = w.offset + got;
      bytes_left = left;
      count = w.count + 1;
      count_in_fragment = w.count_in_fragment + 1;
      fourth = if opens then fourth else w.fourth;
      last_index = n.index;
      mystery = 0;
    } in
    end_fragment p w'

unfoldable pub fill_and_place : (ℕ → Option Segment) → TransferPlan → Work → Next → RoundResult
fill_and_place dma p w n = elim (fill dma p w (trb_at n.ring n.index)) [
  | success u got ↦ placed (place_trb p w n u got)
  | dma_error ↦ failed segment_refused n.ring n.first
  | internal_error ↦ failed no_segment n.ring n.first
]

-- One round of the loop.
unfoldable pub round : (ℕ → Option Segment) → TransferPlan → Work → RoundResult
round dma p w =
    elim (get_next_trb w.ring false w.first (w.is_first_fragment && p.bytes_preceeding == 0)) [
      | none ↦ failed no_trb w.ring w.first
      | some n ↦ fill_and_place dma p w n
    ]

-- The loop, with fuel: `none` if the fuel ran out.
unfoldable pub layout_loop : ℕ → (ℕ → Option Segment) → TransferPlan → Work → Option RoundResult
layout_loop zero dma p w = none
layout_loop (suc fuel) dma p w = elim (round dma p w) [
  | failed e r first ↦ some (failed e r first)
  | placed w' ↦
      let rest = layout_loop fuel dma p w' in if w'.bytes_left == 0 then some (placed w') else rest
]
