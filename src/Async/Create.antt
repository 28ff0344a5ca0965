-- ===== src/Async/Create.antt =====
-- CreateTDs of Async.cpp: a request becomes a list of TDs at the end of the queue of TDs that are not
-- scheduled yet.
pub mod Pieces
use os_x_generic_usb.Base.{
  ℕ, zero, suc, ◌+◌, ◌-◌, ◌*◌, ◌/◌, ◌%◌, ◌^◌, List, [], ◌∷◌, ◌++◌, Option, none, some, Bool, true,
  false, not, ◌&&◌, ◌||◌, ltb, leb, ◌==◌, u16, u32, length, if◌then◌else◌,
}
use os_x_generic_usb.Async.{Td, blank_td, Endpoint, Commands, set_scratch}

-- The arguments of CreateTDs and what it asks the command for; `has_memory` is whether there is a DMA
-- command with a memory descriptor.
pub record Request : Type 0 where
  pub command : ℕ
  pub req_count : ℕ
  pub has_memory : Bool
  pub stream_id : ℕ
  pub mystery : ℕ
  pub immediate_data_size : ℕ
  pub immediate_data : List ℕ

-- How the request is split.
pub record Plan : Type 0 where
  pub transfer_bytes : ℕ
  pub max_bytes_per_td : ℕ
  pub have_immediate_data : Bool
  pub multiple_tds : Bool

unfoldable pub plan_of : ℕ → Request → Plan
plan_of max_td_bytes r =
    if leb r.immediate_data_size 8
    then record {
      transfer_bytes = r.immediate_data_size;
      max_bytes_per_td = r.immediate_data_size;
      have_immediate_data = true;
      multiple_tds = false;
    }
    else if leb r.req_count max_td_bytes
    then record {
      transfer_bytes = r.req_count;
      max_bytes_per_td = r.req_count;
      have_immediate_data = false;
      multiple_tds = false;
    }
    else record {
      transfer_bytes = r.req_count;
      max_bytes_per_td = max_td_bytes;
      have_immediate_data = false;
      multiple_tds = true;
    }

-- `bcopy` over the first bytes of the TD's array.
unfoldable pub overwrite : List ℕ → List ℕ → List ℕ
overwrite [] old = old
overwrite (x ∷ xs) [] = []
overwrite (x ∷ xs) (y ∷ ys) = x ∷ overwrite xs ys

-- A TD of the loop before the end of the round: `bytes_done` bytes come before it, and it has
-- `bytes`.
unfoldable pub new_td : ℕ → Request → Plan → ℕ → ℕ → Td
new_td max_td_bytes r p bytes_done bytes = record blank_td {
  command = r.command;
  interrupt_this_td = bytes_done % max_td_bytes == 0;
  multi_td_transaction = p.multiple_tds;
  bytes_preceeding_this_td = bytes_done;
  bytes_this_td = bytes;
  mystery = r.mystery;
  max_num_pages_in_td = u16 (bytes / 4096 + 2);
  stream_id = r.stream_id;
  shortfall = bytes;
  have_immediate_data = p.have_immediate_data;
  immediate_data =
      if p.have_immediate_data
      then overwrite r.immediate_data blank_td.immediate_data
      else blank_td.immediate_data;
}

abbrev pub final_td : Td → ℕ → Td
final_td t td_index = record t {
  num_tds_this_transaction = td_index;
  interrupt_this_td = true;
  final_td_in_transaction = true;
  bytes_following_this_td = 0;
}

-- GetTDFromFreeQueue(true): a free TD, or else a new one, of which the kernel gives `memory` more.
pub record Nodes : Type 0 where
  pub num_free : ℕ
  pub memory : ℕ

unfoldable pub take_node : Nodes → Option Nodes
take_node n =
    if ltb 0 n.num_free
    then some (record n { num_free = n.num_free - 1 })
    else if ltb 0 n.memory
    then some (record n { memory = n.memory - 1 })
    else none

-- The TDs that the loop makes, and whether it got to the end of the request.
pub record Made : Type 0 where
  pub complete : Bool
  pub tds : List Td
  pub nodes : Nodes

unfoldable pub put_first : Td → Option Made → Option Made
put_first t none = none
put_first t (some m) = some (record m { tds = t ∷ m.tds })

-- The bytes of the next TD.
abbrev pub next_bytes : Plan → ℕ → ℕ
next_bytes p left = if ltb left p.max_bytes_per_td then left else p.max_bytes_per_td

-- The loop with fuel, from the TD with the number `td_index`, before which `done` bytes are laid out,
-- `left` are not, and which gets `bytes`.
unfoldable pub create_loop : ℕ → ℕ → Request → Plan → ℕ → ℕ → ℕ → ℕ → Nodes → Option Made
create_loop zero max_td_bytes r p td_index done left bytes n = none
create_loop (suc fuel) max_td_bytes r p td_index done left bytes n =
    let t = new_td max_td_bytes r p done bytes in
    elim (take_node n) [
      | none ↦ some (record { complete = false; tds = []; nodes = n })
      | some n' ↦
          let rest =
            create_loop fuel max_td_bytes r p (u16 (td_index + 1)) (done + bytes) (left - bytes)
              (next_bytes p (left - bytes)) n' in
          if leb p.transfer_bytes (done + bytes)
          then some (record { complete = true; tds = final_td t td_index ∷ []; nodes = n' })
          else put_first (record t { bytes_following_this_td = left - bytes }) rest
    ]

-- What CreateTDs returns.
pub data CreateResult : Type 0 where
  created not_permitted unsupported bad_argument no_memory : CreateResult

-- The bytes from which on a controller with an absolute EDTLA cannot take a request.
abbrev pub edtla_limit : ℕ
edtla_limit = 2 ^ 23

unfoldable pub enqueue_made : Endpoint → Made → Endpoint
enqueue_made e m = record e { queued = e.queued ++ m.tds; num_free = m.nodes.num_free }

-- The checks of CreateTDs before it makes TDs.
unfoldable pub refusal : Bool → Endpoint → Request → Option CreateResult
refusal absolute_edtla e r =
    if e.aborting
    then some not_permitted
    else if leb edtla_limit r.req_count && absolute_edtla
    then some unsupported
    else if not (r.req_count == 0) && not r.has_memory
    then some bad_argument
    else none

unfoldable pub result_of : Made → CreateResult
result_of m = if m.complete then created else no_memory

-- CreateTDs; `absolute_edtla` is the controller's erratum, `memory` what the kernel can give, and
-- `none` means that the fuel ran out. If there is no memory for a TD, those before it stay queued.
unfoldable pub create_tds :
    ℕ → Bool → ℕ → Commands → Endpoint → Request → Option (CreateResult × (Endpoint × Commands))
create_tds fuel absolute_edtla memory cs e r =
    let p = plan_of e.max_td_bytes r in
    let n : Nodes = record { num_free = e.num_free; memory = memory } in
    let cs' = set_scratch cs r.command 0 in
    let made = create_loop fuel e.max_td_bytes r p 1 0 p.transfer_bytes p.max_bytes_per_td n in
    elim (refusal absolute_edtla e r) [
      | some why ↦ some (why, (e, cs))
      | none ↦ elim made [ none ↦ none | some m ↦ some (result_of m, (enqueue_made e m, cs')) ]
    ]
