-- ===== src/Command/Wait.antt =====
-- WaitForCMD, CommandStop and CommandAbort of Command.cpp: what a thread does that issues a command
-- and waits. It holds the work loop's gate, so while it waits nothing but command completion events
-- changes the command ring; which of them come in each wait is up to the controller (`Hardware`).
pub mod Called
pub mod Waiting
pub mod Cell
use os_x_generic_usb.Base.{
  ℕ, ◌+◌, List, [], ◌∷◌, Option, none, some, Bool, true, false, set, ◌==◌, ◌&&◌, not, if◌then◌else◌,
  ℤ, pos, negsuc, eqbℤ,
}
use os_x_generic_usb.Trb.{Trb}
use os_x_generic_usb.Command.{
  CommandRing, Completion, type_stop_ep, enque_cmd, do_cmd_completion, complete_slot_command,
}

-- The ring, the `int32_t` variables that callbacks write, by address, and `_HSEDetected`.
pub record World : Type 0 where
  pub ring : CommandRing
  pub cells : ℕ → ℤ
  pub hse_detected : Bool

-- What the controller and the driver's state answer. `crcr` is the bit CRR of the register CRCr as
-- CommandStop or CommandAbort reads it, `none` for an invalid register space.
pub record Hardware : Type 0 where
  pub regs_valid : Bool
  pub host_error : Bool
  pub available : Bool
  pub during_wait : List Trb
  pub during_poll : List Trb
  pub crcr : Option Bool
  pub during_abort : List Trb

-- `*p = v`.
abbrev pub store : ℕ → ℤ → World → World
store p v w = record w { cells = λ q. if q == p then v else w.cells q }

-- A completion event: DoCMDCompletion, and CompleteSlotCommand if there is a callback to call.
unfoldable pub deliver : Trb → World → World
deliver trb w =
    let c = do_cmd_completion w.ring trb in
    let w' : World = record w { ring = c.ring } in
    elim c.call [ none ↦ w' | some p ↦ store p (complete_slot_command trb) w' ]

unfoldable pub deliver_all : List Trb → World → World
deliver_all [] w = w
deliver_all (t ∷ ts) w = deliver_all ts (deliver t w)

abbrev pub set_stop_pending : Bool → World → World
set_stop_pending b w = record w { ring = record w.ring { stop_pending = b } }

-- What CommandStop and CommandAbort return.
pub data StopResult : Type 0 where
  success no_device timeout : StopResult

-- The wait for `stopPending` to fall, and the clean-up where it did not.
unfoldable pub await_stop : List Trb → World → World × StopResult
await_stop events w =
    let w' = deliver_all events (set_stop_pending true w) in
    if w'.ring.stop_pending then (set_stop_pending false w', timeout) else (w', success)

unfoldable pub stop_command_ring : Option Bool → List Trb → World → World × StopResult
stop_command_ring none events w = (w, no_device)
stop_command_ring (some false) events w = (w, success)
stop_command_ring (some true) events w = await_stop events w

-- The two differ in the bit of CRCr that they write, CS or CA.
unfoldable pub command_stop : Hardware → World → World × StopResult
command_stop hw w = stop_command_ring hw.crcr hw.during_abort w

unfoldable pub command_abort : Hardware → World → World × StopResult
command_abort hw w = stop_command_ring hw.crcr hw.during_abort w

-- The local variable `ret` is at the address `cell`, and -1 stands for no answer.
abbrev pub no_answer : ℤ
no_answer = negsuc 0

abbrev pub wipe_callback : ℕ → World → World
wipe_callback i w = record w { ring = record w.ring { callbacks = set w.ring.callbacks i none } }

-- The end of WaitForCMD, when there was no answer in time.
unfoldable pub give_up : Hardware → ℕ → ℕ → World → World × ℤ
give_up hw cell prev w =
    let w' = (command_abort hw w).0 in
    if eqbℤ (w'.cells cell) no_answer
    then (wipe_callback prev w', w'.cells cell)
    else (w', w'.cells cell)

-- The middle of WaitForCMD: the command is in the ring, at the index `prev`.
unfoldable pub await_answer : Hardware → ℕ → ℕ → ℕ → World → World × ℤ
await_answer hw trb_type cell prev w =
    let waited = deliver_all hw.during_wait w in
    let polled = if trb_type == type_stop_ep then deliver_all hw.during_poll waited else waited in
    if eqbℤ (polled.cells cell) no_answer
    then give_up hw cell prev polled
    else (polled, polled.cells cell)

unfoldable pub issue : Hardware → Trb → ℕ → ℕ → World → World × ℤ
issue hw trb trb_type cell w = elim (enque_cmd w.ring trb trb_type cell) [
  | none ↦ (w, no_answer)
  | some r ↦ await_answer hw trb_type cell w.ring.enqueue_index (record w { ring = r })
]

unfoldable pub wait_for_cmd : Hardware → Trb → ℕ → ℕ → World → World × ℤ
wait_for_cmd hw trb trb_type cell w =
    let started = store cell no_answer w in
    let noted : World = if hw.host_error then record started { hse_detected = true } else started in
    if not hw.regs_valid
    then (started, no_answer)
    else if not hw.available
    then (noted, no_answer)
    else issue hw trb trb_type cell noted
