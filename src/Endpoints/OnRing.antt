-- ===== src/Endpoints/OnRing.antt =====
-- What an asynchronous endpoint asks of the driver, by the operations of Endpoints.cpp, SetTRDQPtr of
-- Transfers.cpp and RestartStreams of Streams.cpp.
use os_x_generic_usb.Base.{ℕ, ◌<◌, List, [], ◌∷◌, ◌++◌, Bool, arith, map, if_both}
use os_x_generic_usb.Ring.{Ring, link_index}
use os_x_generic_usb.Ring.Fragment.Inv.{IsValid}
use os_x_generic_usb.Command.Wait.{World, Hardware, wait_for_cmd}
use os_x_generic_usb.Dequeue.{
  EpState, set_on_ring, moved, dequeue_command, type_set_tr_dequeue, can_set, is_success, Outcome,
}
use os_x_generic_usb.Slots.{EndpointRings, restart_streams}
use os_x_generic_usb.Schedule.{Control}
use os_x_generic_usb.Schedule.Retire.{IsLawful}
use os_x_generic_usb.Endpoints.{doorbell, quiesce_endpoint}

-- The endpoint of a device: what the controller answers, the slot and the endpoint's number, where
-- WaitForCMD keeps its variable, the rings by stream, and the states that the controller writes to the
-- slot context when the endpoint is stopped and when it is quiesced.
pub record EndpointDevice : Type 0 where
  pub hw : Hardware
  pub is_intel : Bool
  pub slot : ℕ
  pub endpoint : ℕ
  pub cell : ℕ
  pub is_streams : Bool
  pub rings : EndpointRings
  pub after_stop : EpState → EpState
  pub after_quiesce : EpState → EpState

-- The command side, the state in the slot context, and the words written to the doorbell.
pub record Live : Type 0 where
  pub world : World
  pub state : EpState
  pub doorbells : List ℕ

unfoldable pub control_of : EndpointDevice → Control Live
control_of d = record {
  start_endpoint =
      λ c stream. record c { doorbells = c.doorbells ++ doorbell d.endpoint stream ∷ [] };
  quiesce_endpoint = λ c. record c {
    world =
        (quiesce_endpoint d.hw d.is_intel c.state (d.after_stop c.state) c.world d.cell d.slot
          d.endpoint).0;
    state = d.after_quiesce c.state;
  };
  set_trdq_ptr = λ c r stream index.
      let out =
        set_on_ring d.hw c.state d.is_streams c.world d.cell r d.slot d.endpoint stream index in
      (record c { world = out.world }, out.ring);
  restart_streams = λ c stream. record c {
    doorbells = c.doorbells ++ map (doorbell d.endpoint) (restart_streams d.rings stream);
  };
  ep_state = λ c. c.state;
}

set_on_ring-IsValid :
    (hw : Hardware) (state : EpState) (is_streams : Bool) (w : World) (cell : ℕ) (r : Ring)
    (slot endpoint stream index : ℕ)
    → IsValid r
    → index < link_index r
    → IsValid (set_on_ring hw state is_streams w cell r slot endpoint stream index).ring
unfolding set_on_ring moved
set_on_ring-IsValid hw state is_streams w cell r slot endpoint stream index v lt =
    let out =
      wait_for_cmd hw (dequeue_command r slot endpoint stream index) type_set_tr_dequeue cell w in
    if_both (λ (o : Outcome). IsValid o.ring) (can_set state is_streams r) _ _
      (if_both IsValid (is_success out.1) _ _ (ground (arith, v)) v) v

-- SetTRDQPtr keeps a valid ring valid, so that RetireTDs may rely on it.
pub control_of-IsLawful : (d : EndpointDevice) → IsLawful (control_of d)
unfolding control_of
control_of-IsLawful d = record {
  set_trdq_ptr_keeps = λ c r stream index v lt.
      set_on_ring-IsValid d.hw c.state d.is_streams c.world d.cell r d.slot d.endpoint stream index
        v lt;
}
