-- ===== src/Comm/Report.antt =====
-- src/serial_comm_manager.c: the answer with the state, from the devices to the bytes on the link.
use smartphone_robot_firmwar.Base.{ℕ, ap, [], ◌∷◌, arith, ◌<◌, List, ◌++◌, ◌≡◌}
use smartphone_robot_firmwar.Board.{Hardware, World, Outcome, ok, assert_failed, M, ◌>>◌}
use smartphone_robot_firmwar.Board.Keeps.{Post}
use smartphone_robot_firmwar.Board.Gives.{Result}
use smartphone_robot_firmwar.Robot.{get_state}
use smartphone_robot_firmwar.Robot.Untouched.{get_state-Keeps}
use smartphone_robot_firmwar.Robot.Devices.{Devices, Answers}
use smartphone_robot_firmwar.Robot.Collected.{held, get_state-Result}
use smartphone_robot_firmwar.Charger.Details.{chg_cnfg_from}
use smartphone_robot_firmwar.Wireless.State.{WirelessState}
use smartphone_robot_firmwar.Comm.State.{CommState, Rp2040State, OutgoingPacketToAndroid}
use smartphone_robot_firmwar.Comm.Packet.{packet_bytes}
use smartphone_robot_firmwar.Comm.Wire.{packet_from, Fits, packet_bytes-roundtrip}
use smartphone_robot_firmwar.Comm.Output.{output, put_bytes_lem, output-put}
use smartphone_robot_firmwar.Comm.{update, put_outgoing, send_state}

-- The last bytes on the link are a packet from which the phone reads this state.
pub record Reported (state : Rp2040State) (w : World) : Type 0 where
  pub before : List ℕ
  pub packet : List ℕ
  pub last : output w.trace ≡ before ++ packet
  pub read : (packet_from packet).state ≡ state

unfoldable pub Reports : Rp2040State → Outcome (Unit {0}) → Type 0
Reports state (ok u w) = Reported state w
Reports state (assert_failed w) = ⊥

abbrev HasSize : CommState → WirelessState → Type 0
HasSize c u = c.outgoing.data_size < 65536

-- The state that the devices hold makes a packet that fits.
packet-Fits :
    (hw : Hardware) (d : Devices) (a b : ℕ) (s : Rp2040State) (w : World)
    (p : OutgoingPacketToAndroid)
    → p.data_size < 65536
    → Fits (record p { state = held hw d a b s w })
unfolding chg_cnfg_from
packet-Fits hw d a b s w p h = record {
  data_size = h;
  encoder_left = omega arith;
  encoder_right = omega arith;
  chg_details = omega arith;
  usb_charger_voltage = omega arith;
  vrect = omega arith;
  voltage = omega arith;
  temperature = omega arith;
  flags = omega arith;
}

Reports-ok :
    (s : Rp2040State) (o : Outcome (Unit {0})) (w : World)
    → o ≡ ok tt w
    → Reported s w
    → Reports s o
unfolding Reports
Reports-ok s o w e r = rw e r

-- What send_state does with a state that makes a packet that fits.
finished :
    (s : Rp2040State) (w : World)
    → Fits (record (w.comm.outgoing) { state = s })
    → Reports s (
        (update (λ c. record c { rp2040_state = s; outgoing = record (c.outgoing) { state = s } })
            >> put_outgoing)
          w)
unfolding put_outgoing
finished s w fits =
    let p = record (w.comm.outgoing) { state = s } in
    let w1 = record w { comm = record (w.comm) { rp2040_state = s; outgoing = p } } in
    Reports-ok s _ _ (put_bytes_lem (packet_bytes p) w1) (record {
      before = output w.trace;
      packet = packet_bytes p;
      last = output-put (packet_bytes p) w.trace;
      read = ap (λ (q : OutgoingPacketToAndroid). q.state) (packet_bytes-roundtrip p fits).1;
    })

collected :
    (state : Rp2040State) (o : Outcome Rp2040State) (k : Rp2040State → M (Unit {0}))
    → Post (λ w. HasSize w.comm w.wireless) o
    → Result (λ s. s ≡ state) o
    → ((w : World) → HasSize w.comm w.wireless → Reports state (k state w))
    → Reports state
        (elim o as (λ k. Outcome (Unit {0})) [ ok a w ↦ k a w | assert_failed w ↦ assert_failed w ])
unfolding Result Reports
collected state (ok s w) k h e all = rw e (all w h)
collected state (assert_failed w) k h e all = elim e [ ]

-- On a bus that acknowledges, with devices whose registers, counts and voltages hold still and motor
-- faults that can be cleared: send_state returns, and the last bytes on the link, read at their offsets,
-- give the motor levels that it was called with, the fault bytes that the two motors answered, the two
-- encoder counts, the voltage (0x08), low safety byte (0x1a), low health byte (0x2e) and flags (0x0a)
-- of the gauge, a temperature of 0, the bytes behind the charger's send_buf, whether the wireless
-- charger is attached, and the two voltages of the converter, each cut to its field; if the size in the
-- packet's header is of 16 bits and the firmware keeps two fault bytes.
pub send_state-Reports :
    (hw : Hardware) (d : Devices) (a b : ℕ) (cleared : Rp2040State) (w : World)
    → Answers hw d
    → w.motor.fault_values ≡ a ∷ b ∷ []
    → w.comm.outgoing.data_size < 65536
    → Reports (held hw d a b cleared w) (send_state hw cleared w)
unfolding send_state
send_state-Reports hw d a b cleared w answers e h =
    collected (held hw d a b cleared w) (get_state hw cleared w) _
      ((get_state-Keeps HasSize hw cleared).at w h) (get_state-Result hw d answers a b cleared w e)
      (λ w' h'.
        finished (held hw d a b cleared w) w' (packet-Fits hw d a b cleared w w'.comm.outgoing h'))
