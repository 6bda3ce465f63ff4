-- ===== src/Usb/Laws/Commands.antt =====
-- src/max77958.c: the handlers that core 1 runs keep what the three operations on the opcode queue keep
-- and the rest of the driver does not speak of.
use smartphone_robot_firmwar.Base.{ℕ, Bool, true, [], String, refl}
use smartphone_robot_firmwar.Board.Sdk.{EntryFunc}
use smartphone_robot_firmwar.Board.{Hardware, World, M, when, rp2040_log}
use smartphone_robot_firmwar.Board.Keeps.{
  Keeps, Keeps-pure, Keeps->>=, Keeps->>, Keeps-gets, Keeps-when, Keeps-if,
}
use smartphone_robot_firmwar.Board.Calm.{Calm, log-Keeps}
use smartphone_robot_firmwar.Usb.Header.{DriverHeader}
use smartphone_robot_firmwar.Usb.Transfer.{update_usb}
use smartphone_robot_firmwar.Usb.Opcode.{
  opcode_queue_add, opcode_queue_pop, vbus_turn_off, vbus_turn_on,
}
use smartphone_robot_firmwar.Usb.Status.{
  log_cc_status0, switch_ccstat, log_fault, log_faults, on_ccstat_change, log_chgtype,
  on_chgtype_change,
}
use smartphone_robot_firmwar.Usb.Irq.{
  on_opcode_cmd_response, on_bit, parse_interrupt_vals, switch_pd_msg, pd_msg_response,
}
use smartphone_robot_firmwar.Usb.Laws.Buffers.{
  update-Keeps, registers-Keeps, interrupt_vals-Keeps, pd_msg-Keeps,
}

module _ (P : World → Type 0) (calm : Calm P) (hw : Hardware)
    (add-Keeps : (func : EntryFunc) (arg : ℕ) → Keeps P (opcode_queue_add hw func arg))
    (pop-Keeps : Keeps P (opcode_queue_pop hw)) where
  off-Keeps : Keeps P (vbus_turn_off hw)
  unfolding vbus_turn_off
  off-Keeps =
      Keeps->> P _ _ (add-Keeps EntryFunc.gpio_set _)
        (Keeps->>= P _ _ pop-Keeps (λ popped. Keeps-pure P tt))

  on-Keeps : Keeps P (vbus_turn_on hw)
  unfolding vbus_turn_on
  on-Keeps =
      Keeps->> P _ _ (add-Keeps EntryFunc.gpio_set _)
        (Keeps->>= P _ _ pop-Keeps (λ popped. Keeps-pure P tt))

  cc_status0-Keeps : (cc_status0 : ℕ) → Keeps P (log_cc_status0 hw cc_status0)
  unfolding log_cc_status0
  cc_status0-Keeps cc_status0 = search (Keeps->>, log-Keeps P calm hw)

  ccstat-Keeps : (ccstat : ℕ) → Keeps P (switch_ccstat hw ccstat)
  unfolding switch_ccstat
  ccstat-Keeps ccstat = search (Keeps-if, Keeps->>, off-Keeps, log-Keeps P calm hw) depth 12

  fault-Keeps : (status mask : ℕ) (m : String) → Keeps P (log_fault hw status mask m)
  unfolding log_fault
  fault-Keeps status mask m = Keeps-when P _ (rp2040_log hw m []) (log-Keeps P calm hw m [])

  faults-Keeps : (status : ℕ) → Keeps P (log_faults hw status)
  unfolding log_faults
  faults-Keeps status = search (Keeps->>, fault-Keeps)

  module _ (header : DriverHeader) where
    pub ccstat_change-Keeps : Keeps P (on_ccstat_change hw header)
    unfolding on_ccstat_change
    ccstat_change-Keeps =
        search
          (
            Keeps->>,
            Keeps-gets,
            log-Keeps P calm hw,
            registers-Keeps P calm hw header,
            cc_status0-Keeps,
            ccstat-Keeps,
            faults-Keeps,
          )
          depth 12

    chgtype-Keeps : (chgtype : ℕ) → Keeps P (log_chgtype hw header chgtype)
    unfolding log_chgtype
    chgtype-Keeps chgtype = search (Keeps-if, log-Keeps P calm hw)

    chgtype_change-Keeps : Keeps P (on_chgtype_change hw header)
    unfolding on_chgtype_change
    chgtype_change-Keeps =
        search
          (
            Keeps->>,
            Keeps-gets,
            log-Keeps P calm hw,
            registers-Keeps P calm hw header,
            chgtype-Keeps,
          )
          depth 12

    switch_pd-Keeps : (msg : ℕ) → Keeps P (switch_pd_msg hw header msg)
    unfolding switch_pd_msg
    switch_pd-Keeps msg =
        search (Keeps-if, Keeps->>, Keeps-when, off-Keeps, on-Keeps, log-Keeps P calm hw) depth 16

    pub pd_response-Keeps : Keeps P (pd_msg_response hw header)
    unfolding pd_msg_response
    pd_response-Keeps =
        search
          (
            Keeps->>,
            Keeps-gets,
            Keeps-pure,
            log-Keeps P calm hw,
            registers-Keeps P calm hw header,
            switch_pd-Keeps,
          )
          depth 12

    module _ (response-Keeps : Keeps P (on_opcode_cmd_response hw header)) where
      bit-Keeps :
          (index mask : ℕ) (handler : M (Unit {0})) (bit return_val : ℕ)
          → Keeps P handler
          → Keeps P (on_bit hw header index mask handler bit return_val)
      unfolding on_bit
      bit-Keeps index mask handler bit return_val h =
          Keeps-gets P (λ w. w.usb.return_buf) _
            (λ buf.
              Keeps-if P _ _ _ (Keeps-pure P return_val) (Keeps->> P handler _ h (Keeps-pure P _)))

      first-Keeps : Keeps P (on_bit hw header 0 0x80 (on_opcode_cmd_response hw header) 0 0)
      first-Keeps = bit-Keeps 0 0x80 (on_opcode_cmd_response hw header) 0 0 response-Keeps

      tested-Keeps :
          (b : Bool)
          → Keeps P (when b (update_usb (λ u. record u { test_max77958_interrupt_bool = true })))
      tested-Keeps b = Keeps-when P b _ (update-Keeps P calm _ (λ u. refl))

      pub parse-Keeps : Keeps P (parse_interrupt_vals hw header)
      unfolding parse_interrupt_vals
      parse-Keeps = Keeps->> P _ _ (interrupt_vals-Keeps P calm hw header) (
          Keeps->>= P _ _ first-Keeps (λ val0.
            Keeps->>= P _ _ (bit-Keeps 2 0x40 _ 1 val0 (log-Keeps P calm hw _ _)) (λ val1.
              Keeps->>= P _ _ (bit-Keeps 2 0x80 _ 2 val1 (pd_msg-Keeps P calm hw)) (λ val2.
                Keeps->>= P _ _ (bit-Keeps 0 0x02 _ 3 val2 chgtype_change-Keeps) (λ val3.
                  Keeps->>= P _ _ (bit-Keeps 1 0x01 _ 4 val3 ccstat_change-Keeps) (λ val4.
                    search (Keeps->>=, Keeps-pure, bit-Keeps, log-Keeps P calm hw, tested-Keeps)
                      depth 24))))))
