-- ===== src/Tests/Scenario.antt =====
-- A board on which every device acknowledges, and the world at its start.
use smartphone_robot_firmwar.Base.{
  ℕ, pos, true, false, List, [], ◌∷◌, Option, none, some, replicate, refl,
}
use smartphone_robot_firmwar.Log
use smartphone_robot_firmwar.Log.{CircularBufferLog}
use smartphone_robot_firmwar.Board.Sdk.{Event, EntryFunc}
use smartphone_robot_firmwar.Board.{Hardware, World}
use smartphone_robot_firmwar.Board.Bus.{BusAcks}
use smartphone_robot_firmwar.Comm.{zero_incoming, zero_state}
use smartphone_robot_firmwar.Usb.Header.{DriverHeader}
use smartphone_robot_firmwar.Comm.State.{CommState}

-- The characters of a script, one to each call.
abbrev pub scripted : List ℕ → List Event → Option ℕ
scripted [] h = none
scripted (c ∷ cs) [] = some c
scripted (c ∷ cs) (Event.getchar_timeout_us t ∷ []) = some c
scripted (c ∷ cs) (Event.getchar_timeout_us t ∷ h) = scripted cs h
scripted (c ∷ cs) (_ ∷ h) = scripted (c ∷ cs) h

-- The devices answer 0x21 and 0x43, pins read high, the phone sends `script`.
abbrev pub board : List ℕ → Hardware
board script = record {
  write_result = λ h. pos 1;
  read_result = λ h. pos 1;
  read_bytes = λ h. 0x21 ∷ 0x43 ∷ [];
  pin_level = λ h. true;
  adc_value = λ h. 0x123;
  encoder_count = λ h. 7;
  char_in = scripted script;
  queue_accepts = λ h. true;
  past_send_buf = λ h. 1 ∷ 2 ∷ 3 ∷ 4 ∷ [];
  opcode_accepts = λ h. true;
  opcode_removed = λ h. none;
  opcode_level = λ h. 0;
  past_opcode_buf = λ h i. 0;
  null_byte = 0;
  results_accepts = λ h. true;
  call_entry = λ h. record { func = EntryFunc.stop_core1; arg = 0 };
  now_ms = λ h. 0;
  results_empty = λ h. true;
  call_empty = λ h. true;
  pwm_slice = λ pin. 2;
  pio_offset = 0;
  expand = λ m args. 0x41 ∷ 0x42 ∷ [];
}

pub acks : (script : List ℕ) → BusAcks (board script)
acks script = record { writes = λ h. refl; reads = λ h. refl }

abbrev pub comm_start : CommState
comm_start = record {
  incoming = zero_incoming;
  outgoing = record {
    start_marker = 0xfe;
    packet_type = 0;
    data_size = 29;
    state = zero_state;
    end_marker = 0xff;
  };
  outgoing_log = record { start_marker = 0xfe; packet_type = 0; data_size = 0; end_marker = 0xff };
  rp2040_state = zero_state;
  start_idx = 0xff;
  end_idx = 0xff;
}

-- The log as `rp2040_log_init` leaves it.
abbrev pub fresh : CircularBufferLog
fresh = Log.rp2040_log_init Log.boot

abbrev pub start : List Event → World
start t = record {
  trace = t;
  log_buffer = fresh;
  motor = record {
    gpio_fault1 = 20;
    gpio_fault2 = 21;
    fault_values = 0 ∷ 0 ∷ [];
    test_drv8830_started = false;
    test_drv8830_completed = false;
  };
  gauge = record { gpio_interrupt = 7; interrupt_pending = false; temperature = 0 };
  wireless = record {
    gpio_wireless_charger = 18;
    gpio_otg = 19;
    test_ncp3901_started = true;
    test_ncp3901_completed = false;
    wireless_charger_attached = false;
  };
  charger = record {
    gpio_interrupt = 6;
    test_max77976_interrupt_bool = false;
    test_max77976_started = false;
    test_max77976_completed = false;
  };
  comm = comm_start;
  usb = record {
    send_buf = replicate 33 0;
    return_buf = replicate 33 0;
    op_code_return_buf = replicate 33 0;
    opcodes_finished = false;
    gpio_interrupt = 7;
    test_max77958_interrupt_bool = false;
    test_max77958_started = false;
    test_max77958_completed = false;
    use_mtp_access = false;
  };
  encoders = record {
    encoder0 = record { count_current = 0; count_previous = 0; count_delta = 0 };
    encoder1 = record { count_current = 0; count_previous = 0; count_delta = 0 };
  };
  core1_shutdown_requested = false;
}

-- Numbers for the constants of max77958_driver.h.
abbrev pub header : DriverHeader
header = record {
  max77958_slave_p1 = 0x25;
  reg_uic_int = 0x04;
  reg_uic_int_m = 0x10;
  reg_pd_status0 = 0x0e;
  opcode_write = 0x21;
  opcode_read_command = 0x51;
  opcode_set_gpio = 0x24;
  opcode_snk_pdo_set = 0x3a;
  opcode_set_source_cap = 0x3c;
  pdmsg_prswap_srctoswap = 0x0f;
  pdmsg_prswap_swaptosnk = 0x10;
  pdmsg_prswap_snktoswap = 0x11;
  pdmsg_prswap_swaptosrc = 0x12;
  pdmsg_vdm_nak_received = 0x13;
  pdmsg_vdm_busy_received = 0x14;
  pdmsg_vdm_ack_received = 0x15;
  pdmsg_vdm_req_received = 0x16;
}
