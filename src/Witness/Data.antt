-- ===== src/Witness/Data.antt =====
-- Test data: a kernel that grants everything, IRPs, disks and a bus.
use virtualdisk.Prelude.{ℕ, refl, true, false, none, some, [], ◌∷◌}
use virtualdisk.Irp.{
  Reply, AddDisk, Cdb, SenseData, memory, Irp, lock_acquired, status_success, status_unsuccessful,
}
use virtualdisk.Codes.{scsiop_read, scsiop_write}
use virtualdisk.Queue.{bus_insert_irp, bus_peek_next_irp}
use virtualdisk.Device.{
  PnpStates, DevicePower, SystemPower, Pdo, Fdo, Bus, Io, started, not_started,
}
use virtualdisk.Kernel.{Kernel, IsCsq, take_out}

abbrev pub sample_kernel : Kernel
sample_kernel = record {
  acquire_remove_lock = λ calls d. status_success;
  csq_insert = λ queue irp. bus_insert_irp queue (record irp { pending = true });
  csq_remove_next = λ queue context. take_out queue (bus_peek_next_irp queue none context);
  csq_initialize = λ calls. status_success;
  call_driver = λ calls irp. status_success;
  create_device = λ calls. (status_success, 9);
  allocate_pool = λ calls n. true;
  reference_event = λ calls e. status_success;
  allocate_mdl = λ calls. true;
  probe_and_lock = λ calls bytes. true;
  map_locked_pages = λ calls. true;
  set_interface_state = λ calls. status_success;
  sizeof_add_disk = 32;
  sizeof_property_query = 12;
  sizeof_descriptor_header = 8;
  sizeof_adapter_descriptor = 32;
  sizeof_device_descriptor = 40;
  sizeof_disk_geometry = 24;
  sizeof_scsi_address = 8;
  sizeof_device_relations = 16;
  sizeof_pointer = 8;
  sizeof_device_capabilities = 64;
  sizeof_bus_information = 24;
  register_interface = λ calls. status_success;
  attach_device = λ calls. true;
  build_request = λ calls. true;
  lower_capabilities = λ calls caps. (status_success, status_success, caps);
}

pub sample-IsCsq : IsCsq sample_kernel
sample-IsCsq = record { insert_calls = λ queue irp. refl; remove_calls = λ queue context. refl }

abbrev pub no_sense_data : SenseData
no_sense_data = record {
  error_code = 0;
  valid = 0;
  segment_number = 0;
  sense_key = 0;
  additional_sense_length = 0;
  additional_sense_code = 0;
  additional_sense_code_qualifier = 0;
}

-- A command for two blocks from block 0x0102.
abbrev pub command : ℕ → Cdb
command op = record {
  operation_code = op;
  logical_block_byte0 = 0;
  logical_block_byte1 = 0;
  logical_block_byte2 = 1;
  logical_block_byte3 = 2;
  transfer_blocks_msb = 0;
  transfer_blocks_lsb = 2;
}

abbrev pub sample_irp : ℕ → ℕ → ℕ → Irp
sample_irp id function op = record {
  id = id;
  file_object = 70;
  status = 0;
  information = 0;
  cancel = false;
  pending = false;
  cancel_routine = false;
  srb = record {
    function = function;
    cdb = command op;
    data_buffer = memory (21 ∷ 22 ∷ 23 ∷ 24 ∷ []);
    data_transfer_length = 3;
    srb_status = 0;
    scsi_status = 0;
    sense_info = some no_sense_data;
  };
  request = none;
  relations = none;
  output = none;
}

abbrev pub read_irp : Irp
read_irp = sample_irp 1 0 scsiop_read

abbrev pub write_irp : Irp
write_irp = sample_irp 2 0 scsiop_write

abbrev pub request_irp : Irp
request_irp = sample_irp 3 0 0

abbrev pub other_request_irp : Irp
other_request_irp = record (sample_irp 4 0 0) { file_object = 71 }

abbrev pub sample_states : PnpStates
sample_states = record { device_pnp_state = started; previous_pnp_state = not_started }

abbrev pub sample_pdo : ℕ → ℕ → Pdo
sample_pdo self serial = record {
  self = self;
  states = sample_states;
  system_power_state = SystemPower.working;
  device_power_state = DevicePower.d0;
  parent_fdo = true;
  hardware_ids = true;
  serial_no = serial;
  present = true;
  reported_missing = false;
  claimed = false;
  code = 0;
  asc = 0;
  asq = 0;
  n_blocks = 2048;
  block_size = 512;
  buffer = 11 ∷ 12 ∷ 13 ∷ 14 ∷ 15 ∷ [];
  current_irp = none;
  irp_queue = [];
  remove_event = 80;
}

abbrev pub idle_io : Io
idle_io = record {
  pdo = sample_pdo 5 100;
  request_queue = request_irp ∷ other_request_irp ∷ [];
  calls = [];
}

-- A disk whose current IRP is a read, whose lock is held, and for which a write waits.
abbrev pub busy_pdo : Pdo
busy_pdo = record (sample_pdo 5 100) { current_irp = some read_irp; irp_queue = write_irp ∷ [] }

abbrev pub busy_io : Io
busy_io = record idle_io { pdo = busy_pdo; calls = lock_acquired 5 ∷ [] }

abbrev pub ok_reply : Reply
ok_reply = record { handle = 100; status = status_success; code = scsiop_read; num_bytes = 3 }

abbrev pub failed_reply : Reply
failed_reply = record {
  handle = 100;
  status = status_unsuccessful;
  code = scsiop_read;
  num_bytes = 0;
}

abbrev pub sample_fdo : Fdo
sample_fdo = record {
  self = 50;
  states = sample_states;
  system_power_state = SystemPower.working;
  device_power_state = DevicePower.d0;
  num_pdos = 2;
  interface_name = true;
  cleanup_ready_event = 90;
}

abbrev pub sample_bus : Bus
sample_bus = record {
  fdo = sample_fdo;
  list_of_pdos = busy_pdo ∷ sample_pdo 6 101 ∷ [];
  unlinked_pdos = [];
  request_queue = [];
  calls = lock_acquired 5 ∷ [];
}

abbrev pub sample_add : AddDisk
sample_add = record {
  handle = 102;
  n_blocks = 4096;
  block_size = 512;
  buffer = 0 ∷ 0 ∷ 0 ∷ 0 ∷ [];
  remove_event = 81;
}
