-- ===== src/Scsi/Capacity.antt =====
-- READ CAPACITY.
use virtualdisk.Prelude.{ℕ, ◌<◌, ◌≡◌, List, arith, drop}
use virtualdisk.Irp.{Irp, status_success}
use virtualdisk.Codes.{scsiop_read_capacity, srb_status_success, scsistat_good}
use virtualdisk.Memory.{contents}
use virtualdisk.Memory.Laws.{big_endian}
use virtualdisk.Device.{Io}
use virtualdisk.Kernel.{Kernel}
use virtualdisk.Scsi.{execute_command}

-- The two numbers of the answer as the initiator reads them.
abbrev pub first_long : List ℕ → ℕ
first_long bytes = big_endian bytes

abbrev pub second_long : List ℕ → ℕ
second_long bytes = big_endian (drop 4 bytes)

-- The answer to READ CAPACITY holds the number of blocks and the size of a block, both
-- big-endian.
read_capacity_data :
    (k : Kernel) (io : Io) (irp : Irp)
    → irp.srb.cdb.operation_code ≡ scsiop_read_capacity
    → io.pdo.n_blocks < 0x100000000
    → io.pdo.block_size < 0x100000000
    → let (_, irp', status) = execute_command k io irp in
      (first_long (contents irp'.srb.data_buffer) ≡ io.pdo.n_blocks)
      × (second_long (contents irp'.srb.data_buffer) ≡ io.pdo.block_size)
      × (irp'.information ≡ irp.srb.data_transfer_length)
      × (irp'.srb.srb_status ≡ srb_status_success)
      × (irp'.srb.scsi_status ≡ scsistat_good)
      × (status ≡ status_success)
unfolding execute_command
read_capacity_data k io irp op hn hs = ground arith
