-- ===== src/Witness/Service.antt =====
-- The service: a file in memory, a disk on it, and transfers.
use virtualdisk.Prelude.{
  ℕ, ◌+◌, ◌*◌, ◌≤◌, ◌<◌, ◌≡◌, refl, true, false, Option, none, some, List, [], ◌∷◌, arith, length,
  take, drop, inr, ◌==◌, if◌then◌else◌,
}
use virtualdisk.Irp.{Request, Irp}
use virtualdisk.Codes.{scsiop_read, scsiop_write}
use virtualdisk.Memory.{contents, four_byte, two_byte}
use virtualdisk.Packet.{request_of}
use virtualdisk.Service.Storage.{IsDiskStorage, splice}
use virtualdisk.Service.File.{
  FileApi, IsFileApi, FileStorage, init, read_blocks, write_blocks, file_disk,
}
use virtualdisk.Service.File.Blocks.{Holds, file_disk-IsDiskStorage}
use virtualdisk.Service.File.Bounds.{init_bounds}
use virtualdisk.Service.Vmdk.{VixApi, IsVixApi, vmdk_disk}
use virtualdisk.Service.Vmdk.Blocks.{vmdk_disk-IsDiskStorage}
use virtualdisk.Service.Processor.{Processor, process_request}
use virtualdisk.Service.Processor.Transport.{carry_out}
use virtualdisk.Service.Processor.RoundTrip.{write_then_read, write_keeps_others}
use virtualdisk.Witness.Data.{sample_irp, sample_pdo}

-- A file is a position and its bytes; there is one file, whose size is given as 1030.
abbrev pub MemoryFile : Type 0
MemoryFile = ℕ × List ℕ

abbrev sample_bytes : List ℕ
sample_bytes = 1 ∷ 2 ∷ 3 ∷ 4 ∷ 5 ∷ 6 ∷ 7 ∷ 8 ∷ 9 ∷ []

abbrev pub memory_api : FileApi
memory_api = record {
  File = MemoryFile;
  create_file = λ name. some (0, sample_bytes);
  get_file_size = λ f. some 1030;
  set_file_pointer = λ f p. some (p, f.1);
  read_file = λ f n. (f, true, take n (drop f.0 f.1));
  write_file = λ f bytes. ((f.0, splice f.0 bytes f.1), true, length bytes);
}

pointer_moved : (f f' : MemoryFile) (p : ℕ) → some (p, f.1) ≡ some f' → (f'.0 ≡ p) × (f'.1 ≡ f.1)
pointer_moved f f' p e = ground (arith, e)

abbrev memory-IsFileApi : IsFileApi memory_api
memory-IsFileApi = record {
  position = λ f. f.0;
  bytes_of = λ f. f.1;
  set_pointer_lem = pointer_moved;
  read_same = λ f n. refl;
  read_lem = λ f n e. refl;
  write_lem = λ f bytes within e. (refl, refl);
}

abbrev pub sample_storage : FileStorage MemoryFile
sample_storage = record { handle = (0, sample_bytes); block_size = 2; n_blocks = 4 }

abbrev pub sample_request : Request
sample_request = record { handle = 0; code = 0; logical_block_address = 0; transfer_blocks = 0 }

abbrev pub sample_processor : Processor (FileStorage MemoryFile)
sample_processor = record {
  disk_id = 100;
  storage = sample_storage;
  buffer = [];
  req = sample_request;
  signaled = false;
  done = false;
  n_bytes = 0;
  overrun = false;
}

-- A command for two blocks of two bytes.
abbrev transfer_irp : ℕ → ℕ → Irp
transfer_irp op block =
    let irp = sample_irp 1 0 op in
    record irp {
      srb = record (irp.srb) {
        data_transfer_length = 4;
        cdb = record (irp.srb.cdb) { logical_block_byte2 = 0; logical_block_byte3 = block };
      };
    }

file_disk-IsDiskStorage_example :
    IsDiskStorage (file_disk memory_api) (Holds memory_api memory-IsFileApi) (λ s. s.handle.1)
file_disk-IsDiskStorage_example = file_disk-IsDiskStorage memory_api memory-IsFileApi

abbrev sample_size : ℕ
sample_size = 512

init_bounds_example :
    (size : ℕ) × (memory_api.get_file_size (0, sample_bytes) ≡ some size)
    × (sample_size ≡ 512)
    × (2 < 0x100000000)
    × (2 * 512 ≤ size)
    × (size < 2 * 512 + 512)
unfolding init
init_bounds_example =
    init_bounds memory_api []
      (record { handle = (0, sample_bytes); block_size = 512; n_blocks = 2 }) refl

holds : Holds memory_api memory-IsFileApi sample_storage
holds = omega arith

write_then_read_example :
    let (pdo', p', _) =
      carry_out
        (file_disk memory_api)
        (sample_pdo 5 100)
        sample_processor
        (transfer_irp scsiop_write 1) in
    let (_, _, done) = carry_out (file_disk memory_api) pdo' p' (transfer_irp scsiop_read 1) in
    take 4 (contents done.srb.data_buffer) ≡ 21 ∷ 22 ∷ 23 ∷ 24 ∷ []
unfolding request_of four_byte two_byte carry_out process_request write_blocks read_blocks
write_then_read_example =
    write_then_read (file_disk memory_api) (Holds memory_api memory-IsFileApi) (λ s. s.handle.1)
      (file_disk-IsDiskStorage memory_api memory-IsFileApi) (sample_pdo 5 100) sample_processor
      (transfer_irp scsiop_write 1) (transfer_irp scsiop_read 1) holds refl refl refl refl refl refl
      (omega arith, omega arith, omega arith) refl (omega arith) (omega arith) refl refl

write_keeps_others_example :
    let (pdo', p', _) =
      carry_out
        (file_disk memory_api)
        (sample_pdo 5 100)
        sample_processor
        (transfer_irp scsiop_write 0) in
    let (_, _, done) = carry_out (file_disk memory_api) pdo' p' (transfer_irp scsiop_read 2) in
    take 4 (contents done.srb.data_buffer) ≡ 5 ∷ 6 ∷ 7 ∷ 8 ∷ []
unfolding request_of four_byte two_byte carry_out process_request write_blocks read_blocks
write_keeps_others_example =
    write_keeps_others (file_disk memory_api) (Holds memory_api memory-IsFileApi) (λ s. s.handle.1)
      (file_disk-IsDiskStorage memory_api memory-IsFileApi) (sample_pdo 5 100) sample_processor
      (transfer_irp scsiop_write 0) (transfer_irp scsiop_read 2) holds refl refl refl refl
      (inr (omega arith)) (omega arith, omega arith, omega arith)
      (omega arith, omega arith, omega arith) refl (omega arith) (omega arith) refl refl

-- The bytes of sectors, where they are there.
abbrev image_bytes : List ℕ → ℕ → ℕ → Option (List ℕ)
image_bytes h sector count =
    let bytes = take (count * 2) (drop (sector * 2) h) in
    if length bytes == count * 2 then some bytes else none

-- An image in memory with sectors of two bytes.
abbrev image_api : VixApi
image_api = record {
  Handle = List ℕ;
  sector_size = 2;
  open_disk = λ name. some sample_bytes;
  get_capacity = λ h. some 4;
  read = λ h sector count. (h, image_bytes h sector count);
  write = λ h sector count bytes. (splice (sector * 2) (take (count * 2) bytes) h, true);
}

image_read :
    (h bytes : List ℕ) (sector count : ℕ)
    → image_bytes h sector count ≡ some bytes
    → (bytes ≡ take (count * 2) (drop (sector * 2) h)) × (length bytes ≡ count * 2)
image_read h bytes sector count e = ground (arith, e)

image-IsVixApi : IsVixApi image_api
image-IsVixApi = record {
  bytes_of = λ h. h;
  read_same = λ h sector count. refl;
  read_lem = λ h sector count bytes e. image_read h bytes sector count e;
  write_lem = λ h sector count bytes e. refl;
}

vmdk_disk-IsDiskStorage_example :
    IsDiskStorage
      (vmdk_disk image_api)
      (virtualdisk.Service.Vmdk.Blocks.Holds image_api image-IsVixApi)
      (λ s. image-IsVixApi.bytes_of s.handle)
vmdk_disk-IsDiskStorage_example = vmdk_disk-IsDiskStorage image_api image-IsVixApi
