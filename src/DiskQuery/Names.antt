-- ===== src/DiskQuery/Names.antt =====
-- The names that a disk gives itself.
use virtualdisk.Prelude.{
  none, ℕ, zero, suc, ◌+◌, ◌*◌, ◌≤◌, ◌<◌, ◌≡◌, refl, ap, true, false, some, List, [], ◌∷◌, ◌++◌,
  arith, length, take, count, length-append,
}
use virtualdisk.Irp.{Irp, Call, wide_string, query_buffer_allocated, status_success}
use virtualdisk.Words.{ulong_mod}
use virtualdisk.Text.{
  bus_hardware_ids, hardware_id_names, multi_sz, scan_ids, print_02x, print_d, cch_print,
  vendor_name, model,
}
use virtualdisk.Text.Digits.{read_hex, read_hex-print_02x, length-print_d}
use virtualdisk.Device.{Pdo}
use virtualdisk.Kernel.{Kernel}
use virtualdisk.Packet.Ownership.{answers}
use virtualdisk.DiskQuery.{
  DiskQuery, query_capabilities, query_id, query_text, query_resources, query_resource_requirements,
  query_bus_information, query_relations, device_id, instance_id, hardware_ids, compatible_ids,
  other_id, query_device_id, query_device_text, text_description, text_location, other_text,
  target_device_relation, other_relation, return_string, answer_query, description_size,
  sizeof_wchar,
}

take-all : (n : ℕ) (xs : List ℕ) → length xs ≤ n → take n xs ≡ xs
take-all zero [] h = refl
take-all (suc n) [] h = refl
take-all zero (x ∷ xs) h = elim h [ ]
take-all (suc n) (x ∷ xs) h = ap (◌∷◌ x) (take-all n xs (omega arith))

-- A query completes nothing, and leaves the IRP its number.
pub answer_query-answers :
    (n : ℕ) (k : Kernel) (calls : List Call) (pdo : Pdo) (irp : Irp) (q : DiskQuery)
    → let (calls', irp', _) = answer_query k calls pdo irp q in
      (count (answers n) calls' ≡ count (answers n) calls) × (irp'.id ≡ irp.id)
unfolding answer_query
answer_query-answers n k calls pdo irp (query_capabilities caps) = ground arith
answer_query-answers n k calls pdo irp (query_id device_id) = ground arith
answer_query-answers n k calls pdo irp (query_id instance_id) = ground arith
answer_query-answers n k calls pdo irp (query_id hardware_ids) = ground arith
answer_query-answers n k calls pdo irp (query_id compatible_ids) = ground arith
answer_query-answers n k calls pdo irp (query_id (other_id m)) = ground arith
answer_query-answers n k calls pdo irp (query_text text_description) = ground arith
answer_query-answers n k calls pdo irp (query_text text_location) = ground arith
answer_query-answers n k calls pdo irp (query_text (other_text m)) = ground arith
answer_query-answers n k calls pdo irp query_resources = ground arith
answer_query-answers n k calls pdo irp query_resource_requirements = ground arith
answer_query-answers n k calls pdo irp query_bus_information = ground arith
answer_query-answers n k calls pdo irp (query_relations target_device_relation) = ground arith
answer_query-answers n k calls pdo irp (query_relations (other_relation m)) = ground arith

-- Where there is memory and the serial number is a ULONG, the instance id of a disk is a text of
-- at most eight characters with its terminator, nothing of it is cut off, and it reads as the
-- serial number of the disk.
pub instance_id_reads :
    (k : Kernel) (calls : List Call) (pdo : Pdo) (irp : Irp)
    → pdo.serial_no < ulong_mod
    → k.allocate_pool calls 22 ≡ true
    → let (_, irp', status) = query_device_id k calls pdo irp instance_id in
      (text : List ℕ) × (status ≡ status_success)
      × (irp'.output ≡ some (wide_string (text ++ 0 ∷ [])))
      × (length text ≤ 8)
      × (read_hex text ≡ pdo.serial_no)
unfolding query_device_id return_string cch_print
instance_id_reads k calls pdo irp small memory =
    let text = print_02x pdo.serial_no in
    let (reads, short) = read_hex-print_02x pdo.serial_no small in
    let whole = take-all 10 text (omega (arith, short)) in
    (text, ground (arith, memory), ground (arith, memory, whole), short, reads)

-- Where there is memory, the hardware ids are returned whole: the scan of the disk's list ends
-- behind its last terminator, and what is allocated has room for exactly that.
pub hardware_ids_whole :
    (k : Kernel) (calls : List Call) (pdo : Pdo) (irp : Irp)
    → k.allocate_pool calls 312 ≡ true
    → let (calls', irp', status) = query_device_id k calls pdo irp hardware_ids in
      (status ≡ status_success)
      × (irp'.output ≡ some (wide_string (multi_sz hardware_id_names)))
      × (calls' ≡ query_buffer_allocated 312 ∷ calls)
      × (length (multi_sz hardware_id_names) * sizeof_wchar ≡ 312)
unfolding query_device_id return_string bus_hardware_ids multi_sz scan_ids
hardware_ids_whole k calls pdo irp memory =
    let scanned : scan_ids false bus_hardware_ids ≡ some 156 = refl in
    let taken : take 156 bus_hardware_ids ≡ multi_sz hardware_id_names = refl in
    (
      ground (arith, memory, scanned),
      ground (arith, memory, scanned, taken),
      ground (arith, memory, scanned),
      refl,
    )

-- The description of a disk is never cut off: with the vendor's name, the model and the number, be
-- it printed with a sign, it has room in the buffer for it, terminator and all.
pub description_fits :
    (k : Kernel) (calls : List Call) (pdo : Pdo) (irp : Irp)
    → irp.output ≡ none
    → irp.relations ≡ none
    → irp.information ≡ 0
    → k.allocate_pool calls (description_size * sizeof_wchar) ≡ true
    → let (_, irp', status) = query_device_text k calls pdo irp text_description in
      let text = vendor_name ++ (model ++ print_d pdo.serial_no) in
      (status ≡ status_success)
      × (irp'.output ≡ some (wide_string (text ++ 0 ∷ [])))
      × (length text + 1 ≤ description_size)
unfolding query_device_text return_string cch_print
description_fits k calls pdo irp blank related zero_info memory =
    let text = vendor_name ++ (model ++ print_d pdo.serial_no) in
    let short : length text ≤ 31 = omega (
      arith,
      length-append vendor_name (model ++ print_d pdo.serial_no),
      length-append model (print_d pdo.serial_no),
      length-print_d pdo.serial_no,
    ) in
    let whole = take-all 31 text short in
    ground (arith, blank, related, zero_info, memory, whole, short)
