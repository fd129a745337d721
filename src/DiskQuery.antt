-- ===== src/DiskQuery.antt =====
-- PnP queries to a disk (bus/buspdo.c: Bus_PDO_QueryDeviceCaps, Bus_PDO_QueryDeviceId,
-- Bus_PDO_QueryDeviceText, Bus_PDO_QueryResources, Bus_PDO_QueryResourceRequirements,
-- Bus_PDO_QueryDeviceRelations, Bus_PDO_QueryBusInformation, Bus_GetDeviceCapabilities).
pub mod Names
pub mod Capabilities
use virtualdisk.Prelude.{
  ℕ, ◌+◌, ◌*◌, ◌-◌, Bool, true, false, not, ◌&&◌, ◌||◌, Option, none, some, List, [], ◌∷◌, ◌++◌,
  ◌==◌, ltb, is_some, if◌then◌else◌, length, take,
}
use virtualdisk.Irp.{
  Irp, Call, QueryOutput, wide_string, bus_information, capabilities, device_referenced,
  target_referenced, target_dereferenced, query_buffer_allocated, relations_allocated, event_waited,
  fault, null_parent, id_overrun, status_success, status_pending, status_unsuccessful,
  status_insufficient_resources, nt_success,
}
use virtualdisk.Words.{ulong_mod}
use virtualdisk.Caps.{DevicePower, DeviceStates, DeviceCapabilities}
use virtualdisk.Text.{
  bus_hardware_ids, bus_compatible_ids, bus_device_id, scan_ids, vendor_name, model, print_02x,
  print_d, cch_print,
}
use virtualdisk.Device.{Pdo}
use virtualdisk.Kernel.{Kernel}

-- BUS_QUERY_ID_TYPE, DEVICE_TEXT_TYPE and DEVICE_RELATION_TYPE, the values that the driver tells apart.
pub data IdType : Type 0 where
  device_id instance_id hardware_ids compatible_ids : IdType
  other_id : ℕ → IdType

pub data TextType : Type 0 where
  text_description text_location : TextType
  other_text : ℕ → TextType

pub data RelationType : Type 0 where
  target_device_relation : RelationType
  other_relation : ℕ → RelationType

-- The queries with their parameters.
pub data DiskQuery : Type 0 where
  query_capabilities : DeviceCapabilities → DiskQuery
  query_id : IdType → DiskQuery
  query_text : TextType → DiskQuery
  query_resources query_resource_requirements query_bus_information : DiskQuery
  query_relations : RelationType → DiskQuery

-- What a query leaves: the calls, the IRP, the status.
abbrev pub Answer : Type 0
Answer = List Call × Irp × ℕ

-- sizeof (WCHAR).
abbrev pub sizeof_wchar : ℕ
sizeof_wchar = 2

-- The capabilities that Bus_GetDeviceCapabilities sends down.
unfoldable pub blank_capabilities : Kernel → DeviceCapabilities
blank_capabilities k = record {
  size = k.sizeof_device_capabilities;
  version = 1;
  device_state = record {
    at_unspecified = DevicePower.unspecified;
    at_working = DevicePower.unspecified;
    at_sleeping1 = DevicePower.unspecified;
    at_sleeping2 = DevicePower.unspecified;
    at_sleeping3 = DevicePower.unspecified;
    at_hibernate = DevicePower.unspecified;
    at_shutdown = DevicePower.unspecified;
  };
  device_wake = DevicePower.unspecified;
  device_d1 = false;
  device_d2 = false;
  wake_from_d0 = false;
  wake_from_d1 = false;
  wake_from_d2 = false;
  wake_from_d3 = false;
  d1_latency = 0;
  d2_latency = 0;
  d3_latency = 0;
  eject_supported = false;
  hardware_disabled = false;
  removable = false;
  surprise_removal_ok = false;
  unique_id = false;
  silent_install = false;
  address = ulong_mod - 1;
  ui_number = ulong_mod - 1;
}

-- Bus_GetDeviceCapabilities: the calls, what the lower devices answer, and the status.
unfoldable pub get_device_capabilities : Kernel → List Call → List Call × DeviceCapabilities × ℕ
unfolding blank_capabilities
get_device_capabilities k calls =
    let caps = blank_capabilities k in
    let referenced = target_referenced ∷ calls in
    if k.build_request referenced
    then (let (status, final_status, answered) = k.lower_capabilities referenced caps in
        if status == status_pending
        then (target_dereferenced ∷ event_waited ∷ referenced, answered, final_status)
        else (target_dereferenced ∷ referenced, answered, status))
    else (target_dereferenced ∷ referenced, caps, status_insufficient_resources)

-- A state other than D0 becomes the one that is given.
abbrev pub lowered : DevicePower → DevicePower → DevicePower
lowered to DevicePower.d0 = DevicePower.d0
lowered to _ = to

-- The capabilities of a disk, from those asked for and those of the parent.
unfoldable pub disk_capabilities :
    Pdo → DeviceCapabilities → DeviceCapabilities → DeviceCapabilities
disk_capabilities pdo caps parent = record caps {
  device_state = record (parent.device_state) {
    at_working = DevicePower.d0;
    at_sleeping1 = lowered DevicePower.d1 parent.device_state.at_sleeping1;
    at_sleeping2 = lowered DevicePower.d3 parent.device_state.at_sleeping2;
    at_sleeping3 = lowered DevicePower.d3 parent.device_state.at_sleeping3;
  };
  device_wake = DevicePower.d1;
  device_d1 = true;
  device_d2 = false;
  wake_from_d0 = false;
  wake_from_d1 = true;
  wake_from_d2 = false;
  wake_from_d3 = false;
  d1_latency = 0;
  d2_latency = 0;
  d3_latency = 0;
  eject_supported = true;
  hardware_disabled = false;
  removable = true;
  surprise_removal_ok = true;
  unique_id = false;
  silent_install = false;
  address = pdo.serial_no;
  ui_number = pdo.serial_no;
}

-- Bus_PDO_QueryDeviceCaps. The parent is asked through the pointer of the PDO.
unfoldable pub query_device_caps : Kernel → List Call → Pdo → Irp → DeviceCapabilities → Answer
unfolding get_device_capabilities disk_capabilities
query_device_caps k calls pdo irp caps =
    if not (caps.version == 1) || ltb caps.size k.sizeof_device_capabilities
    then (calls, irp, status_unsuccessful)
    else (if pdo.parent_fdo
        then (let (calls', parent, status) = get_device_capabilities k calls in
            if nt_success status
            then (
              calls',
              record irp { output = some (capabilities (disk_capabilities pdo caps parent)) },
              status_success,
            )
            else (calls', irp, status))
        else (fault (null_parent pdo.self) ∷ calls, irp, status_unsuccessful))

-- A buffer of paged pool is allocated and filled, and returned in IoStatus.Information.
unfoldable pub return_string : Kernel → List Call → Irp → ℕ → List ℕ → Answer
return_string k calls irp n text =
    if k.allocate_pool calls n
    then (
      query_buffer_allocated n ∷ calls,
      record irp { output = some (wide_string text) },
      status_success,
    )
    else (calls, irp, status_insufficient_resources)

-- Bus_PDO_QueryDeviceId. The scan of the hardware ids is done on the memory of the PDO, which holds
-- BUS_HARDWARE_IDS since it was created; what is computed in between is a number of bytes.
unfoldable pub query_device_id : Kernel → List Call → Pdo → Irp → IdType → Answer
unfolding return_string bus_device_id bus_compatible_ids
query_device_id k calls pdo irp device_id =
    return_string k calls irp (length bus_device_id * sizeof_wchar) bus_device_id
query_device_id k calls pdo irp instance_id =
    return_string k calls irp (11 * sizeof_wchar) (cch_print 11 (print_02x pdo.serial_no))
query_device_id k calls pdo irp hardware_ids = elim (scan_ids false bus_hardware_ids) [
  | none ↦ (fault (id_overrun pdo.self) ∷ calls, irp, status_unsuccessful)
  | some n ↦ return_string k calls irp (n * sizeof_wchar) (take n bus_hardware_ids)
]
query_device_id k calls pdo irp compatible_ids =
    return_string k calls irp (length bus_compatible_ids * sizeof_wchar) bus_compatible_ids
query_device_id k calls pdo irp (other_id n) = (calls, irp, irp.status)

-- How many characters the text of a description has room for.
abbrev pub description_size : ℕ
description_size = length vendor_name + 1 + length model + 1 + 10

-- Bus_PDO_QueryDeviceText: each language gets the same text, unless the IRP has an answer.
unfoldable pub query_device_text : Kernel → List Call → Pdo → Irp → TextType → Answer
unfolding return_string
query_device_text k calls pdo irp text_description =
    if is_some irp.output || (is_some irp.relations || not (irp.information == 0))
    then (calls, irp, status_success)
    else return_string k calls irp (description_size * sizeof_wchar)
        (cch_print description_size (vendor_name ++ (model ++ print_d pdo.serial_no)))
query_device_text k calls pdo irp text_location = (calls, irp, irp.status)
query_device_text k calls pdo irp (other_text n) = (calls, irp, irp.status)

-- Bus_PDO_QueryResources and Bus_PDO_QueryResourceRequirements.
unfoldable pub query_device_resources : List Call → Irp → Answer
query_device_resources calls irp = (calls, irp, irp.status)

unfoldable pub query_device_requirements : List Call → Irp → Answer
query_device_requirements calls irp = (calls, irp, status_success)

-- Bus_PDO_QueryDeviceRelations.
unfoldable pub query_device_relations : Kernel → List Call → Pdo → Irp → RelationType → Answer
query_device_relations k calls pdo irp target_device_relation =
    if k.allocate_pool calls k.sizeof_device_relations
    then (
      device_referenced pdo.self ∷ relations_allocated k.sizeof_device_relations ∷ calls,
      record irp { relations = some (pdo.self ∷ []) },
      status_success,
    )
    else (calls, irp, status_insufficient_resources)
query_device_relations k calls pdo irp (other_relation n) = (calls, irp, irp.status)

-- Bus_PDO_QueryBusInformation, with GUID_DEVCLASS_VDISK, PNPBus and the bus number 0.
unfoldable pub query_bus_info : Kernel → List Call → Irp → Answer
query_bus_info k calls irp =
    if k.allocate_pool calls k.sizeof_bus_information
    then (
      query_buffer_allocated k.sizeof_bus_information ∷ calls,
      record irp { output = some bus_information },
      status_success,
    )
    else (calls, irp, status_insufficient_resources)

-- The queries of Bus_PDO_PnP.
unfoldable pub answer_query : Kernel → List Call → Pdo → Irp → DiskQuery → Answer
unfolding query_device_caps query_device_id query_device_text query_device_relations query_bus_info
    query_device_resources query_device_requirements
answer_query k calls pdo irp (query_capabilities caps) = query_device_caps k calls pdo irp caps
answer_query k calls pdo irp (query_id t) = query_device_id k calls pdo irp t
answer_query k calls pdo irp (query_text t) = query_device_text k calls pdo irp t
answer_query k calls pdo irp query_resources = query_device_resources calls irp
answer_query k calls pdo irp query_resource_requirements = query_device_requirements calls irp
answer_query k calls pdo irp query_bus_information = query_bus_info k calls irp
answer_query k calls pdo irp (query_relations t) = query_device_relations k calls pdo irp t
