-- ===== src/Debug.antt =====
-- Debug output (bus/busenum.h: the debugging output levels, Bus_KdPrint; bus/busenum.c: CASE_STRING with
-- its three functions; bus/pnp.c and bus/power.c: the functions from codes to texts). The codes
-- stand in the headers of the system: `value` gives the value of a constant by its name.
pub mod Levels
pub mod Names
use Prim.Native.Nat.{bit_and, bit_or}
use Prim.Native.Char.{code}
use Prim.Native.String.{String}
use virtualdisk.Prelude.{
  ℕ, Bool, not, ◌||◌, Option, none, some, List, [], ◌∷◌, ◌++◌, ◌==◌, take, if◌then◌else◌,
}
use virtualdisk.Text.{print_d}

-- The parts of the driver that have levels of their own, and the levels of a part.
pub data Area : Type 0 where
  ss pnp ioctl power wmi scsi comm : Area

pub data Severity : Type 0 where
  noise trace info error : Severity

-- BUS_DBG_SS_NOISE to BUS_DBG_COMM_ERROR.
unfoldable pub bus_dbg : Area → Severity → ℕ
bus_dbg ss noise = 0x00000001
bus_dbg ss trace = 0x00000002
bus_dbg ss info = 0x00000004
bus_dbg ss error = 0x00000008
bus_dbg pnp noise = 0x00000010
bus_dbg pnp trace = 0x00000020
bus_dbg pnp info = 0x00000040
bus_dbg pnp error = 0x00000080
bus_dbg ioctl noise = 0x00000100
bus_dbg ioctl trace = 0x00000200
bus_dbg ioctl info = 0x00000400
bus_dbg ioctl error = 0x00000800
bus_dbg power noise = 0x00001000
bus_dbg power trace = 0x00002000
bus_dbg power info = 0x00004000
bus_dbg power error = 0x00008000
bus_dbg wmi noise = 0x00010000
bus_dbg wmi trace = 0x00020000
bus_dbg wmi info = 0x00040000
bus_dbg wmi error = 0x00080000
bus_dbg scsi noise = 0x00100000
bus_dbg scsi trace = 0x00200000
bus_dbg scsi info = 0x00300000
bus_dbg scsi error = 0x00400000
bus_dbg comm noise = 0x01000000
bus_dbg comm trace = 0x02000000
bus_dbg comm info = 0x03000000
bus_dbg comm error = 0x04000000

-- BUS_DBG_STARTUP_SHUTDOWN_MASK to BUS_DBG_COMM_MASK.
unfoldable pub bus_dbg_mask : Area → ℕ
bus_dbg_mask ss = 0x0000000F
bus_dbg_mask pnp = 0x000000F0
bus_dbg_mask ioctl = 0x00000F00
bus_dbg_mask power = 0x0000F000
bus_dbg_mask wmi = 0x000F0000
bus_dbg_mask scsi = 0x00F00000
bus_dbg_mask comm = 0x0F000000

-- BUS_DEFAULT_DEBUG_OUTPUT_LEVEL.
unfoldable pub bus_default_debug_output_level : ℕ
unfolding bus_dbg_mask
bus_default_debug_output_level = bit_or (bus_dbg_mask ss) (bus_dbg_mask pnp)

-- The condition of Bus_KdPrint, Bus_KdPrint_Cont and Bus_KdPrint_Def: `debug_level` is what the device,
-- or the driver, prints, and 0 stands for BUS_DBG_ALWAYS.
unfoldable pub prints : (debug_level level : ℕ) → Bool
prints debug_level level = level == 0 || not (bit_and debug_level level == 0)

-- Bus_KdPrint and Bus_KdPrint_Def: what DbgPrint was called with, newest first.
unfoldable pub bus_kd_print : (debug_level level : ℕ) → String → List String → List String
unfolding prints
bus_kd_print debug_level level message printed =
    if prints debug_level level then message ∷ "BusEnum.SYS: " ∷ printed else printed

-- Bus_KdPrint_Cont.
unfoldable pub bus_kd_print_cont : (debug_level level : ℕ) → String → List String → List String
unfolding prints
bus_kd_print_cont debug_level level message printed =
    if prints debug_level level then message ∷ printed else printed

-- A text as its characters.
abbrev pub codes : String → List ℕ
codes String.[] = []
codes (String.◌∷◌ c s) = code c ∷ codes s

-- A switch with CASE_STRING, or with the same written out: the name of the first constant with this value.
unfoldable pub case_string : (String → ℕ) → List String → ℕ → Option String
case_string value [] n = none
case_string value (name ∷ names) n =
    let rest = case_string value names n in if n == value name then some name else rest

abbrev pub default : List ℕ → Option String → List ℕ
default text none = text
default text (some name) = codes name

-- The constants of ModeSensePageCodeToString.
abbrev pub mode_sense_pages : List String
mode_sense_pages =
    "MODE_PAGE_ERROR_RECOVERY" ∷ "MODE_PAGE_DISCONNECT" ∷ "MODE_PAGE_FORMAT_DEVICE"
    ∷ "MODE_PAGE_RIGID_GEOMETRY" ∷ "MODE_PAGE_FLEXIBILE" ∷ "MODE_PAGE_VERIFY_ERROR"
    ∷ "MODE_PAGE_CACHING" ∷ "MODE_PAGE_PERIPHERAL" ∷ "MODE_PAGE_CONTROL" ∷ "MODE_PAGE_MEDIUM_TYPES"
    ∷ "MODE_PAGE_NOTCH_PARTITION" ∷ "MODE_PAGE_CD_AUDIO_CONTROL" ∷ "MODE_PAGE_DATA_COMPRESS"
    ∷ "MODE_PAGE_DEVICE_CONFIG" ∷ "MODE_PAGE_MEDIUM_PARTITION" ∷ "MODE_PAGE_CDVD_FEATURE_SET"
    ∷ "MODE_PAGE_POWER_CONDITION" ∷ "MODE_PAGE_FAULT_REPORTING" ∷ "MODE_PAGE_ELEMENT_ADDRESS"
    ∷ "MODE_PAGE_TRANSPORT_GEOMETRY" ∷ "MODE_PAGE_DEVICE_CAPABILITIES" ∷ "MODE_PAGE_CAPABILITIES"
    ∷ []

-- The constants of SrbFunctionToString.
abbrev pub srb_functions : List String
srb_functions =
    "SRB_FUNCTION_EXECUTE_SCSI" ∷ "SRB_FUNCTION_CLAIM_DEVICE" ∷ "SRB_FUNCTION_IO_CONTROL"
    ∷ "SRB_FUNCTION_RECEIVE_EVENT" ∷ "SRB_FUNCTION_RELEASE_QUEUE" ∷ "SRB_FUNCTION_ATTACH_DEVICE"
    ∷ "SRB_FUNCTION_RELEASE_DEVICE" ∷ "SRB_FUNCTION_SHUTDOWN" ∷ "SRB_FUNCTION_FLUSH"
    ∷ "SRB_FUNCTION_ABORT_COMMAND" ∷ "SRB_FUNCTION_RELEASE_RECOVERY" ∷ "SRB_FUNCTION_RESET_BUS"
    ∷ "SRB_FUNCTION_RESET_DEVICE" ∷ "SRB_FUNCTION_TERMINATE_IO" ∷ "SRB_FUNCTION_FLUSH_QUEUE"
    ∷ "SRB_FUNCTION_REMOVE_DEVICE" ∷ "SRB_FUNCTION_WMI" ∷ "SRB_FUNCTION_LOCK_QUEUE"
    ∷ "SRB_FUNCTION_UNLOCK_QUEUE" ∷ []

-- The constants of SCSICommandToString.
abbrev pub scsi_commands : List String
scsi_commands =
    "SCSIOP_TEST_UNIT_READY" ∷ "SCSIOP_REWIND" ∷ "SCSIOP_REQUEST_BLOCK_ADDR"
    ∷ "SCSIOP_REQUEST_SENSE" ∷ "SCSIOP_FORMAT_UNIT" ∷ "SCSIOP_READ_BLOCK_LIMITS"
    ∷ "SCSIOP_REASSIGN_BLOCKS" ∷ "SCSIOP_READ6" ∷ "SCSIOP_WRITE6" ∷ "SCSIOP_SEEK6"
    ∷ "SCSIOP_SEEK_BLOCK" ∷ "SCSIOP_PARTITION" ∷ "SCSIOP_READ_REVERSE" ∷ "SCSIOP_WRITE_FILEMARKS"
    ∷ "SCSIOP_SPACE" ∷ "SCSIOP_INQUIRY" ∷ "SCSIOP_VERIFY6" ∷ "SCSIOP_RECOVER_BUF_DATA"
    ∷ "SCSIOP_MODE_SELECT" ∷ "SCSIOP_RESERVE_UNIT" ∷ "SCSIOP_RELEASE_UNIT" ∷ "SCSIOP_COPY"
    ∷ "SCSIOP_ERASE" ∷ "SCSIOP_MODE_SENSE" ∷ "SCSIOP_LOAD_UNLOAD" ∷ "SCSIOP_RECEIVE_DIAGNOSTIC"
    ∷ "SCSIOP_SEND_DIAGNOSTIC" ∷ "SCSIOP_MEDIUM_REMOVAL" ∷ "SCSIOP_READ_FORMATTED_CAPACITY"
    ∷ "SCSIOP_READ_CAPACITY" ∷ "SCSIOP_READ" ∷ "SCSIOP_WRITE" ∷ "SCSIOP_SEEK"
    ∷ "SCSIOP_WRITE_VERIFY" ∷ "SCSIOP_VERIFY" ∷ "SCSIOP_SEARCH_DATA_HIGH"
    ∷ "SCSIOP_SEARCH_DATA_EQUAL" ∷ "SCSIOP_SEARCH_DATA_LOW" ∷ "SCSIOP_SET_LIMITS"
    ∷ "SCSIOP_READ_POSITION" ∷ "SCSIOP_SYNCHRONIZE_CACHE" ∷ "SCSIOP_COMPARE" ∷ "SCSIOP_COPY_COMPARE"
    ∷ "SCSIOP_WRITE_DATA_BUFF" ∷ "SCSIOP_READ_DATA_BUFF" ∷ "SCSIOP_CHANGE_DEFINITION"
    ∷ "SCSIOP_READ_SUB_CHANNEL" ∷ "SCSIOP_READ_TOC" ∷ "SCSIOP_READ_HEADER" ∷ "SCSIOP_PLAY_AUDIO"
    ∷ "SCSIOP_PLAY_AUDIO_MSF" ∷ "SCSIOP_PLAY_TRACK_INDEX" ∷ "SCSIOP_PLAY_TRACK_RELATIVE"
    ∷ "SCSIOP_PAUSE_RESUME" ∷ "SCSIOP_LOG_SELECT" ∷ "SCSIOP_LOG_SENSE" ∷ "SCSIOP_STOP_PLAY_SCAN"
    ∷ "SCSIOP_READ_DISK_INFORMATION" ∷ "SCSIOP_READ_TRACK_INFORMATION" ∷ "SCSIOP_MODE_SELECT10"
    ∷ "SCSIOP_MODE_SENSE10" ∷ "SCSIOP_REPORT_LUNS" ∷ "SCSIOP_SEND_KEY" ∷ "SCSIOP_REPORT_KEY"
    ∷ "SCSIOP_MOVE_MEDIUM" ∷ "SCSIOP_EXCHANGE_MEDIUM" ∷ "SCSIOP_SET_READ_AHEAD"
    ∷ "SCSIOP_READ_DVD_STRUCTURE" ∷ "SCSIOP_REQUEST_VOL_ELEMENT" ∷ "SCSIOP_SEND_VOLUME_TAG"
    ∷ "SCSIOP_READ_ELEMENT_STATUS" ∷ "SCSIOP_READ_CD_MSF" ∷ "SCSIOP_SCAN_CD" ∷ "SCSIOP_PLAY_CD"
    ∷ "SCSIOP_MECHANISM_STATUS" ∷ "SCSIOP_READ_CD" ∷ "SCSIOP_INIT_ELEMENT_RANGE" ∷ []

-- The constants of PnPMinorFunctionString.
abbrev pub pnp_minors : List String
pnp_minors =
    "IRP_MN_START_DEVICE" ∷ "IRP_MN_QUERY_REMOVE_DEVICE" ∷ "IRP_MN_REMOVE_DEVICE"
    ∷ "IRP_MN_CANCEL_REMOVE_DEVICE" ∷ "IRP_MN_STOP_DEVICE" ∷ "IRP_MN_QUERY_STOP_DEVICE"
    ∷ "IRP_MN_CANCEL_STOP_DEVICE" ∷ "IRP_MN_QUERY_DEVICE_RELATIONS" ∷ "IRP_MN_QUERY_INTERFACE"
    ∷ "IRP_MN_QUERY_CAPABILITIES" ∷ "IRP_MN_QUERY_RESOURCES" ∷ "IRP_MN_QUERY_RESOURCE_REQUIREMENTS"
    ∷ "IRP_MN_QUERY_DEVICE_TEXT" ∷ "IRP_MN_FILTER_RESOURCE_REQUIREMENTS" ∷ "IRP_MN_READ_CONFIG"
    ∷ "IRP_MN_WRITE_CONFIG" ∷ "IRP_MN_EJECT" ∷ "IRP_MN_SET_LOCK" ∷ "IRP_MN_QUERY_ID"
    ∷ "IRP_MN_QUERY_PNP_DEVICE_STATE" ∷ "IRP_MN_QUERY_BUS_INFORMATION"
    ∷ "IRP_MN_DEVICE_USAGE_NOTIFICATION" ∷ "IRP_MN_SURPRISE_REMOVAL"
    ∷ "IRP_MN_QUERY_LEGACY_BUS_INFORMATION" ∷ []

-- The constants of DbgDeviceIDString.
abbrev pub id_types : List String
id_types =
    "BusQueryDeviceID" ∷ "BusQueryHardwareIDs" ∷ "BusQueryCompatibleIDs" ∷ "BusQueryInstanceID"
    ∷ "BusQueryDeviceSerialNumber" ∷ []

-- The constants of PowerMinorFunctionString.
abbrev pub power_minors : List String
power_minors =
    "IRP_MN_SET_POWER" ∷ "IRP_MN_QUERY_POWER" ∷ "IRP_MN_POWER_SEQUENCE" ∷ "IRP_MN_WAIT_WAKE" ∷ []

-- The constants of DbgSystemPowerString.
abbrev pub system_power_states : List String
system_power_states =
    "PowerSystemUnspecified" ∷ "PowerSystemWorking" ∷ "PowerSystemSleeping1"
    ∷ "PowerSystemSleeping2" ∷ "PowerSystemSleeping3" ∷ "PowerSystemHibernate"
    ∷ "PowerSystemShutdown" ∷ "PowerSystemMaximum" ∷ []

-- The constants of DbgDevicePowerString.
abbrev pub device_power_states : List String
device_power_states =
    "PowerDeviceUnspecified" ∷ "PowerDeviceD0" ∷ "PowerDeviceD1" ∷ "PowerDeviceD2" ∷ "PowerDeviceD3"
    ∷ "PowerDeviceMaximum" ∷ []

-- The constants of DbgDeviceRelationString.
abbrev pub relation_types : List String
relation_types =
    "BusRelations" ∷ "EjectionRelations" ∷ "RemovalRelations" ∷ "TargetDeviceRelation" ∷ []

-- ModeSensePageCodeToString.
unfoldable pub mode_sense_page_code_to_string : (String → ℕ) → ℕ → List ℕ
unfolding case_string
mode_sense_page_code_to_string value n =
    default (codes "Unknown") (case_string value mode_sense_pages n)

-- SrbFunctionToString.
unfoldable pub srb_function_to_string : (String → ℕ) → ℕ → List ℕ
unfolding case_string
srb_function_to_string value n = default (codes "Unknown") (case_string value srb_functions n)

-- SCSICommandToString.
unfoldable pub scsi_command_to_string : (String → ℕ) → ℕ → List ℕ
unfolding case_string
scsi_command_to_string value n = default (codes "Unknown") (case_string value scsi_commands n)

-- PnPMinorFunctionString.
unfoldable pub pnp_minor_function_string : (String → ℕ) → ℕ → List ℕ
unfolding case_string
pnp_minor_function_string value n =
    default (codes "unknown_pnp_irp") (case_string value pnp_minors n)

-- DbgDeviceIDString.
unfoldable pub dbg_device_id_string : (String → ℕ) → ℕ → List ℕ
unfolding case_string
dbg_device_id_string value n = default (codes "UnKnown ID") (case_string value id_types n)

-- PowerMinorFunctionString.
unfoldable pub power_minor_function_string : (String → ℕ) → ℕ → List ℕ
unfolding case_string
power_minor_function_string value n =
    default (codes "unknown_power_irp") (case_string value power_minors n)

-- DbgSystemPowerString.
unfoldable pub dbg_system_power_string : (String → ℕ) → ℕ → List ℕ
unfolding case_string
dbg_system_power_string value n =
    default (codes "UnKnown System Power State") (case_string value system_power_states n)

-- DbgDevicePowerString.
unfoldable pub dbg_device_power_string : (String → ℕ) → ℕ → List ℕ
unfolding case_string
dbg_device_power_string value n =
    default (codes "UnKnown Device Power State") (case_string value device_power_states n)

-- DbgDeviceRelationString: the buffer has 40 characters.
unfoldable pub dbg_device_relation_string : (String → ℕ) → ℕ → List ℕ
unfolding case_string
dbg_device_relation_string value n =
    default (take 39 (codes "UnKnown Relation: " ++ print_d n)) (case_string value relation_types n)
