-- ===== src/Service/Interface.antt =====
-- How the service finds the bus (umode/disksrv/disksrv.cpp: OpenBusInterface). The setup functions of
-- Windows are a parameter.
use virtualdisk.Prelude.{ℕ, Bool, Option, none, some, List, [], ◌∷◌, ◌==◌, if◌then◌else◌}

-- ERROR_INSUFFICIENT_BUFFER.
abbrev pub error_insufficient_buffer : ℕ
error_insufficient_buffer = 122

-- What SetupDiGetClassDevs, SetupDiEnumDeviceInterfaces, the two calls of
-- SetupDiGetDeviceInterfaceDetail (the last error behind the first; the path of the device) and
-- CreateFile return.
pub record SetupAnswers : Type 0 where
  pub class_devs : Bool
  pub interface_there : Bool
  pub probe_error : ℕ
  pub device_path : Option (List ℕ)
  pub create_file : List ℕ → Option ℕ

-- The calls that acquire or release, newest first.
pub data SetupAct : Type 0 where
  info_list_created info_list_destroyed : SetupAct
  bus_opened : List ℕ → SetupAct

-- OpenBusInterface: the handle of the bus, if it can be opened.
unfoldable pub open_bus_interface : SetupAnswers → Option ℕ × List SetupAct
open_bus_interface a =
    if a.class_devs
    then (let created = info_list_created ∷ [] in
        if a.interface_there
        then (if a.probe_error == error_insufficient_buffer
            then elim (a.device_path) [
              | none ↦ (none, created)
              | some path ↦ elim (a.create_file path) [
                | none ↦ (none, info_list_destroyed ∷ created)
                | some file ↦ (some file, info_list_destroyed ∷ bus_opened path ∷ created)
              ]
            ]
            else (none, created))
        else (none, created))
    else (none, [])
