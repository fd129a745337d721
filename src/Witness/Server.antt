-- ===== src/Witness/Server.antt =====
-- The server of the service with one plugin, on top of a driver.
use virtualdisk.Prelude.{ℕ, ◌≡◌, refl, ◌⊎◌, true, false, none, some, List, [], ◌∷◌, ◌==◌}
use virtualdisk.Device.{Bus}
use virtualdisk.Service.File.{FileStorage, file_disk}
use virtualdisk.Service.Table.{find}
use virtualdisk.Service.Resources.{Resource, Windows, Balances}
use virtualdisk.Service.Interface.{open_bus_interface}
use virtualdisk.Service.Control.{
  Service, stopped, control_interrogate, control_stop, init_rpc, init_service, service_start,
  service_main,
}
use virtualdisk.Service.Control.Reports.{Told, service_main_stops}
use virtualdisk.Service.Plugins.{PluginApi, Registry, Manager, plain, find_plugin, register_plugins}
use virtualdisk.Service.Plugins.Lookup.{register_plugins-plain}
use virtualdisk.Service.Processor.{process_request}
use virtualdisk.Service.Loop.{Fetch}
use virtualdisk.Service.Loop.Routing.{run_routes, handed, requests_for}
use virtualdisk.Service.Server.{Server, Disk, new_disk, add_disk, rpc_add_disk}
use virtualdisk.Service.Server.World.{
  begun, then_step, adds, IsLeaving, World-IsServed, World-IsLeaving,
}
use virtualdisk.Service.Server.Outcome.{IsComplete, add_disk_cases}
use virtualdisk.Service.Server.Served.{bus_driver, IsServed}
use virtualdisk.Witness.Data.{sample_kernel, sample-IsCsq, sample_bus, read_irp}
use virtualdisk.Witness.Service.{
  MemoryFile, memory_api, sample_storage, sample_processor, sample_request,
}

-- One kind of plugin, that is initialised where it is opened with any command line or none.
abbrev pub sample_api : PluginApi
sample_api = record {
  Func = ℕ;
  Plugin = ℕ;
  Storage = FileStorage MemoryFile;
  open_plugin = λ f. some f;
  init = λ p line. (p, true);
  create_disk = λ p name. some sample_storage;
  to_lower = λ c. c;
  file_plugin_func = 7;
  load = λ name. some 8;
}

-- A registry with another plugin for the same type.
abbrev sample_registry : Registry
sample_registry = record {
  plugins_key = true;
  types = plain ∷ (1 ∷ []) ∷ [];
  opens = λ t. true;
  file_name = λ t. some [];
  options = λ t. none;
}

abbrev empty_manager : Manager sample_api
empty_manager = record { plugin_map = []; released = []; null_called = false }

abbrev pub sample_windows : Windows
sample_windows = record {
  virtual_alloc = λ acts. some (0 ∷ 0 ∷ 0 ∷ 0 ∷ []);
  create_event = λ acts. some 5;
  begin_thread = λ acts. some 6;
  get_last_error = λ acts. 87;
  impersonate_client = λ acts. 0;
  sizeof_add_disk = 32;
}

abbrev empty_bus : Bus
empty_bus = record sample_bus { list_of_pdos = []; calls = [] }

abbrev pub sample_server :
    Server sample_windows sample_api
      (file_disk memory_api)
      (bus_driver sample_kernel (λ calls. read_irp))
sample_server = record {
  disks = [];
  plugins = record { plugin_map = (plain, 7) ∷ []; released = []; null_called = false };
  bus = empty_bus;
  acts = [];
}

register_plugins-plain_example :
    find_plugin sample_api (register_plugins sample_api sample_registry empty_manager) plain
    ≡ some 7
register_plugins-plain_example =
    register_plugins-plain sample_api sample_registry empty_manager plain 7 refl refl refl refl

add_disk_cases_example :
    let (srv', done) =
      add_disk sample_windows sample_api
        (file_disk memory_api)
        (bus_driver sample_kernel (λ calls. read_irp))
        sample_server
        3
        plain
        [] in
    ((done ≡ true)
      × (find ◌==◌ 3 sample_server.disks ≡ none)
      × ((disk : Disk (FileStorage MemoryFile)) × (find ◌==◌ 3 srv'.disks ≡ some disk)
          × IsComplete sample_windows sample_api
              (file_disk memory_api)
              (bus_driver sample_kernel (λ calls. read_irp))
              sample_server.plugins
              3
              plain
              []
              disk)
      × ((j : ℕ) → (j == 3) ≡ false → find ◌==◌ j srv'.disks ≡ find ◌==◌ j sample_server.disks))
    ⊎ ((done ≡ false)
        × (srv'.disks ≡ sample_server.disks)
        × ((r : Resource) → Balances r sample_server.acts srv'.acts))
add_disk_cases_example =
    add_disk_cases sample_windows sample_api (file_disk memory_api)
      (bus_driver sample_kernel (λ calls. read_irp)) sample_server 3 plain []

abbrev sample_fetches : List Fetch
sample_fetches =
    record {
      done = false;
      last_error = 997;
      waited = 0;
      req = record sample_request { handle = 100 };
    }
    ∷ record { done = false; last_error = 997; waited = 1; req = sample_request }
    ∷ []

run_routes_example :
    find ◌==◌ 100
      (virtualdisk.Service.Loop.run
        (process_request (file_disk memory_api))
        ((100, sample_processor) ∷ [])
        sample_fetches).0
    ≡ handed
        (process_request (file_disk memory_api))
        (some sample_processor)
        (requests_for 100 sample_fetches)
unfolding find
run_routes_example =
    run_routes (process_request (file_disk memory_api)) 100 sample_fetches
      ((100, sample_processor) ∷ [])

abbrev sample_answers : virtualdisk.Service.Control.Windows
sample_answers = record {
  handler_registered = true;
  setup = record {
    class_devs = true;
    interface_there = true;
    probe_error = 122;
    device_path = some (92 ∷ []);
    create_file = λ path. some 7;
  };
  use_protseq = 0;
  register_if = 0;
  listen = 0;
  last_error = 0;
}

abbrev blank_service : Service
blank_service = record {
  status = record { current_state = stopped; exit_code = 9 };
  reports = [];
  terminating = false;
  file_open = false;
  plugins_loaded = false;
  rpc_listening = false;
}

service_main_stops_example :
    let s' =
      service_main sample_answers blank_service (control_interrogate ∷ control_stop ∷ []) false in
    (s'.status ≡ record { current_state = stopped; exit_code = 0 })
    × Told s'.status s'
    × (s'.file_open ≡ false)
    × (s'.plugins_loaded ≡ false)
    × (s'.rpc_listening ≡ false)
unfolding service_start init_service init_rpc open_bus_interface
service_main_stops_example =
    service_main_stops sample_answers blank_service (control_interrogate ∷ control_stop ∷ []) false
      refl refl refl

World-IsServed_example :
    IsServed sample_windows sample_api
      (file_disk memory_api)
      sample_kernel
      (λ calls. read_irp)
      (rpc_add_disk sample_windows sample_api
        (file_disk memory_api)
        (bus_driver sample_kernel (λ calls. read_irp))
        sample_server
        3
        plain
        []).0
World-IsServed_example =
    World-IsServed sample_windows sample_api (file_disk memory_api) sample_kernel
      (λ calls. read_irp) sample-IsCsq (then_step begun (adds sample_server 3 plain [])) tt

-- The disk 3 has left the driver.
abbrev leaving_server :
    Server sample_windows sample_api
      (file_disk memory_api)
      (bus_driver sample_kernel (λ calls. read_irp))
leaving_server = record sample_server { disks = (3, new_disk 3) ∷ [] }

World-IsLeaving_example :
    IsLeaving sample_windows sample_api
      (file_disk memory_api)
      sample_kernel
      (λ calls. read_irp)
      3
      (rpc_add_disk sample_windows sample_api
        (file_disk memory_api)
        (bus_driver sample_kernel (λ calls. read_irp))
        leaving_server
        3
        plain
        []).0
unfolding find
World-IsLeaving_example =
    World-IsLeaving sample_windows sample_api (file_disk memory_api) sample_kernel
      (λ calls. read_irp) sample-IsCsq 3 (then_step begun (adds leaving_server 3 plain [])) refl
      (tt, refl)
