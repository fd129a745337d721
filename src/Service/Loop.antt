-- ===== src/Service/Loop.antt =====
-- The loop of the server (umode/disksrv/disksrv.cpp: GetRequest, Run): requests of the driver are handed to
-- the processors of their disks. What DeviceIoControl and the wait return is a parameter.
pub mod Routing
use virtualdisk.Prelude.{
  ℕ, Bool, true, false, Option, none, some, List, [], ◌∷◌, ◌==◌, if◌then◌else◌,
}
use virtualdisk.Irp.{Request}

-- ERROR_IO_PENDING, and WAIT_OBJECT_0 + TerminationEvent.
abbrev pub error_io_pending : ℕ
error_io_pending = 997

abbrev pub wait_termination : ℕ
wait_termination = 1

-- One DeviceIoControl with IOCTL_BUSENUM_GET_REQUEST: whether it has completed, GetLastError, what the wait
-- returns, and what `req` holds then.
pub record Fetch : Type 0 where
  pub done : Bool
  pub last_error : ℕ
  pub waited : ℕ
  pub req : Request

-- CDiskServer::GetRequest.
unfoldable pub get_request : Fetch → Bool
get_request f =
    let waits = if f.waited == wait_termination then false else true in
    if f.done then waits else (if f.last_error == error_io_pending then waits else false)

-- ProcessRequest of a processor is a parameter here; it is Service.Processor.process_request in the
-- service.
module _ {P : Type 0} (process : P → Request → P) where
  -- The processor that FindDisk returns gets the request.
  unfoldable pub hand_over : List (ℕ × P) → Request → List (ℕ × P)
  hand_over [] req = []
  hand_over ((disk_id, p) ∷ rest) req =
      let others = hand_over rest req in
      if req.handle == disk_id then (disk_id, process p req) ∷ rest else (disk_id, p) ∷ others

  -- CDiskServer::Run, as long as it goes on. The Boolean says that the loop has ended.
  unfoldable pub run : List (ℕ × P) → List Fetch → List (ℕ × P) × Bool
  unfolding get_request hand_over
  run disks [] = (disks, false)
  run disks (f ∷ fs) =
      let rest = run (hand_over disks f.req) fs in if get_request f then rest else (disks, true)
