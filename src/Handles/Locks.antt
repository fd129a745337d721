-- ===== src/Handles/Locks.antt =====
-- Opening and closing a handle: its IRP and the remove lock (bus/busenum.c: Bus_CreateClose).
use virtualdisk.Prelude.{ℕ, ◌+◌, ◌≡◌, Bool, List, arith, count, indicator, if◌then◌else◌}
use virtualdisk.Irp.{Irp, Call, nt_success}
use virtualdisk.Kernel.{Kernel}
use virtualdisk.Packet.Ownership.{has_id, answers}
use virtualdisk.Packet.Locks.{acquires, releases}
use virtualdisk.Handles.{Major, create_close}

-- Bus_CreateClose completes its IRP once in every case, and releases the remove lock as often as
-- it takes it; but where the lock is granted and the device is gone, the lock is never released.
pub create_close_lock :
    (k : Kernel) (d n : ℕ) (gone : Bool) (major : Major) (calls : List Call) (irp : Irp)
    → let calls' = (create_close k d gone major calls irp).0 in
      let granted = nt_success (k.acquire_remove_lock calls d) in
      (count (answers n) calls' ≡ count (answers n) calls + indicator (has_id n irp))
      × (count (acquires d) calls' + count (releases d) calls
          ≡ count (releases d) calls'
            + count (acquires d) calls
            + (if granted then (if gone then 1 else 0) else 0))
unfolding create_close
create_close_lock k d n gone major calls irp = ground arith
