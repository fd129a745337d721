-- ===== src/Queue.antt =====
-- The cancel-safe queues (bus/pnp.c, InitQueue and the callbacks BusInsertIrp to
-- BusCompleteCanceledIrp). A queue is the list of its IRPs, oldest first.
pub mod Taken
use virtualdisk.Prelude.{ℕ, Option, none, some, List, [], ◌∷◌, ◌++◌, ◌==◌, if◌then◌else◌}
use virtualdisk.Irp.{Irp, Call, completed, status_success, status_cancelled, nt_success}

-- InitQueue, given the status of IoCsqInitialize: the status, and the list. A queue that could not
-- be initialised keeps the zeroed list head of a new device, which holds no IRP and cannot take one.
unfoldable pub init_queue : ℕ → ℕ × List Irp
init_queue status = if nt_success status then (status_success, []) else (status, [])

-- InsertTailList.
unfoldable pub bus_insert_irp : List Irp → Irp → List Irp
bus_insert_irp queue irp = queue ++ irp ∷ []

-- RemoveEntryList: unlinks the entry of this very IRP.
unfoldable pub bus_remove_irp : List Irp → Irp → List Irp
bus_remove_irp [] irp = []
bus_remove_irp (x ∷ xs) irp =
    let rest = bus_remove_irp xs irp in if x.id == irp.id then xs else x ∷ rest

-- The entries behind that of an IRP.
entries_behind : List Irp → Irp → List Irp
entries_behind [] irp = []
entries_behind (x ∷ xs) irp =
    let rest = entries_behind xs irp in if x.id == irp.id then xs else rest

-- Where the scan starts: at the head if no IRP is given, else behind it.
scan_from : List Irp → Option Irp → List Irp
unfolding entries_behind
scan_from queue none = queue
scan_from queue (some irp) = entries_behind queue irp

-- The `while` of BusPeekNextIrp. Without a context the first entry is taken.
scan : List Irp → Option ℕ → Option Irp
scan [] context = none
scan (x ∷ xs) none = some x
scan (x ∷ xs) (some file) =
    let rest = scan xs (some file) in if x.file_object == file then some x else rest

unfoldable pub bus_peek_next_irp : List Irp → Option Irp → Option ℕ → Option Irp
unfolding scan_from scan
bus_peek_next_irp queue irp context = scan (scan_from queue irp) context

-- The IRP has left the queue when the kernel calls this.
unfoldable pub bus_complete_canceled_irp : List Call → Irp → List Call
bus_complete_canceled_irp calls irp =
    completed (record irp { status = status_cancelled; information = 0 }) ∷ calls
