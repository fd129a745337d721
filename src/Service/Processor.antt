-- ===== src/Service/Processor.antt =====
-- The processor of a disk in the service (umode/disksrv/disksrv.cpp: CDiskProcessor, SendReply): its
-- thread waits for requests of the driver, has its storage carry them out, and replies. The storage
-- is a parameter. `overrun` marks a transfer that leaves the buffer.
pub mod Serve
pub mod Transport
pub mod RoundTrip
use virtualdisk.Prelude.{ℕ, Bool, true, false, List, [], ◌∷◌, ◌==◌, if◌then◌else◌}
use virtualdisk.Irp.{Request, Reply, status_success, status_unsuccessful}
use virtualdisk.Codes.{scsiop_read, scsiop_write}
use virtualdisk.Service.Storage.{Transfer, DiskStorage}

-- CDiskProcessor with its thread running. `signaled` is the event of a request, an auto-reset
-- event; `done` and `n_bytes` are the thread's local variables `b` and `nBytes`.
pub record Processor (S : Type 0) : Type 0 where
  pub disk_id : ℕ
  pub storage : S
  pub buffer : List ℕ
  pub req : Request
  pub signaled : Bool
  pub done : Bool
  pub n_bytes : ℕ
  pub overrun : Bool

-- What WaitForMultipleObjects returns.
pub data Wait : Type 0 where
  request_signaled removal_signaled wait_failed : Wait

-- How a round of the thread ends: with a reply, or the thread leaves its loop, after a call of
-- RemoveDiskFinal where the PDO was removed.
pub data Round (S : Type 0) : Type 0 where
  replied : Processor S → Reply → Round S
  removed : ℕ → Round S
  stopped : Round S

-- SendReply's BUSENUM_REPLY.
unfoldable pub make_reply : ℕ → ℕ → ℕ → Bool → Reply
make_reply handle code n_bytes status = record {
  handle = handle;
  status = if status then status_success else status_unsuccessful;
  code = code;
  num_bytes = n_bytes;
}

module _ {S : Type 0} (d : DiskStorage S) where
  -- CDiskProcessor::GetNumBlocks and GetBlockSize.
  unfoldable pub get_num_blocks : Processor S → ℕ
  get_num_blocks p = d.get_num_blocks p.storage

  unfoldable pub get_block_size : Processor S → ℕ
  get_block_size p = d.get_block_size p.storage

  -- CDiskProcessor::ProcessRequest.
  unfoldable pub process_request : Processor S → Request → Processor S
  process_request p req = record p { req = req; signaled = true }

  -- The thread's variables as the storage gets them, and after a transfer.
  abbrev pub transfer_of : Processor S → Transfer
  transfer_of p = record {
    buffer = p.buffer;
    n_bytes = p.n_bytes;
    done = p.done;
    overrun = p.overrun;
  }

  abbrev pub with_transfer : Processor S → S × Transfer → Processor S
  with_transfer p (s, t) = record p {
    storage = s;
    buffer = t.buffer;
    n_bytes = t.n_bytes;
    done = t.done;
    overrun = t.overrun;
  }

  -- The `switch` of threadProc. Another code leaves the variables as they are.
  unfoldable pub execute : Processor S → Processor S
  execute p =
      let lba = p.req.logical_block_address in
      let blocks = p.req.transfer_blocks in
      if p.req.code == scsiop_read
      then with_transfer p (d.read_blocks p.storage lba blocks (transfer_of p))
      else (if p.req.code == scsiop_write
          then with_transfer p (d.write_blocks p.storage lba blocks (transfer_of p))
          else p)

  -- One request: it is carried out and answered. The code and the handle of the answer are read from
  -- m_req again. No other request comes in between where the driver keeps to one request for each
  -- disk; a round is one step here.
  unfoldable pub serve : Processor S → Processor S × Reply
  unfolding execute make_reply
  serve p =
      let p' = execute (record p { signaled = false }) in
      (p', make_reply p'.req.handle p'.req.code p'.n_bytes p'.done)

  -- One round of the loop of threadProc.
  unfoldable pub thread_round : Processor S → Wait → Round S
  unfolding serve
  thread_round p request_signaled = let (p', reply) = serve p in replied p' reply
  thread_round p removal_signaled = removed p.disk_id
  thread_round p wait_failed = stopped

  -- The loop of threadProc on what its waits return: the replies it sends, and how it ends.
  unfoldable pub thread_proc : Processor S → List Wait → List Reply × Round S
  unfolding thread_round
  thread_proc p [] = ([], stopped)
  thread_proc p (w ∷ ws) = elim (thread_round p w) [
    | replied p' reply ↦ let (replies, end) = thread_proc p' ws in (reply ∷ replies, end)
    | removed disk_id ↦ ([], removed disk_id)
    | stopped ↦ ([], stopped)
  ]
