-- ===== src/Service/Resources.antt =====
-- What the service acquires and releases (umode/disksrv/disksrv.cpp: CDiskProcessor::Init and its
-- destructor), and what Windows answers.
use virtualdisk.Prelude.{ℕ, ◌+◌, ◌≡◌, Bool, true, false, Option, List, ◌==◌, count}

-- Pages, kernel handles (of events and threads), storage objects.
pub data Resource : Type 0 where
  pages storage_object : Resource
  handle : ℕ → Resource

-- The calls that acquire or release a resource, and those of the driver, newest first.
pub data Act : Type 0 where
  acquired : Resource → Act
  released : Resource → Act
  controlled : Act

-- The answers of VirtualAlloc (the memory), CreateEvent, _beginthreadex, GetLastError and
-- RpcImpersonateClient after the calls made so far, and the size of BUSENUM_ADD_DISK.
pub record Windows : Type 0 where
  pub virtual_alloc : List Act → Option (List ℕ)
  pub create_event : List Act → Option ℕ
  pub begin_thread : List Act → Option ℕ
  pub get_last_error : List Act → ℕ
  pub impersonate_client : List Act → ℕ
  pub sizeof_add_disk : ℕ

abbrev pub same_resource : Resource → Resource → Bool
same_resource pages pages = true
same_resource storage_object storage_object = true
same_resource (handle a) (handle b) = a == b
same_resource _ _ = false

abbrev pub acquires : Resource → Act → Bool
acquires r (acquired s) = same_resource r s
acquires r (released s) = false
acquires r controlled = false

abbrev pub releases : Resource → Act → Bool
releases r (acquired s) = false
releases r (released s) = same_resource r s
releases r controlled = false

-- Between two points as much of a resource was released as acquired.
abbrev pub Balances : Resource → List Act → List Act → Type 0
Balances r before after =
    count (acquires r) after + count (releases r) before
    ≡ count (releases r) after + count (acquires r) before
