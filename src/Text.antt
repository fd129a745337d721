-- ===== src/Text.antt =====
-- The names of a disk as wide characters (bus/busenum.h: BUS_HARDWARE_IDS, BUS_DEVICE_ID,
-- BUSENUM_COMPATIBLE_IDS; bus/buspdo.c: VENDORNAME, MODEL, and what RtlStringCchPrintfW makes of the
-- formats that the driver uses).
pub mod Digits
pub mod MultiSz
use virtualdisk.Prelude.{
  ℕ, zero, suc, ◌+◌, ◌-◌, ◌*◌, ◌/◌, ◌%◌, Bool, true, false, Option, none, some, List, [], ◌∷◌, ◌++◌,
  ltb, leb, ◌==◌, if◌then◌else◌, length, take, map,
}
use virtualdisk.Words.{ulong_mod}

-- "SCSI\DiskVDSoft  VirtualDisk     0001".
abbrev pub disk_revision_id : List ℕ
disk_revision_id =
    83 ∷ 67 ∷ 83 ∷ 73 ∷ 92 ∷ 68 ∷ 105 ∷ 115 ∷ 107 ∷ 86 ∷ 68 ∷ 83 ∷ 111 ∷ 102 ∷ 116 ∷ 32 ∷ 32 ∷ 86
    ∷ 105 ∷ 114 ∷ 116 ∷ 117 ∷ 97 ∷ 108 ∷ 68 ∷ 105 ∷ 115 ∷ 107 ∷ 32 ∷ 32 ∷ 32 ∷ 32 ∷ 32 ∷ 48 ∷ 48
    ∷ 48 ∷ 49 ∷ []

-- "SCSI\DiskVDSoft  VirtualDisk     ".
abbrev pub disk_product_id : List ℕ
disk_product_id =
    83 ∷ 67 ∷ 83 ∷ 73 ∷ 92 ∷ 68 ∷ 105 ∷ 115 ∷ 107 ∷ 86 ∷ 68 ∷ 83 ∷ 111 ∷ 102 ∷ 116 ∷ 32 ∷ 32 ∷ 86
    ∷ 105 ∷ 114 ∷ 116 ∷ 117 ∷ 97 ∷ 108 ∷ 68 ∷ 105 ∷ 115 ∷ 107 ∷ 32 ∷ 32 ∷ 32 ∷ 32 ∷ 32 ∷ []

-- "SCSI\DiskVDSoft  ".
abbrev pub disk_vendor_id : List ℕ
disk_vendor_id =
    83 ∷ 67 ∷ 83 ∷ 73 ∷ 92 ∷ 68 ∷ 105 ∷ 115 ∷ 107 ∷ 86 ∷ 68 ∷ 83 ∷ 111 ∷ 102 ∷ 116 ∷ 32 ∷ 32 ∷ []

-- "SCSI\VDSoft  VirtualDisk     1".
abbrev pub product_id : List ℕ
product_id =
    83 ∷ 67 ∷ 83 ∷ 73 ∷ 92 ∷ 86 ∷ 68 ∷ 83 ∷ 111 ∷ 102 ∷ 116 ∷ 32 ∷ 32 ∷ 86 ∷ 105 ∷ 114 ∷ 116 ∷ 117
    ∷ 97 ∷ 108 ∷ 68 ∷ 105 ∷ 115 ∷ 107 ∷ 32 ∷ 32 ∷ 32 ∷ 32 ∷ 32 ∷ 49 ∷ []

-- "VDSoft  VirtualDisk     1".
abbrev pub short_product_id : List ℕ
short_product_id =
    86 ∷ 68 ∷ 83 ∷ 111 ∷ 102 ∷ 116 ∷ 32 ∷ 32 ∷ 86 ∷ 105 ∷ 114 ∷ 116 ∷ 117 ∷ 97 ∷ 108 ∷ 68 ∷ 105
    ∷ 115 ∷ 107 ∷ 32 ∷ 32 ∷ 32 ∷ 32 ∷ 32 ∷ 49 ∷ []

-- "GenDisk".
abbrev pub generic_id : List ℕ
generic_id = 71 ∷ 101 ∷ 110 ∷ 68 ∷ 105 ∷ 115 ∷ 107 ∷ []

-- A list of strings as a MULTI_SZ: each with its terminator, and one more at the end.
unfoldable pub multi_sz : List (List ℕ) → List ℕ
multi_sz [] = 0 ∷ []
multi_sz (s ∷ ss) = s ++ 0 ∷ multi_sz ss

-- BUS_HARDWARE_IDS, BUSENUM_COMPATIBLE_IDS and BUS_DEVICE_ID, with all of their terminators.
abbrev pub hardware_id_names : List (List ℕ)
hardware_id_names =
    disk_revision_id ∷ disk_product_id ∷ disk_vendor_id ∷ product_id ∷ short_product_id ∷ generic_id
    ∷ []

unfoldable pub bus_hardware_ids : List ℕ
unfolding multi_sz
bus_hardware_ids = multi_sz hardware_id_names

unfoldable pub bus_compatible_ids : List ℕ
unfolding multi_sz
bus_compatible_ids = multi_sz (generic_id ∷ [])

unfoldable pub bus_device_id : List ℕ
bus_device_id = disk_revision_id ++ 0 ∷ []

-- One character more.
abbrev pub passed : Option ℕ → Option ℕ
passed none = none
passed (some n) = some (suc n)

-- The two loops that look for the end of a MULTI_SZ: how many characters they pass, unless they leave
-- the memory. `inside` says that the inner loop runs.
unfoldable pub scan_ids : (inside : Bool) → List ℕ → Option ℕ
scan_ids inside [] = none
scan_ids inside (c ∷ cs) =
    let outer = scan_ids false cs in
    let inner = scan_ids true cs in
    if c == 0 then (if inside then passed outer else some 1) else passed inner

-- VENDORNAME and MODEL.
abbrev pub vendor_name : List ℕ
vendor_name = 86 ∷ 68 ∷ 83 ∷ 111 ∷ 102 ∷ 116 ∷ 32 ∷ []

abbrev pub model : List ℕ
model = 86 ∷ 105 ∷ 114 ∷ 116 ∷ 117 ∷ 97 ∷ 108 ∷ 32 ∷ 100 ∷ 105 ∷ 115 ∷ 107 ∷ 32 ∷ []

-- The lowest `n` digits of a number to a base, the highest first.
unfoldable pub digits : (base n x : ℕ) → List ℕ
digits base zero x = []
digits base (suc n) x = digits base n (x / base) ++ (x % base) ∷ []

-- Leading zeros go, as long as more than `width` digits are left.
unfoldable pub strip : ℕ → List ℕ → List ℕ
strip width [] = []
strip width (c ∷ cs) =
    let rest = strip width cs in
    if ltb width (length (c ∷ cs)) then (if c == 0 then rest else c ∷ cs) else c ∷ cs

-- A digit as a character, "0" to "9" and "a" to "f".
abbrev pub digit_char : ℕ → ℕ
digit_char c = if ltb c 10 then 48 + c else 87 + c

-- "%02x" and "%d" of a ULONG.
unfoldable pub print_02x : ℕ → List ℕ
unfolding digits strip
print_02x x = map digit_char (strip 2 (digits 16 8 x))

unfoldable pub print_d : ℕ → List ℕ
unfolding digits strip
print_d x =
    if ltb x 0x80000000
    then map digit_char (strip 1 (digits 10 10 x))
    else 45 ∷ map digit_char (strip 1 (digits 10 10 (ulong_mod - x)))

-- RtlStringCchPrintfW into a buffer: what fits in front of the terminator.
unfoldable pub cch_print : ℕ → List ℕ → List ℕ
cch_print size text = take (size - 1) text ++ 0 ∷ []
