-- ===== src/Codes.antt =====
-- Constants of scsi.h, srb.h and inc/public.h that the driver compares with or stores.
use virtualdisk.Prelude.{ℕ}

-- Operation codes, function codes, sense keys and status bytes of scsi.h and srb.h.
abbrev pub scsiop_test_unit_ready : ℕ
scsiop_test_unit_ready = 0x00

abbrev pub scsiop_mode_sense : ℕ
scsiop_mode_sense = 0x1A

abbrev pub scsiop_read_capacity : ℕ
scsiop_read_capacity = 0x25

abbrev pub scsiop_read : ℕ
scsiop_read = 0x28

abbrev pub scsiop_write : ℕ
scsiop_write = 0x2A

abbrev pub scsiop_verify : ℕ
scsiop_verify = 0x2F

abbrev pub srb_function_execute_scsi : ℕ
srb_function_execute_scsi = 0x00

abbrev pub srb_function_claim_device : ℕ
srb_function_claim_device = 0x01

abbrev pub srb_function_release_device : ℕ
srb_function_release_device = 0x06

abbrev pub srb_status_success : ℕ
srb_status_success = 0x01

abbrev pub srb_status_error : ℕ
srb_status_error = 0x04

abbrev pub srb_status_busy : ℕ
srb_status_busy = 0x05

abbrev pub srb_status_autosense_valid : ℕ
srb_status_autosense_valid = 0x80

abbrev pub scsistat_good : ℕ
scsistat_good = 0x00

abbrev pub scsistat_check_condition : ℕ
scsistat_check_condition = 0x02

abbrev pub sense_no_sense : ℕ
sense_no_sense = 0x00

abbrev pub sense_hardware_error : ℕ
sense_hardware_error = 0x04

abbrev pub sense_illegal_request : ℕ
sense_illegal_request = 0x05

abbrev pub adsense_no_sense : ℕ
adsense_no_sense = 0x00

abbrev pub adsense_lun_not_ready : ℕ
adsense_lun_not_ready = 0x04

abbrev pub adsense_invalid_cdb : ℕ
adsense_invalid_cdb = 0x24

-- sizeof (BUSENUM_REQUEST) and sizeof (BUSENUM_REPLY): four 32-bit words each.
abbrev pub sizeof_request : ℕ
sizeof_request = 16

abbrev pub sizeof_reply : ℕ
sizeof_reply = 16
