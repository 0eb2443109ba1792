-- ===== src/FunctionFs/Gadget.antt =====
-- src/functionfs-backend.c, the gadget as it is put together and taken down: `functionfs_init` and
-- `functionfs_close`, with the calls to the system in the order they are made.
use ds4_translator.Base.{
  ℕ, Bool, true, false, not, Option, none, some, List, [], ◌∷◌, ◌++◌, Bytes, if◌then◌else◌,
}
use ds4_translator.Base.Text.{text, starts_with, empty}
use ds4_translator.Base.Scanf.{snprintf}
use ds4_translator.FunctionFs.{FunctionFsDevice}

pub data Thread : Type 0 where
  ep0_loop out_loop in_loop : Thread

-- A call to the system. `write_text` opens a file, writes a text and closes it.
pub data Call : Type 0 where
  look make_directory remove_directory remove_link unmount open_at : Bytes → Call
  mount_at make_link write_text : Bytes → Bytes → Call
  write_to : ℕ → Bytes → Call
  spawn join_thread : Thread → Call
  close_fd : ℕ → Call

-- What a call returns; `already` stands for EEXIST and EBUSY.
pub data Outcome : Type 0 where
  success already failure : Outcome
  opened : ℕ → Outcome

-- The calls made so far, the newest first, and what the system answers to one behind them.
abbrev pub Journal : Type 0
Journal = List Call

abbrev pub System : Type 0
System = Journal → Call → Outcome

abbrev pub succeeds : Outcome → Bool
succeeds success = true
succeeds already = false
succeeds failure = false
succeeds (opened fd) = true

abbrev pub succeeds_or_there : Outcome → Bool
succeeds_or_there success = true
succeeds_or_there already = true
succeeds_or_there failure = false
succeeds_or_there (opened fd) = true

abbrev pub fd_of : Outcome → Option ℕ
fd_of (opened fd) = some fd
fd_of success = none
fd_of already = none
fd_of failure = none

-- `GADGET_DIR` with what stands behind it, and `MOUNT_POINT`.
abbrev pub gadget : Bytes → Bytes
gadget path = text "/sys/kernel/config/usb_gadget/ds4translatorffs" ++ path

abbrev pub function_name : Bytes
function_name = text "ds4emu0"

abbrev pub mount_point : Bytes → Bytes
mount_point path = (text "/dev/ffs-" ++ function_name) ++ path

-- Errors are passed over.
unfoldable pub teardown_gadget_dir : Journal → Journal
teardown_gadget_dir log =
    remove_directory (gadget [])
    ∷ remove_directory (gadget (text "/strings/0x409"))
    ∷ remove_directory (gadget (text "/configs/c.1"))
    ∷ remove_directory (gadget (text "/configs/c.1/strings/0x409"))
    ∷ remove_directory (gadget (text "/functions/ffs." ++ function_name))
    ∷ remove_link (gadget (text "/configs/c.1/" ++ function_name))
    ∷ remove_directory (mount_point [])
    ∷ unmount (mount_point [])
    ∷ write_text (gadget (text "/UDC")) []
    ∷ log

abbrev pub usb_gadget : Bytes
usb_gadget = text "/sys/kernel/config/usb_gadget"

-- The mount may be there already.
unfoldable pub ensure_configfs_mounted : System → Journal → Bool × Journal
ensure_configfs_mounted sys log =
    let c0 = look (text "/sys/kernel/config") in
    let c1 = look usb_gadget in
    let c2 = mount_at (text "configfs") (text "/sys/kernel/config") in
    if not (succeeds (sys log c0))
    then (false, c0 ∷ log)
    else if succeeds (sys (c0 ∷ log) c1)
    then (true, c1 ∷ c0 ∷ log)
    else if not (succeeds_or_there (sys (c1 ∷ c0 ∷ log) c2))
    then (false, c2 ∷ c1 ∷ c0 ∷ log)
    else (succeeds (sys (c2 ∷ c1 ∷ c0 ∷ log) c1), c1 ∷ c2 ∷ c1 ∷ c0 ∷ log)

-- The loop over /sys/class/udc. Every name that is passed replaces the one remembered.
unfoldable pub scan_udcs : List Bytes → Bytes → Option Bytes
scan_udcs [] first = if empty first then none else some first
scan_udcs (name ∷ names) first =
    let passed = scan_udcs names first in
    let replaced = scan_udcs names (snprintf 256 name) in
    if starts_with (text ".") name
    then passed
    else if starts_with (text "dummy_udc") name
    then some (snprintf 256 name)
    else replaced

-- `none` for a directory that cannot be opened.
unfoldable pub find_udc : Option (List Bytes) → Option Bytes
unfolding scan_udcs
find_udc none = none
find_udc (some names) = scan_udcs names []

-- Only a directory may be there already.
abbrev pub made : Call → Outcome → Bool
made (make_directory path) o = succeeds_or_there o
made (look path) o = succeeds o
made (remove_directory path) o = succeeds o
made (remove_link path) o = succeeds o
made (unmount path) o = succeeds o
made (open_at path) o = succeeds o
made (mount_at source path) o = succeeds o
made (make_link target path) o = succeeds o
made (write_text path contents) o = succeeds o
made (write_to fd contents) o = succeeds o
made (spawn thread) o = succeeds o
made (join_thread thread) o = succeeds o
made (close_fd fd) o = succeeds o

-- A step of the chain `ok = ok && ...`: the first failure ends it.
unfoldable pub make_all : System → List Call → Journal → Bool × Journal
make_all sys [] log = (true, log)
make_all sys (c ∷ cs) log =
    let rest = make_all sys cs (c ∷ log) in if made c (sys log c) then rest else (false, c ∷ log)

unfoldable pub product_name_line : Bool → Bytes → Bytes
unfolding snprintf
product_name_line is_ds4 product_name =
    let default_product =
      if is_ds4 then text "Wireless Controller" else text "DualSense Wireless Controller" in
    let product = if empty product_name then default_product else product_name in
    snprintf 80 (product ++ 10 ∷ [])

unfoldable pub gadget_calls : Bool → Bytes → List Call
unfolding product_name_line
gadget_calls is_ds4 product_name =
    write_text (gadget (text "/idVendor")) (text "0x054c\n")
    ∷ write_text (gadget (text "/idProduct")) (if is_ds4 then text "0x05c4\n" else text "0x0ce6\n")
    ∷ write_text (gadget (text "/bcdDevice")) (text "0x8111\n")
    ∷ write_text (gadget (text "/bcdUSB")) (text "0x0200\n")
    ∷ make_directory (gadget (text "/strings/0x409"))
    ∷ write_text (gadget (text "/strings/0x409/manufacturer")) (
        if is_ds4
        then text "Sony Computer Entertainment\n"
        else text "Sony Interactive Entertainment\n")
    ∷ write_text (gadget (text "/strings/0x409/product")) (product_name_line is_ds4 product_name)
    ∷ write_text (gadget (text "/strings/0x409/serialnumber")) (text "74:e7:d6:3a:47:e8\n")
    ∷ make_directory (gadget (text "/configs/c.1"))
    ∷ make_directory (gadget (text "/configs/c.1/strings/0x409"))
    ∷ write_text (gadget (text "/configs/c.1/strings/0x409/configuration"))
        (text "Default Configuration\n")
    ∷ write_text (gadget (text "/configs/c.1/MaxPower")) (text "500\n")
    ∷ write_text (gadget (text "/configs/c.1/bmAttributes")) (text "0x80\n")
    ∷ make_directory (gadget (text "/functions/ffs." ++ function_name))
    ∷ []

-- What `functionfs_init` leaves: the device, the calls made, and what is returned.
pub record Init : Type 0 where
  pub dev : FunctionFsDevice
  pub log : Journal
  pub result : Bool

abbrev pub fresh : ℕ → FunctionFsDevice
fresh target_type = record {
  ep0_fd = none;
  ep_in_fd = none;
  ep_out_fd = none;
  device_open = false;
  configured = false;
  target_type = target_type;
  ep0_thread_spawned = false;
  out_thread_spawned = false;
  in_thread_spawned = false;
  pending_report = [];
  report_pending = false;
}

abbrev pub give_up : FunctionFsDevice → Journal → Init
give_up dev log = record { dev = dev; log = teardown_gadget_dir log; result = false }

-- A thread that cannot be started is passed over.
unfoldable pub spawn_threads : System → FunctionFsDevice → Journal → Init
spawn_threads sys dev log =
    let c0 = spawn ep0_loop in
    let c1 = spawn out_loop in
    let c2 = spawn in_loop in
    record {
      dev = record dev {
        ep0_thread_spawned = succeeds (sys log c0);
        out_thread_spawned = succeeds (sys (c0 ∷ log) c1);
        in_thread_spawned = succeeds (sys (c1 ∷ c0 ∷ log) c2);
      };
      log = c2 ∷ c1 ∷ c0 ∷ log;
      result = true;
    }
