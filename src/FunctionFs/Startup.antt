-- ===== src/FunctionFs/Startup.antt =====
-- src/functionfs-backend.c, `functionfs_init` and `functionfs_close` as wholes.
use ds4_translator.Base.{
  ℕ, Bool, true, false, not, ◌||◌, Option, none, some, List, [], ◌∷◌, ◌++◌, Bytes, is_some,
  if◌then◌else◌, ◌==◌,
}
use ds4_translator.Base.Text.{text}
use ds4_translator.FunctionFs.{FunctionFsDevice}
use ds4_translator.FunctionFs.Blobs.{FfsConstants, build_ffs_descriptors, build_ffs_strings}
use ds4_translator.FunctionFs.Gadget.{
  Thread, ep0_loop, out_loop, in_loop, make_directory, open_at, mount_at, make_link, write_text,
  write_to, join_thread, close_fd, System, Journal, succeeds, succeeds_or_there, fd_of, gadget,
  function_name, mount_point, teardown_gadget_dir, ensure_configfs_mounted, find_udc, make_all,
  gadget_calls, Init, fresh, give_up, spawn_threads,
}

-- The gadget is bound to the controller that was found, and the threads start.
unfoldable pub bind_gadget : System → Option (List Bytes) → FunctionFsDevice → Journal → Init
unfolding spawn_threads find_udc
bind_gadget sys names dev log = elim (find_udc names) [
  | none ↦ give_up dev log
  | some udc ↦
      let c = write_text (gadget (text "/UDC")) (udc ++ 10 ∷ []) in
      if not (succeeds (sys log c))
      then give_up dev (c ∷ log)
      else spawn_threads sys (record dev { device_open = true }) (c ∷ log)
]

-- Both endpoints are opened before either is looked at.
unfoldable pub open_endpoints : System → Option (List Bytes) → FunctionFsDevice → Journal → Init
unfolding bind_gadget
open_endpoints sys names dev log =
    let c1 = open_at (mount_point (text "/ep1")) in
    let c2 = open_at (mount_point (text "/ep2")) in
    let ep_in_fd = fd_of (sys log c1) in
    let ep_out_fd = fd_of (sys (c1 ∷ log) c2) in
    let with_fds = record dev { ep_in_fd = ep_in_fd; ep_out_fd = ep_out_fd } in
    if not (is_some ep_in_fd) || not (is_some ep_out_fd)
    then give_up with_fds (c2 ∷ c1 ∷ log)
    else bind_gadget sys names with_fds (c2 ∷ c1 ∷ log)

unfoldable pub write_blobs :
    System → Option (List Bytes) → FfsConstants → ℕ → FunctionFsDevice → Journal → Init
unfolding open_endpoints
write_blobs sys names k fd dev log =
    let c1 = write_to fd (build_ffs_descriptors k dev.target_type) in
    let c2 = write_to fd (build_ffs_strings k) in
    if not (succeeds (sys log c1))
    then give_up dev (c1 ∷ log)
    else if not (succeeds (sys (c1 ∷ log) c2))
    then give_up dev (c2 ∷ c1 ∷ log)
    else open_endpoints sys names dev (c2 ∷ c1 ∷ log)

unfoldable pub open_ep0 :
    System → Option (List Bytes) → FfsConstants → FunctionFsDevice → Journal → Init
unfolding write_blobs
open_ep0 sys names k dev log =
    let c = open_at (mount_point (text "/ep0")) in
    elim (fd_of (sys log c)) [
      | none ↦ give_up dev (c ∷ log)
      | some fd ↦ write_blobs sys names k fd (record dev { ep0_fd = some fd }) (c ∷ log)
    ]

-- The link into the configuration, the mount point and the mount.
unfoldable pub mount_function :
    System → Option (List Bytes) → FfsConstants → FunctionFsDevice → Journal → Init
unfolding open_ep0
mount_function sys names k dev log =
    let c1 =
      make_link (gadget (text "/functions/ffs." ++ function_name))
        (gadget (text "/configs/c.1/" ++ function_name)) in
    let c2 = make_directory (mount_point []) in
    let c3 = mount_at (text "functionfs") (mount_point []) in
    if not (succeeds_or_there (sys log c1))
    then give_up dev (c1 ∷ log)
    else if not (succeeds_or_there (sys (c1 ∷ log) c2))
    then give_up dev (c2 ∷ c1 ∷ log)
    else if not (succeeds (sys (c2 ∷ c1 ∷ log) c3))
    then give_up dev (c3 ∷ c2 ∷ c1 ∷ log)
    else open_ep0 sys names k dev (c3 ∷ c2 ∷ c1 ∷ log)

unfoldable pub fill_gadget :
    System → Option (List Bytes) → FfsConstants → Bytes → FunctionFsDevice → Journal → Init
unfolding mount_function make_all
fill_gadget sys names k product_name dev log =
    let (ok, filled) = make_all sys (gadget_calls (dev.target_type == 1) product_name) log in
    if not ok then give_up dev filled else mount_function sys names k dev filled

-- `names` are the entries of /sys/class/udc.
unfoldable pub functionfs_init :
    System → Option (List Bytes) → FfsConstants → ℕ → Bytes → Journal → Init
unfolding ensure_configfs_mounted fill_gadget
functionfs_init sys names k target_type product_name log =
    let dev = fresh target_type in
    let (there, looked) = ensure_configfs_mounted sys log in
    let cleared = teardown_gadget_dir looked in
    let c = make_directory (gadget []) in
    if not there
    then record { dev = dev; log = looked; result = false }
    else if not (succeeds_or_there (sys cleared c))
    then record { dev = dev; log = c ∷ cleared; result = false }
    else fill_gadget sys names k product_name dev (c ∷ cleared)

-- A thread that runs is waited for, a descriptor that is open is closed.
abbrev join_one : Bool → Thread → Journal → Journal
join_one true thread log = join_thread thread ∷ log
join_one false thread log = log

abbrev close_one : Option ℕ → Journal → Journal
close_one none log = log
close_one (some fd) log = close_fd fd ∷ log

unfoldable pub functionfs_close : FunctionFsDevice → Journal → FunctionFsDevice × Journal
functionfs_close dev log = (
  record dev {
    configured = false;
    device_open = false;
    ep0_thread_spawned = false;
    out_thread_spawned = false;
    in_thread_spawned = false;
    ep0_fd = none;
    ep_in_fd = none;
    ep_out_fd = none;
  },
  teardown_gadget_dir (
      close_one dev.ep_out_fd (
        close_one dev.ep_in_fd (
          close_one dev.ep0_fd (
            join_one dev.in_thread_spawned in_loop (
              join_one dev.out_thread_spawned out_loop
                (join_one dev.ep0_thread_spawned ep0_loop log)))))),
)
