-- ===== src/FunctionFs/Ends.antt =====
-- What `functionfs_init` leaves of the device and of the gadget's directory, whatever the system
-- answers.
use ds4_translator.Base.{Bool, true, false, ◌≡◌, ◌⊎◌, List, [], ◌∷◌, ◌++◌, is_some, all}
use ds4_translator.Base.Text.{text, ◌===◌}
use ds4_translator.FunctionFs.{FunctionFsDevice}
use ds4_translator.FunctionFs.Gadget.{
  Call, look, make_directory, mount_at, System, Journal, succeeds_or_there, gadget,
  teardown_gadget_dir, Init,
}

-- What is left: a device that runs with its three descriptors, or one that is not open and has no
-- thread, with the directory taken down by the last calls, unless it was never made.
abbrev pub Runs : Init → Type 0
Runs r =
    (r.result ≡ true)
    × (r.dev.device_open ≡ true)
    × (is_some r.dev.ep0_fd ≡ true)
    × (is_some r.dev.ep_in_fd ≡ true)
    × (is_some r.dev.ep_out_fd ≡ true)

abbrev pub NoThread : FunctionFsDevice → Type 0
NoThread dev =
    (dev.ep0_thread_spawned ≡ false)
    × (dev.out_thread_spawned ≡ false)
    × (dev.in_thread_spawned ≡ false)

abbrev pub GaveUp : Init → Type 0
GaveUp r =
    (r.result ≡ false)
    × (r.dev.device_open ≡ false)
    × NoThread r.dev
    × ((log : Journal) × (r.log ≡ teardown_gadget_dir log))

-- What the stages before the threads keep.
abbrev Closed : FunctionFsDevice → Type 0
Closed dev = (dev.device_open ≡ false) × NoThread dev

abbrev Ends : Init → Type 0
Ends r = Runs r ⊎ GaveUp r

-- A call that makes nothing in the directory of the gadget.
abbrev pub only_looks : Call → Bool
only_looks (look path) = true
only_looks (mount_at source path) = source === text "configfs"
only_looks call = false

-- The calls since the start only look and mount the file system.
abbrev pub Looked : Journal → Journal → Type 0
Looked log log' = (calls : List Call) × (log' ≡ calls ++ log) × (all only_looks calls ≡ true)

-- The last call was refused, the one that makes the directory, behind those that clear away an old one.
abbrev pub Refused : System → Journal → Type 0
Refused sys log' =
    (before : Journal) × (log' ≡ make_directory (gadget []) ∷ teardown_gadget_dir before)
    × (succeeds_or_there (sys (teardown_gadget_dir before) (make_directory (gadget []))) ≡ false)

abbrev pub NeverMade : System → Journal → Init → Type 0
NeverMade sys log r =
    (r.result ≡ false)
    × (r.dev.device_open ≡ false)
    × NoThread r.dev
    × (is_some r.dev.ep0_fd ≡ false)
    × (Looked log r.log ⊎ Refused sys r.log)
