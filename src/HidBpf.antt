-- ===== src/HidBpf.antt =====
-- src/hid-bpf-transport.cpp, the transport that reads a Bluetooth controller through a HID-BPF
-- program: how it is opened and closed, and a round of its thread.
pub mod Releases
pub mod Pump
use ds4_translator.Base.{
  ℕ, Bool, true, false, not, ◌&&◌, ◌||◌, Option, none, some, List, [], ◌∷◌, ◌++◌, Bytes, map, drop,
  ltb, ◌==◌, if◌then◌else◌,
}
use ds4_translator.Base.Text.{text, empty}
use ds4_translator.Base.Resources.{Act, acquire, release, Resource, descriptor, named}

-- What the system answers: the files there are, the entries of a directory, whether `udev-hid-bpf`
-- ends with status 0, and what is opened.
pub record System : Type 0 where
  pub exists : Bytes → Bool
  pub entries : Bytes → List Bytes
  pub loader : List Bytes → Bool
  pub bpf_obj_get : Bytes → Option ℕ
  pub open_file : Bytes → Option ℕ
  pub socketpair : Option (ℕ × ℕ)
  pub ring_buffer_new : Bool

-- What is held beside descriptors.
abbrev pub program : Resource
program = named (text "program")

abbrev pub ring_buffer : Resource
ring_buffer = named (text "ring buffer")

abbrev pub pump_thread : Resource
pump_thread = named (text "pump thread")

-- The installed object, or the one of the build tree; `installed` is set by the build.
unfoldable pub bpf_object_path : System → Bytes → Bytes
bpf_object_path sys installed =
    if sys.exists installed
    then installed
    else if sys.exists (text "build/hid-bpf-transport.bpf.o")
    then text "build/hid-bpf-transport.bpf.o"
    else installed

abbrev pub pinned_char : ℕ → ℕ
pinned_char c = if c == 58 || c == 46 then 95 else c

abbrev pub slash : Bytes → Bytes → Bytes
slash path name = path ++ 47 ∷ name

-- The first entry that holds the map.
unfoldable pub first_pinned : System → Bytes → List Bytes → Bytes
first_pinned sys dir [] = []
first_pinned sys dir (entry ∷ entries) =
    let rest = first_pinned sys dir entries in
    let candidate = slash (slash dir entry) (text "ds4_reports") in
    if sys.exists candidate then candidate else rest

unfoldable pub find_pinned_ringbuf : System → Bytes → Bytes
unfolding first_pinned
find_pinned_ringbuf sys hid_id =
    let dir = text "/sys/fs/bpf/hid/" ++ map pinned_char hid_id in
    first_pinned sys dir (sys.entries dir)

abbrev pub first_node : List Bytes → Bytes
first_node [] = []
first_node (entry ∷ entries) = text "/dev/" ++ entry

unfoldable pub find_hidraw_node : System → Bytes → Bytes
find_hidraw_node sys sysfs_path = first_node (sys.entries (sysfs_path ++ text "/hidraw"))

-- `struct TransportState`
pub record TransportState : Type 0 where
  pub hidraw_fd : ℕ
  pub ringbuf_map_fd : ℕ
  pub sv0 : ℕ
  pub sv1 : ℕ
  pub stop_flag : Bool
  pub sysfs_path : Bytes

-- What was acquired and released, the newest first, and the transport, whose `sv1` is the descriptor that is
-- returned and the key in the registry. `hidraw_name` is the caller's, empty where it is not written.
pub record Opened : Type 0 where
  pub hidraw_name : Bytes
  pub acts : List Act
  pub transport : Option TransportState

abbrev pub failed : Bytes → List Act → Opened
failed hidraw_name acts = record { hidraw_name = hidraw_name; acts = acts; transport = none }

-- Once the socket pair is there, or is refused.
unfoldable pub open_ring : System → Bytes → Bytes → ℕ → ℕ → List Act → Option (ℕ × ℕ) → Opened
open_ring sys sysfs_path name map_fd hidraw_fd acts none =
    failed name
      (release program ∷ release (descriptor map_fd) ∷ release (descriptor hidraw_fd) ∷ acts)
open_ring sys sysfs_path name map_fd hidraw_fd acts (some (sv0, sv1)) =
    let paired = acquire (descriptor sv1) ∷ acquire (descriptor sv0) ∷ acts in
    if not sys.ring_buffer_new
    then failed name (
        release program
        ∷ release (descriptor map_fd)
        ∷ release (descriptor hidraw_fd)
        ∷ release (descriptor sv1)
        ∷ release (descriptor sv0)
        ∷ paired)
    else record {
      hidraw_name = name;
      acts = acquire pump_thread ∷ acquire ring_buffer ∷ paired;
      transport = some (record {
        hidraw_fd = hidraw_fd;
        ringbuf_map_fd = map_fd;
        sv0 = sv0;
        sv1 = sv1;
        stop_flag = false;
        sysfs_path = sysfs_path;
      });
    }

-- Once the node is open, or is not.
unfoldable pub open_pair : System → Bytes → Bytes → ℕ → List Act → Option ℕ → Opened
unfolding open_ring
open_pair sys sysfs_path name map_fd acts none =
    failed [] (release program ∷ release (descriptor map_fd) ∷ acts)
open_pair sys sysfs_path name map_fd acts (some hidraw_fd) =
    open_ring sys sysfs_path name map_fd hidraw_fd (acquire (descriptor hidraw_fd) ∷ acts)
      sys.socketpair

-- Once the map is open, or is not.
unfoldable pub open_node : System → Bytes → List Act → Option ℕ → Opened
unfolding open_pair find_hidraw_node
open_node sys sysfs_path acts none = failed [] (release program ∷ acts)
open_node sys sysfs_path acts (some map_fd) =
    let with_map = acquire (descriptor map_fd) ∷ acts in
    let hidraw_dev = find_hidraw_node sys sysfs_path in
    if empty hidraw_dev
    then failed [] (release program ∷ release (descriptor map_fd) ∷ with_map)
    else open_pair sys sysfs_path (drop 5 hidraw_dev) map_fd with_map (sys.open_file hidraw_dev)

unfoldable pub open_map : System → Bytes → Bytes → List Act → Opened
unfolding open_node find_pinned_ringbuf
open_map sys hid_id sysfs_path acts =
    let pin_path = find_pinned_ringbuf sys hid_id in
    if empty pin_path
    then failed [] (release program ∷ acts)
    else open_node sys sysfs_path acts (sys.bpf_obj_get pin_path)

unfoldable pub hid_bpf_transport_open : System → Bytes → Bytes → Opened
unfolding bpf_object_path open_map
hid_bpf_transport_open sys installed hid_id =
    let sysfs_path = text "/sys/bus/hid/devices/" ++ hid_id in
    let obj_path = bpf_object_path sys installed in
    if not (sys.exists obj_path)
    then failed [] []
    else if not (sys.loader (text "add" ∷ sysfs_path ∷ obj_path ∷ []))
    then failed [] []
    else open_map sys hid_id sysfs_path (acquire program ∷ [])

-- The registry maps a descriptor to its transport.
unfoldable pub lookup : ℕ → List TransportState → Option TransportState
lookup fd [] = none
lookup fd (t ∷ ts) = let rest = lookup fd ts in if fd == t.sv1 then some t else rest

unfoldable pub erase : ℕ → List TransportState → List TransportState
erase fd [] = []
erase fd (t ∷ ts) = let rest = erase fd ts in if fd == t.sv1 then ts else t ∷ rest

-- The thread is stopped and waited for; a descriptor that is not in the registry is only closed.
unfoldable pub hid_bpf_transport_close :
    ℕ → List TransportState → List Act → List TransportState × List Act
unfolding lookup erase
hid_bpf_transport_close fd registry acts = elim (lookup fd registry) [
  | none ↦ (registry, release (descriptor fd) ∷ acts)
  | some t ↦ (
    erase fd registry,
    release program
        ∷ release (descriptor fd)
        ∷ release (descriptor t.sv0)
        ∷ release (descriptor t.hidraw_fd)
        ∷ release (descriptor t.ringbuf_map_fd)
        ∷ release ring_buffer
        ∷ release pump_thread
        ∷ acts,
  )
]
