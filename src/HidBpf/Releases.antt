-- ===== src/HidBpf/Releases.antt =====
-- Every failure of the opening gives back what it has taken, and so does the closing.
use ds4_translator.Base.{
  ℕ, false, not, Option, none, some, List, [], ◌∷◌, ◌++◌, Bytes, drop, if-both, ==_refl,
}
use ds4_translator.Base.Text.{text, empty}
use ds4_translator.Base.Resources.{
  Act, Resource, descriptor, Clean, Holds, nothing_held, take_up, give_back, give_first,
  Holds-Clean,
}
use ds4_translator.HidBpf.{
  System, program, ring_buffer, pump_thread, TransportState, Opened, open_ring, open_pair,
  open_node, open_map, hid_bpf_transport_open, lookup, hid_bpf_transport_close, find_hidraw_node,
  find_pinned_ringbuf, bpf_object_path,
}

-- The acts up to a failure, or up to the closing of the transport that was opened.
abbrev pub closed : Opened → List Act
closed o = elim o.transport [
  | none ↦ o.acts
  | some t ↦ (hid_bpf_transport_close t.sv1 (t ∷ []) o.acts).1
]

abbrev GivesBack : Opened → Type 0
GivesBack o = Holds [] (closed o)

-- What a transport holds while it runs.
abbrev held_by : TransportState → List Resource
held_by t =
    pump_thread
    ∷ ring_buffer
    ∷ descriptor t.sv1
    ∷ descriptor t.sv0
    ∷ descriptor t.hidraw_fd
    ∷ descriptor t.ringbuf_map_fd
    ∷ program
    ∷ []

close-Holds :
    (t : TransportState) (acts : List Act)
    → Holds (held_by t) acts
    → Holds [] ((hid_bpf_transport_close t.sv1 (t ∷ []) acts).1)
unfolding hid_bpf_transport_close lookup
close-Holds t acts h =
    let sv1 = descriptor t.sv1 in
    let sv0 = descriptor t.sv0 in
    let hidraw = descriptor t.hidraw_fd in
    rw (==_refl t.sv1, hid_bpf_transport_close)
      (give_first program (
        give_first sv1 (
          give_back (sv1 ∷ []) (program ∷ []) sv0 (
            give_back (sv1 ∷ sv0 ∷ []) (program ∷ []) hidraw (
              give_back (sv1 ∷ sv0 ∷ hidraw ∷ []) (program ∷ []) (descriptor t.ringbuf_map_fd)
                (give_first ring_buffer (give_first pump_thread h)))))))

module _ (sys : System) (path name : Bytes) where
  open_ring-GivesBack :
      (map_fd hidraw_fd : ℕ) (acts : List Act) (pair : Option (ℕ × ℕ))
      → Holds (descriptor hidraw_fd ∷ descriptor map_fd ∷ program ∷ []) acts
      → GivesBack (open_ring sys path name map_fd hidraw_fd acts pair)
  unfolding open_ring
  open_ring-GivesBack map_fd hidraw_fd acts none h =
      give_first program (give_first (descriptor map_fd) (give_first (descriptor hidraw_fd) h))
  open_ring-GivesBack map_fd hidraw_fd acts (some (sv0, sv1)) h =
      let paired = take_up (descriptor sv1) (take_up (descriptor sv0) h) in
      if-both GivesBack (not sys.ring_buffer_new)
        (give_first program (
          give_first (descriptor map_fd) (
            give_first (descriptor hidraw_fd) (
              give_first (descriptor sv1) (
                give_back (descriptor sv1 ∷ [])
                  (descriptor hidraw_fd ∷ descriptor map_fd ∷ program ∷ []) (descriptor sv0)
                  paired)))))
        (close-Holds
          (record {
            hidraw_fd = hidraw_fd;
            ringbuf_map_fd = map_fd;
            sv0 = sv0;
            sv1 = sv1;
            stop_flag = false;
            sysfs_path = path;
          })
          _ (take_up pump_thread (take_up ring_buffer paired)))

  open_pair-GivesBack :
      (map_fd : ℕ) (acts : List Act) (hidraw_fd : Option ℕ)
      → Holds (descriptor map_fd ∷ program ∷ []) acts
      → GivesBack (open_pair sys path name map_fd acts hidraw_fd)
  unfolding open_pair
  open_pair-GivesBack map_fd acts none h = give_first program (give_first (descriptor map_fd) h)
  open_pair-GivesBack map_fd acts (some hidraw_fd) h =
      open_ring-GivesBack map_fd hidraw_fd _ sys.socketpair (take_up (descriptor hidraw_fd) h)

module _ (sys : System) (path : Bytes) where
  open_node-GivesBack :
      (acts : List Act) (map_fd : Option ℕ)
      → Holds (program ∷ []) acts
      → GivesBack (open_node sys path acts map_fd)
  unfolding open_node
  open_node-GivesBack acts none h = give_first program h
  open_node-GivesBack acts (some map_fd) h =
      let with_map = take_up (descriptor map_fd) h in
      if-both GivesBack (empty (find_hidraw_node sys path))
        (give_first program (give_first (descriptor map_fd) with_map))
        (open_pair-GivesBack sys path (drop 5 (find_hidraw_node sys path)) map_fd _
          (sys.open_file (find_hidraw_node sys path)) with_map)

-- Whatever the system answers to each call, all that the opening has acquired (the loaded program, the
-- descriptors, the ring buffer, the thread) is given back exactly once and never before it is held:
-- by the opening itself where it fails, and by the closing of the transport where it succeeds.
pub open-Clean :
    (sys : System) (installed hid_id : Bytes)
    → Clean (closed (hid_bpf_transport_open sys installed hid_id))
unfolding hid_bpf_transport_open open_map
open-Clean sys installed hid_id =
    let path = text "/sys/bus/hid/devices/" ++ hid_id in
    let obj_path = bpf_object_path sys installed in
    let pin_path = find_pinned_ringbuf sys hid_id in
    let loaded = take_up program nothing_held in
    Holds-Clean (
      if-both GivesBack (not (sys.exists obj_path)) nothing_held (
        if-both GivesBack (not (sys.loader (text "add" ∷ path ∷ obj_path ∷ []))) nothing_held (
          if-both GivesBack (empty pin_path) (give_first program loaded)
            (open_node-GivesBack sys path _ (sys.bpf_obj_get pin_path) loaded))))
