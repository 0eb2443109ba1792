-- ===== src/UsbHid/Releases.antt =====
-- What the wired transport takes it gives back: over a failed opening, and over a whole life with the
-- watchdog in it.
use ds4_translator.Base.{
  ℕ, zero, suc, ◌+◌, ◌*◌, ◌≤◌, Bool, true, false, not, ◌||◌, ◌≡◌, refl, Option, none, some, List,
  [], ◌∷◌, ◌++◌, Bytes, if-both, ==_refl, if◌then◌else◌, Bool-cases, inl, inr, arith,
}
use ds4_translator.Base.Resources.{
  Act, acquire, release, Resource, descriptor, Clean, Holds, nothing_held, take_up, give_back,
  give_first, Holds-Clean,
}
use ds4_translator.UsbHid.{UsbDevice, HidInterface, find_target, device_still_present}
use ds4_translator.UsbHid.Transport.{
  Attempt, System, context, device_list, handle, interface_claim, threads, max_claim_attempts,
  Claim, claim_interface, TransportState, Opened, failed, open_pair, open_claim, open_handle,
  interface_of, usb_hid_transport_open, usb_hid_transport_start, watchdog_round, lookup,
  close_transport, usb_hid_transport_close,
}

-- What is held, by whether the threads run and whether the watchdog has closed the handle.
abbrev parts : Bool → Bool → Resource → Resource → List Resource
parts true true sv1 sv0 = threads ∷ sv1 ∷ sv0 ∷ context ∷ []
parts true false sv1 sv0 = threads ∷ sv1 ∷ sv0 ∷ interface_claim ∷ handle ∷ context ∷ []
parts false true sv1 sv0 = sv1 ∷ sv0 ∷ context ∷ []
parts false false sv1 sv0 = sv1 ∷ sv0 ∷ interface_claim ∷ handle ∷ context ∷ []

abbrev HeldBy : TransportState → List Act → Type 0
HeldBy t acts = Holds (parts t.started t.force_closed (descriptor t.sv1) (descriptor t.sv0)) acts

module _ (sv1 sv0 : Resource) where
  rest_back :
      {acts : List Act}
      → Holds (sv1 ∷ sv0 ∷ context ∷ []) acts
      → Holds [] (release sv1 ∷ release sv0 ∷ release context ∷ acts)
  rest_back h =
      give_first sv1 (give_back (sv1 ∷ []) [] sv0 (give_back (sv1 ∷ sv0 ∷ []) [] context h))

  all_back :
      {acts : List Act}
      → Holds (sv1 ∷ sv0 ∷ interface_claim ∷ handle ∷ context ∷ []) acts
      → Holds [] (
          release sv1
          ∷ release sv0
          ∷ release context
          ∷ release handle
          ∷ release interface_claim
          ∷ acts)
  all_back h = rest_back (
      give_back (sv1 ∷ sv0 ∷ []) (context ∷ []) handle
        (give_back (sv1 ∷ sv0 ∷ []) (handle ∷ context ∷ []) interface_claim h))

close-Holds :
    (attaches : Bool) (t : TransportState) (acts : List Act)
    → HeldBy t acts
    → Holds [] ((close_transport attaches t acts).0)
unfolding close_transport
close-Holds attaches t acts = at t.started t.force_closed
  where
    at :
        (started forced : Bool)
        → (let u = record t { started = started; force_closed = forced } in
            HeldBy u acts → Holds [] ((close_transport attaches u acts).0))
    at true true h = rest_back (descriptor t.sv1) (descriptor t.sv0) (give_first threads h)
    at true false h = all_back (descriptor t.sv1) (descriptor t.sv0) (give_first threads h)
    at false true h = rest_back (descriptor t.sv1) (descriptor t.sv0) h
    at false false h = all_back (descriptor t.sv1) (descriptor t.sv0) h

start-HeldBy :
    (t : TransportState) (acts : List Act)
    → HeldBy t acts
    → (let (u, more) = usb_hid_transport_start t acts in HeldBy u more)
unfolding usb_hid_transport_start
start-HeldBy t acts = at t.started t.force_closed
  where
    at :
        (started forced : Bool)
        → (let t' = record t { started = started; force_closed = forced } in
            HeldBy t' acts → (let (u, more) = usb_hid_transport_start t' acts in HeldBy u more))
    at true forced h = h
    at false true h = take_up threads h
    at false false h = take_up threads h

watchdog-HeldBy :
    (devices : List UsbDevice) (kernel_active : Bool) (t : TransportState) (acts : List Act)
    → HeldBy t acts
    → (let (u, more) = watchdog_round devices kernel_active t acts in HeldBy u more)
unfolding watchdog_round
watchdog-HeldBy devices kernel_active t acts = at t.started t.force_closed
  where
    at :
        (started forced : Bool)
        → (let t' = record t { started = started; force_closed = forced } in
            HeldBy t' acts
            → (let (u, more) = watchdog_round devices kernel_active t' acts in HeldBy u more))
    at true true h = h
    at false forced h = h
    at true false h =
        let sv1 = descriptor t.sv1 in
        let sv0 = descriptor t.sv0 in
        if-both (λ (r : TransportState × List Act). HeldBy r.0 r.1)
          (not (device_still_present t.bus_number t.device_address devices) || kernel_active)
          (give_back (threads ∷ sv1 ∷ sv0 ∷ []) (context ∷ []) handle
            (give_back (threads ∷ sv1 ∷ sv0 ∷ []) (handle ∷ context ∷ []) interface_claim h))
          h

-- The life of a transport: it is started, the watchdog looks at it any number of times, and it is
-- closed.
unfoldable pub watched :
    List (List UsbDevice × Bool) → TransportState → List Act → TransportState × List Act
unfolding watchdog_round
watched [] t acts = (t, acts)
watched ((devices, kernel_active) ∷ looks) t acts =
    let (u, more) = watchdog_round devices kernel_active t acts in watched looks u more

watched-HeldBy :
    (looks : List (List UsbDevice × Bool)) (t : TransportState) (acts : List Act)
    → HeldBy t acts
    → (let (u, more) = watched looks t acts in HeldBy u more)
unfolding watched
watched-HeldBy [] t acts h = h
watched-HeldBy ((devices, kernel_active) ∷ looks) t acts h =
    let next = watchdog_round devices kernel_active t acts in
    watched-HeldBy looks next.0 next.1 (watchdog-HeldBy devices kernel_active t acts h)

unfoldable pub whole_life :
    List (List UsbDevice × Bool) → Bool → TransportState → List Act → List Act
unfolding usb_hid_transport_start watched usb_hid_transport_close
whole_life looks attaches t acts =
    let (u, begun) = usb_hid_transport_start t acts in
    let (v, more) = watched looks u begun in
    (usb_hid_transport_close attaches v.sv1 (v ∷ []) more).acts

registered-Holds :
    (attaches : Bool) (t : TransportState) (acts : List Act)
    → HeldBy t acts
    → Holds [] ((usb_hid_transport_close attaches t.sv1 (t ∷ []) acts).acts)
unfolding usb_hid_transport_close lookup
registered-Holds attaches t acts h =
    rw (==_refl t.sv1, usb_hid_transport_close) (close-Holds attaches t acts h)

-- A failed opening leaves nothing held and has rebound the driver once; a transport that was opened
-- leaves nothing held after its life.
abbrev pub Ends : Bytes → List (List UsbDevice × Bool) → Bool → Opened → Type 0
Ends hid_id looks attaches o = elim o.transport [
  | none ↦ Clean o.acts × (o.binds ≡ hid_id ∷ [])
  | some t ↦ Clean (whole_life looks attaches t o.acts)
]

module _ (hid_id : Bytes) (looks : List (List UsbDevice × Bool)) (attaches : Bool) where
  life-Clean :
      (t : TransportState) (acts : List Act)
      → HeldBy t acts
      → Clean (whole_life looks attaches t acts)
  unfolding whole_life
  life-Clean t acts h =
      let begun = usb_hid_transport_start t acts in
      let more = watched looks begun.0 begun.1 in
      Holds-Clean (
        registered-Holds attaches more.0 more.1
          (watched-HeldBy looks begun.0 begun.1 (start-HeldBy t acts h)))

  open_pair-Ends :
      (dev : UsbDevice) (found : HidInterface) (acts : List Act) (pair : Option (ℕ × ℕ))
      → Holds (interface_claim ∷ handle ∷ context ∷ []) acts
      → Ends hid_id looks attaches (open_pair hid_id dev found acts pair)
  unfolding open_pair
  open_pair-Ends dev found acts none h =
      (Holds-Clean (give_first context (give_first handle (give_first interface_claim h))), refl)
  open_pair-Ends dev found acts (some (sv0, sv1)) h =
      life-Clean
        (record {
          hid_id = hid_id;
          found = found;
          sv0 = sv0;
          sv1 = sv1;
          bus_number = dev.bus_number;
          device_address = dev.device_address;
          started = false;
          force_closed = false;
        })
        _ (take_up (descriptor sv1) (take_up (descriptor sv0) h))

-- What the attempts leave held, and how long they sleep at most.
abbrev pub Claims : ℕ → Claim → Type 0
Claims bound c =
    Holds ((if c.claimed then interface_claim ∷ [] else []) ++ handle ∷ context ∷ []) c.acts
    × (c.slept ≤ bound)

-- The time slept where every attempt is lost again.
abbrev longest : ℕ → ℕ → ℕ
longest zero number = 0
longest (suc left) number = 300000 + 200000 * number + longest left (number + 1)

claim_interface-Claims :
    (left number : ℕ) (attempts : ℕ → Attempt) (acts : List Act) (slept bound : ℕ)
    → Holds (handle ∷ context ∷ []) acts
    → slept + longest left number ≤ bound
    → Claims bound (claim_interface left number attempts acts slept)
unfolding claim_interface
claim_interface-Claims zero number attempts acts slept bound h le = (h, omega arith)
claim_interface-Claims (suc left) number attempts acts slept bound h le =
    if-both (Claims bound) (not (attempts number).claims)
      (claim_interface-Claims left (number + 1) attempts acts (slept + 200000 * number) bound h
        (omega arith))
      (if-both (Claims bound) (attempts number).stays (take_up interface_claim h, (omega arith))
        (claim_interface-Claims left (number + 1) attempts
          (release interface_claim ∷ acquire interface_claim ∷ acts)
          (slept + 300000 + 200000 * number) bound
          (give_first interface_claim (take_up interface_claim h)) (omega arith)))

module _ (sys : System) (hid_id : Bytes) (looks : List (List UsbDevice × Bool))
    (attaches : Bool) where
  open_claim-Ends :
      (dev : UsbDevice) (found : HidInterface) (acts : List Act)
      → Holds (handle ∷ context ∷ []) acts
      → Ends hid_id looks attaches (open_claim sys hid_id dev found acts)
  unfolding open_claim
  open_claim-Ends dev found acts h =
      at (claim_interface max_claim_attempts 1 sys.attempt acts 0)
        (claim_interface-Claims max_claim_attempts 1 sys.attempt acts 0 3200000 h (omega arith)).0
    where
      at :
          (claim : Claim)
          → Holds
              ((if claim.claimed then interface_claim ∷ [] else []) ++ handle ∷ context ∷ [])
              claim.acts
          → Ends hid_id looks attaches (
              if not claim.claimed
              then failed hid_id (release context ∷ release handle ∷ claim.acts)
              else open_pair hid_id dev found claim.acts sys.socketpair)
      at claim h = elim (Bool-cases claim.claimed) [
        | inl e ↦
            rw e
              (open_pair-Ends hid_id looks attaches dev found claim.acts sys.socketpair (rw e at h))
        | inr e ↦ rw e ((Holds-Clean (give_first context (give_first handle (rw e at h))), refl))
      ]

  open_handle-Ends :
      (dev : Option UsbDevice) (found : Option HidInterface) (acts : List Act)
      → Holds (device_list ∷ context ∷ []) acts
      → Ends hid_id looks attaches (open_handle sys hid_id acts dev found)
  unfolding open_handle
  open_handle-Ends (some dev) (some found) acts h =
      if-both (Ends hid_id looks attaches) dev.opens
        (open_claim-Ends dev found _
          (give_back (handle ∷ []) (context ∷ []) device_list (take_up handle h)))
        (nothing_left h)
    where
      nothing_left :
          {acts : List Act}
          → Holds (device_list ∷ context ∷ []) acts
          → Clean (release context ∷ release device_list ∷ acts) × (hid_id ∷ [] ≡ hid_id ∷ [])
      nothing_left h = (Holds-Clean (give_first context (give_first device_list h)), refl)
  open_handle-Ends (some dev) none acts h =
      (Holds-Clean (give_first context (give_first device_list h)), refl)
  open_handle-Ends none found acts h =
      (Holds-Clean (give_first context (give_first device_list h)), refl)

-- Whatever libusb and the system answer: an opening that fails has given back all that it took and
-- has rebound the driver of the kernel exactly once; and where it succeeds, starting, any number of
-- looks of the watchdog and the closing give back everything exactly once and never before it is held,
-- also where the watchdog has closed the handle under the running thread.
pub usb_hid_transport_open-Ends :
    (sys : System) (hid_id : Bytes) (vid pid : ℕ) (looks : List (List UsbDevice × Bool))
    (attaches : Bool)
    → Ends hid_id looks attaches (usb_hid_transport_open sys hid_id vid pid)
unfolding usb_hid_transport_open
usb_hid_transport_open-Ends sys hid_id vid pid looks attaches =
    let target = find_target sys.canonical vid pid sys.devices in
    if-both (Ends hid_id looks attaches) (not sys.libusb_init) (Holds-Clean nothing_held, refl)
      (open_handle-Ends sys hid_id looks attaches target (interface_of target) _
        (take_up device_list (take_up context nothing_held)))

-- The claim is tried four times at most and sleeps 3.2 s at most, and it leaves the interface held
-- exactly where it says so.
pub claim_interface-bounded :
    (attempts : ℕ → Attempt) (acts : List Act)
    → Holds (handle ∷ context ∷ []) acts
    → Claims 3200000 (claim_interface max_claim_attempts 1 attempts acts 0)
claim_interface-bounded attempts acts h =
    claim_interface-Claims max_claim_attempts 1 attempts acts 0 3200000 h (omega arith)
