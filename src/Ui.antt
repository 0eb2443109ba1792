-- ===== src/Ui.antt =====
-- ui/src/ipcclient.cpp and ui/src/daemoncontroller.cpp: the commands that the window sends, one at a
-- time, and what their replies change. Signals to the views are left out.
pub mod Between
pub mod Replies
use ds4_translator.Base.{
  ℕ, suc, ◌-◌, Bool, true, false, not, ◌&&◌, ◌||◌, Option, none, some, List, [], ◌∷◌, ◌++◌, Bytes,
  ltb, is_some, ◌==◌, if◌then◌else◌,
}
use ds4_translator.Base.Text.{text, empty, starts_with, ◌===◌}
use ds4_translator.Base.Scanf.{ℤ}
use ds4_translator.Client.{
  Built, built, failed, build_set_type, build_set_backend, build_set_name, build_set_hide_method,
}
use ds4_translator.Client.Led.{build_led}
use ds4_translator.Client.Status.{trim_response}

-- What connecting, writing the command and setting the descriptor non-blocking came to. The last two
-- errors leave a descriptor open.
pub data Attempt : Type 0 where
  no_socket : Bytes → Attempt
  not_ready : ℕ → Bytes → Attempt
  connected : ℕ → Attempt

pub record Reply : Type 0 where
  pub command : Bytes
  pub ok : Bool
  pub response : Bytes

-- What the window shows of the replies. `status` is the last response that `applyStatus` was given.
pub record View : Type 0 where
  pub online : Bool
  pub last_message : Bytes
  pub last_message_is_error : Bool
  pub status : Bytes

-- `IpcClient` and `DaemonController`. `attempts` counts the calls of `connect_socket`; `sent`,
-- `replies`, `opened` and `closed` record what was asked for, the signals `replyReady` and the
-- descriptors, in this order.
pub record Ui : Type 0 where
  pub queue : List Bytes
  pub current : Bytes
  pub in_flight : Bool
  pub buffer : Bytes
  pub fd : Option ℕ
  pub timer : Bool
  pub pending_commands : ℕ
  pub interactions : ℕ
  pub view : View
  pub attempts : ℕ
  pub sent : List Bytes
  pub replies : List Reply
  pub opened : List ℕ
  pub closed : List ℕ

abbrev pub fresh : Ui
fresh = record {
  queue = [];
  current = [];
  in_flight = false;
  buffer = [];
  fd = none;
  timer = false;
  pending_commands = 0;
  interactions = 0;
  view = record { online = false; last_message = []; last_message_is_error = false; status = [] };
  attempts = 0;
  sent = [];
  replies = [];
  opened = [];
  closed = [];
}

abbrev pub status_command : Bytes
status_command = text "status"

unfoldable pub is_hardware_test : Bytes → Bool
unfolding ◌===◌ starts_with
is_hardware_test command = command === text "identify" || starts_with (text "led") command

-- The commands that `m_pendingCommands` counts.
unfoldable pub is_counted : Bytes → Bool
unfolding ◌===◌ is_hardware_test
is_counted command = not (command === status_command) && not (is_hardware_test command)

abbrev pub set_message : Bytes → Bool → View → View
set_message message is_error v = record v {
  last_message = message;
  last_message_is_error = is_error;
}

-- An answer takes away the banner of an error.
abbrev pub set_online : Bool → View → View
set_online online v =
    let set = record v { online = online } in
    if not v.online && online && v.last_message_is_error then set_message [] false set else set

abbrev pub is_error : Bytes → Bool
is_error response = starts_with (text "Error") response

-- The branches of `onReplyReady`, without the refresh that the last one sends.
unfoldable pub on_failed : Reply → View → View
unfolding ◌===◌
on_failed r v =
    let off = set_online false v in
    if not (r.command === status_command) || empty off.last_message
    then set_message r.response true off
    else off

unfoldable pub on_answer : Reply → View → View
unfolding ◌===◌ starts_with is_hardware_test
on_answer r v =
    let on = set_online true v in
    if is_hardware_test r.command
    then (if is_error r.response || r.command === text "identify"
        then set_message r.response (is_error r.response) on
        else on)
    else if r.command === status_command
    then record on { status = r.response }
    else set_message r.response (is_error r.response) on

-- `m_pendingCommands` is an `int`; that it is above 0 here is a result of Ui/Replies.
unfoldable pub note_reply : Reply → Ui → Ui
note_reply r u = record u {
  pending_commands = if is_counted r.command then u.pending_commands - 1 else u.pending_commands;
  view = if not r.ok then on_failed r u.view else on_answer r u.view;
}

abbrev pub asks_status : Reply → Bool
asks_status r = r.ok && is_counted r.command

abbrev pub held : Option ℕ → List ℕ
held none = []
held (some fd) = fd ∷ []

abbrev pub close_connection : Ui → Ui
close_connection u = record u { timer = false; fd = none; closed = u.closed ++ held u.fd }

-- `finish` up to the signal.
unfoldable pub settle : Reply → Ui → Ui
settle r u =
    let shut = close_connection u in
    note_reply r (record shut {
      in_flight = false;
      current = [];
      buffer = [];
      replies = shut.replies ++ r ∷ [];
    })

abbrev pub reply_to : Ui → Bool → Bytes → Reply
reply_to u ok response = record { command = u.current; ok = ok; response = response }

-- The error, if the attempt failed.
abbrev pub begin : Attempt → Ui → Ui × Option Bytes
begin (no_socket error) u = (u, some error)
begin (not_ready fd error) u = (record u { fd = some fd; opened = u.opened ++ fd ∷ [] }, some error)
begin (connected fd) u =
    (record u { fd = some fd; opened = u.opened ++ fd ∷ []; timer = true }, none)

abbrev pub take_first : Bytes → List Bytes → Ui → Ui
take_first command rest u = record u {
  queue = rest;
  current = command;
  buffer = [];
  in_flight = true;
  attempts = suc u.attempts;
}

-- `startNext` from a queue, while nothing is in flight. A failed reply sends no command, so
-- `onReplyReady` is `note_reply` there.
unfoldable pub start_from : (ℕ → Attempt) → List Bytes → Ui → Ui
start_from world [] u = record u { queue = [] }
start_from world (command ∷ rest) u =
    let (begun, error) = begin (world u.attempts) (take_first command rest u) in
    elim error [
      | none ↦ begun
      | some e ↦ start_from world rest (settle (reply_to begun false e) begun)
    ]

unfoldable pub start_next : (ℕ → Attempt) → Ui → Ui
start_next world u = if u.in_flight then u else start_from world u.queue u

-- `IpcClient::send`
unfoldable pub send : (ℕ → Attempt) → Bytes → Ui → Ui
send world command u =
    start_next world (record u { queue = u.queue ++ command ∷ []; sent = u.sent ++ command ∷ [] })

unfoldable pub send_command : (ℕ → Attempt) → Bytes → Ui → Ui
send_command world command u = send world command (record u {
  pending_commands = if is_counted command then suc u.pending_commands else u.pending_commands;
})

unfoldable pub finish : (ℕ → Attempt) → Bool → Bytes → Ui → Ui
finish world ok response u =
    let r = reply_to u ok response in
    let settled = settle r u in
    start_next world (if asks_status r then send_command world status_command settled else settled)

pub data Read : Type 0 where
  chunk : Bytes → Read
  again eof : Read
  error : Bytes → Read

unfoldable pub on_readable : (ℕ → Attempt) → List Read → Ui → Ui
on_readable world [] u = u
on_readable world (chunk bytes ∷ reads) u =
    let more = on_readable world reads (record u { buffer = u.buffer ++ bytes }) in
    if not u.in_flight then u else more
on_readable world (again ∷ reads) u = u
on_readable world (error e ∷ reads) u = if not u.in_flight then u else finish world false e u
on_readable world (eof ∷ reads) u =
    if not u.in_flight
    then u
    else if empty u.buffer
    then finish world false (text "No response from daemon (connection closed).") u
    else finish world true (trim_response u.buffer) u

unfoldable pub on_timeout : (ℕ → Attempt) → Bytes → Ui → Ui
on_timeout world message u = if not u.in_flight then u else finish world false message u

abbrev pub is_busy : Ui → Bool
is_busy u = u.in_flight || not (elim u.queue [ [] ↦ true | c ∷ rest ↦ false ])

unfoldable pub refresh_status : (ℕ → Attempt) → Ui → Ui
refresh_status world u =
    if is_busy u then u else if ltb 0 u.interactions then u else send_command world status_command u

-- No builder makes an empty line.
unfoldable pub send_built_command : (ℕ → Attempt) → Built → Ui → Ui
send_built_command world (failed message) u = record u { view = set_message message true u.view }
send_built_command world (built command) u =
    if empty command
    then record u { view = set_message [] true u.view }
    else send_command world command u

abbrev pub begin_interaction : Ui → Ui
begin_interaction u = record u { interactions = suc u.interactions }

abbrev pub end_interaction : Ui → Ui
end_interaction u = record u { interactions = u.interactions - 1 }

-- What the views ask for.
pub data Request : Type 0 where
  set_type set_hide_method reset_name : Bytes → Request
  set_backend set_name : Bytes → Bytes → Request
  test_led : ℤ → ℤ → ℤ → ℤ → ℤ → Request
  identify reset_led : Request

unfoldable pub line_of : Request → Built
line_of (set_type type) = build_set_type type
line_of (set_backend controller backend) = build_set_backend controller backend
line_of (set_name controller name) = build_set_name controller name
line_of (reset_name controller) = build_set_name controller (text "--reset")
line_of identify = built (text "identify")
line_of (test_led red green blue left right) = build_led red green blue left right
line_of reset_led = built (text "led --reset")
line_of (set_hide_method method) = build_set_hide_method method

-- What the event loop of the window calls. `readable` has what the reads came to, up to one that is
-- not data; `poll` is the timer of the refresh.
pub data Event : Type 0 where
  asks : Request → Event
  readable : List Read → Event
  times_out : Bytes → Event
  poll interaction_begins interaction_ends : Event

unfoldable pub on_event : (ℕ → Attempt) → Event → Ui → Ui
on_event world (asks request) u = send_built_command world (line_of request) u
on_event world (readable reads) u = on_readable world reads u
on_event world (times_out message) u = on_timeout world message u
on_event world poll u = refresh_status world u
on_event world interaction_begins u = begin_interaction u
on_event world interaction_ends u = end_interaction u

abbrev pub run : (ℕ → Attempt) → List Event → Ui → Ui
run world [] u = u
run world (e ∷ es) u = run world es (on_event world e u)

-- The constructors: a refresh is sent at once.
abbrev pub start : (ℕ → Attempt) → Ui
start world = refresh_status world fresh
