-- ===== src/Daemon/Execute.antt =====
-- src/main.cpp, the commands on the control socket that act on the devices, with their answers.
pub mod Change
pub mod Run
use ds4_translator.Base.{
  ℕ, Bool, true, false, not, ◌||◌, Option, none, some, List, [], ◌∷◌, Bytes, is_some, if◌then◌else◌,
  ltb, u8, u16, ◌>>=◌,
}
use ds4_translator.Base.Text.{text}
use ds4_translator.Emulation.{ControllerType}
use ds4_translator.Output.{OutputState}
use ds4_translator.Synth.{SyntheticState, neutral}
use ds4_translator.Daemon.{Daemon, emit, synthetic, send_output, blink}
use ds4_translator.Daemon.Changes.{say_neutral}
use ds4_translator.Daemon.Commands.{Answer, done, already, refused, words, parse_unsigned_token}
use ds4_translator.Daemon.Physical.{drop_physical, restore_suppressed_bluetooth}
use ds4_translator.Daemon.Virtual.{
  Creation, vdev_configured, create_virtual_device, destroy_virtual_device,
}

unfoldable pub create_standalone : Creation → ControllerType → Daemon → Daemon × Answer
unfolding vdev_configured create_virtual_device
create_standalone k want d =
    if is_some d.phy_fd
    then (d, refused)
    else if d.standalone_virtual
    then (d, already)
    else if vdev_configured d
    then (d, refused)
    else (let made = create_virtual_device want k d in
        if made.1
        then (
          record made.0 {
            standalone_virtual = true;
            target_type = want;
            synth_state = neutral;
            device_open = false;
          },
          done,
        )
        else (made.0, refused))

unfoldable pub destroy_standalone : Daemon → Daemon × Answer
unfolding say_neutral destroy_virtual_device
destroy_standalone d = if not d.standalone_virtual then (d, refused) else (
  record (destroy_virtual_device (say_neutral d)) {
    pending_destroy = false;
    standalone_virtual = false;
    device_open = false;
  },
  done,
)

unfoldable pub release_by_command : Daemon → Daemon × Answer
unfolding say_neutral destroy_virtual_device drop_physical restore_suppressed_bluetooth
release_by_command d =
    if not (is_some d.phy_fd) then (record d { ignore_physical = true }, done) else (
      record (restore_suppressed_bluetooth
          (drop_physical (destroy_virtual_device (say_neutral d)))) {
            pending_destroy = false;
            device_open = false;
            ignore_physical = true;
          },
      done,
    )

-- The eight numbers of `input`, the buttons in base 16; each is cast to its field's width.
unfoldable pub parse_input : List Bytes → Option SyntheticState
unfolding parse_unsigned_token
parse_input (t0 ∷ t1 ∷ t2 ∷ t3 ∷ t4 ∷ t5 ∷ t6 ∷ t7 ∷ []) = do
  buttons ← parse_unsigned_token t0 16
  dpad ← parse_unsigned_token t1 10
  lx ← parse_unsigned_token t2 10
  ly ← parse_unsigned_token t3 10
  rx ← parse_unsigned_token t4 10
  ry ← parse_unsigned_token t5 10
  l2 ← parse_unsigned_token t6 10
  r2 ← parse_unsigned_token t7 10
  some (record {
    buttons = u16 buttons;
    dpad = u8 dpad;
    lx = u8 lx;
    ly = u8 ly;
    rx = u8 rx;
    ry = u8 ry;
    l2_analog = u8 l2;
    r2_analog = u8 r2;
  })
parse_input toks = none

unfoldable pub feed_input : Bytes → Daemon → Daemon × Answer
unfolding parse_input words
feed_input args d =
    if not d.standalone_virtual then (d, refused) else elim (parse_input (words args)) [
      | none ↦ (d, refused)
      | some s ↦ (emit (synthetic d.target_type s) (record d { synth_state = s }), done)
    ]

-- The five numbers of `led`, none above 255.
unfoldable pub parse_led : List Bytes → Option OutputState
unfolding parse_unsigned_token
parse_led (t0 ∷ t1 ∷ t2 ∷ t3 ∷ t4 ∷ []) = do
  red ← parse_unsigned_token t0 10
  green ← parse_unsigned_token t1 10
  blue ← parse_unsigned_token t2 10
  left ← parse_unsigned_token t3 10
  right ← parse_unsigned_token t4 10
  if ltb 255 red || ltb 255 green || ltb 255 blue || ltb 255 left || ltb 255 right
      then none
      else some (record { motor_left = left; motor_right = right; r = red; g = green; b = blue })
parse_led toks = none

-- The remembered colours stay: the next report of the host takes the controller back.
unfoldable pub feed_led : Bytes → Daemon → Daemon × Answer
unfolding parse_led words
feed_led args d = elim (parse_led (words args)) [
  | none ↦ (d, refused)
  | some s ↦
      if not (is_some d.phy_fd) then (d, refused) else (emit (send_output d.is_bluetooth s) d, done)
]

unfoldable pub reset_led : Daemon → Daemon × Answer
reset_led d =
    if not (is_some d.phy_fd)
    then (d, refused)
    else (emit (send_output d.is_bluetooth d.cur) d, done)

-- `dup_ok` is `dup(phy_fd) >= 0`.
unfoldable pub blink_light : Bool → Daemon → Daemon × Answer
blink_light dup_ok d =
    if not (is_some d.phy_fd)
    then (d, refused)
    else if not dup_ok
    then (d, refused)
    else (emit (blink d.is_bluetooth d.cur) d, done)
