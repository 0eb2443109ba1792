-- ===== src/Tests/Uhids.antt =====
-- The theorems at concrete inputs: replies to the host, and the commands of the button tester.
use ds4_translator.Base.{◌≡◌, some, Bytes, arith, true}
use ds4_translator.Ctl.{UiState, input_command}
use ds4_translator.Ctl.Sent.{asked, input_command_understood}
use ds4_translator.Daemon.Commands.{input, parse_command, words}
use ds4_translator.Daemon.Execute.{parse_input}
use ds4_translator.Emulation.{ds4, dualsense}
use ds4_translator.Report.{zero_common, zero_touches}
use ds4_translator.Report.Emit.{ds4_payload, dualsense_payload}
use ds4_translator.Uhid.Descriptors.{ds4_usb_rdesc, dualsense_usb_rdesc}
use ds4_translator.Uhid.Replies.{Sizes, reports-Sizes}

reports-Sizes_example :
    Sizes ds4 (ds4_payload zero_common 1 zero_touches true) ds4_usb_rdesc 0x02 0x12 0xa3 9
    × Sizes dualsense
        (dualsense_payload 7 zero_common 1 zero_touches true)
        dualsense_usb_rdesc
        0x05
        0x09
        0x20
        9
reports-Sizes_example = reports-Sizes 7 zero_common 1 zero_touches true 9

-- L2, R2 and the touchpad, the hat to the right.
abbrev pressed : UiState
pressed = record { buttons = 0x20C0; dpad = 2 }

input_command_understood_example :
    (args : Bytes) × (parse_command (input_command pressed) ≡ input args)
    × (parse_input (words args) ≡ some (asked pressed))
input_command_understood_example = input_command_understood pressed (omega arith) (omega arith)
