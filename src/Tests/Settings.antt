-- ===== src/Tests/Settings.antt =====
-- The theorems at concrete inputs: the synthetic controller and the saved settings.
use ds4_translator.Base.{◌≡◌, some, [], arith}
use ds4_translator.Base.Text.{text}
use ds4_translator.Buttons.{decode_buttons, decode_dpad}
use ds4_translator.Emulation.{ds4, dualsense, none as none_type, legacy, unbind, uhid, functionfs}
use ds4_translator.Synth.{SyntheticState, neutral, build_synthetic_common}
use ds4_translator.Synth.RoundTrip.{build_synthetic_common_round_trip}
use ds4_translator.Config.{
  Settings, read_config, read_backend_config, read_hide_method_config, read_name_config,
  write_config,
}
use ds4_translator.Config.RoundTrip.{write_config_round_trip}

-- Three buttons and a stick to the left.
abbrev pressed : SyntheticState
pressed = record neutral { buttons = 0x2401; lx = 0 }

build_synthetic_common_round_trip_example :
    (decode_buttons
        (build_synthetic_common pressed 3).0.buttons0
        (build_synthetic_common pressed 3).0.buttons1
        (build_synthetic_common pressed 3).0.buttons2
      ≡ 0x2401)
    × (decode_dpad (build_synthetic_common pressed 3).0.buttons0 ≡ 8)
    × ((build_synthetic_common pressed 3).0.x ≡ 0)
    × ((build_synthetic_common pressed 3).0.y ≡ 128)
    × ((build_synthetic_common pressed 3).0.rx ≡ 128)
    × ((build_synthetic_common pressed 3).0.ry ≡ 128)
    × ((build_synthetic_common pressed 3).0.z ≡ 0)
    × ((build_synthetic_common pressed 3).0.rz ≡ 0)
build_synthetic_common_round_trip_example =
    build_synthetic_common_round_trip pressed 3 (omega arith)

abbrev chosen : Settings
chosen = record {
  target_type = ds4;
  backend_for_ds4 = functionfs;
  backend_for_dualsense = uhid;
  hide_method = unbind;
  name_ds4 = text "Pad One";
  name_dualsense = [];
}

write_config_round_trip_example :
    (read_config none_type (some (write_config chosen)) ≡ ds4)
    × (read_backend_config ds4 uhid (some (write_config chosen)) ≡ functionfs)
    × (read_backend_config dualsense uhid (some (write_config chosen)) ≡ uhid)
    × (read_hide_method_config legacy (some (write_config chosen)) ≡ unbind)
    × (read_name_config ds4 (some (write_config chosen)) ≡ text "Pad One")
    × (read_name_config dualsense (some (write_config chosen)) ≡ [])
write_config_round_trip_example =
    write_config_round_trip chosen none_type uhid legacy (ground arith) tt
