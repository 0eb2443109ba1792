-- ===== src/Emulation.antt =====
-- src/main.cpp, the settings of the daemon: what it emulates, through which backend, and how it
-- hides the physical controller, with the words that the configuration and the replies use.
use ds4_translator.Base.{Bool, true, false, ◌||◌, not, Bytes}
use ds4_translator.Base.Text.{text}

pub data ControllerType : Type 0 where
  ds4 dualsense none hidden : ControllerType

pub data HideMethod : Type 0 where
  legacy unbind : HideMethod

pub data BackendType : Type 0 where
  uhid functionfs : BackendType

pub ControllerType-discrete : Discrete ControllerType
ControllerType-discrete = hlevel

-- `==` of C++ on the enumerations
abbrev pub is_ds4 : ControllerType → Bool
is_ds4 ds4 = true
is_ds4 dualsense = false
is_ds4 none = false
is_ds4 hidden = false

abbrev pub is_dualsense : ControllerType → Bool
is_dualsense ds4 = false
is_dualsense dualsense = true
is_dualsense none = false
is_dualsense hidden = false

abbrev pub is_none : ControllerType → Bool
is_none ds4 = false
is_none dualsense = false
is_none none = true
is_none hidden = false

abbrev pub is_hidden : ControllerType → Bool
is_hidden ds4 = false
is_hidden dualsense = false
is_hidden none = false
is_hidden hidden = true

abbrev pub same_type : ControllerType → ControllerType → Bool
same_type ds4 t = is_ds4 t
same_type dualsense t = is_dualsense t
same_type none t = is_none t
same_type hidden t = is_hidden t

abbrev pub is_functionfs : BackendType → Bool
is_functionfs uhid = false
is_functionfs functionfs = true

abbrev pub same_backend : BackendType → BackendType → Bool
same_backend uhid b = not (is_functionfs b)
same_backend functionfs b = is_functionfs b

abbrev pub is_unbind : HideMethod → Bool
is_unbind legacy = false
is_unbind unbind = true

abbrev pub same_method : HideMethod → HideMethod → Bool
same_method legacy m = not (is_unbind m)
same_method unbind m = is_unbind m

unfoldable pub controller_type_emulates : ControllerType → Bool
controller_type_emulates type = is_ds4 type || is_dualsense type

unfoldable pub controller_type_hides_physical : ControllerType → Bool
controller_type_hides_physical type = not (is_none type)

unfoldable pub controller_type_name : ControllerType → Bytes
controller_type_name ds4 = text "DualShock 4"
controller_type_name dualsense = text "DualSense"
controller_type_name hidden = text "Hidden"
controller_type_name none = text "None"

unfoldable pub controller_type_config_str : ControllerType → Bytes
controller_type_config_str ds4 = text "ds4"
controller_type_config_str dualsense = text "dualsense"
controller_type_config_str hidden = text "hidden"
controller_type_config_str none = text "none"

unfoldable pub hide_method_config_str : HideMethod → Bytes
hide_method_config_str unbind = text "unbind"
hide_method_config_str legacy = text "legacy"

unfoldable pub backend_type_name : BackendType → Bytes
backend_type_name functionfs = text "functionfs"
backend_type_name uhid = text "uhid"

unfoldable pub backend_type_config_str : BackendType → Bytes
backend_type_config_str functionfs = text "functionfs"
backend_type_config_str uhid = text "uhid"
