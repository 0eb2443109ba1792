-- ===== src/FunctionFs/Tables.antt =====
-- src/functionfs-backend.c, the tables of `build_feature_report`, apart from those of src/main.cpp.
use ds4_translator.Base.{[], ◌∷◌, ◌++◌, Bytes, replicate}
use ds4_translator.Base.Text.{text}

abbrev pub ds4_cal : Bytes
ds4_cal =
    0x00 ∷ 0x00 ∷ 0x00 ∷ 0x00 ∷ 0x00 ∷ 0x00 ∷ 0x00 ∷ 0x04 ∷ 0x00 ∷ 0xfc ∷ 0x00 ∷ 0x04 ∷ 0x00 ∷ 0xfc
    ∷ 0x00 ∷ 0x04 ∷ 0x00 ∷ 0xfc ∷ 0x00 ∷ 0x04 ∷ 0x00 ∷ 0x04 ∷ 0x00 ∷ 0x20 ∷ 0x00 ∷ 0xe0 ∷ 0x00
    ∷ 0x20 ∷ 0x00 ∷ 0xe0 ∷ 0x00 ∷ 0x20 ∷ 0x00 ∷ 0xe0 ∷ 0x00 ∷ 0x00 ∷ []

abbrev pub mac_info : Bytes
mac_info =
    0xe8 ∷ 0x47 ∷ 0x3a ∷ 0xd6 ∷ 0xe7 ∷ 0x74 ∷ 0x08 ∷ 0x25 ∷ 0x00 ∷ 0x1e ∷ 0x00 ∷ 0xee ∷ 0x74 ∷ 0xd0
    ∷ 0xbc ∷ []

abbrev pub cal_data : Bytes
cal_data =
    0x05 ∷ 0xff ∷ 0xfc ∷ 0xff ∷ 0xfe ∷ 0xff ∷ 0x83 ∷ 0x22 ∷ 0x78 ∷ 0xdd ∷ 0x92 ∷ 0x22 ∷ 0x5f ∷ 0xdd
    ∷ 0x95 ∷ 0x22 ∷ 0x6d ∷ 0xdd ∷ 0x1c ∷ 0x02 ∷ 0x1c ∷ 0x02 ∷ 0xf2 ∷ 0x1f ∷ 0xed ∷ 0xdf ∷ 0xe3
    ∷ 0x20 ∷ 0xda ∷ 0xe0 ∷ 0xee ∷ 0x1f ∷ 0xdf ∷ 0xdf ∷ 0x0b ∷ 0x00 ∷ 0x00 ∷ 0x00 ∷ 0x00 ∷ 0x00
    ∷ 0x00 ∷ []

abbrev pub fw_data : Bytes
fw_data =
    0x20 ∷ 0x4a ∷ 0x75 ∷ 0x6e ∷ 0x20 ∷ 0x31 ∷ 0x39 ∷ 0x20 ∷ 0x32 ∷ 0x30 ∷ 0x32 ∷ 0x33 ∷ 0x31 ∷ 0x34
    ∷ 0x3a ∷ 0x34 ∷ 0x37 ∷ 0x3a ∷ 0x33 ∷ 0x34 ∷ 0x03 ∷ 0x00 ∷ 0x44 ∷ 0x00 ∷ 0x08 ∷ 0x02 ∷ 0x00
    ∷ 0x01 ∷ 0x36 ∷ 0x00 ∷ 0x00 ∷ 0x01 ∷ 0xc1 ∷ 0xc8 ∷ 0x00 ∷ 0x00 ∷ 0x00 ∷ 0x00 ∷ 0x00 ∷ 0x00
    ∷ 0x00 ∷ 0x00 ∷ 0x00 ∷ 0x00 ∷ 0x00 ∷ 0x00 ∷ 0x54 ∷ 0x01 ∷ 0x00 ∷ 0x00 ∷ 0x14 ∷ 0x00 ∷ 0x00
    ∷ 0x00 ∷ 0x0b ∷ 0x00 ∷ 0x01 ∷ 0x00 ∷ 0x06 ∷ 0x00 ∷ 0x00 ∷ 0x00 ∷ 0x00 ∷ 0x00 ∷ []

abbrev pub pairing_data : Bytes
pairing_data =
    0x09 ∷ 0xe8 ∷ 0x47 ∷ 0x3a ∷ 0xd6 ∷ 0xe7 ∷ 0x74 ∷ 0x08 ∷ 0x25 ∷ 0x00 ∷ 0x1e ∷ 0x00 ∷ 0xee ∷ 0x74
    ∷ 0xd0 ∷ 0xbc ∷ 0x00 ∷ 0x00 ∷ 0x00 ∷ 0x00 ∷ []

-- Bytes 1 to 42 of the version report.
abbrev pub ds4_version : Bytes
ds4_version =
    text "Mar 25 2016"
    ++ replicate 5 0
    ++ text "12:00:00"
    ++ replicate 8 0
    ++ 0x00 ∷ 0x01 ∷ 0x38 ∷ 0x54 ∷ 0x01 ∷ 0x00 ∷ 0x00 ∷ 0x00 ∷ 0x33 ∷ 0x20 ∷ []
