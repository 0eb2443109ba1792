-- ===== src/Tests/Statuses.antt =====
-- The theorems at concrete inputs: the status text.
use ds4_translator.Base.{arith, ◌≡◌, refl, List, [], ◌∷◌}
use ds4_translator.Base.Text.{text, trim_front, trim_back, ◌===◌}
use ds4_translator.Client.Status.{StatusField, IsStatus, status_value, trim_value}

abbrev fields : List StatusField
fields =
    record { key = text "Backend"; value = text "uhid" }
    ∷ record { key = text "Battery"; value = text "50% (charging: no)" }
    ∷ []

fields-IsStatus_backend : IsStatus (record { key = text "Backend"; value = text "uhid" })
unfolding trim_value trim_front trim_back
fields-IsStatus_backend = record {
  key_plain = (refl, (refl, (refl, (refl, (refl, (refl, (refl, tt)))))));
  line_plain = ground arith;
  trimmed = refl;
}

fields-IsStatus_battery :
    IsStatus (record { key = text "Battery"; value = text "50% (charging: no)" })
unfolding trim_value trim_front trim_back
fields-IsStatus_battery = record {
  key_plain = (refl, (refl, (refl, (refl, (refl, (refl, (refl, tt)))))));
  line_plain = ground arith;
  trimmed = refl;
}

status_value_battery : status_value fields (text "Battery") ≡ text "50% (charging: no)"
unfolding status_value ◌===◌
status_value_battery = refl
