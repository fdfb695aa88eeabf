-- ===== src/Rate/Tests.antt =====
-- Witnesses for the rate.
use inferno_esp32_p.Rate.{
  rate_request, Profile, Build, Boot, rate_select, rate_supported, find_profile,
}
use inferno_esp32_p.Prelude.{false, some, true, ◌≡◌, refl, ◌*◌}
use inferno_esp32_p.Rate.Choice.{rate_request-rate_select}

abbrev board : Build
board = record { pinned = false; default_hz = 48000; has_pin = true }

abbrev open_pin : Boot
open_pin = record { pin_level = some true; nvs_hz = some 96000 }

-- The pin says 48 kHz, the controller 96.
rate_request-rate_select_example :
    (p : Profile) × (rate_select board open_pin ≡ some p) × (p.hz ≡ 96000) × (p.fpp * 3000 ≡ 96000)
unfolding rate_request rate_supported find_profile
rate_request-rate_select_example = rate_request-rate_select board 96000 96000 open_pin refl refl
