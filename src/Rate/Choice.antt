-- ===== src/Rate/Choice.antt =====
-- Which rate a boot ends with.
use inferno_esp32_p.Rate.{
  Profile, Build, Boot, rate_select, rate_request, wanted, find_profile, complete, rate_supported,
  nvs_rate, latch,
}
use inferno_esp32_p.Prelude.{ℕ, ◌≡◌, ◌*◌, some, ◌⊎◌, arith, inr, false, inl, true, ◌∙◌, ap, refl}

supported_cases : (hz : ℕ) → rate_supported hz ≡ true → (hz ≡ 48000) ⊎ (hz ≡ 96000)
unfolding rate_supported find_profile
supported_cases hz h = ground arith

rate_request_stored :
    (build : Build) (hz stored : ℕ)
    → rate_request build hz ≡ inr stored
    → (build.pinned ≡ false) × (stored ≡ hz) × (rate_supported hz ≡ true)
unfolding rate_request
rate_request_stored build hz stored h = ground arith

wanted_stored :
    (build : Build) (boot : Boot) (hz : ℕ)
    → build.pinned ≡ false
    → boot.nvs_hz ≡ some hz
    → (hz ≡ 48000) ⊎ (hz ≡ 96000)
    → wanted build boot ≡ hz
unfolding wanted nvs_rate
wanted_stored build boot hz p e (inl a) = rw (p, e, a) refl
wanted_stored build boot hz p e (inr a) = rw (p, e, a) refl

latches :
    (hz : ℕ)
    → (hz ≡ 48000) ⊎ (hz ≡ 96000)
    → (p : Profile) × (latch hz ≡ some p) × (p.hz ≡ hz) × (p.fpp * 3000 ≡ hz)
unfolding latch find_profile complete
latches hz (inl a) = rw a (_, refl, refl, refl)
latches hz (inr a) = rw a (_, refl, refl, refl)

-- Where the build does not pin the rate, a rate that the controller asks for and gets is the one of
-- the next boot, whatever the pin says, with 3000 packets a second.
pub rate_request-rate_select :
    (build : Build) (hz stored : ℕ) (boot : Boot)
    → rate_request build hz ≡ inr stored
    → boot.nvs_hz ≡ some stored
    → (p : Profile) × (rate_select build boot ≡ some p) × (p.hz ≡ hz) × (p.fpp * 3000 ≡ hz)
unfolding rate_select
rate_request-rate_select build hz stored boot h e =
    let (unpinned, same, supported) = rate_request_stored build hz stored h in
    let two = supported_cases hz supported in
    let (p, l, is, packets) = latches hz two in
    (p, ap latch (wanted_stored build boot hz unpinned (e ∙ ap some same) two) ∙ l, is, packets)
