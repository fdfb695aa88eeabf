-- ===== src/Wire/Tests.antt =====
-- Packets at concrete bytes.
use inferno_esp32_p.Wire.{audio_parse, audio_magic, ◌∷◌, be32, ts_to_samples}
use inferno_esp32_p.Wire.Headers.{audio_parse_encoded, ts_to_samples-injective}
use inferno_esp32_p.Prelude.{List, replicate, ◌≡◌, [], arith, none, ℕ, refl, ◌++◌, ◌+◌, some}

abbrev buffer : List ℕ
buffer = replicate 64 7

audio_parse_encoded_example :
    audio_parse (audio_magic ∷ be32 1000 ++ be32 47999 ++ 1 ∷ 2 ∷ 3 ∷ []) (9 + 3)
    ≡ some (record {
      seconds = 1000;
      subsec_samples = 47999;
      samples = 1 ∷ 2 ∷ 3 ∷ [];
      sample_bytes = 3;
    })
audio_parse_encoded_example =
    audio_parse_encoded 1000 47999 (1 ∷ 2 ∷ 3 ∷ []) (omega arith) (omega arith) (omega arith)

ts_to_samples-injective_example :
    (ts_to_samples 1000 5 48000 ≡ 48000005) × (◌≡◌ {A = ℕ} 1000 1000) × (◌≡◌ {A = ℕ} 5 5)
ts_to_samples-injective_example =
    ts_to_samples-injective 1000 5 1000 5 48000 (omega arith) (omega arith) (omega arith)
      (omega arith) (omega arith) refl

wrong_magic : audio_parse (replicate 20 3) 20 ≡ none
unfolding audio_parse
wrong_magic = refl
