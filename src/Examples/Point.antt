-- ===== src/Examples/Point.antt =====
-- A small operating point for the examples: two decoders and 200 tokens a batch.
use puls_rfc.Prelude.{ℕ, true, pos, List, [], ◌∷◌}
use puls_rfc.Double.{Whole}
use puls_rfc.OperatingPoint.{OperatingPoint}
use puls_rfc.Steering.{Decoder, PrefillReq}
use puls_rfc.Node.{NodeDecoder}
use puls_rfc.RequestSource.{PulledRequest}

abbrev pub point : OperatingPoint Whole
point = record {
  ctx_balance = pos 100;
  decode_count_target = 2;
  kv_operating_target = 200;
  prefill_tokens = 4;
  prefill_kv_work_target = 40;
  ffn_batch = 6;
  balance_time_us = pos 25;
  decode_pool = 5;
  prefill_pool = 3;
  age_cap = 3;
  idle_band = pos 0;
  node_max = 5;
  node_min = 4;
  edge_band = pos 10;
  node_footprint_cap = 600;
  instance_a_tb = pos 3;
  hbm_capacity_tb = pos 4;
  hbm_fits = true;
}

abbrev pub decoder : ℕ → ℕ → Decoder
decoder kv wait = record { kv_length = kv; wait = wait }

abbrev pub decoders : List Decoder
decoders = decoder 50 0 ∷ decoder 90 1 ∷ decoder 300 4 ∷ decoder 120 3 ∷ decoder 100 0 ∷ []

abbrev pub prefill : ℕ → ℕ → ℕ → PrefillReq
prefill prompt processed wait = record { prompt = prompt; processed = processed; wait = wait }

abbrev pub prefills : List PrefillReq
prefills = prefill 10 9 0 ∷ prefill 20 5 3 ∷ prefill 30 12 1 ∷ []

abbrev pub resident : ℕ → ℕ → NodeDecoder
resident prompt dtot = record { prompt = prompt; dtot = dtot; dec = 0; wait = 0 }

abbrev pub residents : List NodeDecoder
residents = resident 90 1 ∷ resident 100 2 ∷ resident 110 1 ∷ resident 80 3 ∷ resident 120 2 ∷ []

abbrev pub request : ℕ → ℕ → PulledRequest
request prompt dtot = record { prompt = prompt; dtot = dtot }

abbrev pub waiting : List PulledRequest
waiting = request 70 2 ∷ request 95 1 ∷ request 5000 2 ∷ request 105 3 ∷ []
