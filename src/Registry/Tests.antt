-- ===== src/Registry/Tests.antt =====
-- A registry of one entry, and the theorem at its input.
use depotflux_demo.Prelude.{ℕ, ◌≡◌, refl, true, some, [], ◌∷◌, ok}
use depotflux_demo.Runs.Json.{dict, end}
use depotflux_demo.Registry.{
  parsed_json, Descriptor, InputFiles, find_descriptor, descriptor, path_for, check_bytes, verify,
  payload_at, load,
}

abbrev depot : Descriptor
depot = record { reference = "depot"; sha256 = "d"; filename = "depot.json"; fleet_size = 8 }

-- Every file has the hash "d" and holds an empty object.
abbrev files : InputFiles ℕ
files = record {
  FilePath = Unit {0};
  resolve = λ _. tt;
  is_below_root = λ _. true;
  is_file = λ _. true;
  digest_at = λ _. some "d";
  json_at = λ _. parsed_json (dict end);
}

loaded : load files files (depot ∷ []) "depot" "d" ≡ ok end
unfolding load payload_at verify descriptor find_descriptor path_for check_bytes
loaded = refl
