-- ===== src/Tee/Tests.antt =====
-- A run of the verifier, against a service that echoes a nonce of its own.
use ronak_agentk_runtime.Base.{ℕ, suc, String, true, some, List, [], ◌∷◌, ok, refl, ◌==◌}
use ronak_agentk_runtime.Tee.Verifier.{
  AttestationQuote, AttestationResponse, AttestationResult, answered, ecdsa, Library,
  verify_attestation,
}
use ronak_agentk_runtime.Tee.Attested.{IsAttested, verify_attestation-IsAttested}

abbrev quote : AttestationQuote
quote = record {
  nonce = "n1";
  agent_name = "a";
  namespace = "default";
  timestamp = "t";
  tee_provider = "tdx";
  measurements = "m";
}

abbrev response : AttestationResponse
response = record { quote = quote; signature = "s"; public_key = "own"; verified = true }

abbrev zeros : ℕ → List ℕ
zeros ℕ.zero = []
zeros (suc n) = 0 ∷ zeros n

-- Only the key "root" verifies.
abbrev library : Library
library = record {
  Ecdsa = String;
  pem_decode = λ s. some s;
  parse_pkix = λ s. ok (ecdsa s);
  hex_decode = λ s. some (zeros 64);
  hex_encode = λ s. s;
  sha256 = λ s. s;
  ecdsa_verify = λ key hash r s. key == "root";
  marshal_request = λ q. ok "{}";
  marshal_quote = λ q. q.nonce;
  decode_response = λ body. ok response;
  post = λ url body. answered 200 "reply";
}

abbrev positive : AttestationResult
positive = record { verified = true; quote = quote; digest = "n1"; error_message = "" }

verify_attestation-IsAttested_example : IsAttested library ("root" ∷ []) "n1" quote
unfolding verify_attestation
verify_attestation-IsAttested_example =
    verify_attestation-IsAttested library "n1" "https://tee" "a" "default" ("root" ∷ []) positive
      refl refl
