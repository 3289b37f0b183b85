-- ===== src/Tee/Verifier.antt =====
-- internal/tee/attestation_verifier.go. The network and Go's crypto, encoding and JSON packages are
-- one record.
use ronak_agentk_runtime.Base.{
  ℕ, String, Bool, false, not, Option, none, some, List, [], ◌∷◌, length, take, drop, ◌==◌, eqb,
  is_empty, non_empty, itoa, if◌then◌else◌, Result, ok, err,
}
use Prim.Native.String.{◌++◌}

pub record AttestationRequest : Type 0 where
  pub nonce : String
  pub agent_name : String
  pub namespace : String

pub record AttestationQuote : Type 0 where
  pub nonce : String
  pub agent_name : String
  pub namespace : String
  pub timestamp : String
  pub tee_provider : String
  pub measurements : String

pub record AttestationResponse : Type 0 where
  pub quote : AttestationQuote
  pub signature : String
  pub public_key : String
  pub verified : Bool

pub record AttestationResult : Type 0 where
  pub verified : Bool
  pub quote : AttestationQuote
  pub digest : String
  pub error_message : String

-- What a POST gives: an error, or a status and a body.
pub data HttpReply : Type 0 where
  unreachable : String → HttpReply
  answered : ℕ → String → HttpReply

-- A key of x509: an ECDSA one or another.
pub data PublicKey (Ecdsa : Type 0) : Type 0 where
  ecdsa : Ecdsa → PublicKey Ecdsa
  other : PublicKey Ecdsa

pub record Library : Type 1 where
  pub Ecdsa : Type 0
  pub pem_decode : String → Option String
  pub parse_pkix : String → Result (PublicKey Ecdsa)
  pub hex_decode : String → Option (List ℕ)
  pub hex_encode : String → String
  pub sha256 : String → String
  -- ecdsa.Verify of a hash, with r and s as their bytes
  pub ecdsa_verify : Ecdsa → String → List ℕ → List ℕ → Bool
  pub marshal_request : AttestationRequest → Result String
  pub marshal_quote : AttestationQuote → String
  pub decode_response : String → Result AttestationResponse
  pub post : String → String → HttpReply

abbrev no_quote : AttestationQuote
no_quote = record {
  nonce = "";
  agent_name = "";
  namespace = "";
  timestamp = "";
  tee_provider = "";
  measurements = "";
}

-- The other fields of a struct literal are left zero.
abbrev pub refused : String → AttestationResult
refused message = record {
  verified = false;
  quote = no_quote;
  digest = "";
  error_message = message;
}

-- The first trusted key, where one is given and not empty, and else the response's.
unfoldable pub choose_key : List String → String → String
choose_key [] response_key = response_key
choose_key (trusted ∷ _) response_key = if non_empty trusted then trusted else response_key

module _ (l : Library) where
  open l use {
    Ecdsa, pem_decode, parse_pkix, hex_decode, hex_encode, sha256, ecdsa_verify, marshal_request,
    marshal_quote, decode_response, post,
  }

  abbrev as_ecdsa : Result (PublicKey Ecdsa) → Result Ecdsa
  as_ecdsa (ok (ecdsa key)) = ok key
  as_ecdsa (ok other) = err "not an ECDSA public key"
  as_ecdsa (err m) = err ("failed to parse public key: " ++ m)

  unfoldable pub parse_public_key : String → Result Ecdsa
  parse_public_key pem = elim (pem_decode pem) [
    | none ↦ err "failed to decode PEM block"
    | some block ↦ as_ecdsa (parse_pkix block)
  ]

  abbrev pub verify_bytes : Ecdsa → String → Option (List ℕ) → Bool
  verify_bytes key data' none = false
  verify_bytes key data' (some bytes) =
      if not (eqb (length bytes) 64)
      then false
      else ecdsa_verify key (sha256 data') (take 32 bytes) (take 32 (drop 32 bytes))

  unfoldable pub verify_ecdsa_signature : Ecdsa → String → String → Bool
  verify_ecdsa_signature key data' sig_hex = verify_bytes key data' (hex_decode sig_hex)

  unfoldable pub compute_quote_digest : AttestationQuote → String
  compute_quote_digest quote = hex_encode (sha256 (marshal_quote quote))

  -- From the parsed key to the result.
  abbrev pub verified_with : AttestationResponse → Result Ecdsa → AttestationResult
  verified_with resp (err m) = refused ("invalid public key: " ++ m)
  verified_with resp (ok key) =
      let verified = verify_ecdsa_signature key (marshal_quote resp.quote) resp.signature in
      record {
        verified = verified;
        quote = resp.quote;
        digest = compute_quote_digest resp.quote;
        error_message = if verified then "" else "ECDSA signature verification failed";
      }

  abbrev pub check_response :
      String → List String → Result AttestationResponse → Result AttestationResult
  check_response nonce trusted (err m) = err ("failed to decode attestation response: " ++ m)
  check_response nonce trusted (ok resp) =
      if resp.quote.nonce == nonce
      then ok (verified_with resp (parse_public_key (choose_key trusted resp.public_key)))
      else ok (refused "nonce mismatch — possible replay attack")

  abbrev pub check_reply : String → List String → HttpReply → Result AttestationResult
  check_reply nonce trusted (unreachable m) =
      ok (refused ("attestation service unreachable: " ++ m))
  check_reply nonce trusted (answered status body) =
      if eqb status 200
      then check_response nonce trusted (decode_response body)
      else ok (refused ("attestation service returned " ++ itoa status ++ ": " ++ body))

  abbrev pub ask : String → String → List String → Result String → Result AttestationResult
  ask endpoint nonce trusted (err m) = err ("failed to marshal request: " ++ m)
  ask endpoint nonce trusted (ok body) =
      check_reply nonce trusted (post (endpoint ++ "/attest") body)

  -- The nonce is what rand.Read gives, in hexadecimal; `err` is its error.
  abbrev pub with_nonce :
      String → String → String → List String → Result String → Result AttestationResult
  with_nonce endpoint agent_name namespace trusted (err m) = err ("failed to generate nonce: " ++ m)
  with_nonce endpoint agent_name namespace trusted (ok nonce) =
      ask endpoint nonce trusted
        (marshal_request (record { nonce = nonce; agent_name = agent_name; namespace = namespace }))

  unfoldable pub verify_attestation :
      Result String → String → String → String → List String → Result AttestationResult
  unfolding parse_public_key verify_ecdsa_signature compute_quote_digest choose_key
  verify_attestation random endpoint agent_name namespace trusted =
      if is_empty endpoint
      then ok (refused "no attestation endpoint configured")
      else with_nonce endpoint agent_name namespace trusted random
