-- ===== src/Admin/Storage.antt =====
-- admin-api/src/storage.rs: objects of an S3 store, with requests signed by hand. The text of a response
-- is left out of an error.
use vanity_manager.Prelude.{
  ◌==◌, ◌||◌, Option, none, some, [], ◌∷◌, ◌++◌, Str, Bytes, codes, is_empty, as_bytes,
  trim_end_matches, to_string, length, if◌then◌else◌,
}
use vanity_manager.Exec.{
  Result, ok, err, missing_variable, incomplete_credentials, bad_endpoint, http_status, Exec, ◌>>=◌,
  ◌>>◌, pure, raise, lift, ok_or, Env, Method, HttpResponse,
}
use vanity_manager.Ekv.{is_success}

pub record S3Creds : Type 0 where
  pub endpoint : Str
  pub host : Str
  pub region : Str
  pub bucket : Str
  pub access_key : Str
  pub secret_key : Str

abbrev pub empty_sha256 : Str
empty_sha256 = codes "e3b0c44298fc1c149afbf4c8996fb92427ae41e4649b934ca495991b7852b855"

module _ (e : Env) where
  open e use {World, crypto, variable, url_host, now, format_amz, format_day, http_send}

  abbrev required : Str → Result Str
  required name = ok_or (variable name) (missing_variable name)

  host_of : Str → Result Str
  host_of endpoint = elim (url_host endpoint) [ some (some host) ↦ ok host | _ ↦ err bad_endpoint ]

  load_s3_variables : Exec (Unit {0}) S3Creds
  unfolding is_empty host_of
  load_s3_variables = do
    endpoint ← lift (required (codes "s3_endpoint"))
    region ← lift (required (codes "s3_region"))
    bucket ← lift (required (codes "s3_bucket"))
    access_key ← lift (required (codes "s3_access_key"))
    secret_key ← lift (required (codes "s3_secret_key"))
    if is_empty endpoint || is_empty bucket then raise incomplete_credentials else pure tt
    host ← lift (host_of endpoint)
    pure (record {
      endpoint = trim_end_matches b'/' endpoint;
      host = host;
      region = region;
      bucket = bucket;
      access_key = access_key;
      secret_key = secret_key;
    })

  unfoldable pub load_s3_creds : Result S3Creds
  unfolding load_s3_variables
  load_s3_creds = (load_s3_variables tt).0

  unfoldable pub sha256_hex : Bytes → Str
  sha256_hex data_ = crypto.hex (crypto.sha256 data_)

  abbrev newline : Str
  newline = codes "\n"

  abbrev signed_headers : Str
  signed_headers = codes "host;x-amz-content-sha256;x-amz-date"

  unfoldable pub canonical_request : S3Creds → Str → Str → Str → Str → Str
  canonical_request creds method canonical_uri payload_hash amz_date =
      let canonical_headers =
        codes "host:"
        ++ (creds.host
            ++ (codes "\nx-amz-content-sha256:"
                ++ (payload_hash ++ (codes "\nx-amz-date:" ++ (amz_date ++ newline))))) in
      method
      ++ (newline
          ++ (canonical_uri
              ++ (codes "\n\n"
                  ++ (canonical_headers
                      ++ (newline ++ (signed_headers ++ (newline ++ payload_hash)))))))

  -- The key of the signature: four steps, over the day, the region, the service and a fixed text.
  unfoldable pub signing_key : S3Creds → Str → Bytes
  signing_key creds date_stamp =
      let k_date =
        crypto.hmac_sha256 (as_bytes (codes "AWS4" ++ creds.secret_key)) (as_bytes date_stamp) in
      let k_region = crypto.hmac_sha256 k_date (as_bytes creds.region) in
      let k_service = crypto.hmac_sha256 k_region (as_bytes (codes "s3")) in
      crypto.hmac_sha256 k_service (as_bytes (codes "aws4_request"))

  -- The `Authorization` header, for the texts of a time and a day.
  unfoldable pub s3_authorization : S3Creds → Str → Str → Str → Str → Str → Str
  unfolding canonical_request signing_key sha256_hex
  s3_authorization creds method canonical_uri payload_hash amz_date date_stamp =
      let credential_scope =
        date_stamp ++ (codes "/" ++ (creds.region ++ codes "/s3/aws4_request")) in
      let string_to_sign =
        codes "AWS4-HMAC-SHA256\n"
        ++ (amz_date
            ++ (newline
                ++ (credential_scope
                    ++ (newline
                        ++ sha256_hex (
                            as_bytes (
                              canonical_request creds method canonical_uri payload_hash
                                amz_date)))))) in
      let signature =
        crypto.hex (crypto.hmac_sha256 (signing_key creds date_stamp) (as_bytes string_to_sign)) in
      codes "AWS4-HMAC-SHA256 Credential="
      ++ (creds.access_key
          ++ (codes "/"
              ++ (credential_scope
                  ++ (codes ", SignedHeaders="
                      ++ (signed_headers ++ (codes ", Signature=" ++ signature))))))

  -- The URL, the time and the header of a request that is signed now.
  unfoldable pub sign_request : S3Creds → Str → Str → Str → World → (Str × Str × Str) × World
  unfolding s3_authorization
  sign_request creds method canonical_uri payload_hash w =
      let (t, w') = now w in
      let amz_date = format_amz t in
      let authorization =
        s3_authorization creds method canonical_uri payload_hash amz_date (format_day t) in
      ((creds.endpoint ++ canonical_uri, amz_date, authorization), w')

  unfoldable pub canonical_uri : S3Creds → Str → Str
  canonical_uri creds key = codes "/" ++ (creds.bucket ++ (codes "/" ++ key))

  put_request : S3Creds → Str → Str → Bytes → Exec World HttpResponse
  unfolding sign_request canonical_uri sha256_hex
  put_request creds key content_type bytes w =
      let payload_hash = sha256_hex bytes in
      let ((full_url, amz_date, authorization), w') =
        sign_request creds (codes "PUT") (canonical_uri creds key) payload_hash w in
      http_send
        (record {
          method = Method.put;
          uri = full_url;
          headers =
              (codes "content-type", content_type)
              ∷ (codes "content-length", to_string (length bytes))
              ∷ (codes "x-amz-content-sha256", payload_hash)
              ∷ (codes "x-amz-date", amz_date)
              ∷ (codes "authorization", authorization)
              ∷ [];
          body = bytes;
        })
        w'

  get_request : S3Creds → Str → Exec World HttpResponse
  unfolding sign_request canonical_uri
  get_request creds key w =
      let ((full_url, amz_date, authorization), w') =
        sign_request creds (codes "GET") (canonical_uri creds key) empty_sha256 w in
      http_send
        (record {
          method = Method.get;
          uri = full_url;
          headers =
              (codes "x-amz-content-sha256", empty_sha256)
              ∷ (codes "x-amz-date", amz_date)
              ∷ (codes "authorization", authorization)
              ∷ [];
          body = [];
        })
        w'

  unfoldable pub put_object : Str → Str → Bytes → Exec World (Unit {0})
  unfolding put_request
  put_object key content_type bytes = do
    creds ← lift load_s3_creds
    resp ← put_request creds key content_type bytes
    if is_success resp.status then pure tt else raise (http_status key resp.status)

  unfoldable pub get_object : Str → Exec World (Option Bytes)
  unfolding get_request
  get_object key = do
    creds ← lift load_s3_creds
    resp ← get_request creds key
    if resp.status == 404
        then pure none
        else if is_success resp.status
        then pure (some resp.body)
        else raise (http_status key resp.status)
