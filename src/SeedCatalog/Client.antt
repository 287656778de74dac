-- ===== src/SeedCatalog/Client.antt =====
-- scripts/seed-catalog/main.go: the token and the requests of `client`. Keycloak, the gateway, the clock
-- and the object store are the world, which each call changes; `none` is a call that gives an error.
-- Times are nanoseconds. A token's life is taken to fit in a `time.Duration`, 292 years.
pub mod Laws
use Prim.Native.String
use go_folio.Prelude.{
  ℕ, suc, ◌*◌, ℤ, pos, negsuc, ◌+ℤ◌, ◌-ℤ◌, sub_ℕ, ltb_ℤ, eqb, Bool, true, false, not, ◌&&◌, Option,
  none, some, List, [], ◌∷◌, String, ◌==◌, if◌then◌else◌,
}

pub record TokenResponse : Type 0 where
  pub access_token : String
  pub expires_in : ℤ

-- An answer of Keycloak: its status, and the token if the body decodes.
pub record TokenReply : Type 0 where
  pub status : ℕ
  pub token : Option TokenResponse

pub record CreateProductPayload : Type 0 where
  pub product_code : String
  pub title : String
  pub slug : String
  pub short_description : String
  pub department : String
  pub category : String
  pub active : Bool

pub record CreateVariantPayload : Type 0 where
  pub sku : String
  pub color_name : String
  pub color_slug : String
  pub primary_color_hex : String
  pub retail_price : ℤ
  pub currency : String
  pub active : Bool

pub data Payload : Type 0 where
  product_payload : CreateProductPayload → Payload
  variant_payload : CreateVariantPayload → Payload
  primary_image : String → Payload

pub data Method : Type 0 where
  post patch : Method

pub record Request : Type 0 where
  pub method : Method
  pub url : String
  pub authorization : String
  pub payload : Payload

-- What a body is to `json.Unmarshal` into a createdProduct: nothing to read, an id, or an error.
pub data Content : Type 0 where
  empty undecodable : Content
  created : ℤ → Content

-- An answer of the gateway; `none` is a body that breaks off.
pub record Reply : Type 0 where
  pub status : ℕ
  pub content : Option Content

pub record Entry : Type 0 where
  pub name : String
  pub is_dir : Bool

pub record World (W : Type 0) : Type 0 where
  pub now : W → ℤ × W
  pub post_form : (endpoint : String) (form : List (String × String)) → W → Option TokenReply × W
  pub send : Request → W → Option Reply × W
  pub read_dir : String → W → Option (List Entry) × W
  -- os.Open, Stat and PutObject of an object's name and a file's path, with its size and type
  pub put_object : String → String → W → Bool × W

pub record Config : Type 0 where
  pub gateway : String
  pub keycloak_url : String
  pub realm : String
  pub username : String
  pub password : String

-- The client's token, in its world.
pub record Client (W : Type 0) : Type 0 where
  pub access_token : String
  pub token_expires : ℤ
  pub world : W

abbrev pub concat : List String → String
concat [] = ""
concat (t ∷ ts) = String.◌++◌ t (concat ts)

unfoldable pub seconds : ℤ → ℤ
seconds (pos n) = pos (n * 1000000000)
seconds (negsuc n) = sub_ℕ 0 (suc n * 1000000000)

-- What `doJSON` returns: an error with a status, or a status with the id that was decoded, if any.
pub data Outcome : Type 0 where
  failed : ℕ → Outcome
  answered : ℕ → ℤ → Outcome

module _ {W : Type 0} (env : World W) (config : Config) where
  unfoldable pub token_of : Option TokenReply → Option TokenResponse
  token_of none = none
  token_of (some r) = if eqb r.status 200 then r.token else none

  unfoldable pub fetch_token : W → Option TokenResponse × W
  unfolding token_of
  fetch_token w =
      let endpoint =
        concat (
          config.keycloak_url ∷ "/realms/" ∷ config.realm ∷ "/protocol/openid-connect/token"
          ∷ []) in
      let form =
        ("grant_type", "password")
        ∷ ("client_id", "gateway")
        ∷ ("username", config.username)
        ∷ ("password", config.password)
        ∷ [] in
      let (reply, w1) = env.post_form endpoint form w in (token_of reply, w1)

  -- Behind the look at the clock: `true` where there is a token to use.
  unfoldable pub renewed : Option TokenResponse × W → Client W → Bool × Client W
  unfolding seconds
  renewed (none, w) c = (false, record c { world = w })
  renewed (some tok, w) c =
      let (t, w1) = env.now w in
      (
        true,
        record {
          access_token = tok.access_token;
          token_expires = t +ℤ seconds (tok.expires_in -ℤ pos 30);
          world = w1;
        },
      )

  -- Go looks at the clock only where there is a token.
  unfoldable pub is_fresh : Client W → Bool × Client W
  is_fresh c =
      if c.access_token == ""
      then (false, c)
      else let (t, w) = env.now c.world in (ltb_ℤ t c.token_expires, record c { world = w })

  unfoldable pub ensured : Bool × Client W → Bool × Client W
  unfolding renewed fetch_token
  ensured (true, c) = (true, c)
  ensured (false, c) = renewed (fetch_token c.world) c

  unfoldable pub ensure_token : Client W → Bool × Client W
  unfolding ensured is_fresh
  ensure_token c = ensured (is_fresh c)

  unfoldable pub read_content : ℕ → Option Content → Bool → Outcome
  read_content status none wanted = failed status
  read_content status (some empty) wanted = answered status (pos 0)
  read_content status (some undecodable) wanted =
      if wanted then failed status else answered status (pos 0)
  read_content status (some (created id)) wanted = answered status (if wanted then id else pos 0)

  -- What is done with the answer; `again` is what a 401 leads to.
  unfoldable pub handled :
      Bool → (Client W → Outcome × Client W) → Option Reply × W → Client W → Outcome × Client W
  unfolding read_content
  handled wanted again (none, w) c = (failed 0, record c { world = w })
  handled wanted again (some r, w) c =
      if eqb r.status 401
      then again (record c { world = w })
      else (read_content r.status r.content wanted, record c { world = w })

  unfoldable pub request : Method → String → Payload → Client W → Request
  request method path payload c = record {
    method = method;
    url = String.◌++◌ config.gateway path;
    authorization = String.◌++◌ "Bearer " c.access_token;
    payload = payload;
  }

  unfoldable pub sent :
      Method
      → String
      → Payload
      → Bool
      → (Client W → Outcome × Client W)
      → Bool × Client W
      → Outcome × Client W
  unfolding handled request
  sent method path payload wanted again (false, c) = (failed 0, c)
  sent method path payload wanted again (true, c) =
      handled wanted again (env.send (request method path payload c) c.world) c

  unfoldable pub attempt :
      Method
      → String
      → Payload
      → Bool
      → (Client W → Outcome × Client W)
      → Client W
      → Outcome × Client W
  unfolding sent ensure_token
  attempt method path payload wanted again c =
      sent method path payload wanted again (ensure_token c)

  -- The last argument is `retried`; `wanted` is whether `out` is given.
  unfoldable pub do_json_with_retry :
      Method → String → Payload → Bool → Bool → Client W → Outcome × Client W
  unfolding attempt
  do_json_with_retry method path payload wanted true =
      attempt method path payload wanted (λ c. (failed 0, c))
  do_json_with_retry method path payload wanted false = attempt method path payload wanted (λ c.
      attempt method path payload wanted (λ d. (failed 0, d)) (record c { access_token = "" }))

  unfoldable pub do_json : Method → String → Payload → Bool → Client W → Outcome × Client W
  unfolding do_json_with_retry
  do_json method path payload wanted = do_json_with_retry method path payload wanted false
