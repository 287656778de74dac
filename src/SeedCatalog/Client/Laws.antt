-- ===== src/SeedCatalog/Client/Laws.antt =====
-- What the client sends for one call.
use Prim.Native.String
use go_folio.Prelude.{
  ◌≡◌, refl, ◌∙◌, subst, ℕ, suc, ◌+◌, ◌≤◌, Bool, true, false, Option, none, some, List, ◌∷◌, length,
  String, ◌==◌, eqb, Bool-cases, inl, inr, arith,
}
use go_folio.SeedCatalog.Client.{
  World, Config, Client, Request, Reply, Method, Payload, TokenResponse, Outcome, is_fresh, ensured,
  ensure_token, renewed, fetch_token, handled, sent, attempt, do_json_with_retry, do_json, request,
  failed,
}

abbrev threaded : {L W A : Type 0} → (W → A × W) → L × W → A × (L × W)
threaded f x = ((f x.1).0, (x.0, (f x.1).1))

-- A world that keeps the requests it is sent, the last one first.
abbrev pub logged : {W : Type 0} → World W → World (List Request × W)
logged env = record {
  now = threaded env.now;
  post_form = λ endpoint form. threaded (env.post_form endpoint form);
  send = λ r x. ((env.send r x.1).0, (r ∷ x.0, (env.send r x.1).1));
  read_dir = λ dir. threaded (env.read_dir dir);
  put_object = λ object path. threaded (env.put_object object path);
}

abbrev pub log_of : {W : Type 0} → Client (List Request × W) → List Request
log_of c = c.world.0

-- At most so many requests of one kind, from one log to another.
pub data Sends (IsAsked : Request → Type 0) : ℕ → List Request → List Request → Type 0 where
  no_more : (n : ℕ) (l : List Request) → Sends IsAsked n l l
  one_more :
      (n : ℕ) (r : Request) (l l' : List Request)
      → IsAsked r
      → Sends IsAsked n (r ∷ l) l'
      → Sends IsAsked (suc n) l l'

pub Sends-length :
    (IsAsked : Request → Type 0) (n : ℕ) (l l' : List Request)
    → Sends IsAsked n l l'
    → length l' ≤ n + length l
Sends-length IsAsked _ _ _ (no_more n l) = omega arith
Sends-length IsAsked _ _ _ (one_more n r l l' asked rest) =
    omega (arith, Sends-length IsAsked n (r ∷ l) l' rest)

module _ {W : Type 0} (env : World W) (config : Config) where
  renewed-log :
      (tok : Option TokenResponse × (List Request × W)) (c : Client (List Request × W))
      → log_of (renewed (logged env) config tok c).1 ≡ tok.1.0
  unfolding renewed
  renewed-log (none, w) c = refl
  renewed-log (some t, w) c = refl

  ensured-log :
      (x : Bool × Client (List Request × W)) → log_of (ensured (logged env) config x).1 ≡ log_of x.1
  unfolding ensured fetch_token
  ensured-log (true, c) = refl
  ensured-log (false, c) = renewed-log (fetch_token (logged env) config c.world) c

  is_fresh-log :
      (c : Client (List Request × W)) → log_of (is_fresh (logged env) config c).1 ≡ log_of c
  unfolding is_fresh
  is_fresh-log c = elim (Bool-cases (c.access_token == "")) [
    | inl no_token ↦ rw no_token refl
    | inr token ↦ rw token refl
  ]

  ensure_token-log :
      (c : Client (List Request × W)) → log_of (ensure_token (logged env) config c).1 ≡ log_of c
  unfolding ensure_token
  ensure_token-log c = ensured-log (is_fresh (logged env) config c) ∙ is_fresh-log c

  module _ (method : Method) (path : String) (payload : Payload) (wanted : Bool) where
    abbrev pub IsFor : Request → Type 0
    IsFor r =
        (r.method ≡ method) × (r.url ≡ String.◌++◌ config.gateway path) × (r.payload ≡ payload)

    handled-Sends :
        (n : ℕ) (again : Client (List Request × W) → Outcome × Client (List Request × W))
        (reply : Option Reply × (List Request × W)) (c : Client (List Request × W))
        → ((d : Client (List Request × W)) → Sends IsFor n (log_of d) (log_of (again d).1))
        → Sends IsFor n reply.1.0 (log_of (handled (logged env) config wanted again reply c).1)
    unfolding handled
    handled-Sends n again (none, w) c h = no_more n w.0
    handled-Sends n again (some r, w) c h = elim (Bool-cases (eqb r.status 401)) [
      | inl refused ↦ rw refused (h (record c { world = w }))
      | inr other ↦ rw other (no_more n w.0)
    ]

    sent-Sends :
        (n : ℕ) (again : Client (List Request × W) → Outcome × Client (List Request × W))
        (x : Bool × Client (List Request × W))
        → ((d : Client (List Request × W)) → Sends IsFor n (log_of d) (log_of (again d).1))
        → Sends IsFor
            (suc n)
            (log_of x.1)
            (log_of (sent (logged env) config method path payload wanted again x).1)
    unfolding sent request
    sent-Sends n again (false, c) h = no_more (suc n) (log_of c)
    sent-Sends n again (true, c) h =
        let r = request (logged env) config method path payload c in
        one_more n r (log_of c) _ (refl, refl, refl)
          (handled-Sends n again ((logged env).send r c.world) c h)

    attempt-Sends :
        (n : ℕ) (again : Client (List Request × W) → Outcome × Client (List Request × W))
        (c : Client (List Request × W))
        → ((d : Client (List Request × W)) → Sends IsFor n (log_of d) (log_of (again d).1))
        → Sends IsFor
            (suc n)
            (log_of c)
            (log_of (attempt (logged env) config method path payload wanted again c).1)
    unfolding attempt
    attempt-Sends n again c h =
        let x = ensure_token (logged env) config c in
        subst
          (λ l.
            Sends IsFor (suc n) l
              (log_of (sent (logged env) config method path payload wanted again x).1))
          (ensure_token-log c) (sent-Sends n again x h)

    -- Whatever Keycloak, the clock and the gateway do, a call sends its request at most twice, and
    -- nothing else to the gateway.
    pub do_json-Sends :
        (c : Client (List Request × W))
        → Sends IsFor 2
            (log_of c)
            (log_of (do_json (logged env) config method path payload wanted c).1)
    unfolding do_json do_json_with_retry
    do_json-Sends c =
        attempt-Sends 1
          (λ d.
            attempt (logged env) config method path payload wanted (λ x. (failed 0, x))
              (record d { access_token = "" }))
          c
          (λ d.
            attempt-Sends 0 (λ x. (failed 0, x)) (record d { access_token = "" })
              (λ x. no_more 0 (log_of x)))
