-- ===== src/Api/Client/Synced.antt =====
-- The sessions of the class Api of api/api.py follow its base URL.
use goga_tool_pybuggy.Prelude.{
  String, Bool, true, false, Option, [], ◌≡◌, refl, sym, ap, subst, ◌∙◌, Result, ok, err, arith,
  inl, inr, ◌⊎◌, Bool-cases, Option-cases,
}
use goga_tool_pybuggy.Prelude.Text.{Text}
use goga_tool_pybuggy.Matchcrest.Python.{
  Raised, value_error, Run, Run-cases, returned, raised, left,
}
use goga_tool_pybuggy.Api.Web.{Web}
use goga_tool_pybuggy.Api.Client.{
  constructed, validate_adapter, set_default, Target, Client, Kwargs, rebound, init, address, bind,
  get_session, prepared, run_preflight, beside, dispatch, request,
}
use text.Mathlib.Text.{◌==◌ as str_eq}
use text.Mathlib.TextEquality.{eq_iff}

same_ok : {E A : Type 0} {r : Result E A} {x y : A} → r ≡ ok x → r ≡ ok y → x ≡ y
same_ok h h' = cc

module _ (web : Web) where
  open web use {Object, Auth, Response, State}

  -- The adapter is the one that is supported, no session is cached, and the session in use has the
  -- base URL.
  pub record Synced (api : Client web) : Type 0 where
    pub adapter_supported : api.default_adapter ≡ "requests"
    pub none_cached : api.sessions ≡ []
    pub session_follows :
        api.client
        ≡ record { url = api.base_url; adapter = api.default_adapter; timeout = api.timeout }

  init-Synced : (given api : Client web) → init web given ≡ ok api → Synced api
  unfolding init validate_adapter constructed
  init-Synced given api h = elim (Bool-cases (str_eq given.default_adapter "requests")) [
    | inl e ↦
        subst Synced {x = constructed web given} (same_ok {r = init web given} (rw e refl) h)
          (record {
            adapter_supported = (eq_iff _ _).0 e;
            none_cached = refl;
            session_follows = refl;
          })
    | inr e ↦ absurd (ground arith)
  ]

  bind-Synced :
      (target : Target web) (api : Client web) (s : State)
      → Synced api
      → Synced (left (bind web target api s)).0
  unfolding bind rebound
  bind-Synced target api s h = elim (Option-cases (address web target)) [
    | inl e ↦ rw (e, left) h
    | inr (url, e) ↦
        rw (e, left)
          (record {
            adapter_supported = h.adapter_supported;
            none_cached = refl;
            session_follows = refl;
          })
  ]

  get_session-Synced :
      (adapter : String) (api : Client web)
      → Synced api
      → ((str_eq adapter "requests" ≡ false) × (get_session web adapter api ≡ err value_error))
        ⊎ ((str_eq adapter "requests" ≡ true)
            × (get_session web adapter api ≡ ok (api.client, api)))
  unfolding get_session validate_adapter
  get_session-Synced adapter api h = elim (Bool-cases (str_eq adapter "requests")) [
    | inr e ↦ inl (e, rw e refl)
    | inl e ↦
        let same =
          (eq_iff adapter api.default_adapter).1
            ((eq_iff adapter "requests").0 e ∙ sym h.adapter_supported) in
        inr (e, rw e (rw same refl))
  ]

  -- Whether the adapter of a call, or else the client's own, is the one that is supported.
  abbrev pub supported : Client web → Kwargs web → Bool
  supported api kwargs = str_eq (set_default api.default_adapter kwargs.adapter) "requests"

  dispatch-Synced :
      (method url_path : Text) (kwargs : Kwargs web) (api : Client web) (s : State)
      → Synced api
      → ((supported api kwargs ≡ false)
          × (dispatch web method url_path kwargs api s ≡ raised value_error (api, s)))
        ⊎ ((supported api kwargs ≡ true)
            × (dispatch web method url_path kwargs api s
                ≡ beside web api (web.send (prepared web method url_path kwargs api api.client) s)))
  unfolding dispatch
  dispatch-Synced method url_path kwargs api s h =
      elim (get_session-Synced (set_default api.default_adapter kwargs.adapter) api h) [
        | inl (b, e) ↦ inl (b, rw (e, dispatch) refl)
        | inr (b, e) ↦ inr (b, rw (e, dispatch) refl)
      ]

  -- What a request does on a client whose sessions are in order: it runs the pre-flight and stops with
  -- its exception; or, where the adapter is not the supported one, raises a ValueError; or, where it
  -- is, calls the verb on the one session that there is.
  abbrev pub Requested :
      Text → Text → Kwargs web → Client web → State → Run (Client web × State) Response → Type 0
  Requested method url_path kwargs api s r =
      ((e : Raised) × (s' : State) × (run_preflight web api.preflight s ≡ raised e s')
        × (r ≡ raised e (api, s')))
      ⊎ ((s' : State) × (run_preflight web api.preflight s ≡ returned tt s')
          × (((supported api kwargs ≡ false) × (r ≡ raised value_error (api, s')))
              ⊎ ((supported api kwargs ≡ true)
                  × (r
                      ≡ beside web api
                          (web.send (prepared web method url_path kwargs api api.client) s')))))

  pub request-Requested :
      (method url_path : Text) (kwargs : Kwargs web) (api : Client web) (s : State)
      → Synced api
      → Requested method url_path kwargs api s (request web method url_path kwargs api s)
  unfolding request
  request-Requested method url_path kwargs api s h =
      elim (Run-cases (run_preflight web api.preflight s)) [
        | inr (e, s', p) ↦ inl (e, s', p, rw (p, request) refl)
        | inl (x, s', p) ↦
            inr (s', p, rw (p, request) (dispatch-Synced method url_path kwargs api s' h))
      ]

  left-beside :
      {A : Type 0} (api : Client web) (r : Run State A) → (left (beside web api r)).0 ≡ api
  left-beside api (returned x s) = refl
  left-beside api (raised e s) = refl

  -- The client after a request is the client before it.
  request-left :
      (method url_path : Text) (kwargs : Kwargs web) (api : Client web) (s : State)
      → Synced api
      → (left (request web method url_path kwargs api s)).0 ≡ api
  request-left method url_path kwargs api s h =
      elim (request-Requested method url_path kwargs api s h) [
        | inl (e, s', p, r) ↦ ap (λ (z : Run (Client web × State) Response). (left z).0) r
        | inr (s', p, inl (b, r)) ↦ ap (λ (z : Run (Client web × State) Response). (left z).0) r
        | inr (s', p, inr (b, r)) ↦
            ap (λ (z : Run (Client web × State) Response). (left z).0) r ∙ left-beside api _
      ]

  -- What a program does with a client: it makes one, sets the default authenticator, binds it, and
  -- sends requests, whatever the outcome of each.
  pub data Reachable : Client web → Type 0 where
    made : (given : Client web) {api : Client web} → init web given ≡ ok api → Reachable api
    auth_set :
        {api : Client web} (auth : Option Auth)
        → Reachable api
        → Reachable (record api { auth = auth })
    bound :
        {api : Client web} (target : Target web) (s : State)
        → Reachable api
        → Reachable (left (bind web target api s)).0
    requested :
        {api : Client web} (method url_path : Text) (kwargs : Kwargs web) (s : State)
        → Reachable api
        → Reachable (left (request web method url_path kwargs api s)).0

  -- At any time in the life of a client its adapter is the one that is supported, its table of further
  -- sessions is empty, and the session in use has the client's base URL, adapter and timeout.
  pub Reachable-Synced : (api : Client web) → Reachable api → Synced api
  Reachable-Synced api (made given {api = a} h) = init-Synced given a h
  Reachable-Synced api (auth_set {api = a} auth r) =
      let h = Reachable-Synced a r in
      record {
        adapter_supported = h.adapter_supported;
        none_cached = h.none_cached;
        session_follows = h.session_follows;
      }
  Reachable-Synced api (bound {api = a} target s r) = bind-Synced target a s (Reachable-Synced a r)
  Reachable-Synced api (requested {api = a} method url_path kwargs s r) =
      let h = Reachable-Synced a r in
      subst Synced (sym (request-left method url_path kwargs a s h)) h
